-- ===== src/Base/Put.antt =====
-- `++` on texts by clauses, which computes when its first text is known: for proofs.
use mathlib.Core.Path.{◌≡◌, refl, sym, ap, ◌∙◌}
use Prim.Native.String.{String, ◌++◌}
use text.Mathlib.TextLemmas.{nil-append, cons-append, append-nil}

abbrev pub put : String → String → String
put String.[] t = t
put (String.◌∷◌ c s) t = String.◌∷◌ c (put s t)

pub append-put : (s t : String) → s ++ t ≡ put s t
append-put String.[] t = nil-append t
append-put (String.◌∷◌ c s) t = cons-append c s t ∙ ap (String.◌∷◌ c) (append-put s t)

pub put_assoc : (s t u : String) → put (put s t) u ≡ put s (put t u)
put_assoc String.[] t u = refl
put_assoc (String.◌∷◌ c s) t u = ap (String.◌∷◌ c) (put_assoc s t u)

pub put-nil : (s : String) → put s "" ≡ s
put-nil s = sym (append-put s "") ∙ append-nil s

pub put_cancel : (p s t : String) → put p s ≡ put p t → s ≡ t
put_cancel String.[] s t e = e
put_cancel (String.◌∷◌ c p) s t e = put_cancel p s t (cc e)

pub append_cancel : (p s t : String) → p ++ s ≡ p ++ t → s ≡ t
append_cancel p s t e = put_cancel p s t (sym (append-put p s) ∙ e ∙ append-put p t)
