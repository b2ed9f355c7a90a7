-- ===== src/Runtime/Nspawn/Caps.antt =====
-- `resolve_caps_to_drop` of src/runtime/nspawn.rs. A `HashSet` is a list without repetitions.
use Prim.Native.String.{compare}
use text.Mathlib.Text.{is_le}
use clawstainer.Base.{
  String, ◌≡◌, refl, not, ◌&&◌, ◌||◌, List, [], ◌∷◌, arith, ◌==◌, eq_iff, if◌then◌else◌, contains,
}
use clawstainer.Runtime.{CreateOpts}

abbrev pub strict_cap_drop : List String
strict_cap_drop = "CAP_NET_RAW" ∷ "CAP_SYS_PTRACE" ∷ "CAP_MKNOD" ∷ []

set_insert : String → List String → List String
set_insert cap set = if contains cap set then set else cap ∷ set

set_remove : String → List String → List String
set_remove cap [] = []
set_remove cap (c ∷ set) = let rest = set_remove cap set in if c == cap then rest else c ∷ rest

-- `for cap in caps { drop_set.insert(cap) }`, and the same for `remove`.
unfoldable pub insert_all : List String → List String → List String
unfolding set_insert
insert_all [] set = set
insert_all (cap ∷ caps) set = insert_all caps (set_insert cap set)

unfoldable pub remove_all : List String → List String → List String
unfolding set_remove
remove_all [] set = set
remove_all (cap ∷ caps) set = remove_all caps (set_remove cap set)

-- `caps.sort()`
insert_sorted : String → List String → List String
insert_sorted cap [] = cap ∷ []
insert_sorted cap (c ∷ caps) =
    if is_le (compare cap c) then cap ∷ c ∷ caps else c ∷ insert_sorted cap caps

unfoldable pub sort : List String → List String
unfolding insert_sorted
sort [] = []
sort (c ∷ caps) = insert_sorted c (sort caps)

unfoldable pub resolve_caps_to_drop : CreateOpts → List String
resolve_caps_to_drop opts =
    let baseline = if opts.security == "strict" then insert_all strict_cap_drop [] else [] in
    sort (remove_all opts.cap_add (insert_all opts.cap_drop baseline))

contains-set_insert :
    (x cap : String) (set : List String)
    → contains x (set_insert cap set) ≡ ((cap == x) || contains x set)
unfolding set_insert
contains-set_insert x cap set = ground (arith, eq_iff cap x)

contains-set_remove :
    (x cap : String) (set : List String)
    → contains x (set_remove cap set) ≡ (contains x set && not (cap == x))
unfolding set_remove
contains-set_remove x cap [] = ground arith
contains-set_remove x cap (c ∷ set) =
    ground (arith, contains-set_remove x cap set, eq_iff c cap, eq_iff c x, eq_iff cap x)

contains-insert_all :
    (x : String) (caps set : List String)
    → contains x (insert_all caps set) ≡ (contains x caps || contains x set)
unfolding insert_all
contains-insert_all x [] set = refl
contains-insert_all x (cap ∷ caps) set =
    ground (arith, contains-insert_all x caps (set_insert cap set), contains-set_insert x cap set)

contains-remove_all :
    (x : String) (caps set : List String)
    → contains x (remove_all caps set) ≡ (contains x set && not (contains x caps))
unfolding remove_all
contains-remove_all x [] set = ground arith
contains-remove_all x (cap ∷ caps) set =
    ground (arith, contains-remove_all x caps (set_remove cap set), contains-set_remove x cap set)

contains-insert_sorted :
    (x cap : String) (caps : List String)
    → contains x (insert_sorted cap caps) ≡ ((cap == x) || contains x caps)
unfolding insert_sorted
contains-insert_sorted x cap [] = refl
contains-insert_sorted x cap (c ∷ caps) = ground (arith, contains-insert_sorted x cap caps)

contains-sort : (x : String) (caps : List String) → contains x (sort caps) ≡ contains x caps
unfolding sort
contains-sort x [] = refl
contains-sort x (c ∷ caps) =
    ground (arith, contains-insert_sorted x c (sort caps), contains-sort x caps)

-- A capability is dropped exactly if the strict profile or `--cap-drop` names it, and `--cap-add`
-- does not: what is added back wins over both.
pub contains-resolve_caps_to_drop :
    (opts : CreateOpts) (cap : String)
    → contains cap (resolve_caps_to_drop opts) ≡ (
        (((opts.security == "strict") && contains cap strict_cap_drop)
          || contains cap opts.cap_drop)
        && not (contains cap opts.cap_add))
unfolding resolve_caps_to_drop
contains-resolve_caps_to_drop opts cap =
    simp (contains-sort, contains-remove_all, contains-insert_all)
      (ground (arith, contains-insert_all cap strict_cap_drop []))
