-- ===== src/Component/Resolve.antt =====
-- What `resolve_components` of src/component/mod.rs returns: each requested component once.
use mathlib.Core.List.{◌++◌ as append}
use clawstainer.Base.{
  String, ◌≡◌, refl, Bool, true, false, not, ◌&&◌, ◌||◌, Option, none, some, List, [], ◌∷◌, arith,
  contains, any, eq_iff, ◌==◌, Bool-cases, Option-cases, inl, inr,
}
use clawstainer.Base.Map.{get, contains_key}
use clawstainer.Errors.{Result, ok, err}
use clawstainer.Component.{
  BundleDef, ComponentsFile, push_new, push_all, resolve_name, resolve_from, resolve_components,
}

contains-append :
    (x : String) (xs ys : List String)
    → contains x (append xs ys) ≡ (contains x xs || contains x ys)
contains-append x [] ys = refl
contains-append x (y ∷ xs) ys = ground (arith, contains-append x xs ys)

contains-push_new :
    (x name : String) (resolved : List String)
    → contains x (push_new name resolved) ≡ (contains x resolved || (name == x))
unfolding push_new
contains-push_new x name resolved =
    ground (arith, contains-append x resolved (name ∷ []), eq_iff name x)

contains-push_all :
    (x : String) (names resolved : List String)
    → contains x (push_all names resolved) ≡ (contains x resolved || contains x names)
unfolding push_all
contains-push_all x [] resolved = ground arith
contains-push_all x (name ∷ names) resolved =
    ground
      (arith, contains-push_all x names (push_new name resolved), contains-push_new x name resolved)

-- No text stands twice in the list.
abbrev pub Distinct : List String → Type 0
Distinct [] = Unit {0}
Distinct (x ∷ xs) = (contains x xs ≡ false) × Distinct xs

Distinct-append_one :
    (xs : List String) (name : String)
    → contains name xs ≡ false
    → Distinct xs
    → Distinct (append xs (name ∷ []))
Distinct-append_one [] name h d = (refl, tt)
Distinct-append_one (x ∷ xs) name h d = (
  ground (arith, contains-append x xs (name ∷ []), eq_iff x name, eq_iff name x),
  Distinct-append_one xs name (ground arith) d.1,
)

push_new-Distinct :
    (name : String) (resolved : List String) → Distinct resolved → Distinct (push_new name resolved)
unfolding push_new
push_new-Distinct name resolved d = elim (Bool-cases (contains name resolved)) [
  | inl here ↦ rw here d
  | inr new ↦ rw new (Distinct-append_one resolved name new d)
]

push_all-Distinct :
    (names resolved : List String) → Distinct resolved → Distinct (push_all names resolved)
unfolding push_all
push_all-Distinct [] resolved d = d
push_all-Distinct (name ∷ names) resolved d =
    push_all-Distinct names (push_new name resolved) (push_new-Distinct name resolved d)

-- Whether the request `name` asks for `x`: as a member of the bundle of that name, or, where no
-- bundle has the name, as the component itself.
abbrev asks : Option BundleDef → String → String → Bool
asks (some bundle) name x = contains x bundle.components
asks none name x = name == x

abbrev pub requested : ComponentsFile → List String → String → Bool
requested file names x = any (λ name. asks (get name file.bundles) name x) names

-- Whether no bundle and no component has one of these names.
abbrev pub some_unknown : ComponentsFile → List String → Bool
some_unknown file names =
    any (λ name. not (contains_key name file.bundles) && not (contains_key name file.components))
      names

-- What is to come of `names`, with the components `before` there already.
abbrev pub Resolves : ComponentsFile → List String → List String → Result (List String) → Type 0
Resolves file names before (ok result) =
    Distinct result
    × ((x : String) → contains x result ≡ (contains x before || requested file names x))
    × (some_unknown file names ≡ false)
Resolves file names before (err e) = some_unknown file names ≡ true

-- One name resolved to `after`, and the rest of them from there on.
Resolves-cons :
    (name : String) (names : List String) (file : ComponentsFile) (before after : List String)
    (r : Result (List String))
    → ((x : String) → contains x after ≡ (contains x before || asks (get name file.bundles) name x))
    → not (contains_key name file.bundles) && not (contains_key name file.components) ≡ false
    → Resolves file names after r
    → Resolves file (name ∷ names) before r
Resolves-cons name names file before after (ok result) h k r =
    (r.0, λ x. ground (arith, h x, r.1 x), ground (arith, k, r.2))
Resolves-cons name names file before after (err e) h k r = ground (arith, k, r)

Resolves-bundle :
    (name : String) (names : List String) (file : ComponentsFile) (before : List String)
    (bundle : BundleDef) (r : Result (List String))
    → get name file.bundles ≡ some bundle
    → Resolves file names (push_all bundle.components before) r
    → Resolves file (name ∷ names) before r
unfolding contains_key
Resolves-bundle name names file before bundle r found h =
    Resolves-cons name names file before (push_all bundle.components before) r
      (λ x. rw found (contains-push_all x bundle.components before)) (rw found refl) h

Resolves-component :
    (name : String) (names : List String) (file : ComponentsFile) (before : List String)
    (r : Result (List String))
    → get name file.bundles ≡ none
    → contains_key name file.components ≡ true
    → Resolves file names (push_new name before) r
    → Resolves file (name ∷ names) before r
Resolves-component name names file before r none_found known h =
    Resolves-cons name names file before (push_new name before) r
      (λ x. rw none_found (contains-push_new x name before)) (rw known (ground arith)) h

resolve_from-Resolves :
    (names : List String) (file : ComponentsFile) (resolved : List String)
    → Distinct resolved
    → Resolves file names resolved (resolve_from names file resolved)
unfolding resolve_from resolve_name contains_key
resolve_from-Resolves [] file resolved d = (d, λ x. ground arith, refl)
resolve_from-Resolves (name ∷ names) file resolved d = elim (Option-cases (get name file.bundles)) [
  | inl none_found ↦ elim (Bool-cases (contains_key name file.components)) [
    | inl known ↦
        rw (none_found, known)
          (Resolves-component name names file resolved
            (resolve_from names file (push_new name resolved)) none_found known
            (resolve_from-Resolves names file (push_new name resolved)
              (push_new-Distinct name resolved d)))
    | inr unknown ↦ rw (none_found, unknown) (ground (arith, none_found, unknown))
  ]
  | inr (bundle, found) ↦ rw found (
      Resolves-bundle name names file resolved bundle
        (resolve_from names file (push_all bundle.components resolved)) found
        (resolve_from-Resolves names file (push_all bundle.components resolved)
          (push_all-Distinct bundle.components resolved d)))
]

-- `resolve_components` fails exactly where some requested name is neither a bundle nor a component;
-- otherwise its list has no duplicates, and has a component exactly where a request names it or
-- names a bundle, which goes before a component of the same name, with it as a member.
pub resolve_components-Resolves :
    (names : List String) (file : ComponentsFile)
    → Resolves file names [] (resolve_components names file)
unfolding resolve_components
resolve_components-Resolves names file = resolve_from-Resolves names file [] tt
