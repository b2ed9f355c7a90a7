-- ===== src/Component.antt =====
-- src/component/mod.rs: the components that can be installed, and bundles of them. The file
-- components.yaml is parsed by `serde_yaml`, so its contents are a parameter here.
pub mod Resolve
pub mod Provisioner
use Prim.Native.String.{◌++◌}
use mathlib.Core.List.{◌++◌ as append}
use clawstainer.Base.{ℕ, String, Bool, Option, none, some, List, [], ◌∷◌, contains, if◌then◌else◌}
use clawstainer.Base.Map.{Map, get, contains_key}
use clawstainer.Errors.{claw, provision_failed, Result, ok, err}

pub record ComponentDef : Type 0 where
  pub install : String
  pub verify : String
  pub tags : List String
  pub timeout : Option ℕ

pub record BundleDef : Type 0 where
  pub components : List String

pub record ComponentsFile : Type 0 where
  pub components : Map ComponentDef
  pub bundles : Map BundleDef

pub record ComponentResult : Type 0 where
  pub component : String
  pub status : String
  pub error : Option String
  pub duration_ms : ℕ

pub record ProvisionResult : Type 0 where
  pub machine_id : String
  pub results : List ComponentResult

-- `if !resolved.contains(name) { resolved.push(name) }`
unfoldable pub push_new : String → List String → List String
push_new name resolved = if contains name resolved then resolved else append resolved (name ∷ [])

unfoldable pub push_all : List String → List String → List String
push_all [] resolved = resolved
push_all (name ∷ names) resolved = push_all names (push_new name resolved)

-- One turn of the loop over the names.
unfoldable pub resolve_name :
    Option BundleDef → String → ComponentsFile → List String → Result (List String)
resolve_name (some bundle) name file resolved = ok (push_all bundle.components resolved)
resolve_name none name file resolved =
    if contains_key name file.components
    then ok (push_new name resolved)
    else err (claw (provision_failed ("Unknown component or bundle: " ++ name)))

abbrev and_then : Result (List String) → (List String → Result (List String)) → Result (List String)
and_then (ok xs) f = f xs
and_then (err e) f = err e

unfoldable pub resolve_from : List String → ComponentsFile → List String → Result (List String)
resolve_from [] file resolved = ok resolved
resolve_from (name ∷ names) file resolved =
    and_then (resolve_name (get name file.bundles) name file resolved) (resolve_from names file)

unfoldable pub resolve_components : List String → ComponentsFile → Result (List String)
unfolding resolve_from
resolve_components names file = resolve_from names file []
