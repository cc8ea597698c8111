-- ===== src/Compare.antt =====
-- internal/operator-controller/catalogmetadata/compare/compare.go: version ranges, and the orders
-- by which the bundles of a package are sorted.
pub mod Laws
use operator_controller.Prelude.{
  String, List, [], ◌∷◌, map, Option, none, some, Ordering, lt, eq, gt, Bool, true, false, ◌&&◌,
  not, Result, ok, err, join, if◌then◌else◌, ◌==◌, contains,
}
use operator_controller.Order.{then_by}
use operator_controller.Externals.{Version, MmVersion, Externals}
use operator_controller.Bundle.{
  Bundle, VersionError, VersionRelease, version_release_compare, get_version_and_release,
}
use operator_controller.Catalog.{DeprecationEntry, Deprecation, schema_bundle}

-- `compareErrors`, over whether the errors are non-nil
unfoldable pub compare_errors : Bool → Bool → Ordering
compare_errors err1 err2 = if err1 && not err2 then lt else if not err1 && err2 then gt else eq

module _ (x : Externals) where
  -- `newMastermindsRange`: a blang version is handed over in its parts
  abbrev pub to_masterminds : Version x.PrVersion → MmVersion
  to_masterminds v = record {
    major = v.major;
    minor = v.minor;
    patch = v.patch;
    pre = join "." (map x.pr_string v.pre);
    metadata = join "." v.build;
  }

  unfoldable pub new_version_range : String → Option (Version x.PrVersion → Bool)
  new_version_range range = elim (x.new_constraint range) [
    | none ↦ none
    | some check ↦ some (λ v. check (to_masterminds v))
  ]

  by_results :
      Result VersionError (VersionRelease x) → Result VersionError (VersionRelease x) → Ordering
  unfolding compare_errors
  by_results (ok vr1) (ok vr2) = version_release_compare x vr2 vr1
  by_results (ok _) (err _) = compare_errors true false
  by_results (err _) (ok _) = compare_errors false true
  by_results (err _) (err _) = compare_errors true true

  unfoldable pub by_version_and_release : Bundle → Bundle → Ordering
  unfolding by_results
  by_version_and_release b1 b2 =
      by_results (get_version_and_release x b1) (get_version_and_release x b2)

-- the names that `ByDeprecationFunc` collects
deprecated_bundles : List DeprecationEntry → List String
deprecated_bundles [] = []
deprecated_bundles (entry ∷ entries) =
    let rest = deprecated_bundles entries in
    if entry.schema == schema_bundle then entry.name ∷ rest else rest

unfoldable pub compare_flags : Bool → Bool → Ordering
compare_flags a b = if a && not b then gt else if not a && b then lt else eq

-- `ByDeprecationFunc`: deprecated bundles come last
unfoldable pub by_deprecation : Deprecation → Bundle → Bundle → Ordering
unfolding deprecated_bundles compare_flags
by_deprecation d a b =
    let names = deprecated_bundles d.entries in
    compare_flags (contains a.name names) (contains b.name names)
