-- ===== src/Tests/Resolution.antt =====
-- A package in two catalogs, one of which has the higher priority.
use operator_controller.Prelude.{
  String, ◌≡◌, refl, List, [], ◌∷◌, Option, none, some, Bool, true, false, pos, ok, ◌>>=◌, split,
  join, Result, In, if◌then◌else◌, ◌==◌,
}
use operator_controller.Resolve.{
  Source, CatalogFilter, Found, resolve, version_range, catalog_walker, visit, offer, predicates,
  conclude, unambiguous, resolve_priority, merge, channel_tests, validate,
}
use operator_controller.Compare.{
  new_version_range, by_deprecation, by_version_and_release, compare_errors, compare_flags,
}
use operator_controller.Filter.{delete_func, in_place, conj, delete_func_leftover, disj, negate}
use operator_controller.Catalog.{
  ChannelEntry, Deprecation, DeclarativeConfig, ClusterCatalog, is_fbc_empty, is_deprecated,
}
use operator_controller.Successors.{
  BundleMetadata, successors_of, legacy_successor, exact_version_release, in_any_channel,
  in_semver_range, in_skip_range, is_successor,
}
use operator_controller.Bundle.{
  Bundle, VersionRelease, new_legacy_registry_v1_version_release, get_version_and_release,
  new_release, release_compare, version_release_compare,
}
use operator_controller.Sort.{sort_stable}
use operator_controller.Order.{IsPreorder}
use operator_controller.Externals.{Version}
use operator_controller.Bundle.{as_legacy_registry_v1_version}
use operator_controller.Bundle.Order.{version_release_compare-IsPreorder}
use operator_controller.Bundle.RoundTrip.{as_legacy-new_legacy}
use operator_controller.Compare.Laws.{by_version_and_release-IsPreorder}
use operator_controller.Resolve.{listed, unavailable, start}
use operator_controller.Resolve.Offers.{collect, best, state_of, offer_from, catalog_walker-best}
use operator_controller.Resolve.Priority.{IsTop, resolve_priority-IsTop}
use operator_controller.Resolve.Eligible.{IsEligible}
use operator_controller.Resolve.Sound.{Resolution, resolve-Resolution, resolve-IsEligible}
use operator_controller.Tests.Toy.{toy, toy_laws}

abbrev bundle : String → String → Bundle
bundle name version = record {
  name = name;
  package_name = "p";
  image = name;
  properties = record { kind = "olm.package"; value = version } ∷ [];
}

abbrev entry : String → String → ChannelEntry
entry name replaces = record { name = name; replaces = replaces; skips = []; skip_range = "" }

abbrev package_with : List Deprecation → DeclarativeConfig
package_with ds = record {
  packages = 1;
  channels =
      record { name = "alpha"; entries = entry "p.v3" "p.v2" ∷ [] }
      ∷ record { name = "stable"; entries = entry "p.v1" "" ∷ entry "p.v2" "p.v1" ∷ [] }
      ∷ [];
  bundles = bundle "p.v1" "1" ∷ bundle "p.v2" "11" ∷ bundle "p.v3" "111" ∷ [];
  deprecations = ds;
  others = 0;
}

abbrev notice : Deprecation
notice = record { entries = record { schema = "olm.bundle"; name = "p.v1"; message = "old" } ∷ [] }

abbrev high : ClusterCatalog
high = record { name = "high"; priority = pos 7; availability_mode = "Available" }

abbrev low : ClusterCatalog
low = record { name = "low"; priority = pos 0; availability_mode = "Available" }

abbrev off : ClusterCatalog
off = record { name = "off"; priority = pos 9; availability_mode = "Unavailable" }

abbrev contents : ClusterCatalog → String → Result String (Option DeclarativeConfig)
contents c name = ok (some (package_with (if c.name == "low" then notice ∷ [] else [])))

abbrev source : Source toy
source = record { list_catalogs = λ _. ok (high ∷ off ∷ low ∷ []); get_package = contents }

abbrev wanted : CatalogFilter toy
wanted = record {
  package_name = "p";
  version = "1111";
  channels = "stable" ∷ [];
  selector = true;
  upgrade_constraint_policy = "CatalogProvided";
}

abbrev installed : Option BundleMetadata
installed = some (record { name = "p.v1"; version = "1" })

abbrev v2 : VersionRelease toy
v2 = record {
  version = record { major = 2; minor = 0; patch = 0; pre = []; build = [] };
  release = [];
}

-- The upgrade goes to the successor in the channel asked for; the deprecation is the one of the
-- catalog with the lower priority.
run : resolve toy source [] wanted installed ≡ ok (bundle "p.v2" "11", v2, some notice)
unfolding resolve version_range new_version_range catalog_walker delete_func visit offer
    is_fbc_empty predicates successors_of new_legacy_registry_v1_version_release legacy_successor
    conclude unambiguous resolve_priority merge sort_stable in_place get_version_and_release
    new_release release_compare version_release_compare is_deprecated by_deprecation
    by_version_and_release compare_errors compare_flags conj delete_func_leftover disj negate join
    split channel_tests validate exact_version_release in_any_channel in_semver_range in_skip_range
    is_successor
run = refl

resolve-Resolution_example :
    Resolution toy source [] wanted installed (bundle "p.v2" "11") v2 (some notice)
resolve-Resolution_example =
    resolve-Resolution toy source [] wanted installed toy_laws (bundle "p.v2" "11") v2 (some notice)
      run

abbrev found_high : Found
found_high = record { bundle = bundle "p.v2" "11"; catalog = "high"; priority = pos 7 }

abbrev found_low : Found
found_low = record { bundle = bundle "p.v2" "11"; catalog = "low"; priority = pos 0 }

top_run : unambiguous (resolve_priority (found_low ∷ found_high ∷ [])) ≡ ok found_high
unfolding resolve_priority unambiguous sort_stable
top_run = refl

resolve_priority-IsTop_example : IsTop found_high (found_low ∷ found_high ∷ [])
resolve_priority-IsTop_example =
    resolve_priority-IsTop (found_low ∷ found_high ∷ []) found_high top_run

catalog_walker-best_example :
    catalog_walker toy source "p" (visit toy wanted none installed) false start ≡ (do
      cs ← listed toy (source.list_catalogs false)
      os ← collect (offer_from toy source wanted none installed) (delete_func cs unavailable)
      ok (state_of (best os)))
catalog_walker-best_example = catalog_walker-best toy source wanted none installed false

version_release_compare-IsPreorder_example : IsPreorder (version_release_compare toy)
version_release_compare-IsPreorder_example = version_release_compare-IsPreorder toy toy_laws

by_version_and_release-IsPreorder_example : IsPreorder (by_version_and_release toy)
by_version_and_release-IsPreorder_example = by_version_and_release-IsPreorder toy toy_laws

abbrev with_build : VersionRelease toy
with_build = record {
  version = record { major = 2; minor = 0; patch = 0; pre = []; build = [] };
  release = "a" ∷ "b" ∷ [];
}

abbrev parsed : Version String
parsed = record { major = 2; minor = 0; patch = 0; pre = []; build = "a.b" ∷ [] }

with_build_run : new_legacy_registry_v1_version_release toy "11+a.b" ≡ ok with_build
unfolding new_legacy_registry_v1_version_release new_release split join
with_build_run = refl

parsed_run : toy.parse "11+a.b" ≡ some parsed
unfolding split
parsed_run = refl

as_legacy-new_legacy_example :
    let w = as_legacy_registry_v1_version toy with_build in
    (w ≡ record parsed { build = w.build }) × (join "." w.build ≡ join "." parsed.build)
as_legacy-new_legacy_example =
    as_legacy-new_legacy toy toy_laws "11+a.b" parsed with_build parsed_run with_build_run

resolve-IsEligible_example :
    (cat : ClusterCatalog) × (fbc : DeclarativeConfig) × (range : Option (Version String → Bool))
    × (contents cat "p" ≡ ok (some fbc))
    × (version_range toy "1111" ≡ ok range)
    × In (bundle "p.v2" "11") fbc.bundles
    × IsEligible toy wanted range installed fbc (bundle "p.v2" "11")
resolve-IsEligible_example =
    resolve-IsEligible toy source [] wanted installed toy_laws (bundle "p.v2" "11") v2 (some notice)
      run
