-- ===== src/Bundle.antt =====
-- internal/operator-controller/bundle/versionrelease.go and
-- internal/operator-controller/bundleutil/bundle.go: the version and the release of a bundle.
pub mod Order
pub mod RoundTrip
use operator_controller.Prelude.{
  ℕ, suc, ◌+◌, String, ◌≡◌, refl, List, [], ◌∷◌, ◌++◌, map, Option, none, some, Ordering, lt, eq,
  gt, Bool, true, false, Result, ok, err, ◌>>=◌, split, join, if◌then◌else◌, ◌==◌,
}
use operator_controller.Order.{then_by}
use operator_controller.Externals.{Version, Externals}

-- the parts of `declcfg.Bundle` and `property.Property` that the code reads
pub record Property : Type 0 where
  pub kind : String
  pub value : String

pub record Bundle : Type 0 where
  pub name : String
  pub package_name : String
  pub image : String
  pub properties : List Property

-- `property.TypePackage`
abbrev pub type_package : String
type_package = "olm.package"

pub data VersionError : Type 0 where
  invalid_version : String → VersionError
  invalid_package_property : VersionError
  no_package_property : String → VersionError

module _ (x : Externals) where
  open x use {PrVersion, new_pr_version, pr_string, parse, compare, unmarshal_package_version}

  abbrev pub Release : Type 0
  Release = List PrVersion

  -- The loop over the segments: the release so far, and the positions of the invalid segments.
  release_loop : ℕ → List String → Release → List ℕ → Release × List ℕ
  release_loop i [] r errs = (r, errs)
  release_loop i (segment ∷ segments) r errs = elim (new_pr_version segment) [
    | none ↦ release_loop (suc i) segments r (errs ++ i ∷ [])
    | some pr ↦ release_loop (suc i) segments (r ++ pr ∷ []) errs
  ]

  abbrev pub unless_errors : Release × List ℕ → Result (List ℕ) Release
  unless_errors (r, []) = ok r
  unless_errors (r, (e ∷ es)) = err (e ∷ es)

  -- `NewRelease`; the error names the invalid segments
  unfoldable pub new_release : String → Result (List ℕ) Release
  unfolding release_loop
  new_release s = if s == "" then ok [] else unless_errors (release_loop 0 (split "." s) [] [])

  pub record VersionRelease : Type 0 where
    pub version : Version PrVersion
    pub release : Release

  abbrev pub with_release : Version PrVersion → Result (List ℕ) Release → VersionRelease
  with_release v (ok rel) = record { version = record v { build = [] }; release = rel }
  with_release v (err _) = record { version = v; release = [] }

  -- `NewLegacyRegistryV1VersionRelease`
  unfoldable pub new_legacy_registry_v1_version_release :
      String → Result VersionError VersionRelease
  new_legacy_registry_v1_version_release s = elim (parse s) [
    | none ↦ err (invalid_version s)
    | some vers ↦ ok (with_release vers (new_release (join "." vers.build)))
  ]

  -- `bsemver.Version{Pre: r}`
  abbrev pub as_pre : Release → Version PrVersion
  as_pre r = record { major = 0; minor = 0; patch = 0; pre = r; build = [] }

  -- `Release.Compare`
  unfoldable pub release_compare : Release → Release → Ordering
  release_compare [] (_ ∷ _) = lt
  release_compare (_ ∷ _) [] = gt
  release_compare r other = compare (as_pre r) (as_pre other)

  -- `VersionRelease.Compare`
  unfoldable pub version_release_compare : VersionRelease → VersionRelease → Ordering
  version_release_compare vr other =
      then_by (compare vr.version other.version) (release_compare vr.release other.release)

  abbrev pub release_build : Release → List String → List String
  release_build [] build = build
  release_build (pr ∷ rest) build = map pr_string (pr ∷ rest)

  unfoldable pub as_legacy_registry_v1_version : VersionRelease → Version PrVersion
  as_legacy_registry_v1_version vr = record {
    major = vr.version.major;
    minor = vr.version.minor;
    patch = vr.version.patch;
    pre = vr.version.pre;
    build = release_build vr.release vr.version.build;
  }

  abbrev pub version_of_package : Option String → Result VersionError VersionRelease
  version_of_package none = err invalid_package_property
  version_of_package (some v) = new_legacy_registry_v1_version_release v

  -- The loop of `GetVersionAndRelease`: the first package property decides.
  properties_loop : String → List Property → Result VersionError VersionRelease
  properties_loop name [] = err (no_package_property name)
  properties_loop name (p ∷ ps) =
      if p.kind == type_package
      then version_of_package (unmarshal_package_version p.value)
      else properties_loop name ps

  unfoldable pub get_version_and_release : Bundle → Result VersionError VersionRelease
  unfolding properties_loop
  get_version_and_release b = properties_loop b.name b.properties
