-- ===== src/Successors.antt =====
-- internal/operator-controller/catalogmetadata/filter: the predicates on bundles (channels, version
-- range, upgrade edges).
use operator_controller.Prelude.{
  String, List, [], ◌∷◌, none, some, Bool, true, false, ◌&&◌, Result, ok, err, ◌>>=◌, eq, Ordering,
  if◌then◌else◌, ◌==◌, any_of,
}
use operator_controller.Externals.{Version, Externals}
use operator_controller.Bundle.{
  Bundle, VersionError, VersionRelease, version_release_compare, get_version_and_release,
  new_legacy_registry_v1_version_release, invalid_version,
}
use operator_controller.Catalog.{Channel, ChannelEntry}
use operator_controller.Filter.{disj}

-- `ocv1.BundleMetadata`
pub record BundleMetadata : Type 0 where
  pub name : String
  pub version : String

-- the two nested loops of `InAnyChannel`
unfoldable pub in_any_channel : List Channel → Bundle → Bool
in_any_channel channels b =
    any_of (λ ch. any_of (λ entry. entry.name == b.name) ch.entries) channels

abbrev is_eq : Ordering → Bool
is_eq eq = true
is_eq _ = false

module _ (x : Externals) where
  unfoldable pub exact_version_release : VersionRelease x → Bundle → Bool
  exact_version_release expect b = elim (get_version_and_release x b) [
    | ok actual ↦ is_eq (version_release_compare x expect actual)
    | err _ ↦ false
  ]

  unfoldable pub in_semver_range : (Version x.PrVersion → Bool) → Bundle → Bool
  in_semver_range range b = elim (get_version_and_release x b) [
    | ok vr ↦ range vr.version
    | err _ ↦ false
  ]

  -- the version lies in the range of an entry, if that range parses
  unfoldable pub in_skip_range : String → Version x.PrVersion → Bool
  in_skip_range range v =
      if range == ""
      then false
      else elim (x.parse_range range) [ none ↦ false | some skips ↦ skips v ]

  -- `isSuccessor` of `legacySuccessor`
  unfoldable pub is_successor : BundleMetadata → Version x.PrVersion → ChannelEntry → Bool
  is_successor installed v entry =
      if entry.replaces == installed.name
      then true
      else if any_of (λ skip. skip == installed.name) entry.skips
      then true
      else in_skip_range entry.skip_range v

  abbrev pub is_edge : BundleMetadata → Version x.PrVersion → Bundle → Channel → Bool
  is_edge installed v b ch =
      any_of (λ entry. (b.name == entry.name) && is_successor installed v entry) ch.entries

  unfoldable pub legacy_successor :
      BundleMetadata → List Channel → Result VersionError (Bundle → Bool)
  legacy_successor installed channels = elim (x.parse installed.version) [
    | none ↦ err (invalid_version installed.version)
    | some v ↦ ok (λ b. any_of (is_edge installed v b) channels)
  ]

  -- `SuccessorsOf`
  unfoldable pub successors_of : BundleMetadata → List Channel → Result VersionError (Bundle → Bool)
  successors_of installed channels = do
    vr ← new_legacy_registry_v1_version_release x installed.version
    is_next ← legacy_successor installed channels
    ok (disj (is_next ∷ exact_version_release vr ∷ []))
