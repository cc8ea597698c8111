-- ===== src/Catalog.antt =====
-- The parts of the file-based catalogs (`declcfg`) and of `ClusterCatalog` (api/v1) that bundle
-- resolution reads.
use operator_controller.Prelude.{
  ℕ, ℤ, Bool, true, false, String, List, [], Option, none, some, length, ◌&&◌, ◌==◌, nat_eq, any_of,
}
use operator_controller.Bundle.{Bundle}

pub record ChannelEntry : Type 0 where
  pub name : String
  pub replaces : String
  pub skips : List String
  pub skip_range : String

pub record Channel : Type 0 where
  pub name : String
  pub entries : List ChannelEntry

-- `Reference.Schema`, `Reference.Name` and `Message`
pub record DeprecationEntry : Type 0 where
  pub schema : String
  pub name : String
  pub message : String

pub record Deprecation : Type 0 where
  pub entries : List DeprecationEntry

-- packages and other metas are only counted
pub record DeclarativeConfig : Type 0 where
  pub packages : ℕ
  pub channels : List Channel
  pub bundles : List Bundle
  pub deprecations : List Deprecation
  pub others : ℕ

-- `declcfg.SchemaBundle` and its siblings
abbrev pub schema_package : String
schema_package = "olm.package"

abbrev pub schema_channel : String
schema_channel = "olm.channel"

abbrev pub schema_bundle : String
schema_bundle = "olm.bundle"

abbrev pub zero_channel : Channel
zero_channel = record { name = ""; entries = [] }

pub record ClusterCatalog : Type 0 where
  pub name : String
  pub priority : ℤ  -- int32
  pub availability_mode : String

abbrev pub availability_mode_unavailable : String
availability_mode_unavailable = "Unavailable"

-- `isFBCEmpty`
unfoldable pub is_fbc_empty : Option DeclarativeConfig → Bool
is_fbc_empty none = true
is_fbc_empty (some fbc) =
    nat_eq fbc.packages 0
    && nat_eq (length fbc.channels) 0
    && nat_eq (length fbc.bundles) 0
    && nat_eq (length fbc.deprecations) 0
    && nat_eq fbc.others 0

-- `isDeprecated`: the loop over the entries
unfoldable pub is_deprecated : Bundle → Option Deprecation → Bool
is_deprecated b none = false
is_deprecated b (some d) =
    any_of (λ entry. (entry.schema == schema_bundle) && (entry.name == b.name)) d.entries
