-- ===== src/Extension/Deprecations.antt =====
-- The deprecation conditions of clusterextension_controller.go.
use operator_controller.Prelude.{
  String, List, [], ◌∷◌, ◌++◌, Option, none, some, Bool, if◌then◌else◌, ◌==◌, ◌||◌, ◌&&◌, not,
  length, nat_eq, contains,
}
use operator_controller.Kube.{ConditionStatus, is_true, is_false, is_unknown}
use operator_controller.Catalog.{
  Deprecation, DeprecationEntry, schema_package, schema_channel, schema_bundle,
}
use operator_controller.Extension.{
  CatalogSource, literal, joined_lines, ExtensionApi, ClusterExtension,
}
use operator_controller.Extension.Conditions.{set_status_condition}

pub record DeprecationInfo : Type 0 where
  pub package_entries : List DeprecationEntry
  pub channel_entries : List DeprecationEntry
  pub bundle_entries : List DeprecationEntry
  pub bundle_status : ConditionStatus

abbrev pub select : (DeprecationEntry → Bool) → List DeprecationEntry → List DeprecationEntry
select keep [] = []
select keep (e ∷ rest) = if keep e then e ∷ select keep rest else select keep rest

abbrev pub channels_of : Option CatalogSource → List String
channels_of none = []
channels_of (some c) = c.channels

-- the cases of the switch on the schema
abbrev pub is_of_package : DeprecationEntry → Bool
is_of_package e = e.schema == schema_package

abbrev pub is_of_channel : List String → DeprecationEntry → Bool
is_of_channel channels e =
    (e.schema == schema_channel) && (nat_eq (length channels) 0 || contains e.name channels)

abbrev pub is_of_bundle : String → DeprecationEntry → Bool
is_of_bundle installed e =
    (e.schema == schema_bundle) && (not (installed == "") && (e.name == installed))

abbrev pub entries_of : Option Deprecation → List DeprecationEntry
entries_of none = []
entries_of (some d) = d.entries

abbrev status_of : String → List DeprecationEntry → ConditionStatus
status_of installed entries =
    if installed == "" then is_unknown else if nat_eq (length entries) 0 then is_false else is_true

-- `buildDeprecationInfo`
unfoldable pub build_deprecation_info :
    Option CatalogSource → String → Option Deprecation → DeprecationInfo
build_deprecation_info catalog installed deprecation =
    let entries = entries_of deprecation in
    let of_bundle = select (is_of_bundle installed) entries in
    record {
      package_entries = select is_of_package entries;
      channel_entries = select (is_of_channel (channels_of catalog)) entries;
      bundle_entries = of_bundle;
      bundle_status = status_of installed of_bundle;
    }

unfoldable pub collect_deprecation_messages : List DeprecationEntry → List String
collect_deprecation_messages [] = []
collect_deprecation_messages (e ∷ rest) =
    let more = collect_deprecation_messages rest in
    if e.message == "" then more else e.message ∷ more

abbrev unavailable : String
unavailable = "deprecation status unknown: catalog data unavailable"

module _ (a : ExtensionApi) where
  abbrev Change : Type 0
  Change = ClusterExtension a → ClusterExtension a

  -- True with the messages, or False
  abbrev pub set_deprecated : String → String → List String → Change
  set_deprecated kind otherwise [] ext =
      set_status_condition a kind is_false "NotDeprecated" (literal otherwise) ext
  set_deprecated kind otherwise (m ∷ ms) ext =
      set_status_condition a kind is_true "Deprecated" (joined_lines (m ∷ ms)) ext

  abbrev pub set_bundle_deprecated : ConditionStatus → List String → Change
  set_bundle_deprecated is_unknown messages ext =
      set_status_condition a "BundleDeprecated" is_unknown "Absent"
        (literal "no bundle installed yet") ext
  set_bundle_deprecated is_true messages ext =
      set_deprecated "BundleDeprecated" "bundle not deprecated" messages ext
  set_bundle_deprecated is_false messages ext =
      set_deprecated "BundleDeprecated" "bundle not deprecated" messages ext

  -- the branch without catalog data
  abbrev pub set_unknown : String → Change
  set_unknown installed ext =
      set_status_condition a "BundleDeprecated" is_unknown
        (if installed == "" then "Absent" else "DeprecationStatusUnknown")
        (literal (if installed == "" then "no bundle installed yet" else unavailable))
        (set_status_condition a "ChannelDeprecated" is_unknown "DeprecationStatusUnknown"
          (literal unavailable)
          (set_status_condition a "PackageDeprecated" is_unknown "DeprecationStatusUnknown"
            (literal unavailable)
            (set_status_condition a "Deprecated" is_unknown "DeprecationStatusUnknown"
              (literal unavailable) ext)))

  abbrev pub set_known : DeprecationInfo → Change
  set_known info ext =
      let of_package = collect_deprecation_messages info.package_entries in
      let of_channel = collect_deprecation_messages info.channel_entries in
      let of_bundle = collect_deprecation_messages info.bundle_entries in
      set_bundle_deprecated info.bundle_status of_bundle (
        set_deprecated "ChannelDeprecated" "channel not deprecated" of_channel (
          set_deprecated "PackageDeprecated" "package not deprecated" of_package (
            set_deprecated "Deprecated" "not deprecated" (of_package ++ (of_channel ++ of_bundle))
              ext)))

  unfoldable pub set_deprecation_status : String → Option Deprecation → Bool → Change
  set_deprecation_status installed deprecation has_catalog_data ext =
      if not has_catalog_data
      then set_unknown installed ext
      else set_known (build_deprecation_info ext.catalog installed deprecation) ext
