-- ===== src/Extension/Reported.antt =====
-- What the deprecation conditions report.
use operator_controller.Prelude.{
  String, ◌≡◌, refl, ap, ◌∙◌, List, [], ◌∷◌, ◌++◌, Option, some, Bool, true, false, if◌then◌else◌,
  ◌==◌, ◌||◌, ◌&&◌, not, any_of, arith, eq_refl, ℕ,
}
use operator_controller.Kube.{
  Condition, ConditionStatus, is_true, is_false, is_unknown, is_status_true,
}
use operator_controller.Catalog.{Deprecation, DeprecationEntry}
use operator_controller.Extension.{ExtensionApi, ClusterExtension, CatalogSource, MessageText}
use operator_controller.Extension.Conditions.{set_status_condition}
use operator_controller.Extension.Deprecations.{
  select, channels_of, is_of_package, is_of_channel, is_of_bundle, entries_of,
  build_deprecation_info, collect_deprecation_messages, set_deprecated, set_bundle_deprecated,
  set_deprecation_status,
}

abbrev has_message : DeprecationEntry → Bool
has_message e = not (e.message == "")

abbrev is_nonempty : List String → Bool
is_nonempty [] = false
is_nonempty (_ ∷ _) = true

nonempty-append :
    (xs ys : List String) → is_nonempty (xs ++ ys) ≡ (is_nonempty xs || is_nonempty ys)
nonempty-append [] ys = refl
nonempty-append (_ ∷ _) ys = refl

nonempty-collect :
    (keep : DeprecationEntry → Bool) (es : List DeprecationEntry)
    → is_nonempty (collect_deprecation_messages (select keep es))
      ≡ any_of (λ e. has_message e && keep e) es
unfolding collect_deprecation_messages
nonempty-collect keep [] = refl
nonempty-collect keep (e ∷ es) = ground (arith, nonempty-collect keep es)

any_of-or :
    (f p q r : DeprecationEntry → Bool) (es : List DeprecationEntry)
    → (any_of (λ e. f e && p e) es || (any_of (λ e. f e && q e) es || any_of (λ e. f e && r e) es))
      ≡ any_of (λ e. f e && (p e || (q e || r e))) es
any_of-or f p q r [] = refl
any_of-or f p q r (e ∷ es) = ground (arith, any_of-or f p q r es)

all_three :
    (es : List DeprecationEntry) (q r : DeprecationEntry → Bool)
    → (is_nonempty (collect_deprecation_messages (select is_of_package es))
        || (is_nonempty (collect_deprecation_messages (select q es))
            || is_nonempty (collect_deprecation_messages (select r es))))
      ≡ (any_of (λ e. has_message e && is_of_package e) es
          || (any_of (λ e. has_message e && q e) es || any_of (λ e. has_message e && r e) es))
all_three es q r =
    rw (nonempty-collect is_of_package es)
      (rw (nonempty-collect q es) (rw (nonempty-collect r es) refl))

-- The entry is one for this extension: of its package, of one of its channels (of any, if it names
-- none), or of the bundle that is installed.
abbrev pub concerns : Option CatalogSource → String → DeprecationEntry → Bool
concerns catalog installed e =
    is_of_package e || (is_of_channel (channels_of catalog) e || is_of_bundle installed e)

module _ (a : ExtensionApi)
    (find-set : (cs : a.conditions.Conditions) (c : Condition (List ℕ)) (kind : String)
      → a.conditions.find (a.conditions.set cs c).0 kind
        ≡ (if c.kind == kind then some c else a.conditions.find cs kind)) where
  open a.conditions use {find, set}

  other-condition :
      (kind k reason : String) (status : ConditionStatus) (m : MessageText)
      (ext : ClusterExtension a)
      → (k == kind) ≡ false
      → find (set_status_condition a k status reason m ext).conditions kind
        ≡ find ext.conditions kind
  unfolding set_status_condition
  other-condition kind k reason status m ext h = rw (find-set _ _ _) (rw h refl)

  reported :
      (kind : String) (messages : List String) (otherwise : String) (ext : ClusterExtension a)
      → is_status_true (find (set_deprecated a kind otherwise messages ext).conditions kind)
        ≡ is_nonempty messages
  unfolding set_status_condition
  reported kind [] otherwise ext = rw (find-set _ _ _) (rw (eq_refl kind) refl)
  reported kind (_ ∷ _) otherwise ext = rw (find-set _ _ _) (rw (eq_refl kind) refl)

  other-deprecated :
      (kind k otherwise : String) (messages : List String) (ext : ClusterExtension a)
      → (k == kind) ≡ false
      → find (set_deprecated a k otherwise messages ext).conditions kind ≡ find ext.conditions kind
  other-deprecated kind k otherwise [] ext h = other-condition kind k _ _ _ ext h
  other-deprecated kind k otherwise (_ ∷ _) ext h = other-condition kind k _ _ _ ext h

  other-bundle :
      (kind : String) (status : ConditionStatus) (messages : List String) (ext : ClusterExtension a)
      → ("BundleDeprecated" == kind) ≡ false
      → find (set_bundle_deprecated a status messages ext).conditions kind
        ≡ find ext.conditions kind
  other-bundle kind is_unknown messages ext h = other-condition kind "BundleDeprecated" _ _ _ ext h
  other-bundle kind is_true messages ext h =
      other-deprecated kind "BundleDeprecated" _ messages ext h
  other-bundle kind is_false messages ext h =
      other-deprecated kind "BundleDeprecated" _ messages ext h

  -- With data of the catalog, the condition Deprecated is True exactly if some deprecation entry that
  -- concerns the extension has a message.
  pub set_deprecation_status-eq-any_of :
      (installed : String) (deprecation : Option Deprecation) (ext : ClusterExtension a)
      → is_status_true
          (find (set_deprecation_status a installed deprecation true ext).conditions "Deprecated")
        ≡ any_of (λ e. has_message e && concerns ext.catalog installed e) (entries_of deprecation)
  unfolding set_deprecation_status build_deprecation_info
  set_deprecation_status-eq-any_of installed deprecation ext =
      let es = entries_of deprecation in
      let of_channel = is_of_channel (channels_of ext.catalog) in
      let of_bundle = is_of_bundle installed in
      ap is_status_true (
        other-bundle "Deprecated" _ _ _ refl
        ∙ (other-deprecated "Deprecated" "ChannelDeprecated" _ _ _ refl
            ∙ other-deprecated "Deprecated" "PackageDeprecated" _ _ _ refl))
      ∙ (reported "Deprecated" _ _ ext
          ∙ (nonempty-append (collect_deprecation_messages (select is_of_package es)) _
              ∙ (ap (λ b. is_nonempty (collect_deprecation_messages (select is_of_package es)) || b)
                    (nonempty-append (collect_deprecation_messages (select of_channel es)) _)
                  ∙ (all_three es of_channel of_bundle
                      ∙ any_of-or has_message is_of_package of_channel of_bundle es))))
