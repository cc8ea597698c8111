-- ===== src/Extension/Steps.antt =====
-- The steps of clusterextension_reconcile_steps.go and boxcutter_reconcile_steps.go, and
-- `ReconcileSteps.Reconcile`.
use operator_controller.Prelude.{
  ℕ, String, List, [], ◌∷◌, Option, none, some, Bool, true, false, Result, ok, err, if◌then◌else◌,
  ◌==◌, ◌||◌, ◌&&◌, not, nat_eq,
}
use operator_controller.Catalog.{Deprecation}
use operator_controller.Successors.{BundleMetadata}
use operator_controller.Exec.{◌>>=◌, ◌>>◌, pure, raise}
use operator_controller.Extension.{
  CatalogSource, ErrorText, validation_errors, retrying_installed, migrating, ExtensionError, plain,
  nil_pointer, MessageText, failed_to_resolve, failed_retrying, unable_to_upgrade, ExtensionApi,
  RevisionMetadata, RevisionStates, ClusterExtension, Action, Ending, ReconcileStep, on_ext,
  on_state, the_ext, the_state,
}
use operator_controller.Extension.Conditions.{
  text_of_error, set_installed_status_from_revision_states, set_installed_status_condition_unknown,
  set_status_progressing, ensure_failure_conditions_with_reason,
}
use operator_controller.Extension.Deprecations.{set_deprecation_status}

-- `finalizer.Result`
pub record FinalizeResult : Type 0 where
  pub updated : Bool
  pub status_updated : Bool

-- what a list of catalogs answers: `none` where the API has no such kind
abbrev pub CatalogAnswer : Type 0
CatalogAnswer = Result String (Option ℕ)

-- what `Resolve` returns: a bundle or an error, and a deprecation
pub record Resolution : Type 0 where
  pub bundle : Result ExtensionError (String × (String × BundleMetadata))
  pub deprecation : Option Deprecation

module _ (a : ExtensionApi) where
  open a.conditions use {Conditions, find, set}

  abbrev Does : Type 0 → Type 0
  Does A = Action a A

  -- a pointer that is dereferenced
  abbrev pub dereference : {A : Type 0} → Option A → Does A
  dereference none = raise nil_pointer
  dereference (some v) = pure v

  -- `setStatusProgressing(ext, err)` and its siblings, then `return nil, err`
  abbrev pub fail_after :
      {A : Type 0} → (ClusterExtension a → ClusterExtension a) → ExtensionError → Does A
  fail_after change e = do on_ext a change; raise e

  abbrev pub deletion : Bool → Ending
  deletion true = some tt
  deletion false = none

  abbrev pub finalized : Result ExtensionError FinalizeResult → ReconcileStep a
  finalized (err e) = fail_after (set_status_progressing a (some e)) e
  finalized (ok r) =
      if r.updated || r.status_updated
      then pure (some tt)
      else (do ext ← the_ext a; pure (deletion ext.deleting))

  unfoldable pub handle_finalizers : Result ExtensionError FinalizeResult → ReconcileStep a
  handle_finalizers answer = finalized answer

  -- `ServiceAccountValidator`, with `none` for an account that is not found
  unfoldable pub service_account_validator : Result String (Option Unit) → Option String
  service_account_validator (ok (some _)) = none
  service_account_validator (ok none) = some "service account not found"
  service_account_validator (err e) = some e

  abbrev pub collect_errors : List (Option String) → List String
  collect_errors [] = []
  collect_errors (none ∷ rest) = collect_errors rest
  collect_errors (some e ∷ rest) = e ∷ collect_errors rest

  abbrev pub validated : List String → ReconcileStep a
  validated [] = pure none
  validated (e ∷ es) =
      let error = plain (validation_errors (e ∷ es)) in
      fail_after
        (λ ext.
          set_status_progressing a (some error)
            (set_installed_status_condition_unknown a (validation_errors (e ∷ es)) ext))
        error

  unfoldable pub validate_cluster_extension : List (Option String) → ReconcileStep a
  validate_cluster_extension validators = validated (collect_errors validators)

  abbrev pub retrieved : Result ExtensionError (RevisionStates a) → ReconcileStep a
  retrieved (ok states) = do
    on_state a (λ st. record st { revision_states = some states })
    pure none
  retrieved (err e) =
      fail_after
        (λ ext. set_status_progressing a (some (plain retrying_installed)) (
          set_installed_status_condition_unknown a (text_of_error e)
            (record ext { install = none })))
        e

  unfoldable pub retrieve_revision_states :
      Result ExtensionError (RevisionStates a) → ReconcileStep a
  retrieve_revision_states answer = retrieved answer

  unfoldable pub migrate_storage : Result ErrorText Unit → ReconcileStep a
  migrate_storage (ok _) = pure none
  migrate_storage (err t) = raise (plain (migrating t))

  -- `CheckCatalogsExist`, where `valid` says whether the selector of the extension is
  abbrev exists : CatalogAnswer → Result String Bool
  exists (err e) = err e
  exists (ok none) = ok false
  exists (ok (some n)) = ok (not (nat_eq n 0))

  abbrev selector_of : Option CatalogSource → Option String
  selector_of none = none
  selector_of (some c) = c.selector

  abbrev checked : Option String → (String → Bool) → CatalogAnswer → Result String Bool
  checked none valid answer = exists answer
  checked (some s) valid answer = if valid s then exists answer else err "invalid catalog selector"

  unfoldable pub check_catalogs_exist :
      (String → Bool) → CatalogAnswer → ClusterExtension a → Result String Bool
  check_catalogs_exist valid answer ext = checked (selector_of ext.catalog) valid answer

  abbrev pub spec_version : Option CatalogSource → String
  spec_version none = ""
  spec_version (some c) = c.version

  -- the branches of `handleResolutionError` that fail
  abbrev pub keep_failing : RevisionStates a → ExtensionError → MessageText → ReconcileStep a
  keep_failing states e message =
      fail_after
        (λ ext. ensure_failure_conditions_with_reason a "Retrying" message (
          set_installed_status_from_revision_states a states
            (set_status_progressing a (some e) ext)))
        e

  abbrev pub decide :
      Result String Bool → RevisionStates a → RevisionMetadata a → ExtensionError → ReconcileStep a
  decide (err _) states installed e = keep_failing states e (failed_to_resolve (text_of_error e))
  decide (ok true) states installed e = keep_failing states e (failed_retrying (text_of_error e))
  decide (ok false) states installed e = do
    on_ext a (set_installed_status_from_revision_states a states)
    on_state a (λ st. record st { resolved_revision = some installed })
    pure none

  abbrev pub handle_installed :
      Result String Bool
      → RevisionStates a
      → Option (RevisionMetadata a)
      → String
      → ExtensionError
      → ReconcileStep a
  handle_installed catalogs states none version e =
      keep_failing states e (failed_to_resolve (text_of_error e))
  handle_installed catalogs states (some installed) version e =
      if not (version == "") && not (version == installed.bundle.version)
      then keep_failing states e
          (unable_to_upgrade version (text_of_error e) installed.bundle.version)
      else decide catalogs states installed e

  unfoldable pub handle_resolution_error :
      (String → Bool) → CatalogAnswer → RevisionStates a → ExtensionError → ReconcileStep a
  handle_resolution_error valid answer states e = do
    ext ← the_ext a
    handle_installed (check_catalogs_exist valid answer ext) states states.installed
        (spec_version ext.catalog) e

  abbrev pub installed_name : Option (RevisionMetadata a) → String
  installed_name none = ""
  installed_name (some r) = r.bundle.name

  abbrev pub is_ok : {E A : Type 0} → Result E A → Bool
  is_ok (ok _) = true
  is_ok (err _) = false

  abbrev pub is_present : {A : Type 0} → Option A → Bool
  is_present none = false
  is_present (some _) = true

  abbrev pub no_conditions : Conditions → String × (String × BundleMetadata) → RevisionMetadata a
  no_conditions empty (of_package, (image, bundle)) = record {
    revision_name = "";
    package_name = of_package;
    image = image;
    bundle = bundle;
    conditions = empty;
  }

  abbrev pub resolved :
      (String → Bool)
      → CatalogAnswer
      → Conditions
      → RevisionStates a
      → Result ExtensionError (String × (String × BundleMetadata))
      → ReconcileStep a
  resolved valid answer empty states (err e) = handle_resolution_error valid answer states e
  resolved valid answer empty states (ok b) = do
    on_state a (λ st. record st { resolved_revision = some (no_conditions empty b) })
    pure none

  abbrev pub resolve_next :
      (String → Bool)
      → CatalogAnswer
      → Conditions
      → Resolution
      → RevisionStates a
      → List (RevisionMetadata a)
      → ReconcileStep a
  resolve_next valid answer empty r states (first ∷ _) = do
    on_ext a (set_deprecation_status a (installed_name states.installed) none false)
    on_state a (λ st. record st { resolved_revision = some first })
    pure none
  resolve_next valid answer empty r states [] = do
    let has_data = is_ok r.bundle || is_present r.deprecation
    on_state a
        (λ st. record st { resolved_deprecation = r.deprecation; has_catalog_data = has_data })
    on_ext a (set_deprecation_status a (installed_name states.installed) r.deprecation has_data)
    resolved valid answer empty states r.bundle

  unfoldable pub resolve_bundle :
      (String → Bool) → CatalogAnswer → Conditions → Resolution → ReconcileStep a
  resolve_bundle valid answer empty r = do
    st ← the_state a
    states ← dereference st.revision_states
    resolve_next valid answer empty r states states.rolling_out
