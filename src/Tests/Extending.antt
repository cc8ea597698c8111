-- ===== src/Tests/Extending.antt =====
-- An extension whose catalogs are gone while a bundle is installed.
use operator_controller.Prelude.{
  ℕ, String, pos, ◌≡◌, ◌≢◌, ◌≤◌, ◌<◌, ◌⊎◌, refl, List, [], ◌∷◌, map, Option, none, some, true,
  false, Result, ok, err, if◌then◌else◌, ◌==◌, ◌&&◌, not, any_of, length,
}
use operator_controller.Sort.{sort_stable}
use operator_controller.Kube.{Condition, is_true, is_status_true}
use operator_controller.Catalog.{Deprecation}
use operator_controller.Extension.{
  ErrorText, cause, ExtensionError, plain, nil_pointer, ExtensionApi, RevisionMetadata,
  RevisionStates, ClusterExtension, Reconciling, empty_state,
}
use operator_controller.Extension.Conditions.{truncate_message}
use operator_controller.Extension.Deprecations.{set_deprecation_status}
use operator_controller.Extension.Steps.{FinalizeResult, handle_resolution_error}
use operator_controller.Extension.Rollout.{Collaborators, reconcile_extension}
use operator_controller.Extension.Messages.{IsCut, truncate_message-fits}
use operator_controller.Extension.Falling.{IsDecision, handle_resolution_error-IsDecision}
use operator_controller.Extension.NeverPanics.{NoPanics, reconcile_extension_never_panics}
use operator_controller.Extension.Reported.{concerns, set_deprecation_status-eq-any_of}
use operator_controller.Extension.Revisions.{
  ListedRevision, by_number, metadata_of, with_success, last_or, revision_states_of,
  revision_states_of-eq-ok,
}

abbrev find : List (Condition (List ℕ)) → String → Option (Condition (List ℕ))
find [] kind = none
find (c ∷ cs) kind = if c.kind == kind then some c else find cs kind

abbrev api : ExtensionApi
api = record {
  conditions = record {
    Conditions = List (Condition (List ℕ));
    find = find;
    set = λ cs c. (c ∷ cs, true);
    same = λ _ _. true;
  };
  render = λ _. [];
}

truncate_message-fits_example :
    ((1 ≤ 32768) × (truncate_message (65 ∷ []) ≡ 65 ∷ []))
    ⊎ ((32768 < 1)
        × (length (truncate_message (65 ∷ [])) ≡ 32768)
        × IsCut (65 ∷ []) (truncate_message (65 ∷ [])))
truncate_message-fits_example = truncate_message-fits (65 ∷ [])

abbrev installed : RevisionMetadata api
installed = record {
  revision_name = "e-1";
  package_name = "p";
  image = "image";
  bundle = record { name = "p.v1"; version = "1.0.0" };
  conditions = [];
}

abbrev states : RevisionStates api
states = record { installed = some installed; rolling_out = [] }

abbrev ext : ClusterExtension api
ext = record {
  generation = 1;
  deleting = false;
  catalog = some (record { package_name = "p"; version = ""; channels = []; selector = none });
  conditions = [];
  install = none;
  active_revisions = [];
}

abbrev before : Reconciling api
before = record { ext = ext; state = empty_state api }

abbrev failed : ExtensionError
failed = plain (cause "no bundles found")

handle_resolution_error-IsDecision_example :
    IsDecision api
      (λ _. true)
      (ok (some 0))
      states
      failed
      before
      (handle_resolution_error api (λ _. true) (ok (some 0)) states failed before).0
      (handle_resolution_error api (λ _. true) (ok (some 0)) states failed before).1
handle_resolution_error-IsDecision_example =
    handle_resolution_error-IsDecision api (λ _. true) (ok (some 0)) states failed before

-- The fallback is taken.
falls_back :
    (handle_resolution_error api (λ _. true) (ok (some 0)) states failed before).0 ≡ ok none
unfolding handle_resolution_error operator_controller.Exec.◌>>=◌ operator_controller.Exec.pure
    operator_controller.Extension.the_ext operator_controller.Extension.on_ext
    operator_controller.Extension.on_state operator_controller.Extension.Steps.check_catalogs_exist
falls_back = refl

abbrev collaborators : Collaborators api
collaborators = record {
  finalize = ok (record { updated = false; status_updated = false });
  validators = none ∷ [];
  migrate = ok tt;
  get_revision_states = ok states;
  valid_selector = λ _. true;
  list_catalogs = ok none;
  resolve = record { bundle = err failed; deprecation = none };
  pull = λ image. ok image;
  apply = λ _ _. ok tt;
  empty = [];
}

ok-ne-err_nil :
    {A : Type 0} (v : A) → ◌≡◌ {A = Result ExtensionError A} (ok v) (err nil_pointer) → ⊥
ok-ne-err_nil v h = cc

failed-ne-nil : {A : Type 0} → ◌≡◌ {A = Result ExtensionError A} (err failed) (err nil_pointer) → ⊥
failed-ne-nil h = cc

no_panics : NoPanics api collaborators
no_panics = record {
  finalize = ok-ne-err_nil _;
  states = ok-ne-err_nil _;
  resolve = failed-ne-nil;
  pull = λ image. ok-ne-err_nil image;
  apply = λ _ _. ok-ne-err_nil tt;
}

reconcile_extension_never_panics_example :
    (reconcile_extension api collaborators ext).0 ≢ err nil_pointer
reconcile_extension_never_panics_example =
    reconcile_extension_never_panics api collaborators ext no_panics

abbrev deprecation : Deprecation
deprecation = record {
  entries = record { schema = "olm.package"; name = ""; message = "use q" } ∷ [];
}

set_deprecation_status-eq-any_of_example :
    is_status_true
      (find (set_deprecation_status api "p.v1" (some deprecation) true ext).conditions "Deprecated")
    ≡ any_of (λ e. not (e.message == "") && concerns ext.catalog "p.v1" e) deprecation.entries
set_deprecation_status-eq-any_of_example =
    set_deprecation_status-eq-any_of api (λ _ _ _. refl) "p.v1" (some deprecation) ext

abbrev listed : ListedRevision api
listed = record {
  name = "e-1";
  package_annotation = "p";
  reference_annotation = "image";
  bundle_name_annotation = "p.v1";
  bundle_version_annotation = "1.0.0";
  revision = pos 1;
  lifecycle_state = "Active";
  conditions =
      record {
        kind = "Succeeded";
        status = is_true;
        reason = "Succeeded";
        message = [];
        observed_generation = 1;
      }
      ∷ [];
}

revision_states_of-eq-ok_example :
    revision_states_of api (ok (listed ∷ []))
    ≡ ok (record {
      installed =
          last_or api none (with_success api true (sort_stable (by_number api) (listed ∷ [])));
      rolling_out =
          map
            (metadata_of api)
            (with_success api false (sort_stable (by_number api) (listed ∷ [])));
    })
revision_states_of-eq-ok_example = revision_states_of-eq-ok api (listed ∷ [])
