-- ===== src/Extension.antt =====
-- The ClusterExtension controller, internal/operator-controller/controllers/
-- clusterextension_controller.go, clusterextension_reconcile_steps.go, common_controller.go and
-- boxcutter_reconcile_steps.go. Here: the extension, the state of a reconciliation, its errors and
-- messages.
pub mod Conditions
pub mod Deprecations
pub mod Steps
pub mod Rollout
pub mod Messages
pub mod Falling
pub mod Panics
pub mod Running
pub mod NeverPanics
pub mod Reported
pub mod Revisions
use operator_controller.Prelude.{
  ℕ, ℤ, String, List, [], ◌∷◌, ◌++◌, Option, none, some, Bool, true, false, Result, ok, err,
}
use operator_controller.Kube.{Condition, ConditionApi}
use operator_controller.Catalog.{Deprecation}
use operator_controller.Successors.{BundleMetadata}
use operator_controller.Exec.{Exec}

-- what is read of `CatalogFilter`; a selector is a label selector of the library
pub record CatalogSource : Type 0 where
  pub package_name : String
  pub version : String
  pub channels : List String
  pub selector : Option String

-- the texts of errors, with the values that they print
pub data ErrorText : Type 0 where
  cause : String → ErrorText
  validation_errors : List String → ErrorText
  retrying_installed : ErrorText
  no_bundle_information : ErrorText
  for_bundle : BundleMetadata → ErrorText → ErrorText
  migrating : ErrorText → ErrorText

-- an error; a terminal one may come with a reason. `nil_pointer` is the panic of a nil dereference.
pub data ExtensionError : Type 0 where
  plain : ErrorText → ExtensionError
  terminal : Option String → ErrorText → ExtensionError
  nil_pointer : ExtensionError

-- the messages that the controller formats
pub data MessageText : Type 0 where
  literal : String → MessageText
  of_error : ErrorText → MessageText
  installed_bundle : String → MessageText
  failed_to_resolve : ErrorText → MessageText
  failed_retrying : ErrorText → MessageText
  unable_to_upgrade : String → ErrorText → String → MessageText
  joined_lines : List String → MessageText

-- Messages are lists of bytes; `render` stands for fmt and the sanitizing of network errors.
pub record ExtensionApi : Type 1 where
  pub conditions : ConditionApi (List ℕ)
  pub render : MessageText → List ℕ

-- `*ctrl.Result`: the results are all empty
abbrev pub Ending : Type 0
Ending = Option Unit

module _ (a : ExtensionApi) where
  open a.conditions use {Conditions}

  pub record RevisionMetadata : Type 0 where
    pub revision_name : String
    pub package_name : String
    pub image : String
    pub bundle : BundleMetadata
    pub conditions : Conditions

  pub record RevisionStates : Type 0 where
    pub installed : Option RevisionMetadata
    pub rolling_out : List RevisionMetadata

  pub record RevisionStatus : Type 0 where
    pub name : String
    pub conditions : Conditions

  -- `ClusterExtension`: what is read, and the status
  pub record ClusterExtension : Type 0 where
    pub generation : ℕ
    pub deleting : Bool
    pub catalog : Option CatalogSource
    pub conditions : Conditions
    pub install : Option BundleMetadata
    pub active_revisions : List RevisionStatus

  -- `reconcileState`; the content of a bundle is named by the image that it was pulled from
  pub record ReconcileState : Type 0 where
    pub revision_states : Option RevisionStates
    pub resolved_revision : Option RevisionMetadata
    pub image_fs : Option String
    pub resolved_deprecation : Option Deprecation
    pub has_catalog_data : Bool

  pub record Reconciling : Type 0 where
    pub ext : ClusterExtension
    pub state : ReconcileState

  abbrev pub Action : Type 0 → Type 0
  Action A = Exec Reconciling ExtensionError A

  -- a step: an error, or a result that ends the reconciliation, or neither
  abbrev pub ReconcileStep : Type 0
  ReconcileStep = Action Ending

  unfoldable pub on_ext : (ClusterExtension → ClusterExtension) → Action Unit
  on_ext f s = (ok tt, record s { ext = f s.ext })

  unfoldable pub on_state : (ReconcileState → ReconcileState) → Action Unit
  on_state f s = (ok tt, record s { state = f s.state })

  unfoldable pub the_ext : Action ClusterExtension
  the_ext s = (ok s.ext, s)

  unfoldable pub the_state : Action ReconcileState
  the_state s = (ok s.state, s)

  abbrev pub empty_state : ReconcileState
  empty_state = record {
    revision_states = none;
    resolved_revision = none;
    image_fs = none;
    resolved_deprecation = none;
    has_catalog_data = false;
  }
