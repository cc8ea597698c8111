-- ===== src/ObjectSet.antt =====
-- The ClusterObjectSet controller, internal/operator-controller/controllers/
-- clusterobjectset_controller.go, and the parts of api/v1/clusterobjectset_types.go that it reads.
-- Here: the objects, the calls of the API server, of the tracking cache and of the revision engine,
-- and their answers.
pub mod Conditions
pub mod Phases
pub mod Reconcile
pub mod Run
pub mod Order
pub mod Deadline
pub mod Foreign
pub mod Problems
pub mod Archiving
pub mod Previous
pub mod Finishing
pub mod RolledOut
pub mod Manifests
pub mod Status
use operator_controller.Prelude.{
  ℕ, ℤ, String, List, [], ◌∷◌, Option, none, some, Bool, true, false, Result, ok, err, ◌==◌, ◌++◌,
}
use operator_controller.Kube.{Condition, ConditionApi}
use operator_controller.Exec.{Exec, or_fail}

-- `ObjectSourceRef`
pub record ObjectSourceRef : Type 0 where
  pub name : String
  pub namespace : String
  pub key : String

-- `ClusterObjectSetObject`: an inline object or a reference
pub record SpecObject (O : Type 0) : Type 0 where
  pub object : Option O
  pub ref : ObjectSourceRef
  pub collision_protection : String

pub record SpecPhase (O : Type 0) : Type 0 where
  pub name : String
  pub objects : List (SpecObject O)
  pub collision_protection : String

-- the union discriminators of the progression probes
pub record ProgressionProbe : Type 0 where
  pub selector : String
  pub valid_label_selector : Bool
  pub assertions : List String

-- `C` are status conditions and `O` is an unstructured object. `owner` is the owner-name label,
-- `bundle_version` the annotation; times are in nanoseconds; a deadline of 0 is none.
pub record ObjectSet (C O : Type 0) : Type 0 where
  pub name : String
  pub owner : Option String
  pub bundle_version : String
  pub generation : ℕ
  pub deleting : Bool
  pub created : ℕ
  pub finalizers : List String
  pub lifecycle_state : String
  pub revision : ℤ
  pub progress_deadline_minutes : ℕ
  pub collision_protection : String
  pub phases : List (SpecPhase O)
  pub progression_probes : List ProgressionProbe
  pub conditions : C

pub data RefError : Type 0 where
  getting_secret : String → RefError
  key_not_found : String → RefError
  bad_gzip : RefError
  decompressing : RefError
  too_large : RefError
  unmarshaling : RefError

pub data BuildError : Type 0 where
  listing_previous : String → BuildError
  unknown_assertion : String → BuildError
  unknown_selector : String → BuildError
  invalid_selector : BuildError
  resolving_ref : String → RefError → BuildError
  neither : String → BuildError

pub data ReconcileError : Type 0 where
  converting : BuildError → ReconcileError
  listing_siblings : String → ReconcileError
  creating_engine : String → ReconcileError
  stopping_informers : String → ReconcileError
  ensuring_finalizer : String → ReconcileError
  establishing_watch : String → ReconcileError
  revision_reconcile : String → ReconcileError
  listing_to_archive : String → ReconcileError
  archiving_previous : String → ReconcileError
  removing_finalizer : String → ReconcileError
  archiving : String → ReconcileError
  getting : String → ReconcileError
  updating_status : String → ReconcileError
  joined : ReconcileError → ReconcileError → ReconcileError

-- the texts of the conditions
pub data Message : Type 0 where
  text : String → Message
  of_build_error : BuildError → Message
  of_watch_error : String → Message
  of_archive_error : String → Message
  validation : String → Message
  phase_validation : ℕ → String → Message
  collisions : ℕ → List (String × Option String) → Message
  rolling_out : String → Message
  rolled_out : String → Message
  probe_failures : List String → Message
  not_rolled_out : ℕ → Message

pub record OwnerReference : Type 0 where
  pub controller : Option Bool
  pub kind : String
  pub api_version : String
  pub name : String

-- boxcutter's results of a reconciliation: `machinery.Action`, and a probe that is true or not
pub data Action : Type 0 where
  collision progressed other_action : Action

pub record ObjectResult : Type 0 where
  pub action : Action
  pub owner_references : List OwnerReference
  pub report : String
  pub probe_true : Bool
  pub probe_report : String

pub record PhaseResult : Type 0 where
  pub validation_error : Option String
  pub objects : List ObjectResult
  pub complete : Bool

pub record RevisionResult : Type 0 where
  pub validation_error : Option String
  pub phases : List PhaseResult
  pub in_transition : Bool
  pub complete : Bool

-- `boxcutter.Phase` and `WithObjectReconcileOptions`
pub record Phase (O : Type 0) : Type 0 where
  pub name : String
  pub objects : List O

-- The calls that a reconciliation makes, in order.
pub data Call (O : Type 0) : Type 0 where
  get_revision : String → Call O
  list_revisions : String → Call O
  get_secret : String → String → Call O
  create_engine : String → Call O
  free : String → Call O
  patch_finalizers : String → List String → Call O
  watch : String → List String → Call O
  engine_reconcile : String → List (Phase O) → List String → List (O × String) → Call O
  engine_teardown : String → Call O
  archive_revision : String → Call O
  update_status : String → Call O

-- unstructured objects, gzip and JSON
pub record ObjectApi : Type 1 where
  pub Object : Type 0
  pub gvk : Object → String
  pub set_label : Object → String → String → Object
  pub Stream : Type 0
  pub gzip_open : List ℕ → Option Stream
  -- `io.ReadAll(io.LimitReader(stream, n))`
  pub read_limited : Stream → ℕ → Option (List ℕ)
  pub unmarshal : List ℕ → Option Object

pub record Platform : Type 1 where
  pub conditions : ConditionApi Message
  pub objects : ObjectApi

module _ (p : Platform) where
  open p.conditions use {Conditions}
  open p.objects use {Object}

  abbrev pub Cos : Type 0
  Cos = ObjectSet Conditions Object

  -- the object that is reconciled, and the calls so far
  pub record State : Type 0 where
    pub cos : Cos
    pub calls : List (Call Object)

  abbrev pub Step : Type 0 → Type 0 → Type 0
  Step E A = Exec State E A

  -- The answers of the cluster, which may depend on all calls before.
  pub record Cluster : Type 0 where
    pub on_get : List (Call Object) → Result String (Option Cos)
    pub on_list : List (Call Object) → Result String (List Cos)
    pub on_secret : List (Call Object) → Result String (String → Option (List ℕ))
    pub on_engine : List (Call Object) → Result String Unit
    pub on_free : List (Call Object) → Result String Unit
    -- a patch fills the object with the server's answer
    pub on_patch : List (Call Object) → Result String Cos
    pub on_watch : List (Call Object) → Result String Unit
    pub on_reconcile : List (Call Object) → Result String RevisionResult
    -- `none` is a nil result, `some b` says whether the teardown is complete
    pub on_teardown : List (Call Object) → Result String (Option Bool)
    pub on_archive : List (Call Object) → Result String Unit
    pub on_update : List (Call Object) → Result String Unit
    -- `equality.Semantic.DeepEqual` of two specs
    pub same_spec : Cos → Cos → Bool

  -- a call, with its answer
  unfoldable pub call :
      {A : Type 0} → Call Object → (List (Call Object) → Result String A) → Step String A
  call c answer s = let calls = s.calls ++ c ∷ [] in (answer calls, record s { calls = calls })

  unfoldable pub on_cos : {E : Type 0} → (Cos → Cos) → Step E Unit
  on_cos f s = (ok tt, record s { cos = f s.cos })

  unfoldable pub the_cos : {E : Type 0} → Step E Cos
  the_cos s = (ok s.cos, s)

  -- the error path of a call that also changes the object
  abbrev pub or_mark : {E F A : Type 0} → Step E A → (E → Cos → Cos) → (E → F) → Step F A
  or_mark m fix wrap = or_fail m (λ e t. record t { cos = fix e t.cos }) wrap

-- `olm.operatorframework.io/teardown`
abbrev pub teardown_finalizer : String
teardown_finalizer = "olm.operatorframework.io/teardown"

abbrev pub type_available : String
type_available = "Available"

abbrev pub type_progressing : String
type_progressing = "Progressing"

abbrev pub type_succeeded : String
type_succeeded = "Succeeded"

abbrev pub state_archived : String
state_archived = "Archived"
