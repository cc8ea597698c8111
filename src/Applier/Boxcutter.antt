-- ===== src/Applier/Boxcutter.antt =====
-- internal/operator-controller/applier/boxcutter.go: how a ClusterExtension gets a new revision.
-- Here: the revisions, what is to be applied, the calls and their answers. The state of an action is
-- the list of the calls so far.
pub mod Revisions
pub mod Apply
pub mod Rollout
pub mod Permits
pub mod Retention
pub mod Numbering
pub mod Crash
pub mod InPlace
pub mod Inline
use Prim.Native.String
use operator_controller.Prelude.{ℕ, ℤ, String, List, [], ◌∷◌, ◌++◌, Option, Bool, Result, ok, err}
use operator_controller.ObjectSet.{ObjectSourceRef}
use operator_controller.Exec.{Exec}
use operator_controller.Applier.Packer.{Secret, PackError}

-- what is read of a `ClusterObjectSet`
pub record Existing : Type 0 where
  pub name : String
  pub uid : String
  pub revision : ℤ
  pub lifecycle_state : String

-- `ClusterObjectSetObjectApplyConfiguration` and the phase that holds it
pub record ApplyObject (O : Type 0) : Type 0 where
  pub object : Option O
  pub ref : Option ObjectSourceRef
  pub collision_protection : Option String

pub record ApplyPhase (O : Type 0) : Type 0 where
  pub name : Option String
  pub objects : List (ApplyObject O)

pub record OwnedBy : Type 0 where
  pub api_version : String
  pub kind : String
  pub name : String
  pub uid : String

-- `ClusterObjectSetApplyConfiguration`; `rest` is what this code passes on unread
pub record Desired (O R : Type 0) : Type 0 where
  pub name : String
  pub revision : ℤ
  pub owners : List OwnedBy
  pub phases : List (ApplyPhase O)
  pub rest : R

-- what is read of a `ClusterExtension`; the enforcement is that of its CRD upgrade safety check
pub record Extension : Type 0 where
  pub name : String
  pub uid : String
  pub enforcement : Option String

-- a secret of the cluster, with the UIDs of its owners
pub record OwnedSecret : Type 0 where
  pub name : String
  pub namespace : String
  pub owner_uids : List String

-- the kinds of API errors that the code tells apart
pub data ApiError : Type 0 where
  invalid already_exists not_found : ApiError
  other : String → ApiError

pub data ApplyError : Type 0 where
  listing_revisions : ApiError → ApplyError
  no_revision_installed : ApplyError
  generating : String → ApplyError
  getting_gvk : String → ApplyError
  packing_for_comparison : PackError → ApplyError
  patching_revision : String → ApiError → ApplyError
  failing_preflight : String → ApplyError
  deleting_archived : ApiError → ApplyError
  printing_manifests : String → ApplyError
  pre_authorization : List String → Option String → ApplyError
  packing : PackError → ApplyError
  creating_secret : String → ApiError → ApplyError
  creating_revision : ApiError → ApplyError
  getting_revision : String → ApiError → ApplyError
  listing_secrets : String → ApiError → ApplyError
  patching_secret : String → ApiError → ApplyError

pub data BoxCall (O R : Type 0) : Type 0 where
  list_existing : String → BoxCall O R
  generate : BoxCall O R
  apply_revision : Desired O R → BoxCall O R
  preflight_install : String → List O → BoxCall O R
  preflight_upgrade : String → List O → BoxCall O R
  delete_revision : String → BoxCall O R
  pre_authorize : Desired O R → BoxCall O R
  create_secret : Secret → BoxCall O R
  get_existing : String → BoxCall O R
  list_secrets : String → String → BoxCall O R
  patch_owners : OwnedSecret → OwnedBy → BoxCall O R

-- a `Preflight`: its name, and whether it is the CRD upgrade safety check
pub record PreflightCheck : Type 0 where
  pub name : String
  pub is_crd_upgrade_safety : Bool

pub record Boxcutter : Type 0 where
  pub preflights : List PreflightCheck
  pub has_pre_authorizer : Bool
  pub system_namespace : String

module _ (O R : Type 0) where
  abbrev pub Calls : Type 0
  Calls = List (BoxCall O R)

  abbrev pub BoxStep : Type 0 → Type 0 → Type 0
  BoxStep E A = Exec Calls E A

  -- The answers, which may depend on all calls before.
  pub record BoxCluster : Type 0 where
    -- the verb `%d` of fmt
    pub decimal : ℤ → String
    pub on_list : Calls → Result ApiError (List Existing)
    pub on_generate : Calls → Result String (Desired O R)
    -- `apiutil.GVKForObject` of the extension: its API version and kind
    pub gvk : Result String (String × String)
    -- whatever the server answers to an apply, the code goes on with the name that it applied
    pub on_apply : Calls → Result ApiError Unit
    pub on_preflight : Calls → Result String Unit
    pub on_delete : Calls → Result ApiError Unit
    -- `printers.YAMLPrinter` on the objects
    pub print : List O → Option String
    -- the missing rules and an evaluation error
    pub on_pre_authorize : Calls → List String × Option String
    pub on_create : Calls → Result ApiError Unit
    pub on_get : Calls → Result ApiError Existing
    pub on_list_secrets : Calls → Result ApiError (List OwnedSecret)
    pub on_patch : Calls → Result ApiError Unit

  unfoldable pub ask : {E A : Type 0} → BoxCall O R → (Calls → Result E A) → BoxStep E A
  ask c answer calls = let now = calls ++ c ∷ [] in (answer now, now)

-- `ClusterObjectSetRetentionLimit`
abbrev pub retention_limit : ℕ
retention_limit = 5

abbrev pub enforcement_none : String
enforcement_none = "None"
