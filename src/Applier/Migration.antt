-- ===== src/Applier/Migration.antt =====
-- `BoxcutterStorageMigrator` of internal/operator-controller/applier/boxcutter.go: an installation
-- by Helm becomes the first revision.
pub mod Latest
pub mod Marked
use Prim.Native.String
use operator_controller.Prelude.{
  ℕ, ℤ, pos, String, List, [], ◌∷◌, ◌++◌, Option, none, some, Bool, true, false, Result, ok, err,
  if◌then◌else◌, ◌==◌, ltb, eq_ℤ, not, ◌&&◌,
}
use operator_controller.Kube.{Condition, ConditionApi, is_true, is_status_true}
use operator_controller.Exec.{Exec, ◌>>=◌, ◌>>◌, pure, raise, or_wrap}

-- a Helm release; `status` is that of its info, if it has one
pub record Release (D : Type 0) : Type 0 where
  pub status : Option String
  pub version : ℕ
  pub content : D

-- errors of the Helm driver: `ErrReleaseNotFound` or another
pub data DriverError : Type 0 where
  release_not_found : DriverError
  driver_failed : String → DriverError

pub data MigrationError : Type 0 where
  listing_before_migration : String → MigrationError
  getting_client : String → MigrationError
  getting_release : DriverError → MigrationError
  generating_revision : String → MigrationError
  getting_owner_gvk : String → MigrationError
  applying_revision : String → MigrationError
  getting_for_status : String → MigrationError
  updating_migrated_status : String → MigrationError

-- what is read of a revision; `migrated_from_helm` is the label
pub record MigratedRevision (C : Type 0) : Type 0 where
  pub name : String
  pub revision : ℤ
  pub migrated_from_helm : String
  pub generation : ℕ
  pub conditions : C

pub data MigrationCall (C : Type 0) : Type 0 where
  list_before : MigrationCall C
  get_client : MigrationCall C
  get_release : MigrationCall C
  get_history : MigrationCall C
  generate_from_release : MigrationCall C
  apply_migrated : String → MigrationCall C
  get_for_status : String → MigrationCall C
  update_migrated_status : MigratedRevision C → MigrationCall C

abbrev pub migrated : String
migrated = "true"

module _ {D : Type 0} where
  -- `rel.Info.Status == release.StatusDeployed`, for a release that is not nil and has an info
  abbrev pub is_deployed : Option (Release D) → Bool
  is_deployed none = false
  is_deployed (some r) = elim r.status [ none ↦ false | some s ↦ s == "deployed" ]

  abbrev pub is_later : Option (Release D) → Release D → Bool
  is_later none r = true
  is_later (some latest) r = ltb latest.version r.version

  abbrev pub consider : Option (Release D) → Option (Release D) → Option (Release D)
  consider latest none = latest
  consider latest (some r) = if is_deployed (some r) && is_later latest r then some r else latest

  -- the loop of `findLatestDeployedRelease`
  unfoldable pub latest_loop : Option (Release D) → List (Option (Release D)) → Option (Release D)
  latest_loop latest [] = latest
  latest_loop latest (r ∷ rs) = latest_loop (consider latest r) rs

module _ (D : Type 0) (api : ConditionApi String) where
  open api use {Conditions, find, set}

  abbrev pub MigrationCalls : Type 0
  MigrationCalls = List (MigrationCall Conditions)

  abbrev pub Migrating : Type 0 → Type 0
  Migrating A = Exec MigrationCalls MigrationError A

  pub record MigrationCluster : Type 0 where
    pub on_list : MigrationCalls → Result String (List (MigratedRevision Conditions))
    pub on_client : MigrationCalls → Result String Unit
    pub on_release : MigrationCalls → Result DriverError (Option (Release D))
    pub on_history : MigrationCalls → Result DriverError (List (Option (Release D)))
    -- the name of the revision that is generated
    pub on_generate : MigrationCalls → Release D → Result String String
    pub owner_gvk : Result String Unit
    pub on_apply : MigrationCalls → Result String Unit
    pub on_get : MigrationCalls → Result String (MigratedRevision Conditions)
    pub on_update : MigrationCalls → Result String Unit

  unfoldable pub consult :
      {E A : Type 0}
      → MigrationCall Conditions
      → (MigrationCalls → Result E A)
      → Exec MigrationCalls E A
  consult c answer calls = let now = calls ++ c ∷ [] in (answer now, now)

  abbrev pub has_succeeded_condition : MigratedRevision Conditions → Bool
  has_succeeded_condition r = is_status_true (find r.conditions "Succeeded")

  -- `meta.SetStatusCondition` with Succeeded
  abbrev pub with_succeeded : MigratedRevision Conditions → MigratedRevision Conditions
  with_succeeded r = record r {
    conditions =
        (set r.conditions (record {
          kind = "Succeeded";
          status = is_true;
          reason = "Succeeded";
          message = "Revision succeeded - migrated from Helm release";
          observed_generation = r.generation;
        })).0;
  }

  module _ (cl : MigrationCluster) where
    unfoldable pub ensure_status_of : MigratedRevision Conditions → Migrating Unit
    ensure_status_of r =
        if not (r.migrated_from_helm == migrated)
        then pure tt
        else if has_succeeded_condition r
        then pure tt
        else or_wrap (consult (update_migrated_status (with_succeeded r)) cl.on_update)
            updating_migrated_status

    unfoldable pub ensure_revision_status : String → Migrating Unit
    ensure_revision_status name = do
      r ← or_wrap (consult (get_for_status name) cl.on_get) getting_for_status
      ensure_status_of r

    unfoldable pub ensure_migrated_revision_status :
        List (MigratedRevision Conditions) → Migrating Unit
    ensure_migrated_revision_status [] = pure tt
    ensure_migrated_revision_status (r ∷ rs) =
        let rest = ensure_migrated_revision_status rs in
        if not (eq_ℤ r.revision (pos 1))
        then rest
        else if has_succeeded_condition r
        then pure tt
        else ensure_revision_status r.name

    -- an answer of the driver, where a release that is not found is none
    abbrev pub or_none :
        {A : Type 0}
        → (A → Option (Release D))
        → Result DriverError A
        → Result MigrationError (Option (Release D))
    or_none f (ok v) = ok (f v)
    or_none f (err release_not_found) = ok none
    or_none f (err (driver_failed e)) = err (getting_release (driver_failed e))

    unfoldable pub find_latest_deployed_release : Migrating (Option (Release D))
    find_latest_deployed_release =
        or_wrap (consult get_history (λ calls. or_none (latest_loop none) (cl.on_history calls)))
          (λ e. e)

    abbrev pub create_first : Option (Release D) → Migrating Unit
    create_first none = pure tt
    create_first (some r) = do
      name ←
          or_wrap (consult generate_from_release (λ calls. cl.on_generate calls r))
            generating_revision
      or_wrap (λ calls. (cl.owner_gvk, calls)) getting_owner_gvk
      or_wrap (consult (apply_migrated name) cl.on_apply) applying_revision
      ensure_revision_status name

    -- the release that is migrated, if `Get` found one
    abbrev pub select_release :
        Result DriverError (Option (Release D)) → Migrating (Option (Release D))
    select_release (err release_not_found) = pure none
    select_release (err (driver_failed e)) = raise (getting_release (driver_failed e))
    select_release (ok release) =
        if is_deployed release then pure release else find_latest_deployed_release

    unfoldable pub migrate_release : Migrating Unit
    migrate_release = do
      or_wrap (consult get_client cl.on_client) getting_client
      answer ←
          (λ calls. (ok (cl.on_release (calls ++ get_release ∷ [])), calls ++ get_release ∷ []))
      release ← select_release answer
      create_first release

    abbrev pub unless_listed : List (MigratedRevision Conditions) → Migrating Unit
    unless_listed [] = migrate_release
    unless_listed (r ∷ rs) = ensure_migrated_revision_status (r ∷ rs)

    -- `Migrate`
    unfoldable pub migrate : Migrating Unit
    migrate = do
      existing ← or_wrap (consult list_before cl.on_list) listing_before_migration
      unless_listed existing
