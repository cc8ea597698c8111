-- ===== src/Tests/Migrating.antt =====
-- A Helm history whose last release failed.
use operator_controller.Prelude.{
  ℕ, String, pos, ◌≡◌, refl, List, [], ◌∷◌, Option, none, some, true, ok, if◌then◌else◌, ◌==◌, In,
  ◌⊎◌,
}
use operator_controller.Kube.{Condition, ConditionApi}
use operator_controller.Applier.Migration.{
  Release, MigratedRevision, MigrationCluster, is_deployed, latest_loop, migrate, with_succeeded,
  list_before, get_client, get_release, get_history, generate_from_release, apply_migrated,
  get_for_status, update_migrated_status,
}
use operator_controller.Applier.Migration.Latest.{EachIsAtMost, latest_loop-IsLatest}
use operator_controller.Applier.Migration.Marked.{MarksMigrated, migrate-MarksMigrated}

abbrev release : String → ℕ → Option (Release Unit)
release status version = some (record { status = some status; version = version; content = tt })

abbrev history : List (Option (Release Unit))
history = release "superseded" 1 ∷ release "deployed" 2 ∷ none ∷ release "failed" 3 ∷ []

latest_loop-IsLatest_example :
    ((latest_loop none history ≡ none)
      ⊎ (In (latest_loop none history) history × (is_deployed (latest_loop none history) ≡ true)))
    × EachIsAtMost history (latest_loop none history)
latest_loop-IsLatest_example = latest_loop-IsLatest history

abbrev find : List (Condition String) → String → Option (Condition String)
find [] kind = none
find (c ∷ cs) kind = if c.kind == kind then some c else find cs kind

abbrev api : ConditionApi String
api = record {
  Conditions = List (Condition String);
  find = find;
  set = λ cs c. (c ∷ cs, true);
  same = λ _ _. true;
}

abbrev first : MigratedRevision (List (Condition String))
first = record {
  name = "e-1";
  revision = pos 1;
  migrated_from_helm = "true";
  generation = 1;
  conditions = [];
}

abbrev cluster : MigrationCluster Unit api
cluster = record {
  on_list = λ _. ok [];
  on_client = λ _. ok tt;
  on_release = λ _. ok (release "failed" 3);
  on_history = λ _. ok history;
  on_generate = λ _ _. ok "e-1";
  owner_gvk = ok tt;
  on_apply = λ _. ok tt;
  on_get = λ _. ok first;
  on_update = λ _. ok tt;
}

migrate-MarksMigrated_example : MarksMigrated Unit api (migrate Unit api cluster []).1
migrate-MarksMigrated_example = migrate-MarksMigrated Unit api cluster

-- The deployed release is migrated, and its revision is marked.
migrates :
    (migrate Unit api cluster []).1
    ≡ list_before
      ∷ get_client
      ∷ get_release
      ∷ get_history
      ∷ generate_from_release
      ∷ apply_migrated "e-1"
      ∷ get_for_status "e-1"
      ∷ update_migrated_status (with_succeeded Unit api first)
      ∷ []
unfolding migrate operator_controller.Applier.Migration.migrate_release
    operator_controller.Applier.Migration.find_latest_deployed_release
    operator_controller.Applier.Migration.latest_loop
    operator_controller.Applier.Migration.ensure_revision_status
    operator_controller.Applier.Migration.ensure_status_of
    operator_controller.Applier.Migration.consult operator_controller.Exec.◌>>=◌
    operator_controller.Exec.pure operator_controller.Exec.or_fail
migrates = refl
