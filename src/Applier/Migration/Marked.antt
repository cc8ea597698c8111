-- ===== src/Applier/Migration/Marked.antt =====
-- Which revisions the migration marks as succeeded.
use operator_controller.Prelude.{
  pos, ◌≡◌, refl, String, List, [], ◌∷◌, ◌++◌, Option, none, some, false, Result, ok, err, ◌==◌,
  eq_iff, not, eq_ℤ, Bool-cases, inl, inr,
}
use operator_controller.Kube.{ConditionApi}
use operator_controller.Exec.{or_wrap}
use operator_controller.Exec.Keeps.{
  Keeps, Keeps-pure, Keeps-raise, Keeps-if, Keeps-bind, Keeps-or_fail,
}
use operator_controller.Applier.Migration.{
  Release, DriverError, release_not_found, driver_failed, MigrationError, MigratedRevision,
  MigrationCall, get_release, update_migrated_status, migrated, MigrationCalls, MigrationCluster,
  consult, has_succeeded_condition, with_succeeded, is_deployed, ensure_status_of,
  ensure_revision_status, ensure_migrated_revision_status, find_latest_deployed_release,
  create_first, select_release, migrate_release, unless_listed, migrate,
}

module _ (D : Type 0) (api : ConditionApi String) where
  open api use {Conditions}

  -- A revision with the label of the migration that had not succeeded is now marked.
  pub record IsMarked (r : MigratedRevision Conditions) : Type 0 where
    pub before : MigratedRevision Conditions
    pub labelled : before.migrated_from_helm ≡ migrated
    pub pending : has_succeeded_condition D api before ≡ false
    pub marked : r ≡ with_succeeded D api before

  abbrev pub Allowed : MigrationCall Conditions → Type 0
  Allowed (update_migrated_status r) = IsMarked r
  Allowed _ = Unit

  -- Every update of a status marks such a revision.
  abbrev pub MarksMigrated : MigrationCalls D api → Type 0
  MarksMigrated [] = Unit
  MarksMigrated (c ∷ cs) = Allowed c × MarksMigrated cs

  Marks-append :
      (cs : MigrationCalls D api) (c : MigrationCall Conditions)
      → MarksMigrated cs
      → Allowed c
      → MarksMigrated (cs ++ c ∷ [])
  Marks-append [] c h k = (k, tt)
  Marks-append (d ∷ cs) c h k = (h.0, Marks-append cs c h.1 k)

  Keeps-consult :
      {E A : Type 0} (c : MigrationCall Conditions) (answer : MigrationCalls D api → Result E A)
      → Allowed c
      → Keeps MarksMigrated (consult D api c answer)
  unfolding consult
  Keeps-consult c answer k = record { at = λ s h. Marks-append s c h k }

  Keeps-wrapped :
      {E A : Type 0} (c : MigrationCall Conditions) (answer : MigrationCalls D api → Result E A)
      (wrap : E → MigrationError)
      → Allowed c
      → Keeps MarksMigrated (or_wrap (consult D api c answer) wrap)
  Keeps-wrapped c answer wrap k =
      Keeps-or_fail (consult D api c answer) (λ e s. s) wrap (Keeps-consult c answer k) (λ _ _ h. h)

  module _ (cl : MigrationCluster D api) where
    Keeps-ensure_status_of :
        (r : MigratedRevision Conditions) → Keeps MarksMigrated (ensure_status_of D api cl r)
    unfolding ensure_status_of
    Keeps-ensure_status_of r = elim (Bool-cases (r.migrated_from_helm == migrated)) [
      | inr e ↦ rw e (Keeps-pure tt)
      | inl e ↦ elim (Bool-cases (has_succeeded_condition D api r)) [
        | inl s ↦ rw e (rw s (Keeps-pure tt))
        | inr s ↦ rw e (
            rw s (
              Keeps-wrapped _ _ _ record {
                before = r;
                labelled = (eq_iff r.migrated_from_helm migrated).0 e;
                pending = s;
                marked = refl;
              }))
      ]
    ]

    Keeps-ensure_revision_status :
        (name : String) → Keeps MarksMigrated (ensure_revision_status D api cl name)
    unfolding ensure_revision_status
    Keeps-ensure_revision_status name =
        Keeps-bind _ _ (Keeps-wrapped _ _ _ tt) Keeps-ensure_status_of

    Keeps-ensure_migrated :
        (rs : List (MigratedRevision Conditions))
        → Keeps MarksMigrated (ensure_migrated_revision_status D api cl rs)
    unfolding ensure_migrated_revision_status
    Keeps-ensure_migrated [] = Keeps-pure tt
    Keeps-ensure_migrated (r ∷ rs) =
        Keeps-if (not (eq_ℤ r.revision (pos 1))) _ _ (Keeps-ensure_migrated rs) (
          Keeps-if (has_succeeded_condition D api r) _ _ (Keeps-pure tt)
            (Keeps-ensure_revision_status r.name))

    Keeps-find : Keeps MarksMigrated (find_latest_deployed_release D api cl)
    unfolding find_latest_deployed_release
    Keeps-find = Keeps-wrapped _ _ _ tt

    Keeps-create_first : (r : Option (Release D)) → Keeps MarksMigrated (create_first D api cl r)
    Keeps-create_first none = Keeps-pure tt
    Keeps-create_first (some r) = Keeps-bind _ _ (Keeps-wrapped _ _ _ tt) (λ name.
        Keeps-bind _ _ (Keeps-or_fail _ _ _ (record { at = λ _ h. h }) (λ _ _ h. h))
          (λ _. Keeps-bind _ _ (Keeps-wrapped _ _ _ tt) (λ _. Keeps-ensure_revision_status name)))

    Keeps-select :
        (answer : Result DriverError (Option (Release D)))
        → Keeps MarksMigrated (select_release D api cl answer)
    Keeps-select (err release_not_found) = Keeps-pure none
    Keeps-select (err (driver_failed e)) = Keeps-raise _
    Keeps-select (ok r) = Keeps-if (is_deployed r) _ _ (Keeps-pure r) Keeps-find

    Keeps-migrate_release : Keeps MarksMigrated (migrate_release D api cl)
    unfolding migrate_release
    Keeps-migrate_release = Keeps-bind _ _ (Keeps-wrapped _ _ _ tt) (λ _.
        Keeps-bind _ _ (record { at = λ s h. Marks-append s get_release h tt })
          (λ answer. Keeps-bind _ _ (Keeps-select answer) Keeps-create_first))

    Keeps-unless_listed :
        (rs : List (MigratedRevision Conditions)) → Keeps MarksMigrated (unless_listed D api cl rs)
    Keeps-unless_listed [] = Keeps-migrate_release
    Keeps-unless_listed (r ∷ rs) = Keeps-ensure_migrated (r ∷ rs)

    Keeps-migrate : Keeps MarksMigrated (migrate D api cl)
    unfolding migrate
    Keeps-migrate = Keeps-bind _ _ (Keeps-wrapped _ _ _ tt) Keeps-unless_listed

    -- Migrate updates only the status of revisions with the label of the migration that have not
    -- succeeded yet, and marks them as succeeded.
    pub migrate-MarksMigrated : MarksMigrated (migrate D api cl []).1
    migrate-MarksMigrated = Keeps-migrate.at [] tt
