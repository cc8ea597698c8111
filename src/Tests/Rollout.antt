-- ===== src/Tests/Rollout.antt =====
-- The theorems on the rollout of revisions, applied to the cluster with two revisions.
use operator_controller.Prelude.{
  ℕ, ◌+◌, ◌*◌, ◌<◌, ◌≤◌, ◌≡◌, refl, String, List, [], ◌∷◌, ◌++◌, none, some, true, false, pos, ok,
  if◌then◌else◌, ◌==◌, ◌⊎◌, inl, inr, In, length, ◌↔◌, arith,
}
use operator_controller.Exec.{◌>>=◌, pure, or_fail}
use operator_controller.ObjectSet.{
  get_revision, archive_revision, call, on_cos, the_cos, type_progressing,
}
use operator_controller.ObjectSet.Conditions.{find_condition}
use operator_controller.ObjectSet.Phases.{
  list_of_owner, list_previous_revisions, previous_of, foreign_revision_controller,
  effective_collision_protection, decompress, has_gzip_magic, max_decompressed_size,
}
use operator_controller.ObjectSet.Reconcile.{
  archive, archive_all, finish, report, report_with, problem_of, phase_problem, colliding, done,
  minute,
}
use operator_controller.ObjectSet.Run.{reconcile, Reconciled, check_deadline, outcome_of}
use operator_controller.ObjectSet.Order.{is_guarded, reconcile-is_guarded}
use operator_controller.ObjectSet.Deadline.{
  deadline_condition, check_deadline-expired, check_deadline-wakes, check_deadline-handles_update,
}
use operator_controller.ObjectSet.Archiving.{
  IsTornDown, IsArchived, archive-safe, archive-settles, down, drop_call,
}
use operator_controller.ObjectSet.Previous.{IsSuperseded, report-IsSuperseded}
use operator_controller.ObjectSet.RolledOut.{IsRolledOut, report-IsRolledOut, report-archives}
use operator_controller.ObjectSet.Problems.{IsClean, problem_of_iff}
use operator_controller.ObjectSet.Manifests.{
  first_set, reverse, effective_collision_protection-first_set, decompress-bounded,
}
use operator_controller.ObjectSet.{Cos, Cluster, free, update_status}
use operator_controller.ObjectSet.Status.{settled, IsUnsaved, IsSaved, run-calls}
use operator_controller.ObjectSet.Run.{Outcome, run, store, answered, handles_update}
use operator_controller.ObjectSet.Reconcile.{
  second, delete, free_informers, remove_finalizer, round_second,
}
use operator_controller.Tests.Cluster.{
  rolling, platform, laws, cluster, begun, first, second_revision, complete,
}

reconcile-is_guarded_example :
    is_guarded false
      (reconcile platform cluster
        (record { cos = second_revision; calls = get_revision "e-2" ∷ [] })).1.calls
    ≡ true
reconcile-is_guarded_example = reconcile-is_guarded platform cluster second_revision "e-2"

archive-safe_example :
    ((archive platform cluster begun).1.calls ≡ down platform cluster begun)
    ⊎ (IsTornDown platform cluster (ok (some true))
        × IsArchived platform second_revision
        × ((archive platform cluster begun).1.calls
            ≡ down platform cluster begun ++ drop_call platform cluster begun ∷ []))
archive-safe_example = archive-safe platform cluster laws begun

archive-settles_example :
    (¬ (IsArchived platform second_revision)
      × ((archive platform cluster begun).1.calls ≡ down platform cluster begun)
      × IsArchived platform (archive platform cluster begun).1.cos)
    ⊎ (IsArchived platform second_revision
        × ((archive platform cluster begun).1.calls ≡ down platform cluster begun))
archive-settles_example = archive-settles platform cluster laws begun (inr refl)

no_problem : problem_of (some ("e-1" ∷ "e-2" ∷ [])) complete ≡ none
unfolding problem_of phase_problem colliding foreign_revision_controller
no_problem = refl

reported : (report platform cluster (some ("e-1" ∷ "e-2" ∷ [])) complete begun).0 ≡ ok done
unfolding report report_with finish archive_all list_previous_revisions list_of_owner previous_of
    call on_cos the_cos problem_of phase_problem colliding foreign_revision_controller ◌>>=◌ pure
    or_fail
reported = refl

archived :
    In
      (archive_revision "e-1")
      (report platform cluster (some ("e-1" ∷ "e-2" ∷ [])) complete begun).1.calls
unfolding report report_with finish archive_all list_previous_revisions list_of_owner previous_of
    call on_cos the_cos problem_of phase_problem colliding foreign_revision_controller ◌>>=◌ pure
    or_fail
archived = inr (inl refl)

report-IsSuperseded_example :
    In (archive_revision "e-1") begun.calls
    ⊎ ((complete.complete ≡ true)
        × (problem_of (some ("e-1" ∷ "e-2" ∷ [])) complete ≡ none)
        × IsSuperseded platform cluster second_revision [] "e-1")
report-IsSuperseded_example =
    report-IsSuperseded platform cluster (some ("e-1" ∷ "e-2" ∷ [])) complete begun "e-1" archived

report-IsRolledOut_example :
    let t = (report platform cluster (some ("e-1" ∷ "e-2" ∷ [])) complete begun).1 in
    let r : Reconciled platform = record { cos = t.cos; outcome = outcome_of platform (ok done) } in
    IsRolledOut platform t.cos × (check_deadline platform second_revision 5 6 r ≡ r)
report-IsRolledOut_example =
    report-IsRolledOut platform cluster laws (some ("e-1" ∷ "e-2" ∷ [])) complete begun done
      second_revision 5 6 refl no_problem reported

report-archives_example :
    In
      (archive_revision "e-1")
      (report platform cluster (some ("e-1" ∷ "e-2" ∷ [])) complete begun).1.calls
report-archives_example =
    report-archives platform cluster (some ("e-1" ∷ "e-2" ∷ [])) complete begun done "e"
      (first ∷ second_revision ∷ []) first refl no_problem reported refl refl (inl refl) refl

abbrev waiting : Reconciled platform
waiting = record { cos = second_revision; outcome = record { requeue = done; error = none } }

check_deadline-expired_example :
    let r' = check_deadline platform second_revision (2 * minute) (2 * minute) waiting in
    (r'.outcome.error ≡ none)
    × (r'.outcome.requeue ≡ done)
    × ((kind : String)
        → find_condition platform r'.cos kind ≡ (
            if type_progressing == kind
            then some (deadline_condition platform 1 second_revision)
            else find_condition platform second_revision kind))
check_deadline-expired_example =
    check_deadline-expired platform laws second_revision (2 * minute) (2 * minute) waiting
      (omega arith) (refl, refl) (omega arith)

still_waiting : (check_deadline platform second_revision 5 6 waiting).cos ≡ second_revision
unfolding check_deadline
still_waiting = refl

check_deadline-wakes_example :
    (q : ℕ) × ((check_deadline platform second_revision 5 6 waiting).outcome.requeue ≡ pos q)
    × (0 < q)
    × (0 + 1 * minute < 6 + q)
unfolding check_deadline
check_deadline-wakes_example =
    check_deadline-wakes platform laws second_revision 5 6 waiting (omega arith) (omega arith)
      (refl, refl) refl

problem_of_iff_example : (problem_of (some ("e-1" ∷ [])) complete ≡ none) ↔ (
    (complete.validation_error ≡ none)
    × ((r : _) → In r complete.phases → IsClean (some ("e-1" ∷ [])) r))
problem_of_iff_example = problem_of_iff (some ("e-1" ∷ [])) complete

effective_collision_protection-first_set_example :
    effective_collision_protection ("None" ∷ "" ∷ "" ∷ [])
    ≡ first_set "Prevent" (reverse ("None" ∷ "" ∷ "" ∷ []))
effective_collision_protection-first_set_example =
    effective_collision_protection-first_set ("None" ∷ "" ∷ "" ∷ [])

abbrev bytes : List ℕ
bytes = 0x1f ∷ 0x8b ∷ []

zipped : decompress platform bytes ≡ ok bytes
unfolding decompress
zipped = refl

decompress-bounded_example :
    ((has_gzip_magic bytes ≡ false) × (bytes ≡ bytes))
    ⊎ ((stream : List ℕ) × (has_gzip_magic bytes ≡ true)
        × (platform.objects.gzip_open bytes ≡ some stream)
        × (platform.objects.read_limited stream (max_decompressed_size + 1) ≡ some bytes)
        × (length bytes ≤ 10 * 1024 * 1024))
decompress-bounded_example = decompress-bounded platform bytes bytes zipped

abbrev deleted : Cos platform
deleted = record second_revision { deleting = true }

abbrev deleting : Cluster platform
deleting = record cluster { on_get = λ _. ok (some deleted) }

abbrev after_deadline : Outcome platform
after_deadline = record { requeue = pos (62 * second); error = none }

deleted_run :
    run platform deleting "e-2" 5 6 ≡ answered after_deadline (get_revision "e-2" ∷ free "e-2" ∷ [])
unfolding run store reconcile delete free_informers remove_finalizer check_deadline round_second
    call the_cos ◌>>=◌ pure or_fail
deleted_run = rw (laws.same_refl (rolling ∷ [])) refl

run-calls_example :
    let r = settled platform deleting "e-2" deleted 5 6 in
    IsUnsaved platform deleting deleted r after_deadline (get_revision "e-2" ∷ free "e-2" ∷ [])
    ⊎ IsSaved platform deleting deleted r after_deadline (get_revision "e-2" ∷ free "e-2" ∷ [])
run-calls_example =
    run-calls platform deleting "e-2" deleted 5 6 after_deadline
      (get_revision "e-2" ∷ free "e-2" ∷ []) refl deleted_run

-- the spec of the object set is changed behind the check
abbrev changed : Cos platform
changed = record (check_deadline platform second_revision (2 * minute) (2 * minute) waiting).cos {
  generation = 7;
  revision = pos 9;
}

check_deadline-handles_update_example : handles_update platform changed ≡ false
unfolding check_deadline operator_controller.ObjectSet.Conditions.mark_as_not_progressing
check_deadline-handles_update_example =
    check_deadline-handles_update platform laws second_revision (2 * minute) (2 * minute) waiting
      (omega arith) (refl, refl) (omega arith) changed refl
