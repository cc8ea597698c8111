-- ===== src/ObjectSet/Reconcile.antt =====
-- `reconcile`, `delete`, `archive` and `Reconcile` of clusterobjectset_controller.go.
use operator_controller.Exec.{◌>>=◌, ◌>>◌, pure}
use operator_controller.Prelude.{
  ℕ, suc, ◌+◌, ◌*◌, ◌/◌, ℤ, pos, negsuc, sub_ℕ, String, List, [], ◌∷◌, ◌++◌, Option, none, some,
  Bool, true, false, ◌==◌, if◌then◌else◌, contains,
}
use operator_controller.ObjectSet.{
  Platform, Cos, Cluster, Step, call, on_cos, the_cos, or_mark, Message, text, of_archive_error,
  validation, phase_validation, collisions, rolling_out, rolled_out, probe_failures, ReconcileError,
  stopping_informers, listing_to_archive, archiving_previous, removing_finalizer, archiving, Phase,
  ObjectResult, PhaseResult, RevisionResult, collision, progressed, other_action, free,
  patch_finalizers, engine_teardown, archive_revision, teardown_finalizer, type_progressing,
}
use operator_controller.ObjectSet.Conditions.{
  find_condition, set_retrying_conditions, mark_as_progressing, mark_as_available,
  mark_as_unavailable, mark_as_available_unknown, mark_as_archived, mark_as_succeeded,
}
use operator_controller.ObjectSet.Phases.{list_previous_revisions, foreign_revision_controller}

abbrev pub second : ℕ
second = 1000000000

abbrev pub minute : ℕ
minute = 60 * second

-- `ctrl.Result{RequeueAfter: …}` in nanoseconds; `pos 0` is `ctrl.Result{}`
abbrev pub Requeue : Type 0
Requeue = ℤ

abbrev pub done : Requeue
done = pos 0

-- `Duration.Round(time.Second)`
unfoldable pub round_second : ℤ → ℤ
round_second (pos n) = pos ((n + 500000000) / second * second)
round_second (negsuc n) = sub_ℕ 0 ((suc n + 500000000) / second * second)

-- the objects of a phase that another revision or another owner holds
unfoldable pub colliding : Option (List String) → List ObjectResult → List (String × Option String)
colliding siblings [] = []
colliding siblings (o ∷ os) = elim o.action [
  | collision ↦ (o.report, none) ∷ colliding siblings os
  | other_action ↦ colliding siblings os
  | progressed ↦ elim siblings [
    | none ↦ colliding siblings os
    | some names ↦ elim (foreign_revision_controller o.owner_references names) [
      | none ↦ colliding siblings os
      | some ref ↦ (o.report, some ref.name) ∷ colliding siblings os
    ]
  ]
]

-- The loop over the phases of a result: the message of the first that stops the rollout.
unfoldable pub phase_problem : ℕ → Option (List String) → List PhaseResult → Option Message
phase_problem i siblings [] = none
phase_problem i siblings (r ∷ rs) = elim r.validation_error [
  | some e ↦ some (phase_validation i e)
  | none ↦ elim (colliding siblings r.objects) [
    | c ∷ cs ↦ some (collisions i (c ∷ cs))
    | [] ↦ phase_problem (suc i) siblings rs
  ]
]

-- Why a result stops the rollout: a validation error, or a phase with a problem.
unfoldable pub problem_of : Option (List String) → RevisionResult → Option Message
problem_of siblings rres = elim rres.validation_error [
  | some e ↦ some (validation e)
  | none ↦ phase_problem 0 siblings rres.phases
]

-- The first object of a phase whose probe fails.
first_failure : List ObjectResult → List String
first_failure [] = []
first_failure (o ∷ os) =
    let rest = first_failure os in if o.probe_true then rest else o.probe_report ∷ []

unfoldable pub probe_failure_messages : List PhaseResult → List String
unfolding first_failure
probe_failure_messages [] = []
probe_failure_messages (r ∷ rs) =
    let rest = probe_failure_messages rs in
    if r.complete then rest else first_failure r.objects ++ rest

abbrev insert_gvk : String → List String → List String
insert_gvk g gs = if contains g gs then gs else g ∷ gs

module _ (p : Platform) where
  open p.objects use {Object, gvk}

  -- the kinds of the objects, as a set
  gvks_of : List Object → List String → List String
  gvks_of [] gs = gs
  gvks_of (o ∷ os) gs = gvks_of os (insert_gvk (gvk o) gs)

  unfoldable pub watched : List (Phase Object) → List String → List String
  unfolding gvks_of
  watched [] gs = gs
  watched (phase ∷ phases) gs = watched phases (gvks_of phase.objects gs)

  abbrev unavailable_now : List String → Cos p → Cos p
  unavailable_now [] cos = mark_as_unavailable p "RollingOut" (rolling_out cos.bundle_version) cos
  unavailable_now (m ∷ ms) cos = mark_as_unavailable p "ProbeFailure" (probe_failures (m ∷ ms)) cos

  abbrev still_progressing : Cos p → Cos p
  still_progressing cos = elim (find_condition p cos type_progressing) [
    | some _ ↦ cos
    | none ↦ mark_as_progressing p "RollingOut" (rolling_out cos.bundle_version) cos
  ]

  -- the conditions of a rollout that is not complete
  unfoldable pub mark_incomplete : List PhaseResult → Cos p → Cos p
  mark_incomplete phases cos =
      still_progressing (unavailable_now (probe_failure_messages phases) cos)

  -- the conditions of a rollout that is complete
  unfoldable pub mark_complete : Cos p → Cos p
  mark_complete cos = mark_as_succeeded p (
      mark_as_available p "ProbesSucceeded" (text "Objects are available and pass all probes.")
        (mark_as_progressing p "Succeeded" (rolled_out cos.bundle_version) cos))

  module _ (cl : Cluster p) where
    abbrev pub Patch : Type 0
    Patch = Step p String Unit

    -- the patch of the finalizers, after which the object is the server's
    unfoldable pub patch : List String → Patch
    patch finalizers = do
      cos ← the_cos p
      on_cos p (λ c. record c { finalizers = finalizers })
      answer ← call p (patch_finalizers cos.name finalizers) cl.on_patch
      on_cos p (λ _. answer)

    unfoldable pub ensure_finalizer : Patch
    ensure_finalizer = do
      cos ← the_cos p
      if contains teardown_finalizer cos.finalizers
          then pure tt
          else patch (cos.finalizers ++ teardown_finalizer ∷ [])

    unfoldable pub without_finalizer : List String → List String
    without_finalizer [] = []
    without_finalizer (f ∷ fs) =
        let rest = without_finalizer fs in if f == teardown_finalizer then rest else f ∷ rest

    unfoldable pub remove_finalizer : Patch
    remove_finalizer = do
      cos ← the_cos p
      if contains teardown_finalizer cos.finalizers
          then patch (without_finalizer cos.finalizers)
          else pure tt

    -- `TrackingCache.Free`, whose failure is reported in the conditions
    unfoldable pub free_informers : Step p ReconcileError Unit
    free_informers = do
      cos ← the_cos p
      or_mark p (call p (free cos.name) cl.on_free)
          (λ e c. (mark_as_available_unknown p "Reconciling" (text e) c).0) stopping_informers

    abbrev pub leave : {E : Type 0} → E → Cos p → Cos p
    leave e cos = cos

    unfoldable pub delete : Step p ReconcileError Requeue
    delete = do free_informers; or_mark p remove_finalizer leave removing_finalizer; pure done

    -- "Ensure conditions are set before removing the finalizer when archiving"
    unfoldable pub settle : Step p ReconcileError Requeue
    settle = do
      cos ← the_cos p
      let (marked, changed) = mark_as_archived p cos
      on_cos p (λ _. marked)
      if changed
          then pure done
          else (do or_mark p remove_finalizer leave removing_finalizer; pure done)

    -- `archive`, behind the teardown
    unfoldable pub after_teardown : Option Bool → Step p ReconcileError Requeue
    after_teardown none = settle
    after_teardown (some true) = settle
    after_teardown (some false) = do
      on_cos p (
          set_retrying_conditions p
            (text "removing revision resources that are not owned by another revision"))
      pure (pos (5 * second))

    unfoldable pub archive : Step p ReconcileError Requeue
    archive = do
      cos ← the_cos p
      tdres ←
          or_mark p (call p (engine_teardown cos.name) cl.on_teardown)
            (λ e c. set_retrying_conditions p (of_archive_error e) c) archiving
      after_teardown tdres

    unfoldable pub archive_all : List (Cos p) → Step p ReconcileError Unit
    archive_all [] = pure tt
    archive_all (r ∷ rs) = do
      or_mark p (call p (archive_revision r.name) cl.on_archive) leave archiving_previous
      archive_all rs

    -- the end of `reconcile`, where no phase has a problem
    unfoldable pub finish : RevisionResult → Step p ReconcileError Requeue
    finish rres = do
      on_cos p (λ c.
          if rres.in_transition
          then mark_as_progressing p "RollingOut" (rolling_out c.bundle_version) c
          else c)
      if rres.complete
          then (do
            cos ← the_cos p
            previous ← or_mark p (list_previous_revisions p cl cos) leave listing_to_archive
            archive_all previous
            on_cos p (mark_complete))
          else on_cos p (mark_incomplete rres.phases)
      pure done

    abbrev pub retry_later : Message → Step p ReconcileError Requeue
    retry_later message = do on_cos p (set_retrying_conditions p message); pure (pos (10 * second))

    unfoldable pub report_with : RevisionResult → Option Message → Step p ReconcileError Requeue
    report_with rres (some message) = retry_later message
    report_with rres none = finish rres

    -- what `reconcile` does with the engine's result
    unfoldable pub report : Option (List String) → RevisionResult → Step p ReconcileError Requeue
    report siblings rres = report_with rres (problem_of siblings rres)
