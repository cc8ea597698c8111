-- ===== src/ObjectSet/Run.antt =====
-- `reconcile` and `Reconcile` of clusterobjectset_controller.go.
use operator_controller.Exec.{◌>>=◌, ◌>>◌}
use operator_controller.Prelude.{
  true, ℕ, ◌+◌, ◌-◌, ◌*◌, ltb, sub_ℕ, String, List, [], ◌∷◌, ◌++◌, Option, none, some, Bool, false,
  ◌&&◌, not, Result, ok, err, ◌==◌, if◌then◌else◌,
}
use operator_controller.Kube.{is_true, is_false, is_unknown, Condition, is_status_true}
use operator_controller.ObjectSet.{
  Platform, Cos, Cluster, Step, call, the_cos, or_mark, Message, text, of_build_error,
  of_watch_error, not_rolled_out, ReconcileError, converting, listing_siblings, creating_engine,
  ensuring_finalizer, establishing_watch, revision_reconcile, getting, updating_status, joined,
  Phase, Call, create_engine, watch, engine_reconcile, update_status, get_revision,
  type_progressing, type_succeeded, state_archived,
}
use operator_controller.ObjectSet.Conditions.{
  find_condition, set_retrying_conditions, mark_as_not_progressing,
}
use operator_controller.ObjectSet.Phases.{build_boxcutter_phases, sibling_revision_names}
use operator_controller.ObjectSet.Reconcile.{
  Requeue, done, second, minute, round_second, watched, ensure_finalizer, free_informers, delete,
  archive, leave, report,
}

-- The conditions say that the rollout goes on: `isStillProgressing`.
abbrev pub is_rolling : Option (Condition Message) → Bool
is_rolling none = false
is_rolling (some c) = is_status_true (some c) && not (c.reason == "Succeeded")

module _ (p : Platform) where
  open p.objects use {Object}

  -- the result and the error that a reconciliation returns
  pub record Outcome : Type 0 where
    pub requeue : Requeue
    pub error : Option ReconcileError

  -- an object, with the outcome so far
  pub record Reconciled : Type 0 where
    pub cos : Cos p
    pub outcome : Outcome

  -- every error of `reconcile` comes with an empty result
  abbrev pub outcome_of : Result ReconcileError Requeue → Outcome
  outcome_of (ok r) = record { requeue = r; error = none }
  outcome_of (err e) = record { requeue = done; error = some e }

  -- the deadline was passed: errors are dropped, and the object set is left alone
  abbrev pub expired : ℕ → Cos p → Reconciled
  expired minutes cos = record {
    cos = (mark_as_not_progressing p "ProgressDeadlineExceeded" (not_rolled_out minutes) cos).0;
    outcome = record { requeue = done; error = none };
  }

  -- two seconds behind the deadline
  abbrev pub until_deadline : ℕ → ℕ → ℕ → Requeue
  until_deadline created timeout now = round_second (sub_ℕ (created + timeout + 2 * second) now)

  abbrev pub wait_for_deadline : Requeue → Reconciled → Reconciled
  wait_for_deadline requeue r = elim r.outcome.error [
    | some _ ↦ r
    | none ↦ record r { outcome = record { requeue = requeue; error = none } }
  ]

  -- The progress deadline, for the object as it was read; `since` and `now` are the two readings of
  -- the clock.
  unfoldable pub check_deadline : Cos p → ℕ → ℕ → Reconciled → Reconciled
  check_deadline existing since now r =
      let minutes = existing.progress_deadline_minutes in
      let timeout = minutes * minute in
      if ltb 0 minutes
        && (is_rolling (find_condition p r.cos type_progressing)
            && not (is_status_true (find_condition p r.cos type_succeeded)))
      then (if ltb timeout (since - existing.created)
          then expired minutes r.cos
          else wait_for_deadline (until_deadline existing.created timeout now) r)
      else r

  abbrev pub is_exceeded : Option (Condition Message) → Bool
  is_exceeded none = false
  is_exceeded (some c) =
      elim c.status [ is_true ↦ false | is_false ↦ true | is_unknown ↦ false ]
      && (c.reason == "ProgressDeadlineExceeded")

  -- the predicate of `SetupWithManager`: whether an update of an object set is handled
  unfoldable pub handles_update : Cos p → Bool
  handles_update rev =
      if rev.deleting then true else not (is_exceeded (find_condition p rev type_progressing))

  module _ (cl : Cluster p) where
    -- the part of `reconcile` for an object set that is not archived
    unfoldable pub roll_out :
        List (Phase Object)
        → List String
        → List (Object × String)
        → Option (List String)
        → Step p ReconcileError Requeue
    roll_out phases previous opts siblings = do
      or_mark p (ensure_finalizer p cl) (leave p cl) ensuring_finalizer
      cos ← the_cos p
      or_mark p (call p (watch cos.name (watched p phases [])) cl.on_watch)
          (λ e c. set_retrying_conditions p (of_watch_error e) c) establishing_watch
      rres ←
          or_mark p (call p (engine_reconcile cos.name phases previous opts) cl.on_reconcile)
            (λ e c. set_retrying_conditions p (text e) c) revision_reconcile
      report p cl siblings rres

    unfoldable pub reconcile : Step p ReconcileError Requeue
    reconcile = do
      cos ← the_cos p
      if cos.deleting then delete p cl else do
        (phases, previous, opts) ←
            or_mark p (build_boxcutter_phases p cl cos)
              (λ e c. set_retrying_conditions p (of_build_error e) c) converting
        siblings ←
            or_mark p (sibling_revision_names p cl cos)
              (λ e c. set_retrying_conditions p (text e) c) listing_siblings
        or_mark p (call p (create_engine cos.name) cl.on_engine)
            (λ e c. set_retrying_conditions p (text e) c) creating_engine
        if cos.lifecycle_state == state_archived
            then (do free_informers p cl; archive p cl)
            else roll_out phases previous opts siblings

    -- what `Reconcile` returns, or a panic
    pub data Answer : Type 0 where
      answered : Outcome → List (Call Object) → Answer
      panicked : Answer

    abbrev pub add_error : Option ReconcileError → ReconcileError → ReconcileError
    add_error none e = e
    add_error (some d) e = joined d e

    -- the update of the status
    abbrev pub update_with : Result String Unit → Outcome → Outcome
    update_with (ok _) o = o
    update_with (err e) o = record o { error = some (add_error o.error (updating_status e)) }

    unfoldable pub store : Cos p → Reconciled → List (Call Object) → Answer
    store existing r calls =
        if not (cl.same_spec existing r.cos)
        then panicked
        else if p.conditions.same existing.conditions r.cos.conditions
        then answered r.outcome calls
        else (let all = calls ++ update_status r.cos.name ∷ [] in
            answered (update_with (cl.on_update all) r.outcome) all)

    -- `Reconcile`
    unfoldable pub run : String → ℕ → ℕ → Answer
    run name since now =
        let calls : List (Call Object) = get_revision name ∷ [] in
        elim (cl.on_get calls) [
          | err e ↦ answered (record { requeue = done; error = some (getting e) }) calls
          | ok none ↦ answered (record { requeue = done; error = none }) calls
          | ok (some existing) ↦
              let (r, s) = reconcile (record { cos = existing; calls = calls }) in
              store existing
                (check_deadline existing since now (record { cos = s.cos; outcome = outcome_of r }))
                s.calls
        ]
