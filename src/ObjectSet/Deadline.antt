-- ===== src/ObjectSet/Deadline.antt =====
-- The progress deadline in `Reconcile`.
use mathlib.Core.Option.{some-ne-none}
use operator_controller.Prelude.{
  Option, ℕ, ◌+◌, ◌-◌, ◌*◌, ◌/◌, ◌<◌, ◌≤◌, ltb, ℤ, pos, ◌≡◌, refl, String, none, some, Bool, true,
  false, ◌&&◌, not, Option-cases, leb, subst, ◌==◌, arith, if◌then◌else◌, ◌∙◌, sym, ap, Bool-cases,
  inl, inr,
}
use operator_controller.Kube.{Condition, ConditionLaws, is_false, is_status_true}
use operator_controller.ObjectSet.{
  Platform, Cos, type_progressing, type_succeeded, not_rolled_out, Message,
}
use operator_controller.ObjectSet.Conditions.{find_condition, mark_as_not_progressing}
use operator_controller.ObjectSet.Reconcile.{second, minute, round_second, done}
use operator_controller.ObjectSet.Run.{
  handles_update, is_exceeded, wait_for_deadline, is_rolling, Reconciled, check_deadline,
  until_deadline, expired,
}

-- the clock passes the deadline behind the requeue
round_late :
    (n : ℕ) → second ≤ n → (q : ℕ) × (round_second (pos n) ≡ pos q) × (0 < q) × (n ≤ q + 500000000)
unfolding round_second
round_late n h = ((n + 500000000) / second * second, refl, omega arith, omega arith)

module _ (p : Platform) where
  -- the object set is still rolling out
  abbrev pub InProgress : Cos p → Type 0
  InProgress cos =
      (is_rolling (find_condition p cos type_progressing) ≡ true)
      × (is_status_true (find_condition p cos type_succeeded) ≡ false)

  -- the condition of an object set whose deadline was passed
  abbrev pub deadline_condition : ℕ → Cos p → Condition Message
  deadline_condition minutes cos = record {
    kind = type_progressing;
    status = is_false;
    reason = "ProgressDeadlineExceeded";
    message = not_rolled_out minutes;
    observed_generation = cos.generation;
  }

  abbrev pub is_pending : Cos p → Bool
  is_pending cos =
      is_rolling (find_condition p cos type_progressing)
      && not (is_status_true (find_condition p cos type_succeeded))

  pub check_deadline-idle :
      (existing : Cos p) (since now : ℕ) (r : Reconciled p)
      → is_pending r.cos ≡ false
      → check_deadline p existing since now r ≡ r
  unfolding check_deadline
  check_deadline-idle existing since now r h =
      elim (Bool-cases (ltb 0 existing.progress_deadline_minutes)) [
        | inl e ↦ rw e (rw h refl)
        | inr e ↦ rw e refl
      ]

  check_deadline-passed :
      (existing : Cos p) (since now : ℕ) (r : Reconciled p)
      → ltb 0 existing.progress_deadline_minutes ≡ true
      → is_pending r.cos ≡ true
      → ltb (existing.progress_deadline_minutes * minute) (since - existing.created) ≡ true
      → check_deadline p existing since now r ≡ expired p existing.progress_deadline_minutes r.cos
  unfolding check_deadline
  check_deadline-passed existing since now r m h l = rw m (rw h (rw l refl))

  check_deadline-open :
      (existing : Cos p) (since now : ℕ) (r : Reconciled p)
      → ltb 0 existing.progress_deadline_minutes ≡ true
      → is_pending r.cos ≡ true
      → ltb (existing.progress_deadline_minutes * minute) (since - existing.created) ≡ false
      → check_deadline p existing since now r
        ≡ wait_for_deadline p
            (until_deadline p existing.created (existing.progress_deadline_minutes * minute) now)
            r
  unfolding check_deadline
  check_deadline-open existing since now r m h l = rw m (rw h (rw l refl))

  find-expired :
      ConditionLaws p.conditions
      → (minutes : ℕ) (cos : Cos p) (kind : String)
      → find_condition p (expired p minutes cos).cos kind ≡ (
          if type_progressing == kind
          then some (deadline_condition minutes cos)
          else find_condition p cos kind)
  unfolding mark_as_not_progressing
  find-expired laws minutes cos kind = laws.find-set cos.conditions _ kind

  waiting :
      (requeue : ℤ) (r : Reconciled p)
      → (wait_for_deadline p requeue r).outcome.error ≡ none
      → (wait_for_deadline p requeue r).outcome.requeue ≡ requeue
  waiting requeue r h = elim (Option-cases r.outcome.error) [
    | inl e ↦ rw e refl
    | inr (x, e) ↦ absurd (some-ne-none x (rw e at h))
  ]

  until_deadline-later :
      (created timeout now : ℕ)
      → now ≤ created + timeout + second
      → (q : ℕ) × (until_deadline p created timeout now ≡ pos q)
        × (0 < q)
        × (created + timeout < now + q)
  until_deadline-later created timeout now h =
      let (q, e, some_time, l) = round_late (created + timeout + 2 * second - now) (omega arith) in
      (q, rw (within created timeout now h) e, some_time, ground arith)
    where
      within :
          (created timeout now : ℕ)
          → now ≤ created + timeout + second
          → leb now (created + timeout + 2 * second) ≡ true
      within created timeout now h = ground arith

  -- If the object set is in progress and its deadline was passed when the clock was read, it is no
  -- longer in progress, no error is returned and nothing is requeued, its condition Progressing says
  -- that the deadline was exceeded, and all other conditions are as they were.
  pub check_deadline-expired :
      ConditionLaws p.conditions
      → (existing : Cos p) (since now : ℕ) (r : Reconciled p)
      → 0 < existing.progress_deadline_minutes
      → InProgress r.cos
      → existing.created + existing.progress_deadline_minutes * minute < since
      → let r' = check_deadline p existing since now r in
        (r'.outcome.error ≡ none)
        × (r'.outcome.requeue ≡ done)
        × ((kind : String)
            → find_condition p r'.cos kind ≡ (
                if type_progressing == kind
                then some (deadline_condition existing.progress_deadline_minutes r.cos)
                else find_condition p r.cos kind))
  check_deadline-expired laws existing since now r m i l =
      let minutes = existing.progress_deadline_minutes in
      let find = find-expired laws minutes r.cos in
      rw
        (check_deadline-passed existing since now r (ground arith) (ground (arith, i.0, i.1))
          (ground arith))
        (refl, refl, λ kind. find kind)

  -- If the object set is still in progress behind the check, with no error and a deadline, then it
  -- is requeued: after a time that is not zero, and when the deadline has passed, if the two readings
  -- of the clock are at most a second apart.
  pub check_deadline-wakes :
      ConditionLaws p.conditions
      → (existing : Cos p) (since now : ℕ) (r : Reconciled p)
      → 0 < existing.progress_deadline_minutes
      → now ≤ since + second
      → InProgress (check_deadline p existing since now r).cos
      → (check_deadline p existing since now r).outcome.error ≡ none
      → (q : ℕ) × ((check_deadline p existing since now r).outcome.requeue ≡ pos q)
        × (0 < q)
        × (existing.created + existing.progress_deadline_minutes * minute < now + q)
  check_deadline-wakes laws existing since now r m c i e = elim (Bool-cases (is_pending r.cos)) [
    | inr h ↦ absurd (in_progress_now h (rw (check_deadline-idle existing since now r h) at i))
    | inl h ↦
        elim (Bool-cases
          (ltb (existing.progress_deadline_minutes * minute) (since - existing.created))) [
            | inl l ↦
                absurd (stopped (check_deadline-passed existing since now r (ground arith) h l) i.0)
            | inr l ↦
                let q = check_deadline-open existing since now r (ground arith) h l in
                let requeue =
                  until_deadline p existing.created (existing.progress_deadline_minutes * minute)
                    now in
                let (n, o, some_time, b) =
                  until_deadline-later existing.created
                    (existing.progress_deadline_minutes * minute) now (ground arith) in
                (
                  n,
                  ap (λ (t : Reconciled p). t.outcome.requeue) q
                      ∙ (waiting requeue r (sym (ap (λ (t : Reconciled p). t.outcome.error) q) ∙ e)
                          ∙ o),
                  some_time,
                  b,
                )
          ]
  ]
    where
      stopped :
          check_deadline p existing since now r ≡ expired p existing.progress_deadline_minutes r.cos
          → is_rolling
              (find_condition p (check_deadline p existing since now r).cos type_progressing)
            ≡ true
          → ⊥
      stopped q j =
          let k =
            subst
              (λ (t : Reconciled p). is_rolling (find_condition p t.cos type_progressing) ≡ true) q
              j in
          let f =
            ap is_rolling
              (find-expired laws existing.progress_deadline_minutes r.cos type_progressing) in
          ground (arith, sym k ∙ f)

      in_progress_now : is_pending r.cos ≡ false → InProgress r.cos → ⊥
      in_progress_now h j = ground (arith, j.0, j.1)

  handles_update-exceeded :
      (minutes : ℕ) (cos later : Cos p)
      → find_condition p later type_progressing ≡ some (deadline_condition minutes cos)
      → handles_update p later ≡ later.deleting
  unfolding handles_update
  handles_update-exceeded minutes cos later h = elim (Bool-cases later.deleting) [
    | inl d ↦ rw d refl
    | inr d ↦ rw d (ap (λ (o : Option (Condition Message)). not (is_exceeded p o)) h)
  ]

  -- An object set whose deadline was passed while it was in progress is left alone: an update to any
  -- object that has the condition Progressing which the check leaves, whatever its spec and its
  -- generation are, is handled only if the object is being deleted.
  pub check_deadline-handles_update :
      ConditionLaws p.conditions
      → (existing : Cos p) (since now : ℕ) (r : Reconciled p)
      → 0 < existing.progress_deadline_minutes
      → InProgress r.cos
      → existing.created + existing.progress_deadline_minutes * minute < since
      → (later : Cos p)
      → find_condition p later type_progressing
        ≡ find_condition p (check_deadline p existing since now r).cos type_progressing
      → handles_update p later ≡ later.deleting
  check_deadline-handles_update laws existing since now r m i l later h =
      let left = (check_deadline-expired laws existing since now r m i l).2 type_progressing in
      handles_update-exceeded existing.progress_deadline_minutes r.cos later (h ∙ left)
