-- ===== src/ObjectSet/Archiving.antt =====
-- `archive`: the finalizer goes last.
use operator_controller.Exec.{◌>>=◌, pure, or_fail, bind_with, fail_with}
use operator_controller.Prelude.{
  ◌≡◌, refl, String, List, [], ◌∷◌, ◌++◌, Option, none, some, Bool, true, false, ◌⊎◌, inl, inr, ◌∙◌,
  ap, sym, Bool-cases, Result, ok, err, contains, arith, if◌then◌else◌,
}
use operator_controller.Kube.{Condition, ConditionLaws, is_false, is_unknown}
use operator_controller.ObjectSet.{
  Platform, Cos, Cluster, State, call, on_cos, the_cos, Message, text, Call, engine_teardown,
  patch_finalizers, type_available, type_progressing, teardown_finalizer, removing_finalizer,
  ReconcileError, of_archive_error, archiving,
}
use operator_controller.ObjectSet.Conditions.{
  set_retrying_conditions, find_condition, mark_as_archived, mark_as_not_progressing,
  mark_as_available_unknown,
}
use operator_controller.ObjectSet.Reconcile.{
  patch, remove_finalizer, without_finalizer, settle, after_teardown, archive, done, leave, Requeue,
}

module _ (p : Platform) where
  abbrev stopped_condition : Cos p → Condition Message
  stopped_condition cos = record {
    kind = type_progressing;
    status = is_false;
    reason = "Archived";
    message = text "revision is archived";
    observed_generation = cos.generation;
  }

  abbrev unknown_condition : Cos p → Condition Message
  unknown_condition cos = record {
    kind = type_available;
    status = is_unknown;
    reason = "Archived";
    message = text "revision is archived";
    observed_generation = cos.generation;
  }

  -- the conditions say that the revision is archived
  abbrev pub IsArchived : Cos p → Type 0
  IsArchived cos =
      (find_condition p cos type_progressing ≡ some (stopped_condition cos))
      × (find_condition p cos type_available ≡ some (unknown_condition cos))

  -- After `mark_as_archived`, the conditions say so; it reports no change only if they said so before
  -- and it leaves the object as it was.
  mark_as_archived-IsArchived :
      ConditionLaws p.conditions → (cos : Cos p) → IsArchived (mark_as_archived p cos).0
  unfolding mark_as_archived mark_as_not_progressing mark_as_available_unknown
  mark_as_archived-IsArchived laws cos = (
    laws.find-set _ (unknown_condition cos) type_progressing
        ∙ laws.find-set cos.conditions (stopped_condition cos) type_progressing,
    laws.find-set _ (unknown_condition cos) type_available,
  )

  mark_as_archived-unchanged :
      ConditionLaws p.conditions
      → (cos : Cos p) → (mark_as_archived p cos).1 ≡ false
      → IsArchived cos
  unfolding mark_as_archived mark_as_not_progressing mark_as_available_unknown
  mark_as_archived-unchanged laws cos h =
      let a = laws.set_unchanged cos.conditions (stopped_condition cos) (ground arith) in
      let b = laws.set_unchanged _ (unknown_condition cos) (ground arith) in
      (a, sym (laws.find-set cos.conditions (stopped_condition cos) type_available) ∙ b)

  mark_as_archived-changed :
      ConditionLaws p.conditions
      → (cos : Cos p) → (mark_as_archived p cos).1 ≡ true
      → ¬ IsArchived cos
  unfolding mark_as_archived mark_as_not_progressing mark_as_available_unknown
  mark_as_archived-changed laws cos h (stopped, unknown) =
      let a = laws.set_again cos.conditions (stopped_condition cos) stopped in
      let kept = ap (λ (z : p.conditions.Conditions × Bool). z.0) a in
      let found =
        ap (λ (cs : p.conditions.Conditions). p.conditions.find cs type_available) kept ∙ unknown in
      let b = laws.set_again _ (unknown_condition cos) found in
      let unchanged = ap (λ (z : p.conditions.Conditions × Bool). z.1) a in
      let unknown_unchanged = ap (λ (z : p.conditions.Conditions × Bool). z.1) b in
      ground (arith, h, unchanged, unknown_unchanged)

  module _ (cl : Cluster p) where
    abbrev pub drop_call : State p → Call p.objects.Object
    drop_call s = patch_finalizers s.cos.name (without_finalizer p cl s.cos.finalizers)

    filled-calls :
        (r : Result String (Cos p)) (t : State p)
        → (bind_with r t (λ a. on_cos p {E = String} (λ _. a))).1.calls ≡ t.calls
    unfolding on_cos
    filled-calls (ok a) t = refl
    filled-calls (err e) t = refl

    patch-calls :
        (fs : List String) (s : State p)
        → (patch p cl fs s).1.calls ≡ s.calls ++ patch_finalizers s.cos.name fs ∷ []
    unfolding patch ◌>>=◌ the_cos on_cos call
    patch-calls fs s = filled-calls (cl.on_patch (s.calls ++ patch_finalizers s.cos.name fs ∷ [])) _

    remove_finalizer-calls :
        (s : State p)
        → (remove_finalizer p cl s).1.calls ≡ (
            if contains teardown_finalizer s.cos.finalizers
            then s.calls ++ drop_call s ∷ []
            else s.calls)
    unfolding remove_finalizer ◌>>=◌ the_cos pure
    remove_finalizer-calls s = elim (Bool-cases (contains teardown_finalizer s.cos.finalizers)) [
      | inl e ↦ rw e (patch-calls (without_finalizer p cl s.cos.finalizers) s)
      | inr e ↦ rw e refl
    ]

    -- the error paths and the result do not touch the calls
    ended-calls :
        (r : Result String Unit) (t : State p)
        → (bind_with
            (fail_with r t (λ e u. record u { cos = leave p cl e u.cos }) removing_finalizer).0
            (fail_with r t (λ e u. record u { cos = leave p cl e u.cos }) removing_finalizer).1
            (λ _. pure done)).1.calls
          ≡ t.calls
    unfolding pure
    ended-calls (ok _) t = refl
    ended-calls (err e) t = refl

    settle-changed :
        (s : State p)
        → (mark_as_archived p s.cos).1 ≡ true
        → settle p cl s ≡ (ok done, record s { cos = (mark_as_archived p s.cos).0 })
    unfolding settle ◌>>=◌ the_cos on_cos pure
    settle-changed s h = rw h refl

    settle-unchanged :
        (s : State p)
        → (mark_as_archived p s.cos).1 ≡ false
        → (settle p cl s).1.calls ≡ (
            if contains teardown_finalizer s.cos.finalizers
            then s.calls ++ drop_call s ∷ []
            else s.calls)
    unfolding settle ◌>>=◌ the_cos on_cos or_fail mark_as_archived mark_as_not_progressing
        mark_as_available_unknown
    settle-unchanged s h =
        let t : State p = record s { cos = (mark_as_archived p s.cos).0 } in
        rw h (
          ended-calls (remove_finalizer p cl t).0 (remove_finalizer p cl t).1
          ∙ remove_finalizer-calls t)

    abbrev pub down : State p → List (Call p.objects.Object)
    down s = s.calls ++ engine_teardown s.cos.name ∷ []

    -- What `settle` does in a state: it marks the object as archived, or the object was marked
    -- already and the finalizer is removed.
    settle-cases :
        ConditionLaws p.conditions
        → (s : State p)
        → ¬ (IsArchived s.cos)
            × ((settle p cl s).1.calls ≡ s.calls)
            × IsArchived (settle p cl s).1.cos
          ⊎ (IsArchived s.cos
              × ((settle p cl s).1.calls ≡ (
                  if contains teardown_finalizer s.cos.finalizers
                  then s.calls ++ drop_call s ∷ []
                  else s.calls)))
    settle-cases laws s = elim (Bool-cases (mark_as_archived p s.cos).1) [
      | inl h ↦ rw (settle-changed s h) (
          inl (mark_as_archived-changed laws s.cos h, refl, mark_as_archived-IsArchived laws s.cos))
      | inr h ↦ inr (mark_as_archived-unchanged laws s.cos h, settle-unchanged s h)
    ]

    -- the teardown is complete, or there was nothing to tear down
    abbrev pub IsTornDown : Result String (Option Bool) → Type 0
    IsTornDown r = (r ≡ ok none) ⊎ (r ≡ ok (some true))

    abbrev teardown_outcome :
        Result String (Option Bool) → State p → Result ReconcileError Requeue × State p
    teardown_outcome r t =
        let q =
          fail_with r t
            (λ e u. record u { cos = set_retrying_conditions p (of_archive_error e) u.cos })
            archiving in
        bind_with q.0 q.1 (after_teardown p cl)

    archive-outcome :
        (s : State p)
        → archive p cl s ≡ teardown_outcome (cl.on_teardown (down s)) (record s { calls = down s })
    unfolding archive ◌>>=◌ the_cos call or_fail
    archive-outcome s = refl

    settled-safe :
        {r : Result String (Option Bool)}
        → IsTornDown r
        → (t : State p)
        → ¬ (IsArchived t.cos)
            × ((settle p cl t).1.calls ≡ t.calls)
            × IsArchived (settle p cl t).1.cos
          ⊎ (IsArchived t.cos
              × ((settle p cl t).1.calls ≡ (
                  if contains teardown_finalizer t.cos.finalizers
                  then t.calls ++ drop_call t ∷ []
                  else t.calls)))
        → ((settle p cl t).1.calls ≡ t.calls)
          ⊎ (IsTornDown r
              × IsArchived t.cos
              × ((settle p cl t).1.calls ≡ t.calls ++ drop_call t ∷ []))
    settled-safe d t (inl (_, c, _)) = inl c
    settled-safe d t (inr (a, c)) =
        elim (Bool-cases (contains teardown_finalizer t.cos.finalizers)) [
          | inl e ↦ inr (d, a, rw e at c)
          | inr e ↦ inl (rw e at c)
        ]

    outcome-settled :
        (r : Result String (Option Bool)) (t : State p)
        → IsTornDown r
        → teardown_outcome r t ≡ settle p cl t
    unfolding after_teardown
    outcome-settled r t (inl e) = rw e refl
    outcome-settled r t (inr e) = rw e refl

    outcome-safe :
        ConditionLaws p.conditions
        → (r : Result String (Option Bool)) (t : State p)
        → ((teardown_outcome r t).1.calls ≡ t.calls)
          ⊎ (IsTornDown r
              × IsArchived t.cos
              × ((teardown_outcome r t).1.calls ≡ t.calls ++ drop_call t ∷ []))
    unfolding after_teardown ◌>>=◌ on_cos pure
    outcome-safe laws (err e) t = inl refl
    outcome-safe laws (ok (some false)) t = inl refl
    outcome-safe laws (ok (some true)) t = settled-safe (inr refl) t (settle-cases laws t)
    outcome-safe laws (ok none) t = settled-safe (inl refl) t (settle-cases laws t)

    -- The finalizer is removed only behind a teardown that is complete (or had nothing to do), and
    -- only from an object set whose conditions said before that it is archived; otherwise `archive`
    -- makes no call but the one of the teardown.
    pub archive-safe :
        ConditionLaws p.conditions
        → (s : State p)
        → ((archive p cl s).1.calls ≡ down s)
          ⊎ (IsTornDown (cl.on_teardown (down s))
              × IsArchived s.cos
              × ((archive p cl s).1.calls ≡ down s ++ drop_call s ∷ []))
    archive-safe laws s = rw (archive-outcome s) (outcome-safe laws (cl.on_teardown (down s)) _)

    -- Behind a teardown that is complete, `archive` makes progress: an object set whose conditions
    -- did not say before that it is archived is marked so now, with no other call; and if they said
    -- so, the finalizer is removed if it is there.
    pub archive-settles :
        ConditionLaws p.conditions
        → (s : State p) → IsTornDown (cl.on_teardown (down s))
        → (¬ (IsArchived s.cos)
            × ((archive p cl s).1.calls ≡ down s)
            × IsArchived (archive p cl s).1.cos)
          ⊎ (IsArchived s.cos
              × ((archive p cl s).1.calls ≡ (
                  if contains teardown_finalizer s.cos.finalizers
                  then down s ++ drop_call s ∷ []
                  else down s)))
    archive-settles laws s h = rw (archive-outcome s) (
        rw (outcome-settled (cl.on_teardown (down s)) (record s { calls = down s }) h)
          (settle-cases laws (record s { calls = down s })))
