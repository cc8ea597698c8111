-- ===== src/ObjectSet/RolledOut.antt =====
-- What a completed rollout leaves behind: the conditions, and earlier revisions archived.
use operator_controller.Prelude.{
  ℕ, ◌≡◌, refl, String, List, [], ◌∷◌, ◌++◌, Option, none, some, Bool, true, false, ◌∙◌, sym, ap,
  subst, Result, ok, arith, In,
}
use operator_controller.Kube.{Condition, ConditionLaws, is_status_true}
use operator_controller.ObjectSet.{
  Platform, Cos, Cluster, State, Message, Call, archive_revision, list_revisions, RevisionResult,
  type_available, type_progressing, type_succeeded, ReconcileError,
}
use operator_controller.ObjectSet.Conditions.{
  find_condition, mark_as_progressing, mark_as_available, mark_as_succeeded,
}
use operator_controller.ObjectSet.Reconcile.{
  archive_all, finish, report, problem_of, mark_complete, Requeue,
}
use operator_controller.ObjectSet.Run.{is_rolling, Reconciled, check_deadline, outcome_of}
use operator_controller.ObjectSet.Deadline.{check_deadline-idle}
use operator_controller.ObjectSet.Finishing.{
  Done, archive_all-In, list_of_owner-ok, previous_of-In, complete_step-ok, finish-complete,
  report-finish,
}
use operator_controller.ObjectSet.Previous.{marked}
use operator_controller.ObjectSet.Phases.{list_of_owner, list_previous_revisions, is_previous}

module _ (p : Platform) where
  -- available, succeeded, and no longer rolling out
  abbrev pub IsRolledOut : Cos p → Type 0
  IsRolledOut cos =
      (is_status_true (find_condition p cos type_succeeded) ≡ true)
      × (is_status_true (find_condition p cos type_available) ≡ true)
      × (is_rolling (find_condition p cos type_progressing) ≡ false)

  mark_complete-IsRolledOut :
      ConditionLaws p.conditions → (cos : Cos p) → IsRolledOut (mark_complete p cos)
  unfolding mark_complete mark_as_succeeded mark_as_available mark_as_progressing
  mark_complete-IsRolledOut laws cos =
      let find = λ (cs : p.conditions.Conditions) (c : Condition Message) (k : String).
        laws.find-set cs c k in
      (
        ap is_status_true (find _ _ type_succeeded),
        ap is_status_true (find _ _ type_available ∙ find _ _ type_available),
        ap is_rolling
            (find _ _ type_progressing ∙ (find _ _ type_progressing ∙ find _ _ type_progressing)),
      )

  -- The progress deadline has no effect on an object set that has rolled out.
  check_deadline-rolled_out :
      (existing : Cos p) (since now : ℕ) (r : Reconciled p)
      → IsRolledOut r.cos
      → check_deadline p existing since now r ≡ r
  check_deadline-rolled_out existing since now r (_, _, h) =
      check_deadline-idle p existing since now r (ground (arith, h))

  module _ (cl : Cluster p) where
    finish-IsRolledOut :
        ConditionLaws p.conditions
        → (rres : RevisionResult) (s : State p) (q : Requeue) → rres.complete ≡ true
        → (finish p cl rres s).0 ≡ ok q
        → IsRolledOut (finish p cl rres s).1.cos
    finish-IsRolledOut laws rres s q c h =
        let (t, _, a, b, _) = finish-complete p cl rres s q c h in
        let (previous, u, _, _, w) = complete_step-ok p cl t a in
        subst (λ (z : State p). IsRolledOut z.cos) (sym (b ∙ ap (λ (z : Done p cl). z.1) w))
          (mark_complete-IsRolledOut laws (archive_all p cl previous u).1.cos)

    -- If the result of the engine is complete and has no problem, and its report succeeds, the object
    -- set is available, has succeeded and is no longer rolling out, and the progress deadline changes
    -- nothing about this outcome, whatever the time is.
    pub report-IsRolledOut :
        ConditionLaws p.conditions
        → (siblings : Option (List String)) (rres : RevisionResult) (s : State p) (q : Requeue)
        → (existing : Cos p) (since now : ℕ) → rres.complete ≡ true
        → problem_of siblings rres ≡ none
        → (report p cl siblings rres s).0 ≡ ok q
        → let t = (report p cl siblings rres s).1 in
          let r : Reconciled p = record { cos = t.cos; outcome = outcome_of p (ok q) } in
          IsRolledOut t.cos × (check_deadline p existing since now r ≡ r)
    report-IsRolledOut laws siblings rres s q existing since now c n h =
        let e = report-finish p cl siblings rres s n in
        let k =
          subst (λ (z : Result ReconcileError Requeue × State p). IsRolledOut z.1.cos) (sym e)
            (finish-IsRolledOut laws rres s q c (rw e at h)) in
        (k, check_deadline-rolled_out existing since now _ k)

    owner-marked : (b : Bool) (c : Cos p) → (marked p cl b c).owner ≡ c.owner
    unfolding mark_as_progressing
    owner-marked true c = refl
    owner-marked false c = refl

    is_previous-marked :
        (b : Bool) (c r : Cos p) → is_previous p cl (marked p cl b c) r ≡ is_previous p cl c r
    unfolding mark_as_progressing
    is_previous-marked true c r = refl
    is_previous-marked false c r = refl

    listing-In :
        (t : State p) (o : String) (items previous : List (Cos p)) (r : Cos p)
        → t.cos.owner ≡ some o
        → cl.on_list (t.calls ++ list_revisions o ∷ []) ≡ ok items
        → (list_previous_revisions p cl t.cos t).0 ≡ ok previous
        → In r items
        → is_previous p cl t.cos r ≡ true
        → In r previous
    unfolding list_previous_revisions
    listing-In t o items previous r w l v m i =
        subst (λ (rs : List (Cos p)). In r rs)
          (list_of_owner-ok p cl t.cos o t items previous l
            (subst (λ (x : Option String). (list_of_owner p cl t.cos x t).0 ≡ ok previous) w v))
          (previous_of-In p cl t.cos items r m i)

    finish-archives :
        (rres : RevisionResult) (s : State p) (q : Requeue)
        → (o : String) (items : List (Cos p)) (r : Cos p) → rres.complete ≡ true
        → (finish p cl rres s).0 ≡ ok q
        → s.cos.owner ≡ some o
        → cl.on_list (s.calls ++ list_revisions o ∷ []) ≡ ok items
        → In r items
        → is_previous p cl s.cos r ≡ true
        → In (archive_revision r.name) (finish p cl rres s).1.calls
    finish-archives rres s q o items r c h w l m i =
        let (t, tc, a, b, tm) = finish-complete p cl rres s q c h in
        let (previous, u, v, e, z) = complete_step-ok p cl t a in
        let member =
          listing-In t o items previous r
            (ap (λ (c : Cos p). c.owner) tm ∙ (owner-marked rres.in_transition s.cos ∙ w))
            (ap (λ (cs : List (Call p.objects.Object)). cl.on_list (cs ++ list_revisions o ∷ [])) tc
              ∙ l)
            v m
            (ap (λ (c : Cos p). is_previous p cl c r) tm
              ∙ (is_previous-marked rres.in_transition s.cos r ∙ i)) in
        subst (λ (y : State p). In (archive_revision r.name) y.calls)
          (sym (b ∙ ap (λ (y : Done p cl). y.1) z)) (archive_all-In p cl previous u e r member)

    -- If such a report succeeds, every revision in the answer to the listing of the owner's revisions
    -- that is earlier, and neither archived nor being deleted, is archived.
    pub report-archives :
        (siblings : Option (List String)) (rres : RevisionResult) (s : State p) (q : Requeue)
        → (o : String) (items : List (Cos p)) (r : Cos p) → rres.complete ≡ true
        → problem_of siblings rres ≡ none
        → (report p cl siblings rres s).0 ≡ ok q
        → s.cos.owner ≡ some o
        → cl.on_list (s.calls ++ list_revisions o ∷ []) ≡ ok items
        → In r items
        → is_previous p cl s.cos r ≡ true
        → In (archive_revision r.name) (report p cl siblings rres s).1.calls
    report-archives siblings rres s q o items r c n h w l m i =
        let e = report-finish p cl siblings rres s n in
        subst
          (λ (z : Result ReconcileError Requeue × State p). In (archive_revision r.name) z.1.calls)
          (sym e) (finish-archives rres s q o items r c (rw e at h) w l m i)
