-- ===== src/ObjectSet/Finishing.antt =====
-- The branch of `finish` for a complete result, when it returns no error: its steps one by one.
use operator_controller.Exec.{◌>>=◌, ◌>>◌, bind_with, pure}
use operator_controller.Exec.Succeeds.{bind-ok, or_fail-ok}
use operator_controller.Prelude.{
  ◌≡◌, refl, String, List, [], ◌∷◌, ◌++◌, Option, none, some, true, inl, inr, ◌∙◌, sym, ap, subst,
  Bool-cases, ok_injective, ok-ne-err, Result, ok, err, In, In-append_left, In-append_right,
}
use operator_controller.ObjectSet.{
  Platform, Cos, Cluster, State, call, on_cos, the_cos, Call, archive_revision, list_revisions,
  RevisionResult, ReconcileError,
}
use operator_controller.ObjectSet.Reconcile.{
  archive_all, finish, report, report_with, problem_of, mark_complete, Requeue, done,
}
use operator_controller.ObjectSet.Order.Calls.{IsOnCalls, Keeps-archive_all}
use operator_controller.ObjectSet.Previous.{complete_step, marked}
use operator_controller.ObjectSet.Phases.{
  list_of_owner, list_previous_revisions, previous_of, is_previous,
}

module _ (p : Platform) (cl : Cluster p) where
  -- once made, a call stays
  In-IsOnCalls : (c : Call p.objects.Object) → IsOnCalls p (λ (s : State p). In c s.calls)
  In-IsOnCalls c = record {
    called = λ s d h m. In-append_left c s.calls (d ∷ []) m;
    marked = λ s cos m. m;
  }

  pub archive_all-In :
      (rs : List (Cos p)) (s : State p)
      → (archive_all p cl rs s).0 ≡ ok tt
      → (r : Cos p) → In r rs
      → In (archive_revision r.name) (archive_all p cl rs s).1.calls
  unfolding archive_all call
  archive_all-In [] s h r m = absurd m
  archive_all-In (x ∷ rs) s h r m =
      let (u, e, q) = bind-ok _ _ s tt h in
      let (_, k) = or_fail-ok (call p (archive_revision x.name) cl.on_archive) _ _ s u e in
      let t : State p = record s { calls = s.calls ++ archive_revision x.name ∷ [] } in
      let w = q ∙ ap (λ (z : Result ReconcileError Unit × State p). archive_all p cl rs z.1) k in
      subst (λ (z : Result ReconcileError Unit × State p). In (archive_revision r.name) z.1.calls)
        (sym w)
        (elim m [
          | inr n ↦
              archive_all-In rs t
                (sym (ap (λ (z : Result ReconcileError Unit × State p). z.0) w) ∙ h) r n
          | inl i ↦
              (Keeps-archive_all p _ (In-IsOnCalls (archive_revision r.name)) cl rs).at t
                (In-append_right _ s.calls _ (inl (ap (λ (y : Cos p). archive_revision y.name) i)))
        ])

  -- the value of a listing
  pub list_of_owner-ok :
      (cos : Cos p) (o : String) (t : State p) (items previous : List (Cos p))
      → cl.on_list (t.calls ++ list_revisions o ∷ []) ≡ ok items
      → (list_of_owner p cl cos (some o) t).0 ≡ ok previous
      → previous_of p cl cos items ≡ previous
  unfolding list_of_owner call pure ◌>>=◌
  list_of_owner-ok cos o t items previous q h = ok_injective (rw q at h)

  pub previous_of-In :
      (cos : Cos p) (items : List (Cos p)) (r : Cos p)
      → In r items
      → is_previous p cl cos r ≡ true
      → In r (previous_of p cl cos items)
  unfolding previous_of
  previous_of-In cos [] r m h = absurd m
  previous_of-In cos (x ∷ items) r (inl e) h = rw (← e) (rw h (inl refl))
  previous_of-In cos (x ∷ items) r (inr m) h = elim (Bool-cases (is_previous p cl cos x)) [
    | inl e ↦ rw e (inr (previous_of-In cos items r m h))
    | inr e ↦ rw e (previous_of-In cos items r m h)
  ]

  abbrev pub Done : Type 0
  Done = Result ReconcileError Unit × State p

  -- the branch of `finish` for a complete result, if it succeeds
  pub complete_step-ok :
      (s : State p)
      → (complete_step p cl s.cos (mark_complete p) s).0 ≡ ok tt
      → (previous : List (Cos p)) × (t : State p) × ((list_previous_revisions p cl s.cos s).0
          ≡ ok previous)
        × ((archive_all p cl previous t).0 ≡ ok tt)
        × (complete_step p cl s.cos (mark_complete p) s ≡ (
          ok tt,
          record (archive_all p cl previous t).1 {
            cos = mark_complete p (archive_all p cl previous t).1.cos;
          },
        ))
  unfolding on_cos
  complete_step-ok s h =
      let (previous, e, q) = bind-ok _ _ s tt h in
      let (v, k) = or_fail-ok (list_previous_revisions p cl s.cos) _ _ s previous e in
      let t : State p = (list_previous_revisions p cl s.cos s).1 in
      let w =
        q
        ∙ ap
            (λ (z : Result ReconcileError (List (Cos p)) × State p).
              (archive_all p cl previous >> on_cos p (mark_complete p)) z.1)
            k in
      let (u, e2, q2) =
        bind-ok (archive_all p cl previous) _ t tt (sym (ap (λ (z : Done). z.0) w) ∙ h) in
      (previous, t, v, e2, w ∙ q2)

  ended :
      (r : Result ReconcileError Unit) (t : State p) (q : Requeue)
      → (bind_with {B = Requeue} r t (λ _. pure done)).0 ≡ ok q
      → (r ≡ ok tt) × ((bind_with {B = Requeue} r t (λ _. pure done)).1 ≡ t)
  unfolding pure
  ended (ok _) t q h = (refl, refl)
  ended (err e) t q h = absurd (ok-ne-err q e (sym h))

  pub finish-complete :
      (rres : RevisionResult) (s : State p) (q : Requeue)
      → rres.complete ≡ true
      → (finish p cl rres s).0 ≡ ok q
      → (t : State p) × (t.calls ≡ s.calls)
        × ((complete_step p cl t.cos (mark_complete p) t).0 ≡ ok tt)
        × ((finish p cl rres s).1 ≡ (complete_step p cl t.cos (mark_complete p) t).1)
        × (t.cos ≡ marked p cl rres.in_transition s.cos)
  unfolding finish on_cos the_cos pure ◌>>=◌
  finish-complete rres s q c h =
      let t : State p = record s { cos = marked p cl rres.in_transition s.cos } in
      let body = complete_step p cl t.cos (mark_complete p) t in
      let (a, b) = ended body.0 body.1 q (rw c at h) in (t, refl, a, rw c b, refl)

  pub report-finish :
      (siblings : Option (List String)) (rres : RevisionResult) (s : State p)
      → problem_of siblings rres ≡ none
      → report p cl siblings rres s ≡ finish p cl rres s
  unfolding report report_with
  report-finish siblings rres s h = rw h refl
