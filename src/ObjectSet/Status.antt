-- ===== src/ObjectSet/Status.antt =====
-- What `Reconcile` does behind `reconcile`: the update of the status.
use operator_controller.Exec.{or_fail}
use operator_controller.Exec.Keeps.{Keeps, Keeps-bind, Keeps-if}
use operator_controller.Prelude.{
  ℕ, ◌≡◌, refl, ap, ◌∙◌, String, List, [], ◌∷◌, ◌++◌, Option, some, Bool, true, false, ◌||◌, ◌⊎◌,
  inl, inr, sym, subst, Bool-cases, ok, err, Result, arith,
}
use operator_controller.ObjectSet.{
  Platform, Cos, Cluster, State, Call, call, get_revision, update_status, ReconcileError, Phase,
}
use operator_controller.ObjectSet.Reconcile.{Requeue}
use operator_controller.ObjectSet.Run.{
  Answer, answered, panicked, Outcome, Reconciled, outcome_of, roll_out, reconcile, check_deadline,
  store, run, update_with,
}
use operator_controller.ObjectSet.Order.Lasting.{
  is_update, IsLasting, Keeps-the_cos, Keeps-build_boxcutter_phases, Keeps-sibling_revision_names,
}
use operator_controller.ObjectSet.Order.Calls.{
  IsOnCalls, lasting, Keeps-or_any, Keeps-ensure_finalizer, Keeps-report, Keeps-delete,
  Keeps-free_informers, Keeps-archive,
}

-- the status is updated
abbrev pub has_update : {O : Type 0} → List (Call O) → Bool
has_update [] = false
has_update (c ∷ cs) = is_update c || has_update cs

has_update-append :
    {O : Type 0} (cs : List (Call O)) (c : Call O)
    → has_update (cs ++ c ∷ []) ≡ (has_update cs || is_update c)
has_update-append [] c = ground arith
has_update-append (d ∷ cs) c = ground (arith, has_update-append cs c)

module _ (p : Platform) where
  -- The status was not updated so far.
  abbrev Unsaved : State p → Type 0
  Unsaved s = has_update s.calls ≡ false

  Unsaved-IsOnCalls : IsOnCalls p Unsaved
  Unsaved-IsOnCalls = record {
    called = λ s c h k. ground (arith, has_update-append s.calls c);
    marked = λ s cos k. k;
  }

  Unsaved-IsLasting : IsLasting p Unsaved
  Unsaved-IsLasting = lasting p Unsaved Unsaved-IsOnCalls

  -- a call with an error path
  Keeps-called :
      {A : Type 0} (c : Call p.objects.Object)
      (answer : List (Call p.objects.Object) → Result String A) (fix : String → Cos p → Cos p)
      (wrap : String → ReconcileError)
      → is_update c ≡ false
      → Keeps Unsaved (or_fail (call p c answer) (λ e t. record t { cos = fix e t.cos }) wrap)
  unfolding call
  Keeps-called c answer fix wrap h =
      Keeps-or_any p Unsaved Unsaved-IsOnCalls _ fix wrap
        record { at = λ s k. ground (arith, has_update-append s.calls c) }

  module _ (cl : Cluster p) where
    Keeps-roll_out :
        (phases : List (Phase p.objects.Object)) (previous : List String)
        (opts : List (p.objects.Object × String)) (siblings : Option (List String))
        → Keeps Unsaved (roll_out p cl phases previous opts siblings)
    unfolding roll_out
    Keeps-roll_out phases previous opts siblings =
        Keeps-bind _ _
          (Keeps-or_any p Unsaved Unsaved-IsOnCalls _ _ _
            (Keeps-ensure_finalizer p Unsaved Unsaved-IsOnCalls cl))
          (λ _. Keeps-bind _ _ (Keeps-the_cos p Unsaved Unsaved-IsLasting) (λ cos.
            Keeps-bind _ _ (Keeps-called _ _ _ _ refl) (λ _.
              Keeps-bind _ _ (Keeps-called _ _ _ _ refl)
                (λ rres. Keeps-report p Unsaved Unsaved-IsOnCalls cl siblings rres))))

    reconcile-Unsaved : Keeps Unsaved (reconcile p cl)
    unfolding reconcile
    reconcile-Unsaved =
        let o = Unsaved-IsOnCalls in
        let l = Unsaved-IsLasting in
        Keeps-bind _ _ (Keeps-the_cos p Unsaved l) (λ cos.
          Keeps-if _ _ _ (Keeps-delete p Unsaved o cl) (
            Keeps-bind _ _
              (Keeps-or_any p Unsaved o _ _ _ (Keeps-build_boxcutter_phases p Unsaved l cl cos))
              (λ r.
                Keeps-bind _ _
                  (Keeps-or_any p Unsaved o _ _ _ (Keeps-sibling_revision_names p Unsaved l cl cos))
                  (λ siblings. Keeps-bind _ _ (Keeps-called _ _ _ _ refl) (λ _.
                    Keeps-if _ _ _
                      (Keeps-bind _ _ (Keeps-free_informers p Unsaved o cl)
                        (λ _. Keeps-archive p Unsaved o cl))
                      (Keeps-roll_out r.0 r.1 r.2 siblings))))))

module _ (p : Platform) (cl : Cluster p) where
  -- what `reconcile` makes of the object that was read, and the calls
  abbrev reconciled : String → Cos p → Result ReconcileError Requeue × State p
  reconciled name existing =
      reconcile p cl (record { cos = existing; calls = get_revision name ∷ [] })

  -- the object and the outcome behind the check of the deadline
  abbrev pub settled : String → Cos p → ℕ → ℕ → Reconciled p
  settled name existing since now =
      let (r, s) = reconciled name existing in
      check_deadline p existing since now (record { cos = s.cos; outcome = outcome_of p r })

  -- the error of the update is joined to that of the reconciliation
  abbrev pub IsReported : Result String Unit → Outcome p → Outcome p → Type 0
  IsReported r before after =
      (after.requeue ≡ before.requeue)
      × (((r ≡ ok tt) × (after.error ≡ before.error))
          ⊎ ((e : String) × (r ≡ err e) × (f : ReconcileError) × (after.error ≡ some f)))

  update_with-IsReported :
      (r : Result String Unit) (o : Outcome p) → IsReported r o (update_with p cl r o)
  update_with-IsReported (ok _) o = (refl, inl (refl, refl))
  update_with-IsReported (err e) o = (refl, inr (e, refl, _, refl))

  abbrev Report : Type 0
  Report = Answer p cl

  panicked-ne-answered :
      (o : Outcome p) (calls : List (Call p.objects.Object))
      → ◌≡◌ {A = Report} panicked (answered o calls)
      → ⊥
  panicked-ne-answered o calls h = cc

  answered_outcome :
      (o o' : Outcome p) (cs ds : List (Call p.objects.Object))
      → ◌≡◌ {A = Report} (answered o cs) (answered o' ds)
      → o ≡ o'
  answered_outcome o o' cs ds h = cc

  answered_calls :
      (o o' : Outcome p) (cs ds : List (Call p.objects.Object))
      → ◌≡◌ {A = Report} (answered o cs) (answered o' ds)
      → cs ≡ ds
  answered_calls o o' cs ds h = cc

  -- the conditions are as they were read, and the status was not updated
  abbrev pub IsUnsaved : Cos p → Reconciled p → Outcome p → List (Call p.objects.Object) → Type 0
  IsUnsaved existing r o calls =
      (p.conditions.same existing.conditions r.cos.conditions ≡ true)
      × (has_update calls ≡ false)
      × (o ≡ r.outcome)

  -- the conditions differ, and the one update of the status is the last call
  abbrev pub IsSaved : Cos p → Reconciled p → Outcome p → List (Call p.objects.Object) → Type 0
  IsSaved existing r o calls =
      (p.conditions.same existing.conditions r.cos.conditions ≡ false)
      × ((before : List (Call p.objects.Object)) × (calls ≡ before ++ update_status r.cos.name ∷ [])
          × (has_update before ≡ false))
      × IsReported (cl.on_update calls) r.outcome o

  store-cases :
      (existing : Cos p) (r : Reconciled p) (before calls : List (Call p.objects.Object))
      (o : Outcome p)
      → store p cl existing r before ≡ answered o calls
      → has_update before ≡ false
      → IsUnsaved existing r o calls ⊎ IsSaved existing r o calls
  unfolding store
  store-cases existing r before calls o h u = elim (Bool-cases (cl.same_spec existing r.cos)) [
    | inr e ↦ absurd (panicked-ne-answered o calls (rw e at h))
    | inl e ↦ elim (Bool-cases (p.conditions.same existing.conditions r.cos.conditions)) [
      | inl k ↦
          let q = rw k at (rw e at h) in
          let c = answered_calls _ _ _ _ q in
          inl (k, ap has_update (sym c) ∙ u, sym (answered_outcome _ _ _ _ q))
      | inr k ↦
          let q = rw k at (rw e at h) in
          let all = before ++ update_status r.cos.name ∷ [] in
          let c = answered_calls _ _ _ _ q in
          inr (
            k,
            (before, sym c, u),
            subst (λ (a : Outcome p). IsReported (cl.on_update calls) r.outcome a)
                (answered_outcome _ _ _ _ q)
                (subst
                  (λ (cs : List (Call p.objects.Object)).
                    IsReported (cl.on_update cs) r.outcome
                      (update_with p cl (cl.on_update all) r.outcome))
                  c (update_with-IsReported (cl.on_update all) r.outcome)),
          )
    ]
  ]

  -- When an object set that was read is reconciled, its status is updated exactly if the conditions
  -- differ behind the check of the deadline from those that were read: then once, as the last call,
  -- and else by no call. Only the error can differ from the outcome of the reconciliation and its
  -- deadline: there is one if the update fails.
  pub run-calls :
      (name : String) (existing : Cos p) (since now : ℕ) (o : Outcome p)
      (calls : List (Call p.objects.Object))
      → cl.on_get (get_revision name ∷ []) ≡ ok (some existing)
      → run p cl name since now ≡ answered o calls
      → IsUnsaved existing (settled name existing since now) o calls
        ⊎ IsSaved existing (settled name existing since now) o calls
  unfolding run
  run-calls name existing since now o calls g h =
      store-cases existing (settled name existing since now) _ calls o (rw (g, run) at h) (
        (reconcile-Unsaved p cl).at (record { cos = existing; calls = get_revision name ∷ [] })
          refl)
