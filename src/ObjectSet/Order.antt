-- ===== src/ObjectSet/Order.antt =====
-- The order of the calls of a reconciliation: the engine rolls out objects only once the teardown
-- finalizer is on the object set.
pub mod Lasting
pub mod Calls
use operator_controller.Exec.{Exec, ◌>>=◌, pure, or_fail, bind_with, fail_with}
use operator_controller.Exec.Keeps.{
  Keeps, Keeps-or_fail, Keeps-bind, Keeps-pure, Keeps-raise, Keeps-if,
}
use operator_controller.Prelude.{
  subst, ◌≡◌, refl, String, List, [], ◌∷◌, ◌++◌, Option, none, some, Bool, true, false, Result, ok,
  err, arith, if◌then◌else◌, ◌||◌, ◌&&◌, ◌==◌, not, contains, sym, ◌∙◌, ap, Bool-cases, inl, inr,
  ok_injective, ok-ne-err,
}
use operator_controller.ObjectSet.{
  Platform, Cos, Cluster, Step, State, call, on_cos, the_cos, Message, Call, engine_reconcile,
  get_revision, list_revisions, get_secret, create_engine, free, patch_finalizers, watch,
  engine_teardown, archive_revision, update_status, Phase, text, teardown_finalizer, ReconcileError,
  RevisionResult,
}
use operator_controller.ObjectSet.Conditions.{set_retrying_conditions, mark_as_available_unknown}
use operator_controller.ObjectSet.Reconcile.{
  Requeue, done, patch, ensure_finalizer, remove_finalizer, free_informers, delete, settle,
  after_teardown, archive, archive_all, finish, report_with, report, leave, retry_later,
}
use operator_controller.ObjectSet.Run.{roll_out, reconcile}
use operator_controller.Exec.Leads.{
  Behind, Leads, Ends, Ends-Keeps, Ends-if, Leads-Keeps, Ends-bind, Leads-or_fail,
}
use Calls.{IsOnCalls, Keeps-or_any, Keeps-free_informers, Keeps-delete, Keeps-archive, Keeps-report}
use Lasting.{
  is_rollout, IsLasting, Keeps-call, Keeps-the_cos, Keeps-on_cos, Keeps-or_mark,
  Keeps-list_previous_revisions, Keeps-sibling_revision_names, Keeps-build_boxcutter_phases,
  finalizers-set_retrying_conditions,
}

-- the call puts the finalizer on the object set
abbrev pub arms : {O : Type 0} → Call O → Bool
arms (patch_finalizers _ fs) = contains teardown_finalizer fs
arms (engine_reconcile _ _ _ _) = false
arms (get_revision _) = false
arms (list_revisions _) = false
arms (get_secret _ _) = false
arms (create_engine _) = false
arms (free _) = false
arms (watch _ _) = false
arms (engine_teardown _) = false
arms (archive_revision _) = false
arms (update_status _) = false

-- The finalizer was there at first (`b`), or a call has put it on the object set.
abbrev pub is_armed : {O : Type 0} → Bool → List (Call O) → Bool
is_armed b [] = b
is_armed b (c ∷ cs) = is_armed (b || arms c) cs

-- Every rollout comes after the finalizer.
abbrev pub is_guarded : {O : Type 0} → Bool → List (Call O) → Bool
is_guarded b [] = true
is_guarded b (c ∷ cs) = (not (is_rollout c) || b) && is_guarded (b || arms c) cs

module _ {O : Type 0} where
  is_armed-append :
      (b : Bool) (cs : List (Call O)) (c : Call O)
      → is_armed b (cs ++ c ∷ []) ≡ (is_armed b cs || arms c)
  is_armed-append b [] c = refl
  is_armed-append b (d ∷ cs) c = is_armed-append (b || arms d) cs c

  is_guarded-append :
      (b : Bool) (cs : List (Call O)) (c : Call O)
      → is_guarded b (cs ++ c ∷ []) ≡ (is_guarded b cs && (not (is_rollout c) || is_armed b cs))
  is_guarded-append b [] c = ground arith
  is_guarded-append b (d ∷ cs) c = ground (arith, is_guarded-append (b || arms d) cs c)

  is_armed-true : (cs : List (Call O)) → is_armed true cs ≡ true
  is_armed-true [] = refl
  is_armed-true (c ∷ cs) = is_armed-true cs

module _ (p : Platform) (b : Bool) where
  abbrev Guarded : State p → Type 0
  Guarded s = is_guarded b s.calls ≡ true

  -- the finalizer is there, and stays
  abbrev Armed : State p → Type 0
  Armed s = (is_guarded b s.calls ≡ true) × (is_armed b s.calls ≡ true)

  -- `b` still says whether the object has the finalizer
  abbrev Fresh : State p → Type 0
  Fresh s = (is_guarded b s.calls ≡ true) × (contains teardown_finalizer s.cos.finalizers ≡ b)

  Guarded-IsLasting : IsLasting p Guarded
  Guarded-IsLasting = record {
    called = λ s c h k. ground (arith, is_guarded-append b s.calls c);
    marked = λ s cos h k. k;
  }

  Armed-IsLasting : IsLasting p Armed
  Armed-IsLasting = record {
    called = λ s c h k. ground (arith, is_guarded-append b s.calls c, is_armed-append b s.calls c);
    marked = λ s cos h k. k;
  }

  Fresh-IsLasting : IsLasting p Fresh
  Fresh-IsLasting = record {
    called = λ s c h k. (ground (arith, is_guarded-append b s.calls c), k.1);
    marked = λ s cos h k. (k.0, ap (contains teardown_finalizer) h ∙ k.1);
  }

  Guarded-IsOnCalls : IsOnCalls p Guarded
  Guarded-IsOnCalls = record { called = Guarded-IsLasting.called; marked = λ s cos k. k }

  Armed-IsOnCalls : IsOnCalls p Armed
  Armed-IsOnCalls = record { called = Armed-IsLasting.called; marked = λ s cos k. k }

  module _ (cl : Cluster p) where
    filled :
        (r : Result String (Cos p)) (t : State p)
        → Armed t
        → Behind Armed Guarded
            (bind_with r t (λ a. on_cos p {E = String} (λ _. a))).0
            (bind_with r t (λ a. on_cos p {E = String} (λ _. a))).1
    unfolding on_cos
    filled (ok a) t k = k
    filled (err e) t k = k.0

    -- the patch with the finalizer, whatever the server answers
    arming :
        (s : State p) (fs : List String)
        → contains teardown_finalizer fs ≡ true
        → Guarded s
        → Behind {A = Unit} Armed Guarded (patch p cl fs s).0 (patch p cl fs s).1
    unfolding patch ◌>>=◌ the_cos on_cos call
    arming s fs h k =
        let c : Call p.objects.Object = patch_finalizers s.cos.name fs in
        filled (cl.on_patch (s.calls ++ c ∷ [])) _ (
          ground (arith, is_guarded-append b s.calls c),
          ground (arith, is_armed-append b s.calls c),
        )

    contains_last :
        (fs : List String) → contains teardown_finalizer (fs ++ teardown_finalizer ∷ []) ≡ true
    contains_last [] = refl
    contains_last (f ∷ fs) = ground (arith, contains_last fs)

    Leads-ensure_finalizer : Leads Fresh Armed Guarded (ensure_finalizer p cl)
    unfolding ensure_finalizer ◌>>=◌ the_cos pure
    Leads-ensure_finalizer = record {
      at = λ s h. elim (Bool-cases (contains teardown_finalizer s.cos.finalizers)) [
        | inl e ↦ rw e (
          h.0,
          subst (λ (c : Bool). is_armed c s.calls ≡ true) (sym e ∙ h.1) (is_armed-true s.calls),
        )
        | inr e ↦ rw e (arming s _ (contains_last s.cos.finalizers) h.0)
      ];
    }

    Keeps-rollout :
        (c : Call p.objects.Object)
        (answer : List (Call p.objects.Object) → Result String RevisionResult)
        → Keeps Armed (call p c answer)
    unfolding call
    Keeps-rollout c answer = record {
      at = λ s k. ground (arith, is_guarded-append b s.calls c, is_armed-append b s.calls c);
    }

    rollout-armed :
        (phases : List (Phase p.objects.Object)) (previous : List String)
        (opts : List (p.objects.Object × String)) (siblings : Option (List String))
        → Ends Fresh Guarded (roll_out p cl phases previous opts siblings)
    unfolding roll_out
    rollout-armed phases previous opts siblings =
        Ends-bind _ _ (Leads-or_fail _ _ _ Leads-ensure_finalizer (λ e t h. h)) (λ _.
          Ends-Keeps _ (λ s h. h) (λ s h. h.0)
            (Keeps-bind _ _ (Keeps-the_cos p Armed Armed-IsLasting) (λ cos.
              Keeps-bind _ _
                (Keeps-or_any p Armed Armed-IsOnCalls _ _ _
                  (Keeps-call p Armed Armed-IsLasting _ _ refl))
                (λ _.
                  Keeps-bind _ _ (Keeps-or_any p Armed Armed-IsOnCalls _ _ _ (Keeps-rollout _ _))
                    (λ rres. Keeps-report p Armed Armed-IsOnCalls cl siblings rres)))))

    before_rollout : {E A : Type 0} (m : Step p E A) → Keeps Fresh m → Leads Fresh Fresh Guarded m
    before_rollout m k = Leads-Keeps m (λ s h. h.0) k

    of_Guarded : {E A : Type 0} (m : Step p E A) → Keeps Guarded m → Ends Fresh Guarded m
    of_Guarded m k = Ends-Keeps m (λ s h. h.0) (λ s h. h) k

    retrying :
        {E A : Type 0} (m : Step p E A) (message : E → Message) (wrap : E → ReconcileError)
        → Keeps Fresh m
        → Leads Fresh Fresh Guarded
            (or_fail m (λ e t. record t { cos = set_retrying_conditions p (message e) t.cos }) wrap)
    retrying m message wrap k = before_rollout _ (
        Keeps-or_mark p Fresh Fresh-IsLasting m _ wrap k
          (λ e c. finalizers-set_retrying_conditions p (message e) c))

    reconcile-Fresh : Ends Fresh Guarded (reconcile p cl)
    unfolding reconcile
    reconcile-Fresh =
        Ends-bind _ _ (before_rollout _ (Keeps-the_cos p Fresh Fresh-IsLasting)) (λ cos.
          Ends-if _ _ _ (of_Guarded _ (Keeps-delete p Guarded Guarded-IsOnCalls cl)) (
            Ends-bind _ _
              (retrying _ _ _ (Keeps-build_boxcutter_phases p Fresh Fresh-IsLasting cl cos))
              (λ r.
                Ends-bind _ _
                  (retrying _ _ _ (Keeps-sibling_revision_names p Fresh Fresh-IsLasting cl cos))
                  (λ siblings.
                    Ends-bind _ _ (retrying _ _ _ (Keeps-call p Fresh Fresh-IsLasting _ _ refl))
                      (λ _.
                        Ends-if _ _ _
                          (of_Guarded _ (
                            Keeps-bind _ _ (Keeps-free_informers p Guarded Guarded-IsOnCalls cl)
                              (λ _. Keeps-archive p Guarded Guarded-IsOnCalls cl)))
                          (rollout-armed r.0 r.1 r.2 siblings))))))

-- The calls of a reconciliation of an object set that was just read: the engine is asked to roll out
-- objects only if the object set had the teardown finalizer when it was read, or a patch of the
-- finalizers that has it was sent before.
pub reconcile-is_guarded :
    (p : Platform) (cl : Cluster p) (cos : Cos p) (name : String)
    → is_guarded
        (contains teardown_finalizer cos.finalizers)
        (reconcile p cl (record { cos = cos; calls = get_revision name ∷ [] })).1.calls
      ≡ true
reconcile-is_guarded p cl cos name =
    (reconcile-Fresh p (contains teardown_finalizer cos.finalizers) cl).at _ (refl, refl)
