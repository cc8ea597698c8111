-- ===== src/ObjectSet/Order/Lasting.antt =====
-- Predicates that survive every call but the engine's rollout and an update of the status, and every
-- change of the object but one of its finalizers; and the parts of the controller that keep them.
use operator_controller.Exec.{or_fail}
use operator_controller.Exec.Keeps.{
  Keeps, Keeps-or_fail, Keeps-bind, Keeps-pure, Keeps-raise, Keeps-if,
}
use operator_controller.Prelude.{
  ◌≡◌, refl, String, List, [], ◌∷◌, ◌++◌, Option, none, some, Bool, true, false, not, ◌||◌, Result,
  arith,
}
use operator_controller.ObjectSet.{
  Platform, Cos, Cluster, Step, State, call, on_cos, the_cos, Message, Call, engine_reconcile,
  get_revision, list_revisions, get_secret, create_engine, free, patch_finalizers, watch,
  engine_teardown, archive_revision, update_status, SpecObject, SpecPhase, ObjectSourceRef,
}
use operator_controller.ObjectSet.Conditions.{set_retrying_conditions, mark_as_available_unknown}
use operator_controller.ObjectSet.Phases.{
  lift, resolve_object_ref, list_of_owner, names_of_owner, manifest_of, list_previous_revisions,
  sibling_revision_names, object_of, build_objects, build_phases, build_boxcutter_phases,
}

abbrev pub is_rollout : {O : Type 0} → Call O → Bool
is_rollout (engine_reconcile _ _ _ _) = true
is_rollout (get_revision _) = false
is_rollout (list_revisions _) = false
is_rollout (get_secret _ _) = false
is_rollout (create_engine _) = false
is_rollout (free _) = false
is_rollout (patch_finalizers _ _) = false
is_rollout (watch _ _) = false
is_rollout (engine_teardown _) = false
is_rollout (archive_revision _) = false
is_rollout (update_status _) = false

abbrev pub is_update : {O : Type 0} → Call O → Bool
is_update (update_status _) = true
is_update (engine_reconcile _ _ _ _) = false
is_update (get_revision _) = false
is_update (list_revisions _) = false
is_update (get_secret _ _) = false
is_update (create_engine _) = false
is_update (free _) = false
is_update (patch_finalizers _ _) = false
is_update (watch _ _) = false
is_update (engine_teardown _) = false
is_update (archive_revision _) = false

-- a call that neither rolls out objects nor updates the status
abbrev pub is_plain : {O : Type 0} → Call O → Bool
is_plain c = not (is_rollout c || is_update c)

pub record IsLasting (p : Platform) (P : State p → Type 0) : Type 0 where
  pub called :
      (s : State p) (c : Call p.objects.Object)
      → is_plain c ≡ true
      → P s
      → P (record s { calls = s.calls ++ c ∷ [] })
  pub marked :
      (s : State p) (cos : Cos p)
      → cos.finalizers ≡ s.cos.finalizers
      → P s
      → P (record s { cos = cos })

module _ (p : Platform) where
  pub finalizers-set_retrying_conditions :
      (m : Message) (c : Cos p) → (set_retrying_conditions p m c).finalizers ≡ c.finalizers
  unfolding set_retrying_conditions
  finalizers-set_retrying_conditions m c = ground arith

  pub finalizers-mark_as_available_unknown :
      (r : String) (m : Message) (c : Cos p)
      → (mark_as_available_unknown p r m c).0.finalizers ≡ c.finalizers
  unfolding mark_as_available_unknown
  finalizers-mark_as_available_unknown r m c = refl

module _ (p : Platform) (P : State p → Type 0) (l : IsLasting p P) where
  pub Keeps-call :
      {A : Type 0} (c : Call p.objects.Object)
      (answer : List (Call p.objects.Object) → Result String A)
      → is_plain c ≡ true
      → Keeps P (call p c answer)
  unfolding call
  Keeps-call c answer h = record { at = λ s k. l.called s c h k }

  pub Keeps-the_cos : {E : Type 0} → Keeps P (the_cos p {E = E})
  unfolding the_cos
  Keeps-the_cos = record { at = λ s h. h }

  pub Keeps-on_cos :
      {E : Type 0} (f : Cos p → Cos p)
      → ((c : Cos p) → (f c).finalizers ≡ c.finalizers)
      → Keeps P (on_cos p {E = E} f)
  unfolding on_cos
  Keeps-on_cos f h = record { at = λ s k. l.marked s (f s.cos) (h s.cos) k }

  pub Keeps-lift : {E A : Type 0} (r : Result E A) → Keeps P (lift p r)
  unfolding lift
  Keeps-lift r = record { at = λ s h. h }

  pub Keeps-or_wrap :
      {E F A : Type 0} (m : Step p E A) (wrap : E → F)
      → Keeps P m
      → Keeps P (or_fail m (λ e s. s) wrap)
  Keeps-or_wrap m wrap k = Keeps-or_fail m (λ e s. s) wrap k (λ e t h. h)

  -- an error path that sets conditions
  pub Keeps-or_mark :
      {E F A : Type 0} (m : Step p E A) (fix : E → Cos p → Cos p) (wrap : E → F)
      → Keeps P m
      → ((e : E) (c : Cos p) → (fix e c).finalizers ≡ c.finalizers)
      → Keeps P (or_fail m (λ e t. record t { cos = fix e t.cos }) wrap)
  Keeps-or_mark m fix wrap k h =
      Keeps-or_fail m (λ e t. record t { cos = fix e t.cos }) wrap k
        (λ e t q. l.marked t (fix e t.cos) (h e t.cos) q)

  module _ (cl : Cluster p) where
    Keeps-resolve_object_ref : (ref : ObjectSourceRef) → Keeps P (resolve_object_ref p cl ref)
    unfolding resolve_object_ref
    Keeps-resolve_object_ref ref =
        Keeps-bind _ _ (Keeps-or_wrap _ _ (Keeps-call _ _ refl)) (λ secret. Keeps-lift _)

    Keeps-list_of_owner : (cos : Cos p) (o : Option String) → Keeps P (list_of_owner p cl cos o)
    unfolding list_of_owner
    Keeps-list_of_owner cos none = Keeps-pure []
    Keeps-list_of_owner cos (some o) = Keeps-bind _ _ (Keeps-call _ _ refl) (λ items. Keeps-pure _)

    pub Keeps-list_previous_revisions : (cos : Cos p) → Keeps P (list_previous_revisions p cl cos)
    unfolding list_previous_revisions
    Keeps-list_previous_revisions cos = Keeps-list_of_owner cos cos.owner

    Keeps-names_of_owner : (o : Option String) → Keeps P (names_of_owner p cl o)
    unfolding names_of_owner
    Keeps-names_of_owner none = Keeps-pure none
    Keeps-names_of_owner (some o) = Keeps-bind _ _ (Keeps-call _ _ refl) (λ items. Keeps-pure _)

    pub Keeps-sibling_revision_names : (cos : Cos p) → Keeps P (sibling_revision_names p cl cos)
    unfolding sibling_revision_names
    Keeps-sibling_revision_names cos = Keeps-names_of_owner cos.owner

    Keeps-manifest_of :
        (phase : String) (ref : ObjectSourceRef) (o : Option p.objects.Object)
        → Keeps P (manifest_of p cl phase ref o)
    unfolding manifest_of
    Keeps-manifest_of phase ref (some o) = Keeps-pure o
    Keeps-manifest_of phase ref none =
        Keeps-if _ _ _ (Keeps-raise _) (Keeps-or_wrap _ _ (Keeps-resolve_object_ref ref))

    Keeps-build_objects :
        (cos : Cos p) (phase : SpecPhase p.objects.Object)
        (specs : List (SpecObject p.objects.Object))
        → Keeps P (build_objects p cl cos phase specs)
    unfolding build_objects object_of
    Keeps-build_objects cos phase [] = Keeps-pure _
    Keeps-build_objects cos phase (spec ∷ specs) =
        Keeps-bind _ _ (Keeps-manifest_of phase.name spec.ref spec.object)
          (λ o. Keeps-bind _ _ (Keeps-build_objects cos phase specs) (λ r. Keeps-pure _))

    Keeps-build_phases :
        (cos : Cos p) (specs : List (SpecPhase p.objects.Object))
        → Keeps P (build_phases p cl cos specs)
    unfolding build_phases
    Keeps-build_phases cos [] = Keeps-pure _
    Keeps-build_phases cos (phase ∷ specs) =
        Keeps-bind _ _ (Keeps-build_objects cos phase phase.objects)
          (λ r. Keeps-bind _ _ (Keeps-build_phases cos specs) (λ q. Keeps-pure _))

    pub Keeps-build_boxcutter_phases : (cos : Cos p) → Keeps P (build_boxcutter_phases p cl cos)
    unfolding build_boxcutter_phases
    Keeps-build_boxcutter_phases cos =
        Keeps-bind _ _ (Keeps-or_wrap _ _ (Keeps-list_previous_revisions cos)) (λ previous.
          Keeps-bind _ _ (Keeps-lift _)
            (λ _. Keeps-bind _ _ (Keeps-build_phases cos cos.phases) (λ r. Keeps-pure _)))
