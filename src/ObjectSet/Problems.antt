-- ===== src/ObjectSet/Problems.antt =====
-- Which results of the engine stop a rollout.

use operator_controller.Prelude.{
  subst, ℕ, suc, ◌≡◌, refl, String, List, [], ◌∷◌, Option, none, some, ◌↔◌, In, inl, inr, ◌⊎◌, ◌∙◌,
  sym, Option-cases,
}
use mathlib.Core.List.{cons-ne-nil}
use mathlib.Core.Option.{some-ne-none, none-ne-some, some-injective}
use operator_controller.ObjectSet.{
  OwnerReference, Action, collision, progressed, other_action, ObjectResult, PhaseResult,
  RevisionResult,
}
use operator_controller.ObjectSet.Phases.{foreign_revision_controller}
use operator_controller.ObjectSet.Reconcile.{colliding, phase_problem, problem_of}
use operator_controller.ObjectSet.Foreign.{IsForeign, foreign-none, none-foreign}

-- no other revision and no other owner holds the object
abbrev pub IsFree : Option (List String) → ObjectResult → Type 0
IsFree siblings o =
    (o.action ≡ collision → ⊥)
    × ((names : List String)
        → siblings ≡ some names
        → o.action ≡ progressed
        → (ref : OwnerReference) → In ref o.owner_references
        → IsForeign names ref
        → ⊥)

abbrev pub IsClean : Option (List String) → PhaseResult → Type 0
IsClean siblings r =
    (r.validation_error ≡ none) × ((o : ObjectResult) → In o r.objects → IsFree siblings o)

Action-cases : (a : Action) → (a ≡ collision) ⊎ ((a ≡ progressed) ⊎ (a ≡ other_action))
Action-cases collision = inl refl
Action-cases progressed = inr (inl refl)
Action-cases other_action = inr (inr refl)

collision-ne-progressed : collision ≡ progressed → ⊥
collision-ne-progressed h = cc

collision-ne-other : collision ≡ other_action → ⊥
collision-ne-other h = cc

progressed-ne-other : progressed ≡ other_action → ⊥
progressed-ne-other h = cc

-- an object does not collide exactly when it adds nothing to the list
colliding-step :
    (siblings : Option (List String)) (o : ObjectResult) (os : List ObjectResult)
    → IsFree siblings o
    → colliding siblings (o ∷ os) ≡ colliding siblings os
unfolding colliding
colliding-step none o os (c, f) = elim (Action-cases o.action) [
  | inl e ↦ absurd (c e)
  | inr (inl e) ↦ rw e refl
  | inr (inr e) ↦ rw e refl
]
colliding-step (some names) o os (c, f) = elim (Action-cases o.action) [
  | inl e ↦ absurd (c e)
  | inr (inl e) ↦ rw e (rw (none-foreign o.owner_references names (f names refl e)) refl)
  | inr (inr e) ↦ rw e refl
]

colliding-IsFree :
    (siblings : Option (List String)) (o : ObjectResult) (os : List ObjectResult)
    → colliding siblings (o ∷ os) ≡ []
    → IsFree siblings o × (colliding siblings os ≡ [])
unfolding colliding
colliding-IsFree none o os h = elim (Action-cases o.action) [
  | inl e ↦ absurd (cons-ne-nil _ _ (rw e at h))
  | inr (inl e) ↦ (
    (λ c. collision-ne-progressed (sym c ∙ e), λ names m p ref i f. none-ne-some names m),
    rw e at h,
  )
  | inr (inr e) ↦
      ((λ c. collision-ne-other (sym c ∙ e), λ names m p ref i f. none-ne-some names m), rw e at h)
]
colliding-IsFree (some siblings) o os h = elim (Action-cases o.action) [
  | inl e ↦ absurd (cons-ne-nil _ _ (rw e at h))
  | inr (inr e) ↦ (
    (λ c. collision-ne-other (sym c ∙ e), λ names m p ref i f. progressed-ne-other (sym p ∙ e)),
    rw e at h,
  )
  | inr (inl e) ↦ elim (Option-cases (foreign_revision_controller o.owner_references siblings)) [
    | inl q ↦ (
      (
        λ c. collision-ne-progressed (sym c ∙ e),
        λ names m p ref i f.
            foreign-none o.owner_references siblings q ref i
              (subst (λ (ns : List String). IsForeign ns ref) (some-injective _ _ (sym m)) f),
      ),
      rw q at (rw e at h),
    )
    | inr (ref, q) ↦ absurd (cons-ne-nil _ _ (rw q at (rw e at h)))
  ]
]

colliding_iff :
    (siblings : Option (List String)) (os : List ObjectResult)
    → (colliding siblings os ≡ []) ↔ ((o : ObjectResult) → In o os → IsFree siblings o)
unfolding colliding
colliding_iff siblings [] = (λ h o m. absurd m, λ h. refl)
colliding_iff siblings (x ∷ os) =
    let rest = colliding_iff siblings os in
    (
      λ h o m.
          (let (a, b) = colliding-IsFree siblings x os h in
            elim m [
              | inl e ↦ subst (λ (y : ObjectResult). IsFree siblings y) (sym e) a
              | inr n ↦ rest.0 b o n
            ]),
      λ f. colliding-step siblings x os (f x (inl refl)) ∙ rest.1 (λ o m. f o (inr m)),
    )

List-cases : {A : Type 0} (l : List A) → (l ≡ []) ⊎ ((a : A) × (as' : List A) × (l ≡ a ∷ as'))
List-cases [] = inl refl
List-cases (a ∷ as') = inr (a, as', refl)

phase_problem-IsClean :
    (i : ℕ) (siblings : Option (List String)) (r : PhaseResult) (rs : List PhaseResult)
    → phase_problem i siblings (r ∷ rs) ≡ none
    → IsClean siblings r × (phase_problem (suc i) siblings rs ≡ none)
unfolding phase_problem
phase_problem-IsClean i siblings r rs h = elim (Option-cases r.validation_error) [
  | inr (x, e) ↦ absurd (some-ne-none _ (rw e at h))
  | inl e ↦ elim (List-cases (colliding siblings r.objects)) [
    | inl c ↦ ((e, (colliding_iff siblings r.objects).0 c), rw c at (rw e at h))
    | inr (c, cs, q) ↦ absurd (some-ne-none _ (rw q at (rw e at h)))
  ]
]

phase_problem-step :
    (i : ℕ) (siblings : Option (List String)) (r : PhaseResult) (rs : List PhaseResult)
    → IsClean siblings r
    → phase_problem i siblings (r ∷ rs) ≡ phase_problem (suc i) siblings rs
unfolding phase_problem
phase_problem-step i siblings r rs (v, f) = rw v (rw ((colliding_iff siblings r.objects).1 f) refl)

phase_problem_iff :
    (i : ℕ) (siblings : Option (List String)) (rs : List PhaseResult)
    → (phase_problem i siblings rs ≡ none) ↔ ((r : PhaseResult) → In r rs → IsClean siblings r)
unfolding phase_problem
phase_problem_iff i siblings [] = (λ h r m. absurd m, λ h. refl)
phase_problem_iff i siblings (x ∷ rs) =
    let rest = phase_problem_iff (suc i) siblings rs in
    (
      λ h r m.
          (let (a, b) = phase_problem-IsClean i siblings x rs h in
            elim m [
              | inl e ↦ subst (λ (y : PhaseResult). IsClean siblings y) (sym e) a
              | inr n ↦ rest.0 b r n
            ]),
      λ f. phase_problem-step i siblings x rs (f x (inl refl)) ∙ rest.1 (λ r m. f r (inr m)),
    )

-- A result of the engine does not stop the rollout exactly when it has no validation error, no phase
-- has one, no object collides, and no object that was rolled out is controlled by a ClusterObjectSet
-- that is not a sibling of this one (if the siblings are known).
pub problem_of_iff :
    (siblings : Option (List String)) (rres : RevisionResult)
    → (problem_of siblings rres ≡ none) ↔ (
        (rres.validation_error ≡ none)
        × ((r : PhaseResult) → In r rres.phases → IsClean siblings r))
unfolding problem_of
problem_of_iff siblings rres =
    let rest = phase_problem_iff 0 siblings rres.phases in
    elim (Option-cases rres.validation_error) [
      | inl e ↦ (λ h. (e, rest.0 (rw e at h)), λ (v, f). rw e (rest.1 f))
      | inr (x, e) ↦
          (λ h. absurd (some-ne-none _ (rw e at h)), λ (v, f). absurd (some-ne-none x (sym e ∙ v)))
    ]
