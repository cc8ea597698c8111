-- ===== src/ObjectSet/Foreign.antt =====
-- `foreignRevisionController`: whether an object belongs to another extension.
use operator_controller.Prelude.{
  eq_iff, ◌≡◌, refl, String, List, [], ◌∷◌, Option, none, some, Bool, true, false, ◌&&◌, not, ◌==◌,
  arith, In, inl, inr, ap, Bool-cases, contains,
}
use mathlib.Core.Option.{some-ne-none}
use operator_controller.ObjectSet.{OwnerReference}
use operator_controller.ObjectSet.Phases.{foreign_revision_controller}

-- The reference is that of a ClusterObjectSet which controls the object and is not a sibling.
abbrev pub IsForeign : List String → OwnerReference → Type 0
IsForeign siblings ref =
    (ref.controller ≡ some true)
    × (ref.kind ≡ "ClusterObjectSet")
    × (ref.api_version ≡ "olm.operatorframework.io/v1")
    × (contains ref.name siblings ≡ false)

abbrev controls : OwnerReference → Bool
controls ref = elim ref.controller [ none ↦ false | some b ↦ b ]

abbrev is_foreign : List String → OwnerReference → Bool
is_foreign siblings ref =
    controls ref
    && (ref.kind == "ClusterObjectSet"
        && (ref.api_version == "olm.operatorframework.io/v1" && not (contains ref.name siblings)))

controller-true : (o : Option Bool) → elim o [ none ↦ false | some b ↦ b ] ≡ true → o ≡ some true
controller-true none h = absurd (ground arith)
controller-true (some b) h = ap some h

is_foreign-IsForeign :
    (siblings : List String) (ref : OwnerReference)
    → is_foreign siblings ref ≡ true
    → IsForeign siblings ref
is_foreign-IsForeign siblings ref h = (
  controller-true ref.controller (ground arith),
  (eq_iff ref.kind "ClusterObjectSet").0 (ground arith),
  (eq_iff ref.api_version "olm.operatorframework.io/v1").0 (ground arith),
  ground arith,
)

IsForeign-is_foreign :
    (siblings : List String) (ref : OwnerReference)
    → IsForeign siblings ref
    → is_foreign siblings ref ≡ true
IsForeign-is_foreign siblings ref (c, k, v, n) =
    let ek = (eq_iff ref.kind "ClusterObjectSet").1 k in
    let ev = (eq_iff ref.api_version "olm.operatorframework.io/v1").1 v in rw c (ground arith)

-- The controller finds no foreign reference exactly when there is none.
pub foreign-none :
    (refs : List OwnerReference) (siblings : List String)
    → foreign_revision_controller refs siblings ≡ none
    → (ref : OwnerReference) → In ref refs
    → IsForeign siblings ref
    → ⊥
unfolding foreign_revision_controller
foreign-none [] siblings h ref m f = m
foreign-none (r ∷ refs) siblings h ref m f = elim (Bool-cases (is_foreign siblings r)) [
  | inl t ↦ some-ne-none r (rw t at h)
  | inr t ↦ elim m [
    | inl e ↦
        let k = IsForeign-is_foreign siblings ref f in
        let k2 = ap (is_foreign siblings) e in ground (arith, k, k2)
    | inr n ↦ foreign-none refs siblings (rw t at h) ref n f
  ]
]

pub none-foreign :
    (refs : List OwnerReference) (siblings : List String)
    → ((ref : OwnerReference) → In ref refs → IsForeign siblings ref → ⊥)
    → foreign_revision_controller refs siblings ≡ none
unfolding foreign_revision_controller
none-foreign [] siblings h = refl
none-foreign (r ∷ refs) siblings h = elim (Bool-cases (is_foreign siblings r)) [
  | inl t ↦ absurd (h r (inl refl) (is_foreign-IsForeign siblings r t))
  | inr t ↦ rw t (none-foreign refs siblings (λ ref m. h ref (inr m)))
]
