-- ===== src/Kube.antt =====
-- Kubernetes objects as the controllers see them: the status conditions of
-- k8s.io/apimachinery (`meta.SetStatusCondition` and its siblings) and unstructured objects.
use operator_controller.Prelude.{
  ℕ, String, ◌≡◌, Option, none, some, Bool, true, false, if◌then◌else◌, ◌==◌,
}

pub data ConditionStatus : Type 0 where
  is_true is_false is_unknown : ConditionStatus

-- `metav1.Condition`, whose transition time the library sets; the controllers' messages are of
-- type `M`
pub record Condition (M : Type 0) : Type 0 where
  pub kind : String
  pub status : ConditionStatus
  pub reason : String
  pub message : M
  pub observed_generation : ℕ

pub record ConditionApi (M : Type 0) : Type 1 where
  pub Conditions : Type 0
  -- `FindStatusCondition`
  pub find : Conditions → String → Option (Condition M)
  -- `SetStatusCondition`, and whether it changed anything
  pub set : Conditions → Condition M → Conditions × Bool
  -- `equality.Semantic.DeepEqual` of two lists
  pub same : Conditions → Conditions → Bool

-- What the documentation of these functions says.
pub record ConditionLaws {M : Type 0} (api : ConditionApi M) : Type 0 where
  pub find-set :
      (cs : api.Conditions) (c : Condition M) (kind : String)
      → api.find (api.set cs c).0 kind ≡ (if c.kind == kind then some c else api.find cs kind)
  pub set_unchanged :
      (cs : api.Conditions) (c : Condition M)
      → (api.set cs c).1 ≡ false
      → api.find cs c.kind ≡ some c
  pub set_again :
      (cs : api.Conditions) (c : Condition M)
      → api.find cs c.kind ≡ some c
      → api.set cs c ≡ (cs, false)
  pub same_refl : (cs : api.Conditions) → api.same cs cs ≡ true

-- `IsStatusConditionTrue`
abbrev pub is_status_true : {M : Type 0} → Option (Condition M) → Bool
is_status_true none = false
is_status_true (some c) = elim c.status [ is_true ↦ true | is_false ↦ false | is_unknown ↦ false ]
