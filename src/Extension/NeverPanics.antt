-- ===== src/Extension/NeverPanics.antt =====
-- The reconciliation as a whole dereferences no nil pointer.
use operator_controller.Prelude.{
  String, List, [], ◌∷◌, ◌≡◌, ◌≢◌, Option, none, some, Result, ok, err,
}
use operator_controller.Extension.{
  ExtensionError, nil_pointer, ExtensionApi, RevisionMetadata, ClusterExtension, Reconciling,
  Action, Ending, ReconcileStep, empty_state,
}
use operator_controller.Extension.Rollout.{
  steps_loop, Collaborators, boxcutter_steps, reconcile_extension,
}
use operator_controller.Extension.Rollout.{continue}
use operator_controller.Extension.Panics.{
  IsFine, Safe, Safe-pure, Safe-bind, Safe-finalizers, Safe-validate, Safe-migrate, Safe-retrieve,
  Has, On, Next, Any, HasStates, HasBoth, IsSafe,
}
use operator_controller.Extension.Running.{Safe-resolve, Safe-unpack, Safe-apply}

err_injective :
    {A : Type 0} {e f : ExtensionError} → ◌≡◌ {A = Result ExtensionError A} (err e) (err f) → e ≡ f
err_injective h = cc

module _ (a : ExtensionApi) where
  -- The steps one after the other.
  Safe-continue :
      (P : Has a) (rest : Action a Unit) (r : Ending)
      → Safe (On a P) (λ _ _. Unit) rest
      → Safe (Next a P r) (λ _ _. Unit) (continue a rest r)
  Safe-continue P rest none k = k
  Safe-continue P rest (some _) k = Safe-pure _ _ tt (λ _ _. tt)

  Safe-step :
      (P Q : Has a) (step : ReconcileStep a) (steps : List (ReconcileStep a))
      → IsSafe a P Q step
      → Safe (On a Q) (λ _ _. Unit) (steps_loop a steps)
      → Safe (On a P) (λ _ _. Unit) (steps_loop a (step ∷ steps))
  unfolding steps_loop
  Safe-step P Q step steps k rest =
      Safe-bind (On a P) (Next a Q) (λ _ _. Unit) step _ k
        (λ r. Safe-continue Q (steps_loop a steps) r rest)

  -- The collaborators return errors and do not panic.
  pub record NoPanics (c : Collaborators a) : Type 0 where
    pub finalize : c.finalize ≢ err nil_pointer
    pub states : c.get_revision_states ≢ err nil_pointer
    pub resolve : c.resolve.bundle ≢ err nil_pointer
    pub pull : (image : String) → c.pull image ≢ err nil_pointer
    pub apply : (fs : Option String) (r : RevisionMetadata a) → c.apply fs r ≢ err nil_pointer

  ending : Safe (On a (Any a)) (λ _ _. Unit) (steps_loop a [])
  unfolding steps_loop
  ending = Safe-pure _ _ tt (λ _ _. tt)

  no_panic :
      (r : Result ExtensionError Unit) (s : Reconciling a)
      → IsFine (λ _ _. Unit) r s
      → r ≢ err nil_pointer
  no_panic (ok _) s h e = cc
  no_panic (err f) s h e = h (err_injective e)

  Safe-steps :
      (c : Collaborators a)
      → NoPanics c
      → Safe (On a (Any a)) (λ _ _. Unit) (steps_loop a (boxcutter_steps a c))
  unfolding boxcutter_steps
  Safe-steps c n = Safe-step (Any a) (Any a) _ _ (Safe-finalizers a c.finalize n.finalize) (
      Safe-step (Any a) (Any a) _ _ (Safe-validate a c.validators) (
        Safe-step (Any a) (Any a) _ _ (Safe-migrate a c.migrate) (
          Safe-step (Any a) (HasStates a) _ _ (Safe-retrieve a c.get_revision_states n.states) (
            Safe-step (HasStates a) (HasBoth a) _ _
              (Safe-resolve a c.valid_selector c.list_catalogs c.empty c.resolve n.resolve)
              (Safe-step (HasBoth a) (HasBoth a) _ _ (Safe-unpack a c.pull n.pull) (
                Safe-step (HasBoth a) (Any a) _ _ (Safe-apply a c.empty c.apply n.apply)
                  ending))))))

  -- If the collaborators do not panic, the steps with the boxcutter runtime do not dereference a nil
  -- pointer: the revision states and the resolved bundle are there wherever they are read.
  pub reconcile_extension_never_panics :
      (c : Collaborators a) (ext : ClusterExtension a)
      → NoPanics c
      → (reconcile_extension a c ext).0 ≢ err nil_pointer
  unfolding reconcile_extension
  reconcile_extension_never_panics c ext n =
      no_panic _ _ ((Safe-steps c n).at (record { ext = ext; state = empty_state a }) tt)
