-- ===== src/Extension/Running.antt =====
-- The steps from resolution to the apply read no nil pointer.
use operator_controller.Prelude.{
  String, List, [], ◌∷◌, ◌≡◌, ◌≢◌, refl, ap, Option, none, some, Bool, Result, ok, err,
}
use operator_controller.Exec.{pure}
use operator_controller.Successors.{BundleMetadata}
use operator_controller.Extension.{
  ExtensionError, plain, terminal, nil_pointer, ExtensionApi, RevisionMetadata, RevisionStates,
  ClusterExtension, ReconcileState, Reconciling, Action, on_ext,
}
use operator_controller.Extension.Steps.{CatalogAnswer, Resolution, dereference, resolve_bundle}
use operator_controller.Extension.Rollout.{unpack_bundle, apply_bundle_with_boxcutter}
use operator_controller.Extension.Steps.{resolve_next, resolved, no_conditions}
use operator_controller.Extension.Rollout.{
  unpacked, unpack_resolved, same_bundle, boxcutter_applied,
}
use operator_controller.Extension.Conditions.{wrap_error_with_resolution_info}
use operator_controller.Extension.Panics.{
  Safe, Safe-pure, Safe-raise, Safe-bind, Safe-if, Safe-on_ext, Safe-on_state, Safe-fail_after,
  Safe-handle, setting, Safe-the_state, plain-ne-nil, Has, On, Next, Any, HasStates, HasBoth,
  IsSafe,
}

module _ (a : ExtensionApi) where
  -- A pointer that is not nil is read.
  Safe-dereference :
      {A : Type 0} (K : Type 0) (P : Has a) (o : Option A)
      → (K → (v : A) × (o ≡ some v))
      → Safe (λ s. K × P s.state) (λ v s. K × P s.state) (dereference a o)
  unfolding pure
  Safe-dereference K P o f = record { at = λ s h. let (v, e) = f h.0 in rw e h }

  Safe-resolved :
      (valid : String → Bool) (answer : CatalogAnswer) (empty : a.conditions.Conditions)
      (states : RevisionStates a) (r : Result ExtensionError (String × (String × BundleMetadata)))
      → r ≢ err nil_pointer
      → IsSafe a (HasStates a) (HasBoth a) (resolved a valid answer empty states r)
  Safe-resolved valid answer empty states (ok b) k = setting a (no_conditions a empty b)
  Safe-resolved valid answer empty states (err e) k =
      Safe-handle a valid answer states e (λ q. k (ap err q))

  Safe-resolve_next :
      (valid : String → Bool) (answer : CatalogAnswer) (empty : a.conditions.Conditions)
      (r : Resolution) (states : RevisionStates a) (rolling : List (RevisionMetadata a))
      → r.bundle ≢ err nil_pointer
      → IsSafe a (HasStates a) (HasBoth a) (resolve_next a valid answer empty r states rolling)
  Safe-resolve_next valid answer empty r states (first ∷ _) k =
      Safe-bind (On a (HasStates a)) (λ _. On a (HasStates a)) (Next a (HasBoth a)) _ _
        (Safe-on_ext a (HasStates a) _) (λ _. setting a first)
  Safe-resolve_next valid answer empty r states [] k =
      Safe-bind (On a (HasStates a)) (λ _. On a (HasStates a)) (Next a (HasBoth a)) _ _
        (Safe-on_state a (HasStates a) (HasStates a) _ (λ st h. h))
        (λ _.
          Safe-bind (On a (HasStates a)) (λ _. On a (HasStates a)) (Next a (HasBoth a)) _ _
            (Safe-on_ext a (HasStates a) _)
            (λ _. Safe-resolved valid answer empty states r.bundle k))

  forget :
      {A : Type 0} {P R : Reconciling a → Type 0} {Q : A → Reconciling a → Type 0} (m : Action a A)
      → ((s : Reconciling a) → P s → R s)
      → Safe R Q m
      → Safe P Q m
  forget m f k = record { at = λ s h. k.at s (f s h) }

  pub Safe-resolve :
      (valid : String → Bool) (answer : CatalogAnswer) (empty : a.conditions.Conditions)
      (r : Resolution)
      → r.bundle ≢ err nil_pointer
      → IsSafe a (HasStates a) (HasBoth a) (resolve_bundle a valid answer empty r)
  unfolding resolve_bundle
  Safe-resolve valid answer empty r k =
      Safe-bind (On a (HasStates a)) (λ st s. HasStates a st × HasStates a s.state)
        (Next a (HasBoth a)) _ _ (Safe-the_state a (HasStates a))
        (λ st.
          Safe-bind (λ s. HasStates a st × HasStates a s.state)
            (λ _ s. HasStates a st × HasStates a s.state) (Next a (HasBoth a)) _ _
            (Safe-dereference (HasStates a st) (HasStates a) st.revision_states (λ h. h))
            (λ states.
              forget _ (λ s h. h.1)
                (Safe-resolve_next valid answer empty r states states.rolling_out k)))

  wrap-ne-nil :
      (b : BundleMetadata) (e : ExtensionError)
      → e ≢ nil_pointer
      → wrap_error_with_resolution_info b e ≢ nil_pointer
  unfolding wrap_error_with_resolution_info
  wrap-ne-nil b (plain t) k h = absurd (plain-ne-nil a _ h)
  wrap-ne-nil b (terminal r t) k h = cc
  wrap-ne-nil b nil_pointer k h = k refl

  abbrev Both : ReconcileState a → Reconciling a → Type 0
  Both st s = HasBoth a st × HasBoth a s.state

  keeping :
      (st : ReconcileState a) (f : ClusterExtension a → ClusterExtension a)
      → Safe (Both st) (λ _. Both st) (on_ext a f)
  unfolding on_ext
  keeping st f = record { at = λ s h. h }

  Safe-unpacked :
      (st : ReconcileState a) (r : RevisionMetadata a) (answer : Result ExtensionError String)
      → answer ≢ err nil_pointer
      → Safe (Both st) (Next a (HasBoth a)) (unpacked a answer st.revision_states r)
  Safe-unpacked st r (ok fs) k =
      forget _ (λ s h. h.1)
        (Safe-bind (On a (HasBoth a)) (λ _. On a (HasBoth a)) (Next a (HasBoth a)) _ _
          (Safe-on_state a (HasBoth a) (HasBoth a) _ (λ st h. h))
          (λ _. Safe-pure (On a (HasBoth a)) (Next a (HasBoth a)) none (λ s h. h)))
  Safe-unpacked st r (err e) k =
      Safe-if _ _ (same_bundle a st.revision_states r) _ _
        (forget _ (λ s h. h.1)
          (Safe-bind (On a (HasBoth a)) (λ _. On a (HasBoth a)) (Next a (HasBoth a)) _ _
            (Safe-on_state a (HasBoth a) (HasBoth a) _ (λ st h. h))
            (λ _. Safe-pure (On a (HasBoth a)) (Next a (HasBoth a)) none (λ s h. h))))
        (Safe-bind (Both st) (λ _. Both st) (Next a (HasBoth a)) _ _ (keeping st _)
          (λ _.
            Safe-bind (Both st) (λ _. Both st) (Next a (HasBoth a)) _ _
              (Safe-dereference (HasBoth a st) (HasBoth a) st.revision_states (λ h. h.0))
              (λ known.
                forget _ (λ s h. h.1)
                  (Safe-fail_after a (HasBoth a) (Next a (HasBoth a)) _ e (λ q. k (ap err q))))))

  Safe-unpack_resolved :
      (pull : String → Result ExtensionError String) (st : ReconcileState a)
      (o : Option (RevisionMetadata a))
      → ((image : String) → pull image ≢ err nil_pointer)
      → Safe (Both st) (Next a (HasBoth a)) (unpack_resolved a pull st.revision_states o)
  Safe-unpack_resolved pull st none k = Safe-raise (Both st) _ _ (plain-ne-nil a _)
  Safe-unpack_resolved pull st (some r) k = Safe-unpacked st r (pull r.image) (k r.image)

  pub Safe-unpack :
      (pull : String → Result ExtensionError String)
      → ((image : String) → pull image ≢ err nil_pointer)
      → IsSafe a (HasBoth a) (HasBoth a) (unpack_bundle a pull)
  unfolding unpack_bundle
  Safe-unpack pull k =
      Safe-bind (On a (HasBoth a)) (λ st. Both st) (Next a (HasBoth a)) _ _
        (Safe-the_state a (HasBoth a)) (λ st. Safe-unpack_resolved pull st st.resolved_revision k)

  Safe-applied :
      (empty : a.conditions.Conditions) (states : RevisionStates a) (r : RevisionMetadata a)
      (answer : Result ExtensionError Unit)
      → answer ≢ err nil_pointer
      → IsSafe a (HasBoth a) (Any a) (boxcutter_applied a empty states r answer)
  Safe-applied empty states r (err e) k =
      Safe-fail_after a (HasBoth a) (Next a (Any a)) _ e (λ q. k (ap err q))
  Safe-applied empty states r (ok _) k =
      Safe-bind (On a (HasBoth a)) (λ _. On a (HasBoth a)) (Next a (Any a)) _ _
        (Safe-on_ext a (HasBoth a) _)
        (λ _. Safe-pure (On a (HasBoth a)) (Next a (Any a)) none (λ s h. tt))

  pub Safe-apply :
      (empty : a.conditions.Conditions)
      (apply : Option String → RevisionMetadata a → Result ExtensionError Unit)
      → ((fs : Option String) (r : RevisionMetadata a) → apply fs r ≢ err nil_pointer)
      → IsSafe a (HasBoth a) (Any a) (apply_bundle_with_boxcutter a empty apply)
  unfolding apply_bundle_with_boxcutter
  Safe-apply empty apply k =
      Safe-bind (On a (HasBoth a)) (λ st. Both st) (Next a (Any a)) _ _
        (Safe-the_state a (HasBoth a))
        (λ st.
          Safe-bind (Both st) (λ _. Both st) (Next a (Any a)) _ _
            (Safe-dereference (HasBoth a st) (HasBoth a) st.resolved_revision (λ h. h.1))
            (λ r.
              Safe-bind (Both st) (λ _. Both st) (Next a (Any a)) _ _
                (Safe-dereference (HasBoth a st) (HasBoth a) st.revision_states (λ h. h.0))
                (λ states.
                  forget _ (λ s h. h.1) (Safe-applied empty states r _ (k st.image_fs r)))))
