-- ===== src/Extension/Panics.antt =====
-- The steps never dereference a nil pointer: each leaves what the next ones read.
use operator_controller.Prelude.{
  String, List, [], ◌∷◌, ◌≡◌, ◌≢◌, refl, ap, Option, none, some, Bool, true, false, Result, ok, err,
  if◌then◌else◌, ◌&&◌, ◌==◌, not, ◌||◌,
}
use operator_controller.Exec.{Exec, ◌>>=◌, pure, raise, bind_with}
use operator_controller.Extension.{
  ErrorText, ExtensionError, plain, nil_pointer, MessageText, ExtensionApi, RevisionMetadata,
  RevisionStates, ClusterExtension, ReconcileState, Reconciling, Ending, ReconcileStep, on_ext,
  on_state, the_ext, the_state,
}
use operator_controller.Extension.Steps.{
  FinalizeResult, CatalogAnswer, fail_after, handle_finalizers, validate_cluster_extension,
  migrate_storage, retrieve_revision_states, handle_resolution_error, handle_installed, decide,
  keep_failing, deletion, validated, collect_errors, spec_version, check_catalogs_exist,
}

-- behind an action: `Q` of a value and the state, or an error that is no panic
abbrev pub IsFine : {S A : Type 0} → (A → S → Type 0) → Result ExtensionError A → S → Type 0
IsFine Q (ok v) s = Q v s
IsFine Q (err e) s = e ≢ nil_pointer

pub record Safe {S A : Type 0} (P : S → Type 0) (Q : A → S → Type 0) (m : Exec S ExtensionError A)
    : Type 0 where
  pub at : (s : S) → P s → IsFine Q (m s).0 (m s).1

module _ {S : Type 0} where
  pub Safe-pure :
      {A : Type 0} (P : S → Type 0) (Q : A → S → Type 0) (v : A)
      → ((s : S) → P s → Q v s)
      → Safe P Q (pure v)
  unfolding pure
  Safe-pure P Q v f = record { at = f }

  pub Safe-raise :
      {A : Type 0} (P : S → Type 0) (Q : A → S → Type 0) (e : ExtensionError)
      → e ≢ nil_pointer
      → Safe P Q (raise e)
  unfolding raise
  Safe-raise P Q e f = record { at = λ s h. f }

  bound :
      {A B : Type 0} (M : A → S → Type 0) (Q : B → S → Type 0) (r : Result ExtensionError A) (s : S)
      (f : A → Exec S ExtensionError B)
      → IsFine M r s
      → ((v : A) → Safe (M v) Q (f v))
      → IsFine Q (bind_with r s f).0 (bind_with r s f).1
  bound M Q (ok v) s f h k = (k v).at s h
  bound M Q (err e) s f h k = h

  pub Safe-bind :
      {A B : Type 0} (P : S → Type 0) (M : A → S → Type 0) (Q : B → S → Type 0)
      (m : Exec S ExtensionError A) (f : A → Exec S ExtensionError B)
      → Safe P M m
      → ((v : A) → Safe (M v) Q (f v))
      → Safe P Q (m >>= f)
  unfolding ◌>>=◌
  Safe-bind P M Q m f km kf = record { at = λ s h. bound M Q (m s).0 (m s).1 f (km.at s h) kf }

  pub Safe-if :
      {A : Type 0} (P : S → Type 0) (Q : A → S → Type 0) (b : Bool) (m n : Exec S ExtensionError A)
      → Safe P Q m
      → Safe P Q n
      → Safe P Q (if b then m else n)
  Safe-if P Q true m n h k = h
  Safe-if P Q false m n h k = k

module _ (a : ExtensionApi) where
  -- on the fields that the steps share
  abbrev pub Has : Type 1
  Has = ReconcileState a → Type 0

  abbrev pub On : Has → Reconciling a → Type 0
  On P s = P s.state

  -- what a step leaves for the next, unless it ends the reconciliation
  abbrev pub Next : Has → Ending → Reconciling a → Type 0
  Next P none s = P s.state
  Next P (some _) s = Unit

  pub Safe-on_ext :
      (P : Has) (f : ClusterExtension a → ClusterExtension a) → Safe (On P) (λ _. On P) (on_ext a f)
  unfolding on_ext
  Safe-on_ext P f = record { at = λ s h. h }

  pub Safe-on_state :
      (P Q : Has) (f : ReconcileState a → ReconcileState a)
      → ((st : ReconcileState a) → P st → Q (f st))
      → Safe (On P) (λ _. On Q) (on_state a f)
  unfolding on_state
  Safe-on_state P Q f k = record { at = λ s h. k s.state h }

  pub Safe-fail_after :
      {A : Type 0} (P : Has) (Q : A → Reconciling a → Type 0)
      (f : ClusterExtension a → ClusterExtension a) (e : ExtensionError)
      → e ≢ nil_pointer
      → Safe (On P) Q (fail_after a f e)
  Safe-fail_after P Q f e k =
      Safe-bind (On P) (λ _. On P) Q (on_ext a f) (λ _. raise e) (Safe-on_ext P f)
        (λ _. Safe-raise (On P) Q e k)

  pub plain-ne-nil : (t : ErrorText) → plain t ≢ nil_pointer
  plain-ne-nil t h = cc

  abbrev pub Any : Has
  Any st = Unit

  abbrev pub HasStates : Has
  HasStates st = (states : RevisionStates a) × (st.revision_states ≡ some states)

  abbrev pub HasBoth : Has
  HasBoth st = HasStates st × ((r : RevisionMetadata a) × (st.resolved_revision ≡ some r))

  abbrev pub IsSafe : Has → Has → ReconcileStep a → Type 0
  IsSafe P Q step = Safe (On P) (Next Q) step

  Safe-keep_failing :
      (P Q : Has) (states : RevisionStates a) (e : ExtensionError) (m : MessageText)
      → e ≢ nil_pointer
      → IsSafe P Q (keep_failing a states e m)
  Safe-keep_failing P Q states e m k = Safe-fail_after P (Next Q) _ e k

  pub Safe-the_ext : (P : Has) → Safe (On P) (λ _. On P) (the_ext a)
  unfolding the_ext
  Safe-the_ext P = record { at = λ s h. h }

  pub Safe-the_state : (P : Has) → Safe (On P) (λ st s. P st × P s.state) (the_state a)
  unfolding the_state
  Safe-the_state P = record { at = λ s h. (h, h) }

  going_on : (r : Ending) (s : Reconciling a) → Next Any r s
  going_on none s = tt
  going_on (some _) s = tt

  pub Safe-finalizers :
      (answer : Result ExtensionError FinalizeResult)
      → answer ≢ err nil_pointer
      → IsSafe Any Any (handle_finalizers a answer)
  unfolding handle_finalizers
  Safe-finalizers (err e) k = Safe-fail_after Any (Next Any) _ e (λ q. k (ap err q))
  Safe-finalizers (ok r) k =
      Safe-if _ _ (r.updated || r.status_updated) _ _
        (Safe-pure (On Any) (Next Any) (some tt) (λ _ _. tt))
        (Safe-bind (On Any) (λ _. On Any) (Next Any) (the_ext a) _ (Safe-the_ext Any)
          (λ ext. Safe-pure (On Any) (Next Any) _ (λ s h. going_on (deletion a ext.deleting) s)))

  validated_cases : (errors : List String) → IsSafe Any Any (validated a errors)
  validated_cases [] = Safe-pure (On Any) (Next Any) none (λ _ _. tt)
  validated_cases (e ∷ es) = Safe-fail_after Any (Next Any) _ _ (plain-ne-nil _)

  pub Safe-validate :
      (validators : List (Option String)) → IsSafe Any Any (validate_cluster_extension a validators)
  unfolding validate_cluster_extension
  Safe-validate validators = validated_cases (collect_errors a validators)

  pub Safe-migrate : (answer : Result ErrorText Unit) → IsSafe Any Any (migrate_storage a answer)
  unfolding migrate_storage
  Safe-migrate (ok _) = Safe-pure (On Any) (Next Any) none (λ _ _. tt)
  Safe-migrate (err t) = Safe-raise (On Any) (Next Any) _ (plain-ne-nil _)

  pub Safe-retrieve :
      (answer : Result ExtensionError (RevisionStates a))
      → answer ≢ err nil_pointer
      → IsSafe Any HasStates (retrieve_revision_states a answer)
  unfolding retrieve_revision_states
  Safe-retrieve (err e) k = Safe-fail_after Any (Next HasStates) _ e (λ q. k (ap err q))
  Safe-retrieve (ok states) k =
      Safe-bind (On Any) (λ _. On HasStates) (Next HasStates) _ _
        (Safe-on_state Any HasStates _ (λ st h. (states, refl)))
        (λ _. Safe-pure (On HasStates) (Next HasStates) none (λ s h. h))

  -- the resolved revision is set
  pub setting :
      (r : RevisionMetadata a)
      → IsSafe HasStates HasBoth
          (on_state a (λ st. record st { resolved_revision = some r }) >>= λ _. pure none)
  setting r =
      Safe-bind (On HasStates) (λ _. On HasBoth) (Next HasBoth) _ _
        (Safe-on_state HasStates HasBoth _ (λ st h. (h, (r, refl))))
        (λ _. Safe-pure (On HasBoth) (Next HasBoth) none (λ s h. h))

  Safe-decide :
      (catalogs : Result String Bool) (states : RevisionStates a) (installed : RevisionMetadata a)
      (e : ExtensionError)
      → e ≢ nil_pointer
      → IsSafe HasStates HasBoth (decide a catalogs states installed e)
  Safe-decide (err f) states installed e k = Safe-keep_failing HasStates HasBoth states e _ k
  Safe-decide (ok true) states installed e k = Safe-keep_failing HasStates HasBoth states e _ k
  Safe-decide (ok false) states installed e k =
      Safe-bind (On HasStates) (λ _. On HasStates) (Next HasBoth) _ _ (Safe-on_ext HasStates _)
        (λ _. setting installed)

  Safe-installed :
      (catalogs : Result String Bool) (states : RevisionStates a)
      (installed : Option (RevisionMetadata a)) (version : String) (e : ExtensionError)
      → e ≢ nil_pointer
      → IsSafe HasStates HasBoth (handle_installed a catalogs states installed version e)
  Safe-installed catalogs states none version e k = Safe-keep_failing HasStates HasBoth states e _ k
  Safe-installed catalogs states (some r) version e k =
      Safe-if _ _ (not (version == "") && not (version == r.bundle.version)) _ _
        (Safe-keep_failing HasStates HasBoth states e _ k) (Safe-decide catalogs states r e k)

  pub Safe-handle :
      (valid : String → Bool) (answer : CatalogAnswer) (states : RevisionStates a)
      (e : ExtensionError)
      → e ≢ nil_pointer
      → IsSafe HasStates HasBoth (handle_resolution_error a valid answer states e)
  unfolding handle_resolution_error
  Safe-handle valid answer states e k =
      Safe-bind (On HasStates) (λ _. On HasStates) (Next HasBoth) (the_ext a) _
        (Safe-the_ext HasStates)
        (λ ext.
          Safe-installed (check_catalogs_exist a valid answer ext) states states.installed
            (spec_version a ext.catalog) e k)
