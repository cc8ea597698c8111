-- ===== src/Extension/Rollout.antt =====
-- UnpackBundle, ApplyBundle, ApplyBundleWithBoxcutter, and the steps as a whole.
use operator_controller.Prelude.{
  ℕ, String, List, [], ◌∷◌, ◌++◌, Option, none, some, Bool, true, false, Result, ok, err,
  if◌then◌else◌, ◌==◌, ◌&&◌, length, nat_eq,
}
use operator_controller.Kube.{Condition}
use operator_controller.Exec.{◌>>=◌, ◌>>◌, pure, raise}
use operator_controller.Extension.{
  ErrorText, no_bundle_information, ExtensionError, plain, terminal, nil_pointer, ExtensionApi,
  RevisionMetadata, RevisionStates, ClusterExtension, Reconciling, Action, Ending, ReconcileStep,
  on_ext, on_state, the_state, empty_state,
}
use operator_controller.Extension.Conditions.{
  type_progressing, wrap_error_with_resolution_info, set_installed_status_from_revision_states,
  set_status_progressing,
}
use operator_controller.Extension.Steps.{
  FinalizeResult, CatalogAnswer, Resolution, dereference, fail_after, handle_finalizers,
  validate_cluster_extension, migrate_storage, retrieve_revision_states, resolve_bundle,
}

module _ (a : ExtensionApi) where
  open a.conditions use {Conditions, find, set}

  abbrev pub same_bundle : Option (RevisionStates a) → RevisionMetadata a → Bool
  same_bundle none r = false
  same_bundle (some states) r = elim states.installed [
    | none ↦ false
    | some i ↦ (r.bundle.name == i.bundle.name) && (r.bundle.version == i.bundle.version)
  ]

  abbrev pub unpacked :
      Result ExtensionError String
      → Option (RevisionStates a)
      → RevisionMetadata a
      → ReconcileStep a
  unpacked (ok fs) states r = do on_state a (λ st. record st { image_fs = some fs }); pure none
  unpacked (err e) states r =
      if same_bundle states r
      then (do on_state a (λ st. record st { image_fs = none }); pure none)
      else (do
        on_ext a (set_status_progressing a (some (wrap_error_with_resolution_info r.bundle e)))
        known ← dereference a states
        fail_after a (set_installed_status_from_revision_states a known) e)

  abbrev pub unpack_resolved :
      (String → Result ExtensionError String)
      → Option (RevisionStates a)
      → Option (RevisionMetadata a)
      → ReconcileStep a
  unpack_resolved pull states none = raise (plain no_bundle_information)
  unpack_resolved pull states (some r) = unpacked (pull r.image) states r

  unfoldable pub unpack_bundle : (String → Result ExtensionError String) → ReconcileStep a
  unpack_bundle pull = do
    st ← the_state a
    unpack_resolved pull st.revision_states st.resolved_revision

  abbrev pub observed : ℕ → Condition (List ℕ) → Condition (List ℕ)
  observed generation c = record c { observed_generation = generation }

  abbrev pub copy_found : ℕ → Option (Condition (List ℕ)) → Conditions → Conditions
  copy_found generation none cs = cs
  copy_found generation (some c) cs = (set cs (observed generation c)).0

  -- the conditions Available and Progressing of a revision, with the generation of the extension
  unfoldable pub mirror_conditions : ℕ → Conditions → Conditions → Conditions
  mirror_conditions generation from to =
      copy_found generation (find from type_progressing)
        (copy_found generation (find from "Available") to)

  abbrev pub mirror_installed :
      Conditions → Option (RevisionMetadata a) → ClusterExtension a → ClusterExtension a
  mirror_installed empty none ext = record ext { active_revisions = [] }
  mirror_installed empty (some i) ext = record ext {
    conditions = mirror_conditions ext.generation i.conditions ext.conditions;
    install = some i.bundle;
    active_revisions = record { name = i.revision_name; conditions = empty } ∷ [];
  }

  -- the loop over the revisions that roll out; the last one's Progressing is the extension's
  unfoldable pub mirror_rolling :
      Conditions → List (RevisionMetadata a) → ClusterExtension a → ClusterExtension a
  mirror_rolling empty [] ext = ext
  mirror_rolling empty (r ∷ rs) ext = mirror_rolling empty rs (record ext {
    conditions =
        if nat_eq (length rs) 0
        then copy_found ext.generation (find r.conditions type_progressing) ext.conditions
        else ext.conditions;
    active_revisions =
        ext.active_revisions
        ++ record {
          name = r.revision_name;
          conditions = mirror_conditions ext.generation r.conditions empty;
        }
          ∷ [];
  })

  abbrev pub is_terminal : ExtensionError → Bool
  is_terminal (plain _) = false
  is_terminal (terminal _ _) = true
  is_terminal nil_pointer = false

  abbrev pub boxcutter_applied :
      Conditions
      → RevisionStates a
      → RevisionMetadata a
      → Result ExtensionError Unit
      → ReconcileStep a
  boxcutter_applied empty states r (err e) =
      fail_after a
        (λ ext.
          let told =
            set_status_progressing a (some (wrap_error_with_resolution_info r.bundle e)) ext in
          if is_terminal e then told else set_installed_status_from_revision_states a states told)
        e
  boxcutter_applied empty states r (ok _) = do
    on_ext a (λ ext.
        set_installed_status_from_revision_states a states
          (mirror_rolling empty states.rolling_out (mirror_installed empty states.installed ext)))
    pure none

  -- `ApplyBundleWithBoxcutter`
  unfoldable pub apply_bundle_with_boxcutter :
      Conditions
      → (Option String → RevisionMetadata a → Result ExtensionError Unit)
      → ReconcileStep a
  apply_bundle_with_boxcutter empty apply = do
    st ← the_state a
    r ← dereference a st.resolved_revision
    states ← dereference a st.revision_states
    boxcutter_applied empty states r (apply st.image_fs r)

  -- `ReconcileSteps.Reconcile`
  abbrev pub continue : Action a Unit → Ending → Action a Unit
  continue rest none = rest
  continue rest (some _) = pure tt

  unfoldable pub steps_loop : List (ReconcileStep a) → Action a Unit
  steps_loop [] = pure tt
  steps_loop (step ∷ steps) = let rest = steps_loop steps in step >>= λ result. continue rest result

  -- what the steps are given, and its answers
  pub record Collaborators : Type 0 where
    pub finalize : Result ExtensionError FinalizeResult
    pub validators : List (Option String)
    pub migrate : Result ErrorText Unit
    pub get_revision_states : Result ExtensionError (RevisionStates a)
    pub valid_selector : String → Bool
    pub list_catalogs : CatalogAnswer
    pub resolve : Resolution
    pub pull : String → Result ExtensionError String
    pub apply : Option String → RevisionMetadata a → Result ExtensionError Unit
    -- no conditions
    pub empty : Conditions

  -- the steps with the boxcutter runtime
  unfoldable pub boxcutter_steps : Collaborators → List (ReconcileStep a)
  boxcutter_steps c =
      handle_finalizers a c.finalize
      ∷ validate_cluster_extension a c.validators
      ∷ migrate_storage a c.migrate
      ∷ retrieve_revision_states a c.get_revision_states
      ∷ resolve_bundle a c.valid_selector c.list_catalogs c.empty c.resolve
      ∷ unpack_bundle c.pull
      ∷ apply_bundle_with_boxcutter c.empty c.apply
      ∷ []

  unfoldable pub reconcile_extension :
      Collaborators → ClusterExtension a → Result ExtensionError Unit × Reconciling a
  reconcile_extension c ext =
      steps_loop (boxcutter_steps c) (record { ext = ext; state = empty_state a })
