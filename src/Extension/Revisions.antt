-- ===== src/Extension/Revisions.antt =====
-- `BoxcutterRevisionStatesGetter.GetRevisionStates`: which revision is installed and which roll out.
use operator_controller.Prelude.{
  ℤ, String, ◌≡◌, refl, sym, ap, ◌∙◌, List, [], ◌∷◌, ◌++◌, map, Option, none, some, Bool, true,
  false, Result, ok, err, if◌then◌else◌, ◌==◌, ◌&&◌, not, Bool-cases, inl, inr, Ordering,
}
use operator_controller.Sort.{sort_stable}
use operator_controller.Kube.{is_status_true}
use operator_controller.ObjectSet.{state_archived}
use operator_controller.Applier.Boxcutter.Revisions.{compare_ℤ}
use operator_controller.Extension.{
  cause, ExtensionError, plain, ExtensionApi, RevisionMetadata, RevisionStates,
}

module _ (a : ExtensionApi) where
  open a.conditions use {Conditions, find}

  -- what is read of a `ClusterObjectSet`; the annotations by what they hold
  pub record ListedRevision : Type 0 where
    pub name : String
    pub package_annotation : String
    pub reference_annotation : String
    pub bundle_name_annotation : String
    pub bundle_version_annotation : String
    pub revision : ℤ
    pub lifecycle_state : String
    pub conditions : Conditions

  abbrev pub by_number : ListedRevision → ListedRevision → Ordering
  by_number r s = compare_ℤ r.revision s.revision

  abbrev pub metadata_of : ListedRevision → RevisionMetadata a
  metadata_of r = record {
    revision_name = r.name;
    package_name = r.package_annotation;
    image = r.reference_annotation;
    bundle = record { name = r.bundle_name_annotation; version = r.bundle_version_annotation };
    conditions = r.conditions;
  }

  abbrev pub is_archived : ListedRevision → Bool
  is_archived r = r.lifecycle_state == state_archived

  abbrev pub has_succeeded : ListedRevision → Bool
  has_succeeded r = is_status_true (find r.conditions "Succeeded")

  abbrev pub add_revision : ListedRevision → RevisionStates a → RevisionStates a
  add_revision r states =
      if has_succeeded r
      then record states { installed = some (metadata_of r) }
      else record states { rolling_out = states.rolling_out ++ metadata_of r ∷ [] }

  unfoldable pub states_loop : List ListedRevision → RevisionStates a → RevisionStates a
  states_loop [] states = states
  states_loop (r ∷ rs) states =
      states_loop rs (if is_archived r then states else add_revision r states)

  abbrev pub no_states : RevisionStates a
  no_states = record { installed = none; rolling_out = [] }

  unfoldable pub revision_states_of :
      Result String (List ListedRevision) → Result ExtensionError (RevisionStates a)
  revision_states_of (err e) = err (plain (cause e))
  revision_states_of (ok items) = ok (states_loop (sort_stable by_number items) no_states)

  -- The revisions that are not archived and have succeeded, or have not.
  abbrev pub with_success : Bool → List ListedRevision → List ListedRevision
  with_success true [] = []
  with_success false [] = []
  with_success true (r ∷ rs) =
      if not (is_archived r) && has_succeeded r
      then r ∷ with_success true rs
      else with_success true rs
  with_success false (r ∷ rs) =
      if not (is_archived r) && not (has_succeeded r)
      then r ∷ with_success false rs
      else with_success false rs

  -- the last of a list, or else the given value
  abbrev pub last_or :
      Option (RevisionMetadata a) → List ListedRevision → Option (RevisionMetadata a)
  last_or o [] = o
  last_or o (r ∷ rs) = last_or (some (metadata_of r)) rs

  append_assoc : {A : Type 0} (xs ys zs : List A) → (xs ++ ys) ++ zs ≡ xs ++ (ys ++ zs)
  append_assoc [] ys zs = refl
  append_assoc (w ∷ xs) ys zs = ap (λ more. w ∷ more) (append_assoc xs ys zs)

  append_nil : {A : Type 0} (xs : List A) → xs ++ [] ≡ xs
  append_nil [] = refl
  append_nil (w ∷ xs) = ap (λ more. w ∷ more) (append_nil xs)

  loop-states :
      (rs : List ListedRevision) (o : Option (RevisionMetadata a)) (out : List (RevisionMetadata a))
      → states_loop rs (record { installed = o; rolling_out = out }) ≡ record {
        installed = last_or o (with_success true rs);
        rolling_out = out ++ map metadata_of (with_success false rs);
      }
  unfolding states_loop
  loop-states [] o out = λ i. record { installed = o; rolling_out = sym (append_nil out) i }
  loop-states (r ∷ rs) o out = elim (Bool-cases (is_archived r)) [
    | inl e ↦ rw e (loop-states rs o out)
    | inr e ↦ elim (Bool-cases (has_succeeded r)) [
      | inl s ↦ rw e (rw s (loop-states rs (some (metadata_of r)) out))
      | inr s ↦ rw e (
          rw s (
            loop-states rs o (out ++ metadata_of r ∷ []) ∙ (λ i. record {
              installed = last_or o (with_success true rs);
              rolling_out =
                  append_assoc out (metadata_of r ∷ []) (map metadata_of (with_success false rs)) i;
            })))
    ]
  ]

  -- Of the revisions that are not archived, in the order of their numbers: the last that has
  -- succeeded is the installed one, and those that have not are rolling out, in that order.
  pub revision_states_of-eq-ok :
      (items : List ListedRevision)
      → revision_states_of (ok items)
        ≡ ok (record {
          installed = last_or none (with_success true (sort_stable by_number items));
          rolling_out = map metadata_of (with_success false (sort_stable by_number items));
        })
  unfolding revision_states_of
  revision_states_of-eq-ok items = ap ok (loop-states (sort_stable by_number items) none [])
