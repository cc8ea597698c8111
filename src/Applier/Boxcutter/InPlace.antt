-- ===== src/Applier/Boxcutter/InPlace.antt =====
-- An apply that the server accepts for the current revision.
use operator_controller.Prelude.{
  ◌≡◌, refl, sym, ap, ◌∙◌, List, [], ◌∷◌, some, true, Result, ok, err, inl, inr, ◌⊎◌, In,
  In-append_left, In-append_right, ◌++◌, Result-cases, ok-ne-err, ok_injective,
}
use operator_controller.Exec.{◌>>=◌, pure}
use operator_controller.Exec.Keeps.{Keeps, Keeps-pure, Keeps-bind}
use operator_controller.Applier.Packer.{EncodingApi}
use operator_controller.Applier.Boxcutter.{
  Existing, Desired, Extension, ApplyError, Boxcutter, Calls, BoxCluster, list_existing, BoxCall,
  packing_for_comparison, apply_revision,
}
use operator_controller.Applier.Boxcutter.Revisions.{
  sort_revisions, last_revision, replace_inline_with_refs,
}
use operator_controller.Applier.Boxcutter.Apply.{
  get_existing_revisions, embed, wrap_pack, pack_revision,
}
use operator_controller.Applier.Boxcutter.Retention.{get_existing_revisions-ok}
use operator_controller.Applier.Boxcutter.Rollout.{
  InstallState, unchanged, compare_with, attempt, conclude_apply, apply_content, apply,
}
use operator_controller.Exec.Leads.{Behind, Leads, Leads-Keeps, Leads-bind, Behind-bind}
use operator_controller.Applier.Boxcutter.Permits.{
  AllPermitted, AllPermitted-append, Rule, permitting, Keeps-embed, Keeps-request,
  Keeps-ensure_owners, Keeps-run_preflights,
}

module _ (x : EncodingApi) (R : Type 0) (cl : BoxCluster x.Object R) (bc : Boxcutter) where
  open x use {Object}

  -- what is applied is the revision
  abbrev pub IsOf : Existing → Desired Object R → Type 0
  IsOf current d = (d.name ≡ current.name) × (d.revision ≡ current.revision)

  -- nothing is deleted or created, and only the revision is applied
  abbrev pub StaysInPlace : Existing → Calls Object R → Type 0
  StaysInPlace current = AllPermitted (λ _. ⊥) (λ _. ⊥) (IsOf current)

  abbrev pub HasApplied : Existing → Calls Object R → Type 0
  HasApplied current calls =
      (d : Desired Object R) × In {A = BoxCall Object R} (apply_revision d) calls × IsOf current d

  abbrev Done : Existing → Calls Object R → Type 0
  Done current calls = StaysInPlace current calls × HasApplied current calls

  abbrev staying : Existing → Rule Object R
  staying current = permitting (λ _. ⊥) (λ _. ⊥) (IsOf current)

  abbrev concluding : Existing → Rule Object R
  concluding current = record (staying current) {
    Holds = Done current;
    called = λ cs c k (stays, (d, m, e)).
        (AllPermitted-append _ _ _ cs c k stays, (d, In-append_left (apply_revision d) cs _ m, e));
  }

  compare_with-unchanged :
      (ext : Extension) (desired : Desired Object R) (current : Existing) (s : Calls Object R)
      (state : InstallState) (rev : Desired Object R)
      → ((calls : Calls Object R) → cl.on_apply calls ≡ ok tt)
      → (compare_with x R cl bc ext desired (some current) s).0 ≡ ok (state, rev)
      → state ≡ unchanged
  unfolding compare_with ◌>>=◌ embed attempt pure
  compare_with-unchanged ext desired current s state rev accepts h =
      let named : Desired Object R = record desired {
        revision = current.revision;
        name = current.name;
      } in
      elim (Result-cases (
        wrap_pack x R cl bc packing_for_comparison
          (pack_revision x R cl bc current.name ext named))) [
            | inr (e, q) ↦ absurd (ok-ne-err (state, rev) e (sym (rw q at h)))
            | inl (packed, q) ↦
                let now : Calls Object R =
                  s ++ apply_revision (replace_inline_with_refs named packed.refs) ∷ [] in
                ap (λ (z : InstallState × Desired Object R). z.0)
                  (sym (ok_injective (rw (accepts now) at (rw q at h))))
          ]

  Leads-attempt :
      (current : Existing) (d : Desired Object R)
      → IsOf current d
      → Leads
          (StaysInPlace current)
          (Done current)
          (StaysInPlace current)
          (attempt x R cl bc (apply_revision d) cl.on_apply)
  unfolding attempt
  Leads-attempt current d e = record {
    at = λ s h. (
      AllPermitted-append _ _ _ s (apply_revision d) e h,
      (d, In-append_right (apply_revision d) s _ (inl refl), e),
    );
  }

  Leads-compare_with :
      (ext : Extension) (desired : Desired Object R) (current : Existing)
      → Leads
          (StaysInPlace current)
          (Done current)
          (StaysInPlace current)
          (compare_with x R cl bc ext desired (some current))
  unfolding compare_with replace_inline_with_refs
  Leads-compare_with ext desired current =
      Leads-bind _ _ (Leads-Keeps _ (λ s h. h) (Keeps-embed x R cl bc (staying current) _))
        (λ packed. Leads-bind _ _ (Leads-attempt current _ (refl, refl)) (λ answer.
          Leads-Keeps _ (λ s h. h.0)
            (Keeps-bind _ _ (Keeps-embed x R cl bc (concluding current) _)
              (λ state. Keeps-pure _))))

  Keeps-conclude :
      (ext : Extension) (rev : Desired Object R) (existing : List Existing) (current : Existing)
      → Keeps (Done current) (conclude_apply x R cl bc ext unchanged rev existing)
  unfolding conclude_apply
  Keeps-conclude ext rev existing current =
      Keeps-ensure_owners x R cl bc (concluding current) (last_revision existing)

  Leads-apply_content :
      (ext : Extension) (existing : List Existing) (current : Existing)
      → ((calls : Calls Object R) → cl.on_apply calls ≡ ok tt)
      → last_revision existing ≡ some current
      → Leads
          (StaysInPlace current)
          (Done current)
          (StaysInPlace current)
          (apply_content x R cl bc ext existing)
  unfolding apply_content
  Leads-apply_content ext existing current accepts h =
      let before = staying current in
      Leads-bind _ _ (Leads-Keeps _ (λ s k. k) (Keeps-request x R cl bc before _ _ _ tt))
        (λ generated.
          Leads-bind _ _ (Leads-Keeps _ (λ s k. k) (Keeps-embed x R cl bc before _)) (λ g.
            rw h (record {
              at = λ s k.
                  Behind-bind _ _ s ((Leads-compare_with ext _ current).at s k)
                    (λ (state, desired) e.
                      let same = compare_with-unchanged ext _ current s state desired accepts e in
                      rw same (
                        Leads-Keeps _ (λ t d. d.0)
                          (Keeps-bind _ _
                            (Keeps-run_preflights x R cl bc (concluding current) ext unchanged _
                              bc.preflights)
                            (λ _. Keeps-conclude ext desired existing current))));
            })))

  stays_or_fails :
      {E A : Type 0} (current : Existing) (r : Result E A) (calls : Calls Object R)
      → Behind (Done current) (StaysInPlace current) r calls
      → StaysInPlace current calls × (((e : E) × (r ≡ err e)) ⊎ HasApplied current calls)
  stays_or_fails current (ok a) calls h = (h.0, inr h.1)
  stays_or_fails current (err e) calls h = (h, inl (e, refl))

  -- If the server accepts what Apply generates for the latest of the listed revisions, then Apply
  -- changes that revision in place: it applies no other name or revision number, creates no secret
  -- and deletes no revision; and unless it returns an error, it does apply that revision.
  pub apply_in_place :
      (ext : Extension) (items : List Existing) (current : Existing)
      → cl.on_list (list_existing ext.name ∷ []) ≡ ok items
      → last_revision (sort_revisions items) ≡ some current
      → ((calls : Calls Object R) → cl.on_apply calls ≡ ok tt)
      → let (outcome, calls) = apply x R cl bc true ext [] in
        StaysInPlace current calls
        × (((e : ApplyError) × (outcome ≡ err e)) ⊎ HasApplied current calls)
  unfolding apply
  apply_in_place ext items current h l accepts =
      let listed = get_existing_revisions-ok x R cl bc ext items h in
      stays_or_fails current _ _ (
        Behind-bind {Q = StaysInPlace current} (get_existing_revisions x R cl bc ext.name) _ []
          (rw listed (tt, tt))
          (λ existing e.
            let same : sort_revisions items ≡ existing = ok_injective (
              ap (λ (z : Result ApplyError (List Existing) × Calls Object R). z.0) (sym listed)
              ∙ e) in
            Leads-bind _ _ (Leads-apply_content ext existing current accepts (rw (← same) l))
              (λ _. Leads-Keeps _ (λ s d. d.0) (Keeps-pure true))))
