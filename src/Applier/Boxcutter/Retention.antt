-- ===== src/Applier/Boxcutter/Retention.antt =====
-- Which revisions Apply deletes.
use operator_controller.Prelude.{
  ℕ, suc, ◌<◌, ◌≤◌, ◌≡◌, refl, sym, ap, ◌∙◌, String, List, [], ◌∷◌, ◌++◌, Bool, true, Result, ok,
  ◌&&◌, ◌==◌, eq_iff, length, ltb, inl, inr, Bool-cases, arith, ok_injective,
}
use operator_controller.Order.{IsPreorder, on-IsPreorder}
use operator_controller.Sort.{IsSorted, Below, sort_stable-IsSorted}
use operator_controller.Exec.{◌>>=◌, pure, or_fail}
use operator_controller.Exec.Keeps.{Keeps-pure, Keeps-raise, Keeps-if, Keeps-bind, Keeps-bind_at}
use operator_controller.ObjectSet.{state_archived}
use operator_controller.Applier.Packer.{EncodingApi}
use operator_controller.Applier.Boxcutter.{
  Existing, Desired, Extension, Boxcutter, BoxCluster, Calls, ApplyError, BoxStep, list_existing,
  retention_limit, ask,
}
use operator_controller.Applier.Boxcutter.Revisions.{
  compare_ℤ, by_revision, sort_revisions, last_revision,
}
use operator_controller.Applier.Boxcutter.Apply.{
  collect_loop, garbage_collect_old_revisions, create_externalized_revision, get_existing_revisions,
}
use operator_controller.Applier.Boxcutter.Rollout.{
  InstallState, needs_install, needs_upgrade, unchanged, conclude_apply, apply_content, apply,
  maintain,
}
use operator_controller.Applier.Boxcutter.Permits.{
  IsPermitted, Rule, permitting, KeepsPermitted, Keeps-embed, Keeps-request,
  Keeps-run_pre_authorization_checks, Keeps-create_packed, Keeps-ensure_owners, Keeps-compare_with,
  Keeps-run_preflights,
}

compare_ℤ-IsPreorder : IsPreorder compare_ℤ
compare_ℤ-IsPreorder = record { flip = λ a b. ground arith; trans = λ a b c h k. ground arith }

pub by_revision-IsPreorder : IsPreorder by_revision
by_revision-IsPreorder = on-IsPreorder compare_ℤ (λ (r : Existing). r.revision) compare_ℤ-IsPreorder

-- An archived revision with at least five revisions behind it, none of which is older.
pub record IsExpired (revisions : List Existing) (name : String) : Type 0 where
  pub revision : Existing
  pub older : List Existing
  pub newer : List Existing
  pub listed : revisions ≡ older ++ revision ∷ newer
  pub named : name ≡ revision.name
  pub archived : revision.lifecycle_state ≡ state_archived
  pub retained : retention_limit ≤ length newer
  pub before : Below by_revision revision newer

pub sort_revisions-IsSorted : (items : List Existing) → IsSorted by_revision (sort_revisions items)
unfolding sort_revisions
sort_revisions-IsSorted items = sort_stable-IsSorted by_revision by_revision-IsPreorder items

expired :
    (n : ℕ) (b : Bool) → (ltb retention_limit n && b) ≡ true → (retention_limit < n) × (b ≡ true)
expired n b h = ground arith

at_least : (n : ℕ) → retention_limit < suc n → retention_limit ≤ n
at_least n h = omega arith

append_one :
    (older : List Existing) (r : Existing) (rs : List Existing)
    → older ++ r ∷ rs ≡ (older ++ r ∷ []) ++ rs
append_one [] r rs = refl
append_one (o ∷ older) r rs = ap (λ more. o ∷ more) (append_one older r rs)

module _ (x : EncodingApi) (R : Type 0) (cl : BoxCluster x.Object R) (bc : Boxcutter)
    (revisions : List Existing) where
  open x use {Object}

  abbrev expiring : Rule Object R
  expiring = permitting (IsExpired revisions) (λ _. Unit) (λ _. Unit)

  abbrev Kept : {E A : Type 0} → BoxStep Object R E A → Type 0
  Kept m = KeepsPermitted x R cl bc expiring m

  Keeps-collect_loop :
      (older rs : List Existing)
      → revisions ≡ older ++ rs
      → IsSorted by_revision rs
      → Kept (collect_loop x R cl bc rs)
  unfolding collect_loop
  Keeps-collect_loop older [] e h = Keeps-pure tt
  Keeps-collect_loop older (r ∷ rs) e h =
      let rest = Keeps-collect_loop (older ++ r ∷ []) rs (e ∙ append_one older r rs) h.1 in
      elim (Bool-cases
        (ltb retention_limit (suc (length rs)) && (r.lifecycle_state == state_archived))) [
          | inr t ↦ rw t rest
          | inl t ↦ rw t (
              Keeps-bind _ _
                (Keeps-request x R cl bc expiring _ _ _ record {
                  revision = r;
                  older = older;
                  newer = rs;
                  listed = e;
                  named = refl;
                  archived =
                      (eq_iff r.lifecycle_state state_archived).0
                        (expired (suc (length rs)) (r.lifecycle_state == state_archived) t).1;
                  retained =
                      at_least (length rs)
                        (expired (suc (length rs)) (r.lifecycle_state == state_archived) t).0;
                  before = h.0;
                })
                (λ _. rest))
        ]

  Keeps-create_externalized_revision :
      (ext : Extension) (rev : Desired Object R)
      → IsSorted by_revision revisions
      → Kept (create_externalized_revision x R cl bc ext rev revisions)
  unfolding create_externalized_revision garbage_collect_old_revisions
  Keeps-create_externalized_revision ext rev h =
      Keeps-bind _ _ (Keeps-collect_loop [] revisions refl h) (λ _.
        Keeps-bind _ _ (Keeps-run_pre_authorization_checks x R cl bc expiring _) (λ _.
          Keeps-bind _ _ (Keeps-embed x R cl bc expiring _)
            (λ packed. Keeps-create_packed x R cl bc expiring _ packed (λ _ _. tt) (λ _. tt))))

  Keeps-conclude_apply :
      (ext : Extension) (state : InstallState) (rev : Desired Object R)
      → IsSorted by_revision revisions
      → Kept (conclude_apply x R cl bc ext state rev revisions)
  unfolding conclude_apply
  Keeps-conclude_apply ext needs_install rev h = Keeps-create_externalized_revision ext rev h
  Keeps-conclude_apply ext needs_upgrade rev h = Keeps-create_externalized_revision ext rev h
  Keeps-conclude_apply ext unchanged rev h =
      Keeps-ensure_owners x R cl bc expiring (last_revision revisions)

  Keeps-apply_content :
      (ext : Extension)
      → IsSorted by_revision revisions
      → Kept (apply_content x R cl bc ext revisions)
  unfolding apply_content
  Keeps-apply_content ext h =
      Keeps-bind _ _ (Keeps-request x R cl bc expiring _ _ _ tt) (λ generated.
        Keeps-bind _ _ (Keeps-embed x R cl bc expiring _) (λ g.
          Keeps-bind _ _ (Keeps-compare_with x R cl bc expiring ext _ _ (λ _. tt))
            (λ (state, desired).
              Keeps-bind _ _ (Keeps-run_preflights x R cl bc expiring ext state _ bc.preflights)
                (λ _. Keeps-conclude_apply ext state desired h))))

  Keeps-maintain : (existing : List Existing) → Kept (maintain x R cl bc existing)
  Keeps-maintain [] = Keeps-raise _
  Keeps-maintain (_ ∷ _) = Keeps-pure tt

module _ (x : EncodingApi) (R : Type 0) (cl : BoxCluster x.Object R) (bc : Boxcutter) where
  pub get_existing_revisions-ok :
      (ext : Extension) (items : List Existing)
      → cl.on_list (list_existing ext.name ∷ []) ≡ ok items
      → get_existing_revisions x R cl bc ext.name []
        ≡ (ok (sort_revisions items), list_existing ext.name ∷ [])
  unfolding get_existing_revisions ask ◌>>=◌ or_fail pure
  get_existing_revisions-ok ext items h = rw h refl

  -- Apply deletes only revisions that are archived and have at least five of the listed revisions
  -- behind them, none of which is older.
  pub apply-IsPermitted :
      (has_content : Bool) (ext : Extension) (items : List Existing)
      → cl.on_list (list_existing ext.name ∷ []) ≡ ok items
      → IsPermitted
          (IsExpired (sort_revisions items))
          (λ _. Unit)
          (apply x R cl bc has_content ext []).1
  unfolding apply
  apply-IsPermitted has_content ext items h =
      let listed = get_existing_revisions-ok ext items h in
      let sorted : IsSorted by_revision (sort_revisions items) = sort_revisions-IsSorted items in
      (Keeps-bind_at {P = IsPermitted (IsExpired (sort_revisions items)) (λ _. Unit)}
        (get_existing_revisions x R cl bc ext.name) _ [] (rw listed (tt, tt))
        (λ existing e.
          let same : sort_revisions items ≡ existing = ok_injective (
            ap (λ (z : Result ApplyError (List Existing) × Calls x.Object R). z.0) (sym listed)
            ∙ e) in
          rw (← same) (
            Keeps-bind _ _
              (Keeps-if has_content _ _
                (Keeps-apply_content x R cl bc (sort_revisions items) ext sorted)
                (Keeps-maintain x R cl bc (sort_revisions items) (sort_revisions items)))
              (λ _. Keeps-pure true))))
