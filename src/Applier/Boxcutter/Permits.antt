-- ===== src/Applier/Boxcutter/Permits.antt =====
-- Which revisions an action of the applier may delete or apply, and which secrets it may create:
-- what its parts keep.
use operator_controller.Prelude.{
  String, List, [], ◌∷◌, ◌++◌, Option, none, some, Result, not, ◌==◌, contains, In, inl, inr, refl,
}
use operator_controller.Exec.Keeps.{Keeps, Keeps-pure, Keeps-if, Keeps-bind, Keeps-or_fail}
use operator_controller.Applier.Packer.{EncodingApi, Secret, PackResult}
use operator_controller.Applier.Boxcutter.{
  Existing, Desired, Extension, OwnedSecret, ApplyError, ApiError, BoxCall, delete_revision,
  create_secret, apply_revision, PreflightCheck, Boxcutter, Calls, BoxStep, BoxCluster, ask,
}
use operator_controller.Applier.Boxcutter.Apply.{
  embed, request, run_pre_authorization_checks, create_secrets, patch_owner_refs_on_secrets,
  patch_secret_owner_references, ensure_secret_owner_references, create_packed,
}
use operator_controller.Applier.Boxcutter.Rollout.{
  InstallState, needs_install, needs_upgrade, unchanged, compare_with, attempt, run_preflight,
  run_preflights, ensure_owners, should_skip_preflight,
}

module _ {O R : Type 0} where
  module _ (Delete : String → Type 0) (Create : Secret → Type 0)
      (Apply : Desired O R → Type 0) where
    abbrev pub Permits : BoxCall O R → Type 0
    Permits (delete_revision name) = Delete name
    Permits (create_secret s) = Create s
    Permits (apply_revision d) = Apply d
    Permits _ = Unit

    abbrev pub AllPermitted : Calls O R → Type 0
    AllPermitted [] = Unit
    AllPermitted (c ∷ cs) = Permits c × AllPermitted cs

    pub AllPermitted-append :
        (cs : Calls O R) (c : BoxCall O R)
        → Permits c
        → AllPermitted cs
        → AllPermitted (cs ++ c ∷ [])
    AllPermitted-append [] c k h = (k, tt)
    AllPermitted-append (d ∷ cs) c k h = (h.0, AllPermitted-append cs c k h.1)

  -- any revision may be applied
  abbrev pub IsPermitted : (String → Type 0) → (Secret → Type 0) → Calls O R → Type 0
  IsPermitted Delete Create = AllPermitted Delete Create (λ _. Unit)

-- A predicate on the calls that every permitted call keeps.
pub record Rule (O R : Type 0) : Type 1 where
  pub Delete : String → Type 0
  pub Create : Secret → Type 0
  pub Apply : Desired O R → Type 0
  pub Holds : Calls O R → Type 0
  pub called :
      (cs : Calls O R) (c : BoxCall O R)
      → Permits Delete Create Apply c
      → Holds cs
      → Holds (cs ++ c ∷ [])

module _ {O R : Type 0} where
  abbrev pub permitting : (String → Type 0) → (Secret → Type 0) → (Desired O R → Type 0) → Rule O R
  permitting Delete Create Apply = record {
    Delete = Delete;
    Create = Create;
    Apply = Apply;
    Holds = AllPermitted Delete Create Apply;
    called = AllPermitted-append Delete Create Apply;
  }

  abbrev pub PermitsBy : Rule O R → BoxCall O R → Type 0
  PermitsBy u = Permits u.Delete u.Create u.Apply

  Keeps-ask :
      {E A : Type 0} (u : Rule O R) (c : BoxCall O R) (answer : Calls O R → Result E A)
      → PermitsBy u c
      → Keeps u.Holds (ask O R c answer)
  unfolding ask
  Keeps-ask u c answer k = record { at = λ s h. u.called s c k h }

module _ (x : EncodingApi) (R : Type 0) (cl : BoxCluster x.Object R) (bc : Boxcutter)
    (u : Rule x.Object R) where
  open x use {Object}

  abbrev pub KeepsPermitted : {E A : Type 0} → BoxStep Object R E A → Type 0
  KeepsPermitted m = Keeps u.Holds m

  pub Keeps-embed : {A : Type 0} (r : Result ApplyError A) → KeepsPermitted (embed x R cl bc r)
  unfolding embed
  Keeps-embed r = record { at = λ _ h. h }

  pub Keeps-request :
      {E A : Type 0} (c : BoxCall Object R) (answer : Calls Object R → Result E A)
      (wrap : E → ApplyError)
      → PermitsBy u c
      → KeepsPermitted (request x R cl bc c answer wrap)
  Keeps-request c answer wrap k =
      Keeps-or_fail (ask Object R c answer) (λ e s. s) wrap (Keeps-ask u c answer k) (λ _ _ h. h)

  pub Keeps-run_pre_authorization_checks :
      (rev : Desired Object R) → KeepsPermitted (run_pre_authorization_checks x R cl bc rev)
  unfolding run_pre_authorization_checks
  Keeps-run_pre_authorization_checks rev =
      Keeps-if (not bc.has_pre_authorizer) _ _ (Keeps-pure tt)
        (Keeps-bind (embed x R cl bc _) _ (Keeps-embed _) (λ _. Keeps-request _ _ _ tt))

  pub Keeps-create_secrets :
      (secrets : List Secret)
      → ((s : Secret) → In s secrets → u.Create s)
      → KeepsPermitted (create_secrets x R cl bc secrets)
  unfolding create_secrets
  Keeps-create_secrets [] h = Keeps-pure tt
  Keeps-create_secrets (s ∷ rest) h =
      Keeps-bind _ _ (Keeps-request _ _ _ (h s (inl refl)))
        (λ _. Keeps-create_secrets rest (λ t m. h t (inr m)))

  Keeps-patch_owner_refs_on_secrets :
      (cos : Existing) (secrets : List OwnedSecret)
      → KeepsPermitted (patch_owner_refs_on_secrets x R cl bc cos secrets)
  unfolding patch_owner_refs_on_secrets
  Keeps-patch_owner_refs_on_secrets cos [] = Keeps-pure tt
  Keeps-patch_owner_refs_on_secrets cos (s ∷ rest) =
      let others = Keeps-patch_owner_refs_on_secrets cos rest in
      Keeps-if (contains cos.uid s.owner_uids) _ _ others
        (Keeps-bind _ _ (Keeps-request _ _ _ tt) (λ _. others))

  pub Keeps-patch_secret_owner_references :
      (rev : Desired Object R) (secrets : List Secret)
      → KeepsPermitted (patch_secret_owner_references x R cl bc rev secrets)
  unfolding patch_secret_owner_references
  Keeps-patch_secret_owner_references rev [] = Keeps-pure tt
  Keeps-patch_secret_owner_references rev (s ∷ rest) =
      Keeps-bind _ _ (Keeps-request _ _ _ tt) (λ cos. Keeps-patch_owner_refs_on_secrets cos _)

  pub Keeps-create_packed :
      (rev : Desired Object R) (packed : PackResult)
      → ((s : Secret) → In s packed.secrets → u.Create s)
      → ((d : Desired Object R) → u.Apply d)
      → KeepsPermitted (create_packed x R cl bc rev packed)
  unfolding create_packed
  Keeps-create_packed rev packed h k = Keeps-bind _ _ (Keeps-create_secrets packed.secrets h) (λ _.
      Keeps-bind _ _ (Keeps-request _ _ _ (k _))
        (λ _. Keeps-patch_secret_owner_references rev packed.secrets))

  pub Keeps-ensure_owners :
      (current : Option Existing) → KeepsPermitted (ensure_owners x R cl bc current)
  unfolding ensure_owners ensure_secret_owner_references
  Keeps-ensure_owners none = Keeps-pure tt
  Keeps-ensure_owners (some current) = Keeps-if (current.name == "") _ _ (Keeps-pure tt) (
      Keeps-bind _ _ (Keeps-request _ _ _ tt)
        (λ secrets. Keeps-patch_owner_refs_on_secrets current _))

  Keeps-attempt :
      (c : BoxCall Object R) (answer : Calls Object R → Result ApiError Unit)
      → PermitsBy u c
      → KeepsPermitted (attempt x R cl bc c answer)
  unfolding attempt
  Keeps-attempt c answer k = record { at = λ s h. u.called s c k h }

  pub Keeps-compare_with :
      (ext : Extension) (desired : Desired Object R) (current : Option Existing)
      → ((d : Desired Object R) → u.Apply d)
      → KeepsPermitted (compare_with x R cl bc ext desired current)
  unfolding compare_with
  Keeps-compare_with ext desired none k = Keeps-pure _
  Keeps-compare_with ext desired (some current) k = Keeps-bind _ _ (Keeps-embed _) (λ packed.
      Keeps-bind _ _ (Keeps-attempt _ _ (k _))
        (λ answer. Keeps-bind _ _ (Keeps-embed _) (λ state. Keeps-pure _)))

  Keeps-run_preflight :
      (state : InstallState) (check : PreflightCheck) (objs : List Object)
      → KeepsPermitted (run_preflight x R cl bc state check objs)
  Keeps-run_preflight needs_install check objs = Keeps-request _ _ _ tt
  Keeps-run_preflight needs_upgrade check objs = Keeps-request _ _ _ tt
  Keeps-run_preflight unchanged check objs = Keeps-pure tt

  pub Keeps-run_preflights :
      (ext : Extension) (state : InstallState) (objs : List Object) (checks : List PreflightCheck)
      → KeepsPermitted (run_preflights x R cl bc ext state objs checks)
  unfolding run_preflights
  Keeps-run_preflights ext state objs [] = Keeps-pure tt
  Keeps-run_preflights ext state objs (check ∷ checks) =
      Keeps-bind _ _
        (Keeps-if (should_skip_preflight check ext) _ _ (Keeps-pure tt)
          (Keeps-run_preflight state check objs))
        (λ _. Keeps-run_preflights ext state objs checks)
