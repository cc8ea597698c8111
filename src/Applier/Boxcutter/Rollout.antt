-- ===== src/Applier/Boxcutter/Rollout.antt =====
-- `Boxcutter.Apply`, and shouldSkipPreflight of preflight.go.
use operator_controller.Prelude.{
  String, List, [], ◌∷◌, ◌++◌, Option, none, some, Bool, true, false, Result, ok, err,
  if◌then◌else◌, ◌&&◌, ◌==◌,
}
use operator_controller.Exec.{◌>>=◌, ◌>>◌, pure, raise}
use operator_controller.Applier.Packer.{EncodingApi}
use operator_controller.Applier.Boxcutter.{
  Existing, Desired, Extension, ApiError, invalid, already_exists, not_found, other, ApplyError,
  no_revision_installed, generating, getting_gvk, packing_for_comparison, patching_revision,
  failing_preflight, BoxCall, generate, apply_revision, preflight_install, preflight_upgrade,
  PreflightCheck, Boxcutter, Calls, BoxCluster, enforcement_none,
}
use operator_controller.Applier.Boxcutter.Revisions.{
  last_revision, get_objects, save_inline_objects, restore_inline_objects, replace_inline_with_refs,
}
use operator_controller.Applier.Boxcutter.Apply.{
  Box, embed, request, get_existing_revisions, pack_revision, wrap_pack,
  create_externalized_revision, ensure_secret_owner_references,
}

-- the states of an installation
pub data InstallState : Type 0 where
  needs_install needs_upgrade unchanged : InstallState

-- `shouldSkipPreflight`
unfoldable pub should_skip_preflight : PreflightCheck → Extension → Bool
should_skip_preflight check ext = elim ext.enforcement [
  | none ↦ false
  | some e ↦ check.is_crd_upgrade_safety && (e == enforcement_none)
]

abbrev pub state_of : String → Result ApiError Unit → Result ApplyError InstallState
state_of name (ok _) = ok unchanged
state_of name (err invalid) = ok needs_upgrade
state_of name (err already_exists) = err (patching_revision name already_exists)
state_of name (err not_found) = err (patching_revision name not_found)
state_of name (err (other e)) = err (patching_revision name (other e))

module _ (x : EncodingApi) (R : Type 0) (cl : BoxCluster x.Object R) (bc : Boxcutter) where
  open x use {Object}

  abbrev BoxOf : Type 0 → Type 0
  BoxOf A = Box x R cl bc A

  -- a call whose error the code looks at
  unfoldable pub attempt :
      BoxCall Object R → (Calls Object R → Result ApiError Unit) → BoxOf (Result ApiError Unit)
  attempt c answer calls = let now = calls ++ c ∷ [] in (ok (answer now), now)

  -- the server-side apply of the current revision, which tells whether it changes
  unfoldable pub compare_with :
      Extension → Desired Object R → Option Existing → BoxOf (InstallState × Desired Object R)
  compare_with ext desired none = pure (needs_install, desired)
  compare_with ext desired (some current) = do
    let named = record desired { revision = current.revision; name = current.name }
    packed ← embed x R cl bc (
        wrap_pack x R cl bc packing_for_comparison (pack_revision x R cl bc current.name ext named))
    let packed_rev = replace_inline_with_refs named packed.refs
    answer ← attempt (apply_revision packed_rev) cl.on_apply
    state ← embed x R cl bc (state_of current.name answer)
    pure (state, restore_inline_objects packed_rev (save_inline_objects named))

  abbrev pub run_preflight : InstallState → PreflightCheck → List Object → BoxOf Unit
  run_preflight needs_install check objs =
      request x R cl bc (preflight_install check.name objs) cl.on_preflight failing_preflight
  run_preflight needs_upgrade check objs =
      request x R cl bc (preflight_upgrade check.name objs) cl.on_preflight failing_preflight
  run_preflight unchanged check objs = pure tt

  unfoldable pub run_preflights :
      Extension → InstallState → List Object → List PreflightCheck → BoxOf Unit
  run_preflights ext state objs [] = pure tt
  run_preflights ext state objs (check ∷ checks) = do
    if should_skip_preflight check ext then pure tt else run_preflight state check objs
    run_preflights ext state objs checks

  unfoldable pub ensure_owners : Option Existing → BoxOf Unit
  ensure_owners none = pure tt
  ensure_owners (some current) =
      if current.name == "" then pure tt else ensure_secret_owner_references x R cl bc current

  unfoldable pub conclude_apply :
      Extension → InstallState → Desired Object R → List Existing → BoxOf Unit
  conclude_apply ext needs_install desired existing =
      create_externalized_revision x R cl bc ext desired existing
  conclude_apply ext needs_upgrade desired existing =
      create_externalized_revision x R cl bc ext desired existing
  conclude_apply ext unchanged desired existing = ensure_owners (last_revision existing)

  abbrev pub gvk_of : Result String (String × String) → Result ApplyError (String × String)
  gvk_of (ok g) = ok g
  gvk_of (err e) = err (getting_gvk e)

  -- the owner reference to the extension
  abbrev pub with_owner : Extension → String × String → Desired Object R → Desired Object R
  with_owner ext (api_version, kind) rev = record rev {
    owners =
        rev.owners
        ++ record { api_version = api_version; kind = kind; name = ext.name; uid = ext.uid } ∷ [];
  }

  unfoldable pub apply_content : Extension → List Existing → BoxOf Unit
  apply_content ext existing = do
    generated ← request x R cl bc generate cl.on_generate generating
    g ← embed x R cl bc (gvk_of cl.gvk)
    (state, desired) ← compare_with ext (with_owner ext g generated) (last_revision existing)
    run_preflights ext state (get_objects desired) bc.preflights
    conclude_apply ext state desired existing

  -- the branch without content
  abbrev pub maintain : List Existing → BoxOf Unit
  maintain [] = raise no_revision_installed
  maintain (_ ∷ _) = pure tt

  -- `Apply`: whether it is a rollout that succeeded
  unfoldable pub apply : Bool → Extension → BoxOf Bool
  apply has_content ext = do
    existing ← get_existing_revisions x R cl bc ext.name
    if has_content then apply_content ext existing else maintain existing
    pure true
