-- ===== src/Applier/Boxcutter/Apply.antt =====
-- The methods of `Boxcutter` that create a revision and look after its secrets.
use Prim.Native.String
use operator_controller.Prelude.{
  suc, String, List, [], ◌∷◌, Option, none, some, Bool, true, false, Result, ok, err, if◌then◌else◌,
  ◌&&◌, not, ◌||◌, ◌==◌, ltb, contains, length, nat_eq,
}
use operator_controller.Sort.{sort_stable}
use operator_controller.Exec.{◌>>=◌, ◌>>◌, pure, or_wrap}
use operator_controller.ObjectSet.{state_archived}
use operator_controller.Applier.Packer.{EncodingApi, Secret, PackResult, PackError, pack}
use operator_controller.Applier.Boxcutter.{
  Existing, Desired, OwnedBy, Extension, OwnedSecret, ApiError, invalid, already_exists, not_found,
  other, ApplyError, listing_revisions, deleting_archived, printing_manifests, pre_authorization,
  packing, creating_secret, creating_revision, getting_revision, listing_secrets, patching_secret,
  BoxCall, list_existing, apply_revision, delete_revision, pre_authorize, create_secret,
  get_existing, list_secrets, patch_owners, Boxcutter, Calls, BoxStep, BoxCluster, ask,
  retention_limit,
}
use operator_controller.Applier.Boxcutter.Revisions.{
  sort_revisions, latest_revision_number, increment, get_objects, extract_phases_for_packing,
  replace_inline_with_refs,
}

-- `!apierrors.IsNotFound(err)` and `!apierrors.IsAlreadyExists(err)`
abbrev pub unless_not_found : Result ApiError Unit → Result ApiError Unit
unless_not_found (ok u) = ok u
unless_not_found (err not_found) = ok tt
unless_not_found (err invalid) = err invalid
unless_not_found (err already_exists) = err already_exists
unless_not_found (err (other e)) = err (other e)

abbrev pub unless_exists : Result ApiError Unit → Result ApiError Unit
unless_exists (ok u) = ok u
unless_exists (err already_exists) = ok tt
unless_exists (err invalid) = err invalid
unless_exists (err not_found) = err not_found
unless_exists (err (other e)) = err (other e)

abbrev is_some : Option String → Bool
is_some none = false
is_some (some _) = true

-- `formatPreAuthorizerOutput`, with the descriptions of the missing rules
unfoldable pub format_pre_authorizer_output : List String × Option String → Result ApplyError Unit
format_pre_authorizer_output (missing, auth_error) =
    if not (nat_eq (length missing) 0) || is_some auth_error
    then err (pre_authorization (sort_stable String.compare missing) auth_error)
    else ok tt

module _ (x : EncodingApi) (R : Type 0) (cl : BoxCluster x.Object R) (bc : Boxcutter) where
  open x use {Object}

  abbrev pub Box : Type 0 → Type 0
  Box A = BoxStep Object R ApplyError A

  -- a value or an error, without a call
  unfoldable pub embed : {A : Type 0} → Result ApplyError A → Box A
  embed r calls = (r, calls)

  abbrev pub request :
      {E A : Type 0} → BoxCall Object R → (Calls Object R → Result E A) → (E → ApplyError) → Box A
  request c answer wrap = or_wrap (ask Object R c answer) wrap

  unfoldable pub get_existing_revisions : String → Box (List Existing)
  get_existing_revisions name = do
    items ← request (list_existing name) cl.on_list listing_revisions
    pure (sort_revisions items)

  -- `index < len(revisionList)-ClusterObjectSetRetentionLimit`: more than the limit are left
  unfoldable pub collect_loop : List Existing → Box Unit
  collect_loop [] = pure tt
  collect_loop (r ∷ rs) =
      let rest = collect_loop rs in
      if ltb retention_limit (suc (length rs)) && (r.lifecycle_state == state_archived)
      then (do
        request (delete_revision r.name) (λ calls. unless_not_found (cl.on_delete calls))
            deleting_archived
        rest)
      else rest

  unfoldable pub garbage_collect_old_revisions : List Existing → Box Unit
  garbage_collect_old_revisions revisions = collect_loop revisions

  -- `revisionManifestReader`
  abbrev manifests : Option String → Result ApplyError Unit
  manifests none = ok tt
  manifests (some e) = err (printing_manifests e)

  unfoldable pub run_pre_authorization_checks : Desired Object R → Box Unit
  run_pre_authorization_checks rev = if not bc.has_pre_authorizer then pure tt else (do
    embed (manifests (cl.print (get_objects rev)))
    request (pre_authorize rev) (λ calls. format_pre_authorizer_output (cl.on_pre_authorize calls))
        (λ e. e))

  unfoldable pub create_secrets : List Secret → Box Unit
  create_secrets [] = pure tt
  create_secrets (s ∷ rest) = do
    request (create_secret s) (λ calls. unless_exists (cl.on_create calls)) (creating_secret s.name)
    create_secrets rest

  abbrev owner_of : Existing → OwnedBy
  owner_of cos = record {
    api_version = "olm.operatorframework.io/v1";
    kind = "ClusterObjectSet";
    name = cos.name;
    uid = cos.uid;
  }

  unfoldable pub patch_owner_refs_on_secrets : Existing → List OwnedSecret → Box Unit
  patch_owner_refs_on_secrets cos [] = pure tt
  patch_owner_refs_on_secrets cos (s ∷ rest) =
      let others = patch_owner_refs_on_secrets cos rest in
      if contains cos.uid s.owner_uids
      then others
      else (do request (patch_owners s (owner_of cos)) cl.on_patch (patching_secret s.name); others)

  abbrev pub without_owner : List Secret → List OwnedSecret
  without_owner [] = []
  without_owner (s ∷ rest) =
      record { name = s.name; namespace = s.namespace; owner_uids = [] } ∷ without_owner rest

  unfoldable pub patch_secret_owner_references : Desired Object R → List Secret → Box Unit
  patch_secret_owner_references rev [] = pure tt
  patch_secret_owner_references rev (s ∷ rest) = do
    cos ← request (get_existing rev.name) cl.on_get (getting_revision rev.name)
    patch_owner_refs_on_secrets cos (without_owner (s ∷ rest))

  -- the secrets without an owner reference to the object set
  unfoldable pub needs_patch : String → List OwnedSecret → List OwnedSecret
  needs_patch uid [] = []
  needs_patch uid (s ∷ rest) =
      let more = needs_patch uid rest in if contains uid s.owner_uids then more else s ∷ more

  unfoldable pub ensure_secret_owner_references : Existing → Box Unit
  ensure_secret_owner_references cos = do
    secrets ←
        request (list_secrets bc.system_namespace cos.name) cl.on_list_secrets
          (listing_secrets cos.name)
    patch_owner_refs_on_secrets cos (needs_patch cos.uid secrets)

  abbrev pub pack_revision : String → Extension → Desired Object R → Result PackError PackResult
  pack_revision name ext rev =
      pack x
        (record {
          revision_name = name;
          owner_name = ext.name;
          system_namespace = bc.system_namespace;
        })
        (extract_phases_for_packing rev.phases)

  abbrev pub wrap_pack :
      (PackError → ApplyError) → Result PackError PackResult → Result ApplyError PackResult
  wrap_pack wrap (ok r) = ok r
  wrap_pack wrap (err e) = err (wrap e)

  -- the three steps that create a revision
  unfoldable pub create_packed : Desired Object R → PackResult → Box Unit
  create_packed rev packed = do
    create_secrets packed.secrets
    request (apply_revision (replace_inline_with_refs rev packed.refs)) cl.on_apply
        creating_revision
    patch_secret_owner_references rev packed.secrets

  abbrev pub next_revision : Extension → Desired Object R → List Existing → Desired Object R
  next_revision ext rev existing =
      let number = increment (latest_revision_number existing) in
      record rev {
        name = String.◌++◌ ext.name (String.◌++◌ "-" (cl.decimal number));
        revision = number;
      }

  unfoldable pub create_externalized_revision :
      Extension → Desired Object R → List Existing → Box Unit
  create_externalized_revision ext rev existing = do
    let next = next_revision ext rev existing
    garbage_collect_old_revisions existing
    run_pre_authorization_checks next
    packed ← embed (wrap_pack packing (pack_revision next.name ext next))
    create_packed next packed
