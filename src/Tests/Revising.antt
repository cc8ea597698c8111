-- ===== src/Tests/Revising.antt =====
-- An extension with seven revisions, of which all but the last are archived.
use operator_controller.Prelude.{
  ℕ, pos, ◌≡◌, refl, String, List, [], ◌∷◌, none, some, true, ok, err, ◌⊎◌, inl, In, arith, ◌<ℤ◌,
}
use operator_controller.Tests.Packing.{api, result, secret}
use operator_controller.Applier.Boxcutter.{
  Existing, Desired, ApplyError, ApplyPhase, ApplyObject, Extension, Boxcutter, BoxCluster, BoxCall,
  Calls, create_secret, apply_revision,
}
use operator_controller.Applier.Boxcutter.Revisions.{
  sort_revisions, last_revision, latest_revision_number, max_int64, restore_inline_objects,
  replace_inline_with_refs, save_inline_objects,
}
use operator_controller.Applier.Boxcutter.Apply.{create_packed, next_revision}
use operator_controller.Applier.Boxcutter.Rollout.{apply}
use operator_controller.Applier.Boxcutter.Permits.{IsPermitted}
use operator_controller.Applier.Boxcutter.Retention.{IsExpired, apply-IsPermitted}
use operator_controller.Applier.Boxcutter.Numbering.{next_revision-IsGreatest}
use operator_controller.Applier.Boxcutter.Crash.{before_apply, create_packed_applies_last}
use operator_controller.Applier.Boxcutter.InPlace.{StaysInPlace, HasApplied, apply_in_place}
use operator_controller.Applier.Boxcutter.Inline.{restore_inline_objects-replace_inline_with_refs}

abbrev existing : String → ℕ → String → Existing
existing name n state = record {
  name = name;
  uid = name;
  revision = pos n;
  lifecycle_state = state;
}

abbrev current : Existing
current = existing "e-7" 7 "Active"

abbrev items : List Existing
items =
    current
    ∷ existing "e-6" 6 "Archived"
    ∷ existing "e-5" 5 "Archived"
    ∷ existing "e-4" 4 "Archived"
    ∷ existing "e-3" 3 "Archived"
    ∷ existing "e-2" 2 "Archived"
    ∷ existing "e-1" 1 "Archived"
    ∷ []

abbrev ext : Extension
ext = record { name = "e"; uid = "u"; enforcement = none }

abbrev object : ApplyObject (List ℕ)
object = record { object = some (1 ∷ []); ref = none; collision_protection = none }

abbrev desired : Desired (List ℕ) Unit
desired = record {
  name = "";
  revision = pos 0;
  owners = [];
  phases = record { name = some "deploy"; objects = object ∷ [] } ∷ [];
  rest = tt;
}

abbrev cluster : BoxCluster (List ℕ) Unit
cluster = record {
  decimal = λ _. "8";
  on_list = λ _. ok items;
  on_generate = λ _. ok desired;
  gvk = ok ("olm.operatorframework.io/v1", "ClusterExtension");
  on_apply = λ _. ok tt;
  on_preflight = λ _. ok tt;
  on_delete = λ _. ok tt;
  print = λ _. none;
  on_pre_authorize = λ _. ([], none);
  on_create = λ _. ok tt;
  on_get = λ _. ok current;
  on_list_secrets = λ _. ok [];
  on_patch = λ _. ok tt;
}

abbrev boxcutter : Boxcutter
boxcutter = record { preflights = []; has_pre_authorizer = true; system_namespace = "olm" }

apply-IsPermitted_example :
    IsPermitted
      (IsExpired (sort_revisions items))
      (λ _. Unit)
      (apply api Unit cluster boxcutter true ext []).1
apply-IsPermitted_example = apply-IsPermitted api Unit cluster boxcutter true ext items refl

latest : latest_revision_number (sort_revisions items) ≡ pos 7
unfolding latest_revision_number sort_revisions last_revision operator_controller.Sort.sort_stable
latest = refl

small : latest_revision_number (sort_revisions items) <ℤ max_int64
small = rw latest (omega arith)

next_revision-IsGreatest_example :
    pos 7 <ℤ (next_revision api Unit cluster boxcutter ext desired (sort_revisions items)).revision
next_revision-IsGreatest_example =
    next_revision-IsGreatest api Unit cluster boxcutter ext desired items current small (inl refl)

creates :
    before_apply (create_packed api Unit cluster boxcutter desired result []).1
    ≡ some (create_secret secret ∷ [])
unfolding create_packed operator_controller.Applier.Boxcutter.Apply.create_secrets
    operator_controller.Applier.Boxcutter.Apply.patch_secret_owner_references
    operator_controller.Applier.Boxcutter.Apply.patch_owner_refs_on_secrets
    operator_controller.Applier.Boxcutter.ask operator_controller.Exec.◌>>=◌
    operator_controller.Exec.or_fail operator_controller.Exec.pure
creates = refl

create_packed_applies_last_example :
    In {A = BoxCall (List ℕ) Unit} (create_secret secret) (create_secret secret ∷ [])
create_packed_applies_last_example =
    create_packed_applies_last api Unit cluster boxcutter desired result secret []
      (create_secret secret ∷ []) refl creates (inl refl)

last : last_revision (sort_revisions items) ≡ some current
unfolding sort_revisions last_revision operator_controller.Sort.sort_stable
last = refl

apply_in_place_example :
    let (outcome, calls) = apply api Unit cluster boxcutter true ext [] in
    StaysInPlace api Unit cluster boxcutter current calls
    × (((e : ApplyError) × (outcome ≡ err e)) ⊎ HasApplied api Unit cluster boxcutter current calls)
apply_in_place_example =
    apply_in_place api Unit cluster boxcutter ext items current refl last (λ _. refl)

restore_inline_objects-replace_inline_with_refs_example :
    restore_inline_objects
      (replace_inline_with_refs desired result.refs)
      (save_inline_objects desired)
    ≡ desired
restore_inline_objects-replace_inline_with_refs_example =
    restore_inline_objects-replace_inline_with_refs desired result.refs ((refl, tt), tt)
