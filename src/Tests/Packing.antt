-- ===== src/Tests/Packing.antt =====
-- Objects that are sorted and packed: the same content twice, and an entry that is a reference.
use operator_controller.Prelude.{
  take, ℕ, zero, suc, ◌≡◌, refl, sym, ◌∙◌, ap, String, List, [], ◌∷◌, ◌++◌, Option, none, some,
  true, false, ok, err, inl, inr, In, ok_injective, pos,
}
use operator_controller.Tests.Cluster.{platform}
use operator_controller.ObjectSet.{
  Platform, Cluster, State, get_secret, ObjectSourceRef, SpecObject, SpecPhase,
}
use operator_controller.Applier.Phase.{
  ManifestApi, phase_sort, phase_of, default_phase_order, SortedPhase,
}
use operator_controller.Applier.Phase.Sorted.{
  IsPhaseOf, phase_sort-IsPhaseOf, In-phase_sort, result_names-phase_sort, result_names,
  phases_used,
}
use operator_controller.Applier.Packer.{
  EncodingApi, SecretPacker, Secret, PackResult, PackError, Position, pack, encode, content_hash,
  lookup, lookup_ref, exceeds_maximum, serializing,
}
use operator_controller.Applier.Packer.Loops.{object_at}
use operator_controller.Applier.Packer.Invariant.{Fits}
use operator_controller.Applier.Packer.Contents.{IsStored}
use operator_controller.Applier.Packer.Packed.{pack-Fits, pack-IsStored, IsInline}
use operator_controller.Applier.Packer.Failing.{IsOutcome, pack-IsOutcome}
use operator_controller.Applier.Packer.Refs.{some_injective, some-none}
use operator_controller.Applier.Packer.Resolved.{
  EncodingLaws, CollisionFree, as_read, resolve_object_ref-pack,
}
use operator_controller.ObjectSet.Phases.{resolve_object_ref, has_gzip_magic}

abbrev manifests : ManifestApi
manifests = record {
  Object = String;
  group = λ _. "";
  version = λ _. "v1";
  kind = λ o. o;
  namespace = λ _. "";
  name = λ _. "x";
}

abbrev sorted : List (SortedPhase String)
sorted =
    record { name = "configuration"; objects = "Secret" ∷ [] }
    ∷ record { name = "infrastructure"; objects = "Service" ∷ [] }
    ∷ []

sorts : phase_sort manifests ("Service" ∷ "Secret" ∷ []) ≡ sorted
unfolding phase_sort operator_controller.Applier.Phase.phase_map
    operator_controller.Applier.Phase.determine_phase operator_controller.Sort.sort_stable
sorts = refl

result_names-phase_sort_example :
    result_names manifests (phase_sort manifests ("Service" ∷ "Secret" ∷ []))
    ≡ phases_used manifests ("Service" ∷ "Secret" ∷ []) default_phase_order
result_names-phase_sort_example = result_names-phase_sort manifests ("Service" ∷ "Secret" ∷ [])

phase_sort-IsPhaseOf_example :
    IsPhaseOf manifests
      ("Service" ∷ "Secret" ∷ [])
      (record { name = "configuration"; objects = "Secret" ∷ [] })
phase_sort-IsPhaseOf_example =
    phase_sort-IsPhaseOf manifests ("Service" ∷ "Secret" ∷ [])
      (record { name = "configuration"; objects = "Secret" ∷ [] }) (rw sorts (inl refl))

In-phase_sort_example :
    (s : SortedPhase String) × In s (phase_sort manifests ("Service" ∷ "Secret" ∷ []))
    × (s.name ≡ phase_of manifests "Secret")
    × In "Secret" s.objects
In-phase_sort_example =
    In-phase_sort manifests ("Service" ∷ "Secret" ∷ []) "Secret" (inr (inl refl))

abbrev pub api : EncodingApi
api = record {
  Object = List ℕ;
  marshal = λ o. some (123 ∷ o);
  gzip_data = λ bytes. some (0x1f ∷ 0x8b ∷ bytes);
  sum_256 = λ bytes. bytes;
  raw_url_encode = λ bytes. "hash";
  hex = λ bytes. "00";
  bytes_of = λ s. [];
}

abbrev rest : List ℕ → List ℕ
rest [] = []
rest (_ ∷ bytes) = bytes

abbrev packer : SecretPacker
packer = record { revision_name = "e-1"; owner_name = "e"; system_namespace = "olm" }

abbrev entry : Option (List ℕ) → SpecObject (List ℕ)
entry o = record {
  object = o;
  ref = record { name = ""; namespace = ""; key = "" };
  collision_protection = "";
}

abbrev phases : List (SpecPhase (List ℕ))
phases =
    record {
      name = "deploy";
      objects = entry (some (1 ∷ [])) ∷ entry none ∷ entry (some (1 ∷ [])) ∷ [];
      collision_protection = "";
    }
    ∷ []

abbrev pub secret : Secret
secret = record {
  name = "e-1-00";
  namespace = "olm";
  revision_name = "e-1";
  owner_name = "e";
  contents = ("hash", 123 ∷ 1 ∷ []) ∷ [];
}

abbrev ref : ObjectSourceRef
ref = record { name = "e-1-00"; namespace = "olm"; key = "hash" }

abbrev pub result : PackResult
result = record { secrets = secret ∷ []; refs = ((0, 2), ref) ∷ ((0, 0), ref) ∷ [] }

packs : pack api packer phases ≡ ok result
unfolding pack operator_controller.Applier.Packer.close_packing
    operator_controller.Applier.Packer.phases_loop operator_controller.Applier.Packer.objects_loop
    operator_controller.Applier.Packer.encode operator_controller.Applier.Packer.pack_bytes
    operator_controller.Applier.Packer.store_content operator_controller.Applier.Packer.make_room
    operator_controller.Applier.Packer.finalize_current operator_controller.Applier.Packer.back_fill
    operator_controller.Applier.Packer.new_secret
    operator_controller.Applier.Packer.secret_name_from_data
    operator_controller.Applier.Packer.content_hash operator_controller.Sort.sort_stable
packs = refl

pack-Fits_example : Fits secret
pack-Fits_example = pack-Fits api packer phases result secret packs (inl refl)

pack-IsStored_example :
    (r : ObjectSourceRef) × (lookup_ref (0, 2) result.refs ≡ some r)
    × IsStored api packer (IsInline api packer phases) result.secrets (0, 2) r
pack-IsStored_example = pack-IsStored api packer phases result (0, 2) (1 ∷ []) packs refl

pack-IsOutcome_example : IsOutcome api packer phases (pack api packer phases)
pack-IsOutcome_example = pack-IsOutcome api packer phases

abbrev reads : Platform
reads = record {
  conditions = platform.conditions;
  objects = record {
    Object = List ℕ;
    gvk = λ _. "";
    set_label = λ o _ _. o;
    Stream = List ℕ;
    gzip_open = λ zipped. some (rest (rest zipped));
    read_limited = λ stream n. some (take n stream);
    unmarshal = λ bytes. some (rest bytes);
  };
}

plain : (o : List ℕ) → has_gzip_magic (123 ∷ o) ≡ false
plain [] = refl
plain (_ ∷ _) = refl

encoding-laws : EncodingLaws api reads (λ o. o)
encoding-laws = record {
  unmarshal-marshal = λ o bytes e. ap some (ap rest (sym (some_injective e)));
  marshal-plain = λ o bytes e. rw (← some_injective e) (plain o);
  gzip-magic = λ bytes zipped e. rw (← some_injective e) refl;
  gzip_open-gzip_data = λ bytes zipped e. rw (← some_injective e) (bytes, refl, λ _. refl);
}

only : (q : Position) (a : List ℕ) → object_at phases q ≡ some a → a ≡ 1 ∷ []
only (zero, zero) a h = sym (some_injective h)
only (zero, suc zero) a h = absurd (some-none (sym h))
only (zero, suc (suc zero)) a h = sym (some_injective h)
only (zero, suc (suc (suc _))) a h = absurd (some-none (sym h))
only (suc _, _) a h = absurd (some-none (sym h))

encodes : (q : Position) → encode api q (1 ∷ []) ≡ ok (123 ∷ 1 ∷ [])
unfolding encode
encodes q = refl

encoded :
    (q : Position) (a bytes : List ℕ)
    → object_at phases q ≡ some a
    → encode api q a ≡ ok bytes
    → bytes ≡ 123 ∷ 1 ∷ []
encoded q a bytes at e =
    sym (ok_injective (sym (encodes q) ∙ (ap (encode api q) (sym (only q a at)) ∙ e)))

collision-free : CollisionFree api phases
collision-free = record {
  same = λ q r a b left right at e at' e' _. encoded q a left at e ∙ sym (encoded r b right at' e');
}

abbrev holding : Cluster reads
holding = record {
  on_get = λ _. err "";
  on_list = λ _. err "";
  on_secret = λ _. ok (λ key. lookup key secret.contents);
  on_engine = λ _. err "";
  on_free = λ _. err "";
  on_patch = λ _. err "";
  on_watch = λ _. err "";
  on_reconcile = λ _. err "";
  on_teardown = λ _. err "";
  on_archive = λ _. err "";
  on_update = λ _. err "";
  same_spec = λ _ _. true;
}

abbrev begun : State reads
begun = record {
  cos = record {
    name = "e-1";
    owner = some "e";
    bundle_version = "1.0.0";
    generation = 1;
    deleting = false;
    created = 0;
    finalizers = [];
    lifecycle_state = "Active";
    revision = pos 1;
    progress_deadline_minutes = 0;
    collision_protection = "";
    phases = [];
    progression_probes = [];
    conditions = [];
  };
  calls = [];
}

only_secret :
    (s : Secret)
    → In s result.secrets
    → holding.on_secret (begun.calls ++ get_secret s.namespace s.name ∷ [])
      ≡ ok (λ key. lookup key s.contents)
only_secret s (inl e) = rw e refl
only_secret s (inr gone) = absurd gone

resolve_object_ref-pack_example :
    (r : ObjectSourceRef) × (lookup_ref (0, 2) result.refs ≡ some r)
    × ((resolve_object_ref reads holding r begun).0
        ≡ as_read api reads (λ o. o) (1 ∷ []) (123 ∷ 1 ∷ []))
resolve_object_ref-pack_example =
    resolve_object_ref-pack api reads (λ o. o) encoding-laws packer phases result (0, 2) (1 ∷ [])
      (123 ∷ 1 ∷ []) holding begun collision-free packs refl refl only_secret
