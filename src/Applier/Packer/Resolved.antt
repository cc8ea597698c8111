-- ===== src/Applier/Packer/Resolved.antt =====
-- From Pack to the ClusterObjectSet controller, which resolves the refs.
use operator_controller.Prelude.{
  take, take_all, length-take, ℕ, ◌+◌, ◌≤◌, ◌≡◌, refl, sym, ap, ◌∙◌, List, [], ◌∷◌, ◌++◌, String,
  Option, none, some, true, false, Result, ok, err, inl, inr, In, Bool-cases, arith, if◌then◌else◌,
  ok_injective, ok-ne-err, length, ltb,
}
use operator_controller.Exec.{◌>>=◌, or_fail}
use operator_controller.ObjectSet.Phases.{
  has_gzip_magic, max_decompressed_size, decompress, parse_object, of_value, resolve_object_ref,
  lift,
}
use operator_controller.ObjectSet.{
  Platform, Cluster, State, RefError, too_large, call, get_secret, ObjectSourceRef, SpecPhase,
}
use operator_controller.Applier.Packer.{
  EncodingApi, Position, Secret, SecretPacker, PackResult, within_maximum, of_compressed,
  gzip_threshold, max_secret_data_size, encode, pack, content_hash, lookup, lookup_ref,
}
use operator_controller.Applier.Packer.Refs.{some_injective}
use operator_controller.Applier.Packer.Loops.{object_at}
use operator_controller.Applier.Packer.Packed.{pack-IsStored}

-- What the documentation of encoding/json and compress/gzip says of writing and reading again:
-- `read` is an object as JSON gives it back.
pub record EncodingLaws (x : EncodingApi) (p : Platform) (read : x.Object → p.objects.Object)
    : Type 0 where
  pub unmarshal-marshal :
      (o : x.Object) (bytes : List ℕ)
      → x.marshal o ≡ some bytes
      → p.objects.unmarshal bytes ≡ some (read o)
  -- a JSON object begins with a brace
  pub marshal-plain :
      (o : x.Object) (bytes : List ℕ) → x.marshal o ≡ some bytes → has_gzip_magic bytes ≡ false
  pub gzip-magic :
      (bytes zipped : List ℕ) → x.gzip_data bytes ≡ some zipped → has_gzip_magic zipped ≡ true
  pub gzip_open-gzip_data :
      (bytes zipped : List ℕ)
      → x.gzip_data bytes ≡ some zipped
      → (stream : p.objects.Stream) × (p.objects.gzip_open zipped ≡ some stream)
        × ((n : ℕ) → p.objects.read_limited stream n ≡ some (take n bytes))

-- The encoded objects of a revision have different digests if they differ.
pub record CollisionFree (x : EncodingApi) (phases : List (SpecPhase x.Object)) : Type 0 where
  pub same :
      (q r : Position) (a b : x.Object) (left right : List ℕ)
      → object_at phases q ≡ some a
      → encode x q a ≡ ok left
      → object_at phases r ≡ some b
      → encode x r b ≡ ok right
      → content_hash x left ≡ content_hash x right
      → left ≡ right

module _ (x : EncodingApi) (p : Platform) (read : x.Object → p.objects.Object) where
  -- What the controller reads where `bytes` is the JSON of an object.
  abbrev pub as_read : x.Object → List ℕ → Result RefError (p.objects.Object)
  as_read o bytes = if ltb max_decompressed_size (length bytes) then err too_large else ok (read o)

module _ (x : EncodingApi) (p : Platform) (read : x.Object → p.objects.Object)
    (laws : EncodingLaws x p read) where
  open x use {Object}

  limited :
      (n : ℕ) (o : Object) (bytes : List ℕ)
      → p.objects.unmarshal bytes ≡ some (read o)
      → parse_object p
          (if ltb n (length (take (n + 1) bytes)) then err too_large else ok (take (n + 1) bytes))
        ≡ (if ltb n (length bytes) then err too_large else ok (read o))
  limited n o bytes u = elim (Bool-cases (ltb n (length bytes))) [
    | inl long ↦
        let e = length-take (n + 1) bytes (ground arith) in
        let t : ltb n (length (take (n + 1) bytes)) ≡ true = ground arith in rw long (rw t refl)
    | inr short ↦ let e = take_all (n + 1) bytes (ground arith) in rw e (rw short (rw u refl))
  ]

  zipped-parse :
      (o : Object) (bytes zipped : List ℕ)
      → x.marshal o ≡ some bytes
      → x.gzip_data bytes ≡ some zipped
      → parse_object p (decompress p zipped) ≡ as_read x p read o bytes
  unfolding decompress
  zipped-parse o bytes zipped m z =
      let (stream, opened, reads) = laws.gzip_open-gzip_data bytes zipped z in
      rw (laws.gzip-magic bytes zipped z) (
        rw opened (
          rw (reads (max_decompressed_size + 1))
            (limited max_decompressed_size o bytes (laws.unmarshal-marshal o bytes m))))

  within-eq :
      (pos : Position) (bytes stored : List ℕ)
      → within_maximum x pos bytes ≡ ok stored
      → bytes ≡ stored
  within-eq pos bytes stored h = elim (Bool-cases (ltb max_secret_data_size (length bytes))) [
    | inl e ↦ absurd (ok-ne-err stored _ (sym (rw e at h)))
    | inr e ↦ ok_injective (rw e at h)
  ]

  zipped_case :
      (pos : Position) (o : Object) (bytes stored : List ℕ) (zipped : Option (List ℕ))
      → x.marshal o ≡ some bytes
      → x.gzip_data bytes ≡ zipped
      → of_compressed x pos zipped ≡ ok stored
      → parse_object p (decompress p stored) ≡ as_read x p read o bytes
  zipped_case pos o bytes stored none m z e = absurd (ok-ne-err stored _ (sym e))
  zipped_case pos o bytes stored (some zipped) m z e =
      rw (← within-eq pos zipped stored e) (zipped-parse o bytes zipped m z)

  plain-parse :
      (o : Object) (bytes : List ℕ)
      → x.marshal o ≡ some bytes
      → length bytes ≤ gzip_threshold
      → parse_object p (decompress p bytes) ≡ as_read x p read o bytes
  unfolding decompress
  plain-parse o bytes m h =
      let t : ltb max_decompressed_size (length bytes) ≡ false = ground arith in
      rw (laws.marshal-plain o bytes m) (rw t (rw (laws.unmarshal-marshal o bytes m) refl))

  encoded-parse :
      (pos : Position) (o : Object) (bytes stored : List ℕ)
      → x.marshal o ≡ some bytes
      → encode x pos o ≡ ok stored
      → parse_object p (decompress p stored) ≡ as_read x p read o bytes
  unfolding encode
  encoded-parse pos o bytes stored m e = elim (Bool-cases (ltb gzip_threshold (length bytes))) [
    | inl big ↦ zipped_case pos o bytes stored (x.gzip_data bytes) m refl (rw big at (rw m at e))
    | inr small ↦
        rw (← ok_injective (rw small at (rw m at e))) (plain-parse o bytes m (ground arith))
  ]

  resolve-of_value :
      (cl : Cluster p) (s : State p) (ref : ObjectSourceRef) (values : String → Option (List ℕ))
      → cl.on_secret (s.calls ++ get_secret ref.namespace ref.name ∷ []) ≡ ok values
      → (resolve_object_ref p cl ref s).0 ≡ of_value p ref.key (values ref.key)
  unfolding resolve_object_ref ◌>>=◌ or_fail call lift
  resolve-of_value cl s ref values h = rw h refl

  -- The refs that Pack returns resolve: where the cluster has the secrets that Pack creates and no
  -- two encoded objects have the same digest, resolving the ref of an inline object gives the
  -- object as JSON gives it back, if its JSON has at most 10 MiB; if it has more, Pack may still
  -- accept the object, but resolving it fails.
  pub resolve_object_ref-pack :
      (packer : SecretPacker) (phases : List (SpecPhase Object)) (result : PackResult)
      (pos : Position) (o : Object) (bytes : List ℕ) (cl : Cluster p) (s : State p)
      → CollisionFree x phases
      → pack x packer phases ≡ ok result
      → object_at phases pos ≡ some o
      → x.marshal o ≡ some bytes
      → ((secret : Secret)
          → In secret result.secrets
          → cl.on_secret (s.calls ++ get_secret secret.namespace secret.name ∷ [])
            ≡ ok (λ key. lookup key secret.contents))
      → (ref : ObjectSourceRef) × (lookup_ref pos result.refs ≡ some ref)
        × ((resolve_object_ref p cl ref s).0 ≡ as_read x p read o bytes)
  resolve_object_ref-pack packer phases result pos o bytes cl s free h at m holds =
      let (ref, l, stored) = pack-IsStored x packer phases result pos o h at in
      let f = stored.found in
      let c = f.content in
      let d = f.stored_content in
      let same : c.object ≡ o = some_injective (sym c.at ∙ at) in
      let equal : f.bytes ≡ f.stored =
        free.same pos d.position c.object d.content.object f.bytes f.stored c.at c.encoded
          d.content.at d.content.encoded (f.hashed ∙ sym d.hashed) in
      let answer = holds stored.secret stored.created in
      let read_back =
        resolve-of_value cl s ref (λ key. lookup key stored.secret.contents)
          (rw stored.named (rw stored.placed answer)) in
      let value = encoded-parse pos o bytes f.stored m (rw (← equal) (rw (← same) c.encoded)) in
      (ref, l, read_back ∙ (ap (of_value p ref.key) f.found ∙ value))
