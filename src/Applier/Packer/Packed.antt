-- ===== src/Applier/Packer/Packed.antt =====
-- What Pack returns.
use operator_controller.Prelude.{
  ℕ, ◌+◌, ◌≡◌, refl, sym, ap, subst, List, [], ◌∷◌, some, true, ok, inl, inr, In, Bool-cases, arith,
  ◌&&◌, >>=-eq-ok, ok_injective, nat_eq,
}
use operator_controller.ObjectSet.{ObjectSourceRef, SpecPhase}
use operator_controller.Applier.Packer.{
  EncodingApi, Position, Secret, SecretPacker, Packing, PackResult, pack, phases_loop, lookup_ref,
  empty_packing, close_packing,
}
use operator_controller.Applier.Packer.Refs.{some-none, some_injective}
use operator_controller.Applier.Packer.Invariant.{Fits, IsFitting, finalize-IsFitting}
use operator_controller.Applier.Packer.Contents.{IsSound, IsStored, finalize-IsSound}
use operator_controller.Applier.Packer.Covered.{finalize-refs}
use operator_controller.Applier.Packer.Loops.{object_at, phases_loop-IsStep, IsStep, pair_eq}

position_eq : (q pos : Position) → (nat_eq q.0 pos.0 && nat_eq q.1 pos.1) ≡ true → q ≡ pos
position_eq q pos h =
    let e : q.0 ≡ pos.0 = ground arith in let f : q.1 ≡ pos.1 = ground arith in λ n. (e n, f n)

-- A lookup finds an entry where there is one.
lookup_ref-some :
    (pos : Position) (ref : ObjectSourceRef) (refs : List (Position × ObjectSourceRef))
    → In (pos, ref) refs
    → (found : ObjectSourceRef) × (lookup_ref pos refs ≡ some found)
lookup_ref-some pos ref [] m = absurd m
lookup_ref-some pos ref ((q, r) ∷ refs) (inr m) =
    elim (Bool-cases (nat_eq q.0 pos.0 && nat_eq q.1 pos.1)) [
      | inl t ↦ (r, rw t refl)
      | inr t ↦ let (found, e) = lookup_ref-some pos ref refs m in (found, rw t e)
    ]
lookup_ref-some pos ref ((q, r) ∷ refs) (inl e) =
    let i : q.0 ≡ pos.0 = ap (λ (z : Position × ObjectSourceRef). z.0.0) (sym e) in
    let j : q.1 ≡ pos.1 = ap (λ (z : Position × ObjectSourceRef). z.0.1) (sym e) in
    let t : (nat_eq q.0 pos.0 && nat_eq q.1 pos.1) ≡ true = ground arith in (r, rw t refl)

lookup_ref-In :
    (pos : Position) (found : ObjectSourceRef) (refs : List (Position × ObjectSourceRef))
    → lookup_ref pos refs ≡ some found
    → In (pos, found) refs
lookup_ref-In pos found [] h = absurd (some-none (sym h))
lookup_ref-In pos found ((q, r) ∷ refs) h =
    elim (Bool-cases (nat_eq q.0 pos.0 && nat_eq q.1 pos.1)) [
      | inl t ↦
          let e = position_eq q pos t in
          let f = some_injective (rw t at h) in inl (λ n. (sym e n, sym f n))
      | inr t ↦ inr (lookup_ref-In pos found refs (rw t at h))
    ]

start-IsFitting : IsFitting empty_packing
start-IsFitting = record { secrets = λ _ m. absurd m; counted = refl; small = ground arith }

module _ (x : EncodingApi) (p : SecretPacker) where
  open x use {Object}

  start-IsSound : (At : Position → Object → Type 0) → IsSound x p At empty_packing
  start-IsSound At = record {
    refs = λ _ _ m. absurd m;
    pending = λ _ _ m. absurd m;
    contents = λ _ _ e. absurd (some-none (sym e));
  }

  abbrev pub IsInline : List (SpecPhase Object) → Position → Object → Type 0
  IsInline phases pos o = object_at phases pos ≡ some o

  packed :
      (phases : List (SpecPhase Object)) (result : PackResult)
      → pack x p phases ≡ ok result
      → (st : Packing) × (result ≡ close_packing x p st)
        × IsStep x p (IsInline phases) empty_packing st (λ q.
          (k : ℕ) × (j : ℕ) × (q ≡ (0 + k, j))
          × ((o : Object) × (object_at phases (k, j) ≡ some o)))
  unfolding pack
  packed phases result h =
      let (st, run, end) =
        >>=-eq-ok (phases_loop x p 0 phases empty_packing) (λ st. ok (close_packing x p st)) h in
      (
        st,
        sym (ok_injective end),
        phases_loop-IsStep x p (IsInline phases) 0 phases empty_packing st
            (λ k j o e. subst (λ (n : ℕ). IsInline phases (n, j) o) (omega arith) e) run
            start-IsFitting (start-IsSound (IsInline phases)),
      )

  -- Every secret that Pack creates has content, of at most 900 KiB in all.
  pub pack-Fits :
      (phases : List (SpecPhase Object)) (result : PackResult) (secret : Secret)
      → pack x p phases ≡ ok result
      → In secret result.secrets
      → Fits secret
  unfolding close_packing
  pack-Fits phases result secret h m =
      let (st, e, step) = packed phases result h in
      (finalize-IsFitting x p st step.fitting).secrets secret (rw e at m)

  -- Every inline object has a ref to a secret that Pack creates, in the namespace of the packer;
  -- under the key of the ref the secret holds the encoded object, or other encoded content with
  -- the same hash.
  pub pack-IsStored :
      (phases : List (SpecPhase Object)) (result : PackResult) (pos : Position) (o : Object)
      → pack x p phases ≡ ok result
      → object_at phases pos ≡ some o
      → (ref : ObjectSourceRef) × (lookup_ref pos result.refs ≡ some ref)
        × IsStored x p (IsInline phases) result.secrets pos ref
  unfolding close_packing
  pack-IsStored phases result pos o h at =
      let (st, e, step) = packed phases result h in
      let sound = finalize-IsSound x p (IsInline phases) st step.sound in
      let covered = step.new pos (pos.0, pos.1, pair_eq (omega arith) refl, (o, at)) in
      let (ref, m) = finalize-refs x p (IsInline phases) st pos step.sound covered in
      let (found, l) = lookup_ref-some pos ref _ m in
      rw e (found, l, sound.refs pos found (lookup_ref-In pos found _ l))

  -- Only inline objects have refs.
  pub pack-only_inline :
      (phases : List (SpecPhase Object)) (result : PackResult) (pos : Position)
      (ref : ObjectSourceRef)
      → pack x p phases ≡ ok result
      → lookup_ref pos result.refs ≡ some ref
      → (o : Object) × (object_at phases pos ≡ some o)
  unfolding close_packing
  pack-only_inline phases result pos ref h l =
      let (st, e, step) = packed phases result h in
      let sound = finalize-IsSound x p (IsInline phases) st step.sound in
      let c = (sound.refs pos ref (lookup_ref-In pos ref _ (rw e at l))).found.content in
      (c.object, c.at)
