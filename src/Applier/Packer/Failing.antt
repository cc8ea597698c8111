-- ===== src/Applier/Packer/Failing.antt =====
-- When Pack returns an error.
use operator_controller.Prelude.{
  ℕ, suc, ◌+◌, ◌≡◌, refl, sym, ◌∙◌, subst, List, [], ◌∷◌, Option, none, some, Result, ok, err, inl,
  inr, arith, >>=-eq-err, ok-ne-err, Result-cases,
}
use operator_controller.ObjectSet.{SpecObject, SpecPhase}
use operator_controller.Applier.Packer.{
  EncodingApi, Position, SecretPacker, Packing, PackError, PackResult, encode, pack, pack_bytes,
  pack_object, objects_loop, phases_loop, empty_packing, close_packing,
}
use operator_controller.Applier.Packer.Refs.{some_injective}
use operator_controller.Applier.Packer.Loops.{get_elem?, inline, object_at, pair_eq}
use operator_controller.Applier.Packer.Packed.{pack-IsStored}

module _ (x : EncodingApi) (p : SecretPacker) where
  open x use {Object}

  object_err :
      (pos : Position) (obj : Option Object) (st : Packing) (e : PackError)
      → pack_object x p pos obj st ≡ err e
      → (o : Object) × (obj ≡ some o) × (encode x pos o ≡ err e)
  object_err pos none st e h = absurd (ok-ne-err st e h)
  object_err pos (some o) st e h =
      elim (>>=-eq-err (encode x pos o) (λ bytes. ok (pack_bytes x p pos bytes st)) h) [
        | inl failed ↦ (o, refl, failed)
        | inr (bytes, _, r) ↦ absurd (ok-ne-err _ e r)
      ]

  objects_loop-err :
      (i j : ℕ) (specs : List (SpecObject Object)) (st : Packing) (e : PackError)
      → objects_loop x p i j specs st ≡ err e
      → (k : ℕ) × (o : Object) × (inline (get_elem? specs k) ≡ some o)
        × (encode x (i, j + k) o ≡ err e)
  unfolding objects_loop
  objects_loop-err i j [] st e h = absurd (ok-ne-err st e h)
  objects_loop-err i j (spec ∷ specs) st e h =
      elim (>>=-eq-err (pack_object x p (i, j) spec.object st) _ h) [
        | inl failed ↦
            let (o, q, r) = object_err (i, j) spec.object st e failed in
            (0, o, q, subst (λ (n : ℕ). encode x (i, n) o ≡ err e) (omega arith) r)
        | inr (next, _, r) ↦
            let (k, o, q, f) = objects_loop-err i (suc j) specs next e r in
            (suc k, o, q, subst (λ (n : ℕ). encode x (i, n) o ≡ err e) (omega arith) f)
      ]

  phases_loop-err :
      (i : ℕ) (phases : List (SpecPhase Object)) (st : Packing) (e : PackError)
      → phases_loop x p i phases st ≡ err e
      → (k : ℕ) × (j : ℕ) × (o : Object) × (object_at phases (k, j) ≡ some o)
        × (encode x (i + k, j) o ≡ err e)
  unfolding phases_loop
  phases_loop-err i [] st e h = absurd (ok-ne-err st e h)
  phases_loop-err i (phase ∷ phases) st e h =
      elim (>>=-eq-err (objects_loop x p i 0 phase.objects st) _ h) [
        | inl failed ↦
            let (j, o, q, f) = objects_loop-err i 0 phase.objects st e failed in
            (
              0,
              j,
              o,
              q,
              subst (λ (n : Position). encode x n o ≡ err e) (pair_eq (omega arith) (omega arith))
                  f,
            )
        | inr (next, _, r) ↦
            let (k, j, o, q, f) = phases_loop-err (suc i) phases next e r in
            (suc k, j, o, q, subst (λ (n : ℕ). encode x (n, j) o ≡ err e) (omega arith) f)
      ]

  pack_err :
      (phases : List (SpecPhase Object)) (e : PackError)
      → pack x p phases ≡ err e
      → (pos : Position) × (o : Object) × (object_at phases pos ≡ some o) × (encode x pos o ≡ err e)
  unfolding pack
  pack_err phases e h =
      elim (>>=-eq-err (phases_loop x p 0 phases empty_packing) (λ st. ok (close_packing x p st))
        h) [
          | inl failed ↦
              let (k, j, o, q, f) = phases_loop-err 0 phases empty_packing e failed in
              ((k, j), o, q, subst (λ (n : ℕ). encode x (n, j) o ≡ err e) (omega arith) f)
          | inr (st, _, r) ↦ absurd (ok-ne-err _ e r)
        ]

  -- What the two outcomes of Pack say of the inline objects.
  abbrev pub IsOutcome : List (SpecPhase Object) → Result PackError PackResult → Type 0
  IsOutcome phases (ok _) =
      (pos : Position) (o : Object)
      → object_at phases pos ≡ some o
      → (bytes : List ℕ) × (encode x pos o ≡ ok bytes)
  IsOutcome phases (err e) =
      (pos : Position) × (o : Object) × (object_at phases pos ≡ some o) × (encode x pos o ≡ err e)

  -- Pack returns secrets and refs only if all inline objects can be encoded within the limit, and
  -- otherwise the error of one that cannot.
  pub pack-IsOutcome : (phases : List (SpecPhase Object)) → IsOutcome phases (pack x p phases)
  pack-IsOutcome phases = elim (Result-cases (pack x p phases)) [
    | inl (result, r) ↦ rw r (λ pos o at.
        let (ref, l, stored) = pack-IsStored x p phases result pos o r at in
        let c = stored.found.content in
        let same : c.object ≡ o = some_injective (sym c.at ∙ at) in
        (stored.found.bytes, rw same at c.encoded))
    | inr (e, r) ↦ rw r (pack_err phases e r)
  ]
