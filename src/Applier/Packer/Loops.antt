-- ===== src/Applier/Packer/Loops.antt =====
-- The loops of Pack: what they return, and their errors.
use operator_controller.Prelude.{
  ℕ, zero, suc, ◌+◌, ◌≤◌, ◌≡◌, refl, sym, ap, ◌∙◌, subst, List, [], ◌∷◌, Option, none, some, ok,
  inl, inr, Bool-cases, length, arith, ltb, >>=-eq-ok, ok_injective, ok-ne-err,
}
use operator_controller.ObjectSet.{SpecObject, SpecPhase}
use operator_controller.Applier.Packer.{
  EncodingApi, Position, SecretPacker, Packing, max_secret_data_size, gzip_threshold, encode,
  pack_bytes, pack_object, objects_loop, phases_loop, exceeds_maximum, within_maximum,
  of_compressed, of_marshalled,
}
use operator_controller.Applier.Packer.Refs.{some-none}
use operator_controller.Applier.Packer.Invariant.{IsFitting, pack_bytes-IsFitting}
use operator_controller.Applier.Packer.Contents.{IsSound, pack_bytes-IsSound}
use operator_controller.Applier.Packer.Covered.{IsCovered, pack_bytes-IsCovered, pack_bytes-covers}

-- the element at an index
abbrev pub get_elem? : {A : Type 0} → List A → ℕ → Option A
get_elem? [] k = none
get_elem? (a ∷ as') zero = some a
get_elem? (a ∷ as') (suc k) = get_elem? as' k

module _ {O : Type 0} where
  abbrev pub inline : Option (SpecObject O) → Option O
  inline none = none
  inline (some spec) = spec.object

  abbrev pub inline_in : Option (SpecPhase O) → ℕ → Option O
  inline_in none j = none
  inline_in (some phase) j = inline (get_elem? phase.objects j)

  -- the inline object at a phase index and an object index
  abbrev pub object_at : List (SpecPhase O) → Position → Option O
  object_at phases pos = inline_in (get_elem? phases pos.0) pos.1

pub pair_eq : {i j k l : ℕ} → i ≡ k → j ≡ l → ◌≡◌ {A = Position} (i, j) (k, l)
pair_eq e f = λ n. (e n, f n)

index_cases : (P : ℕ → Type 0) → P 0 → ((k : ℕ) → P (suc k)) → (k : ℕ) → P k
index_cases P z s zero = z
index_cases P z s (suc k) = s k

module _ (x : EncodingApi) where
  open x use {Object}

  within-max :
      (pos : Position) (b bytes : List ℕ)
      → within_maximum x pos b ≡ ok bytes
      → length bytes ≤ max_secret_data_size
  within-max pos b bytes h = elim (Bool-cases (ltb max_secret_data_size (length b))) [
    | inl e ↦ absurd (ok-ne-err bytes (exceeds_maximum pos) (sym (rw e at h)))
    | inr e ↦ rw (← ok_injective (rw e at h)) (ground arith)
  ]

  compressed-max :
      (pos : Position) (c : Option (List ℕ)) (bytes : List ℕ)
      → of_compressed x pos c ≡ ok bytes
      → length bytes ≤ max_secret_data_size
  compressed-max pos none bytes h = absurd (ok-ne-err bytes _ (sym h))
  compressed-max pos (some b) bytes h = within-max pos b bytes h

  marshalled-max :
      (pos : Position) (m : Option (List ℕ)) (bytes : List ℕ)
      → of_marshalled x pos m ≡ ok bytes
      → length bytes ≤ max_secret_data_size
  marshalled-max pos none bytes h = absurd (ok-ne-err bytes _ (sym h))
  marshalled-max pos (some b) bytes h = elim (Bool-cases (ltb gzip_threshold (length b))) [
    | inl e ↦ compressed-max pos (x.gzip_data b) bytes (rw e at h)
    | inr e ↦ rw (← ok_injective (rw e at h)) (ground arith)
  ]

  encode-max :
      (pos : Position) (o : Object) (bytes : List ℕ)
      → encode x pos o ≡ ok bytes
      → length bytes ≤ max_secret_data_size
  unfolding encode
  encode-max pos o bytes h = marshalled-max pos (x.marshal o) bytes h

  module _ (p : SecretPacker) (At : Position → Object → Type 0) where
    -- from `st` to `next`, where the objects of `New` have been packed
    pub record IsStep (st next : Packing) (New : Position → Type 0) : Type 0 where
      pub fitting : IsFitting next
      pub sound : IsSound x p At next
      pub kept : (q : Position) → IsCovered x p st q → IsCovered x p next q
      pub new : (q : Position) → New q → IsCovered x p next q

    abbrev pub IsAt : Option Object → Position → Type 0
    IsAt obj q = (o : Object) → obj ≡ some o → At q o

    object-IsStep :
        (pos : Position) (obj : Option Object) (st next : Packing)
        → IsAt obj pos
        → pack_object x p pos obj st ≡ ok next
        → IsFitting st
        → IsSound x p At st
        → IsStep st next (λ q. (q ≡ pos) × ((o : Object) × (obj ≡ some o)))
    object-IsStep pos none st next h e fit sound =
        let same = ok_injective e in
        rw (← same) record {
          fitting = fit;
          sound = sound;
          kept = λ _ c. c;
          new = λ _ n. absurd (some-none (sym n.1.1));
        }
    object-IsStep pos (some o) st next h e fit sound =
        let (bytes, enc, q) =
          >>=-eq-ok (encode x pos o) (λ bytes. ok (pack_bytes x p pos bytes st)) e in
        let same = ok_injective q in
        rw (← same) record {
          fitting = pack_bytes-IsFitting x p pos bytes st (encode-max pos o bytes enc) fit;
          sound =
              pack_bytes-IsSound x p At pos bytes st
                record { object = o; at = h o refl; encoded = enc } sound;
          kept = λ r c. pack_bytes-IsCovered x p pos r bytes st c;
          new = λ r n. rw n.0 (pack_bytes-covers x p pos bytes st);
        }

    objects_loop-IsStep :
        (i j : ℕ) (specs : List (SpecObject Object)) (st next : Packing)
        → ((k : ℕ) → IsAt (inline (get_elem? specs k)) (i, j + k))
        → objects_loop x p i j specs st ≡ ok next
        → IsFitting st
        → IsSound x p At st
        → IsStep st next (λ q.
          (k : ℕ) × (q ≡ (i, j + k)) × ((o : Object) × (inline (get_elem? specs k) ≡ some o)))
    unfolding objects_loop
    objects_loop-IsStep i j [] st next h e fit sound =
        let same = ok_injective e in
        rw (← same) record {
          fitting = fit;
          sound = sound;
          kept = λ _ c. c;
          new = λ _ (_, _, n). absurd (some-none (sym n.1));
        }
    objects_loop-IsStep i j (spec ∷ specs) st next h e fit sound =
        let (mid, first, rest) = >>=-eq-ok (pack_object x p (i, j) spec.object st) _ e in
        let here =
          object-IsStep (i, j) spec.object st mid
            (λ o r. subst (λ (n : ℕ). At (i, n) o) (omega arith) (h 0 o r)) first fit sound in
        let there =
          objects_loop-IsStep i (suc j) specs mid next
            (λ k o r. subst (λ (n : ℕ). At (i, n) o) (omega arith) (h (suc k) o r)) rest
            here.fitting here.sound in
        record {
          fitting = there.fitting;
          sound = there.sound;
          kept = λ q c. there.kept q (here.kept q c);
          new = λ q (k, at, n).
              index_cases
                (λ (k : ℕ).
                  q ≡ (i, j + k)
                  → (o : Object) → inline (get_elem? (spec ∷ specs) k) ≡ some o
                  → IsCovered x p next q)
                (λ at o r.
                  there.kept q (here.new q (at ∙ ap (λ (m : ℕ). (i, m)) (omega arith), (o, r))))
                (λ k at o r. there.new q (k, at ∙ ap (λ (m : ℕ). (i, m)) (omega arith), (o, r))) k
                at n.0 n.1;
        }

    pub phases_loop-IsStep :
        (i : ℕ) (phases : List (SpecPhase Object)) (st next : Packing)
        → ((k j : ℕ) → IsAt (object_at phases (k, j)) (i + k, j))
        → phases_loop x p i phases st ≡ ok next
        → IsFitting st
        → IsSound x p At st
        → IsStep st next (λ q.
          (k : ℕ) × (j : ℕ) × (q ≡ (i + k, j))
          × ((o : Object) × (object_at phases (k, j) ≡ some o)))
    unfolding phases_loop
    phases_loop-IsStep i [] st next h e fit sound =
        let same = ok_injective e in
        rw (← same) record {
          fitting = fit;
          sound = sound;
          kept = λ _ c. c;
          new = λ _ (_, _, _, n). absurd (some-none (sym n.1));
        }
    phases_loop-IsStep i (phase ∷ phases) st next h e fit sound =
        let (mid, first, rest) = >>=-eq-ok (objects_loop x p i 0 phase.objects st) _ e in
        let here =
          objects_loop-IsStep i 0 phase.objects st mid
            (λ k o r.
              subst (λ (n : Position). At n o) (pair_eq (omega arith) (omega arith)) (h 0 k o r))
            first fit sound in
        let there =
          phases_loop-IsStep (suc i) phases mid next
            (λ k j o r. subst (λ (n : ℕ). At (n, j) o) (omega arith) (h (suc k) j o r)) rest
            here.fitting here.sound in
        record {
          fitting = there.fitting;
          sound = there.sound;
          kept = λ q c. there.kept q (here.kept q c);
          new = λ q (k, j, at, n).
              index_cases
                (λ (k : ℕ).
                  q ≡ (i + k, j)
                  → (o : Object) → object_at (phase ∷ phases) (k, j) ≡ some o
                  → IsCovered x p next q)
                (λ at o r.
                  there.kept q (here.new q (j, at ∙ pair_eq (omega arith) (omega arith), (o, r))))
                (λ k at o r. there.new q (k, j, at ∙ ap (λ (m : ℕ). (m, j)) (omega arith), (o, r)))
                k at n.0 n.1;
        }
