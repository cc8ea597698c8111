-- ===== src/Applier/Packer/Covered.antt =====
-- No object is lost on the way: each has a ref or waits for one.
use operator_controller.Prelude.{
  ℕ, String, refl, sym, ap, ◌∙◌, List, [], ◌∷◌, inl, inr, ◌⊎◌, In, In-append_left, In-append_right,
  length,
}
use operator_controller.ObjectSet.{ObjectSourceRef}
use operator_controller.Applier.Packer.{
  EncodingApi, Position, SecretPacker, Packing, lookup, content_hash, new_secret, finalize_current,
  make_room, store_content, pack_bytes,
}
use operator_controller.Applier.Packer.Refs.{
  if_holds, some-none, back_fill-In_old, back_fill-In_new,
}
use operator_controller.Applier.Packer.Contents.{IsSound}
use operator_controller.Applier.Packer.Invariant.{finalize_cases, with_ref}

module _ (x : EncodingApi) (p : SecretPacker) where
  -- `pos` has a ref, or waits for one.
  abbrev pub IsCovered : Packing → Position → Type 0
  IsCovered st pos =
      ((ref : ObjectSourceRef) × In (pos, ref) st.refs)
      ⊎ ((key : String) × In (pos, key) st.current_pending)

  finalize-IsCovered :
      (st : Packing) (pos : Position) → IsCovered st pos → IsCovered (finalize_current x p st) pos
  finalize-IsCovered st pos h = elim (finalize_cases x p st) [
    | inl (_, e) ↦ rw e h
    | inr (_, e) ↦ rw e (
        inl (elim h [
          | inl (ref, i) ↦ (ref, back_fill-In_old x p _ (pos, ref) st.current_pending st.refs i)
          | inr (key, i) ↦ (
            with_ref p (new_secret x p st.current_data) key,
            back_fill-In_new x p (new_secret x p st.current_data) pos key st.current_pending st.refs
                i,
          )
        ]))
  ]

  make_room-IsCovered :
      (size : ℕ) (st : Packing) (pos : Position)
      → IsCovered st pos
      → IsCovered (make_room x p size st) pos
  unfolding make_room
  make_room-IsCovered size st pos h =
      if_holds (λ (s : Packing). IsCovered s pos) _ _ _ (finalize-IsCovered st pos h) h

  store_content-IsCovered :
      (key : String) (bytes : List ℕ) (st : Packing) (pos : Position)
      → IsCovered st pos
      → IsCovered (store_content x p key bytes st) pos
  unfolding store_content
  store_content-IsCovered key bytes st pos h =
      if_holds (λ (s : Packing). IsCovered s pos) _ _ _ h
        (make_room-IsCovered (length bytes) st pos h)

  pub pack_bytes-IsCovered :
      (pos q : Position) (bytes : List ℕ) (st : Packing)
      → IsCovered st q
      → IsCovered (pack_bytes x p pos bytes st) q
  unfolding pack_bytes
  pack_bytes-IsCovered pos q bytes st h =
      elim (store_content-IsCovered (content_hash x bytes) bytes st q h) [
        | inl l ↦ inl l
        | inr (key, i) ↦ inr (key, In-append_left _ _ _ i)
      ]

  pub pack_bytes-covers :
      (pos : Position) (bytes : List ℕ) (st : Packing) → IsCovered (pack_bytes x p pos bytes st) pos
  unfolding pack_bytes
  pack_bytes-covers pos bytes st =
      let key = content_hash x bytes in
      inr (
        key,
        In-append_right (pos, key) (store_content x p key bytes st).current_pending
            ((pos, key) ∷ []) (inl refl),
      )

  -- In the end whatever waited has its ref.
  pub finalize-refs :
      (At : Position → x.Object → Type 0) (st : Packing) (pos : Position)
      → IsSound x p At st
      → IsCovered st pos
      → (ref : ObjectSourceRef) × In (pos, ref) (finalize_current x p st).refs
  finalize-refs At st pos sound (inl (ref, i)) = elim (finalize_cases x p st) [
    | inl (_, e) ↦ rw e (ref, i)
    | inr (_, e) ↦ rw e (ref, back_fill-In_old x p _ (pos, ref) st.current_pending st.refs i)
  ]
  finalize-refs At st pos sound (inr (key, i)) = elim (finalize_cases x p st) [
    | inl (d, _) ↦
        let f = sound.pending pos key i in absurd (some-none (sym f.found ∙ ap (lookup key) d))
    | inr (_, e) ↦ rw e (
      with_ref p (new_secret x p st.current_data) key,
      back_fill-In_new x p (new_secret x p st.current_data) pos key st.current_pending st.refs i,
    )
  ]
