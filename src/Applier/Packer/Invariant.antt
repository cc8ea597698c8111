-- ===== src/Applier/Packer/Invariant.antt =====
-- What holds of the packing at every point of the loops: how large the secrets are, and which
-- content the refs and the pending entries have.
use operator_controller.Prelude.{
  ℕ, ◌+◌, ◌≤◌, String, ◌≡◌, ◌≢◌, refl, ap, ◌∙◌, List, [], ◌∷◌, ◌++◌, true, false, inl, inr, ◌⊎◌, In,
  In-append_cases, Bool-cases, Option-cases, length, arith, ltb, nat_eq,
}
use operator_controller.ObjectSet.{ObjectSourceRef}
use operator_controller.Applier.Packer.{
  EncodingApi, Position, Secret, SecretPacker, Packing, max_secret_data_size, lookup, content_hash,
  new_secret, back_fill, finalize_current, make_room, store_content, pack_bytes,
}

-- the size of the contents of a secret
abbrev pub total : List (String × List ℕ) → ℕ
total [] = 0
total ((_, bytes) ∷ rest) = length bytes + total rest

abbrev pub Fits : Secret → Type 0
Fits s = (total s.contents ≤ max_secret_data_size) × (s.contents ≢ [])

pub record IsFitting (st : Packing) : Type 0 where
  pub secrets : (s : Secret) → In s st.secrets → Fits s
  pub counted : st.current_size ≡ total st.current_data
  pub small : st.current_size ≤ max_secret_data_size

abbrev pub with_ref : SecretPacker → Secret → String → ObjectSourceRef
with_ref p secret key = record { name = secret.name; namespace = p.system_namespace; key = key }

empty_of_length : {A : Type 0} (xs : List A) → nat_eq (length xs) 0 ≡ true → xs ≡ []
empty_of_length [] h = refl
empty_of_length (a ∷ xs) h = absurd (ground arith)

nonempty_of_length : {A : Type 0} (xs : List A) → nat_eq (length xs) 0 ≡ false → xs ≢ []
nonempty_of_length xs h e = absurd (ground (arith, rw e at h))

module _ (x : EncodingApi) (p : SecretPacker) where
  -- `finalizeCurrent` where there is content
  abbrev pub finished : Packing → Packing
  finished st = record {
    secrets = st.secrets ++ new_secret x p st.current_data ∷ [];
    refs = back_fill x p (new_secret x p st.current_data) st.current_pending st.refs;
    current_data = [];
    current_size = 0;
    current_pending = [];
  }

  pub finalize_cases :
      (st : Packing)
      → ((st.current_data ≡ []) × (finalize_current x p st ≡ st))
        ⊎ ((st.current_data ≢ []) × (finalize_current x p st ≡ finished st))
  unfolding finalize_current
  finalize_cases st = elim (Bool-cases (nat_eq (length st.current_data) 0)) [
    | inl e ↦ inl (empty_of_length st.current_data e, rw e refl)
    | inr e ↦ inr (nonempty_of_length st.current_data e, rw e refl)
  ]

  finished-IsFitting :
      (st : Packing) → st.current_data ≢ [] → IsFitting st → IsFitting (finished st)
  unfolding new_secret
  finished-IsFitting st h fit = record {
    secrets = λ s m. elim (In-append_cases s st.secrets _ m) [
      | inl old ↦ fit.secrets s old
      | inr (inl e) ↦
          let small = fit.small in let counted = fit.counted in rw e (rw (← counted) small, h)
      | inr (inr gone) ↦ absurd gone
    ];
    counted = refl;
    small = ground arith;
  }

  pub finalize-IsFitting : (st : Packing) → IsFitting st → IsFitting (finalize_current x p st)
  finalize-IsFitting st fit = elim (finalize_cases st) [
    | inl (_, e) ↦ rw e fit
    | inr (h, e) ↦ rw e (finished-IsFitting st h fit)
  ]

  -- After `finalizeCurrent` the current secret is empty.
  pub finalize-empty : (st : Packing) → (finalize_current x p st).current_data ≡ []
  finalize-empty st = elim (finalize_cases st) [ inl (d, e) ↦ rw e d | inr (_, e) ↦ rw e refl ]

  finalize-size : (st : Packing) → IsFitting st → (finalize_current x p st).current_size ≡ 0
  finalize-size st fit =
      let counted = (finalize-IsFitting st fit).counted in
      let e = finalize-empty st in counted ∙ ap total e

  no_content :
      (st : Packing) (size : ℕ)
      → size ≤ max_secret_data_size
      → IsFitting st
      → st.current_data ≡ []
      → st.current_size + size ≤ max_secret_data_size
  no_content st size h fit e = let counted = fit.counted in rw (counted ∙ ap total e) (omega arith)

  -- Room is made where the content would not fit.
  make_room-fits :
      (size : ℕ) (st : Packing)
      → size ≤ max_secret_data_size
      → IsFitting st
      → IsFitting (make_room x p size st)
        × ((make_room x p size st).current_size + size ≤ max_secret_data_size)
  unfolding make_room
  make_room-fits size st h fit =
      let small = fit.small in
      elim (Bool-cases (ltb max_secret_data_size (st.current_size + size))) [
        | inr e ↦ rw e (fit, ground arith)
        | inl e ↦ elim (Bool-cases (nat_eq (length st.current_data) 0)) [
          | inl z ↦ rw e (rw z (fit, no_content st size h fit (empty_of_length st.current_data z)))
          | inr z ↦ rw e (rw z (finalize-IsFitting st fit, rw (finalize-size st fit) (omega arith)))
        ]
      ]

  store_content-IsFitting :
      (key : String) (bytes : List ℕ) (st : Packing)
      → length bytes ≤ max_secret_data_size
      → IsFitting st
      → IsFitting (store_content x p key bytes st)
  unfolding store_content
  store_content-IsFitting key bytes st h fit = elim (Option-cases (lookup key st.current_data)) [
    | inr (_, e) ↦ rw e fit
    | inl e ↦
        let (room, fits) = make_room-fits (length bytes) st h fit in
        let counted = room.counted in
        rw e record { secrets = room.secrets; counted = omega (arith, counted); small = fits }
  ]

  pub pack_bytes-IsFitting :
      (pos : Position) (bytes : List ℕ) (st : Packing)
      → length bytes ≤ max_secret_data_size
      → IsFitting st
      → IsFitting (pack_bytes x p pos bytes st)
  unfolding pack_bytes
  pack_bytes-IsFitting pos bytes st h fit =
      let after = store_content-IsFitting (content_hash x bytes) bytes st h fit in
      record { secrets = after.secrets; counted = after.counted; small = after.small }
