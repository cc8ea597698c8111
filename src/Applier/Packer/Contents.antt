-- ===== src/Applier/Packer/Contents.antt =====
-- Which content the refs and the pending entries of the packing have.
use operator_controller.Prelude.{
  ℕ, String, ◌≡◌, refl, sym, ap, ◌∙◌, List, [], ◌∷◌, ◌++◌, none, some, ok, inl, inr, In,
  In-append_left, In-append_right, In-append_cases, Bool-cases, Option-cases, length, arith, ◌==◌,
  eq_iff, eq_refl,
}
use operator_controller.ObjectSet.{ObjectSourceRef}
use operator_controller.Applier.Packer.{
  EncodingApi, Position, Secret, SecretPacker, Packing, lookup, content_hash, encode, new_secret,
  finalize_current, make_room, add_data, store_content, pack_bytes,
}
use operator_controller.Applier.Packer.Refs.{if_holds, some-none, some_injective, back_fill-In}
use operator_controller.Applier.Packer.Invariant.{finished, finalize_cases, finalize-empty}

module _ (x : EncodingApi) (p : SecretPacker) (At : Position → x.Object → Type 0) where
  open x use {Object}

  -- the encoded object at a position
  pub record IsContentAt (pos : Position) (bytes : List ℕ) : Type 0 where
    pub object : Object
    pub at : At pos object
    pub encoded : encode x pos object ≡ ok bytes

  -- content found under a key is some object's, and the key is its hash
  pub record IsContent (key : String) (bytes : List ℕ) : Type 0 where
    pub position : Position
    pub content : IsContentAt position bytes
    pub hashed : content_hash x bytes ≡ key

  -- `entries` have content with the hash of what stands at `pos`
  pub record IsFound (entries : List (String × List ℕ)) (pos : Position) (key : String)
      : Type 0 where
    pub bytes : List ℕ
    pub content : IsContentAt pos bytes
    pub hashed : content_hash x bytes ≡ key
    pub stored : List ℕ
    pub stored_content : IsContent key stored
    pub found : lookup key entries ≡ some stored

  pub record IsStored (secrets : List Secret) (pos : Position) (ref : ObjectSourceRef)
      : Type 0 where
    pub secret : Secret
    pub created : In secret secrets
    pub named : ref.name ≡ secret.name
    pub placed : ref.namespace ≡ secret.namespace
    pub owned : secret.namespace ≡ p.system_namespace
    pub found : IsFound secret.contents pos ref.key

  pub record IsSound (st : Packing) : Type 0 where
    pub refs :
        (pos : Position) (ref : ObjectSourceRef)
        → In (pos, ref) st.refs
        → IsStored st.secrets pos ref
    pub pending :
        (pos : Position) (key : String)
        → In (pos, key) st.current_pending
        → IsFound st.current_data pos key
    pub contents :
        (key : String) (bytes : List ℕ)
        → lookup key st.current_data ≡ some bytes
        → IsContent key bytes

  IsStored-append :
      (secrets : List Secret) (s : Secret) (pos : Position) (ref : ObjectSourceRef)
      → IsStored secrets pos ref
      → IsStored (secrets ++ s ∷ []) pos ref
  IsStored-append secrets s pos ref h = record {
    secret = h.secret;
    created = In-append_left h.secret secrets _ h.created;
    named = h.named;
    placed = h.placed;
    owned = h.owned;
    found = h.found;
  }

  finished-IsSound : (st : Packing) → IsSound st → IsSound (finished x p st)
  unfolding new_secret
  finished-IsSound st sound = record {
    refs = λ pos ref m.
        elim (back_fill-In x p (new_secret x p st.current_data) pos ref st.current_pending st.refs
          m) [
            | inl old ↦ IsStored-append st.secrets _ pos ref (sound.refs pos ref old)
            | inr (key, i, e) ↦ rw e record {
              secret = new_secret x p st.current_data;
              created = In-append_right _ st.secrets _ (inl refl);
              named = refl;
              placed = refl;
              owned = refl;
              found = sound.pending pos key i;
            }
          ];
    pending = λ _ _ m. absurd m;
    contents = λ _ _ e. absurd (ground (arith, e));
  }

  pub finalize-IsSound : (st : Packing) → IsSound st → IsSound (finalize_current x p st)
  finalize-IsSound st sound = elim (finalize_cases x p st) [
    | inl (_, e) ↦ rw e sound
    | inr (h, e) ↦ rw e (finished-IsSound st sound)
  ]

  make_room-IsSound : (size : ℕ) (st : Packing) → IsSound st → IsSound (make_room x p size st)
  unfolding make_room
  make_room-IsSound size st sound = if_holds IsSound _ _ _ (finalize-IsSound st sound) sound

  -- Making room adds no content.
  make_room-none :
      (size : ℕ) (st : Packing) (key : String)
      → lookup key st.current_data ≡ none
      → lookup key (make_room x p size st).current_data ≡ none
  unfolding make_room
  make_room-none size st key h =
      if_holds (λ (s : Packing). lookup key s.current_data ≡ none) _ _ _
        (ap (lookup key) (finalize-empty x p st)) h

  lookup-new :
      (key k : String) (bytes stored : List ℕ) (entries : List (String × List ℕ))
      → lookup key entries ≡ none
      → lookup k entries ≡ some stored
      → lookup k ((key, bytes) ∷ entries) ≡ some stored
  lookup-new key k bytes stored entries h e = elim (Bool-cases (key == k)) [
    | inl t ↦
        absurd (
          some-none
            (sym e ∙ (ap (λ (z : String). lookup z entries) (sym ((eq_iff key k).0 t)) ∙ h)))
    | inr t ↦ rw t e
  ]

  add_data-IsSound :
      (key : String) (bytes : List ℕ) (st : Packing)
      → lookup key st.current_data ≡ none
      → IsContent key bytes
      → IsSound st
      → IsSound (add_data x p key bytes st)
  add_data-IsSound key bytes st h c sound = record {
    refs = sound.refs;
    pending = λ pos k m.
        let f = sound.pending pos k m in
        record {
          bytes = f.bytes;
          content = f.content;
          hashed = f.hashed;
          stored = f.stored;
          stored_content = f.stored_content;
          found = lookup-new key k bytes f.stored st.current_data h f.found;
        };
    contents = λ k b e. elim (Bool-cases (key == k)) [
      | inl t ↦ rw (some_injective (rw t at e)) at (rw ((eq_iff key k).0 t) at c)
      | inr t ↦ sound.contents k b (rw t at e)
    ];
  }

  -- What `store_content` leaves: the content of every key that was there, and of the key.
  store_content-IsSound :
      (pos : Position) (bytes : List ℕ) (st : Packing)
      → IsContentAt pos bytes
      → IsSound st
      → IsSound (store_content x p (content_hash x bytes) bytes st)
        × IsFound
            (store_content x p (content_hash x bytes) bytes st).current_data
            pos
            (content_hash x bytes)
  unfolding store_content
  store_content-IsSound pos bytes st c sound =
      let key = content_hash x bytes in
      let mine : IsContent key bytes = record { position = pos; content = c; hashed = refl } in
      elim (Option-cases (lookup key st.current_data)) [
        | inr (stored, e) ↦ rw e (
          sound,
          record {
            bytes = bytes;
            content = c;
            hashed = refl;
            stored = stored;
            stored_content = sound.contents key stored e;
            found = e;
          },
        )
        | inl e ↦ rw e (
          add_data-IsSound key bytes _ (make_room-none (length bytes) st key e) mine
              (make_room-IsSound (length bytes) st sound),
          record {
            bytes = bytes;
            content = c;
            hashed = refl;
            stored = bytes;
            stored_content = mine;
            found = rw (eq_refl key) refl;
          },
        )
      ]

  pub pack_bytes-IsSound :
      (pos : Position) (bytes : List ℕ) (st : Packing)
      → IsContentAt pos bytes
      → IsSound st
      → IsSound (pack_bytes x p pos bytes st)
  unfolding pack_bytes
  pack_bytes-IsSound pos bytes st c sound =
      let (after, mine) = store_content-IsSound pos bytes st c sound in
      record {
        refs = after.refs;
        contents = after.contents;
        pending = λ q k m.
            elim (In-append_cases (q, k)
              (store_content x p (content_hash x bytes) bytes st).current_pending _ m) [
                | inl old ↦ after.pending q k old
                | inr (inl e) ↦
                    rw (ap (λ (z : Position × String). z.0) e)
                      (rw (ap (λ (z : Position × String). z.1) e) mine)
                | inr (inr gone) ↦ absurd gone
              ];
      }
