-- ===== src/Applier/Packer/Refs.antt =====
-- The refs that finalizing the current secret fills in.
use operator_controller.Prelude.{
  String, ◌≡◌, ap, List, [], ◌∷◌, none, some, Bool, true, false, inl, inr, ◌⊎◌, In, if◌then◌else◌,
}
use operator_controller.ObjectSet.{ObjectSourceRef}
use operator_controller.Applier.Packer.{EncodingApi, Position, Secret, SecretPacker, back_fill}
use operator_controller.Applier.Packer.Invariant.{with_ref}

pub if_holds :
    {A : Type 0} (P : A → Type 0) (b : Bool) (yes_part no_part : A)
    → P yes_part
    → P no_part
    → P (if b then yes_part else no_part)
if_holds P true yes_part no_part h k = h
if_holds P false yes_part no_part h k = k

pub some-none : {A : Type 0} {a : A} → some a ≡ none → ⊥
some-none h = cc

pub some_injective : {A : Type 0} {a b : A} → some a ≡ some b → a ≡ b
some_injective h = cc

module _ (x : EncodingApi) (p : SecretPacker) where
  pub back_fill-In :
      (s : Secret) (pos : Position) (ref : ObjectSourceRef) (pending : List (Position × String))
      (refs : List (Position × ObjectSourceRef))
      → In (pos, ref) (back_fill x p s pending refs)
      → In (pos, ref) refs ⊎ ((key : String) × In (pos, key) pending × (ref ≡ with_ref p s key))
  unfolding back_fill
  back_fill-In s pos ref [] refs m = inl m
  back_fill-In s pos ref ((q, key) ∷ pending) refs m = elim (back_fill-In s pos ref pending _ m) [
    | inl (inl e) ↦ inr (
      key,
      inl (ap (λ (z : Position × ObjectSourceRef). (z.0, key)) e),
      ap (λ (z : Position × ObjectSourceRef). z.1) e,
    )
    | inl (inr old) ↦ inl old
    | inr (k, i, e) ↦ inr (k, inr i, e)
  ]

  -- Every pending entry gets a ref, and no ref is lost.
  pub back_fill-In_old :
      (s : Secret) (r : Position × ObjectSourceRef) (pending : List (Position × String))
      (refs : List (Position × ObjectSourceRef))
      → In r refs
      → In r (back_fill x p s pending refs)
  unfolding back_fill
  back_fill-In_old s r [] refs m = m
  back_fill-In_old s r ((q, key) ∷ pending) refs m = back_fill-In_old s r pending _ (inr m)

  pub back_fill-In_new :
      (s : Secret) (pos : Position) (key : String) (pending : List (Position × String))
      (refs : List (Position × ObjectSourceRef))
      → In (pos, key) pending
      → In (pos, with_ref p s key) (back_fill x p s pending refs)
  unfolding back_fill
  back_fill-In_new s pos key [] refs m = absurd m
  back_fill-In_new s pos key ((q, k) ∷ pending) refs (inl e) =
      back_fill-In_old s _ pending _
        (inl (ap (λ (z : Position × String). (z.0, with_ref p s z.1)) e))
  back_fill-In_new s pos key ((q, k) ∷ pending) refs (inr m) =
      back_fill-In_new s pos key pending _ m
