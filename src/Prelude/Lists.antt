-- ===== src/Prelude/Lists.antt =====
-- Lists over native numbers, membership and pointwise predicates by recursion.
use Prim.Native.Nat.{ℕ, zero, suc, ◌+◌, ◌≤◌}
use mathlib.Core.Path.{◌≡◌, refl, ap}
use mathlib.Core.Logic.{◌⊎◌, inl, inr}
use mathlib.Core.Bool.{Bool, true, false, ◌&&◌, ◌||◌}
use mathlib.Core.List.{List, [], ◌∷◌, ◌++◌}
use text.Mathlib.Text.{◌==◌}
use text.Mathlib.TextEquality.{eq_iff}
use Prim.Native.String.{String}
use native.Mathlib.Omega.{arith}
use operator_controller.Prelude.Tests.{Bool-cases}

module _ {ℓ} {A : Type ℓ} where
  abbrev pub length : List A → ℕ
  length [] = 0
  length (x ∷ xs) = suc (length xs)

  pub length-append : (xs ys : List A) → length (xs ++ ys) ≡ length xs + length ys
  length-append [] ys = omega arith
  length-append (x ∷ xs) ys = omega (arith, length-append xs ys)

  abbrev pub any_of : (A → Bool) → List A → Bool
  any_of p [] = false
  any_of p (x ∷ xs) = p x || any_of p xs

  abbrev pub all_of : (A → Bool) → List A → Bool
  all_of p [] = true
  all_of p (x ∷ xs) = p x && all_of p xs

  pub any_of-append :
      (p : A → Bool) (xs ys : List A) → any_of p (xs ++ ys) ≡ (any_of p xs || any_of p ys)
  any_of-append p [] ys = refl
  any_of-append p (x ∷ xs) ys = ground (arith, any_of-append p xs ys)

module _ {A : Type 0} where
  -- `x` stands in the list.
  abbrev pub In : A → List A → Type 0
  In x [] = ⊥
  In x (y ∷ ys) = (x ≡ y) ⊎ In x ys

  pub In-append_left : (x : A) (xs ys : List A) → In x xs → In x (xs ++ ys)
  In-append_left x [] ys h = absurd h
  In-append_left x (a ∷ xs) ys (inl e) = inl e
  In-append_left x (a ∷ xs) ys (inr h) = inr (In-append_left x xs ys h)

  pub In-append_right : (x : A) (xs ys : List A) → In x ys → In x (xs ++ ys)
  In-append_right x [] ys h = h
  In-append_right x (a ∷ xs) ys h = inr (In-append_right x xs ys h)

  pub In-append_cases : (x : A) (xs ys : List A) → In x (xs ++ ys) → In x xs ⊎ In x ys
  In-append_cases x [] ys h = inr h
  In-append_cases x (a ∷ xs) ys (inl e) = inl (inl e)
  In-append_cases x (a ∷ xs) ys (inr h) = elim (In-append_cases x xs ys h) [
    | inl l ↦ inl (inr l)
    | inr r ↦ inr r
  ]

  -- A test that some element passes has such an element, and one that all pass speaks of each.
  pub any_of-In :
      (p : A → Bool) (xs : List A) → any_of p xs ≡ true → (x : A) × In x xs × (p x ≡ true)
  any_of-In p [] h = absurd (ground arith)
  any_of-In p (x ∷ xs) h = elim (Bool-cases (p x)) [
    | inl e ↦ (x, inl refl, e)
    | inr e ↦ let (y, m, r) = any_of-In p xs (rw e at h) in (y, inr m, r)
  ]

  pub any_of_of-In :
      (p : A → Bool) (x : A) (xs : List A) → In x xs → p x ≡ true → any_of p xs ≡ true
  any_of_of-In p x [] m h = absurd m
  any_of_of-In p x (y ∷ ys) (inl e) h = rw (← e) (rw h refl)
  any_of_of-In p x (y ∷ ys) (inr m) h = ground (arith, any_of_of-In p x ys m h)

  pub all_of-In : (p : A → Bool) (xs : List A) (x : A) → all_of p xs ≡ true → In x xs → p x ≡ true
  all_of-In p [] x h m = absurd m
  all_of-In p (y ∷ ys) x h (inl e) = rw e (ground arith)
  all_of-In p (y ∷ ys) x h (inr m) = all_of-In p ys x (ground arith) m

-- the first elements of a list
abbrev pub take : {A : Type 0} → ℕ → List A → List A
take zero xs = []
take (suc n) [] = []
take (suc n) (x ∷ xs) = x ∷ take n xs

pub take_all : {A : Type 0} (n : ℕ) (xs : List A) → length xs ≤ n → take n xs ≡ xs
take_all zero [] h = refl
take_all zero (a ∷ xs) h = absurd (ground arith)
take_all (suc n) [] h = refl
take_all (suc n) (a ∷ xs) h = ap (λ ys. a ∷ ys) (take_all n xs (omega arith))

pub length-take : {A : Type 0} (n : ℕ) (xs : List A) → n ≤ length xs → length (take n xs) ≡ n
length-take zero xs h = refl
length-take (suc n) [] h = absurd (omega arith)
length-take (suc n) (a ∷ xs) h = let e = length-take n xs (omega arith) in omega (arith, e)

-- A set of strings, as the list of its members.
abbrev pub contains : String → List String → Bool
contains x xs = any_of (λ y. x == y) xs

pub contains-In : (x : String) (xs : List String) → contains x xs ≡ true → In x xs
contains-In x [] h = absurd (ground arith)
contains-In x (y ∷ ys) h = elim (Bool-cases (x == y)) [
  | inl e ↦ inl ((eq_iff x y).0 e)
  | inr e ↦ inr (contains-In x ys (rw e at h))
]
