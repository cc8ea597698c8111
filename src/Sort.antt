-- ===== src/Sort.antt =====
-- `slices.SortStableFunc`, as a stable insertion sort: for a consistent comparison function the
-- stable sorted order is unique, so any stable algorithm gives this list.
use operator_controller.Prelude.{
  ◌≡◌, ◌≢◌, Ordering, gt, List, [], ◌∷◌, ◌⊎◌, inl, inr, arith, In, sym, subst,
}
use operator_controller.Order.{IsPreorder}

module _ {A : Type 0} (cmp : A → A → Ordering) where
  -- `x` stood before all of the list, so it stays before what is equal to it.
  abbrev insert_by : Ordering → A → A → List A → List A → List A
  insert_by gt x y ys rest = y ∷ rest
  insert_by _ x y ys rest = x ∷ y ∷ ys

  insert : A → List A → List A
  insert x [] = x ∷ []
  insert x (y ∷ ys) = let rest = insert x ys in insert_by (cmp x y) x y ys rest

  unfoldable pub sort_stable : List A → List A
  unfolding insert
  sort_stable [] = []
  sort_stable (x ∷ xs) = insert x (sort_stable xs)

  In-insert : (a x : A) (ys : List A) → In a (insert x ys) → (a ≡ x) ⊎ In a ys
  unfolding insert
  In-insert a x [] h = h
  In-insert a x (y ∷ ys) h = ground (arith, In-insert a x ys)

  In-insert_of : (a x : A) (ys : List A) → (a ≡ x) ⊎ In a ys → In a (insert x ys)
  unfolding insert
  In-insert_of a x [] h = h
  In-insert_of a x (y ∷ ys) h = ground (arith, In-insert_of a x ys)

  -- Sorting neither adds nor loses an element.
  pub In-sort_stable : (a : A) (xs : List A) → In a (sort_stable xs) → In a xs
  unfolding sort_stable
  In-sort_stable a [] h = h
  In-sort_stable a (x ∷ xs) h = elim (In-insert a x (sort_stable xs) h) [
    | inl e ↦ inl e
    | inr m ↦ inr (In-sort_stable a xs m)
  ]

  pub In-sort_stable_of : (a : A) (xs : List A) → In a xs → In a (sort_stable xs)
  unfolding sort_stable
  In-sort_stable_of a [] h = h
  In-sort_stable_of a (x ∷ xs) (inl e) = In-insert_of a x (sort_stable xs) (inl e)
  In-sort_stable_of a (x ∷ xs) (inr m) =
      In-insert_of a x (sort_stable xs) (inr (In-sort_stable_of a xs m))

  -- `x` comes before every element of the list.
  abbrev pub Below : A → List A → Type 0
  Below x [] = Unit
  Below x (y ∷ ys) = (cmp x y ≢ gt) × Below x ys

  abbrev pub IsSorted : List A → Type 0
  IsSorted [] = Unit
  IsSorted (x ∷ xs) = Below x xs × IsSorted xs

  pub Below-In : (x a : A) (ys : List A) → Below x ys → In a ys → cmp x a ≢ gt
  Below-In x a [] h m = absurd m
  Below-In x a (y ∷ ys) h (inl e) = subst (λ z. cmp x z ≢ gt) (sym e) h.0
  Below-In x a (y ∷ ys) h (inr m) = Below-In x a ys h.1 m

  Below-insert : (b x : A) (ys : List A) → cmp b x ≢ gt → Below b ys → Below b (insert x ys)
  unfolding insert
  Below-insert b x [] h k = (h, tt)
  Below-insert b x (y ∷ ys) h k = ground (arith, Below-insert b x ys)

  module _ (p : IsPreorder cmp) where
    Below-trans : (x y : A) (ys : List A) → cmp x y ≢ gt → Below y ys → Below x ys
    Below-trans x y [] h k = tt
    Below-trans x y (z ∷ ys) h k = (p.trans x y z h k.0, Below-trans x y ys h k.1)

    insert-IsSorted : (x : A) (ys : List A) → IsSorted ys → IsSorted (insert x ys)
    unfolding insert
    insert-IsSorted x [] h = (tt, tt)
    insert-IsSorted x (y ∷ ys) h =
        ground (arith, p.flip x y, insert-IsSorted x ys, Below-insert y x ys, Below-trans x y ys)

    pub sort_stable-IsSorted : (xs : List A) → IsSorted (sort_stable xs)
    unfolding sort_stable
    sort_stable-IsSorted [] = tt
    sort_stable-IsSorted (x ∷ xs) = insert-IsSorted x (sort_stable xs) (sort_stable-IsSorted xs)
