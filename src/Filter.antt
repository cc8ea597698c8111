-- ===== src/Filter.antt =====
-- internal/shared/util/filter/filter.go: predicates over catalog entries, and filtering by them.
use operator_controller.Prelude.{
  ◌≡◌, refl, Bool, true, false, not, ◌↔◌, List, [], ◌∷◌, ◌++◌, ◌&&◌, arith, In, any_of, inl, inr,
  if◌then◌else◌, Bool-cases, ◌∙◌, any_of-append,
}

module _ {A : Type 0} where
  -- a variadic loop that returns at the first predicate that fails
  unfoldable pub conj : List (A → Bool) → A → Bool
  conj [] obj = true
  conj (predicate ∷ rest) obj = if not (predicate obj) then false else conj rest obj

  unfoldable pub disj : List (A → Bool) → A → Bool
  disj [] obj = false
  disj (predicate ∷ rest) obj = if predicate obj then true else disj rest obj

  unfoldable pub negate : (A → Bool) → A → Bool
  negate predicate obj = not (predicate obj)

  -- `Filter`: the loop appends to `out`
  filter_loop : (A → Bool) → List A → List A → List A
  filter_loop test [] out = out
  filter_loop test (x ∷ xs) out = filter_loop test xs (if test x then out ++ x ∷ [] else out)

  unfoldable pub filter : List A → (A → Bool) → List A
  unfolding filter_loop
  filter s test = filter_loop test s []

  -- `slices.DeleteFunc`: the elements that stay, in order
  unfoldable pub delete_func : List A → (A → Bool) → List A
  delete_func [] del = []
  delete_func (x ∷ xs) del = let rest = delete_func xs del in if del x then rest else x ∷ rest

  -- what `slices.DeleteFunc` leaves in the slice that it was given: those elements, then zero values
  unfoldable pub delete_func_leftover : A → List A → (A → Bool) → List A
  delete_func_leftover z [] del = []
  delete_func_leftover z (x ∷ xs) del =
      let rest = delete_func_leftover z xs del in if del x then rest ++ z ∷ [] else x ∷ rest

  unfoldable pub in_place : List A → (A → Bool) → List A
  unfolding negate
  in_place s test = delete_func s (negate test)

  pub conj-In :
      (ps : List (A → Bool)) (obj : A) (p : A → Bool) → conj ps obj ≡ true → In p ps → p obj ≡ true
  unfolding conj
  conj-In [] obj p h m = absurd m
  conj-In (q ∷ qs) obj p h (inl e) = rw e (ground arith)
  conj-In (q ∷ qs) obj p h (inr m) = conj-In qs obj p (ground arith) m

  pub conj-append :
      (ps qs : List (A → Bool)) (obj : A) → conj (ps ++ qs) obj ≡ (conj ps obj && conj qs obj)
  unfolding conj
  conj-append [] qs obj = refl
  conj-append (p ∷ ps) qs obj = ground (arith, conj-append ps qs obj)

  conj_of_In :
      (ps : List (A → Bool)) (obj : A)
      → ((p : A → Bool) → In p ps → p obj ≡ true)
      → conj ps obj ≡ true
  unfolding conj
  conj_of_In [] obj h = refl
  conj_of_In (q ∷ qs) obj h = rw (h q (inl refl)) (conj_of_In qs obj (λ p m. h p (inr m)))

  -- The conjunction of a list of predicates holds of an object exactly when each predicate of the
  -- list holds of it.
  pub conj_iff :
      (ps : List (A → Bool)) (obj : A)
      → (conj ps obj ≡ true) ↔ ((p : A → Bool) → In p ps → p obj ≡ true)
  conj_iff ps obj = (λ h p m. conj-In ps obj p h m, conj_of_In ps obj)

  pub In-delete_func :
      (a : A) (s : List A) (del : A → Bool) → In a (delete_func s del) → In a s × (del a ≡ false)
  unfolding delete_func
  In-delete_func a [] del m = absurd m
  In-delete_func a (x ∷ xs) del m = ground (arith, In-delete_func a xs del)

  pub In-delete_func_of :
      (a : A) (s : List A) (del : A → Bool) → In a s → del a ≡ false → In a (delete_func s del)
  unfolding delete_func
  In-delete_func_of a [] del m h = absurd m
  In-delete_func_of a (x ∷ xs) del (inl e) h = rw (← e) (rw h (inl refl))
  In-delete_func_of a (x ∷ xs) del (inr m) h = elim (Bool-cases (del x)) [
    | inl e ↦ rw e (In-delete_func_of a xs del m h)
    | inr e ↦ rw e (inr (In-delete_func_of a xs del m h))
  ]

  -- The zero values left behind in the slice satisfy no test that the zero value fails.
  pub any_of-delete_func_leftover :
      (z : A) (s : List A) (del p : A → Bool)
      → p z ≡ false
      → any_of p (delete_func_leftover z s del) ≡ any_of p (delete_func s del)
  unfolding delete_func_leftover delete_func
  any_of-delete_func_leftover z [] del p h = refl
  any_of-delete_func_leftover z (x ∷ xs) del p h = elim (Bool-cases (del x)) [
    | inl e ↦ rw e (
        any_of-append p (delete_func_leftover z xs del) (z ∷ [])
        ∙ ground (arith, any_of-delete_func_leftover z xs del p h))
    | inr e ↦ rw e (ground (arith, any_of-delete_func_leftover z xs del p h))
  ]
