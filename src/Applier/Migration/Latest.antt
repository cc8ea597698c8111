-- ===== src/Applier/Migration/Latest.antt =====
-- The release that is migrated.
use operator_controller.Prelude.{
  ◌≤◌, ◌≡◌, refl, ap, ◌∙◌, List, [], ◌∷◌, Option, none, some, Bool, true, false, ◌&&◌, In, inl, inr,
  ◌⊎◌, Bool-cases, arith, ltb,
}
use operator_controller.Applier.Migration.{Release, is_deployed, is_later, consider, latest_loop}

deployed : (a b : Bool) → (a && b) ≡ true → a ≡ true
deployed a b h = ground arith

module _ {D : Type 0} where
  -- `r` has a version, and it is not smaller
  abbrev pub IsAtMost : Option (Release D) → Option (Release D) → Type 0
  IsAtMost none _ = Unit
  IsAtMost (some x) none = ⊥
  IsAtMost (some x) (some r) = x.version ≤ r.version

  AtMost-trans : (x y z : Option (Release D)) → IsAtMost x y → IsAtMost y z → IsAtMost x z
  AtMost-trans none y z h k = tt
  AtMost-trans (some x) none z h k = absurd h
  AtMost-trans (some x) (some y) none h k = absurd k
  AtMost-trans (some x) (some y) (some z) h k = omega arith

  AtMost-refl : (x : Option (Release D)) → IsAtMost x x
  AtMost-refl none = tt
  AtMost-refl (some x) = omega arith

  later :
      (l x : Release D) (b : Bool) → (b && ltb l.version x.version) ≡ true → l.version ≤ x.version
  later l x b h = ground arith

  AtMost-consider : (latest x : Option (Release D)) → IsAtMost latest (consider latest x)
  AtMost-consider latest none = AtMost-refl latest
  AtMost-consider none (some x) = tt
  AtMost-consider (some l) (some x) =
      elim (Bool-cases (is_deployed (some x) && is_later (some l) x)) [
        | inl e ↦ rw e (later l x (is_deployed (some x)) e)
        | inr e ↦ rw e (omega arith)
      ]

  considered :
      (latest x : Option (Release D)) → is_deployed x ≡ true → IsAtMost x (consider latest x)
  considered latest none h = tt
  considered none (some x) h = rw h (omega arith)
  considered (some l) (some x) h = elim (Bool-cases (is_later (some l) x)) [
    | inl e ↦ rw h (rw e (omega arith))
    | inr e ↦ rw h (rw e (ground arith))
  ]

  AtMost-loop :
      (latest : Option (Release D)) (rs : List (Option (Release D)))
      → IsAtMost latest (latest_loop latest rs)
  unfolding latest_loop
  AtMost-loop latest [] = AtMost-refl latest
  AtMost-loop latest (r ∷ rs) =
      AtMost-trans latest (consider latest r) _ (AtMost-consider latest r)
        (AtMost-loop (consider latest r) rs)

  each :
      (latest x : Option (Release D)) (rs : List (Option (Release D)))
      → In x rs
      → is_deployed x ≡ true
      → IsAtMost x (latest_loop latest rs)
  unfolding latest_loop
  each latest x [] m h = absurd m
  each latest x (r ∷ rs) (inl e) h =
      AtMost-trans x (consider latest r) _ (rw (← e) (considered latest x h))
        (AtMost-loop (consider latest r) rs)
  each latest x (r ∷ rs) (inr m) h = each (consider latest r) x rs m h

  -- what is returned is a deployed release of the list, or what the loop began with
  abbrev IsFrom : Option (Release D) → List (Option (Release D)) → Option (Release D) → Type 0
  IsFrom latest rs r = (r ≡ latest) ⊎ (In r rs × (is_deployed r ≡ true))

  from_consider :
      (latest x : Option (Release D))
      → (consider latest x ≡ latest) ⊎ ((consider latest x ≡ x) × (is_deployed x ≡ true))
  from_consider latest none = inl refl
  from_consider latest (some x) = elim (Bool-cases (is_deployed (some x) && is_later latest x)) [
    | inl e ↦ inr (rw e (refl, deployed (is_deployed (some x)) _ e))
    | inr e ↦ inl (rw e refl)
  ]

  loop-IsFrom :
      (latest : Option (Release D)) (rs : List (Option (Release D)))
      → IsFrom latest rs (latest_loop latest rs)
  unfolding latest_loop
  loop-IsFrom latest [] = inl refl
  loop-IsFrom latest (r ∷ rs) = elim (loop-IsFrom (consider latest r) rs) [
    | inr (m, d) ↦ inr (inr m, d)
    | inl e ↦ elim (from_consider latest r) [
      | inl f ↦ inl (e ∙ f)
      | inr (f, d) ↦ inr (inl (e ∙ f), ap is_deployed (e ∙ f) ∙ d)
    ]
  ]

  -- of the releases, each that is deployed has a version of at most that of `r`, which exists then
  abbrev pub EachIsAtMost : List (Option (Release D)) → Option (Release D) → Type 0
  EachIsAtMost [] r = Unit
  EachIsAtMost (x ∷ xs) r = ((is_deployed x ≡ false) ⊎ IsAtMost x r) × EachIsAtMost xs r

  each-EachIsAtMost :
      (r : Option (Release D)) (xs : List (Option (Release D)))
      → ((x : Option (Release D)) → In x xs → is_deployed x ≡ true → IsAtMost x r)
      → EachIsAtMost xs r
  each-EachIsAtMost r [] h = tt
  each-EachIsAtMost r (x ∷ xs) h = (
    elim (Bool-cases (is_deployed x)) [ inl e ↦ inr (h x (inl refl) e) | inr e ↦ inl e ],
    each-EachIsAtMost r xs (λ y m. h y (inr m)),
  )

  -- The release that findLatestDeployedRelease selects from a history is a deployed one of it, with
  -- the highest version of all that are deployed; or it selects none, and then none is deployed.
  pub latest_loop-IsLatest :
      (history : List (Option (Release D)))
      → ((latest_loop none history ≡ none)
          ⊎ (In (latest_loop none history) history
              × (is_deployed (latest_loop none history) ≡ true)))
        × EachIsAtMost history (latest_loop none history)
  latest_loop-IsLatest history = (
    loop-IsFrom none history,
    each-EachIsAtMost (latest_loop none history) history (λ x m h. each none x history m h),
  )
