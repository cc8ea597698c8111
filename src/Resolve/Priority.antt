-- ===== src/Resolve/Priority.antt =====
-- Choosing among the candidates of several catalogs by the catalogs' priorities.
use operator_controller.Prelude.{
  ◌≡◌, ◌≢◌, refl, sym, subst, ℕ, ◌<ℤ◌, List, [], ◌∷◌, ◌⊎◌, inl, inr, ok, gt, arith, In, length, ltb,
  eq_ℤ, Bool-cases, true, false, suc, ok_injective, ok-ne-err,
}
use operator_controller.Order.{IsPreorder}
use operator_controller.Sort.{
  sort_stable, In-sort_stable, In-sort_stable_of, sort_stable-IsSorted, IsSorted, Below-In,
}
use operator_controller.Resolve.{
  Found, resolution_error, by_priority, reduce, resolve_priority, unambiguous,
}

pub by_priority-IsPreorder : IsPreorder by_priority
by_priority-IsPreorder = record { flip = λ a b. ground arith; trans = λ a b c h k. ground arith }

-- `f` is in the list, and everything else there has a lower priority.
pub record IsTop (f : Found) (l : List Found) : Type 0 where
  pub member : In f l
  pub above : (g : Found) → In g l → (g ≡ f) ⊎ (g.priority <ℤ f.priority)

lower :
    (a b g : Found)
    → by_priority a b ≢ gt
    → eq_ℤ a.priority b.priority ≡ false
    → by_priority b g ≢ gt
    → g.priority <ℤ a.priority
lower a b g h k l = ground arith

IsTop-first :
    (a b : Found) (rest : List Found)
    → IsSorted by_priority (a ∷ b ∷ rest)
    → eq_ℤ a.priority b.priority ≡ false
    → IsTop a (a ∷ b ∷ rest)
IsTop-first a b rest s e = record {
  member = inl refl;
  above = λ g m. elim m [
    | inl q ↦ inl q
    | inr (inl q) ↦
        inr (subst (λ (z : Found). z.priority <ℤ a.priority) (sym q) (lower a b b s.0.0 e (self b)))
    | inr (inr n) ↦ inr (lower a b g s.0.0 e (Below-In by_priority b g rest s.1.0 n))
  ];
}
  where
    self : (c : Found) → by_priority c c ≢ gt
    self c = ground arith

IsTop-reduce :
    (l : List Found) (f : Found)
    → IsSorted by_priority l
    → unambiguous (reduce l) ≡ ok f
    → IsTop f l
unfolding unambiguous reduce
IsTop-reduce [] f s h = cc
IsTop-reduce (a ∷ []) f s h =
    subst (λ (z : Found). IsTop z (a ∷ [])) (ok_injective h)
      (record { member = inl refl; above = λ g m. elim m [ inl e ↦ inl e | inr n ↦ absurd n ] })
IsTop-reduce (a ∷ b ∷ rest) f s h = elim (Bool-cases (eq_ℤ a.priority b.priority)) [
  | inl e ↦ absurd (ok-ne-err f (resolution_error (a ∷ b ∷ rest)) (sym (rw e at h)))
  | inr e ↦
      subst (λ (z : Found). IsTop z (a ∷ b ∷ rest)) (ok_injective (rw e at h))
        (IsTop-first a b rest s e)
]

IsTop-sort_stable : (l : List Found) (f : Found) → IsTop f (sort_stable by_priority l) → IsTop f l
IsTop-sort_stable l f t = record {
  member = In-sort_stable by_priority f l t.member;
  above = λ g m. t.above g (In-sort_stable_of by_priority g l m);
}

two_or_more : (n : ℕ) → ltb 1 (suc (suc n)) ≡ true
two_or_more n = ground arith

-- If one candidate is chosen, it is one of the candidates, and every other candidate comes from a
-- catalog of lower priority.
pub resolve_priority-IsTop :
    (l : List Found) (f : Found) → unambiguous (resolve_priority l) ≡ ok f → IsTop f l
unfolding resolve_priority
resolve_priority-IsTop [] f h = IsTop-reduce [] f tt (unfold reduce in h)
resolve_priority-IsTop (a ∷ []) f h = IsTop-reduce (a ∷ []) f (tt, tt) (unfold reduce in h)
resolve_priority-IsTop (a ∷ b ∷ rest) f h = IsTop-sort_stable (a ∷ b ∷ rest) f (
    IsTop-reduce (sort_stable by_priority (a ∷ b ∷ rest)) f
      (sort_stable-IsSorted by_priority by_priority-IsPreorder (a ∷ b ∷ rest))
      (rw (two_or_more (length rest), resolve_priority) at h))
