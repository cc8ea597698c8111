-- ===== src/Order.antt =====
-- Three-way comparison functions (`cmp.Compare`, the `Compare` methods): -1, 0 and +1 are `lt`,
-- `eq` and `gt`.
pub mod Text
use operator_controller.Prelude.{◌≡◌, ◌≢◌, Ordering, lt, eq, gt, arith}

abbrev pub swap : Ordering → Ordering
swap lt = gt
swap eq = eq
swap gt = lt

-- `if c := first; c != 0 { return c }; return second`, and `cmp.Or`
abbrev pub then_by : Ordering → Ordering → Ordering
then_by lt _ = lt
then_by eq o = o
then_by gt _ = gt

-- A consistent comparison function: what `slices.SortFunc` asks of its argument.
pub record IsPreorder {A : Type 0} (cmp : A → A → Ordering) : Type 0 where
  pub flip : (a b : A) → cmp b a ≡ swap (cmp a b)
  pub trans : (a b c : A) → cmp a b ≢ gt → cmp b c ≢ gt → cmp a c ≢ gt

module _ {A : Type 0} (cmp : A → A → Ordering) (p : IsPreorder cmp) where
  pub cmp_self : (a : A) → cmp a a ≡ eq
  cmp_self a = ground (arith, p.flip a a)

  -- Where the ends of a chain are equal, so is the middle.
  eq_left : (a b c : A) → cmp a b ≢ gt → cmp b c ≢ gt → cmp a c ≡ eq → cmp a b ≡ eq
  eq_left a b c h k e =
      let t : cmp b c ≢ gt → cmp c a ≢ gt → cmp b a ≢ gt = p.trans b c a in
      ground (arith, p.flip a b, p.flip a c, t)

  eq_right : (a b c : A) → cmp a b ≢ gt → cmp b c ≢ gt → cmp a c ≡ eq → cmp b c ≡ eq
  eq_right a b c h k e =
      let t : cmp c a ≢ gt → cmp a b ≢ gt → cmp c b ≢ gt = p.trans c a b in
      ground (arith, p.flip b c, p.flip a c, t)

module _ {A : Type 0} (first second : A → A → Ordering) where
  abbrev pub lex : A → A → Ordering
  lex a b = then_by (first a b) (second a b)

  lex_flip : IsPreorder first → IsPreorder second → (a b : A) → lex b a ≡ swap (lex a b)
  lex_flip p q a b = ground (arith, p.flip a b, q.flip a b)

  lex_trans :
      IsPreorder first
      → IsPreorder second
      → (a b c : A) → lex a b ≢ gt
      → lex b c ≢ gt
      → lex a c ≢ gt
  lex_trans p q a b c h k =
      ground (arith, p.trans a b c, q.trans a b c, eq_left first p a b c, eq_right first p a b c)

  -- A second consistent comparison that breaks the ties of a first gives a consistent one.
  pub lex-IsPreorder : IsPreorder first → IsPreorder second → IsPreorder lex
  lex-IsPreorder p q = record { flip = lex_flip p q; trans = lex_trans p q }

-- Comparing by a key is consistent if comparing the keys is, in either direction.
pub on-IsPreorder :
    {A B : Type 0} (cmp : B → B → Ordering) (key : A → B)
    → IsPreorder cmp
    → IsPreorder (λ a b. cmp (key a) (key b))
on-IsPreorder cmp key p = record {
  flip = λ a b. p.flip (key a) (key b);
  trans = λ a b c. p.trans (key a) (key b) (key c);
}

pub swap-IsPreorder :
    {A : Type 0} (cmp : A → A → Ordering) → IsPreorder cmp → IsPreorder (λ a b. cmp b a)
swap-IsPreorder cmp p = record { flip = λ a b. p.flip b a; trans = λ a b c h k. p.trans c b a k h }
