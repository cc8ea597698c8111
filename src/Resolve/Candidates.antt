-- ===== src/Resolve/Candidates.antt =====
-- The candidate that a catalog offers, and the candidates of all catalogs.
use operator_controller.Prelude.{
  ◌≡◌, ◌≢◌, refl, sym, String, List, [], ◌∷◌, Option, none, some, Bool, true, false, inl, inr,
  Result, ok, err, gt, eq, Ordering, arith, In, Bool-cases, subst, ok_injective, >>=-eq-ok,
  Option-cases, all_of, all_of-In,
}
use mathlib.Core.Option.{some-injective}
use operator_controller.Order.{IsPreorder, lex-IsPreorder, cmp_self}
use operator_controller.Sort.{
  sort_stable, In-sort_stable, In-sort_stable_of, sort_stable-IsSorted, IsSorted, Below-In,
}
use operator_controller.Filter.{
  conj, delete_func, in_place, In-delete_func, In-delete_func_of, negate,
}
use operator_controller.Externals.{Version, Externals, ExternalLaws}
use operator_controller.Bundle.{Bundle}
use operator_controller.Catalog.{ClusterCatalog, DeclarativeConfig, Deprecation, is_fbc_empty}
use operator_controller.Compare.{by_version_and_release}
use operator_controller.Compare.Laws.{by_deprecation-IsPreorder, by_version_and_release-IsPreorder}
use operator_controller.Successors.{BundleMetadata}
use operator_controller.Resolve.{
  Offer, ResolveError, CatalogFilter, predicates, offer, offer_of, head?, bundle_order,
  by_deprecation_of,
}
use operator_controller.Resolve.Offers.{deprecated, best, collect}

-- Of the bundles of the package that pass the tests, the one that is sorted first.
pub record IsOffer (x : Externals) (f : CatalogFilter x)
    (range : Option (Version x.PrVersion → Bool)) (installed : Option BundleMetadata)
    (cat : ClusterCatalog) (content : Result String (Option DeclarativeConfig)) (o : Offer)
    : Type 0 where
  pub fbc : DeclarativeConfig
  pub tests : List (Bundle → Bool)
  pub read : content ≡ ok (some fbc)
  pub tested : predicates x f range installed fbc ≡ ok tests
  pub catalog : o.found.catalog ≡ cat.name
  pub priority : o.found.priority ≡ cat.priority
  pub deprecation : o.deprecation ≡ head? fbc.deprecations
  pub member : In o.found.bundle fbc.bundles
  pub passes : conj tests o.found.bundle ≡ true
  pub first :
      (b : Bundle)
      → In b fbc.bundles
      → conj tests b ≡ true
      → bundle_order x (head? fbc.deprecations) o.found.bundle b ≢ gt

eq-IsPreorder : IsPreorder (λ (a b : Bundle). eq)
eq-IsPreorder = record { flip = λ a b. refl; trans = λ a b c h k. h }

by_deprecation_of-IsPreorder :
    (x : Externals) (d : Option Deprecation) → IsPreorder (by_deprecation_of x d)
by_deprecation_of-IsPreorder x none = eq-IsPreorder
by_deprecation_of-IsPreorder x (some d) = by_deprecation-IsPreorder d

-- Bundles are sorted by a consistent order: deprecated ones last, then by version and release.
pub bundle_order-IsPreorder :
    (x : Externals) → ExternalLaws x → (d : Option Deprecation) → IsPreorder (bundle_order x d)
bundle_order-IsPreorder x laws d =
    lex-IsPreorder (by_deprecation_of x d) (by_version_and_release x)
      (by_deprecation_of-IsPreorder x d) (by_version_and_release-IsPreorder x laws)

-- the head of a sorted list
head-IsSorted :
    (cmp : Bundle → Bundle → Ordering) (l : List Bundle) (b : Bundle)
    → IsPreorder cmp
    → IsSorted cmp l
    → head? l ≡ some b
    → In b l × ((c : Bundle) → In c l → cmp b c ≢ gt)
head-IsSorted cmp [] b p s h = cc
head-IsSorted cmp (a ∷ l) b p s h =
    subst (λ (z : Bundle). In z (a ∷ l) × ((c : Bundle) → In c (a ∷ l) → cmp z c ≢ gt))
      (some-injective _ _ h)
      (
        inl refl,
        λ c m. elim m [
          | inl e ↦ subst (λ (z : Bundle). cmp a z ≢ gt) (sym e) (ground (arith, cmp_self cmp p a))
          | inr n ↦ Below-In cmp a c l s.0 n
        ],
      )

module _ (x : Externals) (laws : ExternalLaws x) (f : CatalogFilter x) where
  module _ (range : Option (Version x.PrVersion → Bool)) (installed : Option BundleMetadata) where
    -- the bundle at the head of the sorted list
    IsOffer-chosen :
        (cat : ClusterCatalog) (fbc : DeclarativeConfig) (tests : List (Bundle → Bool)) (b : Bundle)
        → predicates x f range installed fbc ≡ ok tests
        → head? (
            sort_stable
              (bundle_order x (head? fbc.deprecations))
              (in_place fbc.bundles (conj tests)))
          ≡ some b
        → IsOffer x f range installed cat (ok (some fbc)) (record {
          found = record { bundle = b; catalog = cat.name; priority = cat.priority };
          deprecation = head? fbc.deprecations;
        })
    unfolding in_place
    IsOffer-chosen cat fbc tests b t h =
        let cmp = bundle_order x (head? fbc.deprecations) in
        let p = bundle_order-IsPreorder x laws (head? fbc.deprecations) in
        let l = delete_func fbc.bundles (negate (conj tests)) in
        let (m, least) =
          head-IsSorted cmp (sort_stable cmp l) b p (sort_stable-IsSorted cmp p l) h in
        let (k, q) =
          In-delete_func b fbc.bundles (negate (conj tests)) (In-sort_stable cmp b l m) in
        record {
          fbc = fbc;
          tests = tests;
          read = refl;
          tested = t;
          catalog = refl;
          priority = refl;
          deprecation = refl;
          member = k;
          passes = unfold negate in ground arith;
          first = λ c n e. least c (
              In-sort_stable_of cmp c l (
                In-delete_func_of c fbc.bundles (negate (conj tests)) n
                  (unfold negate in rw e refl)));
        }

    IsOffer-of :
        (cat : ClusterCatalog) (fbc : DeclarativeConfig) (tests : List (Bundle → Bool)) (o : Offer)
        → predicates x f range installed fbc ≡ ok tests
        → offer_of x cat (head? fbc.deprecations) (
            head? (
              sort_stable
                (bundle_order x (head? fbc.deprecations))
                (in_place fbc.bundles (conj tests))))
          ≡ some o
        → IsOffer x f range installed cat (ok (some fbc)) o
    IsOffer-of cat fbc tests o t h =
        let found = head? (
          sort_stable (bundle_order x (head? fbc.deprecations))
            (in_place fbc.bundles (conj tests))) in
        elim (Option-cases found) [
          | inl n ↦ absurd (ground arith)
          | inr (b, e) ↦
              subst (λ (z : Offer). IsOffer x f range installed cat (ok (some fbc)) z)
                (some-injective _ _ (rw e at h)) (IsOffer-chosen cat fbc tests b t e)
        ]

    -- The candidate of a package is a bundle of the package that passes all tests, and no bundle
    -- that passes them all is sorted before it.
    pub offer-IsOffer :
        (cat : ClusterCatalog) (content : Result String (Option DeclarativeConfig)) (o : Offer)
        → offer x f range installed cat content ≡ ok (some o)
        → IsOffer x f range installed cat content o
    unfolding offer
    offer-IsOffer cat (err e) o h = cc
    offer-IsOffer cat (ok none) o h = cc
    offer-IsOffer cat (ok (some fbc)) o h = elim (Bool-cases (is_fbc_empty (some fbc))) [
      | inl e ↦ absurd (empty e)
      | inr e ↦
          let (tests, t, q) = >>=-eq-ok (predicates x f range installed fbc) _ (rw e at h) in
          IsOffer-of cat fbc tests o t (ok_injective q)
    ]
      where
        empty : is_fbc_empty (some fbc) ≡ true → ⊥
        empty e = ground arith

-- every candidate that was collected is the candidate of a catalog
pub In-collect :
    (g : ClusterCatalog → Result ResolveError (Option Offer)) (cs : List ClusterCatalog)
    (os : List Offer) (o : Offer)
    → collect g cs ≡ ok os
    → In o os
    → (c : ClusterCatalog) × In c cs × (g c ≡ ok (some o))
unfolding collect
In-collect g [] os o h m = absurd (subst (λ (l : List Offer). In o l) (sym (ok_injective h)) m)
In-collect g (c ∷ cs) os o h m =
    let (a, ea, h2) = >>=-eq-ok (g c) _ h in
    let (rest, er, h3) = >>=-eq-ok (collect g cs) _ h2 in
    go a ea rest (subst (λ (l : List Offer). In o l) (sym (ok_injective h3)) m)
      (λ n. later (In-collect g cs rest o er n))
  where
    Origin : Type 0
    Origin = (c' : ClusterCatalog) × In c' (c ∷ cs) × (g c' ≡ ok (some o))

    later : (c' : ClusterCatalog) × In c' cs × (g c' ≡ ok (some o)) → Origin
    later (c', k, e) = (c', inr k, e)

    go :
        (a : Option Offer)
        → g c ≡ ok a
        → (rest : List Offer) → In o (elim a [ none ↦ rest | some b ↦ b ∷ rest ])
        → (In o rest → Origin)
        → Origin
    go none ea rest n ih = ih n
    go (some b) ea rest (inl e) ih = (c, inl refl, rw e ea)
    go (some b) ea rest (inr n) ih = ih n

-- Of the candidates that are kept, one is deprecated only if all candidates are.
pub In-best :
    (o : Offer) (os : List Offer)
    → In o (best os)
    → In o os × ((g : Offer) → In g os → deprecated g ≡ false → deprecated o ≡ false)
In-best o os m = elim (Bool-cases (all_of deprecated os)) [
  | inl e ↦ (rw e at m, λ g n d. cc (all_of-In deprecated os g e n))
  | inr e ↦ let (k, d) = In-delete_func o os deprecated (rw e at m) in (k, λ g n _. d)
]
