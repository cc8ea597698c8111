-- ===== src/Resolve/Offers.antt =====
-- What the walk over the catalogs computes: the candidates that are not deprecated if there are any,
-- and all candidates otherwise.
use operator_controller.Prelude.{
  ◌≡◌, refl, sym, ap, ◌∙◌, List, [], ◌∷◌, ◌++◌, map, Option, none, some, Bool, true, false, ◌&&◌,
  not, Result, ok, ◌>>=◌, if◌then◌else◌, arith, all_of, Bool-cases, Result-cases, >>=-ok, inl, inr,
}
use mathlib.Core.List.{append-nil, append_assoc, map-append}
use operator_controller.Filter.{delete_func}
use operator_controller.Externals.{Version, Externals}
use operator_controller.Successors.{BundleMetadata}
use operator_controller.Catalog.{ClusterCatalog, Deprecation, is_deprecated}
use operator_controller.Resolve.{
  Offer, WalkState, ResolveError, Source, CatalogFilter, start, last_of, add, merge, offer, visit,
  walk_loop, catalog_walker, listed, unavailable,
}

abbrev pub deprecated : Offer → Bool
deprecated o = is_deprecated o.found.bundle o.deprecation

abbrev pub fresh : Offer → Bool
fresh o = not (deprecated o)

-- the candidates that are kept, in the order of the catalogs
abbrev pub best : List Offer → List Offer
best os = if all_of deprecated os then os else delete_func os deprecated

abbrev pub last_deprecation : List Offer → Option Deprecation
last_deprecation [] = none
last_deprecation (b ∷ bs) = (last_of b bs).deprecation

-- the state of the walk that holds these candidates
abbrev pub state_of : List Offer → WalkState
state_of bs = record { resolved = map (λ (o : Offer). o.found) bs; prior = last_deprecation bs }

abbrev pub merge_all : WalkState → List Offer → WalkState
merge_all s [] = s
merge_all s (o ∷ os) = merge_all (merge s (some o)) os

last_of-append : (b o : Offer) (bs : List Offer) → last_of b (bs ++ o ∷ []) ≡ o
last_of-append b o [] = refl
last_of-append b o (c ∷ cs) = last_of-append c o cs

last_of-map :
    (b : Offer) (bs : List Offer)
    → last_of b.found (map (λ (o : Offer). o.found) bs) ≡ (last_of b bs).found
last_of-map b [] = refl
last_of-map b (c ∷ cs) = last_of-map c cs

all_of-last_of :
    (p : Offer → Bool) (b : Offer) (bs : List Offer)
    → all_of p (b ∷ bs) ≡ true
    → p (last_of b bs) ≡ true
all_of-last_of p b [] h = ground arith
all_of-last_of p b (c ∷ cs) h = all_of-last_of p c cs (ground arith)

all_of-append :
    (p : Offer → Bool) (bs : List Offer) (o : Offer)
    → all_of p bs ≡ true
    → p o ≡ true
    → all_of p (bs ++ o ∷ []) ≡ true
all_of-append p [] o h k = ground arith
all_of-append p (b ∷ bs) o h k = ground (arith, all_of-append p bs o)

add-state_of :
    (b o : Offer) (bs : List Offer)
    → add (state_of (b ∷ bs)).resolved o ≡ state_of (b ∷ (bs ++ o ∷ []))
add-state_of b o bs = λ i. record {
  resolved = b.found ∷ sym (map-append (λ (o : Offer). o.found) bs (o ∷ [])) i;
  prior = (sym (last_of-append b o bs) i).deprecation;
}

-- one round, where the candidates so far have one deprecation status
merge-state_of :
    (b o : Offer) (bs : List Offer) (flag : Bool)
    → deprecated (last_of b bs) ≡ flag
    → merge (state_of (b ∷ bs)) (some o) ≡ (
        if deprecated o && not flag
        then state_of (b ∷ bs)
        else if not (deprecated o) && flag
        then state_of (o ∷ [])
        else state_of (b ∷ (bs ++ o ∷ [])))
unfolding merge
merge-state_of b o bs flag h = rw (last_of-map b bs, h, add-state_of b o bs)

-- Candidates that are not deprecated: only such candidates are added.
merge_all-fresh :
    (b : Offer) (bs rest : List Offer)
    → all_of fresh (b ∷ bs) ≡ true
    → merge_all (state_of (b ∷ bs)) rest ≡ state_of (b ∷ (bs ++ delete_func rest deprecated))
unfolding delete_func
merge_all-fresh b bs [] h = ap (λ (l : List Offer). state_of (b ∷ l)) (sym (append-nil bs))
merge_all-fresh b bs (o ∷ os) h = elim (Bool-cases (deprecated o)) [
  | inl e ↦
      rw (merge-state_of b o bs false (ground (arith, all_of-last_of fresh b bs h)), e)
        (merge_all-fresh b bs os h)
  | inr e ↦
      rw (merge-state_of b o bs false (ground (arith, all_of-last_of fresh b bs h)), e)
        (merge_all-fresh b (bs ++ o ∷ []) os (ground (arith, all_of-append fresh (b ∷ bs) o h))
          ∙ ap (λ (l : List Offer). state_of (b ∷ l))
              (append_assoc bs (o ∷ []) (delete_func os deprecated)))
]

abbrev over : List Offer → List Offer → List Offer
over bs rest = if all_of deprecated rest then bs ++ rest else delete_func rest deprecated

-- Deprecated candidates: the first that is not deprecated replaces them.
merge_all_stale :
    (b : Offer) (bs rest : List Offer)
    → all_of deprecated (b ∷ bs) ≡ true
    → merge_all (state_of (b ∷ bs)) rest ≡ state_of (over (b ∷ bs) rest)
unfolding delete_func
merge_all_stale b bs [] h = ap (λ (l : List Offer). state_of (b ∷ l)) (sym (append-nil bs))
merge_all_stale b bs (o ∷ os) h = elim (Bool-cases (deprecated o)) [
  | inl e ↦
      rw (merge-state_of b o bs true (all_of-last_of deprecated b bs h), e)
        (merge_all_stale b (bs ++ o ∷ []) os (ground (arith, all_of-append deprecated (b ∷ bs) o h))
          ∙ ap
              (λ (l : List Offer).
                state_of (if all_of deprecated os then b ∷ l else delete_func os deprecated))
              (append_assoc bs (o ∷ []) os))
  | inr e ↦
      rw (merge-state_of b o bs true (all_of-last_of deprecated b bs h), e)
        (merge_all-fresh o [] os (ground arith))
]

merge_all-start : (os : List Offer) → merge_all start os ≡ state_of (best os)
unfolding merge delete_func
merge_all-start [] = refl
merge_all-start (o ∷ os) = elim (Bool-cases (deprecated o)) [
  | inl e ↦ rw e (merge_all_stale o [] os (ground arith))
  | inr e ↦ rw e (merge_all-fresh o [] os (ground arith))
]

-- the candidates of the catalogs, in order, up to the first error
unfoldable pub collect :
    (ClusterCatalog → Result ResolveError (Option Offer))
    → List ClusterCatalog
    → Result ResolveError (List Offer)
collect g [] = ok []
collect g (c ∷ cs) = do o ← g c; os ← collect g cs; ok (elim o [ none ↦ os | some a ↦ a ∷ os ])

module _ (x : Externals) (src : Source x) (f : CatalogFilter x) where
  module _ (range : Option (Version x.PrVersion → Bool)) (installed : Option BundleMetadata) where
    abbrev pub offer_from : ClusterCatalog → Result ResolveError (Option Offer)
    offer_from c = offer x f range installed c (src.get_package c f.package_name)

    walk_loop-collect :
        (cs : List ClusterCatalog) (s : WalkState)
        → walk_loop x src f.package_name (visit x f range installed) cs s
          ≡ (do os ← collect offer_from cs; ok (merge_all s os))
    unfolding walk_loop visit collect merge
    walk_loop-collect [] s = refl
    walk_loop-collect (c ∷ cs) s = elim (Result-cases (offer_from c)) [
      | inr (e, q) ↦ rw q refl
      | inl (none, q) ↦ rw q (
          walk_loop-collect cs s
          ∙ sym (>>=-ok (collect offer_from cs) (λ os. os) (λ os. ok (merge_all s os))))
      | inl (some o, q) ↦ rw q (
          walk_loop-collect cs (merge s (some o))
          ∙ sym (>>=-ok (collect offer_from cs) (λ os. o ∷ os) (λ os. ok (merge_all s os))))
    ]

    walk_loop-best :
        (cs : List ClusterCatalog)
        → walk_loop x src f.package_name (visit x f range installed) cs start
          ≡ (do os ← collect offer_from cs; ok (state_of (best os)))
    walk_loop-best cs =
        walk_loop-collect cs start
        ∙ ap (λ k. collect offer_from cs >>= k) (λ i os. ok (merge_all-start os i))

    -- The walk over the catalogs that are listed and available gives the candidates that are not
    -- deprecated, in the order of the catalogs, if there are any, and all candidates otherwise; the
    -- deprecation that it returns is that of the last candidate kept. It fails with the error of
    -- the listing, or with the first error of a catalog.
    pub catalog_walker-best :
        (sel : x.Selector)
        → catalog_walker x src f.package_name (visit x f range installed) sel start ≡ (do
          cs ← listed x (src.list_catalogs sel)
          os ← collect offer_from (delete_func cs unavailable)
          ok (state_of (best os)))
    unfolding catalog_walker
    catalog_walker-best sel =
        ap (λ k. listed x (src.list_catalogs sel) >>= k)
          (λ i cs. walk_loop-best (delete_func cs unavailable) i)
