-- ===== src/Resolve/Sound.antt =====
-- What a bundle that `Resolve` returns satisfies.
use operator_controller.Prelude.{
  ◌≡◌, refl, sym, subst, ap, ◌∙◌, String, ◌<ℤ◌, List, [], ◌∷◌, map, Option, none, some, Bool, false,
  ◌⊎◌, inl, inr, Result, ok, err, >>=-eq-ok, ok_injective, ok-ne-err, arith, In, Option-cases,
}
use operator_controller.Filter.{delete_func, In-delete_func}
use operator_controller.Externals.{Version, Externals, ExternalLaws}
use operator_controller.Bundle.{Bundle, VersionRelease, get_version_and_release}
use operator_controller.Catalog.{ClusterCatalog, DeclarativeConfig, Deprecation}
use operator_controller.Successors.{BundleMetadata}
use operator_controller.Resolve.{
  Found, Offer, WalkState, Source, CatalogFilter, unavailable, selector_of, version_range, visit,
  start, catalog_walker, listed, conclude, resolve, resolve_priority, unambiguous, validate,
  version_of, validating,
}
use operator_controller.Resolve.Offers.{
  deprecated, best, last_deprecation, state_of, collect, offer_from, catalog_walker-best,
}
use operator_controller.Resolve.Priority.{resolve_priority-IsTop}
use operator_controller.Resolve.Eligible.{IsEligible, predicates-IsEligible}
use operator_controller.Resolve.Candidates.{IsOffer, offer-IsOffer, In-collect, In-best}

In-found :
    (f : Found) (os : List Offer)
    → In f (map (λ (o : Offer). o.found) os)
    → (o : Offer) × In o os × (o.found ≡ f)
In-found f [] m = absurd m
In-found f (o ∷ os) (inl e) = (o, inl refl, sym e)
In-found f (o ∷ os) (inr m) = let (q, k, e) = In-found f os m in (q, inr k, e)

In-found_of : (o : Offer) (os : List Offer) → In o os → In o.found (map (λ (o : Offer). o.found) os)
In-found_of o [] m = absurd m
In-found_of o (p ∷ os) (inl e) = inl (ap (λ (q : Offer). q.found) e)
In-found_of o (p ∷ os) (inr m) = inr (In-found_of o os m)

validate_sound :
    (vs : List (Bundle → Option String)) (b : Bundle)
    → validate vs b ≡ ok tt
    → (v : Bundle → Option String) → In v vs
    → v b ≡ none
unfolding validate
validate_sound [] b h v m = absurd m
validate_sound (w ∷ ws) b h v m = elim (Option-cases (w b)) [
  | inr (e, q) ↦ absurd (ok-ne-err tt (validating e) (sym (rw (q, validate) at h)))
  | inl q ↦ elim m [ inl e ↦ rw e q | inr n ↦ validate_sound ws b (rw (q, validate) at h) v n ]
]

module _ (x : Externals) (src : Source x) (validations : List (Bundle → Option String))
    (f : CatalogFilter x) (installed : Option BundleMetadata) where
  -- A run of `Resolve` that returned the bundle `b` with `vr` and the deprecation `d`.
  pub record Resolution (b : Bundle) (vr : VersionRelease x) (d : Option Deprecation) : Type 0 where
    pub selector : x.Selector
    pub range : Option (Version x.PrVersion → Bool)
    pub catalogs : List ClusterCatalog
    pub offers : List Offer
    pub chosen : Offer
    pub catalog : ClusterCatalog
    pub selected : selector_of x (x.as_selector f.selector) ≡ ok selector
    pub ranged : version_range x f.version ≡ ok range
    pub listing : src.list_catalogs selector ≡ ok catalogs
    pub offered :
        collect (offer_from x src f range installed) (delete_func catalogs unavailable) ≡ ok offers
    pub is_bundle : chosen.found.bundle ≡ b
    pub kept : In chosen (best offers)
    pub top :
        (o : Offer)
        → In o (best offers)
        → (o.found ≡ chosen.found) ⊎ (o.found.priority <ℤ chosen.found.priority)
    pub not_deprecated :
        (o : Offer) → In o offers → deprecated o ≡ false → deprecated chosen ≡ false
    pub member : In catalog catalogs
    pub is_available : unavailable catalog ≡ false
    pub origin : IsOffer x f range installed catalog (src.get_package catalog f.package_name) chosen
    pub versioned : get_version_and_release x b ≡ ok vr
    pub valid : (v : Bundle → Option String) → In v validations → v b ≡ none
    pub returned : d ≡ last_deprecation (best offers)

  listed_sound :
      (r : Result String (List ClusterCatalog)) (cs : List ClusterCatalog)
      → listed x r ≡ ok cs
      → r ≡ ok cs
  listed_sound (ok a) cs h = cc
  listed_sound (err e) cs h = cc

  version_of_sound :
      (b : Bundle) (w : VersionRelease x)
      → version_of x b ≡ ok w
      → get_version_and_release x b ≡ ok w
  version_of_sound b w h = ground arith

  conclude_sound :
      (s : WalkState) (b : Bundle) (vr : VersionRelease x) (d : Option Deprecation)
      → conclude x validations s ≡ ok (b, vr, d)
      → (found : Found) × (unambiguous (resolve_priority s.resolved) ≡ ok found)
        × (found.bundle ≡ b)
        × (get_version_and_release x b ≡ ok vr)
        × (validate validations b ≡ ok tt)
        × (d ≡ s.prior)
  unfolding conclude
  conclude_sound s b vr d h =
      let (found, e, h2) = >>=-eq-ok (unambiguous (resolve_priority s.resolved)) _ h in
      let (w, ew, h3) = >>=-eq-ok (version_of x found.bundle) _ h2 in
      let (u, eu, h4) = >>=-eq-ok (validate validations found.bundle) _ h3 in
      let q = ok_injective h4 in
      let is_b : found.bundle ≡ b =
        ap (λ (t : Bundle × VersionRelease x × Option Deprecation). t.0) q in
      let is_vr : w ≡ vr = ap (λ (t : Bundle × VersionRelease x × Option Deprecation). t.1) q in
      (
        found,
        e,
        is_b,
        ground (arith, version_of_sound found.bundle w ew),
        subst (λ (c : Bundle). validate validations c ≡ ok tt) is_b eu,
        sym (ap (λ (t : Bundle × VersionRelease x × Option Deprecation). t.2) q),
      )

  -- A bundle that `Resolve` returns comes from a catalog that is listed and available; of the
  -- bundles of its package there that pass the tests none is sorted before it; every other
  -- candidate that was kept comes from a catalog of lower priority; it is deprecated only if all
  -- candidates are; it has the version returned and passes every validation; and the deprecation
  -- returned is that of the last candidate kept.
  pub resolve-Resolution :
      ExternalLaws x
      → (b : Bundle) (vr : VersionRelease x) (d : Option Deprecation)
      → resolve x src validations f installed ≡ ok (b, vr, d)
      → Resolution b vr d
  unfolding resolve
  resolve-Resolution laws b vr d h =
      let (sel, esel, h2) = >>=-eq-ok (selector_of x (x.as_selector f.selector)) _ h in
      let (range, erange, h3) = >>=-eq-ok (version_range x f.version) _ h2 in
      let (s, es, h4) =
        >>=-eq-ok (catalog_walker x src f.package_name (visit x f range installed) sel start) _
          h3 in
      let (cs, ecs, h5) =
        >>=-eq-ok (listed x (src.list_catalogs sel)) _
          (sym (catalog_walker-best x src f range installed sel) ∙ es) in
      let (os, eos, h6) =
        >>=-eq-ok (collect (offer_from x src f range installed) (delete_func cs unavailable)) _
          h5 in
      let (found, eu, eb, ev, eval, ed) = conclude_sound s b vr d h4 in
      let is_state : s ≡ state_of (best os) = sym (ok_injective h6) in
      let t = resolve_priority-IsTop s.resolved found eu in
      let resolved : s.resolved ≡ (state_of (best os)).resolved =
        ap (λ (w : WalkState). w.resolved) is_state in
      let (o, mo, eo) =
        In-found found (best os) (subst (λ (l : List Found). In found l) resolved t.member) in
      let (ino, nd) = In-best o os mo in
      let (cat, mc, ec) =
        In-collect (offer_from x src f range installed) (delete_func cs unavailable) os o eos ino in
      let (mc', av) = In-delete_func cat cs unavailable mc in
      record {
        selector = sel;
        range = range;
        catalogs = cs;
        offers = os;
        chosen = o;
        catalog = cat;
        selected = esel;
        ranged = erange;
        listing = listed_sound (src.list_catalogs sel) cs ecs;
        offered = eos;
        is_bundle = ap (λ (g : Found). g.bundle) eo ∙ eb;
        kept = mo;
        top = λ p m.
            subst (λ (g : Found). (p.found ≡ g) ⊎ (p.found.priority <ℤ g.priority)) (sym eo)
              (t.above p.found (
                subst (λ (l : List Found). In p.found l) (sym resolved)
                  (In-found_of p (best os) m)));
        not_deprecated = nd;
        member = mc';
        is_available = av;
        origin = offer-IsOffer x laws f range installed cat _ o ec;
        versioned = ev;
        valid = validate_sound validations b eval;
        returned = ed ∙ ap (λ (w : WalkState). w.prior) is_state;
      }

  -- A bundle that `Resolve` returns is eligible in the package that it comes from: it is an entry of
  -- a channel that was asked for, if any was; its version lies in the range that was asked for, if
  -- any was; and unless the policy is to skip the check, it has the installed version and release,
  -- or an entry of a channel that was asked for (of any channel, if none was) says that it replaces
  -- or skips what is installed.
  pub resolve-IsEligible :
      ExternalLaws x
      → (b : Bundle) (vr : VersionRelease x) (d : Option Deprecation)
      → resolve x src validations f installed ≡ ok (b, vr, d)
      → (cat : ClusterCatalog) × (fbc : DeclarativeConfig) × (range : Option
          (Version x.PrVersion → Bool))
        × (src.get_package cat f.package_name ≡ ok (some fbc))
        × (version_range x f.version ≡ ok range)
        × In b fbc.bundles
        × IsEligible x f range installed fbc b
  resolve-IsEligible laws b vr d h =
      let r = resolve-Resolution laws b vr d h in
      let o = r.origin in
      (
        r.catalog,
        o.fbc,
        r.range,
        o.read,
        r.ranged,
        subst (λ (c : Bundle). In c o.fbc.bundles) r.is_bundle o.member,
        subst (λ (c : Bundle). IsEligible x f r.range installed o.fbc c) r.is_bundle
            (predicates-IsEligible x f r.range installed o.fbc o.tests _ o.tested o.passes),
      )
