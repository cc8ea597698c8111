-- ===== src/Resolve.antt =====
-- internal/operator-controller/resolve/catalog.go: the bundle that a ClusterExtension asks for, from
-- all catalogs. Logging and the statistics for it are left out.
pub mod Offers
pub mod Priority
pub mod Eligible
pub mod Candidates
pub mod Sound
use operator_controller.Prelude.{
  ℕ, zero, suc, ◌+◌, ℤ, ltb_ℤ, eq_ℤ, ltb, String, List, [], ◌∷◌, ◌++◌, Option, none, some, Bool,
  true, false, ◌&&◌, ◌||◌, not, Result, ok, err, ◌>>=◌, ◌>>◌, Ordering, lt, eq, gt, if◌then◌else◌,
  ◌==◌, contains, length,
}
use operator_controller.Order.{then_by}
use operator_controller.Sort.{sort_stable}
use operator_controller.Filter.{conj, delete_func, delete_func_leftover, in_place}
use operator_controller.Externals.{Version, Externals}
use operator_controller.Bundle.{Bundle, VersionError, VersionRelease, get_version_and_release}
use operator_controller.Catalog.{
  Channel, Deprecation, DeclarativeConfig, ClusterCatalog, zero_channel, is_fbc_empty,
  is_deprecated, availability_mode_unavailable,
}
use operator_controller.Compare.{new_version_range, by_version_and_release, by_deprecation}
use operator_controller.Successors.{BundleMetadata, in_any_channel, in_semver_range, successors_of}

-- `foundBundle`
pub record Found : Type 0 where
  pub bundle : Bundle
  pub catalog : String
  pub priority : ℤ

pub data ResolveError : Type 0 where
  invalid_selector : ResolveError
  invalid_range : String → ResolveError
  listing_catalogs : String → ResolveError
  getting_package : String → String → ResolveError
  finding_upgrade_edges : VersionError → ResolveError
  resolution_error : List Found → ResolveError
  bundle_version : VersionError → ResolveError
  validating : String → ResolveError

-- the variables of `Resolve` that the walk over the catalogs changes
pub record WalkState : Type 0 where
  pub resolved : List Found
  pub prior : Option Deprecation

-- `thisBundle` of a package, with `thisDeprecation`
pub record Offer : Type 0 where
  pub found : Found
  pub deprecation : Option Deprecation

abbrev pub start : WalkState
start = record { resolved = []; prior = none }

abbrev pub policy_self_certified : String
policy_self_certified = "SelfCertified"

abbrev pub head? {ℓ} : {A : Type ℓ} → List A → Option A
head? [] = none
head? (a ∷ _) = some a

abbrev pub last_of {ℓ} : {A : Type ℓ} → A → List A → A
last_of a [] = a
last_of a (b ∷ bs) = last_of b bs

abbrev pub edges_error : {A : Type 0} → Result VersionError A → Result ResolveError A
edges_error (ok a) = ok a
edges_error (err e) = err (finding_upgrade_edges e)

abbrev pub add : List Found → Offer → WalkState
add resolved o = record { resolved = resolved ++ o.found ∷ []; prior = o.deprecation }

merge_with : List Found → WalkState → Offer → WalkState
merge_with [] s o = add [] o
merge_with (f ∷ fs) s o =
    let current = is_deprecated o.found.bundle o.deprecation in
    let prior = is_deprecated (last_of f fs).bundle s.prior in
    if current && not prior then s else if not current && prior then add [] o else add (f ∷ fs) o

-- The end of the callback: deprecated candidates give way to others.
unfoldable pub merge : WalkState → Option Offer → WalkState
unfolding merge_with
merge s none = s
merge s (some o) = merge_with s.resolved s o

-- `priority > priority`, highest first
abbrev pub by_priority : Found → Found → Ordering
by_priority a b =
    if ltb_ℤ b.priority a.priority then lt else if ltb_ℤ a.priority b.priority then gt else eq

reduce : List Found → List Found
reduce (a ∷ b ∷ rest) = if eq_ℤ a.priority b.priority then a ∷ b ∷ rest else a ∷ []
reduce l = l

-- "Resolve for priority": the highest priority wins if no other candidate has it
unfoldable pub resolve_priority : List Found → List Found
unfolding reduce
resolve_priority l = if ltb 1 (length l) then reduce (sort_stable by_priority l) else l

-- "Check for ambiguity"
unfoldable pub unambiguous : List Found → Result ResolveError Found
unambiguous (f ∷ []) = ok f
unambiguous l = err (resolution_error l)

unfoldable pub validate : List (Bundle → Option String) → Bundle → Result ResolveError Unit
validate [] b = ok tt
validate (v ∷ vs) b = elim (v b) [ none ↦ validate vs b | some e ↦ err (validating e) ]

abbrev pub unavailable : ClusterCatalog → Bool
unavailable c = c.availability_mode == availability_mode_unavailable

-- The catalogs of the cluster and their contents, as `CatalogWalker` is given them.
pub record Source (x : Externals) : Type 0 where
  pub list_catalogs : x.Selector → Result String (List ClusterCatalog)
  pub get_package : ClusterCatalog → String → Result String (Option DeclarativeConfig)

-- `ext.Spec.Source.Catalog`
pub record CatalogFilter (x : Externals) : Type 0 where
  pub package_name : String
  pub version : String
  pub channels : List String
  pub selector : x.LabelSelector
  pub upgrade_constraint_policy : String

module _ (x : Externals) where
  abbrev pub Test : Type 0
  Test = Bundle → Bool

  -- the loop of `CatalogWalker` over the catalogs, ended by the first error of the callback
  walk_loop :
      {S : Type 0}
      → Source x
      → String
      → (S → ClusterCatalog → Result String (Option DeclarativeConfig) → Result ResolveError S)
      → List ClusterCatalog
      → S
      → Result ResolveError S
  walk_loop src name f [] s = ok s
  walk_loop src name f (c ∷ cs) s = do
    s' ← f s c (src.get_package c name)
    walk_loop src name f cs s'

  abbrev pub listed :
      Result String (List ClusterCatalog) → Result ResolveError (List ClusterCatalog)
  listed (ok cs) = ok cs
  listed (err e) = err (listing_catalogs e)

  unfoldable pub catalog_walker :
      {S : Type 0}
      → Source x
      → String
      → (S → ClusterCatalog → Result String (Option DeclarativeConfig) → Result ResolveError S)
      → x.Selector
      → S
      → Result ResolveError S
  unfolding walk_loop
  catalog_walker src name f sel s = do
    cs ← listed (src.list_catalogs sel)
    walk_loop src name f (delete_func cs unavailable) s

  -- the test for the channels asked for, and the channels of the package after it was built:
  -- `slices.DeleteFunc` works in the package's own slice
  unfoldable pub channel_tests : List String → DeclarativeConfig → List Test × List Channel
  channel_tests [] fbc = ([], fbc.channels)
  channel_tests (c ∷ cs) fbc =
      let other = λ (ch : Channel). not (contains ch.name (c ∷ cs)) in
      (
        in_any_channel (delete_func fbc.channels other) ∷ [],
        delete_func_leftover zero_channel fbc.channels other,
      )

  abbrev pub range_tests : Option (Version x.PrVersion → Bool) → List Test
  range_tests none = []
  range_tests (some range) = in_semver_range x range ∷ []

  abbrev pub successor_test :
      Bool → Option BundleMetadata → List Channel → Result ResolveError (List Test)
  successor_test true installed channels = ok []
  successor_test false none channels = ok []
  successor_test false (some b) channels = do
    p ← edges_error (successors_of x b channels)
    ok (p ∷ [])

  -- the `predicates` of the callback
  unfoldable pub predicates :
      CatalogFilter x
      → Option (Version x.PrVersion → Bool)
      → Option BundleMetadata
      → DeclarativeConfig
      → Result ResolveError (List Test)
  predicates f range installed fbc =
      let (tests, channels) = channel_tests f.channels fbc in
      do
        edges ←
            successor_test (f.upgrade_constraint_policy == policy_self_certified) installed channels
        ok (tests ++ (range_tests range ++ edges))

  abbrev pub by_deprecation_of : Option Deprecation → Bundle → Bundle → Ordering
  by_deprecation_of none a b = eq
  by_deprecation_of (some d) a b = by_deprecation d a b

  -- the function that the bundles of a package are sorted by
  abbrev pub bundle_order : Option Deprecation → Bundle → Bundle → Ordering
  bundle_order d a b = then_by (by_deprecation_of d a b) (by_version_and_release x a b)

  abbrev pub offer_of : ClusterCatalog → Option Deprecation → Option Bundle → Option Offer
  offer_of cat d none = none
  offer_of cat d (some b) = some (record {
    found = record { bundle = b; catalog = cat.name; priority = cat.priority };
    deprecation = d;
  })

  -- the callback, up to the candidate of this package
  unfoldable pub offer :
      CatalogFilter x
      → Option (Version x.PrVersion → Bool)
      → Option BundleMetadata
      → ClusterCatalog
      → Result String (Option DeclarativeConfig)
      → Result ResolveError (Option Offer)
  offer f range installed cat (err e) = err (getting_package cat.name e)
  offer f range installed cat (ok none) = ok none
  offer f range installed cat (ok (some fbc)) = if is_fbc_empty (some fbc) then ok none else do
    tests ← predicates f range installed fbc
    let d = head? fbc.deprecations
    let bundles = in_place fbc.bundles (conj tests)
    ok (offer_of cat d (head? (sort_stable (bundle_order d) bundles)))

  unfoldable pub visit :
      CatalogFilter x
      → Option (Version x.PrVersion → Bool)
      → Option BundleMetadata
      → WalkState
      → ClusterCatalog
      → Result String (Option DeclarativeConfig)
      → Result ResolveError WalkState
  visit f range installed s cat fbc = do o ← offer f range installed cat fbc; ok (merge s o)

  abbrev pub selector_of : Option x.Selector → Result ResolveError x.Selector
  selector_of none = err invalid_selector
  selector_of (some s) = ok (if x.is_nothing s then x.everything else s)

  abbrev pub range_of :
      String
      → Option (Version x.PrVersion → Bool)
      → Result ResolveError (Option (Version x.PrVersion → Bool))
  range_of text none = err (invalid_range text)
  range_of text (some range) = ok (some range)

  unfoldable pub version_range : String → Result ResolveError (Option (Version x.PrVersion → Bool))
  version_range text = if text == "" then ok none else range_of text (new_version_range x text)

  abbrev pub version_of : Bundle → Result ResolveError (VersionRelease x)
  version_of b = elim (get_version_and_release x b) [
    | ok vr ↦ ok vr
    | err e ↦ err (bundle_version e)
  ]

  -- the part of `Resolve` behind the walk
  unfoldable pub conclude :
      List (Bundle → Option String)
      → WalkState
      → Result ResolveError (Bundle × VersionRelease x × Option Deprecation)
  conclude validations s = do
    found ← unambiguous (resolve_priority s.resolved)
    vr ← version_of found.bundle
    validate validations found.bundle
    ok (found.bundle, vr, s.prior)

  -- `CatalogResolver.Resolve`
  unfoldable pub resolve :
      Source x
      → List (Bundle → Option String)
      → CatalogFilter x
      → Option BundleMetadata
      → Result ResolveError (Bundle × VersionRelease x × Option Deprecation)
  resolve src validations f installed = do
    sel ← selector_of (x.as_selector f.selector)
    range ← version_range f.version
    s ← catalog_walker src f.package_name (visit f range installed) sel start
    conclude validations s
