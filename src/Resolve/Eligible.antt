-- ===== src/Resolve/Eligible.antt =====
-- What the predicates of a package let through.
use operator_controller.Prelude.{
  ◌≡◌, ◌≢◌, refl, sym, String, List, [], ◌∷◌, ◌++◌, Option, none, some, Bool, true, false, ◌&&◌,
  not, ◌⊎◌, inl, inr, ok, eq, arith, In, any_of, any_of-In, contains, contains-In, Bool-cases, ◌==◌,
  eq_iff, subst, ok_injective, ok-ne-err, Result-cases, ◌∙◌, >>=-eq-ok, Option-cases,
}
use mathlib.Core.Option.{some-injective}
use operator_controller.Filter.{
  conj, conj-append, disj, delete_func, In-delete_func, any_of-delete_func_leftover,
}
use operator_controller.Externals.{Version, Externals}
use operator_controller.Bundle.{
  Bundle, VersionRelease, get_version_and_release, version_release_compare,
  new_legacy_registry_v1_version_release,
}
use operator_controller.Catalog.{Channel, ChannelEntry, DeclarativeConfig, zero_channel}
use operator_controller.Successors.{
  BundleMetadata, in_any_channel, in_semver_range, exact_version_release, in_skip_range,
  is_successor, is_edge, legacy_successor, successors_of,
}
use operator_controller.Resolve.{
  CatalogFilter, channel_tests, predicates, policy_self_certified, range_tests, successor_test,
}

-- The bundle is an entry of a channel of the package that is among those asked for.
abbrev pub IsInChannels : List String → List Channel → Bundle → Type 0
IsInChannels names channels b =
    (ch : Channel) × In ch channels
    × In ch.name names
    × (e : ChannelEntry) × In e ch.entries
    × (e.name ≡ b.name)

module _ (x : Externals) where
  -- the entry says that it comes after the installed bundle
  abbrev pub Succeeds : BundleMetadata → Version x.PrVersion → ChannelEntry → Type 0
  Succeeds i v e =
      (e.replaces ≡ i.name) ⊎ (In i.name e.skips ⊎ (in_skip_range x e.skip_range v ≡ true))

  -- an entry for the bundle that succeeds the installed one, in a channel that `P` allows
  abbrev pub HasEdge : (Channel → Type 0) → BundleMetadata → List Channel → Bundle → Type 0
  HasEdge P i channels b =
      (v : Version x.PrVersion) × (x.parse i.version ≡ some v)
      × (ch : Channel) × In ch channels
      × P ch
      × (e : ChannelEntry) × In e ch.entries
      × (e.name ≡ b.name)
      × Succeeds i v e

  -- the bundle has the version and the release that are installed
  abbrev pub IsSameVersion : BundleMetadata → Bundle → Type 0
  IsSameVersion i b =
      (a c : VersionRelease x) × (new_legacy_registry_v1_version_release x i.version ≡ ok a)
      × (get_version_and_release x b ≡ ok c)
      × (version_release_compare x a c ≡ eq)

  -- no channel was asked for, or the channel is among those that were
  abbrev pub Asked : List String → Channel → Type 0
  Asked [] ch = Unit
  Asked (c ∷ cs) ch = In ch.name (c ∷ cs)

  pub record IsEligible (f : CatalogFilter x) (range : Option (Version x.PrVersion → Bool))
      (installed : Option BundleMetadata) (fbc : DeclarativeConfig) (b : Bundle) : Type 0 where
    pub in_channels : f.channels ≢ [] → IsInChannels f.channels fbc.channels b
    pub in_range :
        (r : Version x.PrVersion → Bool)
        → range ≡ some r
        → (vr : VersionRelease x) × (get_version_and_release x b ≡ ok vr) × (r vr.version ≡ true)
    pub is_upgrade :
        f.upgrade_constraint_policy ≢ policy_self_certified
        → (i : BundleMetadata) → installed ≡ some i
        → IsSameVersion i b ⊎ HasEdge (Asked f.channels) i fbc.channels b

  in_any_channel_sound :
      (channels : List Channel) (b : Bundle)
      → in_any_channel channels b ≡ true
      → (ch : Channel) × In ch channels × (e : ChannelEntry) × In e ch.entries × (e.name ≡ b.name)
  unfolding in_any_channel
  in_any_channel_sound channels b h =
      let (ch, m, q) =
        any_of-In
          (λ (ch : Channel). any_of (λ (entry : ChannelEntry). entry.name == b.name) ch.entries)
          channels h in
      let (e, n, r) = any_of-In (λ (entry : ChannelEntry). entry.name == b.name) ch.entries q in
      (ch, m, e, n, (eq_iff e.name b.name).0 r)

  -- what `slices.DeleteFunc` keeps has a name that was asked for
  asked_of_kept :
      (ch : Channel) (channels : List Channel) (names : List String)
      → In ch (delete_func channels (λ c. not (contains c.name names)))
      → In ch channels × In ch.name names
  asked_of_kept ch channels names m =
      let (k, d) = In-delete_func ch channels (λ c. not (contains c.name names)) m in
      (k, contains-In ch.name names (ground arith))

  channel_tests_sound :
      (names : List String) (fbc : DeclarativeConfig) (b : Bundle)
      → conj (channel_tests x names fbc).0 b ≡ true
      → names ≢ []
      → IsInChannels names fbc.channels b
  unfolding channel_tests conj
  channel_tests_sound [] fbc b h n = absurd (n refl)
  channel_tests_sound (c ∷ cs) fbc b h n =
      let (ch, m, e, k, q) = in_any_channel_sound _ b (ground arith) in
      let (m', a) = asked_of_kept ch fbc.channels (c ∷ cs) m in (ch, m', a, e, k, q)

  is_successor_sound :
      (i : BundleMetadata) (v : Version x.PrVersion) (e : ChannelEntry)
      → is_successor x i v e ≡ true
      → Succeeds i v e
  unfolding is_successor
  is_successor_sound i v e h = elim (Bool-cases (e.replaces == i.name)) [
    | inl q ↦ inl ((eq_iff e.replaces i.name).0 q)
    | inr q ↦ elim (Bool-cases (any_of (λ skip. skip == i.name) e.skips)) [
      | inl r ↦
          let (skip, m, t) = any_of-In (λ skip. skip == i.name) e.skips r in
          inr (inl (subst (λ s. In s e.skips) ((eq_iff skip i.name).0 t) m))
      | inr r ↦ inr (inr (rw (q, r) at h))
    ]
  ]

  edge_sound :
      (P : Channel → Type 0) (i : BundleMetadata) (v : Version x.PrVersion) (b : Bundle)
      (channels : List Channel) (ch : Channel)
      → x.parse i.version ≡ some v
      → In ch channels
      → P ch
      → is_edge x i v b ch ≡ true
      → HasEdge P i channels b
  edge_sound P i v b channels ch p m a h =
      let (e, k, q) =
        any_of-In (λ (entry : ChannelEntry). (b.name == entry.name) && is_successor x i v entry)
          ch.entries h in
      (
        v,
        p,
        ch,
        m,
        a,
        e,
        k,
        sym ((eq_iff b.name e.name).0 (ground arith)),
        is_successor_sound i v e (ground arith),
      )

  -- Upgrade edges are looked for in the channels that `channel_tests` leaves in the package.
  edges_sound :
      (names : List String) (fbc : DeclarativeConfig) (i : BundleMetadata) (v : Version x.PrVersion)
      (b : Bundle)
      → x.parse i.version ≡ some v
      → any_of (is_edge x i v b) (channel_tests x names fbc).1 ≡ true
      → HasEdge (Asked names) i fbc.channels b
  unfolding channel_tests
  edges_sound [] fbc i v b p h =
      let (ch, m, q) = any_of-In (is_edge x i v b) fbc.channels h in
      edge_sound (Asked []) i v b fbc.channels ch p m tt q
  edges_sound (c ∷ cs) fbc i v b p h =
      let other = λ (ch : Channel). not (contains ch.name (c ∷ cs)) in
      let kept =
        any_of-delete_func_leftover zero_channel fbc.channels other (is_edge x i v b) refl in
      let (ch, m, q) =
        any_of-In (is_edge x i v b) (delete_func fbc.channels other) (sym kept ∙ h) in
      let (m', a) = asked_of_kept ch fbc.channels (c ∷ cs) m in
      edge_sound (Asked (c ∷ cs)) i v b fbc.channels ch p m' a q

  exact_sound :
      (i : BundleMetadata) (a : VersionRelease x) (b : Bundle)
      → new_legacy_registry_v1_version_release x i.version ≡ ok a
      → exact_version_release x a b ≡ true
      → IsSameVersion i b
  unfolding exact_version_release
  exact_sound i a b p h = elim (Result-cases (get_version_and_release x b)) [
    | inl (c, q) ↦ (a, c, p, q, ground arith)
    | inr (e, q) ↦ absurd (ground arith)
  ]

  disj_pair :
      (p q : Bundle → Bool) (b : Bundle) → disj (p ∷ q ∷ []) b ≡ true → (p b ≡ true) ⊎ (q b ≡ true)
  unfolding disj
  disj_pair p q b h = ground arith

  successor_sound :
      (names : List String) (fbc : DeclarativeConfig) (i : BundleMetadata) (b : Bundle)
      (p : Bundle → Bool)
      → successors_of x i (channel_tests x names fbc).1 ≡ ok p
      → p b ≡ true
      → IsSameVersion i b ⊎ HasEdge (Asked names) i fbc.channels b
  unfolding successors_of legacy_successor
  successor_sound names fbc i b p h t =
      let (a, ea, h2) = >>=-eq-ok (new_legacy_registry_v1_version_release x i.version) _ h in
      elim (Option-cases (x.parse i.version)) [
        | inl n ↦ absurd (ground arith)
        | inr (v, ev) ↦
            elim (disj_pair (λ c. any_of (is_edge x i v c) (channel_tests x names fbc).1)
              (exact_version_release x a) b
              (subst (λ (z : Bundle → Bool). z b ≡ true)
                (sym (ok_injective (rw (ev, legacy_successor) at h2))) t)) [
                  | inl e ↦ inr (edges_sound names fbc i v b ev e)
                  | inr e ↦ inl (exact_sound i a b ea e)
                ]
      ]

  range_sound :
      (range : Option (Version x.PrVersion → Bool)) (b : Bundle) (r : Version x.PrVersion → Bool)
      → conj (range_tests x range) b ≡ true
      → range ≡ some r
      → (vr : VersionRelease x) × (get_version_and_release x b ≡ ok vr) × (r vr.version ≡ true)
  unfolding conj in_semver_range
  range_sound none b r h e = cc
  range_sound (some q) b r h e = elim (Result-cases (get_version_and_release x b)) [
    | inl (vr, g) ↦ (
      vr,
      g,
      subst (λ (z : Version x.PrVersion → Bool). z vr.version ≡ true) (some-injective _ _ e)
          (ground arith),
    )
    | inr (_, g) ↦ absurd (ground arith)
  ]

  upgrade_sound :
      (names : List String) (fbc : DeclarativeConfig) (installed : Option BundleMetadata)
      (self : Bool) (edges : List (Bundle → Bool)) (b : Bundle) (i : BundleMetadata)
      → successor_test x self installed (channel_tests x names fbc).1 ≡ ok edges
      → conj edges b ≡ true
      → self ≡ false
      → installed ≡ some i
      → IsSameVersion i b ⊎ HasEdge (Asked names) i fbc.channels b
  unfolding conj
  upgrade_sound names fbc installed true edges b i h t s e = cc
  upgrade_sound names fbc none false edges b i h t s e = cc
  upgrade_sound names fbc (some j) false edges b i h t s e =
      elim (Result-cases (successors_of x j (channel_tests x names fbc).1)) [
        | inr (_, g) ↦ absurd (ok-ne-err edges _ (sym (rw g at h)))
        | inl (p, g) ↦
            let at_j : IsSameVersion j b ⊎ HasEdge (Asked names) j fbc.channels b =
              successor_sound names fbc j b p g (passes p (ok_injective (rw g at h))) in
            subst
              (λ (k : BundleMetadata). IsSameVersion k b ⊎ HasEdge (Asked names) k fbc.channels b)
              (some-injective _ _ e) at_j
      ]
    where
      passes : (p : Bundle → Bool) → p ∷ [] ≡ edges → p b ≡ true
      passes p q = ground (arith, subst (λ (l : List (Bundle → Bool)). conj l b ≡ true) (sym q) t)

  -- A bundle that passes all tests of its package is eligible.
  pub predicates-IsEligible :
      (f : CatalogFilter x) (range : Option (Version x.PrVersion → Bool))
      (installed : Option BundleMetadata) (fbc : DeclarativeConfig) (tests : List (Bundle → Bool))
      (b : Bundle)
      → predicates x f range installed fbc ≡ ok tests
      → conj tests b ≡ true
      → IsEligible f range installed fbc b
  unfolding predicates
  predicates-IsEligible f range installed fbc tests b h t =
      let self = f.upgrade_constraint_policy == policy_self_certified in
      let (edges, e, q) =
        >>=-eq-ok (successor_test x self installed (channel_tests x f.channels fbc).1) _ h in
      let all : conj ((channel_tests x f.channels fbc).0 ++ (range_tests x range ++ edges)) b
          ≡ true =
        subst (λ (l : List (Bundle → Bool)). conj l b ≡ true) (sym (ok_injective q)) t in
      let parts = conj-append (channel_tests x f.channels fbc).0 (range_tests x range ++ edges) b in
      let rest = conj-append (range_tests x range) edges b in
      record {
        in_channels = channel_tests_sound f.channels fbc b (ground (arith, parts));
        in_range = λ r. range_sound range b r (ground (arith, parts, rest));
        is_upgrade = λ n i.
            upgrade_sound f.channels fbc installed self edges b i e (ground (arith, parts, rest))
              (ground (arith, eq_iff f.upgrade_constraint_policy policy_self_certified));
      }
