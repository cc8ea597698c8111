-- ===== src/Applier/Boxcutter/Crash.antt =====
-- The order of the steps that create a revision: whatever fails, its secrets come first.
use operator_controller.Prelude.{
  ◌≡◌, refl, sym, ap, ◌∙◌, List, [], ◌∷◌, ◌++◌, Option, none, some, Bool, true, false, Result, ok,
  err, if◌then◌else◌, In, In-append_left, In-append_right, inl, inr, ◌⊎◌, Bool-cases, Result-cases,
  contains,
}
use operator_controller.Exec.{◌>>=◌, pure, or_fail}
use operator_controller.Exec.Keeps.{
  Keeps, Keeps-pure, Keeps-if, Keeps-bind, Keeps-bind_at, Keeps-or_fail,
}
use operator_controller.Exec.Leads.{Behind, Ends, Ends-bind}
use operator_controller.Applier.Packer.{EncodingApi, Secret, PackResult}
use operator_controller.Applier.Packer.Refs.{some-none, some_injective}
use operator_controller.Applier.Boxcutter.{
  Existing, Desired, OwnedSecret, ApplyError, BoxCall, apply_revision, create_secret, Boxcutter,
  Calls, BoxCluster, ask, creating_revision,
}
use operator_controller.Applier.Boxcutter.Apply.{
  request, create_secrets, patch_owner_refs_on_secrets, patch_secret_owner_references,
  create_packed, unless_exists,
}

module _ {O R : Type 0} where
  abbrev is_apply : BoxCall O R → Bool
  is_apply (apply_revision _) = true
  is_apply _ = false

  abbrev behind : BoxCall O R → Option (Calls O R) → Option (Calls O R)
  behind c none = none
  behind c (some cs) = some (c ∷ cs)

  -- the calls before the first revision is applied, if one is
  abbrev pub before_apply : Calls O R → Option (Calls O R)
  before_apply [] = none
  before_apply (c ∷ cs) = if is_apply c then some [] else behind c (before_apply cs)

  behind-none : (c : BoxCall O R) (o : Option (Calls O R)) → behind c o ≡ none → o ≡ none
  behind-none c none h = refl
  behind-none c (some cs) h = absurd (some-none h)

  before_apply-none :
      (cs : Calls O R) (c : BoxCall O R)
      → before_apply cs ≡ none
      → is_apply c ≡ false
      → before_apply (cs ++ c ∷ []) ≡ none
  before_apply-none [] c h k = rw k refl
  before_apply-none (d ∷ cs) c h k = elim (Bool-cases (is_apply d)) [
    | inl t ↦ absurd (some-none (rw t at h))
    | inr t ↦ rw t (ap (behind d) (before_apply-none cs c (behind-none d _ (rw t at h)) k))
  ]

  before_apply-first :
      (cs : Calls O R) (c : BoxCall O R)
      → before_apply cs ≡ none
      → is_apply c ≡ true
      → before_apply (cs ++ c ∷ []) ≡ some cs
  before_apply-first [] c h k = rw k refl
  before_apply-first (d ∷ cs) c h k = elim (Bool-cases (is_apply d)) [
    | inl t ↦ absurd (some-none (rw t at h))
    | inr t ↦ rw t (ap (behind d) (before_apply-first cs c (behind-none d _ (rw t at h)) k))
  ]

  behind-some :
      (d : BoxCall O R) (o : Option (Calls O R)) (b : Calls O R)
      → behind d o ≡ some b
      → (rest : Calls O R) × (o ≡ some rest) × (d ∷ rest ≡ b)
  behind-some d none b h = absurd (some-none (sym h))
  behind-some d (some rest) b h = (rest, refl, some_injective h)

  before_apply-some :
      (cs : Calls O R) (c : BoxCall O R) (b : Calls O R)
      → before_apply cs ≡ some b
      → before_apply (cs ++ c ∷ []) ≡ some b
  before_apply-some [] c b h = absurd (some-none (sym h))
  before_apply-some (d ∷ cs) c b h = elim (Bool-cases (is_apply d)) [
    | inl t ↦ rw t (rw t at h)
    | inr t ↦
        let (rest, e, f) = behind-some d (before_apply cs) b (rw t at h) in
        rw t (ap (behind d) (before_apply-some cs c rest e) ∙ ap some f)
  ]

module _ (x : EncodingApi) (R : Type 0) (cl : BoxCluster x.Object R) (bc : Boxcutter) where
  open x use {Object}

  abbrev NoneApplied : Calls Object R → Type 0
  NoneApplied s = before_apply s ≡ none

  -- The secrets of the list were created before.
  abbrev Created : List Secret → Calls Object R → Type 0
  Created [] s = Unit
  Created (t ∷ ts) s = In (create_secret t) s × Created ts s

  Created-In :
      (t : Secret) (ts : List Secret) (s : Calls Object R)
      → Created ts s
      → In t ts
      → In (create_secret t) s
  Created-In t [] s h m = absurd m
  Created-In t (u ∷ ts) s h (inl e) = rw e h.0
  Created-In t (u ∷ ts) s h (inr m) = Created-In t ts s h.1 m

  -- A revision was applied, behind the secrets.
  record AppliedAfter (secrets : List Secret) (s : Calls Object R) : Type 0 where
    earlier : Calls Object R
    split : before_apply s ≡ some earlier
    created : Created secrets earlier

  Created-append :
      (ts : List Secret) (s : Calls Object R) (c : BoxCall Object R)
      → Created ts s
      → Created ts (s ++ c ∷ [])
  Created-append [] s c h = tt
  Created-append (t ∷ ts) s c h =
      (In-append_left (create_secret t) s (c ∷ []) h.0, Created-append ts s c h.1)

  reorder :
      (u : Secret) (done ts : List Secret) (r : Result ApplyError Unit) (t : Calls Object R)
      → Behind (λ t. NoneApplied t × Created (u ∷ done) t × Created ts t) NoneApplied r t
      → Behind (λ t. NoneApplied t × Created done t × Created (u ∷ ts) t) NoneApplied r t
  reorder u done ts (ok _) t (n, c, d) = (n, c.1, (c.0, d))
  reorder u done ts (err _) t h = h

  appends :
      {E A : Type 0} (secrets : List Secret) (c : BoxCall Object R)
      (answer : Calls Object R → Result E A)
      → Keeps (AppliedAfter secrets) (ask Object R c answer)
  unfolding ask
  appends secrets c answer = record {
    at = λ s h. record {
      earlier = h.earlier;
      split = before_apply-some s c h.earlier h.split;
      created = h.created;
    };
  }

  -- what creating secrets leads to, where those of `done` exist
  create_secrets-Created :
      (ts done : List Secret) (s : Calls Object R)
      → NoneApplied s
      → Created done s
      → Behind
          (λ t. NoneApplied t × Created done t × Created ts t)
          NoneApplied
          (create_secrets x R cl bc ts s).0
          (create_secrets x R cl bc ts s).1
  unfolding create_secrets pure ◌>>=◌ or_fail ask
  create_secrets-Created [] done s h k = (h, k, tt)
  create_secrets-Created (u ∷ ts) done s h k =
      let now = s ++ create_secret u ∷ [] in
      let none_yet = before_apply-none s (create_secret u) h refl in
      elim (Result-cases (unless_exists (cl.on_create now))) [
        | inr (e, q) ↦ rw q none_yet
        | inl (_, q) ↦ rw q (
            reorder u done ts (create_secrets x R cl bc ts now).0
              (create_secrets x R cl bc ts now).1
              (create_secrets-Created ts (u ∷ done) now none_yet (
                In-append_right (create_secret u) s (create_secret u ∷ []) (inl refl),
                Created-append done s (create_secret u) k,
              )))
      ]

  Keeps-AppliedAfter-ask :
      {E A : Type 0} (secrets : List Secret) (c : BoxCall Object R)
      (answer : Calls Object R → Result E A) (wrap : E → ApplyError)
      → Keeps (AppliedAfter secrets) (request x R cl bc c answer wrap)
  Keeps-AppliedAfter-ask secrets c answer wrap =
      Keeps-or_fail (ask Object R c answer) (λ e s. s) wrap (appends secrets c answer) (λ _ _ h. h)

  Keeps-patches :
      (secrets : List Secret) (cos : Existing) (owned : List OwnedSecret)
      → Keeps (AppliedAfter secrets) (patch_owner_refs_on_secrets x R cl bc cos owned)
  unfolding patch_owner_refs_on_secrets
  Keeps-patches secrets cos [] = Keeps-pure tt
  Keeps-patches secrets cos (o ∷ owned) =
      let others = Keeps-patches secrets cos owned in
      Keeps-if (contains cos.uid o.owner_uids) _ _ others
        (Keeps-bind _ _ (Keeps-AppliedAfter-ask secrets _ _ _) (λ _. others))

  Keeps-owner_references :
      (secrets : List Secret) (rev : Desired Object R) (ts : List Secret)
      → Keeps (AppliedAfter secrets) (patch_secret_owner_references x R cl bc rev ts)
  unfolding patch_secret_owner_references
  Keeps-owner_references secrets rev [] = Keeps-pure tt
  Keeps-owner_references secrets rev (t ∷ ts) =
      Keeps-bind _ _ (Keeps-AppliedAfter-ask secrets _ _ _) (λ cos. Keeps-patches secrets cos _)

  -- Either nothing was applied, or it was applied behind the secrets.
  abbrev IsSafe : List Secret → Calls Object R → Type 0
  IsSafe secrets s = NoneApplied s ⊎ AppliedAfter secrets s

  applied :
      (secrets : List Secret) (d : Desired Object R) (s : Calls Object R)
      → NoneApplied s
      → Created secrets s
      → AppliedAfter secrets
          (request x R cl bc (apply_revision d) cl.on_apply creating_revision s).1
  unfolding ask or_fail
  applied secrets d s h k =
      let now : AppliedAfter secrets (s ++ apply_revision d ∷ []) = record {
        earlier = s;
        split = before_apply-first s (apply_revision d) h refl;
        created = k;
      } in
      elim (Result-cases (cl.on_apply (s ++ apply_revision d ∷ []))) [
        | inl (_, e) ↦ rw e now
        | inr (_, e) ↦ rw e now
      ]

  weaken :
      (secrets : List Secret) (r : Result ApplyError Unit) (t : Calls Object R)
      → Behind (λ t. NoneApplied t × Created [] t × Created secrets t) NoneApplied r t
      → Behind (λ t. NoneApplied t × Created secrets t) (IsSafe secrets) r t
  weaken secrets (ok _) t (n, _, c) = (n, c)
  weaken secrets (err _) t h = inl h

  create_packed-IsSafe :
      (rev : Desired Object R) (packed : PackResult)
      → Ends NoneApplied (IsSafe packed.secrets) (create_packed x R cl bc rev packed)
  unfolding create_packed
  create_packed-IsSafe rev packed =
      Ends-bind {Q = λ t. NoneApplied t × Created packed.secrets t}
        (create_secrets x R cl bc packed.secrets) _
        (record {
          at = λ s h.
              weaken packed.secrets (create_secrets x R cl bc packed.secrets s).0 _
                (create_secrets-Created packed.secrets [] s h tt);
        })
        (λ _. record {
          at = λ s h. inr (
              Keeps-bind_at {P = AppliedAfter packed.secrets} _ _ s
                (applied packed.secrets _ s h.0 h.1)
                (λ _ _. Keeps-owner_references packed.secrets rev packed.secrets));
        })

  safe_before :
      (secrets : List Secret) (secret : Secret) (s before : Calls Object R)
      → IsSafe secrets s
      → before_apply s ≡ some before
      → In secret secrets
      → In (create_secret secret) before
  safe_before secrets secret s before (inl n) h m = absurd (some-none (sym h ∙ n))
  safe_before secrets secret s before (inr a) h m =
      let e : a.earlier ≡ before = some_injective (sym a.split ∙ h) in
      rw (← e) (Created-In secret secrets a.earlier a.created m)

  -- Wherever the steps that create a revision stop, the revision is applied only behind the calls
  -- that create each of its secrets.
  pub create_packed_applies_last :
      (rev : Desired Object R) (packed : PackResult) (secret : Secret)
      (calls before : Calls Object R)
      → before_apply calls ≡ none
      → before_apply (create_packed x R cl bc rev packed calls).1 ≡ some before
      → In secret packed.secrets
      → In (create_secret secret) before
  create_packed_applies_last rev packed secret calls before start h m =
      safe_before packed.secrets secret _ before ((create_packed-IsSafe rev packed).at calls start)
        h m
