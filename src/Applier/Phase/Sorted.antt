-- ===== src/Applier/Phase/Sorted.antt =====
-- The phases that PhaseSort returns: where they come from and how they are ordered.
use Prim.Native.String
use operator_controller.Prelude.{
  String, ◌≡◌, ◌≢◌, refl, sym, List, [], ◌∷◌, inl, inr, ◌⊎◌, ◌==◌, eq_iff, any_of, any_of_of-In, ap,
  In, Bool-cases, Bool, true, false, arith, if◌then◌else◌,
}
use operator_controller.Order.{IsPreorder, lex-IsPreorder, on-IsPreorder}
use operator_controller.Order.Text.{compare-IsPreorder}
use operator_controller.Sort.{
  In-sort_stable, In-sort_stable_of, IsSorted, sort_stable, sort_stable-IsSorted,
}
use operator_controller.Applier.Phase.{
  GroupKind, phase_among, is_gk, phase_gk_map, determine_phase, default_phase_order, phase_deploy,
  ManifestApi, SortedPhase, by_key, compare_objects, phase_of, phase_map, phase_loop, phase_sort,
  add_phase,
}

-- the phases of the table
abbrev names : List (String × List GroupKind) → List String
names [] = []
names ((phase, _) ∷ rest) = phase ∷ names rest

In-if :
    {A : Type 0} (b : Bool) (x y : A) (zs : List A) → In x zs → In y zs → In (if b then x else y) zs
In-if true x y zs h k = h
In-if false x y zs h k = k

widen : {A : Type 0} (x y z : A) (zs : List A) → In x (y ∷ zs) → In x (y ∷ z ∷ zs)
widen x y z zs (inl e) = inl e
widen x y z zs (inr m) = inr (inr m)

phase_among-In :
    (g : GroupKind) (table : List (String × List GroupKind))
    → In (phase_among g table) (phase_deploy ∷ names table)
unfolding phase_among
phase_among-In g [] = inl refl
phase_among-In g ((phase, gks) ∷ rest) =
    In-if (any_of (is_gk g) gks) phase (phase_among g rest) (phase_deploy ∷ phase ∷ names rest)
      (inr (inl refl))
      (widen (phase_among g rest) phase_deploy phase (names rest) (phase_among-In g rest))

-- Every group and kind has a phase, and it is one of the phases of the order: no object is left out.
determine_phase-In : (g : GroupKind) → In (determine_phase g) default_phase_order
unfolding determine_phase
determine_phase-In g = elim (phase_among-In g phase_gk_map) [
  | inl e ↦ inr (inr (inr (inr (inr (inr (inr (inr (inr (inl e)))))))))
  | inr m ↦ m
]

-- `s` is the result for its phase.
pub record IsPhaseOf (x : ManifestApi) (os : List x.Object) (s : SortedPhase x.Object)
    : Type 0 where
  pub known : In s.name default_phase_order
  pub sound : (o : x.Object) → In o s.objects → In o os × (phase_of x o ≡ s.name)
  pub complete : (o : x.Object) → In o os → phase_of x o ≡ s.name → In o s.objects
  pub inhabited : s.objects ≢ []
  pub sorted : IsSorted (compare_objects x) s.objects

module _ (x : ManifestApi) where
  open x use {Object}

  by_key-IsPreorder : (key : Object → String) → IsPreorder (by_key x key)
  by_key-IsPreorder key = on-IsPreorder String.compare key compare-IsPreorder

  compare_objects-IsPreorder : IsPreorder (compare_objects x)
  unfolding compare_objects
  compare_objects-IsPreorder = lex-IsPreorder _ _ (by_key-IsPreorder x.group) (
      lex-IsPreorder _ _ (by_key-IsPreorder x.version) (
        lex-IsPreorder _ _ (by_key-IsPreorder x.kind)
          (lex-IsPreorder _ _ (by_key-IsPreorder x.namespace) (by_key-IsPreorder x.name))))

  phase_map-In :
      (phase : String) (o : Object) (os : List Object)
      → In o (phase_map x phase os)
      → In o os × (phase_of x o ≡ phase)
  unfolding phase_map
  phase_map-In phase o [] h = absurd h
  phase_map-In phase o (a ∷ os) h = elim (Bool-cases (phase_of x a == phase)) [
    | inl e ↦ elim (rw e at h) [
      | inl q ↦ (inl q, rw q ((eq_iff (phase_of x a) phase).0 e))
      | inr m ↦ let (i, p) = phase_map-In phase o os m in (inr i, p)
    ]
    | inr e ↦ let (i, p) = phase_map-In phase o os (rw e at h) in (inr i, p)
  ]

  phase_map-In_of :
      (phase : String) (o : Object) (os : List Object)
      → In o os
      → phase_of x o ≡ phase
      → In o (phase_map x phase os)
  unfolding phase_map
  phase_map-In_of phase o [] h e = absurd h
  phase_map-In_of phase o (a ∷ os) (inl q) e =
      rw ((eq_iff (phase_of x a) phase).1 (rw q at e)) (inl q)
  phase_map-In_of phase o (a ∷ os) (inr m) e = elim (Bool-cases (phase_of x a == phase)) [
    | inl t ↦ rw t (inr (phase_map-In_of phase o os m e))
    | inr t ↦ rw t (phase_map-In_of phase o os m e)
  ]

  -- The phases in order that have objects, and their results.
  abbrev pub phases_used : List Object → List String → List String
  phases_used os [] = []
  phases_used os (phase ∷ phases) =
      if any_of (λ o. phase_of x o == phase) os
      then phase ∷ phases_used os phases
      else phases_used os phases

  abbrev pub result_names : List (SortedPhase Object) → List String
  result_names [] = []
  result_names (s ∷ ss) = s.name ∷ result_names ss

  phase_map-empty :
      (phase : String) (os : List Object)
      → phase_map x phase os ≡ []
      → any_of (λ o. phase_of x o == phase) os ≡ false
  unfolding phase_map
  phase_map-empty phase [] h = refl
  phase_map-empty phase (a ∷ os) h = ground (arith, phase_map-empty phase os)

  phase_map-some :
      (phase : String) (os : List Object) (a : Object) (more : List Object)
      → phase_map x phase os ≡ a ∷ more
      → any_of (λ o. phase_of x o == phase) os ≡ true
  phase_map-some phase os a more h =
      let (m, e) = phase_map-In phase a os (rw h (inl refl)) in
      any_of_of-In (λ o. phase_of x o == phase) a os m ((eq_iff (phase_of x a) phase).1 e)

  -- What a phase adds to the result.
  add_phase-names :
      (phase : String) (found os : List Object) (rest : List (SortedPhase Object))
      (used : List String)
      → phase_map x phase os ≡ found
      → result_names rest ≡ used
      → result_names (add_phase x phase found rest)
        ≡ (if any_of (λ o. phase_of x o == phase) os then phase ∷ used else used)
  add_phase-names phase [] os rest used h e = rw (phase_map-empty phase os h) e
  add_phase-names phase (a ∷ more) os rest used h e =
      rw (phase_map-some phase os a more h) (ap (λ ns. phase ∷ ns) e)

  phase_loop-names :
      (phases : List String) (os : List Object)
      → result_names (phase_loop x phases os) ≡ phases_used os phases
  unfolding phase_loop
  phase_loop-names [] os = refl
  phase_loop-names (phase ∷ phases) os =
      add_phase-names phase (phase_map x phase os) os (phase_loop x phases os)
        (phases_used os phases) refl (phase_loop-names phases os)

  insert-nonempty : (a : Object) (os : List Object) → sort_stable (compare_objects x) (a ∷ os) ≢ []
  insert-nonempty a os h = rw h at (In-sort_stable_of (compare_objects x) a (a ∷ os) (inl refl))

  -- A phase of the result is what is sorted of the map, or comes from a later phase.
  In-add_phase :
      (phase : String) (found os : List Object) (rest : List (SortedPhase Object))
      (s : SortedPhase Object)
      → phase_map x phase os ≡ found
      → In phase default_phase_order
      → In s (add_phase x phase found rest)
      → IsPhaseOf x os s ⊎ In s rest
  In-add_phase phase [] os rest s h k m = inr m
  In-add_phase phase (a ∷ more) os rest s h k (inr m) = inr m
  In-add_phase phase (a ∷ more) os rest s h k (inl e) = inl (
      rw e record {
        known = k;
        sound = λ o m.
            phase_map-In phase o os (rw h (In-sort_stable (compare_objects x) o (a ∷ more) m));
        complete = λ o m q.
            In-sort_stable_of (compare_objects x) o (a ∷ more)
              (rw h at (phase_map-In_of phase o os m q));
        inhabited = insert-nonempty a more;
        sorted = sort_stable-IsSorted (compare_objects x) compare_objects-IsPreorder (a ∷ more);
      })

  phase_loop-IsPhaseOf :
      (phases : List String) (os : List Object) (s : SortedPhase Object)
      → ((phase : String) → In phase phases → In phase default_phase_order)
      → In s (phase_loop x phases os)
      → IsPhaseOf x os s
  unfolding phase_loop
  phase_loop-IsPhaseOf [] os s k m = absurd m
  phase_loop-IsPhaseOf (phase ∷ phases) os s k m =
      elim (In-add_phase phase (phase_map x phase os) os (phase_loop x phases os) s refl
        (k phase (inl refl)) m) [
          | inl good ↦ good
          | inr rest ↦ phase_loop-IsPhaseOf phases os s (λ p i. k p (inr i)) rest
        ]

  phases_used-In :
      (os : List Object) (o : Object) (phases : List String)
      → In o os
      → In (phase_of x o) phases
      → In (phase_of x o) (phases_used os phases)
  phases_used-In os o [] m k = absurd k
  phases_used-In os o (phase ∷ phases) m (inl e) =
      rw (any_of_of-In (λ o'. phase_of x o' == phase) o os m ((eq_iff (phase_of x o) phase).1 e))
        (inl e)
  phases_used-In os o (phase ∷ phases) m (inr k) =
      elim (Bool-cases (any_of (λ o'. phase_of x o' == phase) os)) [
        | inl t ↦ rw t (inr (phases_used-In os o phases m k))
        | inr t ↦ rw t (phases_used-In os o phases m k)
      ]

  named :
      (name : String) (ss : List (SortedPhase Object))
      → In name (result_names ss)
      → (s : SortedPhase Object) × In s ss × (s.name ≡ name)
  named name [] h = absurd h
  named name (s ∷ ss) (inl e) = (s, inl refl, sym e)
  named name (s ∷ ss) (inr m) = let (t, i, e) = named name ss m in (t, inr i, e)

  -- Every object stands in the phase that PhaseSort returns for its group and kind.
  pub In-phase_sort :
      (os : List Object) (o : Object)
      → In o os
      → (s : SortedPhase Object) × In s (phase_sort x os) × (s.name ≡ phase_of x o) × In o s.objects
  unfolding phase_sort
  In-phase_sort os o m =
      let names = phase_loop-names default_phase_order os in
      let used = phases_used-In os o default_phase_order m (determine_phase-In _) in
      let (s, i, e) = named (phase_of x o) (phase_loop x default_phase_order os) (rw names used) in
      let it : IsPhaseOf x os s = phase_loop-IsPhaseOf default_phase_order os s (λ _ i'. i') i in
      (s, i, e, it.complete o m (sym e))

  -- The phases that PhaseSort returns are those of the default order that have objects, in that
  -- order.
  pub result_names-phase_sort :
      (os : List Object) → result_names (phase_sort x os) ≡ phases_used os default_phase_order
  unfolding phase_sort
  result_names-phase_sort os = phase_loop-names default_phase_order os

  -- A phase that PhaseSort returns is one of the default order and not empty; it holds exactly the
  -- given objects whose group and kind belong to the phase, sorted by group, version, kind,
  -- namespace and name.
  pub phase_sort-IsPhaseOf :
      (os : List Object) (s : SortedPhase Object) → In s (phase_sort x os) → IsPhaseOf x os s
  unfolding phase_sort
  phase_sort-IsPhaseOf os s m = phase_loop-IsPhaseOf default_phase_order os s (λ _ i. i) m
