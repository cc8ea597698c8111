-- ===== src/ObjectSet/Previous.antt =====
-- The revisions that a completed rollout archives.
use operator_controller.Exec.{◌>>=◌, ◌>>◌, bind_with, pure}
use operator_controller.Exec.Keeps.{Keeps, Keeps-bind, Keeps-bind_at, Keeps-pure, Keeps-or_fail}
use operator_controller.Exec.Succeeds.{or_fail-ok}
use operator_controller.Prelude.{
  ◌≡◌, refl, String, List, [], ◌∷◌, ◌++◌, Option, none, some, Bool, true, false, ◌⊎◌, inl, inr, sym,
  subst, Bool-cases, Result, ok, err, if◌then◌else◌, Result-cases, In, In-append_cases,
  ok_injective, ok-ne-err,
}
use operator_controller.ObjectSet.{
  Platform, Cos, Cluster, Step, State, call, on_cos, the_cos, Message, Call, archive_revision,
  list_revisions, RevisionResult, rolling_out, or_mark, listing_to_archive, ReconcileError,
}
use operator_controller.ObjectSet.Conditions.{mark_as_progressing}
use operator_controller.ObjectSet.Phases.{
  is_previous, previous_of, list_of_owner, list_previous_revisions,
}
use operator_controller.ObjectSet.Reconcile.{
  archive_all, finish, report, report_with, problem_of, mark_complete, leave, done, Requeue,
}

module _ (p : Platform) (cl : Cluster p) where
  -- A revision of this name is in the answer to the listing that is made with these calls, under
  -- the owner of the object set; it is earlier, and is neither archived nor being deleted.
  pub record IsSuperseded (cos : Cos p) (calls : List (Call p.objects.Object)) (n : String)
      : Type 0 where
    pub revision : Cos p
    pub owner : String
    pub items : List (Cos p)
    pub owned : cos.owner ≡ some owner
    pub listed : cl.on_list (calls ++ list_revisions owner ∷ []) ≡ ok items
    pub member : In revision items
    pub named : revision.name ≡ n
    pub previous : is_previous p cl cos revision ≡ true

  -- every archive call is among the given ones or has a reason
  abbrev Only : List (Call p.objects.Object) → (String → Type 0) → State p → Type 0
  Only cs Good s =
      (n : String) → In (archive_revision n) s.calls → In (archive_revision n) cs ⊎ Good n

  not_a_listing :
      (n o : String) → ◌≡◌ {A = Call p.objects.Object} (archive_revision n) (list_revisions o) → ⊥
  not_a_listing n o h = cc

  same_name :
      (n k : String)
      → ◌≡◌ {A = Call p.objects.Object} (archive_revision n) (archive_revision k)
      → n ≡ k
  same_name n k h = cc

  In-previous_of :
      (cos : Cos p) (items : List (Cos p)) (r : Cos p)
      → In r (previous_of p cl cos items)
      → In r items × (is_previous p cl cos r ≡ true)
  unfolding previous_of
  In-previous_of cos [] r m = absurd m
  In-previous_of cos (x ∷ items) r m = elim (Bool-cases (is_previous p cl cos x)) [
    | inr e ↦ let (i, k) = In-previous_of cos items r (rw e at m) in (inr i, k)
    | inl e ↦ elim (rw e at m) [
      | inl q ↦ (inl q, subst (λ (y : Cos p). is_previous p cl cos y ≡ true) (sym q) e)
      | inr n ↦ let (i, k) = In-previous_of cos items r n in (inr i, k)
    ]
  ]

  -- the listing gives superseded revisions only
  list_of_owner-IsSuperseded :
      (cos : Cos p) (o : Option String) (t : State p) (rs : List (Cos p))
      → cos.owner ≡ o
      → (list_of_owner p cl cos o t).0 ≡ ok rs
      → (r : Cos p) → In r rs
      → IsSuperseded cos t.calls r.name
  unfolding list_of_owner call pure ◌>>=◌
  list_of_owner-IsSuperseded cos none t rs e h r m =
      absurd (subst (λ (l : List (Cos p)). In r l) (sym (ok_injective h)) m)
  list_of_owner-IsSuperseded cos (some o) t rs e h r m =
      elim (Result-cases (cl.on_list (t.calls ++ list_revisions o ∷ []))) [
        | inl (items, q) ↦
            let k = ok_injective (rw q at h) in
            let (i, b) =
              In-previous_of cos items r (subst (λ (l : List (Cos p)). In r l) (sym k) m) in
            record {
              revision = r;
              owner = o;
              items = items;
              owned = e;
              listed = q;
              member = i;
              named = refl;
              previous = b;
            }
        | inr (x, q) ↦ absurd (ok-ne-err rs x (sym (rw q at h)))
      ]

  module _ (cs : List (Call p.objects.Object)) (Good : String → Type 0) where
    Only-call :
        (s : State p) (c : Call p.objects.Object)
        → ((n : String) → archive_revision n ≡ c → Good n)
        → Only cs Good s
        → Only cs Good (record s { calls = s.calls ++ c ∷ [] })
    Only-call s c g h n m = elim (In-append_cases (archive_revision n) s.calls (c ∷ []) m) [
      | inl l ↦ h n l
      | inr (inl e) ↦ inr (g n e)
      | inr (inr x) ↦ absurd x
    ]

    archive_all-Only :
        (rs : List (Cos p))
        → ((r : Cos p) → In r rs → Good r.name)
        → Keeps (Only cs Good) (archive_all p cl rs)
    unfolding archive_all call
    archive_all-Only [] g = Keeps-pure tt
    archive_all-Only (r ∷ rs) g =
        Keeps-bind _ _
          (Keeps-or_fail _ _ _
            (record {
              at = λ s h.
                  Only-call s _ (λ n e. subst Good (sym (same_name n r.name e)) (g r (inl refl))) h;
            })
            (λ e t h. h))
          (λ _. archive_all-Only rs (λ x m. g x (inr m)))

  list_of_owner-Only :
      (cs : List (Call p.objects.Object)) (Good : String → Type 0) (cos : Cos p) (o : Option String)
      → Keeps (Only cs Good) (list_of_owner p cl cos o)
  unfolding list_of_owner call
  list_of_owner-Only cs Good cos none = Keeps-pure []
  list_of_owner-Only cs Good cos (some o) =
      Keeps-bind _ _
        (record { at = λ s h. Only-call cs Good s _ (λ n e. absurd (not_a_listing n o e)) h })
        (λ items. Keeps-pure _)

  -- the branch of `finish` for a complete result
  abbrev pub complete_step : Cos p → (Cos p → Cos p) → Step p ReconcileError Unit
  complete_step cos f =
      or_mark p (list_previous_revisions p cl cos) (leave p cl) listing_to_archive >>= λ previous.
      (archive_all p cl previous >> on_cos p f)

  complete-Only :
      (s : State p) (cos : Cos p) (f : Cos p → Cos p)
      → Only s.calls (IsSuperseded cos s.calls) (complete_step cos f s).1
  unfolding list_previous_revisions on_cos
  complete-Only s cos f =
      Keeps-bind_at {P = Only s.calls (IsSuperseded cos s.calls)} _ _ s
        ((Keeps-or_fail _ _ _ (list_of_owner-Only s.calls (IsSuperseded cos s.calls) cos cos.owner)
            (λ e t h. h)).at
          s (λ n m. inl m))
        (λ previous q.
          Keeps-bind _ _
            (archive_all-Only s.calls (IsSuperseded cos s.calls) previous (λ r m.
              list_of_owner-IsSuperseded cos cos.owner s previous refl
                (or_fail-ok _ _ _ s previous q).0 r m))
            (λ _. record { at = λ t h. h }))

  abbrev pub marked : Bool → Cos p → Cos p
  marked b c = if b then mark_as_progressing p "RollingOut" (rolling_out c.bundle_version) c else c

  IsSuperseded-marked :
      (b : Bool) (c : Cos p) (calls : List (Call p.objects.Object)) (n : String)
      → IsSuperseded (marked b c) calls n
      → IsSuperseded c calls n
  unfolding mark_as_progressing
  IsSuperseded-marked true c calls n i = record {
    revision = i.revision;
    owner = i.owner;
    items = i.items;
    owned = i.owned;
    listed = i.listed;
    member = i.member;
    named = i.named;
    previous = i.previous;
  }
  IsSuperseded-marked false c calls n i = i

  last_done :
      (r : Result ReconcileError Unit) (t : State p)
      → (bind_with {B = Requeue} r t (λ _. pure done)).1 ≡ t
  unfolding pure
  last_done (ok _) t = refl
  last_done (err e) t = refl

  finish-complete :
      (rres : RevisionResult) (s : State p) (n : String)
      → rres.complete ≡ true
      → In (archive_revision n) (finish p cl rres s).1.calls
      → In (archive_revision n) s.calls ⊎ IsSuperseded s.cos s.calls n
  unfolding finish ◌>>=◌ the_cos on_cos
  finish-complete rres s n h m =
      let t : State p = record s { cos = marked rres.in_transition s.cos } in
      let body = complete_step t.cos (mark_complete p) t in
      let k =
        subst (λ (u : State p). In (archive_revision n) u.calls) (last_done body.0 body.1)
          (rw h at m) in
      elim (complete-Only t t.cos (mark_complete p) n k) [
        | inl l ↦ inl l
        | inr i ↦ inr (IsSuperseded-marked rres.in_transition s.cos s.calls n i)
      ]

  finish-incomplete :
      (rres : RevisionResult) (s : State p)
      → rres.complete ≡ false
      → (finish p cl rres s).1.calls ≡ s.calls
  unfolding finish ◌>>=◌ the_cos on_cos pure
  finish-incomplete rres s h = rw h refl

  report_with-IsSuperseded :
      (rres : RevisionResult) (problem : Option Message) (s : State p) (n : String)
      → In (archive_revision n) (report_with p cl rres problem s).1.calls
      → In (archive_revision n) s.calls
        ⊎ ((rres.complete ≡ true) × (problem ≡ none) × IsSuperseded s.cos s.calls n)
  unfolding report_with ◌>>=◌ on_cos pure
  report_with-IsSuperseded rres (some message) s n m = inl m
  report_with-IsSuperseded rres none s n m = elim (Bool-cases rres.complete) [
    | inl e ↦ elim (finish-complete rres s n e m) [ inl l ↦ inl l | inr i ↦ inr (e, refl, i) ]
    | inr e ↦ inl (
        subst (λ (l : List (Call p.objects.Object)). In (archive_revision n) l)
          (finish-incomplete rres s e) m)
  ]

  -- A revision is archived only if the rollout is complete, its result has no problem, and that
  -- revision belongs to the same owner, is earlier, and is neither archived nor being deleted, by
  -- the answer to the listing that is made after the result.
  pub report-IsSuperseded :
      (siblings : Option (List String)) (rres : RevisionResult) (s : State p) (n : String)
      → In (archive_revision n) (report p cl siblings rres s).1.calls
      → In (archive_revision n) s.calls
        ⊎ ((rres.complete ≡ true)
            × (problem_of siblings rres ≡ none)
            × IsSuperseded s.cos s.calls n)
  unfolding report
  report-IsSuperseded siblings rres s n m =
      report_with-IsSuperseded rres (problem_of siblings rres) s n m
