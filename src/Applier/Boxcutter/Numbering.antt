-- ===== src/Applier/Boxcutter/Numbering.antt =====
-- The number of a new revision.
use operator_controller.Prelude.{
  ℤ, pos, negsuc, zero, suc, ◌≢◌, refl, List, [], ◌∷◌, In, inl, inr, arith, gt, ◌<ℤ◌, ◌≤ℤ◌,
}
use operator_controller.Sort.{IsSorted, In-sort_stable_of}
use operator_controller.Applier.Packer.{EncodingApi}
use operator_controller.Applier.Boxcutter.{Existing, Extension, Desired, Boxcutter, BoxCluster}
use operator_controller.Applier.Boxcutter.Apply.{next_revision}
use operator_controller.Applier.Boxcutter.Revisions.{
  compare_ℤ, by_revision, sort_revisions, last_revision, latest_revision_number, increment,
  max_int64,
}
use operator_controller.Applier.Boxcutter.Retention.{sort_revisions-IsSorted}

compare_ℤ-le : (a b : ℤ) → compare_ℤ a b ≢ gt → a ≤ℤ b
compare_ℤ-le a b h = ground arith

le_trans : (a b c : ℤ) → a ≤ℤ b → b ≤ℤ c → a ≤ℤ c
le_trans a b c h k = omega arith

-- The last revision of a sorted list has the greatest number.
last-greatest :
    (rs : List Existing) (a : Existing)
    → IsSorted by_revision rs
    → In a rs
    → a.revision ≤ℤ latest_revision_number rs
unfolding latest_revision_number last_revision
last-greatest [] a h m = absurd m
last-greatest (b ∷ []) a h (inl e) = rw e (omega arith)
last-greatest (b ∷ []) a h (inr gone) = absurd gone
last-greatest (b ∷ c ∷ rs) a h (inl e) =
    let next = last-greatest (c ∷ rs) c h.1 (inl refl) in
    let step = compare_ℤ-le b.revision c.revision h.0.0 in
    rw e (le_trans b.revision c.revision _ step next)
last-greatest (b ∷ c ∷ rs) a h (inr m) = last-greatest (c ∷ rs) a h.1 m

increment-greater : (n m : ℤ) → n <ℤ max_int64 → m ≤ℤ n → m <ℤ increment n
unfolding increment
increment-greater (pos n) m h k = ground arith
increment-greater (negsuc zero) m h k = ground arith
increment-greater (negsuc (suc n)) m h k = ground arith

module _ (x : EncodingApi) (R : Type 0) (cl : BoxCluster x.Object R) (bc : Boxcutter) where
  -- The number of a new revision is greater than the numbers of all listed revisions, unless the
  -- greatest of them is the largest 64-bit integer.
  pub next_revision-IsGreatest :
      (ext : Extension) (rev : Desired x.Object R) (items : List Existing) (r : Existing)
      → latest_revision_number (sort_revisions items) <ℤ max_int64
      → In r items
      → r.revision <ℤ (next_revision x R cl bc ext rev (sort_revisions items)).revision
  unfolding sort_revisions
  next_revision-IsGreatest ext rev items r h m = increment-greater _ r.revision h (
      last-greatest (sort_revisions items) r (sort_revisions-IsSorted items)
        (In-sort_stable_of by_revision r items m))
