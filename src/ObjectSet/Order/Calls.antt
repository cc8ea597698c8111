-- ===== src/ObjectSet/Order/Calls.antt =====
-- Predicates on the calls alone, which no change of the object touches: the parts of the controller
-- that do not roll out objects keep them.
use operator_controller.Exec.{or_fail}
use operator_controller.Exec.Keeps.{Keeps, Keeps-or_fail, Keeps-bind, Keeps-pure, Keeps-if}
use operator_controller.Prelude.{
  ◌≡◌, refl, String, List, [], ◌∷◌, ◌++◌, Option, none, some, Bool, true, false,
}
use operator_controller.ObjectSet.{
  Platform, Cos, Cluster, Step, State, on_cos, Message, Call, RevisionResult,
}
use operator_controller.ObjectSet.Reconcile.{
  patch, ensure_finalizer, remove_finalizer, free_informers, delete, settle, after_teardown,
  archive, archive_all, finish, report_with, report,
}
use operator_controller.ObjectSet.Order.Lasting.{
  is_plain, IsLasting, Keeps-call, Keeps-the_cos, Keeps-list_previous_revisions,
}

pub record IsOnCalls (p : Platform) (P : State p → Type 0) : Type 0 where
  pub called :
      (s : State p) (c : Call p.objects.Object)
      → is_plain c ≡ true
      → P s
      → P (record s { calls = s.calls ++ c ∷ [] })
  pub marked : (s : State p) (cos : Cos p) → P s → P (record s { cos = cos })

module _ (p : Platform) (P : State p → Type 0) (o : IsOnCalls p P) where
  pub lasting : IsLasting p P
  lasting = record { called = o.called; marked = λ s cos h k. o.marked s cos k }

  Keeps-on_any : {E : Type 0} (f : Cos p → Cos p) → Keeps P (on_cos p {E = E} f)
  unfolding on_cos
  Keeps-on_any f = record { at = λ s k. o.marked s (f s.cos) k }

  -- an error path, whatever it does to the object
  pub Keeps-or_any :
      {E F A : Type 0} (m : Step p E A) (fix : E → Cos p → Cos p) (wrap : E → F)
      → Keeps P m
      → Keeps P (or_fail m (λ e t. record t { cos = fix e t.cos }) wrap)
  Keeps-or_any m fix wrap k =
      Keeps-or_fail m (λ e t. record t { cos = fix e t.cos }) wrap k
        (λ e t q. o.marked t (fix e t.cos) q)

  module _ (cl : Cluster p) where
    Keeps-patch : (fs : List String) → Keeps P (patch p cl fs)
    unfolding patch
    Keeps-patch fs = Keeps-bind _ _ (Keeps-the_cos p P lasting) (λ cos.
        Keeps-bind _ _ (Keeps-on_any _)
          (λ _. Keeps-bind _ _ (Keeps-call p P lasting _ _ refl) (λ a. Keeps-on_any _)))

    pub Keeps-ensure_finalizer : Keeps P (ensure_finalizer p cl)
    unfolding ensure_finalizer
    Keeps-ensure_finalizer =
        Keeps-bind _ _ (Keeps-the_cos p P lasting)
          (λ cos. Keeps-if _ _ _ (Keeps-pure tt) (Keeps-patch _))

    Keeps-remove_finalizer : Keeps P (remove_finalizer p cl)
    unfolding remove_finalizer
    Keeps-remove_finalizer =
        Keeps-bind _ _ (Keeps-the_cos p P lasting)
          (λ cos. Keeps-if _ _ _ (Keeps-patch _) (Keeps-pure tt))

    pub Keeps-free_informers : Keeps P (free_informers p cl)
    unfolding free_informers
    Keeps-free_informers =
        Keeps-bind _ _ (Keeps-the_cos p P lasting)
          (λ cos. Keeps-or_any _ _ _ (Keeps-call p P lasting _ _ refl))

    pub Keeps-delete : Keeps P (delete p cl)
    unfolding delete
    Keeps-delete =
        Keeps-bind _ _ Keeps-free_informers
          (λ _. Keeps-bind _ _ (Keeps-or_any _ _ _ Keeps-remove_finalizer) (λ _. Keeps-pure _))

    Keeps-settle : Keeps P (settle p cl)
    unfolding settle
    Keeps-settle = Keeps-bind _ _ (Keeps-the_cos p P lasting) (λ cos.
        Keeps-bind _ _ (Keeps-on_any _) (λ _.
          Keeps-if _ _ _ (Keeps-pure _)
            (Keeps-bind _ _ (Keeps-or_any _ _ _ Keeps-remove_finalizer) (λ _. Keeps-pure _))))

    Keeps-after_teardown : (r : Option Bool) → Keeps P (after_teardown p cl r)
    unfolding after_teardown
    Keeps-after_teardown none = Keeps-settle
    Keeps-after_teardown (some true) = Keeps-settle
    Keeps-after_teardown (some false) = Keeps-bind _ _ (Keeps-on_any _) (λ _. Keeps-pure _)

    pub Keeps-archive : Keeps P (archive p cl)
    unfolding archive
    Keeps-archive = Keeps-bind _ _ (Keeps-the_cos p P lasting) (λ cos.
        Keeps-bind _ _ (Keeps-or_any _ _ _ (Keeps-call p P lasting _ _ refl))
          (λ r. Keeps-after_teardown r))

    pub Keeps-archive_all : (rs : List (Cos p)) → Keeps P (archive_all p cl rs)
    unfolding archive_all
    Keeps-archive_all [] = Keeps-pure tt
    Keeps-archive_all (r ∷ rs) =
        Keeps-bind _ _ (Keeps-or_any _ _ _ (Keeps-call p P lasting _ _ refl))
          (λ _. Keeps-archive_all rs)

    Keeps-finish : (rres : RevisionResult) → Keeps P (finish p cl rres)
    unfolding finish
    Keeps-finish rres = Keeps-bind _ _ (Keeps-on_any _) (λ _.
        Keeps-bind _ _
          (Keeps-if _ _ _
            (Keeps-bind _ _ (Keeps-the_cos p P lasting) (λ cos.
              Keeps-bind _ _ (Keeps-or_any _ _ _ (Keeps-list_previous_revisions p P lasting cl cos))
                (λ previous. Keeps-bind _ _ (Keeps-archive_all previous) (λ _. Keeps-on_any _))))
            (Keeps-on_any _))
          (λ _. Keeps-pure _))

    Keeps-report_with :
        (rres : RevisionResult) (message : Option Message) → Keeps P (report_with p cl rres message)
    unfolding report_with
    Keeps-report_with rres (some message) = Keeps-bind _ _ (Keeps-on_any _) (λ _. Keeps-pure _)
    Keeps-report_with rres none = Keeps-finish rres

    pub Keeps-report :
        (siblings : Option (List String)) (rres : RevisionResult)
        → Keeps P (report p cl siblings rres)
    unfolding report
    Keeps-report siblings rres = Keeps-report_with rres _
