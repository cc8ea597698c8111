-- ===== src/Tests/Cluster.antt =====
-- A cluster with two revisions, and status conditions as a list whose first entry of a type counts.
use native.Mathlib.Decide.{ℕ_discrete}
use operator_controller.Prelude.{
  ℕ, ◌≡◌, refl, String, List, [], ◌∷◌, Option, none, some, Bool, true, false, pos, ok, err,
  if◌then◌else◌, ◌==◌, eq_iff, Bool-cases, inl, inr, ◌∙◌, sym, ap, arith,
}
use operator_controller.Kube.{Condition, ConditionApi, ConditionLaws, is_true}
use operator_controller.ObjectSet.{
  Platform, ObjectApi, Cos, Cluster, State, Message, text, RevisionResult, progressed,
  type_progressing,
}

String_discrete : Discrete String
String_discrete a b = elim (Bool-cases (a == b)) [
  | inl e ↦ yes ((eq_iff a b).0 e)
  | inr e ↦ no (λ h. absurd (ground (arith, (eq_iff a b).1 h, e)))
]

pub Condition-discrete : Discrete (Option (Condition Message))
Condition-discrete = hlevel (ℕ_discrete, String_discrete)

pub Conditions-discrete : Discrete (List (Condition Message))
Conditions-discrete = hlevel (ℕ_discrete, String_discrete)

abbrev find : List (Condition Message) → String → Option (Condition Message)
find [] kind = none
find (c ∷ cs) kind = if c.kind == kind then some c else find cs kind

abbrev put :
    {A : Type 0}
    → List (Condition Message)
    → Condition Message
    → Dec A
    → List (Condition Message) × Bool
put cs c (yes _) = (cs, false)
put cs c (no _) = (c ∷ cs, true)

abbrev is_yes : {A : Type 0} → Dec A → Bool
is_yes (yes _) = true
is_yes (no _) = false

abbrev conditions : ConditionApi Message
conditions = record {
  Conditions = List (Condition Message);
  find = find;
  set = λ cs c. put cs c (Condition-discrete (find cs c.kind) (some c));
  same = λ cs ds. is_yes (Conditions-discrete cs ds);
}

find-put :
    (cs : List (Condition Message)) (c : Condition Message) (kind : String)
    (d : Dec (find cs c.kind ≡ some c))
    → find (put cs c d).0 kind ≡ (if c.kind == kind then some c else find cs kind)
find-put cs c kind (no _) = refl
find-put cs c kind (yes e) = elim (Bool-cases (c.kind == kind)) [
  | inl q ↦ rw q (ap (find cs) (sym ((eq_iff c.kind kind).0 q)) ∙ e)
  | inr q ↦ rw q refl
]

put-unchanged :
    (cs : List (Condition Message)) (c : Condition Message) (d : Dec (find cs c.kind ≡ some c))
    → (put cs c d).1 ≡ false
    → find cs c.kind ≡ some c
put-unchanged cs c (yes e) h = e
put-unchanged cs c (no _) h = absurd (ground arith)

put-again :
    (cs : List (Condition Message)) (c : Condition Message) (d : Dec (find cs c.kind ≡ some c))
    → find cs c.kind ≡ some c
    → put cs c d ≡ (cs, false)
put-again cs c (yes _) e = refl
put-again cs c (no n) e = absurd (n e)

yes_self : (cs : List (Condition Message)) (d : Dec (cs ≡ cs)) → is_yes d ≡ true
yes_self cs (yes _) = refl
yes_self cs (no n) = absurd (n refl)

pub laws : ConditionLaws conditions
laws = record {
  find-set = λ cs c kind. find-put cs c kind (Condition-discrete (find cs c.kind) (some c));
  set_unchanged = λ cs c h. put-unchanged cs c (Condition-discrete (find cs c.kind) (some c)) h;
  set_again = λ cs c h. put-again cs c (Condition-discrete (find cs c.kind) (some c)) h;
  same_refl = λ cs. yes_self cs (Conditions-discrete cs cs);
}

abbrev objects : ObjectApi
objects = record {
  Object = String;
  gvk = λ o. o;
  set_label = λ o k v. o;
  Stream = List ℕ;
  gzip_open = λ bytes. some bytes;
  read_limited = λ stream n. some stream;
  unmarshal = λ bytes. some "object";
}

abbrev pub platform : Platform
platform = record { conditions = conditions; objects = objects }

abbrev pub rolling : Condition Message
rolling = record {
  kind = type_progressing;
  status = is_true;
  reason = "RollingOut";
  message = text "";
  observed_generation = 1;
}

-- the revision of that number of the extension "e"
abbrev pub revision : String → ℕ → Cos platform
revision name n = record {
  name = name;
  owner = some "e";
  bundle_version = "1.0.0";
  generation = 1;
  deleting = false;
  created = 0;
  finalizers = [];
  lifecycle_state = "Active";
  revision = pos n;
  progress_deadline_minutes = 1;
  collision_protection = "";
  phases = [];
  progression_probes = [];
  conditions = rolling ∷ [];
}

abbrev pub first : Cos platform
first = revision "e-1" 1

abbrev pub second_revision : Cos platform
second_revision = revision "e-2" 2

abbrev pub complete : RevisionResult
complete = record {
  validation_error = none;
  phases =
      record {
        validation_error = none;
        objects =
            record {
              action = progressed;
              owner_references = [];
              report = "";
              probe_true = true;
              probe_report = "";
            }
            ∷ [];
        complete = true;
      }
      ∷ [];
  in_transition = false;
  complete = true;
}

abbrev pub cluster : Cluster platform
cluster = record {
  on_get = λ _. ok (some second_revision);
  on_list = λ _. ok (first ∷ second_revision ∷ []);
  on_secret = λ _. err "not found";
  on_engine = λ _. ok tt;
  on_free = λ _. ok tt;
  on_patch =
      λ _. ok (record second_revision { finalizers = "olm.operatorframework.io/teardown" ∷ [] });
  on_watch = λ _. ok tt;
  on_reconcile = λ _. ok complete;
  on_teardown = λ _. ok (some true);
  on_archive = λ _. ok tt;
  on_update = λ _. ok tt;
  same_spec = λ a b. true;
}

abbrev pub begun : State platform
begun = record { cos = second_revision; calls = [] }
