-- ===== src/Tests/Toy.antt =====
-- Concrete external packages for the tests: a version such as "11+2" is a numeral in unary with
-- build metadata.
use Prim.Native.Nat.{compare}
use Prim.Native.String
use operator_controller.Prelude.{
  String, ◌≡◌, List, [], ◌∷◌, some, Bool, false, split, arith, ltb, sym, some,
}
use mathlib.Core.Option.{some-injective}
use operator_controller.Order.{IsPreorder}
use operator_controller.Externals.{Version, Externals, ExternalLaws}

abbrev to_version : List String → Version String
to_version [] = record { major = 0; minor = 0; patch = 0; pre = []; build = [] }
to_version (n ∷ build) = record {
  major = String.count n;
  minor = 0;
  patch = 0;
  pre = [];
  build = build;
}

abbrev pub toy : Externals
toy = record {
  PrVersion = String;
  new_pr_version = λ s. some s;
  pr_string = λ p. p;
  parse = λ s. some (to_version (split "+" s));
  compare = λ a b. compare a.major b.major;
  parse_range = λ s. some (λ v. ltb v.major (String.count s));
  new_constraint = λ s. some (λ v. ltb v.major (String.count s));
  unmarshal_package_version = λ s. some s;
  LabelSelector = Bool;
  Selector = Bool;
  as_selector = λ s. some s;
  is_nothing = λ s. s;
  everything = false;
}

toy_compare-IsPreorder : IsPreorder toy.compare
toy_compare-IsPreorder = record { flip = λ a b. ground arith; trans = λ a b c h k. ground arith }

toy_pr_string : (s p : String) → some s ≡ some p → p ≡ s
toy_pr_string s p h = sym (some-injective s p h)

pub toy_laws : ExternalLaws toy
toy_laws = record {
  compare-IsPreorder = toy_compare-IsPreorder;
  pr_string-new_pr_version = toy_pr_string;
}
