-- ===== src/Match/Analysis.antt =====
-- compiler/paco-match/src/lib.rs: `analyze_match`, which finds unreachable arms and missing values.
use paco.Prelude.{
  ℕ, ◌+◌, Bool, true, false, ◌&&◌, Option, none, some, List, [], ◌∷◌, ◌++◌, if◌then◌else◌, set,
}
use paco.Prelude.Text.{Text, codes}
use paco.Match.Patterns.{MatchArm}
use paco.Match.Coverage.{
  Std, CoveredPatterns, no_patterns, contains_key, extend, PatternCoverage, catch_all, covered,
  opaque, covered_witness, pattern_coverage,
}

pub record ConstructorSet : Type 0 where
  pub constructors : List Text
  pub fallback_witness : Option Text

unfoldable pub closed : List Text → ConstructorSet
closed constructors = record { constructors = constructors; fallback_witness = none }

unfoldable pub open_set : Text → ConstructorSet
open_set witness = record { constructors = []; fallback_witness = some witness }

abbrev pub is_none {ℓ} : {A : Type ℓ} → Option A → Bool
is_none none = true
is_none (some _) = false

unfoldable pub all_covered : List Text → CoveredPatterns → Bool
all_covered [] c = true
all_covered (k ∷ ks) c = contains_key c k && all_covered ks c

abbrev pub is_nonempty {ℓ} : {A : Type ℓ} → List A → Bool
is_nonempty [] = false
is_nonempty (_ ∷ _) = true

unfoldable pub is_exhausted_by : ConstructorSet → CoveredPatterns → Bool
unfolding all_covered
is_exhausted_by set c =
    is_none set.fallback_witness && (is_nonempty set.constructors && all_covered set.constructors c)

pub record UnreachableArm : Type 0 where
  pub index : ℕ
  pub witness : Option Text

pub record UsefulnessReport : Type 0 where
  pub unreachable_arms : List UnreachableArm
  pub missing_witness : Option Text

-- the variables of the loop over the arms
pub record Progress : Type 0 where
  pub all_caught : Bool
  pub catch_all_witness : Option Text
  pub seen : CoveredPatterns
  pub unreachable_arms : List UnreachableArm

abbrev pub start : Progress
start = record {
  all_caught = false;
  catch_all_witness = none;
  seen = no_patterns;
  unreachable_arms = [];
}

abbrev pub report_arm : ℕ → Option Text → Progress → Progress
report_arm index witness p = record p {
  unreachable_arms = p.unreachable_arms ++ (record { index = index; witness = witness }) ∷ [];
}

-- what an unguarded, reachable arm covers
unfoldable pub add_coverage : PatternCoverage → Progress → Progress
add_coverage catch_all p = record p { all_caught = true; catch_all_witness = some (codes "_") }
add_coverage (covered patterns) p = record p { seen = extend p.seen patterns }
add_coverage opaque p = p

unfoldable pub check_exhausted : ConstructorSet → Progress → Progress
unfolding is_exhausted_by
check_exhausted set p =
    if is_exhausted_by set p.seen
    then record p { all_caught = true; catch_all_witness = some (codes "all constructors") }
    else p

-- Rust's `Option::or`
abbrev pub or_else {ℓ} : {A : Type ℓ} → Option A → Option A → Option A
or_else none b = b
or_else (some a) b = some a

unfoldable pub find_missing : List Text → CoveredPatterns → Option Text
find_missing [] c = none
find_missing (k ∷ ks) c = let rest = find_missing ks c in if contains_key c k then rest else some k

module _ (std : Std) {Expr : Type 0} (set : ConstructorSet) where
  unfoldable pub after_witness : Option Text → ℕ → MatchArm Expr → Progress → Progress
  unfolding add_coverage check_exhausted
  after_witness (some witness) index arm p = report_arm index (some witness) p
  after_witness none index arm p =
      if is_none arm.guard
      then check_exhausted set (add_coverage (pattern_coverage std arm.pattern) p)
      else p

  -- the body of the loop
  unfoldable pub visit_arm : ℕ → MatchArm Expr → Progress → Progress
  unfolding after_witness
  visit_arm index arm p =
      if p.all_caught
      then report_arm index p.catch_all_witness p
      else after_witness (covered_witness std (pattern_coverage std arm.pattern) p.seen) index arm p

  unfoldable pub visit_arms : ℕ → List (MatchArm Expr) → Progress → Progress
  visit_arms index [] p = p
  visit_arms index (arm ∷ arms) p = visit_arms (index + 1) arms (visit_arm index arm p)

  unfoldable pub analyze_match : List (MatchArm Expr) → UsefulnessReport
  unfolding find_missing
  analyze_match arms =
      let p = visit_arms 0 arms start in
      record {
        unreachable_arms = p.unreachable_arms;
        missing_witness =
            if p.all_caught
            then none
            else or_else (find_missing set.constructors p.seen) set.fallback_witness;
      }
