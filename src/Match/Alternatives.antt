-- ===== src/Match/Alternatives.antt =====
-- compiler/paco-match/src/lib.rs: the order of the alternatives of an or-pattern.
use paco.Prelude.{
  ◌≡◌, refl, true, false, Option, none, some, List, [], ◌∷◌, ◌&&◌, arith, Bool, ap, ◌∙◌,
  if◌then◌else◌, ||-right, ||-left,
}
use paco.Prelude.Text.{Text}
use paco.Span.{Span}
use paco.Match.Patterns.{Pat, or, nil, cons, MatchArm}
use paco.Match.Coverage.{
  Std, PatternCoverage, catch_all, opaque, is_irrefutable_pattern, pattern_coverage,
  covered_witness, no_patterns,
}
use paco.Match.Analysis.{
  ConstructorSet, Progress, start, or_else, analyze_match, visit_arms, visit_arm, is_exhausted_by,
  all_covered, is_none, after_witness, add_coverage, check_exhausted, find_missing,
}
use paco.Match.Meaning.{Value, Setting, matches, fits}
use paco.Match.Keys.{contains_no_patterns}
use paco.Match.Irrefutable.{irrefutable-matches}

abbrev pub either_of : Pat → Pat → Span → Pat
either_of p q span = or (cons p (cons q nil)) span

and_false : (b : Bool) → (b && false) ≡ false
and_false b = ground arith

not_exhausted :
    (set : ConstructorSet) (k : Text) (ks : List Text)
    → set.constructors ≡ k ∷ ks
    → is_exhausted_by set no_patterns ≡ false
unfolding is_exhausted_by all_covered
not_exhausted set k ks first =
    rw first (rw (contains_no_patterns k) (and_false (is_none set.fallback_witness)))

-- the end of the analysis
missing_behind : ConstructorSet → Progress → Option Text
missing_behind set p =
    if p.all_caught
    then none
    else or_else (find_missing set.constructors p.seen) set.fallback_witness

module _ (std : Std) {Expr : Type 0} (set : ConstructorSet) (k : Text) (ks : List Text) where
  -- the state of the loop behind an arm without a guard that is the first
  first_arm :
      (arm : MatchArm Expr) (x : PatternCoverage)
      → arm.guard ≡ none
      → pattern_coverage std arm.pattern ≡ x
      → covered_witness std x no_patterns ≡ none
      → visit_arm std set 0 arm start ≡ check_exhausted set (add_coverage x start)
  unfolding visit_arm after_witness
  first_arm arm x unguarded coverage unseen =
      let new : covered_witness std (pattern_coverage std arm.pattern) no_patterns ≡ none =
        ap (λ y. covered_witness std y no_patterns) coverage ∙ unseen in
      ap (λ w. after_witness std set w 0 arm start) new
      ∙ ap
          (λ (g : Option Expr).
            if is_none g
            then check_exhausted set (add_coverage (pattern_coverage std arm.pattern) start)
            else start)
          unguarded
      ∙ ap (λ y. check_exhausted set (add_coverage y start)) coverage

  opaque_arm :
      (arm : MatchArm Expr)
      → set.constructors ≡ k ∷ ks
      → arm.guard ≡ none
      → pattern_coverage std arm.pattern ≡ opaque
      → (analyze_match std set (arm ∷ [])).missing_witness ≡ some k
  unfolding analyze_match visit_arms covered_witness add_coverage check_exhausted find_missing
      missing_behind
  opaque_arm arm first unguarded coverage =
      ap (missing_behind set) (first_arm arm opaque unguarded coverage refl)
      ∙ rw (not_exhausted set k ks first) (rw first (rw (contains_no_patterns k) refl))

  catch_all_arm :
      (arm : MatchArm Expr)
      → set.constructors ≡ k ∷ ks
      → arm.guard ≡ none
      → pattern_coverage std arm.pattern ≡ catch_all
      → (analyze_match std set (arm ∷ [])).missing_witness ≡ none
  unfolding analyze_match visit_arms covered_witness add_coverage check_exhausted missing_behind
  catch_all_arm arm first unguarded coverage =
      ap (missing_behind set) (first_arm arm catch_all unguarded coverage refl)
      ∙ rw (not_exhausted set k ks first) refl

-- The order of two alternatives decides what a match with one arm, without a guard, is said to miss,
-- though not what the arm matches. Let one alternative have opaque coverage, the other be irrefutable
-- and catch every value, and the scrutinee's type have constructors, the first with the key `k`. With
-- the opaque one first, `k` is reported as missing; with it second, nothing is. In both orders the
-- pattern matches every value that `fits` the irrefutable alternative: it has the alternative's type,
-- and no bare identifier in the alternative names a variant of the enum of what it stands for.
pub or_pattern_order :
    (std : Std) (setting : Setting std) {Expr : Type 0} (set : ConstructorSet) (k : Text)
    (ks : List Text) (arm : MatchArm Expr) (p q : Pat) (span : Span) (v : Value)
    → set.constructors ≡ k ∷ ks
    → arm.guard ≡ none
    → pattern_coverage std p ≡ opaque
    → pattern_coverage std q ≡ catch_all
    → is_irrefutable_pattern q ≡ true
    → fits std setting q v ≡ true
    → ((analyze_match std set (record arm { pattern = either_of p q span } ∷ [])).missing_witness
        ≡ some k)
      × ((analyze_match std set (record arm { pattern = either_of q p span } ∷ [])).missing_witness
          ≡ none)
      × (matches std setting (either_of p q span) v ≡ true)
      × (matches std setting (either_of q p span) v ≡ true)
unfolding pattern_coverage matches
or_pattern_order std setting set k ks arm p q span v first unguarded hp hq irrefutable f =
    let m = irrefutable-matches std setting q v irrefutable f in
    (
      opaque_arm std set k ks (record arm { pattern = either_of p q span }) first unguarded
          (rw hp refl),
      catch_all_arm std set k ks (record arm { pattern = either_of q p span }) first unguarded
          (rw hq refl),
      ||-right _ _ (||-left _ false m),
      ||-left _ _ m,
    )
