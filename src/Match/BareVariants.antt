-- ===== src/Match/BareVariants.antt =====
-- compiler/paco-match/src/lib.rs: an identifier that is the name of a variant, which the analysis takes
-- for a binding and compiler/paco-mir/src/lower.rs for the variant.
use paco.Prelude.{
  if-holds, ℕ, ◌+◌, ◌≡◌, refl, ap, ◌∙◌, true, false, Option, none, List, [], ◌∷◌, ◌++◌, arith,
  if◌then◌else◌,
}
use paco.Prelude.Text.{Text}
use paco.Span.{Span}
use paco.Match.Patterns.{ident, MatchArm}
use paco.Match.Coverage.{Std, catch_all, covered_witness, pattern_coverage}
use paco.Match.Analysis.{
  ConstructorSet, Progress, start, is_exhausted_by, add_coverage, check_exhausted, after_witness,
  visit_arm, visit_arms, is_none, report_arm, analyze_match,
}
use paco.Match.Meaning.{Value, Setting, names_variant, is_unit, matches, taken}

check_exhausted-all_caught :
    (set : ConstructorSet) (p : Progress)
    → p.all_caught ≡ true
    → (check_exhausted set p).all_caught ≡ true
unfolding check_exhausted
check_exhausted-all_caught set p h =
    if-holds (λ (q : Progress). q.all_caught ≡ true) (is_exhausted_by set p.seen) _ p (λ _. refl)
      (λ _. h)

module _ (std : Std) {Expr : Type 0} (set : ConstructorSet) where
  catch_all_arm-all_caught :
      (index : ℕ) (arm : MatchArm Expr) (p : Progress)
      → arm.guard ≡ none
      → pattern_coverage std arm.pattern ≡ catch_all
      → (visit_arm std set index arm p).all_caught ≡ true
  unfolding visit_arm after_witness
  catch_all_arm-all_caught index arm p unguarded coverage =
      if-holds (λ q. q.all_caught ≡ true) p.all_caught (report_arm index p.catch_all_witness p) _
        (λ caught. caught)
        (λ _.
          let new : covered_witness std (pattern_coverage std arm.pattern) p.seen ≡ none =
            ap (λ y. covered_witness std y p.seen) coverage ∙ (unfold covered_witness in refl) in
          ap (λ w. (after_witness std set w index arm p).all_caught) new
          ∙ ap
              (λ (g : Option Expr).
                (if is_none g
                  then check_exhausted set (add_coverage (pattern_coverage std arm.pattern) p)
                  else p).all_caught)
              unguarded
          ∙ ap (λ y. (check_exhausted set (add_coverage y p)).all_caught) coverage
          ∙ check_exhausted-all_caught set (add_coverage catch_all p) (unfold add_coverage in refl))

  last_arm-all_caught :
      (index : ℕ) (arms : List (MatchArm Expr)) (arm : MatchArm Expr) (p : Progress)
      → arm.guard ≡ none
      → pattern_coverage std arm.pattern ≡ catch_all
      → (visit_arms std set index (arms ++ arm ∷ []) p).all_caught ≡ true
  unfolding visit_arms
  last_arm-all_caught index [] arm p unguarded coverage =
      catch_all_arm-all_caught index arm p unguarded coverage
  last_arm-all_caught index (first ∷ arms) arm p unguarded coverage =
      last_arm-all_caught (index + 1) arms arm (visit_arm std set index first p) unguarded coverage

taken-append :
    (std : Std) (setting : Setting std) {Expr : Type 0} (arms : List (MatchArm Expr))
    (arm : MatchArm Expr) (v : Value)
    → matches std setting arm.pattern v ≡ false
    → taken std setting arms v ≡ false
    → taken std setting (arms ++ arm ∷ []) v ≡ false
unfolding taken
taken-append std setting [] arm v other h = ground (arith, other)
taken-append std setting (first ∷ arms) arm v other h =
    ground (arith, taken-append std setting arms arm v other)

-- A last arm without a guard whose pattern is a bare identifier keeps a match from being reported as
-- not exhaustive, even if the identifier names a variant of the value's enum: a value of another
-- variant that no arm without a guard before it matches is matched by no arm without a guard.
pub bare_variant-missed :
    (std : Std) (setting : Setting std) {Expr : Type 0} (set : ConstructorSet)
    (arms : List (MatchArm Expr)) (arm : MatchArm Expr) (name : Text) (span : Span) (v : Value)
    → arm.guard ≡ none
    → arm.pattern ≡ ident name span
    → names_variant setting.declares name v ≡ true
    → is_unit name v ≡ false
    → taken std setting arms v ≡ false
    → ((analyze_match std set (arms ++ arm ∷ [])).missing_witness ≡ none)
      × (taken std setting (arms ++ arm ∷ []) v ≡ false)
unfolding analyze_match pattern_coverage matches
bare_variant-missed std setting set arms arm name span v unguarded pattern declared other untaken =
    let caught = last_arm-all_caught std set 0 arms arm start unguarded (rw pattern refl) in
    (
      rw caught refl,
      taken-append std setting arms arm v (rw pattern (rw (declared, other) refl)) untaken,
    )
