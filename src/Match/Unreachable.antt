-- ===== src/Match/Unreachable.antt =====
-- compiler/paco-match/src/lib.rs: an arm is reported only if no value reaches it.
use paco.Prelude.{
  ℕ, suc, ◌+◌, ◌<◌, ◌≡◌, refl, sym, ap, ◌∙◌, subst, ◌≢◌, inl, inr, Bool, true, false, ◌||◌, Option,
  none, some, List, [], ◌∷◌, ◌++◌, arith, ◌==◌, if◌then◌else◌, Bool-cases, &&-split, ||-left,
  length, set,
}
use paco.Prelude.Text.{Text}
use paco.Match.Patterns.{MatchArm}
use paco.Match.Coverage.{
  Std, covered_witness, PatternCoverage, catch_all, covered, opaque, pattern_coverage,
}
use paco.Match.Analysis.{
  ConstructorSet, is_exhausted_by, UnreachableArm, Progress, start, add_coverage, check_exhausted,
  after_witness, visit_arm, visit_arms, is_none, report_arm, analyze_match,
}
use paco.Match.Meaning.{Value, Setting, matches, fits, value_key, is_instance, taken, all_fit}
use native.Mathlib.Nat.{add-zero, zero-add}
use paco.Match.Covering.{covered_witness-contains}
use paco.Match.Exhaustive.{
  IsSound, start-IsSound, visit_arm-IsSound, agreement, catches, ||-regroup,
}

-- The arm with this index is among the reported ones.
unfoldable pub flagged : ℕ → List UnreachableArm → Bool
flagged i [] = false
flagged i (u ∷ us) = u.index == i || flagged i us

flagged-append :
    (i : ℕ) (us : List UnreachableArm) (u : UnreachableArm)
    → flagged i (us ++ u ∷ []) ≡ (flagged i us || u.index == i)
unfolding flagged
flagged-append i [] u = ground arith
flagged-append i (x ∷ us) u = ground (arith, flagged-append i us u)

flagged-append_ne :
    (i : ℕ) (us : List UnreachableArm) (index : ℕ) (w : Option Text)
    → i ≢ index
    → flagged i (us ++ (record { index = index; witness = w }) ∷ []) ≡ flagged i us
flagged-append_ne i us index w ne =
    ground (arith, flagged-append i us (record { index = index; witness = w }))

add_coverage-unreachable_arms :
    (x : PatternCoverage) (p : Progress) → (add_coverage x p).unreachable_arms ≡ p.unreachable_arms
unfolding add_coverage
add_coverage-unreachable_arms catch_all p = refl
add_coverage-unreachable_arms (covered c) p = refl
add_coverage-unreachable_arms opaque p = refl

check_exhausted-unreachable_arms :
    (set : ConstructorSet) (p : Progress)
    → (check_exhausted set p).unreachable_arms ≡ p.unreachable_arms
unfolding check_exhausted
check_exhausted-unreachable_arms set p = elim (Bool-cases (is_exhausted_by set p.seen)) [
  | inl full ↦ rw full refl
  | inr more ↦ rw more refl
]

flagged-if :
    (i : ℕ) (b : Bool) (p q : Progress) (r : Bool)
    → flagged i p.unreachable_arms ≡ r
    → flagged i q.unreachable_arms ≡ r
    → flagged i (if b then p else q).unreachable_arms ≡ r
flagged-if i true p q r h k = h
flagged-if i false p q r h k = k

module _ (std : Std) {Expr : Type 0} (set : ConstructorSet) where
  after_none-unreachable_arms :
      (index : ℕ) (arm : MatchArm Expr) (p : Progress)
      → (after_witness std set none index arm p).unreachable_arms ≡ p.unreachable_arms
  unfolding after_witness
  after_none-unreachable_arms index arm p = elim (Bool-cases (is_none arm.guard)) [
    | inl unguarded ↦ rw unguarded (
        check_exhausted-unreachable_arms set (add_coverage (pattern_coverage std arm.pattern) p)
        ∙ add_coverage-unreachable_arms (pattern_coverage std arm.pattern) p)
    | inr guarded ↦ rw guarded refl
  ]

  flagged-after_witness :
      (i : ℕ) (w : Option Text) (index : ℕ) (arm : MatchArm Expr) (p : Progress)
      → i ≢ index
      → flagged i (after_witness std set w index arm p).unreachable_arms
        ≡ flagged i p.unreachable_arms
  unfolding after_witness
  flagged-after_witness i (some w) index arm p ne =
      flagged-append_ne i p.unreachable_arms index (some w) ne
  flagged-after_witness i none index arm p ne =
      ap (flagged i) (after_none-unreachable_arms index arm p)

  -- A round of the loop reports no earlier arm.
  flagged-visit_arm :
      (i index : ℕ) (arm : MatchArm Expr) (p : Progress)
      → i ≢ index
      → flagged i (visit_arm std set index arm p).unreachable_arms ≡ flagged i p.unreachable_arms
  unfolding visit_arm
  flagged-visit_arm i index arm p ne =
      flagged-if i p.all_caught (report_arm index p.catch_all_witness p) _
        (flagged i p.unreachable_arms)
        (flagged-append_ne i p.unreachable_arms index p.catch_all_witness ne)
        (flagged-after_witness i _ index arm p ne)

  flagged-visit_arms :
      (i index : ℕ) (arms : List (MatchArm Expr)) (p : Progress)
      → i < index
      → flagged i (visit_arms std set index arms p).unreachable_arms ≡ flagged i p.unreachable_arms
  unfolding visit_arms
  flagged-visit_arms i index [] p lt = refl
  flagged-visit_arms i index (arm ∷ arms) p lt =
      flagged-visit_arms i (index + 1) arms (visit_arm std set index arm p) (omega arith)
      ∙ flagged-visit_arm i index arm p (omega arith)

module _ (std : Std) (setting : Setting std) {Expr : Type 0} (set : ConstructorSet)
    (v : Value) where
  covered_arm :
      (w : Option Text) (index : ℕ) (arm : MatchArm Expr) (p : Progress) (caught : Bool)
      → covered_witness std (pattern_coverage std arm.pattern) p.seen ≡ w
      → fits std setting arm.pattern v ≡ true
      → matches std setting arm.pattern v ≡ true
      → IsSound std setting set v p caught
      → flagged index p.unreachable_arms ≡ false
      → flagged index (after_witness std set w index arm p).unreachable_arms ≡ true
      → caught ≡ true
  covered_arm (some w) index arm p caught found f m h old new = h.one (
      covered_witness-contains std (pattern_coverage std arm.pattern) p.seen
        (matches std setting arm.pattern v) w (value_key std setting v) found
        (agreement std setting set v arm f) m)
  covered_arm none index arm p caught found f m h old new =
      absurd (cc (ap (flagged index) (after_none-unreachable_arms std set index arm p)))

  reported_arm :
      (index : ℕ) (arm : MatchArm Expr) (p : Progress) (caught : Bool)
      → fits std setting arm.pattern v ≡ true
      → matches std setting arm.pattern v ≡ true
      → IsSound std setting set v p caught
      → flagged index p.unreachable_arms ≡ false
      → flagged index (visit_arm std set index arm p).unreachable_arms ≡ true
      → caught ≡ true
  unfolding visit_arm
  reported_arm index arm p caught f m h old new = elim (Bool-cases p.all_caught) [
    | inl all ↦ h.all all
    | inr some_left ↦ covered_arm _ index arm p caught refl f m h old (
        subst
          (λ b.
            flagged index
              (if b
                then report_arm index p.catch_all_witness p
                else after_witness std set
                    (covered_witness std (pattern_coverage std arm.pattern) p.seen) index arm
                    p).unreachable_arms
            ≡ true)
          some_left new)
  ]

  unreachable_from :
      (index : ℕ) (before : List (MatchArm Expr)) (arm : MatchArm Expr)
      (after : List (MatchArm Expr)) (p : Progress) (caught : Bool)
      → is_instance std setting set v ≡ true
      → all_fit std setting before v ≡ true
      → fits std setting arm.pattern v ≡ true
      → matches std setting arm.pattern v ≡ true
      → IsSound std setting set v p caught
      → flagged (index + length before) p.unreachable_arms ≡ false
      → flagged
          (index + length before)
          (visit_arms std set index (before ++ arm ∷ after) p).unreachable_arms
        ≡ true
      → (caught || taken std setting before v) ≡ true
  unfolding visit_arms all_fit taken
  unreachable_from index [] arm after p caught i fs f m h old new = ||-left caught false (
      reported_arm index arm p caught f m h (rw add-zero at old) (
        sym (
          flagged-visit_arms std set index (index + 1) after (visit_arm std set index arm p)
            (omega arith))
        ∙ (rw add-zero at new)))
  unreachable_from index (first ∷ before) arm after p caught i fs f m h old new =
      let (this, rest) =
        &&-split (fits std setting first.pattern v) (all_fit std setting before v) fs in
      let shift : index + suc (length before) ≡ index + 1 + length before = omega arith in
      ||-regroup caught (catches std setting set v first) (taken std setting before v) (
        unreachable_from (index + 1) before arm after (visit_arm std set index first p)
          (caught || catches std setting set v first) i rest f m
          (visit_arm-IsSound std setting set v index first p caught i this h)
          (rw (← shift) (
            flagged-visit_arm std set (index + suc (length before)) index first p (omega arith)
            ∙ old))
          (rw shift at new))

-- An arm that is reported as unreachable is redundant, if it and the arms before it fit the values
-- (`fits`): they are of the scrutinee's type, with paths of one or two names, integers of type `i64`
-- and no float literal that is NaN or a negative zero, and their bare identifiers are bindings, none
-- the name of a variant of the enum of what it stands for. Then every value of the scrutinee's type
-- that the arm matches is matched by an arm without a guard that stands before it.
pub unreachable-redundant :
    (std : Std) (setting : Setting std) {Expr : Type 0} (set : ConstructorSet)
    (before : List (MatchArm Expr)) (arm : MatchArm Expr) (after : List (MatchArm Expr)) (v : Value)
    → is_instance std setting set v ≡ true
    → all_fit std setting before v ≡ true
    → fits std setting arm.pattern v ≡ true
    → flagged (length before) (analyze_match std set (before ++ arm ∷ after)).unreachable_arms
      ≡ true
    → matches std setting arm.pattern v ≡ true
    → taken std setting before v ≡ true
unfolding analyze_match
unreachable-redundant std setting set before arm after v i fs f flag m =
    unreachable_from std setting set v 0 before arm after start false i fs f m
      (start-IsSound std setting set v) (unfold flagged in refl) (rw zero-add flag)
