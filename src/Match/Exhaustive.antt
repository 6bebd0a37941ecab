-- ===== src/Match/Exhaustive.antt =====
-- compiler/paco-match/src/lib.rs: a match is accepted only if it is exhaustive.
use paco.Prelude.{
  ℕ, ◌+◌, ◌≡◌, refl, sym, ◌∙◌, inl, inr, Bool, true, false, ◌&&◌, ◌||◌, Option, none, some, List,
  [], ◌∷◌, arith, if◌then◌else◌, Bool-cases, &&-split, ||-split, ||-right, ||-left, set,
}
use paco.Prelude.Text.{Text}
use paco.Match.Patterns.{MatchArm}
use paco.Match.Coverage.{
  Std, contains_key, extend, PatternCoverage, catch_all, covered, opaque, pattern_coverage,
}
use paco.Match.Analysis.{
  ConstructorSet, is_exhausted_by, Progress, start, add_coverage, check_exhausted, find_missing,
  after_witness, visit_arm, visit_arms, is_none, report_arm, or_else, analyze_match,
}
use paco.Match.Meaning.{Value, Setting, matches, fits, value_key, is_instance, taken, all_fit}
use paco.Match.Keys.{contains_key-extend}
use paco.Match.Agreement.{Agrees, coverage-Agrees}
use paco.Match.Covering.{
  find_missing-contains, instance_key, is_exhausted_by-contains, contains_no_key,
}

module _ (std : Std) (setting : Setting std) (set : ConstructorSet) (v : Value) where
  -- What the loop has marked is taken by an arm that it has seen, where `caught` says that one is.
  pub record IsSound (p : Progress) (caught : Bool) : Type 0 where
    pub all : p.all_caught ≡ true → caught ≡ true
    pub one : contains_key p.seen (value_key std setting v) ≡ true → caught ≡ true

  pub IsSound-mono : (p : Progress) (a b : Bool) → (a ≡ true → b ≡ true) → IsSound p a → IsSound p b
  IsSound-mono p a b f h = record { all = λ e. f (h.all e); one = λ e. f (h.one e) }

  pub start-IsSound : IsSound start false
  start-IsSound = record {
    all = λ e. cc;
    one = λ e. absurd (contains_no_key (value_key std setting v) e);
  }

  add_coverage-IsSound :
      (x : PatternCoverage) (p : Progress) (caught matched : Bool)
      → Agrees x matched (value_key std setting v)
      → IsSound p caught
      → IsSound (add_coverage x p) (caught || matched)
  unfolding add_coverage
  add_coverage-IsSound catch_all p caught matched a h = record {
    all = λ _. ||-right caught matched a;
    one = λ e. ||-left caught matched (h.one e);
  }
  add_coverage-IsSound (covered c) p caught matched a h = record {
    all = λ e. ||-left caught matched (h.all e);
    one = λ e. both e;
  }
    where
      both :
          contains_key (extend p.seen c) (value_key std setting v) ≡ true
          → (caught || matched) ≡ true
      both e =
          elim (||-split _ _ (sym (contains_key-extend p.seen c (value_key std setting v)) ∙ e)) [
            | inl old ↦ ||-left caught matched (h.one old)
            | inr new ↦ ||-right caught matched (sym a ∙ new)
          ]
  add_coverage-IsSound opaque p caught matched a h =
      IsSound-mono p caught (caught || matched) (||-left caught matched) h

  check_exhausted-IsSound :
      (p : Progress) (caught : Bool)
      → is_instance std setting set v ≡ true
      → IsSound p caught
      → IsSound (check_exhausted set p) caught
  unfolding check_exhausted
  check_exhausted-IsSound p caught i h = elim (Bool-cases (is_exhausted_by set p.seen)) [
    | inr more ↦ rw more h
    | inl full ↦ rw full (record { all = λ _. h.one (covered_all full); one = h.one })
  ]
    where
      covered_all :
          is_exhausted_by set p.seen ≡ true → contains_key p.seen (value_key std setting v) ≡ true
      covered_all full = is_exhausted_by-contains std setting set p.seen v full i

  if-IsSound :
      (b : Bool) (p q : Progress) (caught : Bool)
      → (b ≡ true → IsSound p caught)
      → (b ≡ false → IsSound q caught)
      → IsSound (if b then p else q) caught
  if-IsSound true p q caught f g = f refl
  if-IsSound false p q caught f g = g refl

||-both : (a b c : Bool) → c ≡ true → (a || b) ≡ true → (a || (c && b)) ≡ true
||-both a b c h k = ground arith

pub ||-regroup : (a b c : Bool) → ((a || b) || c) ≡ true → (a || (b || c)) ≡ true
||-regroup a b c h = ground arith

-- the end of the analysis
missing_cases :
    (std : Std) (setting : Setting std) (set : ConstructorSet) (p : Progress) (v : Value)
    (caught : Bool)
    → is_instance std setting set v ≡ true
    → IsSound std setting set v p caught
    → (if p.all_caught
        then none
        else or_else (find_missing set.constructors p.seen) set.fallback_witness)
      ≡ none
    → caught ≡ true
missing_cases std setting set p v caught i h e = elim (Bool-cases p.all_caught) [
  | inl all ↦ h.all all
  | inr some_left ↦
      let rest : or_else (find_missing set.constructors p.seen) set.fallback_witness ≡ none =
        ground arith in
      let closed : set.fallback_witness ≡ none = ground arith in
      let found : find_missing set.constructors p.seen ≡ none = ground arith in
      h.one (
        find_missing-contains set.constructors p.seen (value_key std setting v) found
          (instance_key std setting set v closed i))
]

module _ (std : Std) (setting : Setting std) {Expr : Type 0} (set : ConstructorSet)
    (v : Value) where
  -- the arm is unguarded and matches the value
  abbrev pub catches : MatchArm Expr → Bool
  catches arm = is_none arm.guard && matches std setting arm.pattern v

  pub agreement :
      (arm : MatchArm Expr)
      → fits std setting arm.pattern v ≡ true
      → Agrees
          (pattern_coverage std arm.pattern)
          (matches std setting arm.pattern v)
          (value_key std setting v)
  agreement arm f = coverage-Agrees std setting arm.pattern v f

  after_witness-IsSound :
      (w : Option Text) (index : ℕ) (arm : MatchArm Expr) (p : Progress) (caught : Bool)
      → is_instance std setting set v ≡ true
      → fits std setting arm.pattern v ≡ true
      → IsSound std setting set v p caught
      → IsSound std setting set v (after_witness std set w index arm p) (caught || catches arm)
  unfolding after_witness
  after_witness-IsSound (some w) index arm p caught i f h = record {
    all = λ e. ||-left caught (catches arm) (h.all e);
    one = λ e. ||-left caught (catches arm) (h.one e);
  }
  after_witness-IsSound none index arm p caught i f h =
      if-IsSound std setting set v (is_none arm.guard) _ p (caught || catches arm)
        (λ unguarded.
          IsSound-mono std setting set v _ _ (caught || catches arm)
            (||-both caught (matches std setting arm.pattern v) (is_none arm.guard) unguarded)
            (check_exhausted-IsSound std setting set v _ _ i (
              add_coverage-IsSound std setting set v (pattern_coverage std arm.pattern) p caught
                (matches std setting arm.pattern v) (agreement arm f) h)))
        (λ _. IsSound-mono std setting set v p caught _ (||-left caught (catches arm)) h)

  pub visit_arm-IsSound :
      (index : ℕ) (arm : MatchArm Expr) (p : Progress) (caught : Bool)
      → is_instance std setting set v ≡ true
      → fits std setting arm.pattern v ≡ true
      → IsSound std setting set v p caught
      → IsSound std setting set v (visit_arm std set index arm p) (caught || catches arm)
  unfolding visit_arm
  visit_arm-IsSound index arm p caught i f h =
      if-IsSound std setting set v p.all_caught (report_arm index p.catch_all_witness p) _
        (caught || catches arm)
        (λ _. record {
          all = λ e. ||-left caught (catches arm) (h.all e);
          one = λ e. ||-left caught (catches arm) (h.one e);
        })
        (λ _. after_witness-IsSound _ index arm p caught i f h)

  visit_arms-IsSound :
      (index : ℕ) (arms : List (MatchArm Expr)) (p : Progress) (caught : Bool)
      → is_instance std setting set v ≡ true
      → all_fit std setting arms v ≡ true
      → IsSound std setting set v p caught
      → IsSound std setting set v
          (visit_arms std set index arms p)
          (caught || taken std setting arms v)
  unfolding visit_arms all_fit taken
  visit_arms-IsSound index [] p caught i f h =
      IsSound-mono std setting set v p caught (caught || false) (||-left caught false) h
  visit_arms-IsSound index (arm ∷ arms) p caught i f h =
      let (this, rest) = &&-split (fits std setting arm.pattern v) (all_fit std setting arms v) f in
      IsSound-mono std setting set v _ _ _
        (||-regroup caught (catches arm) (taken std setting arms v))
        (visit_arms-IsSound (index + 1) arms (visit_arm std set index arm p) (caught || catches arm)
          i rest (visit_arm-IsSound index arm p caught i this h))

-- A match for which no missing value is reported is exhaustive, for any guards and order of the arms,
-- if its patterns fit the values (`fits`): they are of the scrutinee's type, with paths of one or two names,
-- integers of type `i64` and no float literal that is NaN or a negative zero, and their bare
-- identifiers are bindings, none the name of a variant of the enum of what it stands for. Then every
-- value of the scrutinee's type is matched by an arm without a guard.
pub no_missing-exhaustive :
    (std : Std) (setting : Setting std) {Expr : Type 0} (set : ConstructorSet)
    (arms : List (MatchArm Expr)) (v : Value)
    → is_instance std setting set v ≡ true
    → all_fit std setting arms v ≡ true
    → (analyze_match std set arms).missing_witness ≡ none
    → taken std setting arms v ≡ true
unfolding analyze_match
no_missing-exhaustive std setting set arms v i f h =
    let sound =
      visit_arms-IsSound std setting set v 0 arms start false i f
        (start-IsSound std setting set v) in
    missing_cases std setting set (visit_arms std set 0 arms start) v (taken std setting arms v) i
      sound h
