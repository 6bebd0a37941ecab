-- ===== src/Tests/Matches.antt =====
-- Runs of compiler/paco-match/src/lib.rs, on the cases of its tests.
use paco.Prelude.{
  ℕ, ◌≡◌, refl, Bool, ◌&&◌, ◌||◌, true, false, none, some, List, [], ◌∷◌, arith, ◌==◌,
}
use paco.Prelude.Int.{ℤ, pos}
use paco.Prelude.Text.{Text, codes, eqb_text, insert, contains, parse_i64, show_ℤ}
use paco.Span.{Span}
use paco.Match.Patterns.{Literal, Pat, Pats, ident, wildcard, enum, nil, cons, MatchArm}
use paco.Match.Coverage.{
  Std, covered_witness, pattern_coverage, is_irrefutable_pattern, contains_key, extend,
  any_contains, range_contains,
}
use paco.Match.Analysis.{ConstructorSet, open_set, analyze_match, visit_arms, visit_arm}
use paco.Match.Meaning.{
  Value, int_value, variant, no_values, value, Setting, names_variant, is_unit, matches, fits,
  is_instance, taken, all_fit,
}
use paco.Match.Exhaustive.{no_missing-exhaustive}
use paco.Match.Unreachable.{flagged, unreachable-redundant}
use paco.Match.Alternatives.{either_of, or_pattern_order}
use paco.Match.BareVariants.{bare_variant-missed}

-- A standard library whose quoted texts are the texts themselves, with floats as their bits.
abbrev plain_std : Std
plain_std = record { float_text = λ b. b ∷ []; debug_text = λ s. s; first_key = λ k ks. k }

plain_text_iff : (a b : ℕ) → (a == b) ≡ eqb_text (a ∷ []) (b ∷ [])
unfolding eqb_text
plain_text_iff a b = ground arith

abbrev option_declares : Text → Text → Bool
option_declares type_name name =
    eqb_text type_name (codes "Option")
    && (eqb_text name (codes "Some") || eqb_text name (codes "None"))

abbrev plain_setting : Setting plain_std
plain_setting = record {
  declares = option_declares;
  is_literal = λ b. true;
  float_eq = λ a b. a == b;
  class_text = λ b. b ∷ [];
  float_text_iff = λ a b _. plain_text_iff a b;
  debug_text_iff = λ s t. refl;
}

abbrev at : Span
at = record { file_id = 0; start = 0; end = 0 }

abbrev arm : Pat → MatchArm (Unit {0})
arm p = record { pattern = p; guard = none; body = tt; span = at }

abbrev variant_pattern : Text → Pats → Pat
variant_pattern name fields = enum (codes "Option" ∷ name ∷ []) fields at

abbrev option_set : ConstructorSet
option_set = record {
  constructors = codes "Option::Some" ∷ codes "Option::None" ∷ [];
  fallback_witness = none;
}

abbrev option_arms : List (MatchArm (Unit {0}))
option_arms =
    arm (variant_pattern (codes "Some") (cons (wildcard at) nil))
    ∷ arm (variant_pattern (codes "None") nil)
    ∷ []

abbrev some_five : Value
some_five = variant (codes "Option") (codes "Some") (value (int_value (pos 5)) no_values)

exhaustive_option : (analyze_match plain_std option_set option_arms).missing_witness ≡ none
unfolding analyze_match visit_arms visit_arm covered_witness pattern_coverage contains_key contains
    parse_i64 extend insert eqb_text
exhaustive_option = refl

no_missing-exhaustive_example : taken plain_std plain_setting option_arms some_five ≡ true
unfolding is_instance all_fit fits eqb_text contains
no_missing-exhaustive_example =
    no_missing-exhaustive plain_std plain_setting option_set option_arms some_five refl refl
      exhaustive_option

missing_none :
    (analyze_match plain_std option_set
      (arm (variant_pattern (codes "Some") (cons (wildcard at) nil)) ∷ [])).missing_witness
    ≡ some (codes "Option::None")
unfolding analyze_match visit_arms visit_arm covered_witness pattern_coverage contains_key contains
    parse_i64 extend insert eqb_text
missing_none = refl

abbrev range_pattern : ℤ → ℤ → Pat
range_pattern s e =
    Pat.range (Pat.literal (Literal.int s) at) (Pat.literal (Literal.int e) at) true at

abbrev five : MatchArm (Unit {0})
five = arm (Pat.literal (Literal.int (pos 5)) at)

five_unreachable :
    flagged 1
      (analyze_match plain_std
        (open_set (codes "_"))
        (arm (range_pattern (pos 1) (pos 9)) ∷ five ∷ [])).unreachable_arms
    ≡ true
unfolding analyze_match flagged visit_arms visit_arm covered_witness pattern_coverage open_set
    contains_key contains extend parse_i64 show_ℤ any_contains range_contains
five_unreachable = refl

unreachable-redundant_example :
    taken plain_std plain_setting (arm (range_pattern (pos 1) (pos 9)) ∷ []) (int_value (pos 5))
    ≡ true
unfolding is_instance all_fit fits matches open_set
unreachable-redundant_example =
    unreachable-redundant plain_std plain_setting (open_set (codes "_"))
      (arm (range_pattern (pos 1) (pos 9)) ∷ []) five [] (int_value (pos 5)) refl refl refl
      five_unreachable refl

abbrev some_one : Pat
some_one = variant_pattern (codes "Some") (cons (Pat.literal (Literal.int (pos 1)) at) nil)

or_pattern_order_example :
    ((analyze_match plain_std option_set
        (arm (either_of some_one (wildcard at) at) ∷ [])).missing_witness
      ≡ some (codes "Option::Some"))
    × ((analyze_match plain_std option_set
          (arm (either_of (wildcard at) some_one at) ∷ [])).missing_witness
        ≡ none)
    × (matches plain_std plain_setting (either_of some_one (wildcard at) at) some_five ≡ true)
    × (matches plain_std plain_setting (either_of (wildcard at) some_one at) some_five ≡ true)
unfolding pattern_coverage is_irrefutable_pattern fits
or_pattern_order_example =
    or_pattern_order plain_std plain_setting option_set (codes "Option::Some")
      (codes "Option::None" ∷ []) (arm (wildcard at)) some_one (wildcard at) at some_five refl refl
      refl refl refl refl

-- `Some(_) if ..` and `None`
abbrev guarded_some : MatchArm (Unit {0})
guarded_some = record {
  pattern = enum (codes "Some" ∷ []) (cons (wildcard at) nil) at;
  guard = some tt;
  body = tt;
  span = at;
}

abbrev bare_none : MatchArm (Unit {0})
bare_none = arm (ident (codes "None") at)

bare_variant-missed_example :
    ((analyze_match plain_std option_set (guarded_some ∷ bare_none ∷ [])).missing_witness ≡ none)
    × (taken plain_std plain_setting (guarded_some ∷ bare_none ∷ []) some_five ≡ false)
unfolding names_variant is_unit taken eqb_text
bare_variant-missed_example =
    bare_variant-missed plain_std plain_setting option_set (guarded_some ∷ []) bare_none
      (codes "None") at some_five refl refl refl refl refl

-- `None` before `Some(_)`: the analysis flags the second arm
bare_none_first :
    flagged 1
      (analyze_match plain_std option_set (
        bare_none
        ∷ arm (variant_pattern (codes "Some") (cons (wildcard at) nil))
        ∷ [])).unreachable_arms
    ≡ true
unfolding analyze_match flagged visit_arms visit_arm covered_witness pattern_coverage contains_key
    contains eqb_text parse_i64
bare_none_first = refl
