-- ===== src/Match/Agreement.antt =====
-- compiler/paco-match/src/lib.rs: the coverage of a pattern agrees with what the pattern matches.
use paco.Prelude.{
  ◌≡◌, refl, sym, ap, ◌∙◌, inl, inr, Bool, true, false, ◌&&◌, ◌||◌, some, List, [], ◌∷◌, ◌++◌,
  arith, if◌then◌else◌, Bool-cases, Option-cases, &&-split, ||-right, ||-left,
}
use paco.Prelude.Int.{ℤ}
use paco.Prelude.Text.{Text, codes, eqb_text, eqb_text-eq, eqb_text-append_left, is_i64}
use paco.Match.Patterns.{
  Pat, Pats, FieldPats, ident, wildcard, tuple, struct, enum, or, binding, reference, nil, cons,
}
use paco.Match.Coverage.{
  Std, CoveredPatterns, key, one_range, contains_key, extend, PatternCoverage, catch_all, covered,
  opaque, literal_key, int_literal, int_range, all_fields_irrefutable, all_irrefutable,
  pattern_coverage, or_pattern_coverage, or_result, enum_coverage, range_coverage, is_empty,
  no_patterns, or_step,
}
use paco.Match.Meaning.{
  Value, Values, FieldValues, Setting, names_variant, is_unit, payload_of, fields_of, target_of,
  is_variant, in_range, matches, match_all, match_any, match_fields, range_fits, enum_fits, fits,
  fit_all, fit_each, fit_fields, value_key, int_value, variant,
}
use paco.Match.Keys.{
  contains_key-extend, contains_no_patterns, contains_key-key, contains_key-one_range,
  range_contains-in_range, value_key-target_of,
}
use paco.Match.Irrefutable.{
  binds_any, fields_irrefutable-match, all_irrefutable-match, literal_key-matches,
}

-- What the coverage of a pattern says of a value with key `k`, where the pattern matches it or not.
abbrev pub Agrees : PatternCoverage → Bool → Text → Type 0
Agrees catch_all matched k = matched ≡ true
Agrees (covered c) matched k = contains_key c k ≡ matched
Agrees opaque matched k = Unit

-- The same of alternatives, where `c` is what the alternatives before them cover.
abbrev OrAgrees : CoveredPatterns → PatternCoverage → Bool → Text → Type 0
OrAgrees c catch_all matched k = matched ≡ true
OrAgrees c (covered d) matched k = contains_key d k ≡ (contains_key c k || matched)
OrAgrees c opaque matched k = Unit

or_result-OrAgrees : (c : CoveredPatterns) (k : Text) → OrAgrees c (or_result c) false k
unfolding or_result
or_result-OrAgrees c k = elim (Bool-cases (is_empty c.keys && is_empty c.int_ranges)) [
  | inl empty ↦ rw empty tt
  | inr some_keys ↦ rw some_keys (ground arith)
]

OrAgrees-regroup :
    (c d : CoveredPatterns) (coverage : PatternCoverage) (m rest : Bool) (k : Text)
    → contains_key d k ≡ m
    → OrAgrees (extend c d) coverage rest k
    → OrAgrees c coverage (m || rest) k
OrAgrees-regroup c d catch_all m rest k e h = ||-right m rest h
OrAgrees-regroup c d (covered x) m rest k e h = ground (arith, contains_key-extend c d k)
OrAgrees-regroup c d opaque m rest k e h = tt

or_step-OrAgrees :
    (c : CoveredPatterns) (x : PatternCoverage) (m rest : Bool) (k : Text)
    (continue : CoveredPatterns → PatternCoverage)
    → Agrees x m k
    → ((d : CoveredPatterns) → OrAgrees (extend c d) (continue d) rest k)
    → OrAgrees c (or_step x continue) (m || rest) k
unfolding or_step
or_step-OrAgrees c catch_all m rest k continue e h = ||-left m rest e
or_step-OrAgrees c (covered d) m rest k continue e h =
    OrAgrees-regroup c d (continue d) m rest k e (h d)
or_step-OrAgrees c opaque m rest k continue e h = tt

OrAgrees-start :
    (coverage : PatternCoverage) (m : Bool) (k : Text)
    → OrAgrees no_patterns coverage m k
    → Agrees coverage m k
OrAgrees-start catch_all m k h = h
OrAgrees-start (covered d) m k h = ground (arith, contains_no_patterns k)
OrAgrees-start opaque m k h = tt

variant-Agrees :
    (std : Std) (setting : Setting std) (type_name segment enum_name name : Text) (ps : Pats)
    (vs : Values)
    → all_irrefutable ps ≡ true
    → eqb_text type_name enum_name ≡ true
    → (if eqb_text segment name then fit_all std setting ps vs else true) ≡ true
    → contains_key (key (type_name ++ (codes "::" ++ segment))) (enum_name ++ (codes "::" ++ name))
      ≡ (eqb_text segment name && match_all std setting ps vs)
variant-Agrees std setting type_name segment enum_name name ps vs all same f =
    let prefix = eqb_text-append_left type_name (codes "::" ++ segment) (codes "::" ++ name) in
    let rest = eqb_text-append_left (codes "::") segment name in
    contains_key-key (type_name ++ (codes "::" ++ segment)) (enum_name ++ (codes "::" ++ name))
    ∙ ap (λ n. eqb_text (type_name ++ (codes "::" ++ segment)) (n ++ (codes "::" ++ name)))
        (sym (eqb_text-eq type_name enum_name same))
    ∙ prefix
    ∙ rest
    ∙ elim (Bool-cases (eqb_text segment name)) [
      | inl this ↦ rw this (sym (all_irrefutable-match std setting ps vs all (rw this at f)))
      | inr other ↦ rw other refl
    ]

enum_coverage-Agrees :
    (std : Std) (setting : Setting std) (path : List Text) (ps : Pats) (v : Value)
    → (enum_fits path v
        && (if is_variant path v then fit_all std setting ps (payload_of v) else true))
      ≡ true
    → Agrees
        (enum_coverage path ps)
        (is_variant path v && match_all std setting ps (payload_of v))
        (value_key std setting v)
unfolding enum_coverage enum_fits is_variant value_key
enum_coverage-Agrees std setting [] ps v f = tt
enum_coverage-Agrees std setting (a ∷ []) ps v f = tt
enum_coverage-Agrees std setting (a ∷ b ∷ []) ps (variant n m vs) f =
    elim (Bool-cases (all_irrefutable ps)) [
      | inl all ↦
          let (same, fit) = &&-split (eqb_text a n) _ f in
          rw all (variant-Agrees std setting a b n m ps vs all same fit)
      | inr some_refutable ↦ rw some_refutable tt
    ]
enum_coverage-Agrees std setting (a ∷ b ∷ c ∷ path) ps v f = cc
enum_coverage-Agrees std setting (a ∷ b ∷ []) ps _ f = cc

struct_coverage-Agrees :
    (std : Std) (setting : Setting std) (fs : FieldPats) (vs : FieldValues) (k : Text)
    → fit_fields std setting fs vs ≡ true
    → Agrees
        (if all_fields_irrefutable fs then catch_all else opaque)
        (match_fields std setting fs vs)
        k
struct_coverage-Agrees std setting fs vs k f = elim (Bool-cases (all_fields_irrefutable fs)) [
  | inl all ↦ rw all (fields_irrefutable-match std setting fs vs all f)
  | inr not_all ↦ rw not_all tt
]

one_range-Agrees :
    (std : Std) (setting : Setting std) (s e : ℤ) (inclusive : Bool) (v : Value)
    → range_fits (some s) (some e) v ≡ true
    → contains_key
        (one_range (record { start = s; end = e; inclusive = inclusive }))
        (value_key std setting v)
      ≡ in_range (some s) (some e) inclusive v
unfolding range_fits value_key
one_range-Agrees std setting s e inclusive (int_value z) f =
    let (hs, rest) = &&-split (is_i64 s) (is_i64 e && is_i64 z) f in
    let (he, hz) = &&-split (is_i64 e) (is_i64 z) rest in
    contains_key-one_range (record { start = s; end = e; inclusive = inclusive }) z hz
    ∙ range_contains-in_range s e z inclusive hs he hz
one_range-Agrees std setting s e inclusive _ f = cc

range_coverage-Agrees :
    (std : Std) (setting : Setting std) (s e : Pat) (inclusive : Bool) (v : Value)
    → range_fits (int_literal s) (int_literal e) v ≡ true
    → Agrees
        (range_coverage (int_range s e inclusive))
        (in_range (int_literal s) (int_literal e) inclusive v)
        (value_key std setting v)
unfolding range_coverage int_range
range_coverage-Agrees std setting s e inclusive v f = elim (Option-cases (int_literal s)) [
  | inl none_start ↦ rw none_start tt
  | inr (a, start) ↦ elim (Option-cases (int_literal e)) [
    | inl none_end ↦ rw (start, none_end) tt
    | inr (b, stop) ↦
        rw (start, stop) (one_range-Agrees std setting a b inclusive v (rw (start, stop) at f))
  ]
]

module _ (std : Std) (setting : Setting std) where
  mutual
    unfolding pattern_coverage matches fits

    pub coverage-Agrees :
        (p : Pat) (v : Value)
        → fits std setting p v ≡ true
        → Agrees (pattern_coverage std p) (matches std setting p v) (value_key std setting v)
    coverage-Agrees (wildcard _) v f = refl
    coverage-Agrees (ident name _) v f =
        binds_any (names_variant setting.declares name v) (is_unit name v) f
    coverage-Agrees (binding _ p _) v f = coverage-Agrees p v f
    coverage-Agrees (reference _ p _) v f =
        rw (value_key-target_of std setting v) at (coverage-Agrees p (target_of v) f)
    coverage-Agrees (Pat.literal l _) v f =
        contains_key-key (literal_key std l) (value_key std setting v)
        ∙ literal_key-matches std setting l v f
    coverage-Agrees (enum path ps _) v f = enum_coverage-Agrees std setting path ps v f
    coverage-Agrees (Pat.range s e inclusive _) v f =
        range_coverage-Agrees std setting s e inclusive v f
    coverage-Agrees (or ps _) v f =
        OrAgrees-start (or_pattern_coverage std no_patterns ps) (match_any std setting ps v)
          (value_key std setting v) (or_coverage-OrAgrees no_patterns ps v f)
    coverage-Agrees (struct _ fs _ _) v f =
        struct_coverage-Agrees std setting fs (fields_of v) (value_key std setting v) f
    coverage-Agrees (tuple _ _) v f = tt

    or_coverage-OrAgrees :
        (c : CoveredPatterns) (ps : Pats) (v : Value)
        → fit_each std setting ps v ≡ true
        → OrAgrees c
            (or_pattern_coverage std c ps)
            (match_any std setting ps v)
            (value_key std setting v)
    or_coverage-OrAgrees c nil v f = or_result-OrAgrees c (value_key std setting v)
    or_coverage-OrAgrees c (cons p ps) v f =
        let (fp, fps) = &&-split (fits std setting p v) (fit_each std setting ps v) f in
        or_step-OrAgrees c (pattern_coverage std p) (matches std setting p v)
          (match_any std setting ps v) (value_key std setting v)
          (λ d. or_pattern_coverage std (extend c d) ps) (coverage-Agrees p v fp)
          (λ d. or_coverage-OrAgrees (extend c d) ps v fps)
