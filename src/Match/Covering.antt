-- ===== src/Match/Covering.antt =====
-- compiler/paco-match/src/lib.rs: what a covered set says of the key of a value.
use paco.Prelude.{
  ◌≡◌, ◌∙◌, subst, inl, inr, Bool, true, Option, none, some, List, [], ◌∷◌, arith, Bool-cases,
  &&-split, ||-split, ||-right, ||-left, &&-both, set,
}
use paco.Prelude.Int.{ℤ, leb_ℤ}
use paco.Prelude.Text.{Text, eqb_text, eqb_text-eq, contains, parse_i64}
use paco.Match.Coverage.{
  Std, IntRange, range_contains, contains_range, within, covers_from, inclusive_end,
  CoveredPatterns, no_patterns, any_contains, in_ranges, contains_key, all_keys, any_contains_range,
  all_ranges, patterns_witness, covered_witness, PatternCoverage, catch_all, covered, opaque,
}
use paco.Match.Analysis.{ConstructorSet, all_covered, is_exhausted_by, find_missing}
use paco.Match.Meaning.{Setting, Value, value_key, is_instance}
use paco.Match.Agreement.{Agrees}

leb_ℤ_trans : (a b c : ℤ) → leb_ℤ a b ≡ true → leb_ℤ b c ≡ true → leb_ℤ a c ≡ true
leb_ℤ_trans a b c h k = ground arith

covers_from-within :
    (s : ℤ) (e : Option ℤ) (s' : ℤ) (e' : Option ℤ) (z : ℤ)
    → covers_from s e s' e' ≡ true
    → within z s' e' ≡ true
    → within z s e ≡ true
unfolding covers_from within
covers_from-within s none s' e' z h k = cc
covers_from-within s (some e) s' none z h k = cc
covers_from-within s (some e) s' (some e') z h k =
    let (low, high) = &&-split (leb_ℤ s s') (leb_ℤ e' e) h in
    let (from, to) = &&-split (leb_ℤ s' z) (leb_ℤ z e') k in
    &&-both _ _ (leb_ℤ_trans s s' z low from) (leb_ℤ_trans z e' e to high)

contains_range-contains :
    (r other : IntRange) (z : ℤ)
    → contains_range r other ≡ true
    → range_contains other z ≡ true
    → range_contains r z ≡ true
unfolding contains_range range_contains
contains_range-contains r other z h k =
    covers_from-within r.start (inclusive_end r) other.start (inclusive_end other) z h k

any_contains_range-contains :
    (rs : List IntRange) (other : IntRange) (z : ℤ)
    → any_contains_range rs other ≡ true
    → range_contains other z ≡ true
    → any_contains rs z ≡ true
unfolding any_contains_range any_contains
any_contains_range-contains [] other z h k = cc
any_contains_range-contains (r ∷ rs) other z h k =
    elim (||-split (contains_range r other) (any_contains_range rs other) h) [
      | inl this ↦ ||-left _ _ (contains_range-contains r other z this k)
      | inr later ↦ ||-right _ _ (any_contains_range-contains rs other z later k)
    ]

all_ranges-contains :
    (rs seen : List IntRange) (z : ℤ)
    → all_ranges rs seen ≡ true
    → any_contains rs z ≡ true
    → any_contains seen z ≡ true
unfolding all_ranges any_contains
all_ranges-contains [] seen z h k = cc
all_ranges-contains (r ∷ rs) seen z h k =
    let (this, rest) = &&-split (any_contains_range seen r) (all_ranges rs seen) h in
    elim (||-split (range_contains r z) (any_contains rs z) k) [
      | inl here ↦ any_contains_range-contains seen r z this here
      | inr later ↦ all_ranges-contains rs seen z rest later
    ]

all_ranges-in_ranges :
    (rs seen : List IntRange) (o : Option ℤ)
    → all_ranges rs seen ≡ true
    → in_ranges rs o ≡ true
    → in_ranges seen o ≡ true
unfolding in_ranges
all_ranges-in_ranges rs seen none h k = k
all_ranges-in_ranges rs seen (some z) h k = all_ranges-contains rs seen z h k

all_keys-contains :
    (ks : List Text) (c : CoveredPatterns) (k : Text)
    → all_keys ks c ≡ true
    → contains ks k ≡ true
    → contains_key c k ≡ true
unfolding all_keys contains
all_keys-contains [] c k h m = cc
all_keys-contains (s ∷ ks) c k h m =
    let (this, rest) = &&-split (contains_key c s) (all_keys ks c) h in
    elim (||-split (eqb_text s k) (contains ks k) m) [
      | inl same ↦ subst (λ t. contains_key c t ≡ true) (eqb_text-eq s k same) this
      | inr later ↦ all_keys-contains ks c k rest later
    ]

patterns_witness-contains :
    (std : Std) (c seen : CoveredPatterns) (w k : Text)
    → patterns_witness std c seen ≡ some w
    → contains_key c k ≡ true
    → contains_key seen k ≡ true
unfolding patterns_witness contains_key
patterns_witness-contains std c seen w k h m =
    let keys : all_keys c.keys seen ≡ true = ground arith in
    let ranges : all_ranges c.int_ranges seen.int_ranges ≡ true = ground arith in
    elim (||-split (contains c.keys k) (in_ranges c.int_ranges (parse_i64 k)) m) [
      | inl key ↦ all_keys-contains c.keys seen k keys key
      | inr range ↦
          ||-right (contains seen.keys k) _
            (all_ranges-in_ranges c.int_ranges seen.int_ranges (parse_i64 k) ranges range)
    ]

-- A pattern for which `covered_witness` finds a witness matches only values already covered.
pub covered_witness-contains :
    (std : Std) (x : PatternCoverage) (seen : CoveredPatterns) (matched : Bool) (w k : Text)
    → covered_witness std x seen ≡ some w
    → Agrees x matched k
    → matched ≡ true
    → contains_key seen k ≡ true
unfolding covered_witness
covered_witness-contains std catch_all seen matched w k h a m = cc
covered_witness-contains std opaque seen matched w k h a m = cc
covered_witness-contains std (covered c) seen matched w k h a m =
    patterns_witness-contains std c seen w k h (a ∙ m)

all_covered-contains :
    (ks : List Text) (c : CoveredPatterns) (k : Text)
    → all_covered ks c ≡ true
    → contains ks k ≡ true
    → contains_key c k ≡ true
unfolding all_covered contains
all_covered-contains [] c k h m = cc
all_covered-contains (s ∷ ks) c k h m =
    let (this, rest) = &&-split (contains_key c s) (all_covered ks c) h in
    elim (||-split (eqb_text s k) (contains ks k) m) [
      | inl same ↦ subst (λ t. contains_key c t ≡ true) (eqb_text-eq s k same) this
      | inr later ↦ all_covered-contains ks c k rest later
    ]

pub find_missing-contains :
    (ks : List Text) (c : CoveredPatterns) (k : Text)
    → find_missing ks c ≡ none
    → contains ks k ≡ true
    → contains_key c k ≡ true
unfolding find_missing contains
find_missing-contains [] c k h m = cc
find_missing-contains (s ∷ ks) c k h m = elim (Bool-cases (contains_key c s)) [
  | inr absent ↦ absurd (cc (rw absent at h))
  | inl present ↦ elim (||-split (eqb_text s k) (contains ks k) m) [
    | inl same ↦ subst (λ t. contains_key c t ≡ true) (eqb_text-eq s k same) present
    | inr later ↦ find_missing-contains ks c k (rw present at h) later
  ]
]

pub instance_key :
    (std : Std) (setting : Setting std) (set : ConstructorSet) (v : Value)
    → set.fallback_witness ≡ none
    → is_instance std setting set v ≡ true
    → contains set.constructors (value_key std setting v) ≡ true
unfolding is_instance
instance_key std setting set v closed i = rw closed at i

pub is_exhausted_by-contains :
    (std : Std) (setting : Setting std) (set : ConstructorSet) (c : CoveredPatterns) (v : Value)
    → is_exhausted_by set c ≡ true
    → is_instance std setting set v ≡ true
    → contains_key c (value_key std setting v) ≡ true
unfolding is_exhausted_by
is_exhausted_by-contains std setting set c v full i =
    let closed : set.fallback_witness ≡ none = ground arith in
    let all : all_covered set.constructors c ≡ true = ground arith in
    all_covered-contains set.constructors c (value_key std setting v) all
      (instance_key std setting set v closed i)

pub contains_no_key : (k : Text) → contains_key no_patterns k ≡ true → ⊥
unfolding contains_key contains in_ranges any_contains
contains_no_key k h = ground arith
