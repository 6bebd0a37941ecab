-- ===== src/Match/Coverage.antt =====
-- compiler/paco-match/src/lib.rs: the values that a pattern covers, as a set of keys and ranges. A
-- `HashSet<String>` is the list of its elements, each once.
use paco.Prelude.{
  ℕ, ◌-◌, ◌^◌, Bool, true, false, not, ◌&&◌, ◌||◌, Option, none, some, List, [], ◌∷◌, ◌++◌,
  if◌then◌else◌, ◌>>=◌,
}
use paco.Prelude.Int.{ℤ, pos, negsuc, ◌-ℤ◌, leb_ℤ, eqb_ℤ}
use paco.Prelude.Text.{Text, codes, contains, insert, show_ℤ, parse_i64}
use paco.Match.Patterns.{
  Literal, Pat, Pats, FieldPats, ident, wildcard, tuple, struct, enum, or, binding, reference, nil,
  cons, no_fields, field,
}

-- What the standard library decides and the source relies on: the texts of an `f64` and of a quoted
-- string, and which element of a non-empty `HashSet` its iterator yields first.
pub record Std : Type 0 where
  pub float_text : ℕ → Text
  pub debug_text : Text → Text
  pub first_key : Text → List Text → Text

pub record IntRange : Type 0 where
  pub start : ℤ
  pub end : ℤ
  pub inclusive : Bool

-- `i64::checked_sub(1)`
abbrev checked_pred : ℤ → Option ℤ
checked_pred z = if eqb_ℤ z (negsuc (2 ^ 63 - 1)) then none else some (z -ℤ pos 1)

unfoldable pub inclusive_end : IntRange → Option ℤ
unfolding ◌-ℤ◌
inclusive_end r = if r.inclusive then some r.end else checked_pred r.end

unfoldable pub within : ℤ → ℤ → Option ℤ → Bool
within value start none = false
within value start (some end) = leb_ℤ start value && leb_ℤ value end

unfoldable pub range_contains : IntRange → ℤ → Bool
unfolding inclusive_end within
range_contains r value = within value r.start (inclusive_end r)

unfoldable pub covers_from : ℤ → Option ℤ → ℤ → Option ℤ → Bool
covers_from start none other_start other = false
covers_from start (some end) other_start none = true
covers_from start (some end) other_start (some other_end) =
    leb_ℤ start other_start && leb_ℤ other_end end

unfoldable pub contains_range : IntRange → IntRange → Bool
unfolding inclusive_end covers_from
contains_range r other = covers_from r.start (inclusive_end r) other.start (inclusive_end other)

unfoldable pub display : IntRange → Text
display r =
    if r.inclusive
    then show_ℤ r.start ++ (codes "..=" ++ show_ℤ r.end)
    else show_ℤ r.start ++ (codes ".." ++ show_ℤ r.end)

pub record CoveredPatterns : Type 0 where
  pub keys : List Text
  pub int_ranges : List IntRange

abbrev pub no_patterns : CoveredPatterns
no_patterns = record { keys = []; int_ranges = [] }

abbrev pub key : Text → CoveredPatterns
key k = record { keys = k ∷ []; int_ranges = [] }

abbrev pub one_range : IntRange → CoveredPatterns
one_range r = record { keys = []; int_ranges = r ∷ [] }

-- `self.int_ranges.iter().any(|range| range.contains(value))`
unfoldable pub any_contains : List IntRange → ℤ → Bool
any_contains [] value = false
any_contains (r ∷ rs) value = range_contains r value || any_contains rs value

-- `key.parse::<i64>().is_ok_and(…)`
unfoldable pub in_ranges : List IntRange → Option ℤ → Bool
in_ranges rs none = false
in_ranges rs (some value) = any_contains rs value

unfoldable pub contains_key : CoveredPatterns → Text → Bool
unfolding in_ranges
contains_key c k = contains c.keys k || in_ranges c.int_ranges (parse_i64 k)

unfoldable pub insert_all : List Text → List Text → List Text
insert_all ss [] = ss
insert_all ss (t ∷ ts) = insert_all (insert t ss) ts

unfoldable pub extend : CoveredPatterns → CoveredPatterns → CoveredPatterns
unfolding insert_all
extend c other = record {
  keys = insert_all c.keys other.keys;
  int_ranges = c.int_ranges ++ other.int_ranges;
}

-- No key of `keys` is missing from `covered`.
unfoldable pub all_keys : List Text → CoveredPatterns → Bool
all_keys [] covered = true
all_keys (k ∷ ks) covered = contains_key covered k && all_keys ks covered

unfoldable pub any_contains_range : List IntRange → IntRange → Bool
any_contains_range [] r = false
any_contains_range (c ∷ cs) r = contains_range c r || any_contains_range cs r

unfoldable pub all_ranges : List IntRange → List IntRange → Bool
unfolding any_contains_range
all_ranges [] covered = true
all_ranges (r ∷ rs) covered = any_contains_range covered r && all_ranges rs covered

first_witness : Std → List Text → List IntRange → Option Text
unfolding display
first_witness std (k ∷ ks) rs = some (std.first_key k ks)
first_witness std [] (r ∷ rs) = some (display r)
first_witness std [] [] = none

-- `CoveredPatterns::covered_witness`
unfoldable pub patterns_witness : Std → CoveredPatterns → CoveredPatterns → Option Text
unfolding all_keys all_ranges first_witness
patterns_witness std c covered =
    if not (all_keys c.keys covered)
    then none
    else if not (all_ranges c.int_ranges covered.int_ranges)
    then none
    else first_witness std c.keys c.int_ranges

pub data PatternCoverage : Type 0 where
  catch_all : PatternCoverage
  covered : CoveredPatterns → PatternCoverage
  opaque : PatternCoverage

-- `PatternCoverage::covered_witness`
unfoldable pub covered_witness : Std → PatternCoverage → CoveredPatterns → Option Text
unfolding patterns_witness
covered_witness std catch_all c = none
covered_witness std opaque c = none
covered_witness std (covered patterns) c = patterns_witness std patterns c

unfoldable pub literal_key : Std → Literal → Text
literal_key std (Literal.bool true) = codes "true"
literal_key std (Literal.bool false) = codes "false"
literal_key std (Literal.int value) = show_ℤ value
literal_key std (Literal.float value) = std.float_text value
literal_key std (Literal.string value) = std.debug_text value
literal_key std (Literal.char value) = value ∷ []

unfoldable pub int_literal : Pat → Option ℤ
int_literal (Pat.literal (Literal.int value) _) = some value
int_literal _ = none

unfoldable pub int_range : Pat → Pat → Bool → Option IntRange
unfolding int_literal
int_range start end inclusive = do
  s ← int_literal start
  e ← int_literal end
  some (record { start = s; end = e; inclusive = inclusive })

unfoldable mutual
  pub is_irrefutable_pattern : Pat → Bool
  is_irrefutable_pattern (wildcard _) = true
  is_irrefutable_pattern (ident _ _) = true
  is_irrefutable_pattern (binding _ p _) = is_irrefutable_pattern p
  is_irrefutable_pattern (reference _ p _) = is_irrefutable_pattern p
  is_irrefutable_pattern (or ps _) = any_irrefutable ps
  is_irrefutable_pattern (struct _ fs _ _) = all_fields_irrefutable fs
  is_irrefutable_pattern (Pat.literal _ _) = false
  is_irrefutable_pattern (tuple _ _) = false
  is_irrefutable_pattern (enum _ _ _) = false
  is_irrefutable_pattern (Pat.range _ _ _ _) = false

  pub any_irrefutable : Pats → Bool
  any_irrefutable nil = false
  any_irrefutable (cons p ps) = is_irrefutable_pattern p || any_irrefutable ps

  pub all_fields_irrefutable : FieldPats → Bool
  all_fields_irrefutable no_fields = true
  all_fields_irrefutable (field _ p fs) = is_irrefutable_pattern p && all_fields_irrefutable fs

unfoldable pub all_irrefutable : Pats → Bool
unfolding is_irrefutable_pattern
all_irrefutable nil = true
all_irrefutable (cons p ps) = is_irrefutable_pattern p && all_irrefutable ps

abbrev last_or : Text → List Text → Text
last_or d [] = d
last_or d (s ∷ ss) = last_or s ss

-- `format!("{}::{}", path[0], path.last().unwrap())`
abbrev enum_key : Text → Text → List Text → Text
enum_key first second rest = first ++ (codes "::" ++ last_or second rest)

unfoldable pub enum_coverage : List Text → Pats → PatternCoverage
unfolding all_irrefutable
enum_coverage (first ∷ second ∷ rest) fields =
    if all_irrefutable fields then covered (key (enum_key first second rest)) else opaque
enum_coverage _ fields = opaque

unfoldable pub range_coverage : Option IntRange → PatternCoverage
range_coverage (some r) = covered (one_range r)
range_coverage none = opaque

abbrev pub is_empty {ℓ} : {A : Type ℓ} → List A → Bool
is_empty [] = true
is_empty (_ ∷ _) = false

-- the end of the loop over the alternatives
unfoldable pub or_result : CoveredPatterns → PatternCoverage
or_result c = if is_empty c.keys && is_empty c.int_ranges then opaque else covered c

-- the `match` on the coverage of one alternative
unfoldable pub or_step : PatternCoverage → (CoveredPatterns → PatternCoverage) → PatternCoverage
or_step catch_all continue = catch_all
or_step (covered patterns) continue = continue patterns
or_step opaque continue = opaque

unfoldable mutual
  unfolding literal_key int_range enum_coverage range_coverage or_result or_step
      is_irrefutable_pattern

  pub pattern_coverage : Std → Pat → PatternCoverage
  pattern_coverage std (wildcard _) = catch_all
  pattern_coverage std (ident _ _) = catch_all
  pattern_coverage std (binding _ p _) = pattern_coverage std p
  pattern_coverage std (reference _ p _) = pattern_coverage std p
  pattern_coverage std (Pat.literal l _) = covered (key (literal_key std l))
  pattern_coverage std (enum path fields _) = enum_coverage path fields
  pattern_coverage std (Pat.range start end inclusive _) =
      range_coverage (int_range start end inclusive)
  pattern_coverage std (or ps _) = or_pattern_coverage std no_patterns ps
  pattern_coverage std (struct _ fs _ _) = if all_fields_irrefutable fs then catch_all else opaque
  pattern_coverage std (tuple _ _) = opaque

  -- `c` is what the alternatives so far cover.
  pub or_pattern_coverage : Std → CoveredPatterns → Pats → PatternCoverage
  or_pattern_coverage std c nil = or_result c
  or_pattern_coverage std c (cons p ps) =
      or_step (pattern_coverage std p) (λ patterns. or_pattern_coverage std (extend c patterns) ps)
