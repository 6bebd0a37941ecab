-- ===== src/Match/Keys.antt =====
-- compiler/paco-match/src/lib.rs: keys and ranges of covered sets.
use paco.Prelude.{
  ◌≡◌, refl, sym, ◌∙◌, Bool, true, false, ◌||◌, Option, none, some, List, [], ◌∷◌, ◌++◌, arith,
}
use paco.Prelude.Int.{ℤ, ◌-ℤ◌, eqb_ℤ, eqb_ℤ_iff, ℤ_discrete}
use paco.Prelude.Text.{
  Text, eqb_text, eqb_text-eq, eqb_text_refl, contains, contains-insert, insert, show_ℤ, parse_i64,
  is_i64, parse_i64-show_ℤ, show_ℤ-injective,
}
use paco.Match.Coverage.{
  Std, IntRange, range_contains, CoveredPatterns, key, one_range, any_contains, in_ranges,
  contains_key, insert_all, extend, no_patterns,
}
use paco.Match.Meaning.{Setting, Value, target_of, in_range, value_key, int_value, ref_value}

any_contains-append :
    (rs ss : List IntRange) (z : ℤ)
    → any_contains (rs ++ ss) z ≡ (any_contains rs z || any_contains ss z)
unfolding any_contains
any_contains-append [] ss z = refl
any_contains-append (r ∷ rs) ss z = ground (arith, any_contains-append rs ss z)

contains-insert_all :
    (ss ts : List Text) (k : Text)
    → contains (insert_all ss ts) k ≡ (contains ss k || contains ts k)
unfolding insert_all contains
contains-insert_all ss [] k = ground arith
contains-insert_all ss (t ∷ ts) k =
    ground (arith, contains-insert_all (insert t ss) ts k, contains-insert t ss k)

in_ranges-append :
    (rs ss : List IntRange) (o : Option ℤ)
    → in_ranges (rs ++ ss) o ≡ (in_ranges rs o || in_ranges ss o)
unfolding in_ranges
in_ranges-append rs ss none = refl
in_ranges-append rs ss (some z) = any_contains-append rs ss z

-- What is covered together is covered by one of the two.
pub contains_key-extend :
    (c d : CoveredPatterns) (k : Text)
    → contains_key (extend c d) k ≡ (contains_key c k || contains_key d k)
unfolding contains_key extend
contains_key-extend c d k = ground (
  arith,
  contains-insert_all c.keys d.keys k,
  in_ranges-append c.int_ranges d.int_ranges (parse_i64 k),
)

in_no_ranges : (o : Option ℤ) → in_ranges [] o ≡ false
unfolding in_ranges any_contains
in_no_ranges none = refl
in_no_ranges (some z) = refl

pub contains_no_patterns : (k : Text) → contains_key no_patterns k ≡ false
unfolding contains_key contains
contains_no_patterns k = ground (arith, in_no_ranges (parse_i64 k))

pub contains_key-key : (t k : Text) → contains_key (key t) k ≡ eqb_text t k
unfolding contains_key contains
contains_key-key t k = ground (arith, in_no_ranges (parse_i64 k))

pub contains_key-one_range :
    (r : IntRange) (z : ℤ)
    → is_i64 z ≡ true
    → contains_key (one_range r) (show_ℤ z) ≡ range_contains r z
unfolding contains_key contains in_ranges any_contains
contains_key-one_range r z h = rw (parse_i64-show_ℤ z h) (ground arith)

false_of : (b : Bool) → ¬ (b ≡ true) → b ≡ false
false_of true h = absurd (h refl)
false_of false h = refl

pub eqb_show :
    (y z : ℤ) → is_i64 y ≡ true → is_i64 z ≡ true → eqb_text (show_ℤ y) (show_ℤ z) ≡ eqb_ℤ y z
eqb_show y z hy hz = elim (ℤ_discrete y z) [
  | yes same ↦ rw same (eqb_text_refl (show_ℤ z) ∙ sym ((eqb_ℤ_iff z z).1 refl))
  | no other ↦
      let texts : eqb_text (show_ℤ y) (show_ℤ z) ≡ false =
        false_of _
          (λ e. other (show_ℤ-injective y z hy hz (eqb_text-eq (show_ℤ y) (show_ℤ z) e))) in
      let numbers : eqb_ℤ y z ≡ false = false_of _ (λ e. other ((eqb_ℤ_iff y z).0 e)) in
      texts ∙ sym numbers
]

pub range_contains-in_range :
    (s e z : ℤ) (inclusive : Bool)
    → is_i64 s ≡ true
    → is_i64 e ≡ true
    → is_i64 z ≡ true
    → range_contains (record { start = s; end = e; inclusive = inclusive }) z
      ≡ in_range (some s) (some e) inclusive (int_value z)
unfolding range_contains in_range ◌-ℤ◌
range_contains-in_range s e z true hs he hz = ground arith
range_contains-in_range s e z false hs he hz = ground arith

pub value_key-target_of :
    (std : Std) (setting : Setting std) (v : Value)
    → value_key std setting (target_of v) ≡ value_key std setting v
unfolding value_key
value_key-target_of std setting (ref_value v) = refl
value_key-target_of std setting _ = refl
