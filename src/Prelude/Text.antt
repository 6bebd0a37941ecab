-- ===== src/Prelude/Text.antt =====
-- Texts as lists of code points, and what the program uses of the standard library on them: `==`,
-- `i64::to_string` and `str::parse::<i64>`.
use mathlib.Core.List.{List, [], ◌∷◌, ◌++◌}
use mathlib.Core.Path.{◌≡◌, refl, ap}
use mathlib.Core.Logic.{inl, inr}
use mathlib.Core.Bool.{Bool, true, false, ◌&&◌, ◌||◌}
use mathlib.Core.Option.{Option, none, some}
use native.Mathlib.Omega.{arith}
use Prim.Native.Nat.{ℕ, zero, suc, ◌+◌, ◌-◌, ◌*◌, ◌/◌, ◌%◌, ◌^◌, ◌<◌}
use Prim.Native.Char.{code}
use Prim.Native.String.{String}
use paco.Prelude.Tests.{ltb, leb, ◌==◌, if◌then◌else◌, Bool-cases, ◌>>=◌}
use paco.Prelude.Int.{ℤ, pos, negsuc, leb_ℤ}

abbrev pub Text : Type 0
Text = List ℕ

-- the code points of a literal
abbrev pub codes : String → Text
codes String.[] = []
codes (String.◌∷◌ c s) = code c ∷ codes s

unfoldable pub eqb_text : Text → Text → Bool
eqb_text [] [] = true
eqb_text (a ∷ s) (b ∷ t) = a == b && eqb_text s t
eqb_text _ _ = false

pub eqb_text-eq : (s t : Text) → eqb_text s t ≡ true → s ≡ t
unfolding eqb_text
eqb_text-eq [] [] h = refl
eqb_text-eq [] (b ∷ t) h = cc
eqb_text-eq (a ∷ s) [] h = cc
eqb_text-eq (a ∷ s) (b ∷ t) h = ground (arith, eqb_text-eq s t)

pub eqb_text_refl : (s : Text) → eqb_text s s ≡ true
unfolding eqb_text
eqb_text_refl [] = refl
eqb_text_refl (a ∷ s) = ground (arith, eqb_text_refl s)

pub eqb_text-append_left : (s t u : Text) → eqb_text (s ++ t) (s ++ u) ≡ eqb_text t u
unfolding eqb_text
eqb_text-append_left [] t u = refl
eqb_text-append_left (c ∷ s) t u = ground (arith, eqb_text-append_left s t u)

-- membership in a collection of texts
unfoldable pub contains : List Text → Text → Bool
contains [] t = false
contains (s ∷ ss) t = eqb_text s t || contains ss t

-- one more element of a set
unfoldable pub insert : Text → List Text → List Text
unfolding contains
insert t ss = if contains ss t then ss else ss ++ t ∷ []

pub contains-append :
    (ss ts : List Text) (t : Text) → contains (ss ++ ts) t ≡ (contains ss t || contains ts t)
unfolding contains
contains-append [] ts t = refl
contains-append (s ∷ ss) ts t = ground (arith, contains-append ss ts t)

pub contains-insert :
    (s : Text) (ss : List Text) (t : Text)
    → contains (insert s ss) t ≡ (contains ss t || eqb_text s t)
unfolding insert
contains-insert s ss t =
    let member : eqb_text s t ≡ true → contains ss s ≡ contains ss t =
      λ same. ap (contains ss) (eqb_text-eq s t same) in
    elim (Bool-cases (contains ss s)) [
      | inl old ↦ rw old (ground (arith, eqb_text-eq s t, member))
      | inr new ↦ rw (new, contains-append ss (s ∷ []) t) (unfold contains in ground arith)
    ]

-- the decimal digits of a number, on fuel: `suc n` suffices for `n`
unfoldable pub decimal_fuel : ℕ → ℕ → Text
decimal_fuel zero n = []
decimal_fuel (suc f) n =
    let front = decimal_fuel f (n / 10) in
    if ltb n 10 then (b'0' + n) ∷ [] else front ++ (b'0' + n % 10) ∷ []

unfoldable pub decimal : ℕ → Text
unfolding decimal_fuel
decimal n = decimal_fuel (suc n) n

-- `i64::to_string`
unfoldable pub show_ℤ : ℤ → Text
unfolding decimal
show_ℤ (pos n) = decimal n
show_ℤ (negsuc n) = b'-' ∷ decimal (suc n)

-- the digits of `str::parse`, with the number read so far
unfoldable pub read_digits : ℕ → Text → Option ℕ
read_digits n [] = some n
read_digits n (c ∷ s) =
    let rest = read_digits (n * 10 + (c - b'0')) s in
    if leb b'0' c && leb c b'9' then rest else none

abbrev pub read_number : Text → Option ℕ
read_number [] = none
read_number (c ∷ s) = read_digits 0 (c ∷ s)

abbrev positive : ℕ → Option ℤ
positive n = if ltb n (2 ^ 63) then some (pos n) else none

abbrev negative : ℕ → Option ℤ
negative zero = some (pos 0)
negative (suc n) = if ltb n (2 ^ 63) then some (negsuc n) else none

-- `str::parse::<i64>`: an optional sign and at least one digit, without overflow
unfoldable pub parse_i64 : Text → Option ℤ
unfolding read_digits
parse_i64 [] = none
parse_i64 (c ∷ s) =
    if c == b'-'
    then read_number s >>= negative
    else if c == b'+'
    then read_number s >>= positive
    else read_number (c ∷ s) >>= positive

abbrev pub is_i64 : ℤ → Bool
is_i64 z = leb_ℤ (negsuc (2 ^ 63 - 1)) z && leb_ℤ z (pos (2 ^ 63 - 1))

read_digits-append :
    (n : ℕ) (s t : Text) → read_digits n (s ++ t) ≡ (read_digits n s >>= λ m. read_digits m t)
unfolding read_digits
read_digits-append n [] t = refl
read_digits-append n (c ∷ s) t = ground (arith, read_digits-append (n * 10 + (c - b'0')) s t)

read_digits-decimal_fuel : (f n : ℕ) → n < f → read_digits 0 (decimal_fuel f n) ≡ some n
unfolding decimal_fuel
read_digits-decimal_fuel zero n h = elim h [ ]
read_digits-decimal_fuel (suc f) n h = elim (Bool-cases (ltb n 10)) [
  | inl one ↦ rw one (unfold read_digits in ground arith)
  | inr more ↦
      rw
        (
          more,
          read_digits-append 0 (decimal_fuel f (n / 10)) ((b'0' + n % 10) ∷ []),
          read_digits-decimal_fuel f (n / 10) (ground arith),
        )
        (unfold read_digits in ground arith)
]

leads : Text → Bool
leads [] = false
leads (c ∷ s) = leb b'0' c

leads-append : (s t : Text) → leads s ≡ true → leads (s ++ t) ≡ true
unfolding leads
leads-append [] t h = cc
leads-append (c ∷ s) t h = h

leads-decimal_fuel : (f n : ℕ) → n < f → leads (decimal_fuel f n) ≡ true
unfolding decimal_fuel
leads-decimal_fuel zero n h = elim h [ ]
leads-decimal_fuel (suc f) n h = elim (Bool-cases (ltb n 10)) [
  | inl one ↦ rw one (unfold leads in ground arith)
  | inr more ↦ rw more (
      leads-append (decimal_fuel f (n / 10)) ((b'0' + n % 10) ∷ [])
        (leads-decimal_fuel f (n / 10) (ground arith)))
]

parse_plain :
    (s : Text) (n : ℕ)
    → leads s ≡ true
    → read_digits 0 s ≡ some n
    → n < 2 ^ 63
    → parse_i64 s ≡ some (pos n)
unfolding parse_i64 leads
parse_plain [] n l r h = cc
parse_plain (c ∷ s) n l r h = ground arith

parse_minus :
    (s : Text) (n : ℕ)
    → leads s ≡ true
    → read_digits 0 s ≡ some (suc n)
    → n < 2 ^ 63
    → parse_i64 (b'-' ∷ s) ≡ some (negsuc n)
unfolding parse_i64 leads
parse_minus [] n l r h = cc
parse_minus (c ∷ s) n l r h = ground arith

-- A number in the range of `i64` is read back from its text.
pub parse_i64-show_ℤ : (z : ℤ) → is_i64 z ≡ true → parse_i64 (show_ℤ z) ≡ some z
unfolding show_ℤ
parse_i64-show_ℤ (pos n) h =
    parse_plain (decimal n) n (leads-decimal_fuel (suc n) n (omega arith))
      (read_digits-decimal_fuel (suc n) n (omega arith)) (ground arith)
parse_i64-show_ℤ (negsuc n) h =
    parse_minus (decimal (suc n)) n (leads-decimal_fuel (suc (suc n)) (suc n) (omega arith))
      (read_digits-decimal_fuel (suc (suc n)) (suc n) (omega arith)) (ground arith)

pub show_ℤ-injective : (y z : ℤ) → is_i64 y ≡ true → is_i64 z ≡ true → show_ℤ y ≡ show_ℤ z → y ≡ z
show_ℤ-injective y z hy hz e = cc (parse_i64-show_ℤ y hy, parse_i64-show_ℤ z hz, ap parse_i64 e)
