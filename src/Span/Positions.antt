-- ===== src/Span/Positions.antt =====
-- compiler/paco-span/src/lib.rs, `line_column`: what a line and a column count.
use paco.Prelude.{
  ℕ, suc, ◌+◌, ◌-◌, ◌≤◌, ◌<◌, ◌≡◌, refl, ◌⊎◌, inl, inr, Bool, true, false, ◌&&◌, ◌||◌, [], ◌∷◌,
  arith, leb, ◌==◌, if◌then◌else◌, tests, Bool-cases, length,
}
use native.Mathlib.Nat.{sub-zero}
use paco.Prelude.Text.{Text}
use paco.Span.{LineColumn, len_utf8, advance_to, line_column}

-- the characters that begin before a byte offset
unfoldable pub before : ℕ → Text → Text
before offset [] = []
before offset (c ∷ s) =
    let rest = before (offset - len_utf8 c) s in if offset == 0 then [] else c ∷ rest

unfoldable pub newlines : Text → ℕ
newlines [] = 0
newlines (c ∷ s) = if c == b'\n' then suc (newlines s) else newlines s

-- the number of characters behind the last newline
unfoldable pub tail_length : Text → ℕ
unfolding newlines
tail_length [] = 0
tail_length (c ∷ s) =
    let rest = tail_length s in if newlines (c ∷ s) == 0 then suc (length s) else rest

tail_length-no_newline : (s : Text) → newlines s ≡ 0 → tail_length s ≡ length s
unfolding newlines tail_length
tail_length-no_newline [] h = refl
tail_length-no_newline (c ∷ s) h = ground arith

advance_to-before :
    (offset index line column : ℕ) (s : Text)
    → advance_to offset index (record { line = line; column = column }) s ≡ (
        let front = before (offset - index) s in
        record {
          line = line + newlines front;
          column = if newlines front == 0 then column + length front else 1 + tail_length front;
        })
unfolding advance_to before newlines tail_length
advance_to-before offset index line column [] = ground arith
advance_to-before offset index line column (c ∷ s) = elim (Bool-cases (leb offset index)) [
  | inl done ↦
      let zero_left : offset - index ≡ 0 = omega (tests, done) in
      rw (done, zero_left) (ground arith)
  | inr more ↦
      let some_left : ((offset - index) == 0) ≡ false = ground arith in
      let shift : offset - (index + len_utf8 c) ≡ offset - index - len_utf8 c = omega arith in
      let next_line = advance_to-before offset (index + len_utf8 c) (line + 1) 1 s in
      let same_line = advance_to-before offset (index + len_utf8 c) line (column + 1) s in
      rw (more, some_left, ← shift)
        (elim (Bool-cases (c == b'\n')) [
          | inl newline ↦
              rw (newline, next_line)
                (ground (arith, tail_length-no_newline (before (offset - (index + len_utf8 c)) s)))
          | inr other ↦ rw (other, same_line) (ground arith)
        ])
]

-- The line of an offset is one more than the newlines among the characters that begin before it,
-- and the column one more than the characters behind the last of those newlines.
pub line_column-counts :
    (s : Text) (offset : ℕ)
    → ((line_column s offset).line ≡ 1 + newlines (before offset s))
      × ((line_column s offset).column ≡ 1 + tail_length (before offset s))
unfolding line_column
line_column-counts s offset =
    ground (arith, advance_to-before offset 0 1 1 s, tail_length-no_newline (before offset s))

-- one position stands in the text before another
infix 50 ◌≺◌
abbrev pub ◌≺◌ : LineColumn → LineColumn → Type 0
a ≺ b = (a.line < b.line) ⊎ ((a.line ≡ b.line) × (a.column < b.column))

-- the offsets at which a character begins, and the end of the text
unfoldable pub is_boundary : ℕ → Text → Bool
is_boundary offset [] = offset == 0
is_boundary offset (c ∷ s) =
    let rest = is_boundary (offset - len_utf8 c) s in
    offset == 0 || (leb (len_utf8 c) offset && rest)

len_utf8_pos : (c : ℕ) → 0 < len_utf8 c
unfolding len_utf8
len_utf8_pos c = ground arith

≺_trans : (a b c : LineColumn) → a ≺ b → b ≺ c → a ≺ c
≺_trans a b c h k = ground arith

-- the position behind a character
abbrev step_over : ℕ → LineColumn → LineColumn
step_over c at =
    if c == b'\n'
    then record { line = at.line + 1; column = 1 }
    else record at { column = at.column + 1 }

step_over_grows : (c : ℕ) (at : LineColumn) → at ≺ step_over c at
step_over_grows c at = ground arith

advance_to_grows :
    (offset index : ℕ) (at : LineColumn) (s : Text)
    → (at ≺ advance_to offset index at s) ⊎ (advance_to offset index at s ≡ at)
unfolding advance_to
advance_to_grows offset index at [] = inr refl
advance_to_grows offset index at (c ∷ s) = elim (Bool-cases (leb offset index)) [
  | inl done ↦ rw done (inr refl)
  | inr more ↦ rw more (elim (advance_to_grows offset (index + len_utf8 c) (step_over c at) s) [
    | inl later ↦ inl (
        ≺_trans at (step_over c at) (advance_to offset (index + len_utf8 c) (step_over c at) s)
          (step_over_grows c at) later)
    | inr same ↦ inl (rw same (step_over_grows c at))
  ])
]

boundary_tail :
    (o c : ℕ) (s : Text)
    → 0 < o
    → is_boundary o (c ∷ s) ≡ true
    → is_boundary (o - len_utf8 c) s ≡ true
unfolding is_boundary
boundary_tail o c s h b = ground arith

boundary_wide : (o c : ℕ) (s : Text) → 0 < o → is_boundary o (c ∷ s) ≡ true → len_utf8 c ≤ o
unfolding is_boundary
boundary_wide o c s h b = ground arith

advance_to-≺ :
    (o o' index : ℕ) (at : LineColumn) (s : Text)
    → index ≤ o
    → o < o'
    → is_boundary (o - index) s ≡ true
    → is_boundary (o' - index) s ≡ true
    → advance_to o index at s ≺ advance_to o' index at s
unfolding advance_to is_boundary
advance_to-≺ o o' index at [] le lt b b' = ground arith
advance_to-≺ o o' index at (c ∷ s) le lt b b' =
    let there : leb o' index ≡ false = ground arith in
    rw there (elim (Bool-cases (leb o index)) [
      | inl here ↦ rw here (elim (advance_to_grows o' (index + len_utf8 c) (step_over c at) s) [
        | inl later ↦
            ≺_trans at (step_over c at) (advance_to o' (index + len_utf8 c) (step_over c at) s)
              (step_over_grows c at) later
        | inr same ↦ rw same (step_over_grows c at)
      ])
      | inr further ↦
          let wide = boundary_wide (o - index) c s (ground arith) b in
          let rest = boundary_tail (o - index) c s (ground arith) b in
          let rest' = boundary_tail (o' - index) c s (ground arith) b' in
          let shift : o - index - len_utf8 c ≡ o - (index + len_utf8 c) = omega arith in
          let shift' : o' - index - len_utf8 c ≡ o' - (index + len_utf8 c) = omega arith in
          rw further (
            advance_to-≺ o o' (index + len_utf8 c) (step_over c at) s (ground arith) lt
              (rw shift at rest) (rw shift' at rest'))
    ])

-- Two different offsets at which characters begin or the text ends have different positions, in
-- the order of the offsets.
pub line_column-≺ :
    (s : Text) (o o' : ℕ)
    → o < o'
    → is_boundary o s ≡ true
    → is_boundary o' s ≡ true
    → line_column s o ≺ line_column s o'
unfolding line_column
line_column-≺ s o o' lt b b' =
    advance_to-≺ o o' 0 (record { line = 1; column = 1 }) s (omega arith) lt (rw sub-zero b)
      (rw sub-zero b')
