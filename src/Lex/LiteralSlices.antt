-- ===== src/Lex/LiteralSlices.antt =====
-- compiler/paco-syntax/src/lex.rs: scanning literals and comments keeps the source.
use paco.Prelude.{
  if-holds, ℕ, ◌≡◌, refl, ◌∙◌, Bool, false, not, ◌&&◌, Option, none, some, [], ◌∷◌, ◌==◌,
  if◌then◌else◌,
}
use paco.Prelude.Text.{Text}
use paco.Span.{Span}
use paco.Lex.Kinds.{char, error, float, integer, string}
use paco.Lex.Scan.{
  Lexer, offset, push, report, peek_in, advance_in, advance, is_char, peek, peek_next,
  is_identifier_continue, skip_while_in,
}
use paco.Lex.Literals.{
  string_in, close_string, string_literal, check_no_trailing_separator, is_digit, check_digit,
  prefixed_in, check_leading_separator, check_any_digit, prefixed_digits, is_digit_or_separator,
  is_some_digit, digits, decimal, number_by_radix, number, identifier_token, lifetime_token,
  advance_past, char_literal, skip_line_comment, block_comment_in,
}
use paco.Lex.Slices.{
  Goes, Goes-refl, Goes-trans, Emits, Goes-Emits, report-Goes, report-Emits, push-Emits,
  advance_in-Goes, advance-Goes, skip_while_in-Goes, rest-advance_in,
}

string_in-Goes :
    (escaped : Bool) (text : Text) (s : Lexer) → s.rest ≡ text → Goes s (string_in escaped text s)
unfolding string_in
string_in-Goes escaped [] s e = Goes-refl s
string_in-Goes escaped (c ∷ rest) s e =
    let next = advance_in (c ∷ rest) s in
    if-holds (Goes s) (not escaped && c == b'"') s (string_in (not escaped && c == b'\\') rest next)
      (λ _. Goes-refl s)
      (λ _.
        Goes-trans s next _ (advance_in-Goes c rest s e)
          (string_in-Goes (not escaped && c == b'\\') rest next (rest-advance_in c rest s)))

close_string-Emits :
    (start : ℕ) (text : Text) (s : Lexer)
    → s.rest ≡ text
    → Emits start s (close_string start text s)
unfolding close_string
close_string-Emits start [] s e =
    report-Emits start _ _ s (push error start s) (push-Emits error start s)
close_string-Emits start (c ∷ rest) s e =
    Goes-Emits start s (advance_in (c ∷ rest) s) _ (advance_in-Goes c rest s e)
      (push-Emits string start (advance_in (c ∷ rest) s))

pub string_literal-Emits : (start : ℕ) (s : Lexer) → Emits start s (string_literal start s)
unfolding string_literal
string_literal-Emits start s =
    let s' = string_in false s.rest s in
    Goes-Emits start s s' _ (string_in-Goes false s.rest s refl)
      (close_string-Emits start s'.rest s' refl)

-- a report under a condition
report_if-Goes :
    (b : Bool) (error_code : Text) (span : Span) (s : Lexer)
    → Goes s (if b then report error_code span s else s)
report_if-Goes b error_code span s =
    if-holds (Goes s) b (report error_code span s) s (λ _. report-Goes error_code span s)
      (λ _. Goes-refl s)

check_no_trailing_separator-Goes :
    (start : ℕ) (s : Lexer) → Goes s (check_no_trailing_separator start s)
unfolding check_no_trailing_separator
check_no_trailing_separator-Goes start s = report_if-Goes _ _ _ s

check_digit-Goes : (radix c : ℕ) (s : Lexer) → Goes s (check_digit radix c s)
unfolding check_digit
check_digit-Goes radix c s = report_if-Goes _ _ _ s

rest-check_digit : (radix c : ℕ) (s : Lexer) → (check_digit radix c s).rest ≡ s.rest
unfolding check_digit report
rest-check_digit radix c s =
    if-holds (λ t. t.rest ≡ s.rest) (not (c == b'_') && not (is_digit radix c)) _ s (λ _. refl)
      (λ _. refl)

prefixed_in-Goes :
    (radix : ℕ) (text : Text) (s : Lexer) → s.rest ≡ text → Goes s (prefixed_in radix text s)
unfolding prefixed_in
prefixed_in-Goes radix [] s e = Goes-refl s
prefixed_in-Goes radix (c ∷ rest) s e =
    let next = advance_in (c ∷ rest) s in
    let checked = check_digit radix c next in
    if-holds (Goes s) (is_identifier_continue c) (prefixed_in radix rest checked) s
      (λ _. Goes-trans s next _ (advance_in-Goes c rest s e) (
        Goes-trans next checked _ (check_digit-Goes radix c next) (
          prefixed_in-Goes radix rest checked
            (rest-check_digit radix c next ∙ rest-advance_in c rest s))))
      (λ _. Goes-refl s)

prefixed_digits-Emits :
    (start radix : ℕ) (s : Lexer) → Emits start s (prefixed_digits start radix s)
unfolding prefixed_digits check_leading_separator check_any_digit
prefixed_digits-Emits start radix s =
    let checked = check_leading_separator s in
    let scanned = prefixed_in radix checked.rest checked in
    let counted = check_any_digit start (offset s) scanned in
    let ended = check_no_trailing_separator start counted in
    Goes-Emits start s checked _ (report_if-Goes _ _ _ s) (
      Goes-Emits start checked scanned _ (prefixed_in-Goes radix checked.rest checked refl) (
        Goes-Emits start scanned counted _ (report_if-Goes _ _ _ scanned) (
          Goes-Emits start counted ended _ (check_no_trailing_separator-Goes start counted)
            (push-Emits integer start ended))))

digits-Goes : (start : ℕ) (s : Lexer) → Goes s (digits start s)
unfolding digits
digits-Goes start s =
    let s' = skip_while_in is_digit_or_separator s.rest s in
    Goes-trans s s' _ (skip_while_in-Goes is_digit_or_separator s.rest s refl)
      (check_no_trailing_separator-Goes start s')

decimal-Emits : (start : ℕ) (s : Lexer) → Emits start s (decimal start s)
unfolding decimal
decimal-Emits start s =
    let whole = digits start s in
    let point = advance whole in
    Goes-Emits start s whole _ (digits-Goes start s) (
      if-holds (Emits start whole) (is_char b'.' (peek whole) && is_some_digit (peek_next whole))
        (push float start (digits start point)) (push integer start whole)
        (λ _. Goes-Emits start whole point _ (advance-Goes whole) (
          Goes-Emits start point (digits start point) _ (digits-Goes start point)
            (push-Emits float start (digits start point))))
        (λ _. push-Emits integer start whole))

number_by_radix-Emits :
    (start : ℕ) (radix : Option ℕ) (s : Lexer) → Emits start s (number_by_radix start radix s)
unfolding number_by_radix
number_by_radix-Emits start (some radix) s =
    Goes-Emits start s (advance s) _ (advance-Goes s)
      (prefixed_digits-Emits start radix (advance s))
number_by_radix-Emits start none s = decimal-Emits start s

pub number-Emits : (start : ℕ) (s : Lexer) → Emits start s (number start s)
unfolding number
number-Emits start s = number_by_radix-Emits start _ s

pub identifier_token-Emits : (start : ℕ) (s : Lexer) → Emits start s (identifier_token start s)
unfolding identifier_token
identifier_token-Emits start s =
    Goes-Emits start s _ _ (skip_while_in-Goes is_identifier_continue s.rest s refl)
      (push-Emits _ start _)

pub lifetime_token-Emits : (start : ℕ) (s : Lexer) → Emits start s (lifetime_token start s)
unfolding lifetime_token
lifetime_token-Emits start s =
    Goes-Emits start s _ _ (skip_while_in-Goes is_identifier_continue s.rest s refl)
      (push-Emits _ start _)

advance_past-Goes : (c : ℕ) (s : Lexer) → Goes s (advance_past c s)
unfolding advance_past
advance_past-Goes c s =
    if-holds (Goes s) (is_char c (peek s)) (advance s) s (λ _. advance-Goes s) (λ _. Goes-refl s)

pub char_literal-Emits : (start : ℕ) (s : Lexer) → Emits start s (char_literal start s)
unfolding char_literal
char_literal-Emits start s =
    let a = advance_past b'\\' s in
    let b = advance a in
    let c = advance_past b'\'' b in
    Goes-Emits start s a _ (advance_past-Goes b'\\' s) (
      Goes-Emits start a b _ (advance-Goes a)
        (Goes-Emits start b c _ (advance_past-Goes b'\'' b) (push-Emits char start c)))

pub skip_line_comment-Goes : (s : Lexer) → Goes s (skip_line_comment s)
unfolding skip_line_comment
skip_line_comment-Goes s = skip_while_in-Goes _ s.rest s refl

pub block_comment_in-Goes :
    (start : ℕ) (text : Text) (s : Lexer) → s.rest ≡ text → Goes s (block_comment_in start text s)
unfolding block_comment_in
block_comment_in-Goes start [] s e = report-Goes _ _ s
block_comment_in-Goes start (c ∷ rest) s e =
    let next = advance_in (c ∷ rest) s in
    if-holds (Goes s) (c == b'*' && is_char b'/' (peek_in rest)) (advance (advance s))
      (block_comment_in start rest next)
      (λ _. Goes-trans s (advance s) _ (advance-Goes s) (advance-Goes (advance s)))
      (λ _.
        Goes-trans s next _ (advance_in-Goes c rest s e)
          (block_comment_in-Goes start rest next (rest-advance_in c rest s)))
