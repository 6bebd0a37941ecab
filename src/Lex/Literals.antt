-- ===== src/Lex/Literals.antt =====
-- compiler/paco-syntax/src/lex.rs: literals, identifiers and comments.
use paco.Prelude.{
  ℕ, ◌+◌, ◌-◌, Bool, false, not, ◌&&◌, ◌||◌, Option, none, some, [], ◌∷◌, ltb, leb, ◌==◌,
  if◌then◌else◌,
}
use paco.Prelude.Text.{Text, codes}
use paco.Span.{len_utf8}
use paco.Lex.Kinds.{char, error, float, identifier_kind, integer, keywords, lifetime, string}
use paco.Lex.Scan.{
  Lexer, offset, lexeme, span_from, push, report, peek_in, advance_in, advance, is_char, peek, nth,
  peek_next, is_ascii_digit, is_identifier_continue, skip_while_in,
}

unfoldable pub string_in : Bool → Text → Lexer → Lexer
unfolding advance_in
string_in escaped [] s = s
string_in escaped (c ∷ rest) s =
    let later = string_in (not escaped && c == b'\\') rest (advance_in (c ∷ rest) s) in
    if not escaped && c == b'"' then s else later

unfoldable pub close_string : ℕ → Text → Lexer → Lexer
unfolding push report advance_in span_from
close_string start [] s = report (codes "PACO-E0101") (span_from start s) (push error start s)
close_string start (c ∷ rest) s = push string start (advance_in (c ∷ rest) s)

unfoldable pub string_literal : ℕ → Lexer → Lexer
unfolding string_in close_string
string_literal start s = let s' = string_in false s.rest s in close_string start s'.rest s'

unfoldable pub last_is : ℕ → Text → Bool
last_is c [] = false
last_is c (d ∷ []) = c == d
last_is c (_ ∷ s) = last_is c s

unfoldable pub check_no_trailing_separator : ℕ → Lexer → Lexer
unfolding last_is lexeme report offset
check_no_trailing_separator start s =
    if last_is b'_' (lexeme start s)
    then report (codes "PACO-E0104")
        (record { file_id = s.file_id; start = offset s - 1; end = offset s }) s
    else s

-- `char::is_digit` for a radix of at most 16
unfoldable pub is_digit : ℕ → ℕ → Bool
unfolding is_ascii_digit
is_digit radix c =
    if is_ascii_digit c
    then ltb (c - b'0') radix
    else (if leb b'a' c && leb c b'z'
        then ltb (c - b'a' + 10) radix
        else leb b'A' c && leb c b'Z' && ltb (c - b'A' + 10) radix)

unfoldable pub check_digit : ℕ → ℕ → Lexer → Lexer
unfolding is_digit report offset len_utf8
check_digit radix c s =
    if not (c == b'_') && not (is_digit radix c)
    then report (codes "PACO-E0103")
        (record { file_id = s.file_id; start = offset s - len_utf8 c; end = offset s }) s
    else s

unfoldable pub prefixed_in : ℕ → Text → Lexer → Lexer
unfolding check_digit is_identifier_continue advance_in
prefixed_in radix [] s = s
prefixed_in radix (c ∷ rest) s =
    let later = prefixed_in radix rest (check_digit radix c (advance_in (c ∷ rest) s)) in
    if is_identifier_continue c then later else s

unfoldable pub check_leading_separator : Lexer → Lexer
unfolding report is_char peek offset
check_leading_separator s =
    if is_char b'_' (peek s)
    then report (codes "PACO-E0104")
        (record { file_id = s.file_id; start = offset s; end = offset s + 1 }) s
    else s

unfoldable pub check_any_digit : ℕ → ℕ → Lexer → Lexer
unfolding report offset span_from
check_any_digit start digits_start s =
    if offset s == digits_start then report (codes "PACO-E0103") (span_from start s) s else s

unfoldable pub prefixed_digits : ℕ → ℕ → Lexer → Lexer
unfolding prefixed_in check_leading_separator check_any_digit check_no_trailing_separator push
    offset
prefixed_digits start radix s =
    let checked = check_leading_separator s in
    let scanned = prefixed_in radix checked.rest checked in
    push integer start
      (check_no_trailing_separator start (check_any_digit start (offset s) scanned))

unfoldable pub radix_of : Option ℕ → Option ℕ
radix_of none = none
radix_of (some c) =
    if c == b'x' || c == b'X'
    then some 16
    else (if c == b'o' || c == b'O'
        then some 8
        else (if c == b'b' || c == b'B' then some 2 else none))

unfoldable pub is_digit_or_separator : ℕ → Bool
unfolding is_ascii_digit
is_digit_or_separator c = is_ascii_digit c || c == b'_'

unfoldable pub is_some_digit : Option ℕ → Bool
unfolding is_ascii_digit
is_some_digit none = false
is_some_digit (some c) = is_ascii_digit c

unfoldable pub digits : ℕ → Lexer → Lexer
unfolding skip_while_in is_digit_or_separator check_no_trailing_separator
digits start s = check_no_trailing_separator start (skip_while_in is_digit_or_separator s.rest s)

unfoldable pub decimal : ℕ → Lexer → Lexer
unfolding digits is_char peek peek_next is_some_digit advance push
decimal start s =
    let whole = digits start s in
    if is_char b'.' (peek whole) && is_some_digit (peek_next whole)
    then push float start (digits start (advance whole))
    else push integer start whole

unfoldable pub number_by_radix : ℕ → Option ℕ → Lexer → Lexer
unfolding prefixed_digits decimal advance
number_by_radix start (some radix) s = prefixed_digits start radix (advance s)
number_by_radix start none s = decimal start s

unfoldable pub number : ℕ → Lexer → Lexer
unfolding number_by_radix radix_of is_char peek_in lexeme peek
number start s =
    number_by_radix start
      (if is_char b'0' (peek_in (lexeme start s)) then radix_of (peek s) else none) s

unfoldable pub identifier_token : ℕ → Lexer → Lexer
unfolding skip_while_in is_identifier_continue push lexeme identifier_kind
identifier_token start s =
    let s' = skip_while_in is_identifier_continue s.rest s in
    push (identifier_kind keywords (lexeme start s')) start s'

unfoldable pub lifetime_token : ℕ → Lexer → Lexer
unfolding skip_while_in is_identifier_continue push
lifetime_token start s = push lifetime start (skip_while_in is_identifier_continue s.rest s)

unfoldable pub looks_like_char_literal : Text → Bool
unfolding is_char nth
looks_like_char_literal [] = false
looks_like_char_literal (c ∷ rest) =
    if c == b'\\'
    then is_char b'\'' (nth 2 (c ∷ rest))
    else not (c == b'\'') && is_char b'\'' (nth 1 (c ∷ rest))

unfoldable pub advance_past : ℕ → Lexer → Lexer
unfolding is_char peek advance
advance_past c s = if is_char c (peek s) then advance s else s

unfoldable pub char_literal : ℕ → Lexer → Lexer
unfolding advance_past advance push
char_literal start s = push char start (advance_past b'\'' (advance (advance_past b'\\' s)))

unfoldable pub skip_line_comment : Lexer → Lexer
unfolding skip_while_in
skip_line_comment s = skip_while_in (λ c. not (c == b'\n')) s.rest s

unfoldable pub block_comment_in : ℕ → Text → Lexer → Lexer
unfolding advance_in advance is_char peek_in report span_from
block_comment_in start [] s = report (codes "PACO-E0102") (span_from start s) s
block_comment_in start (c ∷ rest) s =
    let later = block_comment_in start rest (advance_in (c ∷ rest) s) in
    if c == b'*' && is_char b'/' (peek_in rest) then advance (advance s) else later
