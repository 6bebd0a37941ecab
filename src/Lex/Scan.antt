-- ===== src/Lex/Scan.antt =====
-- compiler/paco-syntax/src/lex.rs: the lexer's state and the scanning of one token.
use paco.Prelude.{
  ℕ, ◌-◌, Bool, false, ◌&&◌, ◌||◌, Option, none, some, List, [], ◌∷◌, ◌++◌, leb, ◌==◌,
  if◌then◌else◌,
}
use paco.Prelude.Text.{Text}
use paco.Span.{Span, FileId, len_utf8, byte_len}
use paco.Lex.Kinds.{TokenKind}

pub record Token : Type 0 where
  pub kind : TokenKind
  pub lexeme : Text
  pub span : Span

-- a diagnostic: its code and its span
pub record Report : Type 0 where
  pub error_code : Text
  pub span : Span

-- The source stands in two parts, before and behind `offset`.
pub record Lexer : Type 0 where
  pub file_id : FileId
  pub before : Text
  pub rest : Text
  pub tokens : List Token
  pub reports : List Report

unfoldable pub offset : Lexer → ℕ
unfolding byte_len
offset s = byte_len s.before

-- the text behind a byte offset
unfoldable pub drop_bytes : ℕ → Text → Text
unfolding len_utf8
drop_bytes n [] = []
drop_bytes n (c ∷ s) = let rest = drop_bytes (n - len_utf8 c) s in if n == 0 then c ∷ s else rest

-- `self.source[start..self.offset]`
unfoldable pub lexeme : ℕ → Lexer → Text
unfolding drop_bytes
lexeme start s = drop_bytes start s.before

unfoldable pub span_from : ℕ → Lexer → Span
unfolding offset
span_from start s = record { file_id = s.file_id; start = start; end = offset s }

unfoldable pub push : TokenKind → ℕ → Lexer → Lexer
unfolding lexeme span_from
push kind start s = record s {
  tokens =
      s.tokens ++ record { kind = kind; lexeme = lexeme start s; span = span_from start s } ∷ [];
}

unfoldable pub report : Text → Span → Lexer → Lexer
report error_code span s = record s {
  reports = s.reports ++ record { error_code = error_code; span = span } ∷ [];
}

unfoldable pub peek_in : Text → Option ℕ
peek_in [] = none
peek_in (c ∷ _) = some c

unfoldable pub advance_in : Text → Lexer → Lexer
advance_in [] s = s
advance_in (c ∷ rest) s = record s { before = s.before ++ c ∷ []; rest = rest }

unfoldable pub advance : Lexer → Lexer
unfolding advance_in
advance s = advance_in s.rest s

unfoldable pub is_char : ℕ → Option ℕ → Bool
is_char c none = false
is_char c (some d) = d == c

unfoldable pub peek : Lexer → Option ℕ
unfolding peek_in
peek s = peek_in s.rest

unfoldable pub nth : ℕ → Text → Option ℕ
nth n [] = none
nth n (c ∷ s) = let later = nth (n - 1) s in if n == 0 then some c else later

unfoldable pub peek_next : Lexer → Option ℕ
unfolding nth
peek_next s = nth 1 s.rest

unfoldable pub is_ascii_digit : ℕ → Bool
is_ascii_digit c = leb b'0' c && leb c b'9'

unfoldable pub is_ascii_alphabetic : ℕ → Bool
is_ascii_alphabetic c = (leb b'a' c && leb c b'z') || (leb b'A' c && leb c b'Z')

unfoldable pub is_identifier_start : ℕ → Bool
unfolding is_ascii_alphabetic
is_identifier_start c = is_ascii_alphabetic c || c == b'_'

unfoldable pub is_identifier_continue : ℕ → Bool
unfolding is_ascii_alphabetic is_ascii_digit
is_identifier_continue c = is_ascii_alphabetic c || is_ascii_digit c || c == b'_'

-- `while matches!(self.peek(), Some(ch) if test(ch)) { self.advance(); }`
unfoldable pub skip_while_in : (ℕ → Bool) → Text → Lexer → Lexer
unfolding advance_in
skip_while_in test [] s = s
skip_while_in test (c ∷ rest) s =
    let later = skip_while_in test rest (advance_in (c ∷ rest) s) in if test c then later else s
