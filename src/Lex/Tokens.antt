-- ===== src/Lex/Tokens.antt =====
-- compiler/paco-syntax/src/lex.rs: one token, and the loop.
use paco.Prelude.{
  ℕ, zero, suc, Bool, false, ◌||◌, Option, none, some, List, [], ◌∷◌, ◌++◌, ◌==◌, if◌then◌else◌,
  length,
}
use paco.Prelude.Text.{Text, codes}
use paco.Span.{FileId}
use paco.Lex.Kinds.{
  eof, TokenKind, ampersand, and_and, arrow, at, bang, bang_equal, caret, colon, colon_colon, comma,
  dot, dot_dot, dot_dot_dot, dot_dot_equal, equal, equal_equal, error, fat_arrow, greater,
  greater_equal, hash, left_brace, left_bracket, left_paren, less, less_equal, minus, or_or,
  percent, pipe, plus, question, right_brace, right_bracket, right_paren, semicolon, slash, star,
  tilde,
}
use paco.Lex.Scan.{
  Lexer, offset, span_from, push, report, advance_in, advance, is_char, peek, is_ascii_digit,
  is_identifier_start,
}
use paco.Lex.Literals.{
  string_literal, number, identifier_token, lifetime_token, looks_like_char_literal, char_literal,
  skip_line_comment, block_comment_in,
}

-- An arm of `scan_token` for a character: the kind of its token, and the kinds where
-- `match_char` takes the next character along.
pub record Follow : Type 0 where
  pub next : ℕ
  pub joined_kind : TokenKind

pub record Operator : Type 0 where
  pub char_code : ℕ
  pub plain_kind : TokenKind
  pub follows : List Follow

abbrev follow : ℕ → TokenKind → Follow
follow c k = record { next = c; joined_kind = k }

abbrev operator : ℕ → TokenKind → List Follow → Operator
operator c k fs = record { char_code = c; plain_kind = k; follows = fs }

abbrev pub operators : List Operator
operators =
    operator b'(' left_paren ([])
    ∷ operator b')' right_paren ([])
    ∷ operator b'{' left_brace ([])
    ∷ operator b'}' right_brace ([])
    ∷ operator b'[' left_bracket ([])
    ∷ operator b']' right_bracket ([])
    ∷ operator b',' comma ([])
    ∷ operator b':' colon (follow b':' colon_colon ∷ [])
    ∷ operator b';' semicolon ([])
    ∷ operator b'+' plus ([])
    ∷ operator b'*' star ([])
    ∷ operator b'%' percent ([])
    ∷ operator b'-' minus (follow b'>' arrow ∷ [])
    ∷ operator b'!' bang (follow b'=' bang_equal ∷ [])
    ∷ operator b'=' equal (follow b'=' equal_equal ∷ follow b'>' fat_arrow ∷ [])
    ∷ operator b'<' less (follow b'=' less_equal ∷ [])
    ∷ operator b'>' greater (follow b'=' greater_equal ∷ [])
    ∷ operator b'&' ampersand (follow b'&' and_and ∷ [])
    ∷ operator b'|' pipe (follow b'|' or_or ∷ [])
    ∷ operator b'@' at ([])
    ∷ operator b'?' question ([])
    ∷ operator b'#' hash ([])
    ∷ operator b'^' caret ([])
    ∷ operator b'~' tilde ([])
    ∷ []

unfoldable pub push_operator : ℕ → TokenKind → List Follow → Lexer → Lexer
unfolding push is_char peek advance
push_operator start plain [] s = push plain start s
push_operator start plain (f ∷ fs) s =
    let rest = push_operator start plain fs s in
    if is_char f.next (peek s) then push f.joined_kind start (advance s) else rest

unfoldable pub push_dots : ℕ → Lexer → Lexer
unfolding push is_char peek advance
push_dots start s =
    if is_char b'.' (peek s)
    then (let s' = advance s in
        if is_char b'=' (peek s')
        then push dot_dot_equal start (advance s')
        else (if is_char b'.' (peek s')
            then push dot_dot_dot start (advance s')
            else push dot_dot start s'))
    else push dot start s

unfoldable pub slash_or_comment : ℕ → Lexer → Lexer
unfolding push is_char peek advance skip_line_comment block_comment_in
slash_or_comment start s =
    if is_char b'/' (peek s)
    then skip_line_comment (advance s)
    else (if is_char b'*' (peek s)
        then (let s' = advance s in block_comment_in start s'.rest s')
        else push slash start s)

unfoldable pub is_ascii_whitespace : ℕ → Bool
is_ascii_whitespace c = c == 32 || c == 9 || c == 10 || c == 12 || c == 13

unfoldable pub invalid_character : ℕ → Lexer → Lexer
unfolding push report span_from
invalid_character start s = report (codes "PACO-E0100") (span_from start s) (push error start s)

unfoldable pub starts_identifier : Option ℕ → Bool
unfolding is_identifier_start
starts_identifier none = false
starts_identifier (some c) = is_identifier_start c

unfoldable pub quote : ℕ → Lexer → Lexer
unfolding looks_like_char_literal char_literal lifetime_token starts_identifier peek
    invalid_character
quote start s =
    if looks_like_char_literal s.rest
    then char_literal start s
    else (if starts_identifier (peek s) then lifetime_token start s else invalid_character start s)

-- the arms behind the operators
unfoldable pub scan_other : ℕ → ℕ → Lexer → Lexer
unfolding push_dots slash_or_comment string_literal quote is_ascii_whitespace is_ascii_digit number
    is_identifier_start identifier_token invalid_character
scan_other c start s =
    if c == b'.'
    then push_dots start s
    else (if c == b'/'
        then slash_or_comment start s
        else (if c == b'"'
            then string_literal start s
            else (if c == b'\''
                then quote start s
                else (if is_ascii_whitespace c
                    then s
                    else (if is_ascii_digit c
                        then number start s
                        else (if is_identifier_start c
                            then identifier_token start s
                            else invalid_character start s))))))

unfoldable pub scan_operators : List Operator → ℕ → ℕ → Lexer → Lexer
unfolding push_operator scan_other
scan_operators [] c start s = scan_other c start s
scan_operators (o ∷ os) c start s =
    let rest = scan_operators os c start s in
    if c == o.char_code then push_operator start o.plain_kind o.follows s else rest

unfoldable pub scan_token_in : Text → Lexer → Lexer
unfolding scan_operators advance_in offset
scan_token_in [] s = s
scan_token_in (c ∷ rest) s = scan_operators operators c (offset s) (advance_in (c ∷ rest) s)

unfoldable pub scan_token : Lexer → Lexer
unfolding scan_token_in
scan_token s = scan_token_in s.rest s

-- `run`, with fuel for the loop; a token takes at least one character
unfoldable pub scan_tokens : ℕ → Lexer → Lexer
unfolding scan_token
scan_tokens zero s = s
scan_tokens (suc fuel) s = scan_tokens fuel (scan_token s)

unfoldable pub new_lexer : Text → FileId → Lexer
new_lexer source file_id = record {
  file_id = file_id;
  before = [];
  rest = source;
  tokens = [];
  reports = [];
}

unfoldable pub finish : Lexer → Lexer
unfolding offset
finish s = record s {
  tokens =
      s.tokens
      ++ record {
        kind = eof;
        lexeme = [];
        span = record { file_id = s.file_id; start = offset s; end = offset s };
      }
        ∷ [];
}

unfoldable pub lex : Text → FileId → Lexer
unfolding scan_tokens finish new_lexer
lex source file_id = finish (scan_tokens (length source) (new_lexer source file_id))
