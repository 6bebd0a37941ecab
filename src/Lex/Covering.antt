-- ===== src/Lex/Covering.antt =====
-- compiler/paco-syntax/src/lex.rs: every token is a slice of the source, and the loop ends.
use paco.Prelude.{
  if-holds, ℕ, zero, suc, ◌-◌, ◌≤◌, ◌≡◌, refl, sym, ap, ◌∙◌, subst, List, [], ◌∷◌, ◌++◌, append-nil,
  arith, ◌==◌, length,
}
use paco.Prelude.Text.{Text}
use paco.Span.{FileId, byte_len}
use paco.Lex.Kinds.{eof, TokenKind, dot, dot_dot, dot_dot_dot, dot_dot_equal, error, slash}
use paco.Lex.Scan.{
  Token, Lexer, offset, push, advance_in, advance, is_char, peek, is_ascii_digit,
  is_identifier_start,
}
use paco.Lex.Literals.{
  string_literal, number, identifier_token, lifetime_token, looks_like_char_literal, char_literal,
  skip_line_comment, block_comment_in,
}
use paco.Lex.Slices.{
  IsSlice, AreSlices, AreSlices-append, IsLexing, Emits, Goes-Emits, Goes-IsLexing, quiet-Emits,
  report-Emits, Goes-refl, Goes-trans, push-Emits, advance_in-Goes, advance-Goes, rest-advance_in,
}
use paco.Lex.LiteralSlices.{
  string_literal-Emits, number-Emits, identifier_token-Emits, lifetime_token-Emits,
  char_literal-Emits, skip_line_comment-Goes, block_comment_in-Goes,
}
use paco.Lex.Tokens.{
  Follow, Operator, operators, push_operator, push_dots, slash_or_comment, is_ascii_whitespace,
  invalid_character, starts_identifier, quote, scan_other, scan_operators, scan_token_in,
  scan_token, scan_tokens, new_lexer, finish, lex,
}

push-advance-Emits :
    (kind : TokenKind) (start : ℕ) (s : Lexer) → Emits start s (push kind start (advance s))
push-advance-Emits kind start s =
    Goes-Emits start s (advance s) _ (advance-Goes s) (push-Emits kind start (advance s))

push_operator-Emits :
    (start : ℕ) (plain : TokenKind) (fs : List Follow) (s : Lexer)
    → Emits start s (push_operator start plain fs s)
unfolding push_operator
push_operator-Emits start plain [] s = push-Emits plain start s
push_operator-Emits start plain (f ∷ fs) s =
    if-holds (Emits start s) (is_char f.next (peek s)) (push f.joined_kind start (advance s))
      (push_operator start plain fs s) (λ _. push-advance-Emits f.joined_kind start s)
      (λ _. push_operator-Emits start plain fs s)

push_dots-Emits : (start : ℕ) (s : Lexer) → Emits start s (push_dots start s)
unfolding push_dots
push_dots-Emits start s =
    let s' = advance s in
    if-holds (Emits start s) (is_char b'.' (peek s)) _ (push dot start s)
      (λ _. Goes-Emits start s s' _ (advance-Goes s) (
        if-holds (Emits start s') (is_char b'=' (peek s')) (push dot_dot_equal start (advance s')) _
          (λ _. push-advance-Emits dot_dot_equal start s')
          (λ _.
            if-holds (Emits start s') (is_char b'.' (peek s')) (push dot_dot_dot start (advance s'))
              (push dot_dot start s') (λ _. push-advance-Emits dot_dot_dot start s')
              (λ _. push-Emits dot_dot start s'))))
      (λ _. push-Emits dot start s)

slash_or_comment-Emits : (start : ℕ) (s : Lexer) → Emits start s (slash_or_comment start s)
unfolding slash_or_comment
slash_or_comment-Emits start s =
    let s' = advance s in
    if-holds (Emits start s) (is_char b'/' (peek s)) (skip_line_comment s') _
      (λ _. quiet-Emits start s _ (Goes-trans s s' _ (advance-Goes s) (skip_line_comment-Goes s')))
      (λ _.
        if-holds (Emits start s) (is_char b'*' (peek s)) (block_comment_in start s'.rest s')
          (push slash start s)
          (λ _.
            quiet-Emits start s _
              (Goes-trans s s' _ (advance-Goes s) (block_comment_in-Goes start s'.rest s' refl)))
          (λ _. push-Emits slash start s))

invalid_character-Emits : (start : ℕ) (s : Lexer) → Emits start s (invalid_character start s)
unfolding invalid_character
invalid_character-Emits start s =
    report-Emits start _ _ s (push error start s) (push-Emits error start s)

quote-Emits : (start : ℕ) (s : Lexer) → Emits start s (quote start s)
unfolding quote
quote-Emits start s =
    if-holds (Emits start s) (looks_like_char_literal s.rest) (char_literal start s) _
      (λ _. char_literal-Emits start s)
      (λ _.
        if-holds (Emits start s) (starts_identifier (peek s)) (lifetime_token start s)
          (invalid_character start s) (λ _. lifetime_token-Emits start s)
          (λ _. invalid_character-Emits start s))

scan_other-Emits : (c start : ℕ) (s : Lexer) → Emits start s (scan_other c start s)
unfolding scan_other
scan_other-Emits c start s =
    if-holds (Emits start s) (c == b'.') (push_dots start s) _ (λ _. push_dots-Emits start s)
      (λ _.
        if-holds (Emits start s) (c == b'/') (slash_or_comment start s) _
          (λ _. slash_or_comment-Emits start s)
          (λ _.
            if-holds (Emits start s) (c == b'"') (string_literal start s) _
              (λ _. string_literal-Emits start s)
              (λ _.
                if-holds (Emits start s) (c == b'\'') (quote start s) _ (λ _. quote-Emits start s)
                  (λ _.
                    if-holds (Emits start s) (is_ascii_whitespace c) s _
                      (λ _. quiet-Emits start s s (Goes-refl s))
                      (λ _.
                        if-holds (Emits start s) (is_ascii_digit c) (number start s) _
                          (λ _. number-Emits start s)
                          (λ _.
                            if-holds (Emits start s) (is_identifier_start c)
                              (identifier_token start s) (invalid_character start s)
                              (λ _. identifier_token-Emits start s)
                              (λ _. invalid_character-Emits start s)))))))

scan_operators-Emits :
    (os : List Operator) (c start : ℕ) (s : Lexer) → Emits start s (scan_operators os c start s)
unfolding scan_operators
scan_operators-Emits [] c start s = scan_other-Emits c start s
scan_operators-Emits (o ∷ os) c start s =
    if-holds (Emits start s) (c == o.char_code) (push_operator start o.plain_kind o.follows s)
      (scan_operators os c start s) (λ _. push_operator-Emits start o.plain_kind o.follows s)
      (λ _. scan_operators-Emits os c start s)

scan_token_in-IsLexing :
    (source text : Text) (s : Lexer)
    → s.rest ≡ text
    → IsLexing source s.before s
    → let t = scan_token_in text s in IsLexing source t.before t × (length t.rest ≤ length text - 1)
unfolding scan_token_in Emits offset
scan_token_in-IsLexing source [] s e h = (h, rw e (ground arith))
scan_token_in-IsLexing source (c ∷ rest) s e h =
    let next = advance_in (c ∷ rest) s in
    let (keeps, shrinks) = scan_operators-Emits operators c (offset s) next in
    (
      keeps source s.before refl
          (Goes-IsLexing source s.before s next (advance_in-Goes c rest s e) h),
      let shorter =
            subst (λ r. length (scan_operators operators c (offset s) next).rest ≤ length r)
              (rest-advance_in c rest s) shrinks in
          ground arith,
    )

no_rest : (text : Text) → length text ≤ 0 → text ≡ []
no_rest [] h = refl
no_rest (c ∷ text) h = ground arith

scan_tokens-IsLexing :
    (source : Text) (fuel : ℕ) (s : Lexer)
    → length s.rest ≤ fuel
    → IsLexing source s.before s
    → let t = scan_tokens fuel s in IsLexing source t.before t × (t.rest ≡ [])
unfolding scan_tokens scan_token
scan_tokens-IsLexing source zero s enough h = (h, no_rest s.rest enough)
scan_tokens-IsLexing source (suc fuel) s enough h =
    let (h', shorter) = scan_token_in-IsLexing source s.rest s refl h in
    scan_tokens-IsLexing source fuel (scan_token s) (omega arith) h'

-- Lexing a text ends with nothing of it left, for any text. The tokens are slices of the text in
-- order: the lexeme of each is the text from the start to the end of its span, both offsets of
-- characters, and each starts at or behind the end of the one before it. The last one is `Eof`,
-- with an empty span at the text's length in bytes.
pub lex-AreSlices :
    (source : Text) (file_id : FileId)
    → let s = lex source file_id in
      (s.rest ≡ [])
      × AreSlices source 0 s.tokens (byte_len source)
      × ((ts : List Token) × (t : Token) × (s.tokens ≡ ts ++ t ∷ [])
          × (t.kind ≡ eof)
          × (t.span.start ≡ byte_len source)
          × (t.span.end ≡ byte_len source))
unfolding lex finish new_lexer IsLexing AreSlices IsSlice offset
lex-AreSlices source file_id =
    let start = new_lexer source file_id in
    let s = scan_tokens (length source) start in
    let ((whole, _, slices), done) =
      scan_tokens-IsLexing source (length source) start (omega arith)
        (refl, ([], refl), (unfold byte_len in (omega arith))) in
    let all = whole ∙ ap (λ r. s.before ++ r) done ∙ append-nil s.before in
    let ends = sym (ap byte_len all) in
    (
      done,
      AreSlices-append source 0 s.tokens _ (byte_len s.before) (byte_len source) slices
          (s.before, s.rest, whole, refl, ap byte_len (sym (append-nil s.before))) (omega arith)
          (omega (arith, ends)),
      (s.tokens, _, refl, refl, ends, ends),
    )
