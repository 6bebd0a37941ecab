-- ===== src/Lex/Slices.antt =====
-- compiler/paco-syntax/src/lex.rs: what the primitive steps of the lexer keep.
use paco.Prelude.{
  if-holds, ℕ, ◌≤◌, ◌+◌, ◌-◌, ◌==◌, subst, ap₂, append-nil, ◌≡◌, refl, sym, ap, ◌∙◌, Bool, List, [],
  ◌∷◌, ◌++◌, append_assoc, arith, length,
}
use paco.Prelude.Text.{Text}
use paco.Span.{Span, byte_len, len_utf8}
use paco.Lex.Kinds.{TokenKind}
use paco.Lex.Scan.{
  Token, Lexer, offset, drop_bytes, lexeme, span_from, push, report, advance_in, advance,
  skip_while_in,
}

-- The lexeme of a token is the source between the ends of its span, which are offsets of characters.
unfoldable pub IsSlice : Text → Token → Type 0
unfolding byte_len
IsSlice source t =
    (before : Text) × (behind : Text) × (source ≡ before ++ (t.lexeme ++ behind))
    × (t.span.start ≡ byte_len before)
    × (t.span.end ≡ byte_len (before ++ t.lexeme))

-- slices one behind the other, from one offset to another
unfoldable pub AreSlices : Text → ℕ → List Token → ℕ → Type 0
unfolding IsSlice
AreSlices source low [] high = low ≤ high
AreSlices source low (t ∷ ts) high =
    IsSlice source t × (low ≤ t.span.start) × AreSlices source t.span.end ts high

pub AreSlices-append :
    (source : Text) (low : ℕ) (ts : List Token) (t : Token) (high high' : ℕ)
    → AreSlices source low ts high
    → IsSlice source t
    → high ≤ t.span.start
    → t.span.end ≤ high'
    → AreSlices source low (ts ++ t ∷ []) high'
unfolding AreSlices
AreSlices-append source low [] t high high' h k from to = (k, omega arith, to)
AreSlices-append source low (u ∷ us) t high high' (h, order, hs) k from to =
    (h, order, AreSlices-append source u.span.end us t high high' hs k from to)

-- The tokens so far are slices that end in the part `a` of what stands before the offset.
unfoldable pub IsLexing : Text → Text → Lexer → Type 0
unfolding AreSlices
IsLexing source a s =
    (source ≡ s.before ++ s.rest)
    × ((m : Text) × (s.before ≡ a ++ m))
    × AreSlices source 0 s.tokens (byte_len a)

-- The steps inside a token: text goes from the rest to what stands before, and no token is added.
unfoldable pub Goes : Lexer → Lexer → Type 0
Goes s s' =
    ((m : Text) × (s'.before ≡ s.before ++ m))
    × (s.before ++ s.rest ≡ s'.before ++ s'.rest)
    × (s'.tokens ≡ s.tokens)
    × (length s'.rest ≤ length s.rest)

-- The scanning of a token that starts at an offset, with at most one token added.
unfoldable pub Emits : ℕ → Lexer → Lexer → Type 0
unfolding IsLexing
Emits start s s' =
    ((source a : Text) → start ≡ byte_len a → IsLexing source a s → IsLexing source s'.before s')
    × (length s'.rest ≤ length s.rest)

pub Goes-refl : (s : Lexer) → Goes s s
unfolding Goes
Goes-refl s = (([], sym (append-nil s.before)), refl, refl, omega arith)

pub Goes-trans : (s t u : Lexer) → Goes s t → Goes t u → Goes s u
unfolding Goes
Goes-trans s t u ((m, e), whole, same, l) ((n, f), whole', same', l') = (
  (m ++ n, f ∙ ap (λ b. b ++ n) e ∙ append_assoc s.before m n),
  whole ∙ whole',
  same' ∙ same,
  omega arith,
)

pub Goes-IsLexing :
    (source a : Text) (s t : Lexer) → Goes s t → IsLexing source a s → IsLexing source a t
unfolding Goes IsLexing
Goes-IsLexing source a s t ((m, e), whole, same, _) (all, (n, f), slices) = (
  all ∙ whole,
  (n ++ m, e ∙ ap (λ b. b ++ m) f ∙ append_assoc a n m),
  subst (λ ts. AreSlices source 0 ts (byte_len a)) (sym same) slices,
)

pub Goes-Emits : (start : ℕ) (s t u : Lexer) → Goes s t → Emits start t u → Emits start s u
unfolding Goes Emits
Goes-Emits start s t u g (keeps, l) =
    ((λ source a at h. keeps source a at (Goes-IsLexing source a s t g h)), omega (arith, g.3))

byte_len-append_le : (a m : Text) → byte_len a ≤ byte_len (a ++ m)
unfolding byte_len
byte_len-append_le [] m = omega arith
byte_len-append_le (c ∷ a) m = let later = byte_len-append_le a m in omega arith

AreSlices-mono :
    (source : Text) (low : ℕ) (ts : List Token) (high high' : ℕ)
    → high ≤ high'
    → AreSlices source low ts high
    → AreSlices source low ts high'
unfolding AreSlices
AreSlices-mono source low [] high high' l h = omega arith
AreSlices-mono source low (t ∷ ts) high high' l (h, order, hs) =
    (h, order, AreSlices-mono source t.span.end ts high high' l hs)

-- a scanning that adds no token
pub quiet-Emits : (start : ℕ) (s t : Lexer) → Goes s t → Emits start s t
unfolding Goes Emits IsLexing
quiet-Emits start s t g = (
  (λ source a at h.
      let (all, (m, e), slices) = Goes-IsLexing source a s t g h in
      (
        all,
        ([], sym (append-nil t.before)),
        AreSlices-mono source 0 t.tokens (byte_len a) (byte_len t.before)
            (subst (λ b. byte_len a ≤ byte_len b) (sym e) (byte_len-append_le a m)) slices,
      )),
  g.3,
)

pub report-Goes : (error_code : Text) (span : Span) (s : Lexer) → Goes s (report error_code span s)
unfolding Goes report
report-Goes error_code span s = (([], sym (append-nil s.before)), refl, refl, omega arith)

pub report-Emits :
    (start : ℕ) (error_code : Text) (span : Span) (s t : Lexer)
    → Emits start s t
    → Emits start s (report error_code span t)
unfolding Emits report IsLexing
report-Emits start error_code span s t h = h

len_utf8_positive : (c : ℕ) → 1 ≤ len_utf8 c
unfolding len_utf8
len_utf8_positive c = ground arith

drop_none : (m : Text) → drop_bytes 0 m ≡ m
unfolding drop_bytes
drop_none [] = refl
drop_none (c ∷ m) = refl

drop_bytes-byte_len : (a m : Text) → drop_bytes (byte_len a) (a ++ m) ≡ m
unfolding drop_bytes byte_len
drop_bytes-byte_len [] m = drop_none m
drop_bytes-byte_len (c ∷ a) m =
    let positive = len_utf8_positive c in
    if-holds (λ t. t ≡ m) ((len_utf8 c + byte_len a) == 0) (c ∷ (a ++ m))
      (drop_bytes (len_utf8 c + byte_len a - len_utf8 c) (a ++ m)) (λ h. ground arith)
      (λ _. subst (λ n. drop_bytes n (a ++ m) ≡ m) (omega arith) (drop_bytes-byte_len a m))

-- The token that starts where the tokens before it have ended is a slice.
push-IsSlice :
    (kind : TokenKind) (start : ℕ) (source a m : Text) (s : Lexer)
    → start ≡ byte_len a
    → source ≡ s.before ++ s.rest
    → s.before ≡ a ++ m
    → IsSlice source (record { kind = kind; lexeme = lexeme start s; span = span_from start s })
unfolding IsSlice lexeme span_from offset
push-IsSlice kind start source a m s at all e =
    let cut : drop_bytes start s.before ≡ m = ap₂ drop_bytes at e ∙ drop_bytes-byte_len a m in
    (
      a,
      s.rest,
      all
          ∙ ap (λ b. b ++ s.rest) e
          ∙ append_assoc a m s.rest
          ∙ ap (λ x. a ++ (x ++ s.rest)) (sym cut),
      at,
      ap byte_len (e ∙ ap (λ x. a ++ x) (sym cut)),
    )

pub push-Emits : (kind : TokenKind) (start : ℕ) (s : Lexer) → Emits start s (push kind start s)
unfolding Emits push IsLexing span_from offset
push-Emits kind start s = (
  (λ source a at h.
      let (all, (m, e), slices) = h in
      (
        all,
        ([], sym (append-nil s.before)),
        AreSlices-append source 0 s.tokens _ (byte_len a) (byte_len s.before) slices
            (push-IsSlice kind start source a m s at all e) (omega (arith, at)) (omega arith),
      )),
  omega arith,
)

pub advance_in-Goes :
    (c : ℕ) (text : Text) (s : Lexer) → s.rest ≡ c ∷ text → Goes s (advance_in (c ∷ text) s)
unfolding Goes advance_in
advance_in-Goes c text s e = (
  (c ∷ [], refl),
  ap (λ r. s.before ++ r) e ∙ sym (append_assoc s.before (c ∷ []) text),
  refl,
  rw e (ground arith),
)

pub advance_rest-Goes : (text : Text) (s : Lexer) → s.rest ≡ text → Goes s (advance_in text s)
unfolding advance_in
advance_rest-Goes [] s e = Goes-refl s
advance_rest-Goes (c ∷ text) s e = advance_in-Goes c text s e

pub advance-Goes : (s : Lexer) → Goes s (advance s)
unfolding advance
advance-Goes s = advance_rest-Goes s.rest s refl

pub rest-advance_in : (c : ℕ) (text : Text) (s : Lexer) → (advance_in (c ∷ text) s).rest ≡ text
unfolding advance_in
rest-advance_in c text s = refl

pub skip_while_in-Goes :
    (test : ℕ → Bool) (text : Text) (s : Lexer) → s.rest ≡ text → Goes s (skip_while_in test text s)
unfolding skip_while_in
skip_while_in-Goes test [] s e = Goes-refl s
skip_while_in-Goes test (c ∷ rest) s e =
    let next = advance_in (c ∷ rest) s in
    if-holds (Goes s) (test c) (skip_while_in test rest next) s
      (λ _.
        Goes-trans s next _ (advance_in-Goes c rest s e)
          (skip_while_in-Goes test rest next (rest-advance_in c rest s)))
      (λ _. Goes-refl s)
