-- ===== src/Tests/Lexes.antt =====
-- Runs of compiler/paco-syntax/src/lex.rs.
use paco.Prelude.{◌≡◌, refl, List, [], ◌∷◌, ◌++◌}
use paco.Prelude.Text.{Text, codes}
use paco.Span.{byte_len}
use paco.Lex.Kinds.{
  TokenKind, kw_let, identifier, equal, integer, dot_dot_equal, float, char, lifetime, error, eof,
}
use paco.Lex.Scan.{Token}
use paco.Lex.Tokens.{lex}
use paco.Lex.Slices.{AreSlices}
use paco.Lex.Covering.{lex-AreSlices}

abbrev kinds : List Token → List TokenKind
kinds [] = []
kinds (t ∷ ts) = t.kind ∷ kinds ts

abbrev binding_source : Text
binding_source = codes "let x = 1 // one"

binding_kinds :
    kinds (lex binding_source 0).tokens ≡ kw_let ∷ identifier ∷ equal ∷ integer ∷ eof ∷ []
unfolding lex
binding_kinds = refl

number_kinds :
    kinds (lex (codes "0x1f..=2.5") 0).tokens ≡ integer ∷ dot_dot_equal ∷ float ∷ eof ∷ []
unfolding lex
number_kinds = refl

quote_kinds : kinds (lex (codes "'a' 'b $") 0).tokens ≡ char ∷ lifetime ∷ error ∷ eof ∷ []
unfolding lex
quote_kinds = refl

lex-AreSlices_example :
    let s = lex binding_source 0 in
    (s.rest ≡ [])
    × AreSlices binding_source 0 s.tokens (byte_len binding_source)
    × ((ts : List Token) × (t : Token) × (s.tokens ≡ ts ++ t ∷ [])
        × (t.kind ≡ eof)
        × (t.span.start ≡ byte_len binding_source)
        × (t.span.end ≡ byte_len binding_source))
lex-AreSlices_example = lex-AreSlices binding_source 0
