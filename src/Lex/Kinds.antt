-- ===== src/Lex/Kinds.antt =====
-- compiler/paco-syntax/src/lex.rs: the kinds of tokens, and which texts are keywords.
use paco.Prelude.{List, [], ◌∷◌, if◌then◌else◌}
use paco.Prelude.Text.{Text, codes, eqb_text}

pub data TokenKind : Type 0 where
  kw_fn kw_struct kw_enum kw_trait kw_where kw_methods kw_use kw_let : TokenKind
  kw_mut kw_const kw_type kw_module kw_pub kw_as kw_extern kw_unsafe : TokenKind
  kw_spawn kw_select kw_yield kw_iter kw_comptime kw_quote kw_match kw_if : TokenKind
  kw_else kw_while kw_for kw_in kw_loop kw_break kw_continue kw_return : TokenKind
  kw_true kw_false identifier lifetime integer float string char : TokenKind
  plus minus star slash percent equal equal_equal bang : TokenKind
  bang_equal less less_equal greater greater_equal and_and or_or arrow : TokenKind
  colon colon_colon comma dot dot_dot dot_dot_dot dot_dot_equal semicolon : TokenKind
  fat_arrow at ampersand pipe underscore left_paren right_paren left_brace : TokenKind
  right_brace left_bracket right_bracket question hash caret tilde error : TokenKind
  eof : TokenKind

pub record Keyword : Type 0 where
  pub lexeme : Text
  pub kind : TokenKind

abbrev keyword : Text → TokenKind → Keyword
keyword t k = record { lexeme = t; kind = k }

-- the arms of `identifier`
abbrev pub keywords : List Keyword
keywords =
    keyword (codes "fn") kw_fn
    ∷ keyword (codes "struct") kw_struct
    ∷ keyword (codes "enum") kw_enum
    ∷ keyword (codes "trait") kw_trait
    ∷ keyword (codes "where") kw_where
    ∷ keyword (codes "methods") kw_methods
    ∷ keyword (codes "use") kw_use
    ∷ keyword (codes "module") kw_module
    ∷ keyword (codes "pub") kw_pub
    ∷ keyword (codes "as") kw_as
    ∷ keyword (codes "extern") kw_extern
    ∷ keyword (codes "unsafe") kw_unsafe
    ∷ keyword (codes "comptime") kw_comptime
    ∷ keyword (codes "quote") kw_quote
    ∷ keyword (codes "spawn") kw_spawn
    ∷ keyword (codes "select") kw_select
    ∷ keyword (codes "yield") kw_yield
    ∷ keyword (codes "iter") kw_iter
    ∷ keyword (codes "let") kw_let
    ∷ keyword (codes "mut") kw_mut
    ∷ keyword (codes "const") kw_const
    ∷ keyword (codes "type") kw_type
    ∷ keyword (codes "match") kw_match
    ∷ keyword (codes "if") kw_if
    ∷ keyword (codes "else") kw_else
    ∷ keyword (codes "while") kw_while
    ∷ keyword (codes "for") kw_for
    ∷ keyword (codes "in") kw_in
    ∷ keyword (codes "loop") kw_loop
    ∷ keyword (codes "break") kw_break
    ∷ keyword (codes "continue") kw_continue
    ∷ keyword (codes "return") kw_return
    ∷ keyword (codes "true") kw_true
    ∷ keyword (codes "false") kw_false
    ∷ keyword (codes "_") underscore
    ∷ []

unfoldable pub identifier_kind : List Keyword → Text → TokenKind
unfolding eqb_text
identifier_kind [] lexeme = identifier
identifier_kind (k ∷ ks) lexeme =
    let rest = identifier_kind ks lexeme in if eqb_text lexeme k.lexeme then k.kind else rest
