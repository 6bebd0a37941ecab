-- ===== src/Match/Meaning.antt =====
-- What a pattern means: the values that it matches, independently of the analysis of
-- compiler/paco-match/src/lib.rs.
use paco.Prelude.{
  ℕ, ◌≡◌, Bool, true, false, not, ◌&&◌, ◌||◌, Option, none, some, List, [], ◌∷◌, ◌++◌, ◌==◌,
  if◌then◌else◌, set,
}
use paco.Prelude.Int.{ℤ, leb_ℤ, eqb_ℤ}
use paco.Prelude.Text.{Text, codes, eqb_text, contains, show_ℤ, is_i64}
use paco.Match.Patterns.{
  Literal, Pat, Pats, FieldPats, ident, wildcard, tuple, struct, enum, or, binding, reference, nil,
  cons, no_fields, field, MatchArm,
}
use paco.Match.Coverage.{Std, int_literal}
use paco.Match.Analysis.{ConstructorSet, is_none}

mutual
  -- A variant holds the name of its enum, its own name and its payload.
  pub data Value : Type 0 where
    bool_value : Bool → Value
    int_value : ℤ → Value
    float_value : ℕ → Value
    string_value : Text → Value
    char_value : ℕ → Value
    variant : Text → Text → Values → Value
    struct_value : FieldValues → Value
    tuple_value : Values → Value
    ref_value : Value → Value

  pub data Values : Type 0 where
    no_values : Values
    value : Value → Values → Values

  pub data FieldValues : Type 0 where
    no_more : FieldValues
    field_value : Text → Value → FieldValues → FieldValues

-- What the meaning of patterns depends on, beside the patterns: the variants that the program's
-- enums declare, and texts and comparisons of the standard library. A literal float is one that is
-- neither NaN nor a negative zero. The class of a float is that of the values that `==` does not tell
-- apart from it, and its text the one that a literal of the class is printed as.
pub record Setting (std : Std) : Type 0 where
  -- `registry.variant_index`, by the name of the enum and the name of the variant
  pub declares : Text → Text → Bool
  pub is_literal : ℕ → Bool
  pub float_eq : ℕ → ℕ → Bool
  pub class_text : ℕ → Text
  pub float_text_iff :
      (a b : ℕ) → is_literal a ≡ true → float_eq a b ≡ eqb_text (std.float_text a) (class_text b)
  pub debug_text_iff : (s t : Text) → eqb_text s t ≡ eqb_text (std.debug_text s) (std.debug_text t)

eqb_Bool : Bool → Bool → Bool
eqb_Bool true b = b
eqb_Bool false b = not b

-- the value of a field, by its name
unfoldable pub field_of : Text → FieldValues → Option Value
field_of name no_more = none
field_of name (field_value n v vs) =
    let rest = field_of name vs in if eqb_text n name then some v else rest

-- a test of a field's value; a missing field fails it
unfoldable pub with_field : Option Value → (Value → Bool) → Bool
with_field none test = false
with_field (some v) test = test v

abbrev pub fields_of : Value → FieldValues
fields_of (struct_value fs) = fs
fields_of _ = no_more

abbrev pub items_of : Value → Values
items_of (tuple_value vs) = vs
items_of _ = no_values

abbrev pub payload_of : Value → Values
payload_of (variant _ _ vs) = vs
payload_of _ = no_values

abbrev pub target_of : Value → Value
target_of (ref_value v) = v
target_of v = v

abbrev last_segment : List Text → Text
last_segment [] = []
last_segment (s ∷ []) = s
last_segment (s ∷ t ∷ ss) = last_segment (t ∷ ss)

-- The enum of the value, behind its references, has a variant of this name: then the name as a bare
-- identifier is that variant (`unit_variant_pattern` in compiler/paco-mir/src/lower.rs).
unfoldable pub names_variant : (Text → Text → Bool) → Text → Value → Bool
names_variant declares name (variant type_name _ _) = declares type_name name
names_variant declares name (ref_value v) = names_variant declares name v
names_variant declares name _ = false

-- The value, behind its references, is of the variant of this name.
unfoldable pub is_unit : Text → Value → Bool
is_unit name (variant _ own _) = eqb_text name own
is_unit name (ref_value v) = is_unit name v
is_unit name _ = false

unfoldable pub is_variant : List Text → Value → Bool
is_variant path (variant _ name _) = eqb_text (last_segment path) name
is_variant path _ = false

-- `start..=end`, or `start..end`
unfoldable pub in_range : Option ℤ → Option ℤ → Bool → Value → Bool
in_range (some s) (some e) inclusive (int_value z) =
    leb_ℤ s z && (if inclusive then leb_ℤ z e else not (leb_ℤ e z))
in_range _ _ _ _ = false

-- the ends and the value of a range are of type `i64`
unfoldable pub range_fits : Option ℤ → Option ℤ → Value → Bool
range_fits (some s) (some e) (int_value z) = is_i64 s && (is_i64 e && is_i64 z)
range_fits _ _ (int_value z) = true
range_fits _ _ _ = false

-- a path `Enum::Variant` against a variant of that enum, or a path `Variant`
unfoldable pub enum_fits : List Text → Value → Bool
enum_fits (_ ∷ []) (variant _ _ _) = true
enum_fits (type_name ∷ _ ∷ []) (variant name _ _) = eqb_text type_name name
enum_fits _ _ = false

module _ (std : Std) (setting : Setting std) where
  unfoldable pub literal_matches : Literal → Value → Bool
  unfolding eqb_Bool
  literal_matches (Literal.int a) (int_value b) = eqb_ℤ a b
  literal_matches (Literal.float a) (float_value b) = setting.float_eq a b
  literal_matches (Literal.bool a) (bool_value b) = eqb_Bool a b
  literal_matches (Literal.string a) (string_value b) = eqb_text a b
  literal_matches (Literal.char a) (char_value b) = a == b
  literal_matches _ _ = false

  unfoldable mutual
    unfolding literal_matches with_field names_variant is_unit is_variant in_range int_literal

    pub matches : Pat → Value → Bool
    matches (wildcard _) v = true
    -- an identifier that names a variant of the value's enum is that variant
    matches (ident name _) v =
        if names_variant setting.declares name v then is_unit name v else true
    matches (Pat.literal l _) v = literal_matches l v
    matches (tuple ps _) v = match_all ps (items_of v)
    matches (struct _ fs _ _) v = match_fields fs (fields_of v)
    matches (enum path ps _) v = is_variant path v && match_all ps (payload_of v)
    matches (Pat.range s e inclusive _) v = in_range (int_literal s) (int_literal e) inclusive v
    matches (or ps _) v = match_any ps v
    matches (binding _ p _) v = matches p v
    matches (reference _ p _) v = matches p (target_of v)

    pub match_all : Pats → Values → Bool
    match_all nil no_values = true
    match_all (cons p ps) (value v vs) = matches p v && match_all ps vs
    match_all _ _ = false

    pub match_any : Pats → Value → Bool
    match_any nil v = false
    match_any (cons p ps) v = matches p v || match_any ps v

    pub match_fields : FieldPats → FieldValues → Bool
    match_fields no_fields vs = true
    match_fields (field name p fs) vs =
        with_field (field_of name vs) (λ v. matches p v && match_fields fs vs)

  -- The value is of the type that the literal is checked against, an integer is of type `i64`, and the
  -- literal, though not the value, is neither NaN nor a negative zero.
  unfoldable pub literal_fits : Literal → Value → Bool
  literal_fits (Literal.int a) (int_value b) = is_i64 a && is_i64 b
  literal_fits (Literal.float a) (float_value b) = setting.is_literal a
  literal_fits (Literal.bool a) (bool_value b) = true
  literal_fits (Literal.string a) (string_value b) = true
  literal_fits (Literal.char a) (char_value b) = true
  literal_fits _ _ = false

  unfoldable mutual
    unfolding literal_fits range_fits enum_fits with_field names_variant is_variant int_literal

    -- The value is of the type that the pattern is checked against, and no bare identifier in the
    -- pattern names a variant of the enum of the value that it is compared with.
    pub fits : Pat → Value → Bool
    fits (wildcard _) v = true
    fits (ident name _) v = not (names_variant setting.declares name v)
    fits (Pat.literal l _) v = literal_fits l v
    fits (tuple ps _) v = fit_all ps (items_of v)
    fits (struct _ fs _ _) v = fit_fields fs (fields_of v)
    fits (enum path ps _) v =
        enum_fits path v && (if is_variant path v then fit_all ps (payload_of v) else true)
    fits (Pat.range s e _ _) v = range_fits (int_literal s) (int_literal e) v
    fits (or ps _) v = fit_each ps v
    fits (binding _ p _) v = fits p v
    fits (reference _ p _) v = fits p (target_of v)

    pub fit_all : Pats → Values → Bool
    fit_all nil no_values = true
    fit_all (cons p ps) (value v vs) = fits p v && fit_all ps vs
    fit_all _ _ = false

    pub fit_each : Pats → Value → Bool
    fit_each nil v = true
    fit_each (cons p ps) v = fits p v && fit_each ps v

    pub fit_fields : FieldPats → FieldValues → Bool
    fit_fields no_fields vs = true
    fit_fields (field name p fs) vs =
        with_field (field_of name vs) (λ v. fits p v && fit_fields fs vs)

-- the key under which a value is counted, behind its references
unfoldable pub value_key : (std : Std) → Setting std → Value → Text
value_key std setting (bool_value true) = codes "true"
value_key std setting (bool_value false) = codes "false"
value_key std setting (int_value z) = show_ℤ z
value_key std setting (float_value b) = setting.class_text b
value_key std setting (string_value s) = std.debug_text s
value_key std setting (char_value c) = c ∷ []
value_key std setting (variant type_name name _) = type_name ++ (codes "::" ++ name)
value_key std setting (struct_value _) = []
value_key std setting (tuple_value _) = []
value_key std setting (ref_value v) = value_key std setting v

-- Each value of the type has a key in a closed set.
unfoldable pub is_instance : (std : Std) → Setting std → ConstructorSet → Value → Bool
unfolding value_key
is_instance std setting set v = elim set.fallback_witness [
  | none ↦ contains set.constructors (value_key std setting v)
  | some _ ↦ true
]

module _ (std : Std) (setting : Setting std) {Expr : Type 0} where
  -- An arm without a guard matches the value.
  unfoldable pub taken : List (MatchArm Expr) → Value → Bool
  taken [] v = false
  taken (arm ∷ arms) v = (is_none arm.guard && matches std setting arm.pattern v) || taken arms v

  unfoldable pub all_fit : List (MatchArm Expr) → Value → Bool
  all_fit [] v = true
  all_fit (arm ∷ arms) v = fits std setting arm.pattern v && all_fit arms v
