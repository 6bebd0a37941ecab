-- ===== src/Match/Irrefutable.antt =====
-- compiler/paco-match/src/lib.rs: what irrefutable patterns and literals match.
use paco.Prelude.{
  ◌≡◌, refl, sym, inl, inr, Bool, not, if◌then◌else◌, true, false, arith, Option-cases, &&-split,
  ||-split, ||-right, ||-left, &&-both,
}
use paco.Prelude.Text.{eqb_text}
use paco.Match.Patterns.{
  Literal, Pat, Pats, FieldPats, ident, wildcard, struct, or, binding, reference, nil, cons,
  no_fields, field,
}
use paco.Match.Coverage.{
  Std, literal_key, is_irrefutable_pattern, any_irrefutable, all_fields_irrefutable,
  all_irrefutable,
}
use paco.Match.Meaning.{
  Value, Values, FieldValues, Setting, names_variant, is_unit, field_of, fields_of, target_of,
  literal_matches, matches, match_all, match_any, match_fields, literal_fits, fits, fit_all,
  fit_each, fit_fields, value_key, no_values, value, bool_value, int_value, float_value,
  string_value, char_value,
}
use paco.Match.Keys.{eqb_show}

-- an identifier that names no variant matches
pub binds_any : (b c : Bool) → not b ≡ true → (if b then c else true) ≡ true
binds_any b c h = ground arith

module _ (std : Std) (setting : Setting std) where
  mutual
    unfolding is_irrefutable_pattern matches fits

    pub irrefutable-matches :
        (p : Pat) (v : Value)
        → is_irrefutable_pattern p ≡ true
        → fits std setting p v ≡ true
        → matches std setting p v ≡ true
    irrefutable-matches (wildcard _) v h f = refl
    irrefutable-matches (ident name _) v h f =
        binds_any (names_variant setting.declares name v) (is_unit name v) f
    irrefutable-matches (binding _ p _) v h f = irrefutable-matches p v h f
    irrefutable-matches (reference _ p _) v h f = irrefutable-matches p (target_of v) h f
    irrefutable-matches (or ps _) v h f = any_irrefutable-matches ps v h f
    irrefutable-matches (struct _ fs _ _) v h f = fields_irrefutable-match fs (fields_of v) h f
    irrefutable-matches _ v h f = cc

    any_irrefutable-matches :
        (ps : Pats) (v : Value)
        → any_irrefutable ps ≡ true
        → fit_each std setting ps v ≡ true
        → match_any std setting ps v ≡ true
    any_irrefutable-matches nil v h f = cc
    any_irrefutable-matches (cons p ps) v h f =
        let (fp, fps) = &&-split (fits std setting p v) (fit_each std setting ps v) f in
        elim (||-split (is_irrefutable_pattern p) (any_irrefutable ps) h) [
          | inl a ↦ ||-left _ _ (irrefutable-matches p v a fp)
          | inr b ↦ ||-right _ _ (any_irrefutable-matches ps v b fps)
        ]

    pub fields_irrefutable-match :
        (fs : FieldPats) (vs : FieldValues)
        → all_fields_irrefutable fs ≡ true
        → fit_fields std setting fs vs ≡ true
        → match_fields std setting fs vs ≡ true
    fields_irrefutable-match no_fields vs h f = refl
    fields_irrefutable-match (field name p fs) vs h f = elim (Option-cases (field_of name vs)) [
      | inl missing ↦ absurd (cc (rw missing at f))
      | inr (v, found) ↦
          let (irrefutable, rest) =
            &&-split (is_irrefutable_pattern p) (all_fields_irrefutable fs) h in
          let (fp, ffs) =
            &&-split (fits std setting p v) (fit_fields std setting fs vs) (rw found at f) in
          rw found (
            &&-both _ _ (irrefutable-matches p v irrefutable fp)
              (fields_irrefutable-match fs vs rest ffs))
    ]

  pub all_irrefutable-match :
      (ps : Pats) (vs : Values)
      → all_irrefutable ps ≡ true
      → fit_all std setting ps vs ≡ true
      → match_all std setting ps vs ≡ true
  unfolding all_irrefutable matches fits
  all_irrefutable-match nil no_values h f = refl
  all_irrefutable-match nil (value v vs) h f = cc
  all_irrefutable-match (cons p ps) no_values h f = cc
  all_irrefutable-match (cons p ps) (value v vs) h f =
      let (irrefutable, rest) = &&-split (is_irrefutable_pattern p) (all_irrefutable ps) h in
      let (fp, fps) = &&-split (fits std setting p v) (fit_all std setting ps vs) f in
      &&-both _ _ (irrefutable-matches p v irrefutable fp) (all_irrefutable-match ps vs rest fps)

  pub literal_key-matches :
      (l : Literal) (v : Value)
      → literal_fits std setting l v ≡ true
      → eqb_text (literal_key std l) (value_key std setting v) ≡ literal_matches std setting l v
  unfolding literal_key value_key literal_matches literal_fits
  literal_key-matches (Literal.int a) (int_value b) h = ground (arith, eqb_show a b)
  literal_key-matches (Literal.float a) (float_value b) h =
      ground (arith, setting.float_text_iff a b)
  literal_key-matches (Literal.bool true) (bool_value true) h = unfold eqb_text in refl
  literal_key-matches (Literal.bool true) (bool_value false) h = unfold eqb_text in refl
  literal_key-matches (Literal.bool false) (bool_value true) h = unfold eqb_text in refl
  literal_key-matches (Literal.bool false) (bool_value false) h = unfold eqb_text in refl
  literal_key-matches (Literal.string a) (string_value b) h = sym (setting.debug_text_iff a b)
  literal_key-matches (Literal.char a) (char_value b) h = unfold eqb_text in ground arith
  literal_key-matches _ _ h = cc
