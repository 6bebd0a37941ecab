-- ===== src/Resolve/Scopes.antt =====
-- compiler/paco-resolve/src/lib.rs: a pattern binds in the innermost scope.
use paco.Prelude.{◌≡◌, ap, Option, some, List, [], ◌∷◌}
use paco.Prelude.Text.{Text}
use paco.Span.{Span}
use paco.Match.Patterns.{Pat, Pats, nil, cons, FieldPats, no_fields, field}
use paco.Resolve.{
  Entries, Scope, Resolver, bind_in, aliased, or_intern_local, bind_name, bind_pattern,
  bind_patterns, bind_alternatives, bind_rest, bind_fields,
}

-- a resolver in a scope that stands in others
unfoldable pub IsIn : List Scope → Resolver → Type 0
IsIn outside r = (scope : Scope) × (r.scopes ≡ scope ∷ outside)

pub bind_name-IsIn :
    (outside : List Scope) (name : Text) (span : Span) (alias : Option Entries) (r : Resolver)
    (bound : Entries)
    → IsIn outside r
    → IsIn outside (bind_name name span alias (r, bound)).0
unfolding IsIn bind_name bind_in
bind_name-IsIn outside name span alias r bound (scope, e) =
    let id = (or_intern_local (aliased alias name) name span r.locals).1 in
    ((name, some id) ∷ scope, ap (bind_in name id) e)

mutual
  unfolding bind_pattern

  pub bind_pattern-IsIn :
      (outside : List Scope) (p : Pat) (alias : Option Entries) (s : Resolver × Entries)
      → IsIn outside s.0
      → IsIn outside (bind_pattern p alias s).0
  bind_pattern-IsIn o (Pat.ident name span) alias (r, bound) h =
      bind_name-IsIn o name span alias r bound h
  bind_pattern-IsIn o (Pat.binding name p span) alias (r, bound) h =
      bind_pattern-IsIn o p alias (bind_name name span alias (r, bound))
        (bind_name-IsIn o name span alias r bound h)
  bind_pattern-IsIn o (Pat.or alternatives _) alias (r, bound) h =
      bind_alternatives-IsIn o alternatives alias r h
  bind_pattern-IsIn o (Pat.tuple fields _) alias s h = bind_patterns-IsIn o fields alias s h
  bind_pattern-IsIn o (Pat.enum _ fields _) alias s h = bind_patterns-IsIn o fields alias s h
  bind_pattern-IsIn o (Pat.struct _ fields _ _) alias s h = bind_fields-IsIn o fields alias s h
  bind_pattern-IsIn o (Pat.range start end _ _) alias s h =
      bind_pattern-IsIn o end alias (bind_pattern start alias s)
        (bind_pattern-IsIn o start alias s h)
  bind_pattern-IsIn o (Pat.reference _ p _) alias s h = bind_pattern-IsIn o p alias s h
  bind_pattern-IsIn o (Pat.wildcard _) alias s h = h
  bind_pattern-IsIn o (Pat.literal _ _) alias s h = h

  bind_patterns-IsIn :
      (outside : List Scope) (ps : Pats) (alias : Option Entries) (s : Resolver × Entries)
      → IsIn outside s.0
      → IsIn outside (bind_patterns ps alias s).0
  bind_patterns-IsIn o nil alias s h = h
  bind_patterns-IsIn o (cons p ps) alias s h =
      bind_patterns-IsIn o ps alias (bind_pattern p alias s) (bind_pattern-IsIn o p alias s h)

  bind_alternatives-IsIn :
      (outside : List Scope) (ps : Pats) (alias : Option Entries) (r : Resolver)
      → IsIn outside r
      → IsIn outside (bind_alternatives ps alias r).0
  bind_alternatives-IsIn o nil alias r h = h
  bind_alternatives-IsIn o (cons p ps) alias r h =
      let t = bind_pattern p alias (r, []) in
      bind_rest-IsIn o ps t.1 t.0 (bind_pattern-IsIn o p alias (r, []) h)

  bind_rest-IsIn :
      (outside : List Scope) (ps : Pats) (first : Entries) (r : Resolver)
      → IsIn outside r
      → IsIn outside (bind_rest ps first r)
  bind_rest-IsIn o nil first r h = h
  bind_rest-IsIn o (cons p ps) first r h =
      bind_rest-IsIn o ps first (bind_pattern p (some first) (r, [])).0
        (bind_pattern-IsIn o p (some first) (r, []) h)

  bind_fields-IsIn :
      (outside : List Scope) (ps : FieldPats) (alias : Option Entries) (s : Resolver × Entries)
      → IsIn outside s.0
      → IsIn outside (bind_fields ps alias s).0
  bind_fields-IsIn o no_fields alias s h = h
  bind_fields-IsIn o (field _ p ps) alias s h =
      bind_fields-IsIn o ps alias (bind_pattern p alias s) (bind_pattern-IsIn o p alias s h)
