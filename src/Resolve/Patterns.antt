-- ===== src/Resolve/Patterns.antt =====
-- compiler/paco-resolve/src/lib.rs: patterns bind names to ids that have been counted.
use paco.Prelude.{ℕ, Option, none, some, [], arith}
use paco.Dims.Interning.{not_some}
use paco.Match.Patterns.{Pat, Pats, nil, cons, FieldPats, no_fields, field}
use paco.Resolve.{
  Entries, Resolver, bind_name, bind_pattern, bind_patterns, bind_alternatives, bind_rest,
  bind_fields,
}
use paco.Resolve.Counted.{
  Below, AliasBelow, IsCounted, Counts, Below-more, AliasBelow-more, Below-append, bind_name-Counts,
}

-- one step and then another
Counts-then :
    (r : Resolver) (s : Resolver × Entries) (t : Resolver × Entries)
    → Counts r s
    → Counts s.0 t
    → Counts r t
Counts-then r s t c d =
    let m = c.more in
    let n = d.more in record { counted = d.counted; more = omega arith; bound = d.bound }

nothing-Counts :
    (r : Resolver) (bound : Entries)
    → IsCounted r
    → Below r.locals.count bound
    → Counts r (r, bound)
nothing-Counts r bound counted below = record {
  counted = counted;
  more = omega arith;
  bound = below;
}

pub nothing-Below : (n : ℕ) → Below n []
unfolding Below
nothing-Below n name id h = absurd (not_some h)

some-Below : (n : ℕ) (es : Entries) → Below n es → AliasBelow n (some es)
unfolding AliasBelow
some-Below n es h = h

mutual
  unfolding bind_pattern

  -- A pattern, whatever the or-patterns in it and with the ids of a first alternative or without,
  -- keeps every id below the count, which only grows, if the ids that it starts from are: those
  -- recorded, those in scope, those of the alternative and those bound so far.
  pub bind_pattern-Counts :
      (p : Pat) (alias : Option Entries) (s : Resolver × Entries)
      → IsCounted s.0
      → AliasBelow s.0.locals.count alias
      → Below s.0.locals.count s.1
      → Counts s.0 (bind_pattern p alias s)
  bind_pattern-Counts (Pat.ident name span) alias (r, bound) c a b =
      bind_name-Counts name span alias r bound c a b
  bind_pattern-Counts (Pat.binding name p span) alias (r, bound) c a b =
      let first = bind_name-Counts name span alias r bound c a b in
      let s = bind_name name span alias (r, bound) in
      Counts-then r s (bind_pattern p alias s) first (
        bind_pattern-Counts p alias s first.counted
          (AliasBelow-more r.locals.count s.0.locals.count alias first.more a) first.bound)
  bind_pattern-Counts (Pat.or alternatives span) alias (r, bound) c a b =
      let d = bind_alternatives-Counts alternatives alias r c a in
      let s = bind_alternatives alternatives alias r in
      record {
        counted = d.counted;
        more = d.more;
        bound =
            Below-append s.0.locals.count s.1 bound d.bound
              (Below-more r.locals.count s.0.locals.count bound d.more b);
      }
  bind_pattern-Counts (Pat.tuple fields _) alias s c a b = bind_patterns-Counts fields alias s c a b
  bind_pattern-Counts (Pat.enum _ fields _) alias s c a b =
      bind_patterns-Counts fields alias s c a b
  bind_pattern-Counts (Pat.struct _ fields _ _) alias s c a b =
      bind_fields-Counts fields alias s c a b
  bind_pattern-Counts (Pat.range start end _ _) alias s c a b =
      let first = bind_pattern-Counts start alias s c a b in
      let t = bind_pattern start alias s in
      Counts-then s.0 t (bind_pattern end alias t) first (
        bind_pattern-Counts end alias t first.counted
          (AliasBelow-more s.0.locals.count t.0.locals.count alias first.more a) first.bound)
  bind_pattern-Counts (Pat.reference _ p _) alias s c a b = bind_pattern-Counts p alias s c a b
  bind_pattern-Counts (Pat.wildcard _) alias (r, bound) c a b = nothing-Counts r bound c b
  bind_pattern-Counts (Pat.literal _ _) alias (r, bound) c a b = nothing-Counts r bound c b

  bind_patterns-Counts :
      (ps : Pats) (alias : Option Entries) (s : Resolver × Entries)
      → IsCounted s.0
      → AliasBelow s.0.locals.count alias
      → Below s.0.locals.count s.1
      → Counts s.0 (bind_patterns ps alias s)
  bind_patterns-Counts nil alias (r, bound) c a b = nothing-Counts r bound c b
  bind_patterns-Counts (cons p ps) alias s c a b =
      let first = bind_pattern-Counts p alias s c a b in
      let t = bind_pattern p alias s in
      Counts-then s.0 t (bind_patterns ps alias t) first (
        bind_patterns-Counts ps alias t first.counted
          (AliasBelow-more s.0.locals.count t.0.locals.count alias first.more a) first.bound)

  bind_alternatives-Counts :
      (ps : Pats) (alias : Option Entries) (r : Resolver)
      → IsCounted r
      → AliasBelow r.locals.count alias
      → Counts r (bind_alternatives ps alias r)
  bind_alternatives-Counts nil alias r c a = nothing-Counts r [] c (nothing-Below r.locals.count)
  bind_alternatives-Counts (cons p ps) alias r c a =
      let first = bind_pattern-Counts p alias (r, []) c a (nothing-Below r.locals.count) in
      let t = bind_pattern p alias (r, []) in
      Counts-then r t (bind_rest ps t.1 t.0, t.1) first
        (bind_rest-Counts ps t.1 t.0 first.counted first.bound)

  bind_rest-Counts :
      (ps : Pats) (first : Entries) (r : Resolver)
      → IsCounted r
      → Below r.locals.count first
      → Counts r (bind_rest ps first r, first)
  bind_rest-Counts nil first r c b = nothing-Counts r first c b
  bind_rest-Counts (cons p ps) first r c b =
      let one =
        bind_pattern-Counts p (some first) (r, []) c (some-Below r.locals.count first b)
          (nothing-Below r.locals.count) in
      let t = bind_pattern p (some first) (r, []) in
      Counts-then r t (bind_rest ps first t.0, first) one
        (bind_rest-Counts ps first t.0 one.counted
          (Below-more r.locals.count t.0.locals.count first one.more b))

  bind_fields-Counts :
      (ps : FieldPats) (alias : Option Entries) (s : Resolver × Entries)
      → IsCounted s.0
      → AliasBelow s.0.locals.count alias
      → Below s.0.locals.count s.1
      → Counts s.0 (bind_fields ps alias s)
  bind_fields-Counts no_fields alias (r, bound) c a b = nothing-Counts r bound c b
  bind_fields-Counts (field _ p ps) alias s c a b =
      let first = bind_pattern-Counts p alias s c a b in
      let t = bind_pattern p alias s in
      Counts-then s.0 t (bind_fields ps alias t) first (
        bind_fields-Counts ps alias t first.counted
          (AliasBelow-more s.0.locals.count t.0.locals.count alias first.more a) first.bound)

-- A pattern that is bound keeps all ids counted: where every id that is recorded or in scope is below
-- the count, so it is afterwards, the count has not gone down, and the ids of the names it binds are
-- below it.
pub bind_pattern-IsCounted :
    (p : Pat) (r : Resolver) → IsCounted r → Counts r (bind_pattern p none (r, []))
unfolding AliasBelow
bind_pattern-IsCounted p r counted =
    bind_pattern-Counts p none (r, []) counted tt (nothing-Below r.locals.count)
