-- ===== src/Resolve.antt =====
-- compiler/paco-resolve/src/lib.rs: the locals that names denote.
pub mod Occurrences
pub mod Shadowing
pub mod Counted
pub mod Patterns
pub mod Exprs
pub mod Scopes
pub mod Keeping
pub mod Scoping
pub mod Modules
use paco.Prelude.{
  ℕ, zero, suc, ◌+◌, ◌≡◌, Bool, true, false, ◌||◌, Option, none, some, List, [], ◌∷◌, ◌++◌,
  if◌then◌else◌, ◌>>=◌, ℕ_discrete,
}
use paco.Prelude.Text.{Text, codes, contains}
use paco.Dims.Tables.{find}
use paco.Dims.Arena.{Text_discrete}
use paco.Span.{Span}
use paco.Match.Patterns.{Pat, Pats, nil, cons, FieldPats, no_fields, field}

abbrev pub LocalId : Type 0
LocalId = ℕ

unfoldable pub Span_discrete : Discrete Span
Span_discrete = hlevel ℕ_discrete

abbrev pub prelude_values : List Text
prelude_values =
    codes "print"
    ∷ codes "panic"
    ∷ codes "Some"
    ∷ codes "None"
    ∷ codes "Ok"
    ∷ codes "Err"
    ∷ codes "channel"
    ∷ codes "spawn_blocking"
    ∷ codes "tcp_listen"
    ∷ codes "slice_of_zeros"
    ∷ codes "hash_of"
    ∷ codes "slice_sort_native"
    ∷ codes "slice_as_ptr"
    ∷ codes "slice_as_mut_ptr"
    ∷ codes "ptr_null"
    ∷ codes "ptr_null_mut"
    ∷ codes "splice_field"
    ∷ codes "fields_of"
    ∷ codes "type_name"
    ∷ codes "code_to_string"
    ∷ codes "string_concat"
    ∷ codes "int_to_string"
    ∷ codes "uint_to_string"
    ∷ codes "bool_to_string"
    ∷ codes "float_to_string"
    ∷ codes "char_to_string"
    ∷ codes "string_len_bytes"
    ∷ codes "string_char_at"
    ∷ codes "string_next_char_boundary"
    ∷ codes "string_byte_at"
    ∷ codes "string_slice_utf8"
    ∷ codes "string_to_bytes"
    ∷ codes "string_from_bytes"
    ∷ codes "bytes_write_string"
    ∷ codes "string_hash"
    ∷ codes "fs_read_to_string"
    ∷ codes "stderr_write"
    ∷ codes "arg_count"
    ∷ codes "arg_at"
    ∷ codes "rt_sleep_ns"
    ∷ codes "rt_monotonic_ns"
    ∷ codes "rt_wall_ns"
    ∷ []

-- the names and their ids at one place of the source
abbrev pub Entries : Type 0
Entries = List (Text × LocalId)

pub record Locals : Type 0 where
  pub occurrences : List (Span × Entries)
  pub count : ℕ

unfoldable pub entries_at : Span → Locals → Entries
unfolding find Span_discrete
entries_at span l = elim (find Span_discrete span l.occurrences) [
  | some entries ↦ entries
  | none ↦ []
]

-- `Locals::get`
unfoldable pub get_local : Text → Span → Locals → Option LocalId
unfolding find entries_at Text_discrete
get_local name span l = find Text_discrete name (entries_at span l)

unfoldable pub put_entry : Text → LocalId → Entries → Entries
unfolding Text_discrete
put_entry name id [] = (name, id) ∷ []
put_entry name id ((bound, old) ∷ entries) =
    let rest = put_entry name id entries in
    elim (Text_discrete name bound) [ yes _ ↦ (bound, id) ∷ entries | no _ ↦ (bound, old) ∷ rest ]

-- `Locals::record`
unfoldable pub record_local : Text → Span → LocalId → Locals → Locals
unfolding put_entry entries_at
record_local name span id l = record l {
  occurrences = (span, put_entry name id (entries_at span l)) ∷ l.occurrences;
}

unfoldable pub or_new_local : Option LocalId → Text → Span → Locals → Locals × LocalId
unfolding record_local
or_new_local (some id) name span l = (l, id)
or_new_local none name span l =
    (record_local name span l.count (record l { count = l.count + 1 }), l.count)

-- `Locals::intern`
unfoldable pub intern_local : Text → Span → Locals → Locals × LocalId
unfolding or_new_local get_local
intern_local name span l = or_new_local (get_local name span l) name span l

abbrev pub Scope : Type 0
Scope = List (Text × Option LocalId)

-- the innermost scope first, and the names not found so far, if they are reported
pub record Resolver : Type 0 where
  pub functions : List Text
  pub not_found : Option (List (Text × Span))
  pub locals : Locals
  pub scopes : List Scope

unfoldable pub lookup : Text → List Scope → Option (Option LocalId)
unfolding find Text_discrete
lookup name [] = none
lookup name (scope ∷ scopes) = elim (find Text_discrete name scope) [
  | some entry ↦ some entry
  | none ↦ lookup name scopes
]

unfoldable pub report : Text → Span → Option (List (Text × Span)) → Option (List (Text × Span))
report name span none = none
report name span (some names) = some (names ++ (name, span) ∷ [])

unfoldable pub resolve_as : Option (Option LocalId) → Text → Span → Resolver → Resolver
unfolding record_local report contains
resolve_as (some (some id)) name span r = record r { locals = record_local name span id r.locals }
resolve_as (some none) name span r = r
resolve_as none name span r =
    if contains r.functions name || contains prelude_values name
    then r
    else record r { not_found = report name span r.not_found }

-- `Resolver::ident`
unfoldable pub resolve_ident : Text → Span → Resolver → Resolver
unfolding resolve_as lookup
resolve_ident name span r = resolve_as (lookup name r.scopes) name span r

unfoldable pub bind_in : Text → LocalId → List Scope → List Scope
bind_in name id [] = []
bind_in name id (scope ∷ scopes) = ((name, some id) ∷ scope) ∷ scopes

unfoldable pub aliased : Option Entries → Text → Option LocalId
unfolding find Text_discrete
aliased none name = none
aliased (some alias) name = find Text_discrete name alias

unfoldable pub or_intern_local : Option LocalId → Text → Span → Locals → Locals × LocalId
unfolding record_local intern_local
or_intern_local (some id) name span l = (record_local name span id l, id)
or_intern_local none name span l = intern_local name span l

-- `Resolver::bind`
unfoldable pub bind_name : Text → Span → Option Entries → Resolver × Entries → Resolver × Entries
unfolding or_intern_local aliased bind_in
bind_name name span alias (r, bound) =
    let (l, id) = or_intern_local (aliased alias name) name span r.locals in
    (record r { locals = l; scopes = bind_in name id r.scopes }, (name, id) ∷ bound)

-- `Resolver::bind_pattern`
unfoldable mutual
  unfolding bind_name

  pub bind_pattern : Pat → Option Entries → Resolver × Entries → Resolver × Entries
  bind_pattern (Pat.ident name span) alias s = bind_name name span alias s
  bind_pattern (Pat.binding name p span) alias s =
      bind_pattern p alias (bind_name name span alias s)
  bind_pattern (Pat.or alternatives _) alias (r, bound) =
      let (r', first) = bind_alternatives alternatives alias r in (r', first ++ bound)
  bind_pattern (Pat.tuple fields _) alias s = bind_patterns fields alias s
  bind_pattern (Pat.enum _ fields _) alias s = bind_patterns fields alias s
  bind_pattern (Pat.struct _ fields _ _) alias s = bind_fields fields alias s
  bind_pattern (Pat.range start end _ _) alias s =
      bind_pattern end alias (bind_pattern start alias s)
  bind_pattern (Pat.reference _ p _) alias s = bind_pattern p alias s
  bind_pattern (Pat.wildcard _) alias s = s
  bind_pattern (Pat.literal _ _) alias s = s

  pub bind_patterns : Pats → Option Entries → Resolver × Entries → Resolver × Entries
  bind_patterns nil alias s = s
  bind_patterns (cons p ps) alias s = bind_patterns ps alias (bind_pattern p alias s)

  pub bind_alternatives : Pats → Option Entries → Resolver → Resolver × Entries
  bind_alternatives nil alias r = (r, [])
  bind_alternatives (cons p ps) alias r =
      let (r', first) = bind_pattern p alias (r, []) in (bind_rest ps first r', first)

  pub bind_rest : Pats → Entries → Resolver → Resolver
  bind_rest nil first r = r
  bind_rest (cons p ps) first r = bind_rest ps first (bind_pattern p (some first) (r, [])).0

  pub bind_fields : FieldPats → Option Entries → Resolver × Entries → Resolver × Entries
  bind_fields no_fields alias s = s
  bind_fields (field _ p ps) alias s = bind_fields ps alias (bind_pattern p alias s)
