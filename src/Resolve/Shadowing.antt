-- ===== src/Resolve/Shadowing.antt =====
-- compiler/paco-resolve/src/lib.rs: a use of a name is the innermost binding of it.
use paco.Prelude.{◌+◌, ◌≡◌, ◌≢◌, ◌⊎◌, refl, sym, ap, ◌∙◌, Option, none, some, List, [], ◌∷◌, arith}
use paco.Prelude.Text.{Text}
use paco.Dims.Tables.{find-same}
use paco.Dims.Arena.{Text_discrete}
use paco.Dims.Interning.{not_some}
use paco.Span.{Span}
use paco.Resolve.{
  LocalId, Entries, Locals, get_local, record_local, or_new_local, intern_local, Scope, Resolver,
  lookup, resolve_as, resolve_ident, bind_in, aliased, or_intern_local, bind_name,
}
use paco.Resolve.Occurrences.{get-record, get-record_other}
use paco.Resolve.Counted.{IsCounted}

-- What is recorded for a name at a place is what is found there afterwards, and every other name or
-- place has what it had.
pub record_local-get :
    (name : Text) (span : Span) (id : LocalId) (l : Locals)
    → (get_local name span (record_local name span id l) ≡ some id)
      × ((n : Text) (s : Span)
          → ((n ≢ name) ⊎ (s ≢ span))
          → get_local n s (record_local name span id l) ≡ get_local n s l)
record_local-get name span id l =
    (get-record name span id l, λ n s other. get-record_other n s name span id l other)

lookup-bound :
    (name : Text) (id : LocalId) (scope : Scope) (scopes : List Scope)
    → lookup name (bind_in name id (scope ∷ scopes)) ≡ some (some id)
unfolding lookup bind_in
lookup-bound name id scope scopes =
    ap (λ o. elim o [ some entry ↦ some entry | none ↦ lookup name scopes ])
      (find-same Text_discrete name (some id) scope)

or_new-get :
    (o : Option LocalId) (name : Text) (span : Span) (l : Locals)
    → get_local name span l ≡ o
    → get_local name span (or_new_local o name span l).0 ≡ some (or_new_local o name span l).1
unfolding or_new_local
or_new-get (some id) name span l e = e
or_new-get none name span l e = get-record name span l.count (record l { count = l.count + 1 })

or_intern-get :
    (o : Option LocalId) (name : Text) (span : Span) (l : Locals)
    → get_local name span (or_intern_local o name span l).0 ≡ some (or_intern_local o name span l).1
unfolding or_intern_local intern_local
or_intern-get (some id) name span l = get-record name span id l
or_intern-get none name span l = or_new-get (get_local name span l) name span l refl

-- `ident` on a name that the innermost scope has
ident-get :
    (name : Text) (use_span : Span) (id : LocalId) (r : Resolver)
    → lookup name r.scopes ≡ some (some id)
    → get_local name use_span (resolve_ident name use_span r).locals ≡ some id
unfolding resolve_ident resolve_as
ident-get name use_span id r h =
    ap
      (λ (o : Option (Option LocalId)).
        get_local name use_span (resolve_as o name use_span r).locals)
      h
    ∙ get-record name use_span id r.locals

binding_and_use :
    (name : Text) (span use_span : Span) (alias : Option Entries) (r : Resolver) (scope : Scope)
    (scopes : List Scope)
    → r.scopes ≡ scope ∷ scopes
    → get_local name use_span
        (resolve_ident name use_span (bind_name name span alias (r, [])).0).locals
      ≡ some (or_intern_local (aliased alias name) name span r.locals).1
unfolding bind_name
binding_and_use name span use_span alias r scope scopes e =
    let id = (or_intern_local (aliased alias name) name span r.locals).1 in
    ident-get name use_span id (bind_name name span alias (r, [])).0
      (ap (λ ss. lookup name (bind_in name id ss)) e ∙ lookup-bound name id scope scopes)

-- In a resolver with a scope, a name that is bound, for itself or as in a first alternative of an
-- or-pattern, and used next, is one local: the use has the id of the binding.
pub resolve_ident-bind_name :
    (name : Text) (span use_span : Span) (alias : Option Entries) (r : Resolver) (scope : Scope)
    (scopes : List Scope)
    → r.scopes ≡ scope ∷ scopes
    → get_local name use_span
        (resolve_ident name use_span (bind_name name span alias (r, [])).0).locals
      ≡ get_local name span (bind_name name span alias (r, [])).0.locals
unfolding bind_name
resolve_ident-bind_name name span use_span alias r scope scopes e =
    binding_and_use name span use_span alias r scope scopes e
    ∙ sym (or_intern-get (aliased alias name) name span r.locals)

new_id :
    (o : Option LocalId) (name : Text) (span : Span) (l : Locals)
    → o ≡ none
    → (or_new_local o name span l).1 ≡ l.count
unfolding or_new_local
new_id none name span l e = refl
new_id (some id) name span l e = absurd (not_some (sym e))

-- In a resolver with a scope whose ids are all counted, a name that is bound at a place where
-- nothing has been recorded for it, and used next, is a new local: the use has no id that was recorded
-- for any name at any place before, so that a binding of the same name outside is shadowed.
pub bind_name-shadows :
    (name : Text) (span use_span : Span) (r : Resolver) (scope : Scope) (scopes : List Scope)
    (n : Text) (s : Span)
    → r.scopes ≡ scope ∷ scopes
    → IsCounted r
    → get_local name span r.locals ≡ none
    → get_local name use_span
        (resolve_ident name use_span (bind_name name span none (r, [])).0).locals
      ≢ get_local n s r.locals
unfolding aliased or_intern_local intern_local
bind_name-shadows name span use_span r scope scopes n s e counted fresh same =
    let found = sym same ∙ binding_and_use name span use_span none r scope scopes e in
    let old_lt = counted.recorded n s _ found in
    let is_new = new_id (get_local name span r.locals) name span r.locals fresh in omega arith
