-- ===== src/Resolve/Counted.antt =====
-- compiler/paco-resolve/src/lib.rs: ids that have been counted.
use paco.Prelude.{
  ℕ, ◌+◌, ◌<◌, ◌≤◌, ◌≡◌, ◌⊎◌, inl, inr, refl, sym, ap, ◌∙◌, subst, Option, none, some, List, [],
  ◌∷◌, ◌++◌, arith,
}
use paco.Prelude.Text.{Text}
use paco.Dims.Tables.{find, find-same, find-other, find-cases}
use paco.Dims.Arena.{Text_discrete}
use paco.Dims.Values.{some_injective}
use paco.Dims.Interning.{not_some}
use paco.Span.{Span}
use paco.Resolve.{
  LocalId, Entries, Locals, entries_at, get_local, record_local, or_new_local, Scope, Resolver,
  lookup, bind_in, aliased, or_intern_local, bind_name,
}
use paco.Resolve.Occurrences.{record-cases}

-- every id is below a count
unfoldable pub Below : ℕ → Entries → Type 0
unfolding find
Below n es = (name : Text) (id : LocalId) → find Text_discrete name es ≡ some id → id < n

unfoldable pub AliasBelow : ℕ → Option Entries → Type 0
unfolding Below
AliasBelow n none = Unit {0}
AliasBelow n (some es) = Below n es

-- all ids, recorded or in scope, have been counted
pub record IsCounted (r : Resolver) : Type 0 where
  pub recorded :
      (name : Text) (span : Span) (id : LocalId)
      → get_local name span r.locals ≡ some id
      → id < r.locals.count
  pub in_scope :
      (name : Text) (id : LocalId) → lookup name r.scopes ≡ some (some id) → id < r.locals.count

-- a step of the resolver that keeps all ids counted
pub record Counts (r : Resolver) (s : Resolver × Entries) : Type 0 where
  pub counted : IsCounted s.0
  pub more : r.locals.count ≤ s.0.locals.count
  pub bound : Below s.0.locals.count s.1

pub Below-more : (m n : ℕ) (es : Entries) → m ≤ n → Below m es → Below n es
unfolding Below
Below-more m n es le h name id found = let lt = h name id found in omega arith

pub AliasBelow-more : (m n : ℕ) (o : Option Entries) → m ≤ n → AliasBelow m o → AliasBelow n o
unfolding AliasBelow
AliasBelow-more m n none le h = tt
AliasBelow-more m n (some es) le h = Below-more m n es le h

-- an entry more
Below-entry :
    (n : ℕ) (name : Text) (id : LocalId) (es : Entries)
    → id < n
    → Below n es
    → Below n ((name, id) ∷ es)
unfolding Below
Below-entry n name id es lt h m k found = elim (find-cases Text_discrete m name id k es found) [
  | inl (_, e) ↦ subst (λ k. k < n) e lt
  | inr old ↦ h m k old
]

find-append :
    (n : Text) (k : LocalId) (es fs : Entries)
    → find Text_discrete n (es ++ fs) ≡ some k
    → (find Text_discrete n es ≡ some k) ⊎ (find Text_discrete n fs ≡ some k)
find-append n k [] fs h = inr h
find-append n k ((name, id) ∷ es) fs h = elim (Text_discrete n name) [
  | yes e ↦
      let first : (gs : Entries) → find Text_discrete n ((name, id) ∷ gs) ≡ some id = λ gs.
        subst (λ m. find Text_discrete m ((name, id) ∷ gs) ≡ some id) (sym e)
          (find-same Text_discrete name id gs) in
      inl (first es ∙ sym (first (es ++ fs)) ∙ h)
  | no ne ↦
      elim (find-append n k es fs (sym (find-other Text_discrete n name id (es ++ fs) ne) ∙ h)) [
        | inl here ↦ inl (find-other Text_discrete n name id es ne ∙ here)
        | inr there ↦ inr there
      ]
]

pub Below-append : (n : ℕ) (es fs : Entries) → Below n es → Below n fs → Below n (es ++ fs)
unfolding Below
Below-append n es fs h k name id found = elim (find-append name id es fs found) [
  | inl here ↦ h name id here
  | inr there ↦ k name id there
]

aliased-lt :
    (n : ℕ) (o : Option Entries) (name : Text) (id : LocalId)
    → AliasBelow n o
    → aliased o name ≡ some id
    → id < n
unfolding AliasBelow aliased Below
aliased-lt n none name id h e = absurd (not_some e)
aliased-lt n (some es) name id h e = h name id e

pub lookup-bind_in :
    (n : Text) (k : LocalId) (name : Text) (id : LocalId) (scopes : List Scope)
    → lookup n (bind_in name id scopes) ≡ some (some k)
    → (k ≡ id) ⊎ (lookup n scopes ≡ some (some k))
unfolding lookup bind_in
lookup-bind_in n k name id [] h = inr h
lookup-bind_in n k name id (scope ∷ scopes) h = elim (Text_discrete n name) [
  | yes e ↦
      let here =
        ap (λ o. elim o [ some entry ↦ some entry | none ↦ lookup n scopes ])
          (subst (λ m. find Text_discrete m ((name, some id) ∷ scope) ≡ some (some id)) (sym e)
            (find-same Text_discrete name (some id) scope)) in
      inl (some_injective (some_injective (sym h ∙ here)))
  | no ne ↦ inr (
      sym (
        ap (λ o. elim o [ some entry ↦ some entry | none ↦ lookup n scopes ])
          (find-other Text_discrete n name (some id) scope ne))
      ∙ h)
]

intern-lt :
    (o : Option LocalId) (name : Text) (span : Span) (l : Locals)
    → get_local name span l ≡ o
    → ((n : Text) (s : Span) (id : LocalId) → get_local n s l ≡ some id → id < l.count)
    → ((or_new_local o name span l).1 < (or_new_local o name span l).0.count)
      × (l.count ≤ (or_new_local o name span l).0.count)
      × ((n : Text) (s : Span) (id : LocalId)
          → get_local n s (or_new_local o name span l).0 ≡ some id
          → id < (or_new_local o name span l).0.count)
unfolding or_new_local record_local get_local entries_at
intern-lt (some id) name span l e recorded = (recorded name span id e, omega arith, recorded)
intern-lt none name span l e recorded =
    let l' : Locals = record l { count = l.count + 1 } in
    (
      omega arith,
      omega arith,
      λ n s k h. elim (record-cases n s k name span l.count l' h) [
        | inl (_, same) ↦ subst (λ k. k < l.count + 1) (sym same) (omega arith)
        | inr old ↦ let lt = recorded n s k old in omega arith
      ],
    )

-- an id that is recorded for a name that an entry is written for
or_intern-lt :
    (o : Option LocalId) (name : Text) (span : Span) (l : Locals)
    → ((id : LocalId) → o ≡ some id → id < l.count)
    → ((n : Text) (s : Span) (id : LocalId) → get_local n s l ≡ some id → id < l.count)
    → ((or_intern_local o name span l).1 < (or_intern_local o name span l).0.count)
      × (l.count ≤ (or_intern_local o name span l).0.count)
      × ((n : Text) (s : Span) (id : LocalId)
          → get_local n s (or_intern_local o name span l).0 ≡ some id
          → id < (or_intern_local o name span l).0.count)
unfolding or_intern_local
or_intern-lt (some id) name span l alias recorded = (
  alias id refl,
  omega arith,
  λ n s k h. elim (record-cases n s k name span id l h) [
    | inl (_, e) ↦ subst (λ k. k < l.count) (sym e) (alias id refl)
    | inr old ↦ recorded n s k old
  ],
)
or_intern-lt none name span l alias recorded =
    intern-lt (get_local name span l) name span l refl recorded

pub bind_name-Counts :
    (name : Text) (span : Span) (alias : Option Entries) (r : Resolver) (bound : Entries)
    → IsCounted r
    → AliasBelow r.locals.count alias
    → Below r.locals.count bound
    → Counts r (bind_name name span alias (r, bound))
unfolding bind_name
bind_name-Counts name span alias r bound counted below bound_below =
    let (lt, more, recorded) =
      or_intern-lt (aliased alias name) name span r.locals
        (λ id h. aliased-lt r.locals.count alias name id below h) counted.recorded in
    let (l, id) = or_intern_local (aliased alias name) name span r.locals in
    record {
      counted = record {
        recorded = recorded;
        in_scope = λ n k h. elim (lookup-bind_in n k name id r.scopes h) [
          | inl e ↦ subst (λ k. k < l.count) (sym e) lt
          | inr old ↦ let old_lt = counted.in_scope n k old in omega arith
        ];
      };
      more = more;
      bound =
          Below-entry l.count name id bound lt
            (Below-more r.locals.count l.count bound more bound_below);
    }
