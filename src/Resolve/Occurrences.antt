-- ===== src/Resolve/Occurrences.antt =====
-- compiler/paco-resolve/src/lib.rs: the occurrences that are recorded.
use paco.Prelude.{◌≡◌, ◌≢◌, ◌⊎◌, inl, inr, sym, ap, ◌∙◌, subst, none, some, [], ◌∷◌}
use paco.Prelude.Text.{Text}
use paco.Dims.Tables.{find, find-same, find-other}
use paco.Dims.Arena.{Text_discrete}
use paco.Dims.Values.{some_injective}
use paco.Span.{Span}
use paco.Resolve.{
  LocalId, Span_discrete, Entries, Locals, entries_at, get_local, put_entry, record_local,
}

put_entry-same :
    (name : Text) (id : LocalId) (es : Entries)
    → find Text_discrete name (put_entry name id es) ≡ some id
unfolding put_entry find
put_entry-same name id [] = find-same Text_discrete name id []
put_entry-same name id ((bound, old) ∷ es) =
    elim (Text_discrete name bound)
      as (λ d.
        find Text_discrete name
          (elim d [ yes _ ↦ (bound, id) ∷ es | no _ ↦ (bound, old) ∷ put_entry name id es ])
        ≡ some id) [
          | yes e ↦
              subst (λ b. find Text_discrete name ((b, id) ∷ es) ≡ some id) e
                (find-same Text_discrete name id es)
          | no n ↦
              find-other Text_discrete name bound old (put_entry name id es) n
              ∙ put_entry-same name id es
        ]

put_entry-other :
    (other name : Text) (id : LocalId) (es : Entries)
    → other ≢ name
    → find Text_discrete other (put_entry name id es) ≡ find Text_discrete other es
unfolding put_entry
put_entry-other other name id [] ne = find-other Text_discrete other name id [] ne
put_entry-other other name id ((bound, old) ∷ es) ne =
    elim (Text_discrete name bound)
      as (λ d.
        find Text_discrete other
          (elim d [ yes _ ↦ (bound, id) ∷ es | no _ ↦ (bound, old) ∷ put_entry name id es ])
        ≡ find Text_discrete other ((bound, old) ∷ es)) [
          | yes e ↦
              let ne' : other ≢ bound = λ h. ne (h ∙ sym e) in
              find-other Text_discrete other bound id es ne'
              ∙ sym (find-other Text_discrete other bound old es ne')
          | no n ↦ elim (Text_discrete other bound) [
            | yes same ↦
                subst
                  (λ b.
                    find Text_discrete other ((b, old) ∷ put_entry name id es)
                    ≡ find Text_discrete other ((b, old) ∷ es))
                  same
                  (find-same Text_discrete other old (put_entry name id es)
                    ∙ sym (find-same Text_discrete other old es))
            | no differs ↦
                find-other Text_discrete other bound old (put_entry name id es) differs
                ∙ put_entry-other other name id es ne
                ∙ sym (find-other Text_discrete other bound old es differs)
          ]
        ]

entries_at-record :
    (name : Text) (span : Span) (id : LocalId) (l : Locals)
    → entries_at span (record_local name span id l) ≡ put_entry name id (entries_at span l)
unfolding entries_at record_local
entries_at-record name span id l =
    ap (λ o. elim o [ some entries ↦ entries | none ↦ [] ])
      (find-same Span_discrete span (put_entry name id (entries_at span l)) l.occurrences)

entries_at-other :
    (other : Span) (name : Text) (span : Span) (id : LocalId) (l : Locals)
    → other ≢ span
    → entries_at other (record_local name span id l) ≡ entries_at other l
unfolding entries_at record_local
entries_at-other other name span id l ne =
    ap (λ o. elim o [ some entries ↦ entries | none ↦ [] ])
      (find-other Span_discrete other span (put_entry name id (entries_at span l)) l.occurrences ne)

pub get-record :
    (name : Text) (span : Span) (id : LocalId) (l : Locals)
    → get_local name span (record_local name span id l) ≡ some id
unfolding get_local
get-record name span id l =
    ap (find Text_discrete name) (entries_at-record name span id l)
    ∙ put_entry-same name id (entries_at span l)

pub get-record_other :
    (n : Text) (s : Span) (name : Text) (span : Span) (id : LocalId) (l : Locals)
    → ((n ≢ name) ⊎ (s ≢ span))
    → get_local n s (record_local name span id l) ≡ get_local n s l
unfolding get_local
get-record_other n s name span id l (inr ne) =
    ap (find Text_discrete n) (entries_at-other s name span id l ne)
get-record_other n s name span id l (inl ne) = elim (Span_discrete s span) [
  | yes e ↦
      subst
        (λ t.
          find Text_discrete n (entries_at t (record_local name span id l))
          ≡ find Text_discrete n (entries_at t l))
        (sym e)
        (ap (find Text_discrete n) (entries_at-record name span id l)
          ∙ put_entry-other n name id (entries_at span l) ne)
  | no other ↦ ap (find Text_discrete n) (entries_at-other s name span id l other)
]

-- what is recorded is the id of that name at that place, or was recorded before
pub record-cases :
    (n : Text) (s : Span) (k : LocalId) (name : Text) (span : Span) (id : LocalId) (l : Locals)
    → get_local n s (record_local name span id l) ≡ some k
    → ((n ≡ name) × (k ≡ id)) ⊎ (get_local n s l ≡ some k)
record-cases n s k name span id l h = elim (Text_discrete n name) [
  | no ne ↦ inr (sym (get-record_other n s name span id l (inl ne)) ∙ h)
  | yes e ↦ elim (Span_discrete s span) [
    | no ne ↦ inr (sym (get-record_other n s name span id l (inr ne)) ∙ h)
    | yes e' ↦
        let here : get_local name span (record_local name span id l) ≡ some k =
          subst (λ t. get_local name t (record_local name span id l) ≡ some k) e'
            (subst (λ m. get_local m s (record_local name span id l) ≡ some k) e h) in
        inl (e, some_injective (sym here ∙ get-record name span id l))
  ]
]
