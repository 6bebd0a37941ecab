-- ===== src/Span/Files.antt =====
-- compiler/paco-span/src/lib.rs, `SourceMap`: what a new file and a location promise.
use paco.Prelude.{
  ℕ, zero, suc, ◌^◌, ◌≤◌, ◌<◌, ◌≡◌, refl, sym, ap, ◌∙◌, ◌↔◌, ◌⊎◌, inl, inr, true, some, List, [],
  ◌∷◌, ◌++◌, arith, dec_lt, Option-cases, length, get_elem?,
}
use native.Mathlib.Nat.{mod-eq_of_lt}
use paco.Prelude.Text.{Text}
use paco.Span.{
  Span, Location, ok, SourceFile, SourceMap, add_file, source, file_name, location, byte_len,
  line_column, locate,
}
use paco.Span.Positions.{◌≺◌, is_boundary, line_column-≺}

module _ {ℓ} {A : Type ℓ} where
  get_elem?-append_last : (xs : List A) (a : A) → get_elem? (xs ++ a ∷ []) (length xs) ≡ some a
  get_elem?-append_last [] a = refl
  get_elem?-append_last (x ∷ xs) a = get_elem?-append_last xs a

  get_elem?-append_left :
      (xs ys : List A) (i : ℕ) → i < length xs → get_elem? (xs ++ ys) i ≡ get_elem? xs i
  get_elem?-append_left [] ys i h = elim h [ ]
  get_elem?-append_left (x ∷ xs) ys zero h = refl
  get_elem?-append_left (x ∷ xs) ys (suc i) h = get_elem?-append_left xs ys i (omega arith)

-- While there are less than 2 ^ 32 files, a new file is found with its text and its name under the
-- id that `add_file` returns, and every location in an older file is as before.
pub add_file_lookup :
    (m : SourceMap) (name text : Text)
    → length m.files < 2 ^ 32
    → let (m', id) = add_file m name text in
      (source m' id ≡ some text)
      × (file_name m' id ≡ some name)
      × ((span : Span) → span.file_id < length m.files → location m' span ≡ location m span)
unfolding add_file source file_name location
add_file_lookup m name text h =
    let last = get_elem?-append_last m.files (record { name = name; text = text }) in
    let id = mod-eq_of_lt h in
    (
      rw (id, last),
      rw (id, last),
      λ span old. rw (get_elem?-append_left m.files _ span.file_id old, location),
    )

locate-ok :
    (f : SourceFile) (span : Span)
    → span.start ≤ span.end
    → span.end ≤ byte_len f.text
    → (l : Location) × (locate f span ≡ ok l)
unfolding locate
locate-ok f span h k = (
  record {
    file_id = span.file_id;
    file_name = f.name;
    start = line_column f.text span.start;
    end = line_column f.text span.end;
  },
  ground arith,
)

locate_needs :
    (f : SourceFile) (span : Span) (l : Location)
    → locate f span ≡ ok l
    → (span.start ≤ span.end)
      × (span.end ≤ byte_len f.text)
      × (l.start ≡ line_column f.text span.start)
      × (l.end ≡ line_column f.text span.end)
unfolding locate
locate_needs f span l h = ground arith

-- the span's file is known, and the span is in order and inside its text
abbrev pub HasLocation : SourceMap → Span → Type 0
HasLocation m span =
    (f : SourceFile) × (get_elem? m.files span.file_id ≡ some f)
    × (span.start ≤ span.end)
    × (span.end ≤ byte_len f.text)

location_needs :
    (m : SourceMap) (span : Span) (l : Location) → location m span ≡ ok l → HasLocation m span
unfolding location
location_needs m span l h = elim (Option-cases (get_elem? m.files span.file_id)) [
  | inl unknown ↦ absurd (cc (rw (unknown, location) at h))
  | inr (f, known) ↦
      let (le, inside, _, _) = locate_needs f span l (rw (known, location) at h) in
      (f, known, le, inside)
]

location-ok :
    (m : SourceMap) (span : Span) → HasLocation m span → (l : Location) × (location m span ≡ ok l)
unfolding location
location-ok m span (f, known, h, k) =
    let (l, e) = locate-ok f span h k in (l, rw (known, location) e)

-- A location is given exactly when the span's file is known and the span is in order and inside
-- the file's text.
pub location-ok_iff :
    (m : SourceMap) (span : Span) → ((l : Location) × (location m span ≡ ok l)) ↔ HasLocation m span
location-ok_iff m span = (λ h. location_needs m span h.0 h.1, location-ok m span)

-- The start of a location does not stand behind its end, where both offsets are those of
-- characters or the end of the text, and they are equal only for an empty span.
pub location_ordered :
    (m : SourceMap) (span : Span) (f : SourceFile) (l : Location)
    → get_elem? m.files span.file_id ≡ some f
    → is_boundary span.start f.text ≡ true
    → is_boundary span.end f.text ≡ true
    → location m span ≡ ok l
    → (l.start ≺ l.end) ⊎ ((l.start ≡ l.end) × (span.start ≡ span.end))
unfolding location
location_ordered m span f l known b b' h =
    let (le, _, start, end) = locate_needs f span l (rw (known, location) at h) in
    elim (dec_lt span.start span.end) [
      | yes lt ↦ inl (rw (start, end) (line_column-≺ f.text span.start span.end lt b b'))
      | no ge ↦
          let same : span.start ≡ span.end = omega arith in
          inr (start ∙ ap (line_column f.text) same ∙ sym end, same)
    ]
