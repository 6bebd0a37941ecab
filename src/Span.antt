-- ===== src/Span.antt =====
-- compiler/paco-span/src/lib.rs: source files, byte spans, and lines and columns.
pub mod Files
pub mod Positions
use paco.Prelude.{
  ℕ, Bool, Option, none, some, List, [], ◌∷◌, ◌++◌, ◌+◌, ◌%◌, ◌^◌, ltb, leb, ◌==◌, ◌||◌,
  if◌then◌else◌, length, get_elem?,
}
use mathlib.Core.Option
use paco.Prelude.Text.{Text}

-- an index into the files of a `SourceMap`, a `u32`
abbrev pub FileId : Type 0
FileId = ℕ

pub record Span : Type 0 where
  pub file_id : FileId
  pub start : ℕ
  pub end : ℕ

pub record LineColumn : Type 0 where
  pub line : ℕ
  pub column : ℕ

pub record Location : Type 0 where
  pub file_id : FileId
  pub file_name : Text
  pub start : LineColumn
  pub end : LineColumn

pub data SourceMapError : Type 0 where
  unknown_file : FileId → SourceMapError
  invalid_span : ℕ → ℕ → ℕ → SourceMapError

-- Rust's `Result` of a lookup
pub data Located : Type 0 where
  ok : Location → Located
  err : SourceMapError → Located

pub record SourceFile : Type 0 where
  pub name : Text
  pub text : Text

pub record SourceMap : Type 0 where
  pub files : List SourceFile

unfoldable pub new : SourceMap
new = record { files = [] }

-- `len() as u32`
unfoldable pub add_file : SourceMap → Text → Text → SourceMap × FileId
add_file map name text = (
  record { files = map.files ++ (record { name = name; text = text }) ∷ [] },
  length map.files % 2 ^ 32,
)

unfoldable pub source : SourceMap → FileId → Option Text
source map id = Option.map (λ (f : SourceFile). f.text) (get_elem? map.files id)

unfoldable pub file_name : SourceMap → FileId → Option Text
file_name map id = Option.map (λ (f : SourceFile). f.name) (get_elem? map.files id)

-- `char::len_utf8`
unfoldable pub len_utf8 : ℕ → ℕ
len_utf8 c = if ltb c 0x80 then 1 else if ltb c 0x800 then 2 else if ltb c 0x10000 then 3 else 4

-- `str::len`, in bytes
unfoldable pub byte_len : Text → ℕ
byte_len [] = 0
byte_len (c ∷ s) = len_utf8 c + byte_len s

-- The loop over `char_indices`: `index` is the byte offset of the next character.
unfoldable pub advance_to : ℕ → ℕ → LineColumn → Text → LineColumn
advance_to offset index at [] = at
advance_to offset index at (c ∷ s) =
    let rest =
      advance_to offset (index + len_utf8 c)
        (if c == b'\n'
          then record { line = at.line + 1; column = 1 }
          else record at { column = at.column + 1 })
        s in
    if leb offset index then at else rest

unfoldable pub line_column : Text → ℕ → LineColumn
unfolding advance_to
line_column text offset = advance_to offset 0 (record { line = 1; column = 1 }) text

locate : SourceFile → Span → Located
unfolding byte_len line_column
locate file span =
    let len = byte_len file.text in
    if ltb span.end span.start || ltb len span.end
    then err (invalid_span span.start span.end len)
    else ok (record {
      file_id = span.file_id;
      file_name = file.name;
      start = line_column file.text span.start;
      end = line_column file.text span.end;
    })

unfoldable pub location : SourceMap → Span → Located
unfolding locate
location map span = elim (get_elem? map.files span.file_id) [
  | none ↦ err (unknown_file span.file_id)
  | some file ↦ locate file span
]
