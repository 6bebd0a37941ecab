-- ===== src/Tests/Spans.antt =====
-- Runs of compiler/paco-span/src/lib.rs.
use paco.Prelude.{ℕ, ◌+◌, ◌<◌, ◌≡◌, refl, ◌↔◌, ◌⊎◌, some, [], ◌∷◌, arith}
use paco.Prelude.Text.{Text, codes}
use paco.Span.{
  Span, Location, ok, SourceMap, add_file, source, file_name, location, line_column, len_utf8,
}
use paco.Span.Positions.{
  before, newlines, tail_length, ◌≺◌, is_boundary, line_column-counts, line_column-≺,
}
use paco.Span.Files.{HasLocation, add_file_lookup, location-ok_iff, location_ordered}

abbrev two_lines : Text
two_lines = codes "ab\ncd"

abbrev sample : SourceMap
sample = record { files = (record { name = codes "a.paco"; text = two_lines }) ∷ [] }

abbrev second_line : Span
second_line = record { file_id = 0; start = 3; end = 5 }

position : line_column two_lines 4 ≡ record { line = 2; column = 2 }
unfolding line_column len_utf8
position = refl

line_column-counts_example :
    ((line_column two_lines 4).line ≡ 1 + newlines (before 4 two_lines))
    × ((line_column two_lines 4).column ≡ 1 + tail_length (before 4 two_lines))
line_column-counts_example = line_column-counts two_lines 4

line_column-≺_example : line_column two_lines 2 ≺ line_column two_lines 3
unfolding is_boundary len_utf8
line_column-≺_example = line_column-≺ two_lines 2 3 (omega arith) refl refl

add_file_lookup_example :
    let (m', id) = add_file sample (codes "b.paco") (codes "x") in
    (source m' id ≡ some (codes "x"))
    × (file_name m' id ≡ some (codes "b.paco"))
    × ((span : Span) → span.file_id < 1 → location m' span ≡ location sample span)
add_file_lookup_example = add_file_lookup sample (codes "b.paco") (codes "x") (omega arith)

location-ok_iff_example :
    ((l : Location) × (location sample second_line ≡ ok l)) ↔ HasLocation sample second_line
location-ok_iff_example = location-ok_iff sample second_line

abbrev second_line_at : Location
second_line_at = record {
  file_id = 0;
  file_name = codes "a.paco";
  start = record { line = 2; column = 1 };
  end = record { line = 2; column = 3 };
}

location_ordered_example :
    (second_line_at.start ≺ second_line_at.end)
    ⊎ ((second_line_at.start ≡ second_line_at.end) × ◌≡◌ {A = ℕ} 3 5)
unfolding location is_boundary len_utf8
location_ordered_example =
    location_ordered sample second_line (record { name = codes "a.paco"; text = two_lines })
      second_line_at refl refl refl refl
