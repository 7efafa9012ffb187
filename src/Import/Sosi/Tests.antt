-- ===== src/Import/Sosi/Tests.antt =====
-- A small SOSI tree and its lines.
use topografisk_gdb_api.Import.Sosi.Lines.{
  partition_space, without_colon, split_dots, segments_of, split_words, words,
}
use topografisk_gdb_api.Prelude.{
  ℕ, String, ◌≡◌, refl, Bool, ◌&&◌, leb, Option, none, some, [], ◌∷◌, ok, map_result,
}
use topografisk_gdb_api.Prelude.Text.{concat, strip, has_prefix, drop_chars}
use topografisk_gdb_api.Import.Sosi.{
  NodeSpec, SosiNode, sosi_node, no_children, child_node, child_coordinate, SosiCoordinate,
  SosiTree, parse_node, parse_lines, parse_numbers, parse_inline_attribute, parse_coordinate,
  looks_like_coordinate,
}
use topografisk_gdb_api.Import.Sosi.Roundtrip.{IsLaidOut}
use topografisk_gdb_api.Import.Sosi.Trees.{roots_of, roots_lines, parse_lines-roots_lines}

abbrev token_of : String → Option ℕ
token_of s = some 7

abbrev digit : ℕ → Bool
digit c = leb 48 c && leb c 57

abbrev node_text : NodeSpec → String
node_text spec = elim spec.value [ none ↦ spec.name | some v ↦ concat (spec.name ∷ " " ∷ v ∷ []) ]

abbrev coordinate_text : SosiCoordinate ℕ → String
coordinate_text c = "7 7"

abbrev spec : String → Option String → ℕ → NodeSpec
spec name value source_line = record { name = name; value = value; source_line = source_line }

abbrev bare : String → ℕ → SosiNode ℕ
bare name source_line = sosi_node (spec name none source_line) no_children

abbrev curve : SosiNode ℕ
curve = sosi_node (spec "KURVE" (some "1") 2) (
    child_coordinate (record { values = 7 ∷ 7 ∷ []; attributes = []; source_line = 3 })
      (child_node (sosi_node (spec "OBJTYPE" (some "Spormidt") 4) no_children) no_children))

abbrev small : SosiTree ℕ
small = record {
  header = some (bare "HODE" 1);
  footer = some (bare "SLUTT" 5);
  children = curve ∷ [];
}

parse_lines-roots_lines_example :
    parse_lines token_of digit (roots_lines node_text coordinate_text (roots_of small)) ≡ ok small
unfolding IsLaidOut parse_node parse_coordinate looks_like_coordinate parse_numbers map_result
    partition_space strip without_colon segments_of words split_words split_dots has_prefix
    drop_chars parse_inline_attribute
parse_lines-roots_lines_example =
    parse_lines-roots_lines token_of digit node_text coordinate_text small
      (refl, ((refl, refl), tt), refl)
      ((refl, tt), ((refl, ((refl, refl), ((refl, tt), tt))), ((refl, tt), tt)))
