-- ===== src/Import/Sosi.antt =====
-- gcimport/src/gcimport/parsers/sosi.py: SOSI text to a tree of records, and its statistics.
-- Parameters: `int` and then `float` on a token, and `str.isdigit` on a character.
pub mod Lines
pub mod Stack
pub mod Roundtrip
pub mod Trees
mod Tests
use topografisk_gdb_api.Prelude.{
  ℕ, zero, suc, ◌+◌, ◌-◌, String, Bool, true, false, not, ◌&&◌, ◌||◌, Option, none, some, List, [],
  ◌∷◌, ◌++◌, map, ◌==◌, eqb, ltb, leb, if◌then◌else◌, is_some, length, coalesce, Result, ok, err,
  ◌>>=◌, ◌>>◌, raise_if, or_raise, map_result,
}
use topografisk_gdb_api.Prelude.Dict
use topografisk_gdb_api.Prelude.Dict.{Dict}
use topografisk_gdb_api.Prelude.Text.{concat, is_empty}
use topografisk_gdb_api.Import.Sosi.Lines.{
  Line, blank, directive, record_line, split_lines, classify, without_mark, without_colon,
  partition_space, stripped_or_none, segments_of, words, starts_number,
}

pub record SosiInlineAttribute : Type 0 where
  pub name : String
  pub value : Option String

pub record SosiCoordinate (N : Type 0) : Type 0 where
  pub values : List N
  pub attributes : List SosiInlineAttribute
  pub source_line : ℕ

-- The fields of `SosiNode`, but for its children.
pub record NodeSpec : Type 0 where
  pub name : String
  pub value : Option String
  pub source_line : ℕ

mutual
  pub data SosiNode (N : Type 0) : Type 0 where
    sosi_node : NodeSpec → Children N → SosiNode N

  pub data Children (N : Type 0) : Type 0 where
    no_children : Children N
    child_node : SosiNode N → Children N → Children N
    child_coordinate : SosiCoordinate N → Children N → Children N

pub record SosiTree (N : Type 0) : Type 0 where
  pub header : Option (SosiNode N)
  pub footer : Option (SosiNode N)
  pub children : List (SosiNode N)

-- `SosiParseError`, by its message and its line.
pub data SosiParseError : Type 0 where
  invalid_depth no_parent empty_directive duplicate_header duplicate_footer : ℕ → SosiParseError
  no_values empty_attribute : ℕ → SosiParseError
  invalid_value : ℕ → String → SosiParseError

-- A node of the parser's stack: what it has so far.
pub record Open (N : Type 0) : Type 0 where
  pub spec : NodeSpec
  pub children : Children N

-- The tree and the stack above it, innermost first. The code puts a node into its parent when it
-- reads the node, and goes on to fill it; here the node is put there when the parser leaves it,
-- which is before its parent gets another child, and before the tree is returned.
pub record State (N : Type 0) : Type 0 where
  pub tree : SosiTree N
  pub stack : List (Open N)

-- `_parse_node`
unfoldable pub parse_node : String → ℕ → Result SosiParseError NodeSpec
parse_node payload source_line =
    raise_if (is_empty payload) (empty_directive source_line)
    >> let (name, remainder) = partition_space (without_colon payload) in
      ok (record { name = name; value = stripped_or_none remainder; source_line = source_line })

-- `_parse_inline_attribute`
unfoldable pub parse_inline_attribute : ℕ → String → Result SosiParseError SosiInlineAttribute
parse_inline_attribute source_line payload =
    let (name, remainder) = partition_space payload in
    raise_if (is_empty name) (empty_attribute source_line)
    >> ok (record { name = name; value = stripped_or_none remainder })

abbrev pub filled_segments : List String → List String
filled_segments [] = []
filled_segments (s ∷ ss) = let rest = filled_segments ss in if is_empty s then rest else s ∷ rest

abbrev pub head_segment : List String → String
head_segment [] = ""
head_segment (s ∷ ss) = s

abbrev pub tail_segments : List String → List String
tail_segments [] = []
tail_segments (s ∷ ss) = ss

module _ {N : Type 0} where
  abbrev pub append_node : Children N → SosiNode N → Children N
  append_node no_children n = child_node n no_children
  append_node (child_node m cs) n = child_node m (append_node cs n)
  append_node (child_coordinate c cs) n = child_coordinate c (append_node cs n)

  abbrev pub append_coordinate : Children N → SosiCoordinate N → Children N
  append_coordinate no_children c = child_coordinate c no_children
  append_coordinate (child_node m cs) c = child_node m (append_coordinate cs c)
  append_coordinate (child_coordinate d cs) c = child_coordinate d (append_coordinate cs c)

  abbrev pub closed : Open N → SosiNode N
  closed o = sosi_node o.spec o.children

  -- Where a node of the first level belongs.
  abbrev pub attach_root : SosiTree N → SosiNode N → SosiTree N
  attach_root tree (sosi_node spec cs) =
      if spec.name == "HODE"
      then record tree { header = some (sosi_node spec cs) }
      else if spec.name == "SLUTT"
      then record tree { footer = some (sosi_node spec cs) }
      else record tree { children = tree.children ++ sosi_node spec cs ∷ [] }

  -- `while len(stack) > depth: stack.pop()`, where `n` nodes are above `depth`.
  unfoldable pub pop_nodes : ℕ → SosiTree N → List (Open N) → State N
  pop_nodes zero tree stack = record { tree = tree; stack = stack }
  pop_nodes (suc n) tree [] = record { tree = tree; stack = [] }
  pop_nodes (suc n) tree (o ∷ []) = pop_nodes n (attach_root tree (closed o)) []
  pop_nodes (suc n) tree (o ∷ parent ∷ stack) =
      pop_nodes n tree (record parent { children = append_node parent.children (closed o) } ∷ stack)

  abbrev pub close_to : ℕ → State N → State N
  close_to depth s = pop_nodes (length s.stack - depth) s.tree s.stack

  -- The checks of `_attach_node`.
  unfoldable pub check_root : SosiTree N → ℕ → NodeSpec → Result SosiParseError (Unit {0})
  check_root tree depth spec =
      raise_if (eqb depth 1 && spec.name == "HODE" && is_some tree.header)
        (duplicate_header spec.source_line)
      >> raise_if (eqb depth 1 && spec.name == "SLUTT" && is_some tree.footer)
          (duplicate_footer spec.source_line)

  abbrev pub push : NodeSpec → State N → State N
  push spec s = record s { stack = record { spec = spec; children = no_children } ∷ s.stack }

  -- A directive of at least one dot. The code's stack holds the tree below the nodes.
  unfoldable pub read_directive : ℕ → ℕ → String → State N → Result SosiParseError (State N)
  unfolding check_root
  read_directive source_line depth payload s =
      raise_if (ltb (length s.stack + 1) depth) (invalid_depth source_line)
      >> parse_node payload source_line
      >>= λ spec.
          let s' = close_to (depth - 1) s in check_root s'.tree depth spec >> ok (push spec s')

module _ {N : Type 0} (parse_token : String → Option N) (is_digit : ℕ → Bool) where
  -- `_parse_number` for each token.
  unfoldable pub parse_numbers : ℕ → List String → Result SosiParseError (List N)
  parse_numbers source_line tokens =
      map_result (λ token. or_raise (parse_token token) (invalid_value source_line token)) tokens

  -- `_parse_coordinate`
  unfoldable pub parse_coordinate : String → ℕ → Result SosiParseError (SosiCoordinate N)
  unfolding parse_numbers parse_inline_attribute
  parse_coordinate payload source_line =
      let segments = segments_of payload in
      raise_if (is_empty (head_segment segments)) (no_values source_line)
      >> parse_numbers source_line (words (head_segment segments))
      >>= λ values.
          map_result (parse_inline_attribute source_line) (filled_segments (tail_segments segments))
          >>= λ attributes.
              ok (record { values = values; attributes = attributes; source_line = source_line })

  -- `_looks_like_coordinate_payload`
  unfoldable pub looks_like_coordinate : String → Bool
  looks_like_coordinate payload =
      starts_number is_digit (head_segment (words (head_segment (segments_of payload))))

  -- `_append_continuation`
  abbrev pub append_continuation : NodeSpec → String → NodeSpec
  append_continuation spec payload = record spec {
    value = some (elim spec.value [ none ↦ payload | some v ↦ concat (v ∷ " " ∷ payload ∷ []) ]);
  }

  -- `_attach_record`
  unfoldable pub attach_record : ℕ → String → Open N → Result SosiParseError (Open N)
  unfolding looks_like_coordinate
  attach_record source_line payload o =
      if looks_like_coordinate payload
      then (parse_coordinate payload source_line >>= λ c.
          ok (record o { children = append_coordinate o.children c }))
      else ok (record o { spec = append_continuation o.spec payload })

  abbrev pub with_top :
      SosiTree N → List (Open N) → Result SosiParseError (Open N) → Result SosiParseError (State N)
  with_top tree stack top = top >>= λ o. ok (record { tree = tree; stack = o ∷ stack })

  unfoldable pub read_record :
      ℕ → String → SosiTree N → List (Open N) → Result SosiParseError (State N)
  unfolding attach_record
  read_record source_line payload tree [] = err (no_parent source_line)
  read_record source_line payload tree (o ∷ stack) =
      with_top tree stack (attach_record source_line payload o)

  -- The body of the loop of `parse_text`.
  unfoldable pub read_line : ℕ → Line → State N → Result SosiParseError (State N)
  unfolding read_directive read_record
  read_line source_line blank s = ok s
  read_line source_line (directive depth payload) s = read_directive source_line depth payload s
  read_line source_line (record_line payload) s = read_record source_line payload s.tree s.stack

  unfoldable pub read_lines : List (ℕ × Line) → State N → Result SosiParseError (State N)
  unfolding read_line
  read_lines [] s = ok s
  read_lines ((source_line, line) ∷ lines) s =
      read_line source_line line s >>= λ s'. read_lines lines s'

  abbrev pub numbered : ℕ → List Line → List (ℕ × Line)
  numbered n [] = []
  numbered n (line ∷ lines) = (n, line) ∷ numbered (suc n) lines

  abbrev pub no_state : State N
  no_state = record { tree = record { header = none; footer = none; children = [] }; stack = [] }

  unfoldable pub parse_lines : List (ℕ × Line) → Result SosiParseError (SosiTree N)
  unfolding read_lines
  parse_lines lines = read_lines lines no_state >>= λ s. ok (close_to 0 s).tree

  -- `parse_text`
  unfoldable pub parse_text : String → Result SosiParseError (SosiTree N)
  unfolding parse_lines
  parse_text text = parse_lines (numbered 1 (map classify (split_lines (without_mark text))))

-- `_direct_child_value`: the value of the first child node of the name.
unfoldable pub direct_child_value : {N : Type 0} → String → Children N → Option String
direct_child_value name no_children = none
direct_child_value name (child_node (sosi_node spec below) cs) =
    if spec.name == name then spec.value else direct_child_value name cs
direct_child_value name (child_coordinate c cs) = direct_child_value name cs

-- `_iter_coordinates`
unfoldable mutual
  pub iter_coordinates : {N : Type 0} → SosiNode N → List (SosiCoordinate N)
  iter_coordinates (sosi_node spec cs) = iter_children cs

  pub iter_children : {N : Type 0} → Children N → List (SosiCoordinate N)
  iter_children no_children = []
  iter_children (child_node n cs) = iter_coordinates n ++ iter_children cs
  iter_children (child_coordinate c cs) = c ∷ iter_children cs

pub record SosiStats : Type 0 where
  pub has_header : Bool
  pub has_footer : Bool
  pub total_objects : ℕ
  pub object_types : Dict ℕ
  pub objtypes : Dict ℕ
  pub coordinate_records : ℕ
  pub coordinate_attribute_counts : Dict ℕ

-- `counter[key] += n`
unfoldable pub count_up : String → ℕ → Dict ℕ → Dict ℕ
count_up key n d = Dict.put key (elim (Dict.get key d) [ none ↦ n | some m ↦ m + n ]) d

unfoldable pub count_all : List String → Dict ℕ → Dict ℕ
unfolding count_up
count_all [] d = d
count_all (key ∷ keys) d = count_all keys (count_up key 1 d)

abbrev pub attribute_names : List SosiInlineAttribute → List String
attribute_names as' = map (λ (a : SosiInlineAttribute). a.name) as'

module _ {N : Type 0} where
  abbrev pub count_coordinates : List (SosiCoordinate N) → Dict ℕ → Dict ℕ
  count_coordinates [] d = d
  count_coordinates (c ∷ cs) d = count_coordinates cs (count_all (attribute_names c.attributes) d)

  -- The counters after one object of the first level.
  unfoldable pub count_object : SosiNode N → SosiStats → SosiStats
  unfolding count_all direct_child_value
  count_object (sosi_node spec cs) stats =
      let coordinates = iter_children cs in
      record stats {
        object_types = count_up spec.name 1 stats.object_types;
        objtypes = elim (direct_child_value "OBJTYPE" cs) [
          | none ↦ stats.objtypes
          | some objtype ↦ count_up objtype 1 stats.objtypes
        ];
        coordinate_records = stats.coordinate_records + length coordinates;
        coordinate_attribute_counts =
            count_coordinates coordinates stats.coordinate_attribute_counts;
      }

  unfoldable pub count_objects : List (SosiNode N) → SosiStats → SosiStats
  unfolding count_object
  count_objects [] stats = stats
  count_objects (n ∷ ns) stats = count_objects ns (count_object n stats)

  -- `summarize_tree`
  unfoldable pub summarize_tree : SosiTree N → SosiStats
  unfolding count_objects
  summarize_tree tree = count_objects tree.children (record {
    has_header = is_some tree.header;
    has_footer = is_some tree.footer;
    total_objects = length tree.children;
    object_types = [];
    objtypes = [];
    coordinate_records = 0;
    coordinate_attribute_counts = [];
  })
