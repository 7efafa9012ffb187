-- ===== src/Import/Sosi/Roundtrip.antt =====
-- Parsing the lines of a SOSI tree (gcimport/src/gcimport/parsers/sosi.py).
use topografisk_gdb_api.Prelude.{
  ℕ, suc, ◌≤◌, String, ◌≡◌, refl, ap, ◌∙◌, sym, arith, Bool, true, Option, List, [], ◌∷◌, ◌++◌,
  length, Result, ok, first-returned,
}
use topografisk_gdb_api.Import.Sosi.Lines.{Line, directive, record_line}
use topografisk_gdb_api.Import.Sosi.{
  NodeSpec, SosiNode, sosi_node, Children, no_children, child_node, child_coordinate,
  SosiCoordinate, SosiTree, SosiParseError, Open, State, append_node, append_coordinate, close_to,
  check_root, push, parse_node, parse_coordinate, looks_like_coordinate, attach_record, read_record,
  read_line, read_lines,
}
use topografisk_gdb_api.Import.Sosi.Stack.{
  put_node, close_to-suc, close_to_self, length-close_to, plus, plus-append_node,
  plus-append_coordinate, plus-none, read_directive-opens,
}

abbrev pub spec_of : {N : Type 0} → SosiNode N → NodeSpec
spec_of (sosi_node spec cs) = spec

-- The texts of nodes and of coordinates.
module _ {N : Type 0} (print_node : NodeSpec → String)
    (print_coordinate : SosiCoordinate N → String) where
  -- The lines of a node at a depth, with their numbers: its directive, then its children.
  unfoldable mutual
    pub lines_of : ℕ → SosiNode N → List (ℕ × Line)
    lines_of depth (sosi_node spec cs) =
        (spec.source_line, directive depth (print_node spec)) ∷ children_lines (suc depth) cs

    pub children_lines : ℕ → Children N → List (ℕ × Line)
    children_lines depth no_children = []
    children_lines depth (child_node n cs) = lines_of depth n ++ children_lines depth cs
    children_lines depth (child_coordinate c cs) =
        (c.source_line, record_line (print_coordinate c)) ∷ children_lines depth cs

module _ {N : Type 0} (parse_token : String → Option N) (is_digit : ℕ → Bool)
    (print_node : NodeSpec → String) (print_coordinate : SosiCoordinate N → String) where
  abbrev pub IsReadNode : NodeSpec → Type 0
  IsReadNode spec = parse_node (print_node spec) spec.source_line ≡ ok spec

  abbrev pub IsReadCoordinate : SosiCoordinate N → Type 0
  IsReadCoordinate c =
      (looks_like_coordinate parse_token is_digit (print_coordinate c) ≡ true)
      × (parse_coordinate parse_token is_digit (print_coordinate c) c.source_line ≡ ok c)

  -- A node whose texts read back and whose coordinates come before its child nodes, at all depths.
  unfoldable mutual
    pub IsLaidOut : SosiNode N → Type 0
    IsLaidOut (sosi_node spec cs) = IsReadNode spec × AreLaidOut cs

    pub AreLaidOut : Children N → Type 0
    AreLaidOut no_children = Unit
    AreLaidOut (child_node n cs) = IsLaidOut n × AreNodes cs
    AreLaidOut (child_coordinate c cs) = IsReadCoordinate c × AreLaidOut cs

    pub AreNodes : Children N → Type 0
    AreNodes no_children = Unit
    AreNodes (child_node n cs) = IsLaidOut n × AreNodes cs
    AreNodes (child_coordinate c cs) = ⊥

  abbrev pub read : List (ℕ × Line) → State N → Result SosiParseError (State N)
  read = read_lines parse_token is_digit

  read-append :
      (xs ys : List (ℕ × Line)) (s t : State N) → read xs s ≡ ok t → read (xs ++ ys) s ≡ read ys t
  unfolding read_lines
  read-append [] ys s t h = ap (λ (u : State N). read ys u) (cc h)
  read-append ((n, line) ∷ xs) ys s t h =
      let (u, first, rest) =
        first-returned (read_line parse_token is_digit n line s) (λ u. read xs u) t h in
      rw first (read-append xs ys u t rest)

  -- Lines that leave the parser at least `d` deep, and the state there.
  pub record Reads (d : ℕ) (lines : List (ℕ × Line)) (s : State N) (closes : State N) : Type 0 where
    pub after : State N
    pub reads : read lines s ≡ ok after
    pub room : d ≤ length after.stack
    pub closes_to : close_to d after ≡ closes

  pub Reads-append :
      (d : ℕ) (xs ys : List (ℕ × Line)) (s middle closes : State N)
      → Reads d xs s middle
      → ((t : State N) → d ≤ length t.stack → close_to d t ≡ middle → Reads d ys t closes)
      → Reads d (xs ++ ys) s closes
  Reads-append d xs ys s middle closes first later =
      let rest = later first.after first.room first.closes_to in
      record {
        after = rest.after;
        reads = read-append xs ys s first.after first.reads ∙ rest.reads;
        room = rest.room;
        closes_to = rest.closes_to;
      }

  check_root-deep :
      (d : ℕ) (tree : SosiTree N) (spec : NodeSpec) → check_root tree (suc (suc d)) spec ≡ ok tt
  unfolding check_root
  check_root-deep d tree spec = ground arith

  read_line-opens :
      (d : ℕ) (spec : NodeSpec) (s : State N)
      → d ≤ length s.stack
      → IsReadNode spec
      → check_root (close_to d s).tree (suc d) spec ≡ ok tt
      → read_line parse_token is_digit spec.source_line (directive (suc d) (print_node spec)) s
        ≡ ok (push spec (close_to d s))
  unfolding read_line
  read_line-opens d spec s room parses checks =
      read_directive-opens spec.source_line d (print_node spec) spec s room parses checks

  read_line-attaches :
      (c : SosiCoordinate N) (tree : SosiTree N) (o : Open N) (below : List (Open N))
      → IsReadCoordinate c
      → read_line parse_token is_digit c.source_line
          (record_line (print_coordinate c))
          (record { tree = tree; stack = o ∷ below })
        ≡ ok (record {
          tree = tree;
          stack = record o { children = append_coordinate o.children c } ∷ below;
        })
  unfolding read_line read_record attach_record
  read_line-attaches c tree o below (looks, parses) = rw (looks, parses) refl

  mutual
    unfolding lines_of children_lines IsLaidOut AreLaidOut AreNodes read_lines

    pub node-Reads :
        (d : ℕ) (n : SosiNode N) (s : State N)
        → d ≤ length s.stack
        → IsLaidOut n
        → check_root (close_to d s).tree (suc d) (spec_of n) ≡ ok tt
        → Reads d
            (lines_of print_node print_coordinate (suc d) n)
            s
            (put_node n (close_to d s).tree (close_to d s).stack)
    node-Reads d (sosi_node spec cs) s room (parses, laid) checks =
        let tree = (close_to d s).tree in
        let below = (close_to d s).stack in
        let o : Open N = record { spec = spec; children = no_children } in
        let r = children-Reads d cs o tree below (length-close_to d s room) laid in
        record {
          after = r.after;
          reads = rw (read_line-opens d spec s room parses checks) r.reads;
          room = omega (arith, r.room);
          closes_to =
              close_to-suc d r.after (record { spec = spec; children = cs }) tree below r.room
                r.closes_to;
        }

    children-Reads :
        (d : ℕ) (cs : Children N) (o : Open N) (tree : SosiTree N) (below : List (Open N))
        → length below ≡ d
        → AreLaidOut cs
        → Reads
            (suc d)
            (children_lines print_node print_coordinate (suc (suc d)) cs)
            (record { tree = tree; stack = o ∷ below })
            (record { tree = tree; stack = record o { children = plus o.children cs } ∷ below })
    children-Reads d no_children o tree below level laid =
        let s : State N = record { tree = tree; stack = o ∷ below } in
        record {
          after = s;
          reads = refl;
          room = omega (arith, level);
          closes_to = rw (plus-none o.children) (close_to_self s (suc d) (ap suc level));
        }
    children-Reads d (child_coordinate c cs) o tree below level (reads, laid) =
        let o' : Open N = record o { children = append_coordinate o.children c } in
        let r = children-Reads d cs o' tree below level laid in
        record {
          after = r.after;
          reads = rw (read_line-attaches c tree o below reads) r.reads;
          room = r.room;
          closes_to = rw (sym (plus-append_coordinate o.children c cs)) r.closes_to;
        }
    children-Reads d (child_node n cs) o tree below level (laid, more) =
        let s : State N = record { tree = tree; stack = o ∷ below } in
        let room : suc d ≤ length (o ∷ below) = omega (arith, level) in
        let same = close_to_self s (suc d) (ap suc level) in
        let first =
          node-Reads (suc d) n s room laid
            (check_root-deep d (close_to (suc d) s).tree (spec_of n)) in
        rw (sym (plus-append_node o.children n cs)) (
          Reads-append (suc d) _ _ s _ _ first (λ t room' closes.
            nodes-Reads d cs t (record o { children = append_node o.children n }) tree below room'
              (closes ∙ ap (λ (t : State N). put_node n t.tree t.stack) same) more))

    nodes-Reads :
        (d : ℕ) (cs : Children N) (s : State N) (o : Open N) (tree : SosiTree N)
        (below : List (Open N))
        → suc d ≤ length s.stack
        → close_to (suc d) s ≡ record { tree = tree; stack = o ∷ below }
        → AreNodes cs
        → Reads
            (suc d)
            (children_lines print_node print_coordinate (suc (suc d)) cs)
            s
            (record { tree = tree; stack = record o { children = plus o.children cs } ∷ below })
    nodes-Reads d no_children s o tree below room closes laid = record {
      after = s;
      reads = refl;
      room = room;
      closes_to = rw (plus-none o.children) closes;
    }
    nodes-Reads d (child_coordinate c cs) s o tree below room closes laid = absurd laid
    nodes-Reads d (child_node n cs) s o tree below room same (laid, more) =
        let first =
          node-Reads (suc d) n s room laid
            (check_root-deep d (close_to (suc d) s).tree (spec_of n)) in
        rw (sym (plus-append_node o.children n cs)) (
          Reads-append (suc d) _ _ s _ _ first (λ t room' closes.
            nodes-Reads d cs t (record o { children = append_node o.children n }) tree below room'
              (closes ∙ ap (λ (t : State N). put_node n t.tree t.stack) same) more))
