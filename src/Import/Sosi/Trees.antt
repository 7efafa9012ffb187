-- ===== src/Import/Sosi/Trees.antt =====
-- A SOSI tree and its lines (gcimport/src/gcimport/parsers/sosi.py).
use mathlib.Core.List.{append_assoc, append-nil}
use mathlib.Core.Path.{subst}
use topografisk_gdb_api.Prelude.{
  ℕ, String, ◌≡◌, refl, ap, ◌∙◌, sym, arith, Bool, true, false, Option, none, some, List, [], ◌∷◌,
  ◌++◌, All, ◌==◌, if◌then◌else◌, ok,
}
use topografisk_gdb_api.Import.Sosi.Lines.{Line}
use topografisk_gdb_api.Import.Sosi.{
  NodeSpec, SosiNode, sosi_node, Children, SosiCoordinate, SosiTree, State, attach_root, close_to,
  check_root, no_state, read_lines, parse_lines,
}
use topografisk_gdb_api.Import.Sosi.Stack.{put_node, close_to_self}
use topografisk_gdb_api.Import.Sosi.Roundtrip.{
  spec_of, lines_of, IsLaidOut, Reads, Reads-append, node-Reads,
}

module _ {N : Type 0} where
  -- The nodes of the first level: the header, the objects and the footer.
  abbrev pub option_list : Option (SosiNode N) → List (SosiNode N)
  option_list none = []
  option_list (some n) = n ∷ []

  abbrev pub roots_of : SosiTree N → List (SosiNode N)
  roots_of tree = option_list tree.header ++ (tree.children ++ option_list tree.footer)

  abbrev pub IsNamed : String → Option (SosiNode N) → Type 0
  IsNamed name none = Unit
  IsNamed name (some n) = (spec_of n).name ≡ name

  abbrev pub IsObject : SosiNode N → Type 0
  IsObject n = ((spec_of n).name == "HODE" ≡ false) × ((spec_of n).name == "SLUTT" ≡ false)

  -- The header and the footer have their names, and no object has one of these.
  abbrev pub IsSosiTree : SosiTree N → Type 0
  IsSosiTree tree =
      IsNamed "HODE" tree.header × All IsObject tree.children × IsNamed "SLUTT" tree.footer

  -- Nodes of the first level that make the second tree of the first.
  abbrev Attach : SosiTree N → List (SosiNode N) → SosiTree N → Type 0
  Attach tree [] whole = tree ≡ whole
  Attach tree (n ∷ ns) whole =
      (check_root tree 1 (spec_of n) ≡ ok tt) × Attach (attach_root tree n) ns whole

  Attach-objects :
      (ns ms : List (SosiNode N)) (tree whole : SosiTree N)
      → All IsObject ns
      → Attach (record tree { children = tree.children ++ ns }) ms whole
      → Attach tree (ns ++ ms) whole
  unfolding check_root
  Attach-objects [] ms tree whole h k =
      subst (λ (cs : List (SosiNode N)). Attach (record tree { children = cs }) ms whole)
        (append-nil tree.children) k
  Attach-objects (sosi_node spec cs ∷ ns) ms tree whole ((other, same), h) k = (
    rw (other, same) refl,
    rw (other, same)
        (Attach-objects ns ms (record tree { children = tree.children ++ sosi_node spec cs ∷ [] })
          whole h
          (subst (λ (cs : List (SosiNode N)). Attach (record tree { children = cs }) ms whole)
            (sym (append_assoc tree.children (sosi_node spec cs ∷ []) ns)) k)),
  )

  Attach-footer :
      (footer header : Option (SosiNode N)) (ns : List (SosiNode N))
      → IsNamed "SLUTT" footer
      → Attach
          (record { header = header; footer = none; children = ns })
          (option_list footer)
          (record { header = header; footer = footer; children = ns })
  unfolding check_root
  Attach-footer none header ns h = refl
  Attach-footer (some (sosi_node spec cs)) header ns h = (rw h refl, rw h refl)

  abbrev no_tree : SosiTree N
  no_tree = record { header = none; footer = none; children = [] }

  attach_root-header :
      (spec : NodeSpec) (cs : Children N) (tree : SosiTree N)
      → spec.name ≡ "HODE"
      → attach_root tree (sosi_node spec cs) ≡ record tree { header = some (sosi_node spec cs) }
  attach_root-header spec cs tree h =
      let named : spec.name == "HODE" ≡ true = ap (λ (s : String). s == "HODE") h in
      ap
        (λ (b : Bool).
          if b
          then record tree { header = some (sosi_node spec cs) }
          else if spec.name == "SLUTT"
          then record tree { footer = some (sosi_node spec cs) }
          else record tree { children = tree.children ++ sosi_node spec cs ∷ [] })
        named

  Attach-header :
      (header : Option (SosiNode N)) (ns : List (SosiNode N)) (whole : SosiTree N)
      → IsNamed "HODE" header
      → Attach (record { header = header; footer = none; children = [] }) ns whole
      → Attach no_tree (option_list header ++ ns) whole
  unfolding check_root
  Attach-header none ns whole h k = k
  Attach-header (some (sosi_node spec cs)) ns whole h k = (
    rw h refl,
    subst (λ (t : SosiTree N). Attach t ns whole) (sym (attach_root-header spec cs no_tree h)) k,
  )

  Attach-roots : (tree : SosiTree N) → IsSosiTree tree → Attach no_tree (roots_of tree) tree
  Attach-roots tree (first, objects, last) =
      Attach-header tree.header (tree.children ++ option_list tree.footer) tree first (
        Attach-objects tree.children (option_list tree.footer)
          (record { header = tree.header; footer = none; children = [] }) tree objects
          (Attach-footer tree.footer tree.header tree.children last))

module _ {N : Type 0} (print_node : NodeSpec → String)
    (print_coordinate : SosiCoordinate N → String) where
  -- The lines of nodes of the first level.
  unfoldable pub roots_lines : List (SosiNode N) → List (ℕ × Line)
  roots_lines [] = []
  roots_lines (n ∷ ns) = lines_of print_node print_coordinate 1 n ++ roots_lines ns

module _ {N : Type 0} (parse_token : String → Option N) (is_digit : ℕ → Bool)
    (print_node : NodeSpec → String) (print_coordinate : SosiCoordinate N → String) where
  roots-Reads :
      (ns : List (SosiNode N)) (s : State N) (tree whole : SosiTree N)
      → close_to 0 s ≡ record { tree = tree; stack = [] }
      → All (λ n. IsLaidOut parse_token is_digit print_node print_coordinate n) ns
      → Attach tree ns whole
      → Reads parse_token is_digit print_node print_coordinate 0
          (roots_lines print_node print_coordinate ns)
          s
          (record { tree = whole; stack = [] })
  unfolding roots_lines read_lines
  roots-Reads [] s tree whole closes laid same = record {
    after = s;
    reads = refl;
    room = omega arith;
    closes_to = rw (sym same) closes;
  }
  roots-Reads (n ∷ ns) s tree whole closes (laid, more) (checks, attached) =
      let first =
        node-Reads parse_token is_digit print_node print_coordinate 0 n s (omega arith) laid
          (rw closes checks) in
      Reads-append parse_token is_digit print_node print_coordinate 0 _ _ s _ _ first
        (λ t room closes'.
          roots-Reads ns t (attach_root tree n) whole
            (closes' ∙ ap (λ (u : State N). put_node n u.tree u.stack) closes) more attached)

  -- The lines of a SOSI tree are parsed back to the tree, where the texts of its nodes and
  -- coordinates are read back one by one and the coordinates of every node stand before its child
  -- nodes. The header comes first and the footer last.
  pub parse_lines-roots_lines :
      (tree : SosiTree N)
      → IsSosiTree tree
      → All (λ n. IsLaidOut parse_token is_digit print_node print_coordinate n) (roots_of tree)
      → parse_lines parse_token is_digit (roots_lines print_node print_coordinate (roots_of tree))
        ≡ ok tree
  unfolding parse_lines
  parse_lines-roots_lines tree whole laid =
      let start : State N = no_state parse_token is_digit in
      let r =
        roots-Reads (roots_of tree) start no_tree tree (close_to_self start 0 refl) laid
          (Attach-roots tree whole) in
      rw r.reads (ap (λ (s : State N). ok s.tree) r.closes_to)
