-- ===== src/Import/Sosi/Stack.antt =====
-- The stack of open nodes of the SOSI parser (gcimport/src/gcimport/parsers/sosi.py).
use topografisk_gdb_api.Prelude.{
  ℕ, zero, suc, ◌+◌, ◌-◌, ◌≤◌, String, ◌≡◌, refl, ap, ◌∙◌, sym, arith, false, List, [], ◌∷◌, length,
  ok, ltb,
}
use topografisk_gdb_api.Import.Sosi.{
  NodeSpec, SosiNode, Children, no_children, child_node, child_coordinate, SosiCoordinate, SosiTree,
  Open, State, append_node, append_coordinate, closed, attach_root, pop_nodes, close_to, check_root,
  push, read_directive, parse_node,
}

module _ {N : Type 0} where
  -- A node that is put into the innermost open node, or into the tree where none is open.
  abbrev pub put_node : SosiNode N → SosiTree N → List (Open N) → State N
  put_node n tree [] = record { tree = attach_root tree n; stack = [] }
  put_node n tree (o ∷ stack) = record {
    tree = tree;
    stack = record o { children = append_node o.children n } ∷ stack;
  }

  pop_nodes-one :
      (o : Open N) (tree : SosiTree N) (stack : List (Open N))
      → pop_nodes 1 tree (o ∷ stack) ≡ put_node (closed o) tree stack
  unfolding pop_nodes
  pop_nodes-one o tree [] = refl
  pop_nodes-one o tree (p ∷ stack) = refl

  pop_nodes-none :
      (n : ℕ) (tree : SosiTree N) → pop_nodes n tree [] ≡ record { tree = tree; stack = [] }
  unfolding pop_nodes
  pop_nodes-none zero tree = refl
  pop_nodes-none (suc n) tree = refl

  pop_nodes-add :
      (n m : ℕ) (tree : SosiTree N) (stack : List (Open N))
      → pop_nodes (n + m) tree stack
        ≡ pop_nodes m (pop_nodes n tree stack).tree (pop_nodes n tree stack).stack
  unfolding pop_nodes
  pop_nodes-add zero m tree stack = let zero_add : 0 + m ≡ m = omega arith in rw zero_add refl
  pop_nodes-add (suc n) m tree [] =
      let suc_add : suc n + m ≡ suc (n + m) = omega arith in
      rw suc_add (sym (pop_nodes-none m tree))
  pop_nodes-add (suc n) m tree (o ∷ []) =
      let suc_add : suc n + m ≡ suc (n + m) = omega arith in
      rw suc_add (pop_nodes-add n m (attach_root tree (closed o)) [])
  pop_nodes-add (suc n) m tree (o ∷ p ∷ stack) =
      let suc_add : suc n + m ≡ suc (n + m) = omega arith in
      rw suc_add
        (pop_nodes-add n m tree (record p { children = append_node p.children (closed o) } ∷ stack))

  length-pop_nodes :
      (n : ℕ) (tree : SosiTree N) (stack : List (Open N))
      → length (pop_nodes n tree stack).stack ≡ length stack - n
  unfolding pop_nodes
  length-pop_nodes zero tree stack = omega arith
  length-pop_nodes (suc n) tree [] = omega arith
  length-pop_nodes (suc n) tree (o ∷ []) =
      omega (arith, length-pop_nodes n (attach_root tree (closed o)) [])
  length-pop_nodes (suc n) tree (o ∷ p ∷ stack) = omega (
    arith,
    length-pop_nodes n tree (record p { children = append_node p.children (closed o) } ∷ stack),
  )

  -- Closing one node more.
  pub close_to-suc :
      (d : ℕ) (s : State N) (o : Open N) (tree : SosiTree N) (stack : List (Open N))
      → suc d ≤ length s.stack
      → close_to (suc d) s ≡ record { tree = tree; stack = o ∷ stack }
      → close_to d s ≡ put_node (closed o) tree stack
  close_to-suc d s o tree stack h closes =
      let split : length s.stack - d ≡ (length s.stack - suc d) + 1 = omega (arith, h) in
      rw split (
        pop_nodes-add (length s.stack - suc d) 1 s.tree s.stack
        ∙ (ap (λ (t : State N). pop_nodes 1 t.tree t.stack) closes ∙ pop_nodes-one o tree stack))

  -- Nothing is closed at the depth of the stack.
  pub close_to_self : (s : State N) (d : ℕ) → length s.stack ≡ d → close_to d s ≡ s
  unfolding pop_nodes
  close_to_self s d h = let none : length s.stack - d ≡ 0 = omega (arith, h) in rw none refl

  pub length-close_to : (d : ℕ) (s : State N) → d ≤ length s.stack → length (close_to d s).stack ≡ d
  length-close_to d s h = omega (arith, h, length-pop_nodes (length s.stack - d) s.tree s.stack)

  -- One children list after the other.
  abbrev pub plus : Children N → Children N → Children N
  plus no_children cs = cs
  plus (child_node n xs) cs = child_node n (plus xs cs)
  plus (child_coordinate c xs) cs = child_coordinate c (plus xs cs)

  pub plus-append_node :
      (xs : Children N) (n : SosiNode N) (cs : Children N)
      → plus (append_node xs n) cs ≡ plus xs (child_node n cs)
  plus-append_node no_children n cs = refl
  plus-append_node (child_node m xs) n cs = ap (child_node m) (plus-append_node xs n cs)
  plus-append_node (child_coordinate c xs) n cs = ap (child_coordinate c) (plus-append_node xs n cs)

  pub plus-append_coordinate :
      (xs : Children N) (c : SosiCoordinate N) (cs : Children N)
      → plus (append_coordinate xs c) cs ≡ plus xs (child_coordinate c cs)
  plus-append_coordinate no_children c cs = refl
  plus-append_coordinate (child_node m xs) c cs = ap (child_node m) (plus-append_coordinate xs c cs)
  plus-append_coordinate (child_coordinate d xs) c cs =
      ap (child_coordinate d) (plus-append_coordinate xs c cs)

  pub plus-none : (xs : Children N) → plus xs no_children ≡ xs
  plus-none no_children = refl
  plus-none (child_node m xs) = ap (child_node m) (plus-none xs)
  plus-none (child_coordinate d xs) = ap (child_coordinate d) (plus-none xs)

  -- A directive that the stack has room for opens its node.
  pub read_directive-opens :
      (source_line d : ℕ) (payload : String) (spec : NodeSpec) (s : State N)
      → d ≤ length s.stack
      → parse_node payload source_line ≡ ok spec
      → check_root (close_to d s).tree (suc d) spec ≡ ok tt
      → read_directive source_line (suc d) payload s ≡ ok (push spec (close_to d s))
  unfolding read_directive
  read_directive-opens source_line d payload spec s room parses checks =
      let level : suc d - 1 ≡ d = omega arith in
      let fits : ltb (length s.stack + 1) (suc d) ≡ false = ground (arith, room) in
      rw (fits, parses, level, checks) refl
