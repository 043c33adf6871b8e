-- ===== src/TernarySearchTree/Erase.antt =====
-- `Erase` of ternary_search_tree.cpp. A node pointer is the path from the root to the node, and the
-- variables that the loop carries are a `Trail`. A string is not empty: on an empty one the code
-- reads the data of a null node. What `Clean` frees is not seen again.
pub mod Loop
pub mod Entries
use mevent.Common.{
  ℕ, Bool, true, false, ◌||◌, not, List, [], ◌∷◌, ◌++◌, Option, some, none, Bytes, ◌==◌,
  if◌then◌else◌,
}
use mevent.TernarySearchTree.{NodeData, Node, leaf, node, char_lt}

-- A step from a node to one of its children.
pub data Direction : Type 0 where
  to_left : Direction
  to_center : Direction
  to_right : Direction

-- The steps from the root to a node.
abbrev pub NodePath : Type 0
NodePath = List Direction

-- `first_np`, `last_np` and `last_s`.
pub record Trail : Type 0 where
  pub first_np : Option NodePath
  pub last_np : Option NodePath
  pub last_s : Bytes

-- What the loop breaks with when `*s` is 0: `np` and the trail.
pub record Found : Type 0 where
  pub np : NodePath
  pub trail : Trail

-- The character at the start of a C string.
abbrev pub char_at : Bytes → ℕ
char_at [] = 0
char_at (c ∷ cs) = c

-- `if (!first_np) first_np = np;`
unfoldable pub note_first : NodePath → Trail → Trail
note_first np trail = record trail {
  first_np = elim trail.first_np [ none ↦ some np | some p ↦ some p ];
}

module _ {ℓ} {F : Type ℓ} where
  abbrev pub is_null : Node F → Bool
  is_null leaf = true
  is_null (node l m r e k) = false

  -- The end of the loop's body at the node at `np`, which is not null; `rest` is `s + 1`.
  unfoldable pub note_last : Node F → NodePath → Bytes → Trail → Trail
  note_last leaf np rest trail = trail
  note_last (node l m r e k) np rest trail =
      if not (is_null l) || not (is_null r)
      then record trail { last_np = some np; last_s = rest }
      else trail

  -- The loop, at the node at `np` and the string of `c` and `cs`. `none` is a way out of it that
  -- leaves `*s` other than 0, so that the function returns.
  unfoldable pub descend : Node F → NodePath → Trail → ℕ → Bytes → Option Found
  descend leaf np trail c cs = none
  descend (node l m r e k) np trail c [] =
      let missed = record trail { last_s = c ∷ [] } in
      let left = descend l (np ++ to_left ∷ []) (note_last l (np ++ to_left ∷ []) [] missed) c [] in
      let right =
        descend r (np ++ to_right ∷ []) (note_last r (np ++ to_right ∷ []) [] missed) c [] in
      if c == k
      then some (record { np = np; trail = note_first np trail })
      else if char_lt c k
      then left
      else right
  descend (node l m r e k) np trail c (c' ∷ cs) =
      let missed = record trail { last_s = c ∷ c' ∷ cs } in
      let left =
        descend l (np ++ to_left ∷ []) (note_last l (np ++ to_left ∷ []) (c' ∷ cs) missed) c
          (c' ∷ cs) in
      let right =
        descend r (np ++ to_right ∷ []) (note_last r (np ++ to_right ∷ []) (c' ∷ cs) missed) c
          (c' ∷ cs) in
      let center =
        descend m (np ++ to_center ∷ [])
          (note_last m (np ++ to_center ∷ []) cs (note_first np trail)) c' cs in
      if c == k then center else if char_lt c k then left else right

  -- The tree after an assignment to the node at the end of a path.
  unfoldable pub update : NodePath → (Node F → Node F) → Node F → Node F
  update [] f t = f t
  update (d ∷ p) f leaf = leaf
  update (to_left ∷ p) f (node l m r e k) = node (update p f l) m r e k
  update (to_center ∷ p) f (node l m r e k) = node l (update p f m) r e k
  update (to_right ∷ p) f (node l m r e k) = node l m (update p f r) e k

  unfoldable pub node_at : NodePath → Node F → Node F
  node_at [] t = t
  node_at (d ∷ p) leaf = leaf
  node_at (to_left ∷ p) (node l m r e k) = node_at p l
  node_at (to_center ∷ p) (node l m r e k) = node_at p m
  node_at (to_right ∷ p) (node l m r e k) = node_at p r

  abbrev pub center_of : Node F → Node F
  center_of leaf = leaf
  center_of (node l m r e k) = m

  abbrev pub data_of : Node F → Option (NodeData F)
  data_of leaf = none
  data_of (node l m r e k) = e

  -- `np->data = NULL`
  unfoldable pub clear_data : Node F → Node F
  clear_data leaf = leaf
  clear_data (node l m r e k) = node l m r none k

  -- `Clean(first_np->center); first_np->center = NULL`
  unfoldable pub clear_center : Node F → Node F
  clear_center leaf = leaf
  clear_center (node l m r e k) = node l leaf r e k

  -- `child && child->c == c`
  abbrev pub is_at : Node F → ℕ → Bool
  is_at leaf c = false
  is_at (node l m r e k) c = k == c

  -- The first child of `last_np` whose character is `*last_s` goes.
  unfoldable pub clear_child : ℕ → Node F → Node F
  clear_child c leaf = leaf
  clear_child c (node l m r e k) =
      if is_at l c
      then node leaf m r e k
      else if is_at r c
      then node l m leaf e k
      else if is_at m c
      then node l leaf r e k
      else node l m r e k

  -- `Clean` at `last_np`, or at `first_np` where there is no `last_np`; `c` is `*last_s`.
  unfoldable pub clean_branch : Option NodePath → Option NodePath → ℕ → Node F → Node F
  clean_branch (some last) first c t = update last (clear_child c) t
  clean_branch none (some first) c t = update first clear_center t
  clean_branch none none c t = t

  -- What follows `if (*s != 0) return`, with the data and the child that `np` has.
  unfoldable pub erase_found : Option (NodeData F) → Node F → Found → Node F → Node F
  erase_found none center found root = root
  erase_found (some d) (node l m r e k) found root = update found.np clear_data root
  erase_found (some d) leaf found root =
      clean_branch found.trail.last_np found.trail.first_np (char_at found.trail.last_s)
        (update found.np clear_data root)

  unfoldable pub after_loop : Node F → Option Found → Node F
  after_loop root none = root
  after_loop root (some found) =
      let np = node_at found.np root in erase_found (data_of np) (center_of np) found root

  unfoldable pub erase : Node F → ℕ → Bytes → Node F
  unfolding descend note_first note_last update node_at clear_data clear_center clear_child
      clean_branch erase_found after_loop
  erase root c cs =
      after_loop root
        (descend root [] (record { first_np = none; last_np = none; last_s = c ∷ cs }) c cs)
