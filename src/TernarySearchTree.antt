-- ===== src/TernarySearchTree.antt =====
-- ternary_search_tree.h and ternary_search_tree.cpp. A tree is a value: `NULL` is `leaf`, and a
-- function that changes nodes returns the new tree. A C string at its first character is that
-- character and what follows it up to the terminator, so `*(pos + 1) == 0` is an empty rest. A
-- `char` is its unsigned byte, compared as the signed number that it stands for.
pub mod Lookup
pub mod Erase
use mevent.Common.{
  ℕ, suc, ◌+◌, ◌%◌, Bool, true, false, List, [], ◌∷◌, ◌++◌, Option, some, none, Bytes, ltb, ◌==◌,
  if◌then◌else◌,
}

-- `NodeData`, with handlers of type `F`.
pub record NodeData {ℓ} (F : Type ℓ) : Type ℓ where
  pub str : Bytes
  pub func : F

pub data Node {ℓ} (F : Type ℓ) : Type ℓ where
  leaf : Node F
  node : Node F → Node F → Node F → Option (NodeData F) → ℕ → Node F

-- `Result`. Its doubly linked list is the list of its entries; `count` and `limit` are not negative.
pub record Result {ℓ} (F : Type ℓ) : Type ℓ where
  pub list : List (NodeData F)
  pub count : ℕ
  pub limit : ℕ

-- `a < b` on signed chars.
abbrev pub char_lt : ℕ → ℕ → Bool
char_lt a b = ltb ((a + 128) % 256) ((b + 128) % 256)

-- What is read last wins: `np->data`, if there is one, and else what was found before.
abbrev pub or_else {ℓ} : {A : Type ℓ} → Option A → Option A → Option A
or_else none before = before
or_else (some a) before = some a

-- `np->data` after an insertion that ends at `np`: an entry that is there stays.
abbrev pub keep_data {ℓ} : {A : Type ℓ} → Option A → A → Option A
keep_data none d = some d
keep_data (some e) d = some e

module _ {ℓ} {F : Type ℓ} where
  -- The private `Insert`; `np->left`, `np->center`, `np->right`, `np->data`, `np->c` in this order.
  unfoldable pub insert : Node F → ℕ → Bytes → NodeData F → Node F
  insert leaf c [] d = node leaf leaf leaf (some d) c
  insert leaf c (c' ∷ cs) d = node leaf (insert leaf c' cs d) leaf none c
  insert (node l m r e k) c [] d =
      let left = node (insert l c [] d) m r e k in
      let right = node l m (insert r c [] d) e k in
      if char_lt c k then left else if char_lt k c then right else node l m r (keep_data e d) k
  insert (node l m r e k) c (c' ∷ cs) d =
      let left = node (insert l c (c' ∷ cs) d) m r e k in
      let right = node l m (insert r c (c' ∷ cs) d) e k in
      let center = node l (insert m c' cs d) r e k in
      if char_lt c k then left else if char_lt k c then right else center

  -- The private `Search` that writes `*ndp`; `none` is an `*ndp` that nothing was written to.
  unfoldable pub search : Node F → ℕ → Bytes → Option (NodeData F) → Option (NodeData F)
  search leaf c cs found = found
  search (node l m r e k) c [] found =
      let left = search l c [] found in
      let right = search r c [] found in
      if char_lt c k then left else if char_lt k c then right else or_else e found
  search (node l m r e k) c (c' ∷ cs) found =
      let left = search l c (c' ∷ cs) found in
      let right = search r c (c' ∷ cs) found in
      let center = search m c' cs (or_else e found) in
      if char_lt c k then left else if char_lt k c then right else center

  unfoldable pub search_one : Node F → ℕ → Bytes → Option (NodeData F)
  search_one root c cs = search root c cs none

  unfoldable pub result_add : Result F → NodeData F → Result F
  result_add rp d = record rp { list = rp.list ++ d ∷ []; count = rp.count + 1 }

  unfoldable pub result_init : ℕ → Result F
  result_init limit = record { list = []; count = 0; limit = limit }

  unfoldable pub traverse : Node F → Result F → Result F
  traverse leaf rp = rp
  traverse (node l m r none k) rp = traverse r (traverse m (traverse l rp))
  traverse (node l m r (some d) k) rp =
      let added = result_add (traverse l rp) d in
      let rest = traverse r (traverse m added) in
      if ltb added.limit added.count then added else rest

  -- The private `Search` for a prefix.
  unfoldable pub search_prefix : Node F → ℕ → Bytes → Result F → Result F
  search_prefix leaf c cs rp = rp
  search_prefix (node l m r e k) c [] rp =
      let left = search_prefix l c [] rp in
      let right = search_prefix r c [] rp in
      let below = traverse m (elim e [ none ↦ rp | some d ↦ result_add rp d ]) in
      if char_lt c k then left else if char_lt k c then right else below
  search_prefix (node l m r e k) c (c' ∷ cs) rp =
      let left = search_prefix l c (c' ∷ cs) rp in
      let right = search_prefix r c (c' ∷ cs) rp in
      let center = search_prefix m c' cs rp in
      if char_lt c k then left else if char_lt k c then right else center

  -- The public `Search`.
  unfoldable pub search_all : Node F → ℕ → Bytes → ℕ → Result F
  unfolding traverse result_add result_init search_prefix
  search_all root c cs limit = search_prefix root c cs (result_init limit)
