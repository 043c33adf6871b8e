-- ===== src/TernarySearchTree/Lookup.antt =====
-- The tree as a map from strings to entries, and `SearchOne` as a longest-prefix match in it.
use mevent.Common.{
  ℕ, ◌<◌, ◌≡◌, refl, sym, ap, ◌∙◌, Bool, true, false, ◌&&◌, [], ◌∷◌, Option, none, Bytes, ◌==◌,
  if◌then◌else◌, arith, fun_ext, Bool-cases, inl, inr, IsBytes,
}
use mevent.TernarySearchTree.{
  NodeData, Node, leaf, node, char_lt, or_else, keep_data, insert, search, search_one, search_one,
}

-- Equality of strings.
abbrev pub same : Bytes → Bytes → Bool
same [] [] = true
same (x ∷ xs) (y ∷ ys) = x == y && same xs ys
same [] (y ∷ ys) = false
same (x ∷ xs) [] = false

-- The last of the entries that a table holds for the prefixes of a string, shortest prefix first.
abbrev pub longest {ℓ} : {A : Type ℓ} → (Bytes → Option A) → Bytes → Option A → Option A
longest at [] found = found
longest at (c ∷ cs) found = longest (λ p. at (c ∷ p)) cs (or_else (at (c ∷ [])) found)

-- Handlers of the lowest universe, which `std::function` values are.
module _ {F : Type 0} where
  -- The entry at exactly this string.
  unfoldable pub entry : Node F → ℕ → Bytes → Option (NodeData F)
  entry leaf c cs = none
  entry (node l m r e k) c [] =
      let left = entry l c [] in
      let right = entry r c [] in if char_lt c k then left else if char_lt k c then right else e
  entry (node l m r e k) c (c' ∷ cs) =
      let left = entry l c (c' ∷ cs) in
      let right = entry r c (c' ∷ cs) in
      let center = entry m c' cs in
      if char_lt c k then left else if char_lt k c then right else center

  -- Every character of the tree is a byte.
  abbrev pub IsTree : Node F → Type 0
  IsTree leaf = Unit
  IsTree (node l m r e k) = (k < 256) × IsTree l × IsTree m × IsTree r

  pub insert-IsTree :
      (t : Node F) (c : ℕ) (cs : Bytes) (d : NodeData F)
      → IsBytes (c ∷ cs)
      → IsTree t
      → IsTree (insert t c cs d)
  unfolding insert
  insert-IsTree leaf c [] d b v = (b.0, tt, tt, tt)
  insert-IsTree leaf c (c' ∷ cs) d b v = (b.0, tt, insert-IsTree leaf c' cs d b.1 tt, tt)
  insert-IsTree (node l m r e k) c [] d b v =
      ground (arith, insert-IsTree l c [] d b v.1, insert-IsTree r c [] d b v.3)
  insert-IsTree (node l m r e k) c (c' ∷ cs) d b v = ground (
    arith,
    insert-IsTree l c (c' ∷ cs) d b v.1,
    insert-IsTree r c (c' ∷ cs) d b v.3,
    insert-IsTree m c' cs d b.1 v.2,
  )

  -- In a tree of bytes and for strings of bytes, an insertion adds an entry at its own string,
  -- unless one is there, and changes no other.
  pub entry-insert :
      (t : Node F) (c : ℕ) (cs : Bytes) (d : NodeData F) (x : ℕ) (xs : Bytes)
      → IsBytes (c ∷ cs)
      → IsBytes (x ∷ xs)
      → IsTree t
      → entry (insert t c cs d) x xs
        ≡ (if same (c ∷ cs) (x ∷ xs) then keep_data (entry t c cs) d else entry t x xs)
  unfolding entry insert
  entry-insert leaf c [] d x [] b b' v = ground arith
  entry-insert leaf c [] d x (x' ∷ xs) b b' v = ground arith
  entry-insert leaf c (c' ∷ cs) d x [] b b' v = ground arith
  entry-insert leaf c (c' ∷ cs) d x (x' ∷ xs) b b' v =
      ground (arith, entry-insert leaf c' cs d x' xs b.1 b'.1 tt)
  entry-insert (node l m r e k) c [] d x [] b b' v =
      ground (arith, entry-insert l c [] d x [] b b' v.1, entry-insert r c [] d x [] b b' v.3)
  entry-insert (node l m r e k) c [] d x (x' ∷ xs) b b' v = ground (
    arith,
    entry-insert l c [] d x (x' ∷ xs) b b' v.1,
    entry-insert r c [] d x (x' ∷ xs) b b' v.3,
  )
  entry-insert (node l m r e k) c (c' ∷ cs) d x [] b b' v = ground (
    arith,
    entry-insert l c (c' ∷ cs) d x [] b b' v.1,
    entry-insert r c (c' ∷ cs) d x [] b b' v.3,
  )
  entry-insert (node l m r e k) c (c' ∷ cs) d x (x' ∷ xs) b b' v = ground (
    arith,
    entry-insert l c (c' ∷ cs) d x (x' ∷ xs) b b' v.1,
    entry-insert r c (c' ∷ cs) d x (x' ∷ xs) b b' v.3,
    entry-insert m c' cs d x' xs b.1 b'.1 v.2,
  )

  -- `entry` at any string.
  abbrev pub entry_at : Node F → Bytes → Option (NodeData F)
  entry_at t [] = none
  entry_at t (c ∷ cs) = entry t c cs

  longest-none : (cs : Bytes) (found : Option (NodeData F)) → longest (λ _. none) cs found ≡ found
  longest-none [] found = refl
  longest-none (c ∷ cs) found = longest-none cs found

  -- What lies behind one character.
  abbrev under : (Bytes → Option (NodeData F)) → Bytes → Option (NodeData F) → Option (NodeData F)
  under at cs found = longest at cs (or_else (at []) found)

  under-agree :
      (f g : Bytes → Option (NodeData F)) (cs : Bytes) (found : Option (NodeData F))
      → ((p : Bytes) → f p ≡ g p)
      → under f cs found ≡ under g cs found
  under-agree f g cs found h =
      ap (λ (at : Bytes → Option (NodeData F)). under at cs found) (fun_ext h)

  module _ (l m r : Node F) (e : Option (NodeData F)) (k c : ℕ) where
    pub entry-left : char_lt c k ≡ true → (p : Bytes) → entry (node l m r e k) c p ≡ entry l c p
    unfolding entry
    entry-left h [] = rw h
    entry-left h (x ∷ p) = rw h

    pub entry-right :
        char_lt c k ≡ false
        → char_lt k c ≡ true
        → (p : Bytes) → entry (node l m r e k) c p ≡ entry r c p
    unfolding entry
    entry-right h i [] = rw (h, i)
    entry-right h i (x ∷ p) = rw (h, i)

    pub entry-here : char_lt c k ≡ false → char_lt k c ≡ false → entry (node l m r e k) c [] ≡ e
    unfolding entry
    entry-here h i = rw (h, i)

    pub entry-center :
        char_lt c k ≡ false
        → char_lt k c ≡ false
        → (c' : ℕ) (p : Bytes) → entry (node l m r e k) c (c' ∷ p) ≡ entry m c' p
    unfolding entry
    entry-center h i c' p = rw (h, i)

    search-left :
        char_lt c k ≡ true
        → (cs : Bytes) (found : Option (NodeData F))
        → search (node l m r e k) c cs found ≡ search l c cs found
    unfolding search
    search-left h [] found = rw h
    search-left h (x ∷ cs) found = rw h

    search-right :
        char_lt c k ≡ false
        → char_lt k c ≡ true
        → (cs : Bytes) (found : Option (NodeData F))
        → search (node l m r e k) c cs found ≡ search r c cs found
    unfolding search
    search-right h i [] found = rw (h, i)
    search-right h i (x ∷ cs) found = rw (h, i)

    search-here :
        char_lt c k ≡ false
        → char_lt k c ≡ false
        → (found : Option (NodeData F)) → search (node l m r e k) c [] found ≡ or_else e found
    unfolding search
    search-here h i found = rw (h, i)

    search-center :
        char_lt c k ≡ false
        → char_lt k c ≡ false
        → (c' : ℕ) (cs : Bytes) (found : Option (NodeData F))
        → search (node l m r e k) c (c' ∷ cs) found ≡ search m c' cs (or_else e found)
    unfolding search
    search-center h i c' cs found = rw (h, i)

    search-middle :
        char_lt c k ≡ false
        → char_lt k c ≡ false
        → ((c' : ℕ) (cs : Bytes) (found : Option (NodeData F))
            → search m c' cs found ≡ longest (entry_at m) (c' ∷ cs) found)
        → (cs : Bytes) (found : Option (NodeData F))
        → search (node l m r e k) c cs found ≡ longest (entry_at (node l m r e k)) (c ∷ cs) found
    search-middle h i below [] found =
        search-here h i found
        ∙ ap (λ (x : Option (NodeData F)). or_else x found) (sym (entry-here h i))
    search-middle h i below (c' ∷ cs) found =
        search-center h i c' cs found
        ∙ below c' cs (or_else e found)
        ∙ ap (λ (x : Option (NodeData F)). under (entry m c') cs (or_else x found))
            (sym (entry-here h i))
        ∙ sym (
            under-agree (λ p. entry (node l m r e k) c (c' ∷ p)) (entry m c') cs
              (or_else (entry (node l m r e k) c []) found) (entry-center h i c'))

  -- A search keeps the entry of the longest prefix that has one.
  pub search-longest :
      (t : Node F) (c : ℕ) (cs : Bytes) (found : Option (NodeData F))
      → search t c cs found ≡ longest (entry_at t) (c ∷ cs) found
  search-longest leaf c cs found = unfold search entry in sym (longest-none cs found)
  search-longest (node l m r e k) c cs found = elim (Bool-cases (char_lt c k)) [
    | inl lt ↦
        search-left l m r e k c lt cs found
        ∙ search-longest l c cs found
        ∙ sym (
            under-agree (entry (node l m r e k) c) (entry l c) cs found (entry-left l m r e k c lt))
    | inr ge ↦ elim (Bool-cases (char_lt k c)) [
      | inl gt ↦
          search-right l m r e k c ge gt cs found
          ∙ search-longest r c cs found
          ∙ sym (
              under-agree (entry (node l m r e k) c) (entry r c) cs found
                (entry-right l m r e k c ge gt))
      | inr eq ↦ search-middle l m r e k c ge eq (search-longest m) cs found
    ]
  ]

  -- `SearchOne` returns the entry of the longest prefix of the string that has one.
  pub search_one-longest :
      (t : Node F) (c : ℕ) (cs : Bytes) → search_one t c cs ≡ longest (entry_at t) (c ∷ cs) none
  unfolding search_one
  search_one-longest t c cs = search-longest t c cs none
