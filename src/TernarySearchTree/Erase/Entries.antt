-- ===== src/TernarySearchTree/Erase/Entries.antt =====
-- What `Erase` does to the entries of a tree.
use mevent.Common.{
  ℕ, ◌≡◌, refl, sym, ◌∙◌, subst, inl, inr, true, false, [], ◌∷◌, ◌++◌, Option, some, none, Bytes,
  IsBytes, arith, Bool-cases, if◌then◌else◌,
}
use mevent.TernarySearchTree.{NodeData, Node, leaf, node}
use mevent.TernarySearchTree.Lookup.{entry, entry_at, same, IsTree}
use mevent.TernarySearchTree.Erase.{
  Found, update, node_at, data_of, clear_data, erase_found, erase, center_of, is_null, after_loop,
}
use mevent.TernarySearchTree.Erase.Loop.{Outcome, descend-Outcome, Without}

same_refl : (s : Bytes) → same s s ≡ true
same_refl [] = refl
same_refl (x ∷ xs) = ground (arith, same_refl xs)

same→≡ : (a b : Bytes) → same a b ≡ true → a ≡ b
same→≡ [] [] h = refl
same→≡ [] (y ∷ ys) h = ground arith
same→≡ (x ∷ xs) [] h = ground arith
same→≡ (x ∷ xs) (y ∷ ys) h = ground (arith, same→≡ xs ys)

module _ {F : Type 0} where
  erase_found-none :
      (e : Option (NodeData F)) (m : Node F) (found : Found) (t : Node F)
      → e ≡ none
      → erase_found e m found t ≡ t
  unfolding erase_found
  erase_found-none e m found t h = rw h

  after_loop-none :
      (t : Node F) (o : Option Found) (c : ℕ) (cs : Bytes)
      → Outcome t [] c cs o
      → entry t c cs ≡ none
      → after_loop t o ≡ t
  unfolding after_loop
  after_loop-none t none c cs h absent = refl
  after_loop-none t (some found) c cs (p, at, (there, gone, more)) absent =
      erase_found-none (data_of (node_at found.np t)) _ found t (rw at (there ∙ absent))

  -- In a tree of bytes, the erasure of a string of bytes that has no entry changes nothing.
  pub erase-absent :
      (t : Node F) (c : ℕ) (cs : Bytes)
      → IsBytes (c ∷ cs)
      → IsTree t
      → entry t c cs ≡ none
      → erase t c cs ≡ t
  unfolding erase
  erase-absent t c cs b v = after_loop-none t _ c cs (descend-Outcome t [] _ c cs b v)

  Without-itself :
      (t : Node F) (c : ℕ) (cs : Bytes) (x : ℕ) (xs : Bytes)
      → none ≡ entry t c cs
      → Without t t (c ∷ cs) x xs
  Without-itself t c cs x xs h = elim (Bool-cases (same (c ∷ cs) (x ∷ xs))) [
    | inl eq ↦ rw eq (subst (λ s. entry_at t s ≡ none) (same→≡ (c ∷ cs) (x ∷ xs) eq) (sym h))
    | inr other ↦ rw other
  ]

  -- A node with something in its center keeps it.
  erase_found-below :
      (e : Option (NodeData F)) (m : Node F) (found : Found) (t : Node F) (c : ℕ) (cs : Bytes)
      (x : ℕ) (xs : Bytes)
      → e ≡ entry t c cs
      → is_null m ≡ false
      → Without (update found.np clear_data t) t (c ∷ cs) x xs
      → Without (erase_found e m found t) t (c ∷ cs) x xs
  unfolding erase_found
  erase_found-below none m found t c cs x xs h below gone = Without-itself t c cs x xs h
  erase_found-below (some d) leaf found t c cs x xs h below gone = absurd (ground arith)
  erase_found-below (some d) (node l m r e k) found t c cs x xs h below gone = gone

  entry-is_null :
      (m : Node F) (y : ℕ) (ys : Bytes) (d : NodeData F) → entry m y ys ≡ some d → is_null m ≡ false
  unfolding entry
  entry-is_null leaf y ys d h = ground arith
  entry-is_null (node l m r e k) y ys d h = refl

  after_loop-below :
      (t : Node F) (o : Option Found) (c : ℕ) (cs : Bytes) (y : ℕ) (ys : Bytes) (d : NodeData F)
      (x : ℕ) (xs : Bytes)
      → IsBytes (x ∷ xs)
      → Outcome t [] c cs o
      → entry t c (cs ++ y ∷ ys) ≡ some d
      → Without (after_loop t o) t (c ∷ cs) x xs
  unfolding after_loop
  after_loop-below t none c cs y ys d x xs i h e = Without-itself t c cs x xs (sym h)
  after_loop-below t (some found) c cs y ys d x xs i (p, at, (there, gone, more)) e =
      erase_found-below (data_of (node_at found.np t)) (center_of (node_at found.np t)) found t c cs
        x xs (rw at there) (rw at (entry-is_null _ y ys d (more y ys ∙ e))) (rw at (gone x xs i))

  -- In a tree of bytes, where a longer string has an entry, the erasure of a string of bytes
  -- removes the entry at that string and no other.
  pub entry-erase :
      (t : Node F) (c : ℕ) (cs : Bytes) (y : ℕ) (ys : Bytes) (d : NodeData F) (x : ℕ) (xs : Bytes)
      → IsBytes (c ∷ cs)
      → IsBytes (x ∷ xs)
      → IsTree t
      → entry t c (cs ++ y ∷ ys) ≡ some d
      → entry (erase t c cs) x xs ≡ (if same (c ∷ cs) (x ∷ xs) then none else entry t x xs)
  unfolding erase
  entry-erase t c cs y ys d x xs b i v =
      after_loop-below t _ c cs y ys d x xs i (descend-Outcome t [] _ c cs b v)
