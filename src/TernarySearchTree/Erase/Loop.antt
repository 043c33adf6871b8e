-- ===== src/TernarySearchTree/Erase/Loop.antt =====
-- The loop of `Erase` finds the node of the string.
use mevent.Common.{
  ℕ, ◌≡◌, ◌<◌, refl, sym, ◌∙◌, inl, inr, true, false, [], ◌∷◌, ◌++◌, append_assoc, append-nil,
  Option, some, none, Bytes, IsBytes, ◌==◌, ==_iff, arith, Bool-cases, if◌then◌else◌,
}
use mevent.TernarySearchTree.{NodeData, Node, leaf, node, char_lt}
use mevent.TernarySearchTree.Lookup.{
  entry, same, IsTree, entry-left, entry-right, entry-here, entry-center,
}
use mevent.TernarySearchTree.Erase.{
  NodePath, to_left, to_center, to_right, Trail, Found, note_first, descend, update, node_at,
  data_of, clear_data, center_of,
}

module _ {F : Type 0} where
  -- `u` is `t` without the entry at a string.
  abbrev pub Without : Node F → Node F → Bytes → ℕ → Bytes → Type 0
  Without u t s x xs = entry u x xs ≡ (if same s (x ∷ xs) then none else entry t x xs)

  -- The node at `p` is that of the string.
  abbrev pub Leads : Node F → ℕ → Bytes → NodePath → Type 0
  Leads t c cs p =
      (data_of (node_at p t) ≡ entry t c cs)
      × ((x : ℕ) (xs : Bytes) → IsBytes (x ∷ xs) → Without (update p clear_data t) t (c ∷ cs) x xs)
      × ((y : ℕ) (ys : Bytes) → entry (center_of (node_at p t)) y ys ≡ entry t c (cs ++ y ∷ ys))

  -- What the loop finds.
  abbrev pub Outcome : Node F → NodePath → ℕ → Bytes → Option Found → Type 0
  Outcome t here c cs none = entry t c cs ≡ none
  Outcome t here c cs (some found) = (p : NodePath) × (found.np ≡ here ++ p) × Leads t c cs p

  module _ (l m r : Node F) (e : Option (NodeData F)) (k c : ℕ) (v : k < 256) where
    Without-left :
        (u : Node F) (cs : Bytes) (x : ℕ) (xs : Bytes)
        → IsBytes (c ∷ cs)
        → IsBytes (x ∷ xs)
        → char_lt c k ≡ true
        → Without u l (c ∷ cs) x xs
        → Without (node u m r e k) (node l m r e k) (c ∷ cs) x xs
    unfolding entry
    Without-left u cs x [] b i h gone = ground arith
    Without-left u cs x (y ∷ ys) b i h gone = ground arith

    Without-right :
        (u : Node F) (cs : Bytes) (x : ℕ) (xs : Bytes)
        → IsBytes (c ∷ cs)
        → IsBytes (x ∷ xs)
        → char_lt c k ≡ false
        → char_lt k c ≡ true
        → Without u r (c ∷ cs) x xs
        → Without (node l m u e k) (node l m r e k) (c ∷ cs) x xs
    unfolding entry
    Without-right u cs x [] b i h h' gone = ground arith
    Without-right u cs x (y ∷ ys) b i h h' gone = ground arith

    Without-center :
        (u : Node F) (c' : ℕ) (cs : Bytes) (x : ℕ) (xs : Bytes)
        → IsBytes (x ∷ xs)
        → c ≡ k
        → ((y : ℕ) (ys : Bytes) → IsBytes (y ∷ ys) → Without u m (c' ∷ cs) y ys)
        → Without (node l u r e k) (node l m r e k) (c ∷ c' ∷ cs) x xs
    unfolding entry
    Without-center u c' cs x [] i h gone = ground arith
    Without-center u c' cs x (y ∷ ys) i h gone = ground (arith, gone y ys i.1)

    Without-here :
        (x : ℕ) (xs : Bytes)
        → IsBytes (x ∷ xs)
        → c ≡ k
        → Without (node l m r none k) (node l m r e k) (c ∷ []) x xs
    unfolding entry
    Without-here x [] i h = ground arith
    Without-here x (y ∷ ys) i h = ground arith

  module _ (l m r : Node F) (e : Option (NodeData F)) (k c : ℕ) (v : k < 256)
      (here : NodePath) where
    Outcome-left :
        (cs : Bytes) (o : Option Found)
        → IsBytes (c ∷ cs)
        → char_lt c k ≡ true
        → Outcome l (here ++ to_left ∷ []) c cs o
        → Outcome (node l m r e k) here c cs o
    unfolding update node_at
    Outcome-left cs none b h none_there = entry-left l m r e k c h cs ∙ none_there
    Outcome-left cs (some found) b h (p, at, (there, gone, more)) = (
      to_left ∷ p,
      at ∙ append_assoc here (to_left ∷ []) p,
      (
        there ∙ sym (entry-left l m r e k c h cs),
        (λ x xs i. Without-left l m r e k c v (update p clear_data l) cs x xs b i h (gone x xs i)),
        λ y ys. more y ys ∙ sym (entry-left l m r e k c h (cs ++ y ∷ ys)),
      ),
    )

    Outcome-right :
        (cs : Bytes) (o : Option Found)
        → IsBytes (c ∷ cs)
        → char_lt c k ≡ false
        → char_lt k c ≡ true
        → Outcome r (here ++ to_right ∷ []) c cs o
        → Outcome (node l m r e k) here c cs o
    unfolding update node_at
    Outcome-right cs none b h h' none_there = entry-right l m r e k c h h' cs ∙ none_there
    Outcome-right cs (some found) b h h' (p, at, (there, gone, more)) = (
      to_right ∷ p,
      at ∙ append_assoc here (to_right ∷ []) p,
      (
        there ∙ sym (entry-right l m r e k c h h' cs),
        (λ x xs i.
            Without-right l m r e k c v (update p clear_data r) cs x xs b i h h' (gone x xs i)),
        λ y ys. more y ys ∙ sym (entry-right l m r e k c h h' (cs ++ y ∷ ys)),
      ),
    )

    Outcome-center :
        (c' : ℕ) (cs : Bytes) (o : Option Found)
        → IsBytes (c ∷ c' ∷ cs)
        → c ≡ k
        → Outcome m (here ++ to_center ∷ []) c' cs o
        → Outcome (node l m r e k) here c (c' ∷ cs) o
    unfolding update node_at
    Outcome-center c' cs none b h none_there =
        entry-center l m r e k c (ground arith) (ground arith) c' cs ∙ none_there
    Outcome-center c' cs (some found) b h (p, at, (there, gone, more)) = (
      to_center ∷ p,
      at ∙ append_assoc here (to_center ∷ []) p,
      (
        there ∙ sym (entry-center l m r e k c (ground arith) (ground arith) c' cs),
        (λ x xs i. Without-center l m r e k c v (update p clear_data m) c' cs x xs i h gone),
        λ y ys.
            more y ys
            ∙ sym (entry-center l m r e k c (ground arith) (ground arith) c' (cs ++ y ∷ ys)),
      ),
    )

    char_order : (c == k) ≡ false → c < 256 → char_lt c k ≡ false → char_lt k c ≡ true
    char_order other b ge = ground arith

    Outcome-here :
        (trail : Trail)
        → c ≡ k
        → Outcome (node l m r e k) here c [] (some (record { np = here; trail = trail }))
    unfolding update node_at clear_data
    Outcome-here trail h = (
      [],
      sym (append-nil here),
      (
        sym (entry-here l m r e k c (ground arith) (ground arith)),
        (λ x xs i. Without-here l m r e k c v x xs i h),
        λ y ys. sym (entry-center l m r e k c (ground arith) (ground arith) y ys),
      ),
    )

  pub descend-Outcome :
      (t : Node F) (here : NodePath) (trail : Trail) (c : ℕ) (cs : Bytes)
      → IsBytes (c ∷ cs)
      → IsTree t
      → Outcome t here c cs (descend t here trail c cs)
  unfolding descend
  descend-Outcome leaf here trail c cs b v = unfold entry in refl
  descend-Outcome (node l m r e k) here trail c [] b v = elim (Bool-cases (c == k)) [
    | inl same ↦
        rw same (Outcome-here l m r e k c v.0 here (note_first here trail) ((==_iff c k).0 same))
    | inr other ↦ elim (Bool-cases (char_lt c k)) [
      | inl lt ↦
          rw (other, lt)
            (Outcome-left l m r e k c v.0 here [] _ b lt (descend-Outcome l _ _ c [] b v.1))
      | inr ge ↦
          rw (other, ge)
            (Outcome-right l m r e k c v.0 here [] _ b ge
              (char_order l m r e k c v.0 here other b.0 ge) (descend-Outcome r _ _ c [] b v.3))
    ]
  ]
  descend-Outcome (node l m r e k) here trail c (c' ∷ cs) b v = elim (Bool-cases (c == k)) [
    | inl same ↦ rw same (
        Outcome-center l m r e k c v.0 here c' cs _ b ((==_iff c k).0 same)
          (descend-Outcome m _ _ c' cs b.1 v.2))
    | inr other ↦ elim (Bool-cases (char_lt c k)) [
      | inl lt ↦
          rw (other, lt)
            (Outcome-left l m r e k c v.0 here (c' ∷ cs) _ b lt
              (descend-Outcome l _ _ c (c' ∷ cs) b v.1))
      | inr ge ↦
          rw (other, ge)
            (Outcome-right l m r e k c v.0 here (c' ∷ cs) _ b ge
              (char_order l m r e k c v.0 here other b.0 ge)
              (descend-Outcome r _ _ c (c' ∷ cs) b v.3))
    ]
  ]
