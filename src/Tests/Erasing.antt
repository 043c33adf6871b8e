-- ===== src/Tests/Erasing.antt =====
-- `Erase` of ternary_search_tree.cpp on concrete trees; a handler is a number.
use mevent.Common.{◌≡◌, refl, arith, ℕ, [], some, none, codes, if◌then◌else◌}
use mevent.TernarySearchTree.{Node, NodeData, leaf, insert}
use mevent.TernarySearchTree.Lookup.{same, entry}
use mevent.TernarySearchTree.Erase.{erase}
use mevent.TernarySearchTree.Erase.Entries.{entry-erase}

abbrev entry_data : ℕ → NodeData ℕ
entry_data n = record { str = []; func = n }

-- "ab" and "abc".
abbrev chain : Node ℕ
chain = insert (insert leaf 97 (codes "b") (entry_data 1)) 97 (codes "bc") (entry_data 2)

-- "xb", "xa" and "xba".
abbrev siblings : Node ℕ
siblings =
    insert (insert (insert leaf 120 (codes "b") (entry_data 1)) 120 (codes "a") (entry_data 2)) 120
      (codes "ba") (entry_data 3)

entry-erase_example :
    entry (erase chain 97 (codes "b")) 97 (codes "bc")
    ≡ (if same (codes "ab") (codes "abc") then none else entry chain 97 (codes "bc"))
unfolding insert entry
entry-erase_example =
    entry-erase chain 97 (codes "b") 99 [] (entry_data 2) 97 (codes "bc") (omega arith)
      (omega arith) (omega arith) refl

-- The erasure of "abc" takes "ab" along, which is a prefix of it.
prefix_erased :
    (entry chain 97 (codes "b") ≡ some (entry_data 1))
    × (entry (erase chain 97 (codes "bc")) 97 (codes "b") ≡ none)
unfolding entry erase insert
prefix_erased = (refl, refl)

-- The erasure of "xba" takes "xa" along, and not the node of "xba".
sibling_erased :
    (entry siblings 120 (codes "a") ≡ some (entry_data 2))
    × (entry (erase siblings 120 (codes "ba")) 120 (codes "a") ≡ none)
unfolding entry erase insert
sibling_erased = (refl, refl)
