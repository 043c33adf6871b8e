-- ===== src/Tests/Routing.antt =====
-- ternary_search_tree.cpp and the registration of handlers on concrete inputs; a handler is a number.
use mevent.Common.{◌≡◌, arith, ℕ, Bytes, [], ◌∷◌, none, codes, List, if◌then◌else◌}
use mevent.TernarySearchTree.{Node, NodeData, leaf, insert, keep_data}
use mevent.TernarySearchTree.Lookup.{same, longest, entry, entry-insert}
use mevent.HttpHandler.{get_handle_func}
use mevent.HttpHandler.Routing.{registered, first_match, get_handle_func-registered}

abbrev root_data : NodeData ℕ
root_data = record { str = codes "/"; func = 1 }

abbrev empty_tree : Node ℕ
empty_tree = leaf

entry-insert_example : entry (insert empty_tree 47 [] root_data) 47 (codes "a") ≡ (
    if same (47 ∷ []) (47 ∷ codes "a")
    then keep_data (entry empty_tree 47 []) root_data
    else entry empty_tree 47 (codes "a"))
entry-insert_example =
    entry-insert empty_tree 47 [] root_data 47 (codes "a") (omega arith) (omega arith) tt

abbrev registrations : List (Bytes × ℕ)
registrations = (codes "/", 1) ∷ (codes "/api", 2) ∷ (codes "/", 3) ∷ []

get_handle_func-registered_example :
    get_handle_func (registered leaf registrations) (codes "/api/x")
    ≡ longest (first_match registrations) (codes "/api/x") none
get_handle_func-registered_example =
    get_handle_func-registered registrations (codes "/api/x") (omega arith) (omega arith)
