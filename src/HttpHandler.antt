-- ===== src/HttpHandler.antt =====
-- event_loop.h and event_loop.cpp: `HTTPHandler`, the table of handlers behind the tree. An empty
-- `HTTPHandleFunc` is `none`.
pub mod Routing
use mevent.Common.{List, [], ◌∷◌, Option, some, none, Bytes, ◌==◌, if◌then◌else◌, ℕ}
use mevent.TernarySearchTree.{NodeData, Node, leaf, insert, search_one}

-- What a `const char *` into a string shows: the characters before the first NUL.
unfoldable pub c_string : Bytes → Bytes
c_string [] = []
c_string (c ∷ cs) = if c == 0 then [] else c ∷ c_string cs

module _ {ℓ} {F : Type ℓ} where
  unfoldable pub set_handle_func : Node F → Bytes → F → Node F
  unfolding c_string
  set_handle_func func_tree [] func = func_tree
  set_handle_func func_tree (c ∷ cs) func =
      insert func_tree c (c_string cs) (record { str = c ∷ cs; func = func })

  found_func : Option (NodeData F) → Option F
  found_func none = none
  found_func (some d) = some d.func

  unfoldable pub get_handle_func : Node F → Bytes → Option F
  unfolding c_string found_func
  get_handle_func func_tree [] = none
  get_handle_func func_tree (c ∷ cs) = found_func (search_one func_tree c (c_string cs))
