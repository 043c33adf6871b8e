-- ===== src/ConnectionPool.antt =====
-- connection_pool.h and connection_pool.cpp. A connection is a number, and its three link fields
-- are maps from those numbers; `NULL` is `none`. `new Connection()` gives the number `count_`,
-- since the pool makes every connection, counts it, and deletes none. The two mutexes make each
-- operation one step on this state.
pub mod Segment
pub mod Active
pub mod Unlink
pub mod Erase
pub mod Free
pub mod Sequences
pub mod Apart
pub mod Cursor
use mevent.Common.{
  ℕ, zero, suc, ◌+◌, Bool, true, false, Option, some, none, ltb, ◌==◌, if◌then◌else◌,
}

abbrev pub Pointer : Type 0
Pointer = Option ℕ

abbrev pub Links : Type 0
Links = ℕ → Pointer

abbrev pub update : Links → ℕ → Pointer → Links
update f c v d = if c == d then v else f d

pub record ConnectionPool : Type 0 where
  pub free_list_head : Pointer
  pub active_list_head : Pointer
  pub active_list_tail : Pointer
  pub active_list_lookup_cursor : Pointer
  pub free_next : Links
  pub active_next : Links
  pub active_prev : Links
  pub count : ℕ
  pub max_conn : ℕ

abbrev pub same_pointer : Pointer → Pointer → Bool
same_pointer none none = true
same_pointer (some a) (some b) = a == b
same_pointer none (some b) = false
same_pointer (some a) none = false

abbrev pub connection_pool : ℕ → ConnectionPool
connection_pool max_conn = record {
  free_list_head = none;
  active_list_head = none;
  active_list_tail = none;
  active_list_lookup_cursor = none;
  free_next = λ c. none;
  active_next = λ c. none;
  active_prev = λ c. none;
  count = 0;
  max_conn = max_conn;
}

-- `new Connection()` and `count_++`: the new connection is `p.count`.
unfoldable pub new_connection : ConnectionPool → ConnectionPool
new_connection p = record p {
  free_next = update p.free_next p.count none;
  active_next = update p.active_next p.count none;
  active_prev = update p.active_prev p.count none;
  count = p.count + 1;
}

-- The loop of `Reserve`: `left` connections more behind `tail`.
reserve_behind : ℕ → ℕ → ConnectionPool → ConnectionPool
unfolding new_connection
reserve_behind zero tail p = p
reserve_behind (suc left) tail p =
    let q = new_connection p in
    reserve_behind left p.count (record q { free_next = update q.free_next tail (some p.count) })

unfoldable pub reserve : ConnectionPool → ℕ → ConnectionPool
unfolding new_connection reserve_behind
reserve p zero = p
reserve p (suc left) =
    reserve_behind left p.count (record (new_connection p) { free_list_head = some p.count })

unfoldable pub free_list_pop : ConnectionPool → ConnectionPool × Pointer
unfolding new_connection
free_list_pop p = elim p.free_list_head [
  | some conn ↦ (record p { free_list_head = p.free_next conn }, some conn)
  | none ↦ if ltb p.max_conn p.count then (p, none) else (new_connection p, some p.count)
]

unfoldable pub free_list_push : ConnectionPool → ℕ → ConnectionPool
free_list_push p conn = record p {
  free_next = update p.free_next conn p.free_list_head;
  free_list_head = some conn;
}

unfoldable pub active_list_push : ConnectionPool → ℕ → ConnectionPool
active_list_push p conn = elim p.active_list_tail [
  | none ↦ record p { active_list_tail = some conn; active_list_head = some conn }
  | some tail ↦ record p {
    active_next = update (update p.active_next tail (some conn)) conn none;
    active_prev = update p.active_prev conn (some tail);
    active_list_tail = some conn;
  }
]

-- The assignments of `ActiveListErase` that take `conn` out from between its neighbours: those
-- under `conn->active_prev_`, and those under `conn->active_next_`.
unfoldable pub unlink_prev : ConnectionPool → ℕ → ConnectionPool
unlink_prev p conn = elim (p.active_prev conn) [
  | some prev ↦ record p { active_next = update p.active_next prev (p.active_next conn) }
  | none ↦ elim (p.active_next conn) [
    | none ↦ record p { active_list_head = none }
    | some head ↦ record p {
      active_list_head = some head;
      active_prev = update p.active_prev head none;
    }
  ]
]

unfoldable pub unlink_next : ConnectionPool → ℕ → ConnectionPool
unlink_next p conn = elim (p.active_next conn) [
  | some next ↦ record p { active_prev = update p.active_prev next (p.active_prev conn) }
  | none ↦ elim (p.active_prev conn) [
    | none ↦ record p { active_list_tail = none }
    | some tail ↦ record p {
      active_list_tail = some tail;
      active_next = update p.active_next tail none;
    }
  ]
]

-- A cursor that stands on `conn` moves on.
unfoldable pub skip_cursor : ConnectionPool → ℕ → ConnectionPool
skip_cursor p conn =
    if same_pointer (some conn) p.active_list_lookup_cursor
    then record p { active_list_lookup_cursor = p.active_next conn }
    else p

-- `ActiveListErase` behind the test on the cursor.
unfoldable pub erase_links : ConnectionPool → ℕ → ConnectionPool
erase_links p conn =
    let cleared = record p { active_list_tail = none; active_list_head = none } in
    let unlinked = unlink_next (unlink_prev p conn) conn in
    let r = if same_pointer p.active_list_tail p.active_list_head then cleared else unlinked in
    record r {
      active_next = update r.active_next conn none;
      active_prev = update r.active_prev conn none;
    }

unfoldable pub active_list_erase : ConnectionPool → ℕ → ConnectionPool
active_list_erase p conn = erase_links (skip_cursor p conn) conn

unfoldable pub active_list_update : ConnectionPool → ℕ → ConnectionPool
active_list_update p conn = active_list_push (active_list_erase p conn) conn

unfoldable pub active_list_empty : ConnectionPool → Bool
active_list_empty p = elim p.active_list_head [ none ↦ true | some head ↦ false ]

unfoldable pub active_list_timeout_check : ConnectionPool → ConnectionPool
active_list_timeout_check p = record p { active_list_lookup_cursor = p.active_list_head }

unfoldable pub active_list_check_next : ConnectionPool → ConnectionPool × Pointer
active_list_check_next p = elim p.active_list_lookup_cursor [
  | none ↦ (p, none)
  | some conn ↦ (record p { active_list_lookup_cursor = p.active_next conn }, some conn)
]
