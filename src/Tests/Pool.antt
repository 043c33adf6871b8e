-- ===== src/Tests/Pool.antt =====
-- connection_pool.cpp on concrete inputs.
use mevent.Common.{refl, arith, [], ◌∷◌}
use mevent.ConnectionPool.{
  ConnectionPool, connection_pool, active_list_push, active_list_erase, active_list_update,
}
use mevent.ConnectionPool.Active.{IsActive, active_list_push-IsActive}
use mevent.ConnectionPool.Erase.{active_list_erase-IsActive, active_list_update-IsActive}

empty_pool : IsActive (connection_pool 10) []
empty_pool = record { linked = (refl, refl); distinct = tt; unlinked = λ c n. (refl, refl) }

abbrev one : ConnectionPool
one = active_list_push (connection_pool 10) 0

abbrev two : ConnectionPool
two = active_list_push one 1

one-IsActive : IsActive one (0 ∷ [])
one-IsActive = active_list_push-IsActive (connection_pool 10) 0 [] empty_pool tt

two-IsActive : IsActive two (0 ∷ 1 ∷ [])
two-IsActive = active_list_push-IsActive one 1 (0 ∷ []) one-IsActive (omega arith, tt)

active_list_erase-IsActive_example : IsActive (active_list_erase two 0) (1 ∷ [])
active_list_erase-IsActive_example = active_list_erase-IsActive two [] 0 (1 ∷ []) two-IsActive

active_list_update-IsActive_example : IsActive (active_list_update two 0) (1 ∷ 0 ∷ [])
active_list_update-IsActive_example = active_list_update-IsActive two [] 0 (1 ∷ []) two-IsActive
