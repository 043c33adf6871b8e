-- ===== src/ConnectionPool/Free.antt =====
-- The free list as a sequence, the number of connections, and the walk over the active list.
use mevent.Common.{
  ℕ, ◌+◌, ◌≤◌, ◌<◌, ◌≡◌, refl, List, [], ◌∷◌, some, none, arith, ◌⊎◌, inl, inr, Bool-cases, ltb→lt,
  ltb,
}
use mevent.ConnectionPool.{
  Pointer, Links, update, ConnectionPool, new_connection, free_list_pop, free_list_push,
}
use mevent.ConnectionPool.Segment.{NotIn}

-- The singly linked list from `head` on.
abbrev pub Chain : Links → Pointer → List ℕ → Type 0
Chain next head [] = head ≡ none
Chain next head (x ∷ xs) = (head ≡ some x) × Chain next (next x) xs

abbrev pub IsFree : ConnectionPool → List ℕ → Type 0
IsFree p xs = Chain p.free_next p.free_list_head xs

Chain-update :
    (next : Links) (c : ℕ) (v h : Pointer) (xs : List ℕ)
    → NotIn c xs
    → Chain next h xs
    → Chain (update next c v) h xs
Chain-update next c v h [] n s = s
Chain-update next c v h (x ∷ xs) n s =
    (s.0, ground (arith, Chain-update next c v (next x) xs n.1 s.1))

-- `FreeListPush` puts a connection that is not in the free list in front of it.
pub free_list_push-IsFree :
    (p : ConnectionPool) (c : ℕ) (xs : List ℕ)
    → IsFree p xs
    → NotIn c xs
    → IsFree (free_list_push p c) (c ∷ xs)
unfolding free_list_push
free_list_push-IsFree p c xs f n =
    (refl, ground (arith, Chain-update p.free_next c p.free_list_head p.free_list_head xs n f))

-- `FreeListPop` takes the front connection, and makes a new one only where none is free and the
-- count has not passed the limit; otherwise it changes nothing.
pub free_list_pop_lem :
    (p : ConnectionPool) (xs : List ℕ)
    → IsFree p xs
    → let (q, conn) = free_list_pop p in
      ((c : ℕ) × (rest : List ℕ) × (xs ≡ c ∷ rest)
        × (conn ≡ some c)
        × IsFree q rest
        × (q.count ≡ p.count))
      ⊎ ((xs ≡ [])
          × (p.count ≤ p.max_conn)
          × (conn ≡ some p.count)
          × IsFree q []
          × (q.count ≡ p.count + 1))
      ⊎ ((xs ≡ []) × (p.max_conn < p.count) × (conn ≡ none) × (q ≡ p))
unfolding free_list_pop new_connection
free_list_pop_lem p [] f = elim (Bool-cases (ltb p.max_conn p.count)) [
  | inl full ↦ rw (f, full) (inr (inr (refl, ltb→lt p.max_conn p.count full, refl, rw⁻¹ f refl)))
  | inr room ↦ rw (f, room) (inr (inl (refl, ground (arith, ltb), refl, refl, refl)))
]
free_list_pop_lem p (c ∷ rest) f = rw f.0 (inl (c, rest, refl, refl, f.1, refl))
