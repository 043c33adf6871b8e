-- ===== src/ConnectionPool/Cursor.antt =====
-- The cursor of the walk over the active list.
use mevent.Common.{
  ℕ, ◌≡◌, ◌≢◌, refl, sym, ap, ◌∙◌, false, some, none, arith, Bool-cases, inl, inr, List, [], ◌∷◌,
  ◌==◌, ==_iff,
}
use mevent.ConnectionPool.{
  Pointer, ConnectionPool, same_pointer, unlink_prev, unlink_next, skip_cursor, erase_links,
  active_list_erase,
}
use mevent.ConnectionPool.Segment.{Segment}
use mevent.ConnectionPool.Active.{IsActive}

abbrev pub first : List ℕ → Pointer
first [] = none
first (x ∷ xs) = some x

pub Segment-first :
    (p : ConnectionPool) (before head : Pointer) (xs : List ℕ) (tail : Pointer)
    → Segment p.active_next p.active_prev before head xs tail none
    → head ≡ first xs
Segment-first p before head [] tail s = s.0
Segment-first p before head (x ∷ xs) tail s = s.0

-- In an active list the connection behind the first one is the second one.
pub IsActive-second :
    (p : ConnectionPool) (x : ℕ) (xs : List ℕ) → IsActive p (x ∷ xs) → p.active_next x ≡ first xs
IsActive-second p x xs v =
    Segment-first p (some x) (p.active_next x) xs p.active_list_tail v.linked.2

unlink_prev-cursor :
    (p : ConnectionPool) (c : ℕ)
    → (unlink_prev p c).active_list_lookup_cursor ≡ p.active_list_lookup_cursor
unfolding unlink_prev
unlink_prev-cursor p c = ground arith

unlink_next-cursor :
    (p : ConnectionPool) (c : ℕ)
    → (unlink_next p c).active_list_lookup_cursor ≡ p.active_list_lookup_cursor
unfolding unlink_next
unlink_next-cursor p c = ground arith

erase_links-cursor :
    (p : ConnectionPool) (c : ℕ)
    → (erase_links p c).active_list_lookup_cursor ≡ p.active_list_lookup_cursor
unfolding erase_links
erase_links-cursor p c = elim (Bool-cases (same_pointer p.active_list_tail p.active_list_head)) [
  | inl one ↦ rw (erase_links, one) refl
  | inr many ↦
      rw (erase_links, many) (unlink_next-cursor (unlink_prev p c) c ∙ unlink_prev-cursor p c)
]

other_pointer : (c : ℕ) (p : Pointer) → p ≢ some c → same_pointer (some c) p ≡ false
other_pointer c none n = refl
other_pointer c (some d) n = elim (Bool-cases (c == d)) [
  | inl e ↦ absurd (n (ap some (sym ((==_iff c d).0 e))))
  | inr e ↦ e
]

-- `ActiveListErase` leaves a cursor alone that stands on another connection.
pub active_list_erase-cursor :
    (p : ConnectionPool) (c : ℕ)
    → p.active_list_lookup_cursor ≢ some c
    → (active_list_erase p c).active_list_lookup_cursor ≡ p.active_list_lookup_cursor
unfolding active_list_erase skip_cursor
active_list_erase-cursor p c n =
    rw (active_list_erase, skip_cursor, other_pointer c p.active_list_lookup_cursor n)
      (erase_links-cursor p c)
