-- ===== src/ConnectionPool/Apart.antt =====
-- The operations on one list leave the other list, and the number of connections, alone.
use mevent.Common.{
  ℕ, ◌≡◌, refl, ◌∙◌, none, arith, Bool-cases, Option-cases, inl, inr, List, ◌==◌, ltb, sym, subst₂,
}
use mevent.ConnectionPool.{
  Pointer, Links, ConnectionPool, same_pointer, new_connection, free_list_push, free_list_pop,
  active_list_push, unlink_prev, unlink_next, skip_cursor, erase_links, active_list_erase,
  active_list_update,
}
use mevent.ConnectionPool.Segment.{NotIn, frame_next, frame_prev}
use mevent.ConnectionPool.Active.{IsActive}
use mevent.ConnectionPool.Free.{Chain, IsFree}

-- The free list, the count and its limit are the same.
pub record SameFree (p q : ConnectionPool) : Type 0 where
  pub head : q.free_list_head ≡ p.free_list_head
  pub links : q.free_next ≡ p.free_next
  pub counted : q.count ≡ p.count
  pub limited : q.max_conn ≡ p.max_conn

SameFree-trans : (p q r : ConnectionPool) → SameFree p q → SameFree q r → SameFree p r
SameFree-trans p q r a b = record {
  head = b.head ∙ a.head;
  links = b.links ∙ a.links;
  counted = b.counted ∙ a.counted;
  limited = b.limited ∙ a.limited;
}

pub active_list_push-SameFree : (p : ConnectionPool) (c : ℕ) → SameFree p (active_list_push p c)
unfolding active_list_push
active_list_push-SameFree p c = elim (Option-cases p.active_list_tail) [
  | inl e ↦
      rw (e, active_list_push)
        (record { head = refl; links = refl; counted = refl; limited = refl })
  | inr (t, e) ↦
      rw (e, active_list_push)
        (record { head = refl; links = refl; counted = refl; limited = refl })
]

unlink_prev-SameFree : (p : ConnectionPool) (c : ℕ) → SameFree p (unlink_prev p c)
unfolding unlink_prev
unlink_prev-SameFree p c = ground arith

unlink_next-SameFree : (p : ConnectionPool) (c : ℕ) → SameFree p (unlink_next p c)
unfolding unlink_next
unlink_next-SameFree p c = ground arith

skip_cursor-SameFree : (p : ConnectionPool) (c : ℕ) → SameFree p (skip_cursor p c)
unfolding skip_cursor
skip_cursor-SameFree p c = ground arith

erase_links-SameFree : (p : ConnectionPool) (c : ℕ) → SameFree p (erase_links p c)
unfolding erase_links
erase_links-SameFree p c =
    let both =
      SameFree-trans p (unlink_prev p c) (unlink_next (unlink_prev p c) c)
        (unlink_prev-SameFree p c) (unlink_next-SameFree (unlink_prev p c) c) in
    elim (Bool-cases (same_pointer p.active_list_tail p.active_list_head)) [
      | inl one ↦
          rw (erase_links, one)
            (record { head = refl; links = refl; counted = refl; limited = refl })
      | inr many ↦
          rw (erase_links, many)
            (record {
              head = both.head;
              links = both.links;
              counted = both.counted;
              limited = both.limited;
            })
    ]

pub active_list_erase-SameFree : (p : ConnectionPool) (c : ℕ) → SameFree p (active_list_erase p c)
unfolding active_list_erase
active_list_erase-SameFree p c =
    SameFree-trans p (skip_cursor p c) (erase_links (skip_cursor p c) c) (skip_cursor-SameFree p c)
      (erase_links-SameFree (skip_cursor p c) c)

pub active_list_update-SameFree : (p : ConnectionPool) (c : ℕ) → SameFree p (active_list_update p c)
unfolding active_list_update
active_list_update-SameFree p c =
    SameFree-trans p (active_list_erase p c) (active_list_push (active_list_erase p c) c)
      (active_list_erase-SameFree p c) (active_list_push-SameFree (active_list_erase p c) c)

pub free_list_push-IsActive :
    (p : ConnectionPool) (c : ℕ) (xs : List ℕ) → IsActive p xs → IsActive (free_list_push p c) xs
unfolding free_list_push
free_list_push-IsActive p c xs v = record {
  linked = v.linked;
  distinct = v.distinct;
  unlinked = v.unlinked;
}

-- A connection that is made has no links, and none that is in the list changes.
pub new_connection-IsActive :
    (p : ConnectionPool) (xs : List ℕ)
    → NotIn p.count xs
    → IsActive p xs
    → IsActive (new_connection p) xs
unfolding new_connection
new_connection-IsActive p xs n v = record {
  linked =
      frame_prev _ _ p.count none none p.active_list_head xs p.active_list_tail none n
        (frame_next _ _ p.count none none p.active_list_head xs p.active_list_tail none n v.linked);
  distinct = v.distinct;
  unlinked = λ x h. elim (Bool-cases (p.count == x)) [
    | inl same ↦ rw same (refl, refl)
    | inr other ↦ rw other (v.unlinked x h)
  ];
}

pub free_list_pop-IsActive :
    (p : ConnectionPool) (xs : List ℕ)
    → NotIn p.count xs
    → IsActive p xs
    → IsActive (free_list_pop p).0 xs
unfolding free_list_pop
free_list_pop-IsActive p xs n v = elim (Option-cases p.free_list_head) [
  | inr (c, e) ↦
      rw (e, free_list_pop)
        (record { linked = v.linked; distinct = v.distinct; unlinked = v.unlinked })
  | inl e ↦ elim (Bool-cases (ltb p.max_conn p.count)) [
    | inl full ↦ rw (e, full, free_list_pop) v
    | inr room ↦ rw (e, room, free_list_pop) (new_connection-IsActive p xs n v)
  ]
]

pub free_list_pop-max_conn : (p : ConnectionPool) → (free_list_pop p).0.max_conn ≡ p.max_conn
unfolding free_list_pop new_connection
free_list_pop-max_conn p = ground arith

pub free_list_push-count :
    (p : ConnectionPool) (c : ℕ)
    → ((free_list_push p c).count ≡ p.count) × ((free_list_push p c).max_conn ≡ p.max_conn)
unfolding free_list_push
free_list_push-count p c = (refl, refl)

pub IsFree-same : (p q : ConnectionPool) (xs : List ℕ) → SameFree p q → IsFree p xs → IsFree q xs
IsFree-same p q xs same f =
    subst₂ (λ (l : Links) (h : Pointer). Chain l h xs) (sym same.links) (sym same.head) f
