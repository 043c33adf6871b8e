-- ===== src/EventLoop/Consistency.antt =====
-- The lists of the pool against the sockets of the connections: what holds between two steps.
pub mod Popped
use mevent.Common.{
  ℕ, ◌+◌, ◌≤◌, ◌<◌, ◌≡◌, ◌≢◌, refl, sym, ap, subst, Bool, true, false, List, [], ◌∷◌, ◌++◌, Option,
  some, none, arith, All, All-append, ◌⊎◌, inl, inr, Bool-cases, ◌==◌, ==_iff, if◌then◌else◌,
}
use mevent.ConnectionPool.{
  ConnectionPool, Pointer, Links, update, free_list_push, free_list_pop, active_list_push,
  active_list_erase, active_list_update,
}
use mevent.ConnectionPool.Segment.{
  NotIn, Distinct, NotIn-append_left, NotIn-append_right, NotIn-middle, NotIn-insert,
  Distinct-middle, Distinct-append_cross, Distinct-append_right,
}
use mevent.ConnectionPool.Active.{IsActive, active_list_push-IsActive}
use mevent.ConnectionPool.Erase.{active_list_erase-IsActive, active_list_update-IsActive}
use mevent.ConnectionPool.Free.{IsFree, Chain, free_list_push-IsFree, free_list_pop_lem}
use mevent.ConnectionPool.Apart.{
  SameFree, active_list_push-SameFree, active_list_erase-SameFree, active_list_update-SameFree,
  free_list_push-IsActive, free_list_pop-IsActive, free_list_pop-max_conn, free_list_push-count,
  IsFree-same,
}
use mevent.Connection.Whole.{is_positive}
use mevent.ConnectionPool.Sequences.{
  mem_cases, All-map, All-both, All-middle, NotIn-ne, Distinct-NotIn, recount, NotIn-small,
}

-- The active list holds exactly the connections with an open socket, the free list is apart from it,
-- and no more than one connection above the limit has been made.
pub record IsConsistent (p : ConnectionPool) (fd : Links) (active free : List ℕ) : Type 0 where
  pub active_list : IsActive p active
  pub free_list : IsFree p free
  pub free_distinct : Distinct free
  pub apart : All (λ f. NotIn f active) free
  pub opened : All (λ c. is_positive (fd c) ≡ true) active
  pub closed : (c : ℕ) → NotIn c active → fd c ≡ none
  pub known_active : All (λ c. c < p.count) active
  pub known_free : All (λ c. c < p.count) free
  pub bounded : p.count ≤ p.max_conn + 1

module _ (p : ConnectionPool) (fd : Links) (ys : List ℕ) (c : ℕ) (zs free : List ℕ)
    (v : IsConsistent p fd (ys ++ c ∷ zs) free) where
  -- `ResetConnection` on the pool, when the socket has been closed.
  pub retire-IsConsistent :
      IsConsistent
        (active_list_erase (free_list_push p c) c)
        (update fd c none)
        (ys ++ zs)
        (c ∷ free)
  retire-IsConsistent =
      let q = free_list_push p c in
      let same = active_list_erase-SameFree q c in
      let counts = free_list_push-count p c in
      let counted : p.count ≡ (active_list_erase q c).count =
        omega (arith, same.counted, counts.0) in
      let known = All-middle (λ x. x < p.count) ys c zs v.known_active in
      let elsewhere : NotIn c (ys ++ zs) = Distinct-NotIn ys c zs v.active_list.distinct in
      let not_free : NotIn c free =
        All-map (λ f. NotIn f (ys ++ c ∷ zs)) (λ f. f ≢ c) free
          (λ f n e. NotIn-ne f ys c zs n (sym e)) v.apart in
      record {
        active_list =
            active_list_erase-IsActive q ys c zs
              (free_list_push-IsActive p c (ys ++ c ∷ zs) v.active_list);
        free_list =
            IsFree-same q (active_list_erase q c) (c ∷ free) same
              (free_list_push-IsFree p c free v.free_list not_free);
        free_distinct = (not_free, v.free_distinct);
        apart = (
          elsewhere,
          All-map (λ f. NotIn f (ys ++ c ∷ zs)) (λ f. NotIn f (ys ++ zs)) free
              (λ f n. NotIn-middle f ys c zs n) v.apart,
        );
        opened =
            All-both (λ x. is_positive (fd x) ≡ true) (λ x. x ≢ c)
              (λ x. is_positive (update fd c none x) ≡ true) (ys ++ zs)
              (λ x a n. ground (arith, a, n))
              (All-middle (λ x. is_positive (fd x) ≡ true) ys c zs v.opened).1 elsewhere;
        closed = λ x n. elim (Bool-cases (c == x)) [
          | inl here ↦ rw here refl
          | inr other ↦ rw other (v.closed x (NotIn-insert x ys c zs (ground (arith, other)) n))
        ];
        known_active =
            recount p.count (active_list_erase q c).count (ys ++ zs) (omega (arith, counted))
              known.1;
        known_free = (
          omega (arith, counted, known.0),
          recount p.count (active_list_erase q c).count free (omega (arith, counted)) v.known_free,
        );
        bounded = omega (arith, counted, same.limited, counts.1, v.bounded);
      }

  -- `ActiveListUpdate`.
  pub update-IsConsistent : IsConsistent (active_list_update p c) fd ((ys ++ zs) ++ c ∷ []) free
  update-IsConsistent =
      let same = active_list_update-SameFree p c in
      let q = active_list_update p c in
      let last = λ (P : ℕ → Type 0) (a : All P (ys ++ c ∷ zs)).
        All-append P (ys ++ zs) (c ∷ []) (All-middle P ys c zs a).1
          ((All-middle P ys c zs a).0, tt) in
      record {
        active_list = active_list_update-IsActive p ys c zs v.active_list;
        free_list = IsFree-same p q free same v.free_list;
        free_distinct = v.free_distinct;
        apart =
            All-map (λ f. NotIn f (ys ++ c ∷ zs)) (λ f. NotIn f ((ys ++ zs) ++ c ∷ [])) free
              (λ f n. last (λ x. x ≢ f) n) v.apart;
        opened = last (λ x. is_positive (fd x) ≡ true) v.opened;
        closed = λ x n. v.closed x (
            NotIn-insert x ys c zs (NotIn-append_right x (ys ++ zs) (c ∷ []) n).0
              (NotIn-append_left x (ys ++ zs) (c ∷ []) n));
        known_active =
            recount p.count q.count ((ys ++ zs) ++ c ∷ []) (omega (arith, same.counted))
              (last (λ x. x < p.count) v.known_active);
        known_free = recount p.count q.count free (omega (arith, same.counted)) v.known_free;
        bounded = omega (arith, same.counted, same.limited, v.bounded);
      }
