-- ===== src/EventLoop/Consistency/Popped.antt =====
-- connection_pool.cpp and event_loop.cpp: the agreement of lists and sockets while `Accept` has a
-- connection out of both lists.
use mevent.Common.{
  ℕ, ◌<◌, ◌≡◌, ◌≢◌, sym, subst, true, List, [], ◌∷◌, ◌++◌, some, none, arith, All, All-append, ◌⊎◌,
  inl, inr,
}
use mevent.ConnectionPool.{
  ConnectionPool, Pointer, Links, update, free_list_push, free_list_pop, active_list_push,
}
use mevent.ConnectionPool.Segment.{NotIn, Distinct, NotIn-append_left, NotIn-append_right}
use mevent.ConnectionPool.Active.{active_list_push-IsActive}
use mevent.ConnectionPool.Free.{free_list_push-IsFree, free_list_pop_lem}
use mevent.ConnectionPool.Apart.{
  active_list_push-SameFree, free_list_push-IsActive, free_list_pop-IsActive,
  free_list_pop-max_conn, free_list_push-count, IsFree-same,
}
use mevent.Connection.Whole.{is_positive}
use mevent.ConnectionPool.Sequences.{All-both, recount, NotIn-small}
use mevent.EventLoop.Consistency.{IsConsistent}

-- What `FreeListPop` gives is in neither list.
pub record IsPopped (q : ConnectionPool) (fd : Links) (active rest : List ℕ) (c : ℕ) : Type 0 where
  pub others : IsConsistent q fd active rest
  pub not_active : NotIn c active
  pub not_free : NotIn c rest
  pub known : c < q.count

-- `FreeListPop` gives a connection that is in neither list, or changes nothing.
pub free_list_pop-IsPopped :
    (p : ConnectionPool) (fd : Links) (active free : List ℕ)
    → IsConsistent p fd active free
    → let (q, conn) = free_list_pop p in
      ((c : ℕ) × (rest : List ℕ) × (conn ≡ some c) × IsPopped q fd active rest c)
      ⊎ ((conn ≡ none) × (q ≡ p))
free_list_pop-IsPopped p fd active free v =
    let q = (free_list_pop p).0 in
    let kept =
      free_list_pop-IsActive p active (NotIn-small p.count active v.known_active) v.active_list in
    let limit = free_list_pop-max_conn p in
    elim (free_list_pop_lem p free v.free_list) [
      | inl (c, rest, e, found, left, count) ↦
          let apart : All (λ f. NotIn f active) (c ∷ rest) =
            subst (All (λ f. NotIn f active)) e v.apart in
          let distinct : Distinct (c ∷ rest) = subst Distinct e v.free_distinct in
          let known : All (λ x. x < p.count) (c ∷ rest) =
            subst (All (λ x. x < p.count)) e v.known_free in
          inl (
            c,
            rest,
            found,
            record {
              others = record {
                active_list = kept;
                free_list = left;
                free_distinct = distinct.1;
                apart = apart.1;
                opened = v.opened;
                closed = v.closed;
                known_active = recount p.count q.count active (omega (arith, count)) v.known_active;
                known_free = recount p.count q.count rest (omega (arith, count)) known.1;
                bounded = omega (arith, count, limit, v.bounded);
              };
              not_active = apart.0;
              not_free = distinct.0;
              known = omega (arith, count, known.0);
            },
          )
      | inr (inl (e, room, found, left, count)) ↦ inl (
        p.count,
        [],
        found,
        record {
          others = record {
            active_list = kept;
            free_list = left;
            free_distinct = tt;
            apart = tt;
            opened = v.opened;
            closed = v.closed;
            known_active = recount p.count q.count active (omega (arith, count)) v.known_active;
            known_free = tt;
            bounded = omega (arith, count, limit, room);
          };
          not_active = NotIn-small p.count active v.known_active;
          not_free = tt;
          known = omega (arith, count);
        },
      )
      | inr (inr (e, full, nothing, same)) ↦ inr (nothing, same)
    ]

module _ (q : ConnectionPool) (fd : Links) (active rest : List ℕ) (c : ℕ)
    (v : IsPopped q fd active rest c) where
  -- `ActiveListPush` of a connection with an open socket.
  pub admit-IsConsistent :
      (s : Pointer)
      → is_positive s ≡ true
      → IsConsistent (active_list_push q c) (update fd c s) (active ++ c ∷ []) rest
  admit-IsConsistent s open_fd =
      let same = active_list_push-SameFree q c in
      let q' = active_list_push q c in
      let o = v.others in
      record {
        active_list = active_list_push-IsActive q c active o.active_list v.not_active;
        free_list = IsFree-same q q' rest same o.free_list;
        free_distinct = o.free_distinct;
        apart =
            All-both (λ f. NotIn f active) (λ f. f ≢ c) (λ f. NotIn f (active ++ c ∷ [])) rest
              (λ f n ne. All-append (λ x. x ≢ f) active (c ∷ []) n ((λ e. ne (sym e)), tt)) o.apart
              v.not_free;
        opened =
            All-append (λ x. is_positive (update fd c s x) ≡ true) active (c ∷ [])
              (All-both (λ x. is_positive (fd x) ≡ true) (λ x. x ≢ c)
                (λ x. is_positive (update fd c s x) ≡ true) active (λ x a n. ground (arith, a, n))
                o.opened v.not_active)
              (ground (arith, open_fd), tt);
        closed = λ x n.
            let old = o.closed x (NotIn-append_left x active (c ∷ []) n) in
            let ne = (NotIn-append_right x active (c ∷ []) n).0 in ground (arith, old, ne);
        known_active =
            All-append (λ x. x < q'.count) active (c ∷ [])
              (recount q.count q'.count active (omega (arith, same.counted)) o.known_active)
              (omega (arith, same.counted, v.known), tt);
        known_free = recount q.count q'.count rest (omega (arith, same.counted)) o.known_free;
        bounded = omega (arith, same.counted, same.limited, o.bounded);
      }

  -- `FreeListPush` of a connection whose socket was closed again.
  pub give_back-IsConsistent : IsConsistent (free_list_push q c) fd active (c ∷ rest)
  give_back-IsConsistent =
      let counts = free_list_push-count q c in
      let q' = free_list_push q c in
      let o = v.others in
      record {
        active_list = free_list_push-IsActive q c active o.active_list;
        free_list = free_list_push-IsFree q c rest o.free_list v.not_free;
        free_distinct = (v.not_free, o.free_distinct);
        apart = (v.not_active, o.apart);
        opened = o.opened;
        closed = o.closed;
        known_active = recount q.count q'.count active (omega (arith, counts.0)) o.known_active;
        known_free = (
          omega (arith, counts.0, v.known),
          recount q.count q'.count rest (omega (arith, counts.0)) o.known_free,
        );
        bounded = omega (arith, counts.0, counts.1, o.bounded);
      }
