-- ===== src/ConnectionPool/Active.antt =====
-- The active list: the links represent a sequence of connections, and each operation is the
-- operation on that sequence.
use mevent.Common.{ℕ, ◌≡◌, refl, List, [], ◌∷◌, ◌++◌, some, none, arith}
use mevent.ConnectionPool.{update, ConnectionPool, active_list_push}
use mevent.ConnectionPool.Segment.{
  NotIn, Distinct, Distinct-append_cross, Distinct-snoc, NotIn-append_left, NotIn-append_right,
  Segment, frame_next, frame_prev, redirect_end, Segment-append, Segment-last, Ending, nothing,
  last, ending,
}

-- The active list holds exactly `xs`, in this order, and no other connection has links.
pub record IsActive (p : ConnectionPool) (xs : List ℕ) : Type 0 where
  pub linked :
      Segment p.active_next p.active_prev none p.active_list_head xs p.active_list_tail none
  pub distinct : Distinct xs
  pub unlinked : (c : ℕ) → NotIn c xs → (p.active_next c ≡ none) × (p.active_prev c ≡ none)

push_first :
    (p : ConnectionPool) (c : ℕ)
    → p.active_list_tail ≡ none
    → active_list_push p c ≡ record p { active_list_tail = some c; active_list_head = some c }
unfolding active_list_push
push_first p c e = rw (e, active_list_push)

push_behind :
    (p : ConnectionPool) (c q : ℕ)
    → p.active_list_tail ≡ some q
    → active_list_push p c ≡ record p {
      active_next = update (update p.active_next q (some c)) c none;
      active_prev = update p.active_prev c (some q);
      active_list_tail = some c;
    }
unfolding active_list_push
push_behind p c q e = rw (e, active_list_push)

push-IsActive :
    (p : ConnectionPool) (c : ℕ) (xs : List ℕ)
    → Ending xs
    → IsActive p xs
    → NotIn c xs
    → IsActive (active_list_push p c) (xs ++ c ∷ [])
push-IsActive p c xs nothing v n = rw (push_first p c v.linked.1) (record {
  linked = (refl, (v.unlinked c tt).1, ((v.unlinked c tt).0, refl));
  distinct = (tt, tt);
  unlinked = λ x h. v.unlinked x tt;
})
push-IsActive p c xs (last ys q) v n =
    let (tail, ends) =
      Segment-last p.active_next p.active_prev none p.active_list_head ys q p.active_list_tail none
        v.linked in
    let q_ne_c = (NotIn-append_right c ys (q ∷ []) n).0 in
    rw (push_behind p c q tail) (record {
      linked =
          Segment-append _ _ none p.active_list_head (ys ++ q ∷ []) (c ∷ []) (some q) (some c)
            (some c) none
            (frame_prev _ p.active_prev c (some q) none p.active_list_head (ys ++ q ∷ []) (some q)
              (some c) n
              (frame_next _ p.active_prev c none none p.active_list_head (ys ++ q ∷ []) (some q)
                (some c) n
                (redirect_end p.active_next p.active_prev none p.active_list_head ys q (some q) none
                  (some c) (Distinct-append_cross ys (q ∷ []) v.distinct).0 (rw tail at v.linked))))
            (refl, ground arith, (ground arith, refl));
      distinct = Distinct-snoc (ys ++ q ∷ []) c v.distinct n;
      unlinked = λ x h.
          let old = NotIn-append_left x (ys ++ q ∷ []) (c ∷ []) h in
          let ne_c = (NotIn-append_right x (ys ++ q ∷ []) (c ∷ []) h).0 in
          let ne_q = (NotIn-append_right x ys (q ∷ []) old).0 in
          let links = v.unlinked x old in (ground arith, ground arith);
    })

-- `ActiveListPush` puts a connection that is not in the list at its end.
pub active_list_push-IsActive :
    (p : ConnectionPool) (c : ℕ) (xs : List ℕ)
    → IsActive p xs
    → NotIn c xs
    → IsActive (active_list_push p c) (xs ++ c ∷ [])
active_list_push-IsActive p c xs v n = push-IsActive p c xs (ending xs) v n
