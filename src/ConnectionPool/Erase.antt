-- ===== src/ConnectionPool/Erase.antt =====
-- `ActiveListErase` and `ActiveListUpdate` on the sequence that the links represent.
use mevent.Common.{
  ℕ, ◌≡◌, ◌≢◌, refl, subst, subst₂, append-nil, ◌∙◌, List, [], ◌∷◌, ◌++◌, some, none, arith, inl,
  inr, Bool-cases, ◌==◌, true, false, All-append,
}
use mevent.ConnectionPool.{
  Pointer, update, ConnectionPool, same_pointer, skip_cursor, erase_links, active_list_erase,
  active_list_update,
}
use mevent.ConnectionPool.Segment.{
  NotIn, Distinct-append_left, Distinct-append_right, Distinct-append_cross, Distinct-middle,
  NotIn-append_left, NotIn-append_right, NotIn-of_cross, Segment, frame_next, frame_prev,
  redirect_end, redirect_start, Segment-split, Segment-append, Segment-last, Segment-head,
  Segment-tail, NotIn-insert, Ending, nothing, last, ending,
}
use mevent.ConnectionPool.Unlink.{erase_only, erase_first, erase_last, erase_inner}
use mevent.ConnectionPool.Active.{IsActive, active_list_push-IsActive}

module _ (p : ConnectionPool) (c : ℕ) where
  IsActive-only : IsActive p (c ∷ []) → IsActive (erase_links p c) []
  IsActive-only v = rw (erase_only p c (rw (v.linked.0, v.linked.2.1) (ground arith))) (record {
    linked = (refl, refl);
    distinct = tt;
    unlinked = λ x h. elim (Bool-cases (c == x)) [
      | inl same ↦ rw same (refl, refl)
      | inr other ↦ rw other (v.unlinked x (ground arith, tt))
    ];
  })

  IsActive-first :
      (z : ℕ) (zs : List ℕ) → IsActive p (c ∷ z ∷ zs) → IsActive (erase_links p c) (z ∷ zs)
  IsActive-first z zs v =
      let z_ne_c = v.distinct.0.0 in
      let before = v.linked.1 in
      let after = v.linked.2.0 in
      let next = p.active_next in
      let prev = p.active_prev in
      let cleared : update prev z none c ≡ none = ground arith in
      let started : Segment next prev (some c) (some z) (z ∷ zs) p.active_list_tail none =
        (refl, v.linked.2.1, v.linked.2.2) in
      let restarted : Segment next (update (update prev z none) z (update prev z none c)) none
          (some z) (z ∷ zs) p.active_list_tail none =
        subst
          (λ (b : Pointer).
            Segment next (update (update prev z none) z (update prev z none c)) b (some z) (z ∷ zs)
              p.active_list_tail none)
          cleared
          (redirect_start next (update prev z none) none z zs p.active_list_tail none
            (update prev z none c) v.distinct.1.0
            (redirect_start next prev (some c) z zs p.active_list_tail none none v.distinct.1.0
              started)) in
      let (w, tail, w_ne_c) =
        Segment-tail p.active_next p.active_prev (λ x. x ≢ c) (some c) (p.active_next c) z zs
          p.active_list_tail none v.distinct.0 v.linked.2 in
      let apart : same_pointer p.active_list_tail p.active_list_head ≡ false =
        rw (tail, v.linked.0) (ground arith) in
      rw (erase_first p c z apart before after) (record {
        linked =
            frame_prev _ _ c none none (some z) (z ∷ zs) _ none v.distinct.0
              (frame_next _ _ c none none (some z) (z ∷ zs) _ none v.distinct.0 restarted);
        distinct = v.distinct.1;
        unlinked = λ x h. elim (Bool-cases (c == x)) [
          | inl same ↦ rw same (refl, refl)
          | inr other ↦
              let links = v.unlinked x (ground arith, h) in
              let z_ne_x = h.0 in (ground arith, ground arith)
        ];
      })

  module _ (ys : List ℕ) (q : ℕ) where
    abbrev left : List ℕ
    left = ys ++ q ∷ []

    -- The parts of the list around a connection that has a predecessor.
    around :
        (zs : List ℕ)
        → IsActive p (left ++ c ∷ zs)
        → (p.active_prev c ≡ some q)
          × (q ≢ c)
          × Segment p.active_next p.active_prev none p.active_list_head left (some q) (some c)
          × Segment p.active_next p.active_prev
              (some c)
              (p.active_next c)
              zs
              p.active_list_tail
              none
          × (same_pointer p.active_list_tail p.active_list_head ≡ false)
    around zs v =
        let next = p.active_next in
        let prev = p.active_prev in
        let (h', t', l, r) =
          Segment-split next prev none p.active_list_head left (c ∷ zs) p.active_list_tail none
            v.linked in
        let (before, _) = Segment-last next prev none p.active_list_head ys q t' h' l in
        let cross = Distinct-append_cross left (c ∷ zs) v.distinct in
        let (w, tail, w_apart) =
          Segment-tail next prev (λ x. NotIn x left) t' h' c zs p.active_list_tail none cross r in
        let (f, head, f_ne_w) =
          Segment-head next prev (λ x. x ≢ w) none p.active_list_head ys q t' h' w_apart l in
        (
          r.1 ∙ before,
          (NotIn-append_right c ys (q ∷ []) cross.0).0,
          subst₂ (λ (t h : Pointer). Segment next prev none p.active_list_head left t h) before r.0
              l,
          r.2,
          rw (tail, head) (ground arith),
        )

    still_cleared :
        (zs : List ℕ) (x : ℕ)
        → IsActive p (left ++ c ∷ zs)
        → c ≢ x
        → NotIn x (left ++ zs)
        → (q ≢ x) × (p.active_next x ≡ none) × (p.active_prev x ≡ none)
    still_cleared zs x v ne h =
        let links = v.unlinked x (NotIn-insert x left c zs ne h) in
        ((NotIn-append_right x ys (q ∷ []) (NotIn-append_left x left zs h)).0, links.0, links.1)

    IsActive-last : IsActive p (left ++ c ∷ []) → IsActive (erase_links p c) (left ++ [])
    IsActive-last v =
        let (before, q_ne_c, l, r, apart) = around [] v in
        let cross = Distinct-append_cross left (c ∷ []) v.distinct in
        let q_once =
          (Distinct-append_cross ys (q ∷ []) (Distinct-append_left left (c ∷ []) v.distinct)).0 in
        rw (erase_last p c q apart before r.0 q_ne_c, append-nil left)
          (record {
            linked = frame_prev _ _ c none none _ left _ none cross.0 (
                frame_next _ _ c none none _ left _ none cross.0 (
                  redirect_end _ p.active_prev none _ ys q _ _ none q_once (
                    redirect_end p.active_next p.active_prev none _ ys q _ _ (p.active_next c)
                      q_once l)));
            distinct = Distinct-append_left left (c ∷ []) v.distinct;
            unlinked = λ x h. elim (Bool-cases (c == x)) [
              | inl same ↦ rw same (refl, refl)
              | inr other ↦
                  let old = still_cleared [] x v (ground arith) (rw (append-nil left) h) in
                  (ground arith, ground arith)
            ];
          })

    linked_left :
        (z : ℕ) (zs : List ℕ)
        → IsActive p (left ++ c ∷ z ∷ zs)
        → Segment
            (update p.active_next q (p.active_next c))
            p.active_prev
            none
            p.active_list_head
            left
            (some q)
            (some z)
    linked_left z zs v =
        let (before, q_ne_c, l, r, apart) = around (z ∷ zs) v in
        let q_once =
          (Distinct-append_cross ys (q ∷ [])
            (Distinct-append_left left (c ∷ z ∷ zs) v.distinct)).0 in
        subst
          (λ (a : Pointer).
            Segment (update p.active_next q (p.active_next c)) p.active_prev none p.active_list_head
              left (some q) a)
          r.0
          (redirect_end p.active_next p.active_prev none p.active_list_head ys q (some q) (some c)
            (p.active_next c) q_once l)

    linked_right :
        (z : ℕ) (zs : List ℕ)
        → IsActive p (left ++ c ∷ z ∷ zs)
        → Segment p.active_next
            (update p.active_prev z (p.active_prev c))
            (some q)
            (some z)
            (z ∷ zs)
            p.active_list_tail
            none
    linked_right z zs v =
        let (before, q_ne_c, l, r, apart) = around (z ∷ zs) v in
        let rest = Distinct-append_right left (c ∷ z ∷ zs) v.distinct in
        subst
          (λ (b : Pointer).
            Segment p.active_next (update p.active_prev z (p.active_prev c)) b (some z) (z ∷ zs)
              p.active_list_tail none)
          before
          (redirect_start p.active_next p.active_prev (some c) z zs p.active_list_tail none
            (p.active_prev c) rest.1.0 (refl, r.1, r.2))

    IsActive-inner :
        (z : ℕ) (zs : List ℕ)
        → IsActive p (left ++ c ∷ z ∷ zs)
        → IsActive (erase_links p c) (left ++ z ∷ zs)
    IsActive-inner z zs v =
        let next = p.active_next in
        let prev = p.active_prev in
        let (before, q_ne_c, l, r, apart) = around (z ∷ zs) v in
        let cross = Distinct-append_cross left (c ∷ z ∷ zs) v.distinct in
        let rest = Distinct-append_right left (c ∷ z ∷ zs) v.distinct in
        rw (erase_inner p c q z apart before r.0 q_ne_c) (record {
          linked =
              Segment-append _ _ none p.active_list_head left (z ∷ zs) (some q) (some z) _ none
                (frame_prev _ _ c none none _ left _ _ cross.0 (
                  frame_prev _ _ z (prev c) none _ left _ _ cross.1.0
                    (frame_next _ _ c none none _ left _ _ cross.0 (linked_left z zs v))))
                (frame_prev _ _ c none _ _ (z ∷ zs) _ _ rest.0 (
                  frame_next _ _ c none _ _ (z ∷ zs) _ _ rest.0 (
                    frame_next _ _ q (next c) _ _ (z ∷ zs) _ _
                      (NotIn-of_cross ys q (z ∷ zs) cross.1) (linked_right z zs v))));
          distinct = Distinct-middle left c (z ∷ zs) v.distinct;
          unlinked = λ x h. elim (Bool-cases (c == x)) [
            | inl same ↦ rw same (refl, refl)
            | inr other ↦
                let old = still_cleared (z ∷ zs) x v (ground arith) h in
                let z_ne_x = (NotIn-append_right x left (z ∷ zs) h).0 in
                (ground arith, ground arith)
          ];
        })

-- Over a change of the cursor alone.
IsActive-cursor :
    (p : ConnectionPool) (xs : List ℕ) (k : Pointer)
    → IsActive p xs
    → IsActive (record p { active_list_lookup_cursor = k }) xs
IsActive-cursor p xs k v = record {
  linked = v.linked;
  distinct = v.distinct;
  unlinked = v.unlinked;
}

skip_cursor-IsActive :
    (p : ConnectionPool) (c : ℕ) (xs : List ℕ) → IsActive p xs → IsActive (skip_cursor p c) xs
unfolding skip_cursor
skip_cursor-IsActive p c xs v =
    elim (Bool-cases (same_pointer (some c) p.active_list_lookup_cursor)) [
      | inl hit ↦ rw hit (IsActive-cursor p xs (p.active_next c) v)
      | inr miss ↦ rw miss v
    ]

erase-Ending :
    (p : ConnectionPool) (ys : List ℕ) (c : ℕ) (zs : List ℕ)
    → Ending ys
    → IsActive p (ys ++ c ∷ zs)
    → IsActive (erase_links p c) (ys ++ zs)
erase-Ending p ys c [] nothing v = IsActive-only p c v
erase-Ending p ys c (z ∷ zs) nothing v = IsActive-first p c z zs v
erase-Ending p ys c [] (last xs q) v = IsActive-last p c xs q v
erase-Ending p ys c (z ∷ zs) (last xs q) v = IsActive-inner p c xs q z zs v

-- `ActiveListErase` takes a connection out of the active list, wherever it stands, and leaves the
-- order of the others.
pub active_list_erase-IsActive :
    (p : ConnectionPool) (ys : List ℕ) (c : ℕ) (zs : List ℕ)
    → IsActive p (ys ++ c ∷ zs)
    → IsActive (active_list_erase p c) (ys ++ zs)
unfolding active_list_erase
active_list_erase-IsActive p ys c zs v =
    erase-Ending (skip_cursor p c) ys c zs (ending ys) (skip_cursor-IsActive p c (ys ++ c ∷ zs) v)

-- `ActiveListUpdate` moves a connection of the active list to its end.
pub active_list_update-IsActive :
    (p : ConnectionPool) (ys : List ℕ) (c : ℕ) (zs : List ℕ)
    → IsActive p (ys ++ c ∷ zs)
    → IsActive (active_list_update p c) ((ys ++ zs) ++ c ∷ [])
unfolding active_list_update
active_list_update-IsActive p ys c zs v =
    active_list_push-IsActive (active_list_erase p c) c (ys ++ zs)
      (active_list_erase-IsActive p ys c zs v)
      (All-append (λ x. x ≢ c) ys zs (Distinct-append_cross ys (c ∷ zs) v.distinct).0
        (Distinct-append_right ys (c ∷ zs) v.distinct).0)

erased_head :
    (p : ConnectionPool) (c : ℕ)
    → same_pointer p.active_list_tail p.active_list_head ≡ true
    → (erase_links p c).active_list_head ≡ none
erased_head p c e = rw (erase_only p c e)

-- The code does not ask whether the connection is in the list: where the list holds one connection,
-- erasing any connection at all empties it.
active_list_erase_one :
    (p : ConnectionPool) (c d : ℕ)
    → IsActive p (d ∷ [])
    → (active_list_erase p c).active_list_head ≡ none
unfolding active_list_erase
active_list_erase_one p c d v =
    let w = skip_cursor-IsActive p c (d ∷ []) v in
    erased_head (skip_cursor p c) c (rw (w.linked.0, w.linked.2.1) (ground arith))
