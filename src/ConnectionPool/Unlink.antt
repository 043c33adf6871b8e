-- ===== src/ConnectionPool/Unlink.antt =====
-- What the assignments of `ActiveListErase` amount to, for each pair of neighbours.
use mevent.Common.{ℕ, ◌≡◌, ◌≢◌, ap, ◌∙◌, some, none, arith, true, false}
use mevent.ConnectionPool.{
  update, ConnectionPool, same_pointer, unlink_prev, unlink_next, erase_links,
}

-- What `unlink_prev` and `unlink_next` do, for each pair of neighbours.
module _ (p : ConnectionPool) (c : ℕ) where
  pub unlink_prev-some :
      (q : ℕ)
      → p.active_prev c ≡ some q
      → unlink_prev p c ≡ record p { active_next = update p.active_next q (p.active_next c) }
  unfolding unlink_prev
  unlink_prev-some q e = rw (e, unlink_prev)

  pub unlink_prev-none :
      (z : ℕ)
      → p.active_prev c ≡ none
      → p.active_next c ≡ some z
      → unlink_prev p c
        ≡ record p { active_list_head = some z; active_prev = update p.active_prev z none }
  unfolding unlink_prev
  unlink_prev-none z e f = rw (e, f, unlink_prev)

  pub unlink_next-some :
      (z : ℕ)
      → p.active_next c ≡ some z
      → unlink_next p c ≡ record p { active_prev = update p.active_prev z (p.active_prev c) }
  unfolding unlink_next
  unlink_next-some z e = rw (e, unlink_next)

  pub unlink_next-none :
      (q : ℕ)
      → p.active_next c ≡ none
      → p.active_prev c ≡ some q
      → unlink_next p c
        ≡ record p { active_list_tail = some q; active_next = update p.active_next q none }
  unfolding unlink_next
  unlink_next-none q e f = rw (e, f, unlink_next)

abbrev pub cut_off : ℕ → ConnectionPool → ConnectionPool
cut_off c r = record r {
  active_next = update r.active_next c none;
  active_prev = update r.active_prev c none;
}

module _ (p : ConnectionPool) (c : ℕ) where
  pub erase_only :
      same_pointer p.active_list_tail p.active_list_head ≡ true
      → erase_links p c ≡ cut_off c (record p { active_list_tail = none; active_list_head = none })
  unfolding erase_links
  erase_only e = rw e

  erase_among :
      same_pointer p.active_list_tail p.active_list_head ≡ false
      → erase_links p c ≡ cut_off c (unlink_next (unlink_prev p c) c)
  unfolding erase_links
  erase_among e = rw e

  pub erase_first :
      (z : ℕ)
      → same_pointer p.active_list_tail p.active_list_head ≡ false
      → p.active_prev c ≡ none
      → p.active_next c ≡ some z
      → erase_links p c
        ≡ cut_off c (record p {
          active_list_head = some z;
          active_prev = update (update p.active_prev z none) z (update p.active_prev z none c);
        })
  erase_first z t e f =
      erase_among t
      ∙ ap (λ (r : ConnectionPool). cut_off c (unlink_next r c)) (unlink_prev-none p c z e f)
      ∙ ap (cut_off c) (
          unlink_next-some
            (record p { active_list_head = some z; active_prev = update p.active_prev z none }) c z
            f)

  pub erase_last :
      (q : ℕ)
      → same_pointer p.active_list_tail p.active_list_head ≡ false
      → p.active_prev c ≡ some q
      → p.active_next c ≡ none
      → q ≢ c
      → erase_links p c
        ≡ cut_off c (record p {
          active_list_tail = some q;
          active_next = update (update p.active_next q (p.active_next c)) q none;
        })
  erase_last q t e f ne =
      erase_among t
      ∙ ap (λ (r : ConnectionPool). cut_off c (unlink_next r c)) (unlink_prev-some p c q e)
      ∙ ap (cut_off c) (
          unlink_next-none (record p { active_next = update p.active_next q (p.active_next c) }) c q
            (ground arith) e)

  pub erase_inner :
      (q z : ℕ)
      → same_pointer p.active_list_tail p.active_list_head ≡ false
      → p.active_prev c ≡ some q
      → p.active_next c ≡ some z
      → q ≢ c
      → erase_links p c
        ≡ cut_off c (record p {
          active_next = update p.active_next q (p.active_next c);
          active_prev = update p.active_prev z (p.active_prev c);
        })
  erase_inner q z t e f ne =
      erase_among t
      ∙ ap (λ (r : ConnectionPool). cut_off c (unlink_next r c)) (unlink_prev-some p c q e)
      ∙ ap (cut_off c) (
          unlink_next-some (record p { active_next = update p.active_next q (p.active_next c) }) c z
            (ground arith))
