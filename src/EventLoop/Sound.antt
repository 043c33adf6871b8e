-- ===== src/EventLoop/Sound.antt =====
-- event_loop.cpp: the parts of a handler that close a connection, and what a registered function
-- may do.
use mevent.Common.{
  ℕ, ◌≡◌, ◌≢◌, ◌∙◌, refl, sym, ap, subst, subst₂, fun_ext, true, Bytes, List, ◌∷◌, ◌++◌, ◌==◌,
  ==_iff, Option, some, none, arith, inl, inr, Bool-cases, Option-cases, Whenever, Whenever-some,
}
use mevent.ConnectionPool.{update}
use mevent.ConnectionPool.Segment.{NotIn}
use mevent.Connection.{ConnStatus}
use mevent.Connection.Whole.{is_positive, closed_fd, reset}
use mevent.EventLoop.{
  EventLoop, Handlers, set_conn, on_close, retire, reset_connection, close, settle, settle_written,
}
use mevent.EventLoop.Consistency.{IsConsistent, retire-IsConsistent}
use mevent.ConnectionPool.Sequences.{mem_cases}
use mevent.EventLoop.Frames.{sockets, Same, set_conn-Same, on_close-Same}

-- The two lists of the pool agree with the sockets.
abbrev pub IsSound : EventLoop → Type 0
IsSound lp =
    (active : List ℕ) × (free : List ℕ) × IsConsistent lp.conn_pool (sockets lp) active free

pub Same-IsSound : (a b : EventLoop) → Same a b → IsSound a → IsSound b
Same-IsSound a b s v =
    (v.0, v.1, subst₂ (λ p fd. IsConsistent p fd v.0 v.1) (sym s.pool) (sym (fun_ext s.fds)) v.2)

closed_fd-positive : (s : Option ℕ) → is_positive s ≡ true → closed_fd s ≡ none
closed_fd-positive s e = ground (arith, e)

shut-closed : (s : Option ℕ) → is_positive s ≡ true → s ≢ none
shut-closed s e n = ground (arith, e, n)

-- An open connection is in the active list.
pub open-NotIn :
    (lp : EventLoop) (v : IsSound lp) (c : ℕ) → is_positive (sockets lp c) ≡ true → ¬ NotIn c v.0
open-NotIn lp v c e n = shut-closed (sockets lp c) e (v.2.closed c n)

retire-sockets :
    (lp : EventLoop) (c : ℕ)
    → is_positive (sockets lp c) ≡ true
    → (d : ℕ) → sockets (retire lp c) d ≡ update (sockets lp) c none d
unfolding retire reset
retire-sockets lp c e d = elim (Bool-cases (c == d)) [
  | inl same ↦ rw (sockets, same) (closed_fd-positive (lp.conns c).io.fd e)
  | inr other ↦ rw (sockets, other) refl
]

pub retire-closed :
    (lp : EventLoop) (c : ℕ) → is_positive (sockets lp c) ≡ true → sockets (retire lp c) c ≡ none
retire-closed lp c e = retire-sockets lp c e c ∙ rw ((==_iff c c).1 refl) refl

-- `ResetConnection` behind `OnClose`, on a connection of the active list.
pub retire-IsConsistent_lem :
    (lp : EventLoop) (ys : List ℕ) (c : ℕ) (zs free : List ℕ)
    → is_positive (sockets lp c) ≡ true
    → IsConsistent lp.conn_pool (sockets lp) (ys ++ c ∷ zs) free
    → IsConsistent (retire lp c).conn_pool (sockets (retire lp c)) (ys ++ zs) (c ∷ free)
unfolding retire
retire-IsConsistent_lem lp ys c zs free e v =
    subst (λ fd. IsConsistent (retire lp c).conn_pool fd (ys ++ zs) (c ∷ free))
      (sym (fun_ext (retire-sockets lp c e)))
      (retire-IsConsistent lp.conn_pool (sockets lp) ys c zs free v)

pub retire-IsSound :
    (lp : EventLoop) (c : ℕ)
    → is_positive (sockets lp c) ≡ true
    → IsSound lp
    → IsSound (retire lp c)
retire-IsSound lp c e v = elim (mem_cases c v.0) [
  | inl n ↦ absurd (open-NotIn lp v c e n)
  | inr (ys, zs, split) ↦
      let w = subst (λ xs. IsConsistent lp.conn_pool (sockets lp) xs v.1) split v.2 in
      (ys ++ zs, c ∷ v.1, retire-IsConsistent_lem lp ys c zs v.1 e w)
]

-- What the functions that the user registers do to the loop: they leave the pool and the sockets
-- alone, or call `Connection::Close`, any number of times.
pub data Effect (h : Handlers) : EventLoop → EventLoop → Type 0 where
  quiet : {a b : EventLoop} → Same a b → Effect h a b
  closing : {a b : EventLoop} (c : ℕ) → close h a c ≡ some b → Effect h a b
  both : {a m b : EventLoop} → Effect h a m → Effect h m b → Effect h a b

-- The function for the end of a websocket must not close the connection that is being closed.
pub record AreTame (h : Handlers) : Type 0 where
  pub requests : (f c : ℕ) (lp : EventLoop) → Effect h lp (h.on_request f c lp)
  pub frames : (f c : ℕ) (msg : Bytes) (lp : EventLoop) → Effect h lp (h.on_frame f c msg lp)
  pub closes : (f c : ℕ) (lp : EventLoop) → Same lp (h.on_close f c lp)

module _ (h : Handlers) (t : AreTame h) where
  pub reset_connection-IsSound :
      (lp : EventLoop) (c : ℕ) → IsSound lp → Whenever IsSound (reset_connection h lp c)
  unfolding reset_connection
  reset_connection-IsSound lp c v = elim (Bool-cases (is_positive (lp.conns c).io.fd)) [
    | inr shut ↦ rw (reset_connection, shut) v
    | inl open_fd ↦ elim (Option-cases (on_close h lp c)) [
      | inl n ↦ rw (reset_connection, open_fd, n) tt
      | inr (m, n) ↦
          let s = Whenever-some (Same lp) (on_close h lp c) m (on_close-Same h t.closes lp c) n in
          rw (reset_connection, open_fd, n)
            (retire-IsSound m c (ap is_positive (s.fds c) ∙ open_fd) (Same-IsSound lp m s v))
    ]
  ]

  pub close-IsSound : (lp : EventLoop) (c : ℕ) → IsSound lp → Whenever IsSound (close h lp c)
  unfolding close
  close-IsSound lp c v = elim (Bool-cases (lp.conns c).attached) [
    | inl e ↦ rw (close, e) (reset_connection-IsSound lp c v)
    | inr e ↦ rw (close, e) tt
  ]

  pub Effect-IsSound : {a b : EventLoop} → Effect h a b → IsSound a → IsSound b
  Effect-IsSound {a} {b} (quiet s) v = Same-IsSound a b s v
  Effect-IsSound {a} {b} (closing c e) v =
      Whenever-some IsSound (close h a c) b (close-IsSound a c v) e
  Effect-IsSound (both p q) v = Effect-IsSound q (Effect-IsSound p v)

  pub settle-IsSound :
      (s : ConnStatus) (lp : EventLoop) (c : ℕ) → IsSound lp → Whenever IsSound (settle s h lp c)
  unfolding settle
  settle-IsSound ConnStatus.again lp c v = v
  settle-IsSound ConnStatus.upgrade lp c v = reset_connection-IsSound lp c v
  settle-IsSound ConnStatus.end lp c v = reset_connection-IsSound lp c v
  settle-IsSound ConnStatus.error lp c v = reset_connection-IsSound lp c v
  settle-IsSound ConnStatus.close lp c v = reset_connection-IsSound lp c v

  pub settle_written-IsSound :
      (s : ConnStatus) (lp : EventLoop) (c : ℕ)
      → IsSound lp
      → Whenever IsSound (settle_written s h lp c)
  unfolding settle_written
  settle_written-IsSound ConnStatus.again lp c v =
      let watched = record (lp.conns c) { ev_writable = true } in
      Same-IsSound lp (set_conn lp c watched) (set_conn-Same lp c watched refl) v
  settle_written-IsSound ConnStatus.upgrade lp c v = v
  settle_written-IsSound ConnStatus.end lp c v = reset_connection-IsSound lp c v
  settle_written-IsSound ConnStatus.error lp c v = reset_connection-IsSound lp c v
  settle_written-IsSound ConnStatus.close lp c v = reset_connection-IsSound lp c v
