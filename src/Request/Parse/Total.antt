-- ===== src/Request/Parse/Total.antt =====
-- `Parse` ends, and what it leaves behind for each status it returns; a request that is kept alive
-- goes on where the last one stopped.
use mevent.Common.{
  ℕ, zero, suc, Bytes, ◌+◌, ◌-◌, ◌*◌, ◌<◌, ◌≤◌, ◌≡◌, refl, ◌∙◌, true, false, Option, some, none,
  ltb, ◌==◌, if◌then◌else◌, get_or, arith, Bool-cases, inl, inr, ◌⊎◌, sym, subst, ◌≢◌, length,
  ltb→lt,
}
use mevent.Request.{Request, keepalive, RequestParseStatus, s_eoh}
use mevent.Request.Chars.{token}
use mevent.Request.Parse.{
  HttpParserStatus, more, error, finished, Step, proceed, leave, parse_step, parse_eoh, parse_loop,
  parse,
}
use mevent.Request.Parse.Measure.{rank, left, Closer, Outcome, parse_step-Closer}

abbrev Returns : ℕ → Request → Type 0
Returns rounds r =
    (s : HttpParserStatus) × (q : Request) × (parse_loop rounds r ≡ some (s, q))
    × (q.rbuf_len ≡ r.rbuf_len)
    × (q.rbuf ≡ r.rbuf)
    × (q.status ≡ r.status)
    × Outcome s q

step-Returns :
    (rounds : ℕ) (r : Request) (step : Step)
    → ltb r.parse_offset r.rbuf_len ≡ true
    → parse_step r ≡ step
    → Closer r step
    → ((q : Request) → left q < left r → Returns rounds q)
    → Returns (suc rounds) r
unfolding parse_loop
step-Returns rounds r (leave s q) running e close rest =
    (s, q, ground (arith, running, e), close.0, close.1, close.2, close.3)
step-Returns rounds r (proceed q) running e close rest =
    let (s, last, run, len, buf, kept, outcome) = rest q close.3 in
    (
      s,
      last,
      ground (arith, running, e, run),
      len ∙ close.0,
      buf ∙ close.1,
      kept ∙ close.2,
      outcome,
    )

parse_loop-Returns : (rounds : ℕ) (r : Request) → left r < rounds → Returns rounds r
unfolding parse_loop
parse_loop-Returns zero r enough = ground arith
parse_loop-Returns (suc rounds) r enough = elim (Bool-cases (ltb r.parse_offset r.rbuf_len)) [
  | inl running ↦
      step-Returns rounds r (parse_step r) running refl
        (parse_step-Closer r (ltb→lt r.parse_offset r.rbuf_len running))
        (λ q shrinks. parse_loop-Returns rounds q (omega (arith, shrinks, enough)))
  | inr over ↦ (more, r, ground (arith, over), refl, refl, refl, ground (arith, over))
]

rank_le : (s : RequestParseStatus) → rank s ≤ 1
rank_le s = ground arith

-- `Parse` ends on every request. It changes neither the buffer nor its
-- length nor the request's status. Where it wants
-- more, it has read the whole buffer; where it has finished, the header ends behind the character
-- that it stands on, which lies in the buffer, and the parser is left in the state `S_EOH`.
pub parse-Outcome :
    (r : Request)
    → (s : HttpParserStatus) × (q : Request) × (parse r ≡ some (s, q))
      × (q.rbuf_len ≡ r.rbuf_len)
      × (q.rbuf ≡ r.rbuf)
      × (q.status ≡ r.status)
      × Outcome s q
unfolding parse
parse-Outcome r =
    parse_loop-Returns (suc (2 * (r.rbuf_len - r.parse_offset) + 1)) r
      (omega (arith, rank_le r.parse_status))

abbrev Settled : Option (HttpParserStatus × Request) → Type 0
Settled none = Unit
Settled (some a) = Outcome a.0 a.1

parse-Settled : (r : Request) (a : HttpParserStatus × Request) → parse r ≡ some a → Settled (some a)
parse-Settled r a e =
    let (s, q, run, len, buf, kept, outcome) = parse-Outcome r in
    subst Settled (sym run ∙ e) outcome

decide_lf : (t : ℕ) → (t ≡ 10) ⊎ (t ≢ 10)
decide_lf t = ground arith

-- The buffer after `Keepalive` when the next request has arrived.
abbrev pub refilled : Request → Bytes → Request
refilled r text = let kept = keepalive r in record kept { rbuf = text; rbuf_len = length text }

module _ (r : Request) where
  pub loop_leave :
      (rounds : ℕ) (s : HttpParserStatus) (q : Request)
      → ltb r.parse_offset r.rbuf_len ≡ true
      → parse_step r ≡ leave s q
      → parse_loop (suc rounds) r ≡ some (s, q)
  unfolding parse_loop
  loop_leave rounds s q running e = ground (arith, running, e)

  pub loop_over :
      (rounds : ℕ)
      → ltb r.parse_offset r.rbuf_len ≡ false
      → parse_loop (suc rounds) r ≡ some (more, r)
  unfolding parse_loop
  loop_over rounds over = ground (arith, over)

  step_in_eoh :
      (t : ℕ)
      → r.parse_status ≡ s_eoh
      → token (get_or r.rbuf r.parse_offset 0) ≡ t
      → parse_step r ≡ (if t == 0 then leave error r else parse_eoh r t)
  unfolding parse_step
  step_in_eoh t here e = rw (e, here) refl

  step_lf :
      r.parse_status ≡ s_eoh
      → token (get_or r.rbuf r.parse_offset 0) ≡ 10
      → parse_step r ≡ leave finished (record r { header_len = r.parse_offset + 1 })
  unfolding parse_eoh
  step_lf here lf = step_in_eoh 10 here lf

  step_other :
      r.parse_status ≡ s_eoh
      → token (get_or r.rbuf r.parse_offset 0) ≢ 10
      → parse_step r ≡ leave error r
  unfolding parse_eoh
  step_other here other =
      step_in_eoh (token (get_or r.rbuf r.parse_offset 0)) here refl ∙ ground (arith, other)

-- `Keepalive` does not put the parser back to its start. After a request whose header has been
-- read to its end, the next text on the connection is not parsed from its start: up to the
-- offset where the last header ended nothing of it is read, and then the one character there
-- decides. A line feed ends the header, with the last request's method, path and fields; any
-- other character is an error.
pub keepalive_stale :
    (r q : Request) (text : Bytes)
    → parse r ≡ some (finished, q)
    → let next = refilled q text in
      ((length text ≤ q.parse_offset) × (parse next ≡ some (more, next)))
      ⊎ ((q.parse_offset < length text)
          × (token (get_or text q.parse_offset 0) ≡ 10)
          × (parse next ≡ some (finished, record next { header_len = q.parse_offset + 1 })))
      ⊎ ((q.parse_offset < length text)
          × (token (get_or text q.parse_offset 0) ≢ 10)
          × (parse next ≡ some (error, next)))
unfolding parse
keepalive_stale r q text e =
    let next = refilled q text in
    let here : next.parse_status ≡ s_eoh = (parse-Settled r (finished, q) e).2 in
    let rounds : ℕ = 2 * (length text - q.parse_offset) + 1 in
    elim (Bool-cases (ltb q.parse_offset (length text))) [
      | inr over ↦ inl (ground (arith, over), loop_over next rounds over)
      | inl running ↦
          let inside : q.parse_offset < length text = ltb→lt q.parse_offset (length text) running in
          elim (decide_lf (token (get_or text q.parse_offset 0))) [
            | inl lf ↦
                inr (inl (inside, lf, loop_leave next rounds _ _ running (step_lf next here lf)))
            | inr other ↦ inr (
                inr
                  (inside, other, loop_leave next rounds _ _ running (step_other next here other)))
          ]
    ]
