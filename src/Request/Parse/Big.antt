-- ===== src/Request/Parse/Big.antt =====
-- `Parse` of request.cpp without its bound on the rounds: where the loop ends from a state, and the
-- characters that are left before it.
use mevent.Common.{
  ℕ, zero, suc, Bytes, [], ◌∷◌, ◌+◌, ◌≤◌, ◌≡◌, refl, sym, ap₂, ◌∙◌, ◌*◌, ◌-◌, true, false, some,
  ltb, lt→ltb, ◌==◌, get_or, drop, arith, Bool-cases, inl, inr, length,
}
use mathlib.Core.Option.{none-ne-some}
use mevent.Request.{Request}
use mevent.Request.Chars.{token}
use mevent.Request.Parse.{
  HttpParserStatus, Step, proceed, leave, parse_char, parse_step, parse_loop, parse,
}
use mevent.Request.Parse.Total.{parse-Outcome, loop_leave, loop_over}

-- The loop ends with this status and request after some number of rounds.
abbrev pub Ends : Request → HttpParserStatus → Request → Type 0
Ends r s q = (rounds : ℕ) × (parse_loop rounds r ≡ some (s, q))

loop_proceed :
    (r m : Request) (rounds : ℕ)
    → ltb r.parse_offset r.rbuf_len ≡ true
    → parse_step r ≡ proceed m
    → parse_loop (suc rounds) r ≡ parse_loop rounds m
unfolding parse_loop
loop_proceed r m rounds running e = ground (arith, running, e)

loop_zero :
    (r : Request) (a : HttpParserStatus × Request) (more : ℕ)
    → parse_loop 0 r ≡ some a
    → parse_loop more r ≡ some a
unfolding parse_loop
loop_zero r a more e = absurd (none-ne-some a e)

step_longer :
    (rounds more : ℕ) (r : Request) (a : HttpParserStatus × Request) (step : Step)
    → parse_step r ≡ step
    → ltb r.parse_offset r.rbuf_len ≡ true
    → parse_loop (suc rounds) r ≡ some a
    → ((m : Request) → parse_loop rounds m ≡ some a → parse_loop more m ≡ some a)
    → parse_loop (suc more) r ≡ some a
step_longer rounds more r a (leave s q) e running run rest =
    loop_leave r more s q running e ∙ sym (loop_leave r rounds s q running e) ∙ run
step_longer rounds more r a (proceed m) e running run rest =
    loop_proceed r m more running e ∙ rest m (sym (loop_proceed r m rounds running e) ∙ run)

-- A longer bound gives the same result.
loop_longer :
    (rounds more : ℕ) (r : Request) (a : HttpParserStatus × Request)
    → rounds ≤ more
    → parse_loop rounds r ≡ some a
    → parse_loop more r ≡ some a
loop_longer zero more r a le e = loop_zero r a more e
loop_longer (suc rounds) zero r a le e = absurd (omega (arith, le))
loop_longer (suc rounds) (suc more) r a le e = elim (Bool-cases (ltb r.parse_offset r.rbuf_len)) [
  | inl running ↦
      step_longer rounds more r a (parse_step r) refl running e
        (λ m run. loop_longer rounds more m a (omega (arith, le)) run)
  | inr over ↦ loop_over r more over ∙ sym (loop_over r rounds over) ∙ e
]

pub parse-Ends : (r q : Request) (s : HttpParserStatus) → Ends r s q → parse r ≡ some (s, q)
unfolding parse
parse-Ends r q s (rounds, e) =
    let (s', q', run, _, _, _, _) = parse-Outcome r in
    let bound : ℕ = suc (2 * (r.rbuf_len - r.parse_offset) + 1) in
    run
    ∙ sym (loop_longer bound (rounds + bound) r (s', q') (omega arith) run)
    ∙ loop_longer rounds (rounds + bound) r (s, q) (omega arith) e

-- What the parser has not read yet.
pub record At (r : Request) (rest : Bytes) : Type 0 where
  pub unread : drop r.parse_offset r.rbuf ≡ rest
  pub size : r.parse_offset + length rest ≡ r.rbuf_len

pub drop-here :
    (n : ℕ) (xs : Bytes) (c : ℕ) (rest : Bytes) → drop n xs ≡ c ∷ rest → get_or xs n 0 ≡ c
drop-here zero [] c rest e = ground (arith, e)
drop-here zero (x ∷ xs) c rest e = ground (arith, e)
drop-here (suc n) [] c rest e = ground (arith, e)
drop-here (suc n) (x ∷ xs) c rest e = drop-here n xs c rest e

pub drop-behind :
    (n : ℕ) (xs : Bytes) (c : ℕ) (rest : Bytes) → drop n xs ≡ c ∷ rest → drop (suc n) xs ≡ rest
drop-behind zero [] c rest e = ground (arith, e)
drop-behind zero (x ∷ xs) c rest e = ground (arith, e)
drop-behind (suc n) [] c rest e = ground (arith, e)
drop-behind (suc n) (x ∷ xs) c rest e = drop-behind n xs c rest e

pub At-next :
    (r q : Request) (c : ℕ) (rest : Bytes)
    → q.rbuf ≡ r.rbuf
    → q.rbuf_len ≡ r.rbuf_len
    → q.parse_offset ≡ r.parse_offset + 1
    → At r (c ∷ rest)
    → At q rest
At-next r q c rest buf len off a =
    let next : r.parse_offset + 1 ≡ suc r.parse_offset = omega arith in
    record {
      unread =
          ap₂ (λ n xs. drop n xs) (off ∙ next) buf
          ∙ drop-behind r.parse_offset r.rbuf c rest a.unread;
      size = omega (arith, off, len, a.size);
    }

-- A round on a character that the tables allow.
pub Ends-proceed :
    (r m q : Request) (s : HttpParserStatus) (c : ℕ) (rest : Bytes)
    → At r (c ∷ rest)
    → (token c == 0) ≡ false
    → parse_char r.parse_status r c (token c) ≡ proceed m
    → Ends m s q
    → Ends r s q
unfolding parse_step
Ends-proceed r m q s c rest a legal e (rounds, run) =
    let here = drop-here r.parse_offset r.rbuf c rest a.unread in
    (
      suc rounds,
      loop_proceed r m rounds (lt→ltb r.parse_offset r.rbuf_len (omega (arith, a.size)))
            (rw (parse_step, here, legal) e)
          ∙ run,
    )

pub Ends-leave :
    (r q : Request) (s : HttpParserStatus) (c : ℕ) (rest : Bytes)
    → At r (c ∷ rest)
    → (token c == 0) ≡ false
    → parse_char r.parse_status r c (token c) ≡ leave s q
    → Ends r s q
unfolding parse_step
Ends-leave r q s c rest a legal e =
    let here = drop-here r.parse_offset r.rbuf c rest a.unread in
    (
      1,
      loop_leave r 0 s q (lt→ltb r.parse_offset r.rbuf_len (omega (arith, a.size)))
          (rw (parse_step, here, legal) e),
    )
