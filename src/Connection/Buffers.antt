-- ===== src/Connection/Buffers.antt =====
-- `Readn` and its buffer.
use mevent.Common.{
  some, none, ℕ, Bool, true, false, Bytes, List, [], ◌∷◌, ◌++◌, ◌+◌, ◌<◌, ◌≤◌, ◌≡◌, refl, ltb,
  length, arith, Bool-cases, inl, inr, length-append,
}
use mevent.Connection.{
  WriteCall, takes, write_would_block, write_gives_up, WriteResult, wrote, failed_after, writen,
  Call, gives, would_block, gives_up, Reading, received, failed, overrun, asked, readn,
}

-- A call that gives bytes gives at most those it was asked for, and one at least.
abbrev pub Within : Bool → ℕ → ℕ → List Call → Type 0
Within ssl len n [] = Unit
Within ssl len n (would_block ∷ calls) = Unit
Within ssl len n (gives_up ∷ calls) = Unit
Within ssl len n (gives bytes ∷ calls) =
    (0 < length bytes) × (length bytes ≤ asked ssl len n) × Within ssl len (n + length bytes) calls

abbrev pub Fits : ℕ → Reading → Type 0
Fits len (received got) = length got ≤ len
Fits len failed = Unit
Fits len overrun = ⊥

readn-Fits :
    (len : ℕ) (got : Bytes) (calls : List Call)
    → length got ≤ len
    → Within false len (length got) calls
    → Fits len (readn false len got calls)
unfolding readn
readn-Fits len got [] room w = room
readn-Fits len got (would_block ∷ calls) room w = room
readn-Fits len got (gives_up ∷ calls) room w = ground arith
readn-Fits len got (gives bytes ∷ calls) room w = elim (Bool-cases (ltb (length got) len)) [
  | inr full ↦ rw (readn, full) room
  | inl more ↦
      let small : ltb len (length got + length bytes) ≡ false = ground (arith, w.1, room) in
      rw (readn, more, small)
        (readn-Fits len (got ++ bytes) calls
          (rw (length-append got bytes) (omega (arith, w.1, room)))
          (rw (length-append got bytes) w.2))
]

-- On a plain socket, whose calls give no more bytes than they are asked for, `Readn` never writes
-- past its buffer.
pub readn_plain :
    (len : ℕ) (calls : List Call) → Within false len 0 calls → Fits len (readn false len [] calls)
readn_plain len calls w = readn-Fits len [] calls (omega arith) w

-- Over TLS it does, with calls that keep to what they are asked for: after a first part of the
-- buffer, the second call is asked for `len` bytes again.
pub readn_ssl_overrun :
    (len : ℕ) (first second : Bytes)
    → 0 < length first
    → length first < len
    → length second ≤ len
    → len < length first + length second
    → Within true len 0 (gives first ∷ gives second ∷ [])
      × (readn true len [] (gives first ∷ gives second ∷ []) ≡ overrun)
unfolding readn
readn_ssl_overrun len first second some_bytes part fits past =
    ((some_bytes, omega (arith, part), (omega (arith, part, past), fits, tt)), ground arith)

-- A call takes at most the bytes that it is offered, and one at least.
abbrev pub TakesWithin : Bool → ℕ → ℕ → List WriteCall → Type 0
TakesWithin ssl len n [] = Unit
TakesWithin ssl len n (write_would_block ∷ calls) = Unit
TakesWithin ssl len n (write_gives_up ∷ calls) = Unit
TakesWithin ssl len n (takes k ∷ calls) =
    (0 < k) × (k ≤ asked ssl len n) × TakesWithin ssl len (n + k) calls

-- The bytes that have gone out, whether or not the caller is told of them.
abbrev pub gone_out : WriteResult → ℕ
gone_out (wrote n) = n
gone_out (failed_after n) = n

writen-Stays :
    (len n : ℕ) (calls : List WriteCall)
    → n ≤ len
    → TakesWithin false len n calls
    → (r : WriteResult) × (writen false len n calls ≡ some r)
      × (n ≤ gone_out r)
      × (gone_out r ≤ len)
unfolding writen
writen-Stays len n [] room w = (wrote n, refl, omega arith, room)
writen-Stays len n (write_would_block ∷ calls) room w = (wrote n, refl, omega arith, room)
writen-Stays len n (write_gives_up ∷ calls) room w = elim (Bool-cases (ltb n len)) [
  | inl more ↦ (failed_after n, rw (writen, more) refl, omega arith, room)
  | inr full ↦ (wrote n, rw (writen, full) refl, omega arith, room)
]
writen-Stays len n (takes k ∷ calls) room w = elim (Bool-cases (ltb n len)) [
  | inr full ↦ (wrote n, rw (writen, full) refl, omega arith, room)
  | inl more ↦
      let inside : ltb len (n + k) ≡ false = ground (arith, w.1, room) in
      let (r, run, low, high) = writen-Stays len (n + k) calls (omega (arith, w.1, room)) w.2 in
      (r, rw (writen, more, inside) run, omega (arith, low), high)
]

-- On a plain socket, whose calls take no more bytes than they are offered, `Writen` takes no byte from
-- behind its buffer: it ends, and at most `len` bytes have gone out, also where it fails.
pub writen_plain :
    (len : ℕ) (calls : List WriteCall)
    → TakesWithin false len 0 calls
    → (r : WriteResult) × (writen false len 0 calls ≡ some r) × (gone_out r ≤ len)
writen_plain len calls w =
    let (r, run, low, high) = writen-Stays len 0 calls (omega arith) w in (r, run, high)

-- Over TLS it does take bytes from behind its buffer, with calls that keep to what they are offered:
-- after a first part of the buffer, the second call is offered `len` bytes again.
pub writen_ssl_past :
    (len first second : ℕ)
    → 0 < first
    → first < len
    → second ≤ len
    → len < first + second
    → TakesWithin true len 0 (takes first ∷ takes second ∷ [])
      × (writen true len 0 (takes first ∷ takes second ∷ []) ≡ none)
unfolding writen
writen_ssl_past len first second some_bytes part fits past =
    ((some_bytes, omega (arith, part), (omega (arith, part, past), fits, tt)), ground arith)
