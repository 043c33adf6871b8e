-- ===== src/Request/Read/Received.antt =====
-- The request that `ReadData` gives to the workers is within the limit, and whole.
use mevent.Common.{
  ℕ, Bool, true, false, Bytes, List, [], ◌∷◌, ◌+◌, ◌%◌, ◌^◌, ◌≡◌, ◌≤◌, ◌<◌, ltb, leb, ◌==◌, length,
  Option, some, none, refl, sym, ◌∙◌, arith, Bool-cases, inl, inr, leb→le, length-append, ap,
}
use mevent.Request.{
  Request, RequestStatus, header_receiving, body_receiving, body_received, upgrade,
}
use mevent.Request.Parse.{HttpParserStatus, more, error, finished}
use mevent.Request.Parse.Total.{parse-Outcome}
use mevent.Request.Parse.Measure.{Outcome}
use mevent.Request.Read.{
  read_buffer_size, Phase, returns, falls, read_header, read_body, body_phase, after_parse,
  second_phase, header_phase, then_body, then_push, read_data, is_received, body_len, filled,
}

-- The bytes that the reads give.
unfoldable pub total : List (Option Bytes) → ℕ
total [] = 0
total (none ∷ reads) = total reads
total (some buf ∷ reads) = length buf + total reads

-- The body of the request is within the limit, and lies in the buffer behind the header.
abbrev pub IsWhole : ℕ → Request → Type 0
IsWhole max_post_size q =
    (q.content_length ≤ max_post_size) × (q.header_len + q.content_length ≤ length q.rbuf)

-- The counter has the size of the buffer, and the reads do not make it wrap.
abbrev Fits : Request → List (Option Bytes) → Type 0
Fits r reads = (r.rbuf_len ≡ length r.rbuf) × (length r.rbuf + total reads < 2 ^ 32)

filled-Fits :
    (r : Request) (buf : Bytes) (reads : List (Option Bytes))
    → Fits r (some buf ∷ reads)
    → Fits (filled r buf) reads
unfolding total
filled-Fits r buf reads (same, room) =
    (omega (arith, length-append r.rbuf buf), omega (arith, length-append r.rbuf buf))

rest-Fits :
    (r : Request) (buf : Bytes) (reads : List (Option Bytes))
    → Fits r (some buf ∷ reads)
    → Fits r reads
unfolding total
rest-Fits r buf reads (same, room) = (same, omega arith)

-- Where the header lies in the buffer, the test of `ReadData` is about the buffer.
body_len-inside :
    (q : Request) (reads : List (Option Bytes))
    → Fits q reads
    → q.header_len ≤ length q.rbuf
    → q.content_length ≤ body_len q
    → q.header_len + q.content_length ≤ length q.rbuf
body_len-inside q reads (same, room) header body = omega arith

abbrev Sound : ℕ → Phase → Type 0
Sound max (returns s q) = Unit
Sound max (falls q reads) = is_received q.status ≡ true → IsWhole max q

read_body-Sound :
    (max : ℕ) (r : Request) (reads : List (Option Bytes))
    → r.content_length ≤ max
    → r.status ≡ body_receiving
    → Fits r reads
    → r.header_len ≤ length r.rbuf
    → Sound max (read_body r reads)
unfolding read_body
read_body-Sound max r [] small here fits header = ground (arith, here)
read_body-Sound max r (none ∷ reads) small here fits header = tt
read_body-Sound max r (some buf ∷ reads) small here fits header =
    let q = filled r buf in
    let fits' = filled-Fits r buf reads fits in
    let header' : q.header_len ≤ length q.rbuf = omega (arith, length-append r.rbuf buf) in
    elim (Bool-cases (length buf == 0)) [
      | inl empty ↦ rw (read_body, empty) (ground (arith, here))
      | inr some_bytes ↦ elim (Bool-cases (leb q.content_length (body_len q))) [
        | inl whole ↦
            rw (read_body, some_bytes, whole)
              (λ h.
                (small, body_len-inside q reads fits' header' (leb→le q.content_length _ whole)))
        | inr part ↦ elim (Bool-cases (length buf == read_buffer_size)) [
          | inl full ↦
              rw (read_body, some_bytes, part, full)
                (read_body-Sound max q reads small here fits' header')
          | inr short ↦ rw (read_body, some_bytes, part, short) (ground (arith, here))
        ]
      ]
    ]

body_phase-Sound :
    (max : ℕ) (r : Request) (reads : List (Option Bytes))
    → r.status ≡ body_receiving
    → Fits r reads
    → r.header_len ≤ length r.rbuf
    → Sound max (body_phase max r reads)
unfolding body_phase
body_phase-Sound max r reads here fits header = elim (Bool-cases (ltb max r.content_length)) [
  | inl over ↦ rw (body_phase, over) tt
  | inr small ↦ elim (Bool-cases (leb r.content_length (body_len r))) [
    | inl whole ↦
        rw (body_phase, small, whole)
          (λ h. (
            ground (arith, small),
            body_len-inside r reads fits header (leb→le r.content_length _ whole),
          ))
    | inr part ↦
        rw (body_phase, small, part)
          (read_body-Sound max r reads (ground (arith, small)) here fits header)
  ]
]

-- In a request whose body is still coming, the header lies in the buffer.
abbrev pub HasHeader : Request → Type 0
HasHeader q = q.status ≡ body_receiving → q.header_len ≤ length q.rbuf

-- A first phase leaves no request received.
abbrev Early : Phase → Type 0
Early (returns s q) = Unit
Early (falls q reads) = (is_received q.status ≡ false) × Fits q reads × HasHeader q

header-Early :
    (r : Request) (reads : List (Option Bytes))
    → r.status ≡ header_receiving
    → Fits r reads
    → Early (falls r reads)
header-Early r reads here fits = (rw here refl, fits, λ h. absurd (ground (arith, here, h)))

parsed-Early :
    (s : HttpParserStatus) (q : Request) (full : Bool) (reads : List (Option Bytes)) (next : Phase)
    → q.status ≡ header_receiving
    → Fits q reads
    → Outcome s q
    → Early next
    → Early (after_parse s q full reads next)
parsed-Early finished q full reads next e fits o n = (refl, fits, λ h. omega (arith, o, fits))
parsed-Early error q full reads next e fits o n = tt
parsed-Early more q true reads next e fits o n = n
parsed-Early more q false reads next e fits o n = header-Early q reads e fits

read_header-Early :
    (max : ℕ) (r : Request) (reads : List (Option Bytes))
    → r.status ≡ header_receiving
    → Fits r reads
    → Early (read_header max r reads)
unfolding read_header
read_header-Early max r [] here fits = header-Early r [] here fits
read_header-Early max r (none ∷ reads) here fits = tt
read_header-Early max r (some buf ∷ reads) here fits = elim (Bool-cases (length buf == 0)) [
  | inl empty ↦ rw (read_header, empty) (header-Early r reads here (rest-Fits r buf reads fits))
  | inr some_bytes ↦ elim (Bool-cases (ltb max ((r.rbuf_len + length buf) % 2 ^ 32))) [
    | inl over ↦ rw (read_header, some_bytes, over) tt
    | inr small ↦
        let (s, q, run, len, text, kept, outcome) = parse-Outcome (filled r buf) in
        let (same, room) = filled-Fits r buf reads fits in
        let fits' : Fits q reads = (len ∙ same ∙ sym (ap length text), rw text room) in
        rw (read_header, some_bytes, small, run)
          (parsed-Early s q (length buf == read_buffer_size) reads (read_header max q reads)
            (kept ∙ here) fits' outcome (read_header-Early max q reads (kept ∙ here) fits'))
  ]
]

header_phase-Early :
    (s : RequestStatus) (max : ℕ) (r : Request) (reads : List (Option Bytes))
    → r.status ≡ s
    → Fits r reads
    → HasHeader r
    → Early (header_phase s max r reads)
header_phase-Early header_receiving max r reads e fits header = read_header-Early max r reads e fits
header_phase-Early body_receiving max r reads e fits header = (rw e refl, fits, header)
header_phase-Early body_received max r reads e fits header = tt
header_phase-Early upgrade max r reads e fits header = tt

second_phase-Sound :
    (s : RequestStatus) (max : ℕ) (r : Request) (reads : List (Option Bytes))
    → r.status ≡ s
    → is_received s ≡ false
    → Fits r reads
    → HasHeader r
    → Sound max (second_phase s max r reads)
second_phase-Sound body_receiving max r reads e early fits header =
    body_phase-Sound max r reads e fits (header e)
second_phase-Sound header_receiving max r reads e early fits header = ground (arith, e)
second_phase-Sound body_received max r reads e early fits header = ground arith
second_phase-Sound upgrade max r reads e early fits header = ground (arith, e)

then_body-Sound : (max : ℕ) (p : Phase) → Early p → Sound max (then_body max p)
then_body-Sound max (returns s q) early = tt
then_body-Sound max (falls q reads) (early, fits, header) =
    second_phase-Sound q.status max q reads refl early fits header

pushed-IsWhole :
    (max : ℕ) (p : Phase)
    → Sound max p
    → (then_push p).task_pushed ≡ true
    → IsWhole max (then_push p).request
pushed-IsWhole max (returns s q) sound h = ground arith
pushed-IsWhole max (falls q reads) sound h = sound h

-- Where `rbuf_len_` is the size of the buffer, the header of a request whose body is still coming
-- lies in it, and the buffer with all that is read stays below 2^32 bytes, `ReadData` calls
-- `TaskPush` only for a request whose body, by `Content-Length`, is within `max_post_size_` and lies
-- in the buffer in full, behind the header.
pub read_data-IsWhole :
    (max_header_size max_post_size : ℕ) (r : Request) (reads : List (Option Bytes))
    → r.rbuf_len ≡ length r.rbuf
    → HasHeader r
    → length r.rbuf + total reads < 2 ^ 32
    → (read_data max_header_size max_post_size r reads).task_pushed ≡ true
    → IsWhole max_post_size (read_data max_header_size max_post_size r reads).request
unfolding read_data
read_data-IsWhole max_header_size max_post_size r reads same header room h =
    pushed-IsWhole max_post_size
      (then_body max_post_size (header_phase r.status max_header_size r reads))
      (then_body-Sound max_post_size (header_phase r.status max_header_size r reads)
        (header_phase-Early r.status max_header_size r reads refl (same, room) header))
      h
