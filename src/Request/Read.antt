-- ===== src/Request/Read.antt =====
-- `ReadData` of request.cpp. The argument `reads` has what the calls of `Readn` give: `none` is -1, and
-- where they end, the next one is 0. The limits are those of the event loop.
pub mod Received
use mevent.Common.{
  ℕ, Bool, true, false, Bytes, List, [], ◌∷◌, ◌++◌, ◌+◌, ◌-◌, ◌*◌, ◌%◌, ◌^◌, ◌≡◌, ◌≤◌, ltb, leb,
  ◌==◌, ◌&&◌, not, if◌then◌else◌, length, Option, some, none, refl, arith, Bool-cases, ◌⊎◌, inl,
  inr,
}
use mevent.Connection.{ConnStatus}
use mevent.Request.{
  Request, RequestStatus, header_receiving, body_receiving, body_received, upgrade,
}
use mevent.Request.Parse.{HttpParserStatus, more, error, finished, parse}

abbrev pub read_buffer_size : ℕ
read_buffer_size = 2048

-- A phase returns from `ReadData`, or falls through to the next one with the reads that are left.
pub data Phase : Type 0 where
  returns : ConnStatus → Request → Phase
  falls : Request → List (Option Bytes) → Phase

abbrev pub refused : ℕ → Request → Phase
refused code r = returns ConnStatus.error (record r { error_code = code })

-- `rbuf_len_ += n` and `rbuf_.append(buf, n)`.
abbrev pub counted : Request → Bytes → Request
counted r buf = record r { rbuf_len = (r.rbuf_len + length buf) % 2 ^ 32 }

abbrev pub filled : Request → Bytes → Request
filled r buf = record (counted r buf) { rbuf = r.rbuf ++ buf }

-- `rbuf_len_ - header_len_` in `size_t`.
abbrev pub body_len : Request → ℕ
body_len r = (r.rbuf_len + 2 ^ 64 - r.header_len) % 2 ^ 64

-- The branches on what `Parse` returns; `next` is the loop's next round, which a full read leads to.
abbrev pub after_parse : HttpParserStatus → Request → Bool → List (Option Bytes) → Phase → Phase
after_parse finished q full reads next = falls (record q { status = body_receiving }) reads
after_parse error q full reads next = refused 400 q
after_parse more q true reads next = next
after_parse more q false reads next = falls q reads

unfoldable pub read_header : ℕ → Request → List (Option Bytes) → Phase
read_header max_header_size r [] = falls r []
read_header max_header_size r (none ∷ reads) = returns ConnStatus.close r
read_header max_header_size r (some buf ∷ reads) =
    if length buf == 0
    then falls r reads
    else if ltb max_header_size ((r.rbuf_len + length buf) % 2 ^ 32)
    then refused 500 (counted r buf)
    else elim (parse (filled r buf)) [
      | none ↦ falls r reads
      | some (s, q) ↦
          after_parse s q (length buf == read_buffer_size) reads
            (read_header max_header_size q reads)
    ]

unfoldable pub read_body : Request → List (Option Bytes) → Phase
read_body r [] = falls r []
read_body r (none ∷ reads) = returns ConnStatus.close r
read_body r (some buf ∷ reads) =
    let q = filled r buf in
    if length buf == 0
    then falls r reads
    else if leb q.content_length (body_len q)
    then falls (record q { status = body_received }) reads
    else elim (length buf == read_buffer_size) [ true ↦ read_body q reads | false ↦ falls q reads ]

-- The second phase, under `status_ == BODY_RECEIVING`.
unfoldable pub body_phase : ℕ → Request → List (Option Bytes) → Phase
body_phase max_post_size r reads =
    if ltb max_post_size r.content_length
    then refused 500 r
    else if leb r.content_length (body_len r)
    then falls (record r { status = body_received }) reads
    else read_body r reads

-- What `ReadData` returns, the request, and whether it has called `TaskPush`.
pub record ReadOutcome : Type 0 where
  pub result : ConnStatus
  pub request : Request
  pub task_pushed : Bool

-- The tests on `status_` before the two loops.
abbrev pub header_phase : RequestStatus → ℕ → Request → List (Option Bytes) → Phase
header_phase header_receiving max_header_size r reads = read_header max_header_size r reads
header_phase body_receiving max_header_size r reads = falls r reads
header_phase body_received max_header_size r reads = returns ConnStatus.error r
header_phase upgrade max_header_size r reads = returns ConnStatus.error r

abbrev pub second_phase : RequestStatus → ℕ → Request → List (Option Bytes) → Phase
second_phase body_receiving max_post_size r reads = body_phase max_post_size r reads
second_phase header_receiving max_post_size r reads = falls r reads
second_phase body_received max_post_size r reads = falls r reads
second_phase upgrade max_post_size r reads = falls r reads

abbrev pub then_body : ℕ → Phase → Phase
then_body max_post_size (returns s q) = returns s q
then_body max_post_size (falls q reads) = second_phase q.status max_post_size q reads

abbrev pub is_received : RequestStatus → Bool
is_received header_receiving = false
is_received body_receiving = false
is_received body_received = true
is_received upgrade = false

abbrev pub then_push : Phase → ReadOutcome
then_push (returns s q) = record { result = s; request = q; task_pushed = false }
then_push (falls q reads) = record {
  result = ConnStatus.again;
  request = q;
  task_pushed = is_received q.status;
}

unfoldable pub read_data : ℕ → ℕ → Request → List (Option Bytes) → ReadOutcome
unfolding read_header read_body body_phase
read_data max_header_size max_post_size r reads =
    then_push (then_body max_post_size (header_phase r.status max_header_size r reads))
