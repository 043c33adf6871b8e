-- ===== src/EventLoopBase.antt =====
-- event_loop_base.h and event_loop_base_epoll.cpp: the masks of events. The bits of epoll come from
-- the system and are an argument; the calls of epoll are not part of this.
use mevent.Common.{ℕ, Bool, not, ◌==◌, if◌then◌else◌, Option, bit_and, bit_or}

abbrev pub mevent_in : ℕ
mevent_in = 1

abbrev pub mevent_out : ℕ
mevent_out = 2

pub record EpollBits : Type 0 where
  pub epollin : ℕ
  pub epollout : ℕ
  pub epollerr : ℕ
  pub epollhup : ℕ
  pub epollet : ℕ

-- `EventLoopBase::Event`, whose pointer is the number of a connection, or none for the listening one.
pub record Event : Type 0 where
  pub mask : ℕ
  pub ptr : Option ℕ

-- `mask & bit` as a condition.
abbrev pub has : ℕ → ℕ → Bool
has mask bit = not (bit_and mask bit == 0)

-- `ev.events` in `Add` and `Modify`.
abbrev pub watched : EpollBits → ℕ → ℕ
watched bits mask =
    let readable = if has mask mevent_in then bit_or 0 bits.epollin else 0 in
    let writable = if has mask mevent_out then bit_or readable bits.epollout else readable in
    bit_or writable bits.epollet

-- The event that `Poll` makes of one of `epoll_wait`.
abbrev pub polled : EpollBits → ℕ → Option ℕ → Event
polled bits events ptr =
    let readable = if has events bits.epollin then bit_or 0 mevent_in else 0 in
    let hung_up = if has events bits.epollhup then bit_or readable mevent_out else readable in
    let failed = if has events bits.epollerr then bit_or hung_up mevent_out else hung_up in
    record {
      mask = if has events bits.epollout then bit_or failed mevent_out else failed;
      ptr = ptr;
    }
