-- ===== src/Tests/Connection.antt =====
-- connection.cpp on concrete inputs.
use mevent.Common.{◌≡◌, ◌≤◌, none, refl, arith, true, false, [], ◌∷◌, some, codes}
use mevent.Connection.{writen, takes, write_gives_up, WriteResult, wrote, failed_after}
use mevent.Connection.{Connection, write_buffer, flush, gives, readn, overrun}
use mevent.Connection.Buffers.{
  Within, Fits, readn_plain, readn_ssl_overrun, gone_out, TakesWithin, writen_plain,
  writen_ssl_past,
}

readn_plain_example : Fits 4 (readn false 4 [] (gives (codes "ab") ∷ gives (codes "cd") ∷ []))
readn_plain_example =
    readn_plain 4 (gives (codes "ab") ∷ gives (codes "cd") ∷ [])
      (omega arith, omega arith, (omega arith, omega arith, tt))

readn_ssl_overrun_example :
    Within true 4 0 (gives (codes "abc") ∷ gives (codes "defg") ∷ [])
    × (readn true 4 [] (gives (codes "abc") ∷ gives (codes "defg") ∷ []) ≡ overrun)
readn_ssl_overrun_example =
    readn_ssl_overrun 4 (codes "abc") (codes "defg") (omega arith) (omega arith) (omega arith)
      (omega arith)

abbrev two_buffers : Connection
two_buffers = record {
  fd = some 5;
  write_buffer_chain = write_buffer (codes "abc") ∷ write_buffer (codes "de") ∷ [];
  upgraded = false;
  finish = false;
}

-- The bytes of a call that fails are sent again by the next one.
sent_again : (flush two_buffers (wrote 3 ∷ failed_after 1 ∷ [])).2 ≡ codes "abcd"
unfolding flush
sent_again = refl

writen_plain_example :
    (r : WriteResult) × (writen false 5 0 (takes 3 ∷ write_gives_up ∷ []) ≡ some r)
    × (gone_out r ≤ 5)
writen_plain_example = writen_plain 5 (takes 3 ∷ write_gives_up ∷ []) (omega arith, omega arith, tt)

writen_ssl_past_example :
    TakesWithin true 5 0 (takes 3 ∷ takes 4 ∷ [])
    × (writen true 5 0 (takes 3 ∷ takes 4 ∷ []) ≡ none)
writen_ssl_past_example =
    writen_ssl_past 5 3 4 (omega arith) (omega arith) (omega arith) (omega arith)
