-- ===== src/Tests/Response.antt =====
-- response.cpp on concrete inputs.
use mevent.Common.{◌≡◌, refl, false, [], some, codes}
use mevent.Connection.{Connection}
use mevent.Response.{Response, decimal, to_string, set_header}

abbrev open_connection : Connection
open_connection = record { fd = some 5; write_buffer_chain = []; upgraded = false; finish = false }

abbrev answer : Response
answer =
    set_header (record { header_map = []; wbuf = codes "hi" }) (codes "Content-Type")
      (codes "text/plain")

to_string_test : to_string 8192 ≡ codes "8192"
unfolding decimal
to_string_test = refl
