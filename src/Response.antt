-- ===== src/Response.antt =====
-- response.h and response.cpp. `header_map_` is an association list in the order of its keys. The flag
-- `finish_` is the field `finish` of the connection, which the operations that set it take and
-- return. The text of the date is an argument.
pub mod Written
use mevent.Common.{
  ℕ, zero, suc, Bool, true, false, Bytes, List, [], ◌∷◌, ◌++◌, ◌+◌, ◌/◌, ◌%◌, ltb, ◌==◌,
  if◌then◌else◌, length, codes,
}
use mevent.Connection.{Connection, write_string}

pub record Response : Type 0 where
  pub header_map : List (Bytes × List Bytes)
  pub wbuf : Bytes

abbrev pub reset : Response → Connection → Response × Connection
reset r conn = (record { header_map = []; wbuf = [] }, record conn { finish = false })

abbrev pub crlf : Bytes
crlf = 13 ∷ 10 ∷ []

abbrev pub server : Bytes
server = codes "mevent"

-- `std::to_string`, for numbers of at most `k` digits.
unfoldable pub decimal : ℕ → ℕ → Bytes
decimal zero n = []
decimal (suc k) n =
    let front = decimal k (n / 10) in
    if ltb n 10 then (48 + n) ∷ [] else front ++ ((48 + n % 10) ∷ [])

abbrev pub to_string : ℕ → Bytes
to_string n = decimal 20 n

abbrev pub error_head : ℕ → Bytes
error_head code =
    if code == 400
    then codes "HTTP/1.1 400 Bad Request" ++ crlf
    else if code == 403
    then codes "HTTP/1.1 403 Forbidden" ++ crlf
    else if code == 404
    then codes "HTTP/1.1 404 Not Found" ++ crlf
    else codes "HTTP/1.1 500 Internal Server Error" ++ crlf

abbrev error_page : Bytes → Bytes
error_page title =
    codes "<html><head><title>"
    ++ title
    ++ codes "</title></head><body><h1>"
    ++ title
    ++ codes "</h1><hr><address>"
    ++ server
    ++ codes "</address></body></html>"

abbrev pub error_msg : ℕ → Bytes
error_msg code =
    if code == 400
    then error_page (codes "400 Bad Request")
    else if code == 403
    then error_page (codes "403 Forbidden")
    else if code == 404
    then error_page (codes "404 Not Found")
    else error_page (codes "500 Internal Server Error")

-- The `sizeof` that each branch writes as the length; that of 400 is the message of 403.
abbrev pub error_content_length : ℕ → ℕ
error_content_length code = if code == 400 then length (error_msg 403) else length (error_msg code)

abbrev pub error_message : ℕ → Bytes → Bytes
error_message code date =
    error_head code
    ++ codes "Server: "
    ++ server
    ++ crlf
    ++ codes "Content-Type: text/html"
    ++ crlf
    ++ codes "Content-Length: "
    ++ to_string (error_content_length code)
    ++ crlf
    ++ codes "Date: "
    ++ date
    ++ crlf
    ++ codes "Connection: close"
    ++ crlf
    ++ crlf
    ++ error_msg code

abbrev pub write_error_message : Response → Connection → ℕ → Bytes → Response × Connection
write_error_message r conn code date =
    (record r { wbuf = [] }, record (write_string conn (error_message code date)) { finish = true })

-- `WriteData` and `WriteString`.
abbrev pub write : Response → Bytes → Response
write r str = record r { wbuf = r.wbuf ++ str }

-- The order of keys, which compares unsigned characters.
unfoldable pub key_less : Bytes → Bytes → Bool
key_less xs [] = false
key_less [] (y ∷ ys) = true
key_less (x ∷ xs) (y ∷ ys) =
    let rest = key_less xs ys in if ltb x y then true else if ltb y x then false else rest

-- `m[field]`, through the function that changes the values.
unfoldable pub change :
    List (Bytes × List Bytes) → Bytes → (List Bytes → List Bytes) → List (Bytes × List Bytes)
unfolding key_less
change [] field f = (field, f []) ∷ []
change (e ∷ m) field f =
    let rest = change m field f in
    if key_less field e.0
    then (field, f []) ∷ e ∷ m
    else if key_less e.0 field
    then e ∷ rest
    else (e.0, f e.1) ∷ m

unfoldable pub has_field : List (Bytes × List Bytes) → Bytes → Bool
unfolding key_less
has_field [] field = false
has_field (e ∷ m) field =
    let rest = has_field m field in
    if key_less e.0 field then rest else if key_less field e.0 then rest else true

unfoldable pub erase : List (Bytes × List Bytes) → Bytes → List (Bytes × List Bytes)
unfolding key_less
erase [] field = []
erase (e ∷ m) field =
    let rest = erase m field in
    if key_less e.0 field then e ∷ rest else if key_less field e.0 then e ∷ rest else m

abbrev pub set_header : Response → Bytes → Bytes → Response
set_header r [] value = r
set_header r (c ∷ field) [] = r
set_header r (c ∷ field) (d ∷ value) = record r {
  header_map = change r.header_map (c ∷ field) (λ old. (d ∷ value) ∷ []);
}

abbrev pub add_header : Response → Bytes → Bytes → Response
add_header r [] value = r
add_header r (c ∷ field) [] = r
add_header r (c ∷ field) (d ∷ value) = record r {
  header_map = change r.header_map (c ∷ field) (λ old. old ++ ((d ∷ value) ∷ []));
}

abbrev pub del_header : Response → Bytes → Response
del_header r field = record r { header_map = erase r.header_map field }

unfoldable pub field_lines : Bytes → List Bytes → Bytes
field_lines field [] = []
field_lines field (v ∷ values) = field ++ codes ": " ++ v ++ crlf ++ field_lines field values

unfoldable pub header_lines : List (Bytes × List Bytes) → Bytes
unfolding field_lines
header_lines [] = []
header_lines (e ∷ m) = field_lines e.0 e.1 ++ header_lines m

-- `MakeHeader`, with the text of the header and the response that it leaves.
unfoldable pub make_header : Response → Bytes → Bytes × Response
unfolding change has_field header_lines
make_header r date =
    let m = r.header_map in
    let closing = change m (codes "Connection") (λ old. codes "close" ∷ []) in
    let server_line =
      if has_field m (codes "Server") then [] else codes "Server: " ++ server ++ crlf in
    let date_line = if has_field m (codes "Date") then [] else codes "Date: " ++ date ++ crlf in
    let type_line =
      if has_field m (codes "Content-Type")
      then []
      else codes "Content-Type: application/octet-stream" ++ crlf in
    (
      codes "HTTP/1.1 200 OK"
          ++ crlf
          ++ server_line
          ++ date_line
          ++ type_line
          ++ header_lines closing
          ++ crlf,
      record r { header_map = closing },
    )

-- `Content-Length` is set to the length of what has been written.
abbrev pub with_length : Response → Response
with_length r = record r {
  header_map = change r.header_map (codes "Content-Length") (λ old. to_string (length r.wbuf) ∷ []);
}

abbrev pub flush_written : Response → Connection → Bytes → Bytes → Response × Connection
flush_written r conn date [] = (r, record conn { finish = true })
flush_written r conn date (b ∷ wbuf) =
    let made = make_header (with_length r) date in
    let queued = write_string (write_string conn made.0) (b ∷ wbuf) in
    (made.1, record queued { finish = true })

abbrev pub flush : Response → Connection → Bytes → Response × Connection
flush r conn date = flush_written r conn date r.wbuf
