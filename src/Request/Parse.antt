-- ===== src/Request/Parse.antt =====
-- `Parse` of request.cpp: one function for each state, the round of the loop, and the loop. The
-- test of the loop holds in a round, so that `parse_offset_ + 1` stays below 2 ^ 32.
pub mod Measure
pub mod Total
pub mod Big
pub mod Lines
pub mod Methods
pub mod Starts
pub mod Digits
pub mod NameLine
pub mod OtherLine
pub mod LengthLine
pub mod TextLines
pub mod RequestText
pub mod WellFormed
use mevent.Common.{
  ℕ, zero, suc, Bool, true, false, Bytes, [], ◌∷◌, ◌++◌, ◌+◌, ◌-◌, ◌*◌, ◌%◌, ◌^◌, Option, some,
  none, ltb, ◌==◌, ◌&&◌, ◌||◌, not, if◌then◌else◌, get_or, length, codes,
}
use mevent.Request.{
  Request, RequestMethod, get_method, post_method, head_method, put_method, delete_method,
  connect_method, options_method, trace_method, patch_method, unknown_method, RequestParseStatus,
  s_start, s_method, s_method_p, s_path, s_query_string, s_content_length, s_content_length_v,
  s_content_type, s_content_type_v, s_sec_websocket_key, s_sec_websocket_key_v, s_upgrade, s_eol,
  s_header_field, s_eoh,
}
use mevent.Request.Chars.{token, is_url_char, is_num}

pub data HttpParserStatus : Type 0 where
  more error finished : HttpParserStatus

-- A round ends with another one or with a `break`.
pub data Step : Type 0 where
  proceed : Request → Step
  leave : HttpParserStatus → Request → Step

-- The subtraction of `uint32_t`.
abbrev pub minus32 : ℕ → ℕ → ℕ
minus32 a b = (a + 2 ^ 32 - b) % 2 ^ 32

-- The end of a round: `parse_offset_++`.
abbrev pub advance : Request → Step
advance r = proceed (record r { parse_offset = r.parse_offset + 1 })

-- The header line holds nothing more that the parser reads.
abbrev pub skip_line : Request → Step
skip_line r = advance (record r { parse_status = s_eol })

-- `continue` in another state, on the same character.
abbrev pub again_in : RequestParseStatus → Request → Step
again_in s r = proceed (record r { parse_status = s; parse_match = r.parse_offset })

unfoldable pub parse_eol : Request → ℕ → Step
parse_eol r c =
    if c == 10
    then if get_or r.rbuf (minus32 r.parse_offset 1) 0 == 13
      then advance (record r { parse_status = s_header_field; parse_match = r.parse_offset })
      else leave error r
    else advance r

abbrev starts : RequestMethod → Request → Step
starts m r = advance (record r { parse_status = s_method; method = m })

-- The second test for 'p', which stands behind the first, never holds.
unfoldable pub parse_start : Request → ℕ → Step
parse_start r c =
    if c == 103
    then starts get_method r
    else if c == 112
    then advance (record r { parse_status = s_method_p })
    else if c == 104
    then starts head_method r
    else if c == 100
    then starts delete_method r
    else if c == 99
    then starts connect_method r
    else if c == 111
    then starts options_method r
    else if c == 116
    then starts trace_method r
    else if c == 112
    then starts patch_method r
    else leave error r

abbrev pub method_name : RequestMethod → Bytes
method_name get_method = codes "get"
method_name post_method = codes "post"
method_name head_method = codes "head"
method_name put_method = codes "put"
method_name delete_method = codes "delete"
method_name connect_method = codes "connect"
method_name options_method = codes "options"
method_name trace_method = codes "trace"
method_name patch_method = codes "patch"
method_name unknown_method = []

unfoldable pub parse_method : Request → ℕ → Step
parse_method r c =
    let name = method_name r.method in
    if length name == 0
    then leave error r
    else if ltb (length name - 1) r.parse_offset
    then if c == 32
      then advance r
      else if r.parse_offset == length name
      then leave error r
      else again_in s_path r
    else if get_or name (minus32 r.parse_offset r.parse_match) 0 == c
    then advance r
    else leave error r

unfoldable pub parse_method_p : Request → ℕ → Step
parse_method_p r c =
    if c == 111
    then starts post_method r
    else if c == 117
    then starts put_method r
    else if c == 97
    then starts patch_method r
    else leave error (record r { parse_status = s_method })

unfoldable pub parse_path : Request → ℕ → Step
parse_path r ch =
    if ch == 32
    then if length r.path == 0 then leave error r else skip_line r
    else if is_url_char ch
    then advance (record r { path = r.path ++ (ch ∷ []) })
    else if ch == 63
    then advance (record r { parse_status = s_query_string })
    else leave error r

unfoldable pub parse_query_string : Request → ℕ → Step
parse_query_string r ch =
    if ch == 32
    then skip_line r
    else if is_url_char ch
    then advance (record r { query_string = r.query_string ++ (ch ∷ []) })
    else leave error r

-- `TOKEN(rbuf_[parse_offset_ + i])`.
abbrev pub ahead : Request → ℕ → ℕ
ahead r i = token (get_or r.rbuf (r.parse_offset + i) 0)

-- A field that begins with 'c'.
unfoldable pub parse_content : Request → Step
parse_content r =
    let content =
      (ahead r 1 == 111)
      && (ahead r 2 == 110)
      && (ahead r 3 == 116)
      && (ahead r 4 == 101)
      && (ahead r 5 == 110)
      && (ahead r 6 == 116)
      && (ahead r 7 == 45) in
    if ltb (r.rbuf_len - r.parse_offset) 9
    then advance r
    else if content && (ahead r 8 == 108)
    then advance (record r { parse_status = s_content_length; parse_match = r.parse_offset })
    else if content && (ahead r 8 == 116)
    then advance (record r { parse_status = s_content_type; parse_match = r.parse_offset })
    else skip_line r

unfoldable pub parse_header_field : Request → ℕ → Step
unfolding parse_content
parse_header_field r c =
    if c == 13
    then advance (record r { parse_status = s_eoh })
    else if c == 99
    then parse_content r
    else if c == 115
    then advance (record r { parse_status = s_sec_websocket_key; parse_match = r.parse_offset })
    else skip_line r

unfoldable pub parse_eoh : Request → ℕ → Step
parse_eoh r c =
    if c == 10 then leave finished (record r { header_len = r.parse_offset + 1 }) else leave error r

-- The states that match a field's name and then wait for its value.
unfoldable pub parse_field_name : Bytes → RequestParseStatus → Request → ℕ → Step
parse_field_name name value_state r c =
    let matched = minus32 r.parse_offset r.parse_match in
    if ltb (length name - 1) matched
    then if c == 32 || c == 58 then advance r else again_in value_state r
    else if get_or name matched 0 == c
    then advance r
    else skip_line r

abbrev parse_content_length : Request → ℕ → Step
parse_content_length r c = parse_field_name (codes "content-length") s_content_length_v r c

abbrev parse_sec_websocket_key : Request → ℕ → Step
parse_sec_websocket_key r c = parse_field_name (codes "sec-websocket-key") s_sec_websocket_key_v r c

abbrev parse_content_type : Request → ℕ → Step
parse_content_type r c = parse_field_name (codes "content-type") s_content_type_v r c

unfoldable pub parse_content_length_v : Request → ℕ → Step
parse_content_length_v r c =
    if c == 32 || c == 13
    then skip_line r
    else if is_num c
    then advance
        (record r { content_length = (r.content_length * 10 % 2 ^ 32 + (c - 48)) % 2 ^ 32 })
    else leave error r

unfoldable pub parse_sec_websocket_key_v : Request → ℕ → ℕ → Step
parse_sec_websocket_key_v r ch c =
    if c == 32 || c == 13
    then skip_line r
    else advance (record r { sec_websocket_key = r.sec_websocket_key ++ (ch ∷ []) })

unfoldable pub parse_content_type_v : Request → ℕ → ℕ → Step
parse_content_type_v r ch c =
    if c == 32 || c == 13
    then skip_line r
    else advance (record r { content_type = r.content_type ++ (ch ∷ []) })

-- The chain of tests on `parse_status_`.
abbrev pub parse_char : RequestParseStatus → Request → ℕ → ℕ → Step
parse_char s_eol r ch c = parse_eol r c
parse_char s_start r ch c = parse_start r c
parse_char s_method r ch c = parse_method r c
parse_char s_method_p r ch c = parse_method_p r c
parse_char s_path r ch c = parse_path r ch
parse_char s_query_string r ch c = parse_query_string r ch
parse_char s_header_field r ch c = parse_header_field r c
parse_char s_eoh r ch c = parse_eoh r c
parse_char s_content_length r ch c = parse_content_length r c
parse_char s_content_length_v r ch c = parse_content_length_v r c
parse_char s_sec_websocket_key r ch c = parse_sec_websocket_key r c
parse_char s_sec_websocket_key_v r ch c = parse_sec_websocket_key_v r ch c
parse_char s_content_type r ch c = parse_content_type r c
parse_char s_content_type_v r ch c = parse_content_type_v r ch c
parse_char s_upgrade r ch c = advance r

unfoldable pub parse_step : Request → Step
parse_step r =
    let ch = get_or r.rbuf r.parse_offset 0 in
    if token ch == 0 then leave error r else parse_char r.parse_status r ch (token ch)

-- The loop, with a bound on the rounds; `none` where the bound is met.
unfoldable pub parse_loop : ℕ → Request → Option (HttpParserStatus × Request)
unfolding parse_step
parse_loop zero r = none
parse_loop (suc rounds) r = elim (ltb r.parse_offset r.rbuf_len) [
  | false ↦ some (more, r)
  | true ↦ elim (parse_step r) [ proceed q ↦ parse_loop rounds q | leave s q ↦ some (s, q) ]
]

-- At most every other round stays on its character.
unfoldable pub parse : Request → Option (HttpParserStatus × Request)
unfolding parse_eol parse_start parse_method parse_method_p parse_path parse_query_string
    parse_content parse_header_field parse_eoh parse_field_name parse_content_length_v
    parse_sec_websocket_key_v parse_content_type_v parse_step parse_loop token is_url_char
parse r = parse_loop (suc (2 * (r.rbuf_len - r.parse_offset) + 1)) r
