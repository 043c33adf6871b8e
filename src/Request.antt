-- ===== src/Request.antt =====
-- request.h and the plain operations of request.cpp: the state of a request, `Reset`, `Keepalive`
-- and the values that handlers read. A byte string is a list of bytes, a `std::map` an association
-- list with one entry for each key. `conn_` is an argument of the operations that use it.
pub mod Chars
pub mod Parse
pub mod Fields
pub mod Read
use mevent.Common.{
  ℕ, Bytes, List, [], ◌∷◌, Bool, true, false, ◌==◌, ◌&&◌, if◌then◌else◌, drop, Option, some, none,
}

pub data RequestMethod : Type 0 where
  get_method post_method head_method put_method delete_method : RequestMethod
  connect_method options_method trace_method patch_method unknown_method : RequestMethod

pub data RequestStatus : Type 0 where
  header_receiving body_receiving body_received upgrade : RequestStatus

pub data RequestParseStatus : Type 0 where
  s_start s_method s_method_p s_path s_query_string : RequestParseStatus
  s_content_length s_content_length_v s_content_type s_content_type_v : RequestParseStatus
  s_sec_websocket_key s_sec_websocket_key_v s_upgrade : RequestParseStatus
  s_eol s_header_field s_eoh : RequestParseStatus

abbrev pub Fields : Type 0
Fields = List (Bytes × Bytes)

pub record Request : Type 0 where
  pub status : RequestStatus
  pub addr : ℕ
  pub rbuf : Bytes
  pub rbuf_len : ℕ
  pub method : RequestMethod
  pub path : Bytes
  pub query_string : Bytes
  pub content_length : ℕ
  pub header_len : ℕ
  pub parse_status : RequestParseStatus
  pub parse_offset : ℕ
  pub parse_match : ℕ
  pub error_code : ℕ
  pub content_type : Bytes
  pub sec_websocket_key : Bytes
  pub header_map : Fields
  pub get_form_map : Fields
  pub post_form_map : Fields

-- The constructor does no more than `Reset`.
abbrev pub new_request : Request
new_request = record {
  status = header_receiving;
  addr = 0;
  rbuf = [];
  rbuf_len = 0;
  method = unknown_method;
  path = [];
  query_string = [];
  content_length = 0;
  header_len = 0;
  parse_status = s_start;
  parse_offset = 0;
  parse_match = 0;
  error_code = 0;
  content_type = [];
  sec_websocket_key = [];
  header_map = [];
  get_form_map = [];
  post_form_map = [];
}

abbrev pub reset : Request → Request
reset r = new_request

abbrev pub keepalive : Request → Request
keepalive r = record r { status = header_receiving; rbuf = []; rbuf_len = 0 }

-- `operator==` on strings.
unfoldable pub same_bytes : Bytes → Bytes → Bool
same_bytes [] [] = true
same_bytes [] (y ∷ ys) = false
same_bytes (x ∷ xs) [] = false
same_bytes (x ∷ xs) (y ∷ ys) = (x == y) && same_bytes xs ys

-- `m[field] = value`.
unfoldable pub assign : Fields → Bytes → Bytes → Fields
unfolding same_bytes
assign [] field value = (field, value) ∷ []
assign (e ∷ m) field value =
    let rest = assign m field value in if same_bytes e.0 field then (field, value) ∷ m else e ∷ rest

-- The lookup of `HeaderValue`, `QueryStringValue` and `PostFormValue`: a missing field is empty.
unfoldable pub field_value : Fields → Bytes → Bytes
unfolding same_bytes
field_value [] field = []
field_value (e ∷ m) field =
    let rest = field_value m field in if same_bytes e.0 field then e.1 else rest

abbrev pub header_value : Request → Bytes → Bytes
header_value r field = field_value r.header_map field

abbrev pub query_string_value : Request → Bytes → Bytes
query_string_value r field = field_value r.get_form_map field

abbrev pub post_form_value : Request → Bytes → Bytes
post_form_value r field = field_value r.post_form_map field

-- `rbuf_.substr(header_len_)` where the header fits `rbuf_`.
abbrev pub body : Request → Bytes
body r = drop r.header_len r.rbuf

-- `inet_ntop` gives the text of an address.
abbrev pub remote_addr : (ℕ → Bytes) → Request → Bytes
remote_addr inet_ntop r = inet_ntop r.addr
