-- ===== src/Request/Fields.antt =====
-- `ParseHeader` and `ParseFormUrlencoded` of request.cpp: the scans that fill the maps, which stop at
-- the end of the C string.
pub mod Forms
use mevent.Common.{
  ℕ, Bytes, [], ◌∷◌, ◌++◌, Bool, true, false, ◌==◌, ◌&&◌, ◌||◌, not, if◌then◌else◌, codes,
}
use mevent.Request.{Request, Fields, assign, same_bytes, body}
use mevent.Util.{url_decode}

-- The locals of a scan.
pub record Scan : Type 0 where
  pub found : Fields
  pub is_field : Bool
  pub field : Bytes
  pub value : Bytes

abbrev pub scan_start : Fields → Scan
scan_start m = record { found = m; is_field = true; field = []; value = [] }

abbrev pub is_empty : Bytes → Bool
is_empty [] = true
is_empty (c ∷ cs) = false

abbrev pub push : Scan → ℕ → Scan
push s c =
    if s.is_field
    then record s { field = s.field ++ (c ∷ []) }
    else record s { value = s.value ++ (c ∷ []) }

abbrev pub header_line_end : Scan → Scan
header_line_end s =
    if is_empty s.field || is_empty s.value
    then scan_start s.found
    else scan_start (assign s.found s.field s.value)

abbrev pub scan_header_char : Scan → ℕ → Scan
scan_header_char s c =
    if c == 58 && s.is_field
    then record s { is_field = false }
    else if c == 13
    then s
    else if c == 10
    then header_line_end s
    else if not s.is_field && is_empty s.value && (c == 32)
    then s
    else push s c

unfoldable pub scan_header : Scan → Bytes → Scan
scan_header s [] = s
scan_header s (c ∷ cs) = elim (c == 0) [ true ↦ s | false ↦ scan_header (scan_header_char s c) cs ]

-- `strchr(rbuf_, '\n')`, which finds the end of the request line in every request that `Parse` has
-- finished; a null pointer is not modelled.
unfoldable pub from_line_feed : Bytes → Bytes
from_line_feed [] = []
from_line_feed (c ∷ cs) = if c == 10 then c ∷ cs else (if c == 0 then [] else from_line_feed cs)

abbrev pub parse_header : Request → Request
parse_header r = record r {
  header_map = (scan_header (scan_start r.header_map) (from_line_feed r.rbuf)).found;
}

abbrev pub form_pair_end : Scan → Scan
form_pair_end s =
    if is_empty s.field || is_empty s.value
    then scan_start s.found
    else scan_start (assign s.found s.field (url_decode s.value))

abbrev pub scan_form_char : Scan → ℕ → Scan
scan_form_char s c =
    if c == 61 then record s { is_field = false } else if c == 38 then form_pair_end s else push s c

unfoldable pub scan_form : Scan → Bytes → Scan
scan_form s [] = s
scan_form s (c ∷ cs) = elim (c == 0) [ true ↦ s | false ↦ scan_form (scan_form_char s c) cs ]

unfoldable pub parse_form_urlencoded : Fields → Bytes → Fields
unfolding scan_form assign same_bytes url_decode
parse_form_urlencoded m str = (form_pair_end (scan_form (scan_start m) str)).found

abbrev pub parse_query_string : Request → Request
parse_query_string r =
    if is_empty r.query_string
    then r
    else record r { get_form_map = parse_form_urlencoded r.get_form_map r.query_string }

abbrev pub parse_post_form : Request → Request
parse_post_form r =
    if same_bytes r.content_type (codes "application/x-www-form-urlencoded")
    then record r { post_form_map = parse_form_urlencoded r.post_form_map (body r) }
    else r
