-- ===== src/Request/Parse/RequestText.antt =====
-- The text of a request, and `Parse` of request.cpp on its header lines.
use mevent.Common.{
  Bytes, List, [], ◌∷◌, ◌++◌, ◌^◌, ◌<◌, ◌≡◌, sym, subst, true, false, ◌==◌, arith, All, codes,
}
use mevent.Request.{Request, RequestMethod, s_header_field}
use mevent.Request.Chars.{token}
use mevent.Request.Parse.{parse_header_field}
use mevent.Request.Parse.Big.{At}
use mevent.Request.Parse.Lines.{Header, header_of, Finishes, end_Finishes, IsLineText}
use mevent.Request.Parse.OtherLine.{is_skipped, other_line_Finishes}
use mevent.Request.Parse.Digits.{IsDigits, number}
use mevent.Request.Parse.LengthLine.{length_line, length_Finishes}
use mevent.Request.Parse.TextLines.{IsValue, type_line, key_line, type_Finishes, key_Finishes}
use mevent.Request.Parse.Methods.{behind_method}
use mevent.Request.Parse.Starts.{method_text}

-- A header line that the parser skips.
abbrev pub IsOtherLine : Bytes → Type 0
IsOtherLine [] = ⊥
IsOtherLine (c ∷ cs) =
    ((token c == 0) ≡ false) × ((token c == 13) ≡ false) × (is_skipped c cs ≡ true) × IsLineText cs

-- A header line: the three whose values the parser reads, and any other.
pub data HeaderLine : Type 0 where
  length_field type_field key_field other_line : Bytes → HeaderLine

abbrev pub line_text : HeaderLine → Bytes → Bytes
line_text (HeaderLine.length_field digits) rest = length_line digits rest
line_text (HeaderLine.type_field value) rest = type_line value rest
line_text (HeaderLine.key_field value) rest = key_line value rest
line_text (HeaderLine.other_line text) rest = text ++ 13 ∷ 10 ∷ rest

abbrev pub lines_text : List HeaderLine → Bytes
lines_text [] = 13 ∷ 10 ∷ []
lines_text (line ∷ lines) = line_text line (lines_text lines)

-- A value that is not empty and does not begin with a colon.
abbrev pub IsFieldValue : Bytes → Type 0
IsFieldValue [] = ⊥
IsFieldValue (c ∷ cs) = ((token c == 58) ≡ false) × IsValue (c ∷ cs)

abbrev pub IsNumeral : Bytes → Type 0
IsNumeral [] = ⊥
IsNumeral (d ∷ digits) = IsDigits (d ∷ digits)

abbrev pub IsLine : HeaderLine → Type 0
IsLine (HeaderLine.length_field digits) = IsNumeral digits
IsLine (HeaderLine.type_field value) = IsFieldValue value
IsLine (HeaderLine.key_field value) = IsFieldValue value
IsLine (HeaderLine.other_line text) = IsOtherLine text

-- What a line adds to a header: digits behind those that were read, a value behind one that was.
abbrev pub read_line : Header → HeaderLine → Header
read_line h (HeaderLine.length_field digits) = record h {
  content_length = number h.content_length digits;
}
read_line h (HeaderLine.type_field value) = record h { content_type = h.content_type ++ value }
read_line h (HeaderLine.key_field value) = record h {
  sec_websocket_key = h.sec_websocket_key ++ value;
}
read_line h (HeaderLine.other_line text) = h

abbrev pub read_lines : Header → List HeaderLine → Header
read_lines h [] = h
read_lines h (line ∷ lines) = read_lines (read_line h line) lines

-- The length of the body stays within 32 bits.
abbrev pub Fits : Header → List HeaderLine → Type 0
Fits h [] = Unit
Fits h (line ∷ lines) = ((read_line h line).content_length < 2 ^ 32) × Fits (read_line h line) lines

-- The path behind its slash, the query, if there is one, and the rest of the request.
abbrev pub target_text : Bytes → Bytes → Bytes → Bytes
target_text path [] rest = path ++ 32 ∷ rest
target_text path (c ∷ query) rest = path ++ (63 ∷ c ∷ (query ++ (32 ∷ rest)))

abbrev pub version_text : List HeaderLine → Bytes
version_text lines = codes "HTTP/1.1" ++ 13 ∷ 10 ∷ lines_text lines

abbrev pub request_text : RequestMethod → Bytes → Bytes → List HeaderLine → Bytes
request_text method path query lines =
    method_text method ++ behind_method (target_text path query (version_text lines))

-- The header of a request without the lines.
abbrev pub request_line : RequestMethod → Bytes → Bytes → Header
request_line method path query = record {
  method = method;
  path = path;
  query_string = query;
  content_length = 0;
  content_type = [];
  sec_websocket_key = [];
}

-- One line, before whatever is done with the rest.
first_line_Finishes :
    (line : HeaderLine) (rest : Bytes) (r : Request) (h : Header)
    → IsLine line
    → (read_line (header_of r) line).content_length < 2 ^ 32
    → r.parse_status ≡ s_header_field
    → At r (line_text line rest)
    → r.rbuf_len < 2 ^ 32
    → ((m : Request)
        → m.parse_status ≡ s_header_field
        → At m rest
        → m.rbuf_len ≡ r.rbuf_len
        → header_of m ≡ read_line (header_of r) line
        → Finishes m h)
    → Finishes r h
unfolding parse_header_field
first_line_Finishes (HeaderLine.length_field []) rest r h fine fits here a small k = absurd fine
first_line_Finishes (HeaderLine.length_field (d ∷ digits)) rest r h fine fits here a small k =
    length_Finishes d digits rest r h fine fits here a small k
first_line_Finishes (HeaderLine.type_field []) rest r h fine fits here a small k = absurd fine
first_line_Finishes (HeaderLine.type_field (c ∷ cs)) rest r h fine fits here a small k =
    type_Finishes c cs rest r h fine.1 fine.0 here a small k
first_line_Finishes (HeaderLine.key_field []) rest r h fine fits here a small k = absurd fine
first_line_Finishes (HeaderLine.key_field (c ∷ cs)) rest r h fine fits here a small k =
    key_Finishes c cs rest r h fine.1 fine.0 here a small k
first_line_Finishes (HeaderLine.other_line []) rest r h fine fits here a small k = absurd fine
first_line_Finishes (HeaderLine.other_line (c ∷ cs)) rest r h fine fits here a small k =
    let (legal, no_end, skipped, text) = fine in
    other_line_Finishes c cs rest r h legal no_end skipped text here a small k

pub lines_Finishes :
    (lines : List HeaderLine) (r : Request)
    → All IsLine lines
    → Fits (header_of r) lines
    → r.parse_status ≡ s_header_field
    → At r (lines_text lines)
    → r.rbuf_len < 2 ^ 32
    → Finishes r (read_lines (header_of r) lines)
lines_Finishes [] r fine fits here a small = end_Finishes r here a
lines_Finishes (line ∷ lines) r fine fits here a small =
    first_line_Finishes line (lines_text lines) r (read_lines (header_of r) (line ∷ lines)) fine.0
      fits.0 here a small
      (λ n there b len e.
        subst (λ h. Finishes n (read_lines h lines)) e
          (lines_Finishes lines n fine.1 (subst (λ h. Fits h lines) (sym e) fits.1) there b
            (omega (arith, len, small))))
