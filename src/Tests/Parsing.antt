-- ===== src/Tests/Parsing.antt =====
-- `Parse` of request.cpp on the text of a request.
use mevent.Common.{◌≡◌, ◌≢◌, [], ◌∷◌, some, arith, codes, length, List}
use mevent.Request.{Request, post_method, unknown_method, new_request}
use mevent.Request.Chars.{token, is_url_char}
use mevent.Request.Parse.{finished, parse}
use mevent.Request.Parse.Lines.{header_of}
use mevent.Request.Parse.RequestText.{HeaderLine, read_lines, request_line, request_text}
use mevent.Request.Parse.WellFormed.{parse-request_text}

abbrev lines : List HeaderLine
lines =
    HeaderLine.other_line (codes "Host: a")
    ∷ HeaderLine.type_field (codes "application/x-www-form-urlencoded")
    ∷ HeaderLine.length_field (codes "120")
    ∷ HeaderLine.other_line (codes "Accept: */*")
    ∷ HeaderLine.other_line (codes "Cookie: a=1")
    ∷ HeaderLine.key_field (codes "a2V5")
    ∷ []

post_known : post_method ≢ unknown_method
post_known e = ground (arith, e)

parse-request_text_example :
    let text = request_text post_method (codes "a/b") (codes "x=1") lines in
    (last : Request) × (parse (record new_request { rbuf = text; rbuf_len = length text })
      ≡ some (finished, last))
    × (header_of last ≡ read_lines (request_line post_method (codes "/a/b") (codes "x=1")) lines)
    × (last.header_len ≡ length text)
unfolding token is_url_char
parse-request_text_example =
    parse-request_text post_method (codes "a/b") (codes "x=1") lines post_known (ground arith)
      (ground arith) (ground arith) (ground arith) (omega arith)
