-- ===== src/Request/Fields/Forms.antt =====
-- `ParseFormUrlencoded` reads the fields of a form.
use mevent.Common.{
  ℕ, Bytes, IsBytes, [], ◌∷◌, ◌++◌, append_assoc, append-nil, Bool, true, false, ◌==◌, ◌&&◌, not,
  ◌/◌, ◌%◌, ◌≡◌, refl, sym, ap, ◌∙◌, All, get_or, arith, Bool-cases, inl, inr,
}
use mevent.Common.Bits.{every_below, every_below_sound}
use mevent.Util.{hexchars}
use mevent.Util.UrlCoding.{percent_encode, url_decode-percent_encode}
use mevent.Request.{Fields, assign}
use mevent.Request.Fields.{
  Scan, scan_start, is_empty, scan_form, push, form_pair_end, parse_form_urlencoded,
}

-- A character that the scan takes as it is: not the terminator, '&' or '='.
abbrev pub is_plain : ℕ → Bool
is_plain c = not (c == 0) && not (c == 38) && not (c == 61)

abbrev pub IsText : Bytes → Type 0
IsText = All (λ c. is_plain c ≡ true)

-- The form as a browser sends it: the values percent-encoded, but for the characters of `plain`.
module _ (plain : ℕ → Bool) where
  abbrev pub form_pair : Bytes × Bytes → Bytes
  form_pair p = p.0 ++ 61 ∷ percent_encode plain p.1

  abbrev pub more_pairs : Fields → Bytes
  more_pairs [] = []
  more_pairs (p ∷ pairs) = 38 ∷ form_pair p ++ more_pairs pairs

  abbrev pub form_text : Fields → Bytes
  form_text [] = []
  form_text (p ∷ pairs) = form_pair p ++ more_pairs pairs

-- A field and a value that are not empty.
abbrev pub IsPair : Bytes × Bytes → Type 0
IsPair p = IsText p.0 × (is_empty p.0 ≡ false) × IsBytes p.1 × (is_empty p.1 ≡ false)

abbrev pub assigned : Fields → Fields → Fields
assigned m [] = m
assigned m (p ∷ pairs) = assigned (assign m p.0 p.1) pairs

scan_form-push :
    (s : Scan) (c : ℕ) (cs : Bytes)
    → is_plain c ≡ true
    → scan_form s (c ∷ cs) ≡ scan_form (push s c) cs
unfolding scan_form
scan_form-push s c cs h = ground arith

abbrev at_field : Fields → Bytes → Scan
at_field m field = record { found = m; is_field = true; field = field; value = [] }

abbrev at_value : Fields → Bytes → Bytes → Scan
at_value m field value = record { found = m; is_field = false; field = field; value = value }

scan_form-field :
    (m : Fields) (field text rest : Bytes)
    → IsText text
    → scan_form (at_field m field) (text ++ rest) ≡ scan_form (at_field m (field ++ text)) rest
scan_form-field m field [] rest h = ap (λ f. scan_form (at_field m f) rest) (sym (append-nil field))
scan_form-field m field (c ∷ text) rest h =
    scan_form-push (at_field m field) c (text ++ rest) h.0
    ∙ scan_form-field m (field ++ c ∷ []) text rest h.1
    ∙ ap (λ f. scan_form (at_field m f) rest) (append_assoc field (c ∷ []) text)

scan_form-value :
    (m : Fields) (field value text rest : Bytes)
    → IsText text
    → scan_form (at_value m field value) (text ++ rest)
      ≡ scan_form (at_value m field (value ++ text)) rest
scan_form-value m field value [] rest h =
    ap (λ v. scan_form (at_value m field v) rest) (sym (append-nil value))
scan_form-value m field value (c ∷ text) rest h =
    scan_form-push (at_value m field value) c (text ++ rest) h.0
    ∙ scan_form-value m field (value ++ c ∷ []) text rest h.1
    ∙ ap (λ v. scan_form (at_value m field v) rest) (append_assoc value (c ∷ []) text)

scan_form-equals :
    (m : Fields) (field rest : Bytes)
    → scan_form (at_field m field) (61 ∷ rest) ≡ scan_form (at_value m field []) rest
unfolding scan_form
scan_form-equals m field rest = refl

abbrev is_plain_digits : ℕ → Bool
is_plain_digits b = is_plain (get_or hexchars (b / 16) 0) && is_plain (get_or hexchars (b % 16) 0)

digits_table : every_below 256 is_plain_digits ≡ true
unfolding every_below
digits_table = refl

module _ (plain : ℕ → Bool) (keeps : (c : ℕ) → plain c ≡ true → is_plain c ≡ true) where
  percent_encode-IsText : (bs : Bytes) → IsBytes bs → IsText (percent_encode plain bs)
  percent_encode-IsText [] h = tt
  percent_encode-IsText (b ∷ bs) h =
      let digits = every_below_sound 256 is_plain_digits b digits_table h.0 in
      elim (Bool-cases (plain b && not (b == 37) && not (b == 43))) [
        | inl stands ↦ rw stands (keeps b (ground (arith, stands)), percent_encode-IsText bs h.1)
        | inr coded ↦
            rw coded (
              refl,
              (ground (arith, digits), (ground (arith, digits), percent_encode-IsText bs h.1)),
            )
      ]

  percent_encode_nonempty :
      (bs : Bytes) → is_empty bs ≡ false → is_empty (percent_encode plain bs) ≡ false
  percent_encode_nonempty [] h = h
  percent_encode_nonempty (b ∷ bs) h =
      elim (Bool-cases (plain b && not (b == 37) && not (b == 43))) [
        | inl stands ↦ rw stands refl
        | inr coded ↦ rw coded refl
      ]

  scan_form-form_pair :
      (m : Fields) (p : Bytes × Bytes) (rest : Bytes)
      → IsPair p
      → scan_form (scan_start m) (form_pair plain p ++ rest)
        ≡ scan_form (at_value m p.0 (percent_encode plain p.1)) rest
  scan_form-form_pair m p rest h =
      let coded = percent_encode plain p.1 in
      ap (scan_form (scan_start m)) (append_assoc p.0 (61 ∷ coded) rest)
      ∙ scan_form-field m [] p.0 (61 ∷ coded ++ rest) h.0
      ∙ scan_form-equals m p.0 (coded ++ rest)
      ∙ scan_form-value m p.0 [] coded rest (percent_encode-IsText p.1 h.2)

  form_pair_end-assign :
      (m : Fields) (p : Bytes × Bytes)
      → IsPair p
      → form_pair_end (at_value m p.0 (percent_encode plain p.1)) ≡ scan_start (assign m p.0 p.1)
  form_pair_end-assign m p h =
      rw (h.1, percent_encode_nonempty p.1 h.3, url_decode-percent_encode plain p.1 h.2) refl

  scan_form-more_pairs :
      (m : Fields) (p : Bytes × Bytes) (pairs : Fields)
      → IsPair p
      → All IsPair pairs
      → (form_pair_end
          (scan_form (at_value m p.0 (percent_encode plain p.1)) (more_pairs plain pairs))).found
        ≡ assigned m (p ∷ pairs)
  unfolding scan_form
  scan_form-more_pairs m p [] h hs = ap (λ (s : Scan). s.found) (form_pair_end-assign m p h)
  scan_form-more_pairs m p (q ∷ pairs) h hs =
      let next = form_pair plain q ++ more_pairs plain pairs in
      ap (λ s. (form_pair_end (scan_form s next)).found) (form_pair_end-assign m p h)
      ∙ ap (λ s. (form_pair_end s).found)
          (scan_form-form_pair (assign m p.0 p.1) q (more_pairs plain pairs) hs.0)
      ∙ scan_form-more_pairs (assign m p.0 p.1) q pairs hs.0 hs.1

  -- From the text of a form, whose fields are not empty and hold no '=', '&' or zero, and whose values are not
  -- empty and percent-encoded with at least these three bytes, `ParseFormUrlencoded` assigns each field its value,
  -- decoded, in the order of the text.
  pub parse_form_urlencoded-form_text :
      (m pairs : Fields)
      → All IsPair pairs
      → parse_form_urlencoded m (form_text plain pairs) ≡ assigned m pairs
  unfolding parse_form_urlencoded scan_form
  parse_form_urlencoded-form_text m [] h = refl
  parse_form_urlencoded-form_text m (p ∷ pairs) h =
      ap (λ s. (form_pair_end s).found) (scan_form-form_pair m p (more_pairs plain pairs) h.0)
      ∙ scan_form-more_pairs m p pairs h.0 h.1
