-- ===== src/Hoppie/Cpdlc/RoundTrip.antt =====
-- What `CpdlcPacket.encode` writes, `CpdlcPacket.parse` reads back.
use acars_printer.Prelude.{
  ℕ, ◌≡◌, refl, ap, ◌∙◌, Bool, true, false, Option, none, some, [], ◌∷◌, ◌++◌, arith, all,
}
use acars_printer.Text.Strip.{rstrip-append, is_empty-append}
use acars_printer.Text.{
  Text, codes, is_digit, is_alpha, is_space, is_empty, lstrip, rstrip, strip, starts_with,
  to_decimal, of_decimal, of_decimal-to_decimal, to_decimal-is_digit, is_empty-to_decimal,
}
use acars_printer.Hoppie.Types.{ok}
use acars_printer.Hoppie.Cpdlc.{
  CpdlcPacket, number_text, header, wire_text, encode, span_of, field, then_field, number_of,
  match_fields, match_data2, parse,
}

span_of-run :
    (test : ℕ → Bool) (run rest : Text)
    → all test run ≡ true
    → test b'/' ≡ false
    → span_of test (run ++ b'/' ∷ rest) ≡ (run, b'/' ∷ rest)
unfolding span_of
span_of-run test [] rest h stop = rw stop
span_of-run test (c ∷ run) rest h stop = ground (arith, span_of-run test run rest)

-- A run of passing characters before a slash is a field.
field-run :
    (test : ℕ → Bool) (run rest : Text)
    → all test run ≡ true
    → test b'/' ≡ false
    → field test (run ++ b'/' ∷ rest) ≡ some (run, rest)
field-run test run rest h stop =
    let spanned = span_of-run test run rest h stop in unfold field in rw spanned

rstrip-slash : (w : Text) → rstrip (b'/' ∷ w) ≡ b'/' ∷ rstrip w
unfolding rstrip is_space
rstrip-slash w = ground arith

-- A piece that ends in a slash keeps its front when the end is stripped.
rstrip-piece :
    (a w : Text)
    → (rstrip (a ++ b'/' ∷ w) ≡ a ++ b'/' ∷ rstrip w) × (is_empty (rstrip (a ++ b'/' ∷ w)) ≡ false)
rstrip-piece a w =
    let e = rstrip-append a (b'/' ∷ w) (rw rstrip-slash) ∙ ap (λ x. a ++ x) (rstrip-slash w) in
    (e, rw e (is_empty-append a (b'/' ∷ rstrip w) refl))

number_of-number_text : (n : Option ℕ) → number_of (number_text n) ≡ n
number_of-number_text none = refl
number_of-number_text (some n) =
    some_digits (to_decimal n) (is_empty-to_decimal n) ∙ ap some (of_decimal-to_decimal n)
  where
    some_digits : (s : Text) → is_empty s ≡ false → number_of s ≡ some (of_decimal s)
    some_digits [] h = cc
    some_digits (c ∷ s) h = refl

number_text-is_digit : (n : Option ℕ) → all is_digit (number_text n) ≡ true
number_text-is_digit none = refl
number_text-is_digit (some n) = to_decimal-is_digit n

slash_is_no_digit : is_digit b'/' ≡ false
unfolding is_digit
slash_is_no_digit = refl

slash_is_no_letter : is_alpha b'/' ≡ false
unfolding is_alpha
slash_is_no_letter = refl

-- The packet as it stands on the wire, with any text behind the last slash.
abbrev framed : Option ℕ → Option ℕ → Text → Text → Text
framed min mrn ra text =
    header ++ (number_text min ++ (b'/' ∷ (number_text mrn ++ (b'/' ∷ (ra ++ (b'/' ∷ text))))))

-- What stands before the slash of the header.
abbrev tag : Text
tag = codes "/data2"

lstrip-header : (s : Text) → lstrip (header ++ s) ≡ header ++ s
unfolding lstrip is_space
lstrip-header s = refl

strip_front : (s : Text) → strip (header ++ s) ≡ rstrip (header ++ s)
unfolding strip
strip_front s = ap rstrip (lstrip-header s)

strip-framed :
    (min mrn : Option ℕ) (ra text : Text)
    → strip (framed min mrn ra text) ≡ framed min mrn ra (rstrip text)
strip-framed min mrn ra text =
    let third = (rstrip-piece ra text).0 in
    let second = (rstrip-piece (number_text mrn) (ra ++ b'/' ∷ text)).0 in
    let first =
      (rstrip-piece (number_text min) (number_text mrn ++ b'/' ∷ (ra ++ b'/' ∷ text))).0 in
    let body = number_text min ++ b'/' ∷ (number_text mrn ++ b'/' ∷ (ra ++ b'/' ∷ text)) in
    let whole = (rstrip-piece tag body).0 in
    strip_front body
    ∙ whole
    ∙ ap (λ x. header ++ x)
        (first
          ∙ ap (λ x. number_text min ++ b'/' ∷ x)
              (second ∙ ap (λ x. number_text mrn ++ b'/' ∷ x) third))

then_field-run :
    (test : ℕ → Bool) (run rest : Text) (k : Text → Text → Option CpdlcPacket)
    → all test run ≡ true
    → test b'/' ≡ false
    → then_field test (run ++ b'/' ∷ rest) k ≡ k run rest
then_field-run test run rest k h stop =
    let read = field-run test run rest h stop in unfold then_field in rw (read, then_field)

match_data2-framed :
    (min mrn : Option ℕ) (ra text : Text)
    → all is_alpha ra ≡ true
    → match_data2 (framed min mrn ra text)
      ≡ some (record { min = min; mrn = mrn; ra = ra; text = text })
unfolding match_data2 match_fields starts_with
match_data2-framed min mrn ra text h =
    then_field-run is_digit (number_text min) _ _ (number_text-is_digit min) slash_is_no_digit
    ∙ then_field-run is_digit (number_text mrn) _ _ (number_text-is_digit mrn) slash_is_no_digit
    ∙ then_field-run is_alpha ra text _ h slash_is_no_letter
    ∙ rw (number_of-number_text min) (rw (number_of-number_text mrn))

-- A packet whose response code is letters is read back as it was written: the numbers and the code
-- are the same, and the text is the one on the wire, with line feeds as `@` and the space at its end
-- stripped.
pub parse-encode :
    (p : CpdlcPacket)
    → all is_alpha p.ra ≡ true
    → parse (encode p) ≡ ok (record p { text = rstrip (wire_text p.text) })
unfolding parse encode
parse-encode p h =
    rw (strip-framed p.min p.mrn p.ra (wire_text p.text))
      (rw (match_data2-framed p.min p.mrn p.ra (rstrip (wire_text p.text)) h))
