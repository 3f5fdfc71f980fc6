-- ===== src/Tests/Wire.antt =====
-- Hoppie responses (src/acars_bridge/hoppie/) at concrete texts.
use acars_printer.Prelude.{◌≡◌, ◌↔◌, refl, true, none, some, [], ◌∷◌, all}
use acars_printer.Text.{
  Text, codes, is_space, is_alpha, is_digit, lower, strip, lstrip, rstrip, starts_with,
}
use acars_printer.Hoppie.Types.{cpdlc, HoppieMessage, ok}
use acars_printer.Hoppie.Cpdlc.{CpdlcPacket, encode, parse, expand_cpdlc_at_marks, wire_text}
use acars_printer.Hoppie.Cpdlc.RoundTrip.{parse-encode}
use acars_printer.Hoppie.Blocks.{extract_blocks, scan}
use acars_printer.Hoppie.Blocks.Grammar.{Framed, extract_blocks_iff}
use acars_printer.Hoppie.Parser.{parse_block, parse_blocks, parse_response}
use acars_printer.Hoppie.Parser.Messages.{ReadsBlocks, parse_response_iff}
use acars_printer.Hoppie.Parser.Wire.{wire_block, IsWire, parse_block-encode}

abbrev body : Text
body = codes "{a{b}} {c}"

extract_blocks_iff_example :
    (extract_blocks body ≡ ok (codes "a{b}" ∷ codes "c" ∷ []))
    ↔ Framed body (codes "a{b}" ∷ codes "c" ∷ [])
extract_blocks_iff_example = extract_blocks_iff body (codes "a{b}" ∷ codes "c" ∷ [])

two_blocks : extract_blocks body ≡ ok (codes "a{b}" ∷ codes "c" ∷ [])
unfolding extract_blocks scan is_space
two_blocks = refl

abbrev raw : Text
raw = codes "ok {EDDF telex {HI}}"

abbrev dlh : Text
dlh = codes "dlh1"

parse_response_iff_example :
    (parse_response raw dlh ≡ ok (parse_blocks dlh (codes "EDDF telex {HI}" ∷ [])))
    ↔ ReadsBlocks raw dlh (parse_blocks dlh (codes "EDDF telex {HI}" ∷ []))
parse_response_iff_example =
    parse_response_iff raw dlh (parse_blocks dlh (codes "EDDF telex {HI}" ∷ []))

one_message : parse_response raw dlh ≡ ok (parse_blocks dlh (codes "EDDF telex {HI}" ∷ []))
unfolding parse_response extract_blocks scan is_space strip lstrip rstrip lower starts_with
one_message = refl

eddf_telex : IsWire (codes "EDDF") (codes "telex")
unfolding is_space is_digit starts_with
eddf_telex = record {
  sender_word = record { filled = refl; solid = refl };
  sender_no_id = refl;
  type_word = record { filled = refl; solid = refl };
  type_no_brace = refl;
}

abbrev uplink : CpdlcPacket
uplink = record { min = some 12; mrn = none; ra = codes "WU"; text = codes "CLIMB@FL350 " }

letters : all is_alpha uplink.ra ≡ true
unfolding is_alpha
letters = refl

parse-encode_example :
    parse (encode uplink) ≡ ok (record uplink { text = rstrip (wire_text uplink.text) })
parse-encode_example = parse-encode uplink letters

eddf_cpdlc : IsWire (codes "EDDF") (codes "cpdlc")
unfolding is_space is_digit starts_with
eddf_cpdlc = record {
  sender_word = record { filled = refl; solid = refl };
  sender_no_id = refl;
  type_word = record { filled = refl; solid = refl };
  type_no_brace = refl;
}

parse_block-encode_example :
    (m : HoppieMessage) × (parse_block
        (wire_block (codes "EDDF") (codes "cpdlc") (encode uplink))
        dlh
      ≡ some m)
    × (m.message_type ≡ cpdlc)
    × (m.min ≡ some 12)
    × (m.mrn ≡ none)
    × (m.ra ≡ some (codes "WU"))
    × (m.normalized_body ≡ expand_cpdlc_at_marks (rstrip (wire_text uplink.text)))
parse_block-encode_example = parse_block-encode dlh (codes "EDDF") uplink eddf_cpdlc letters
