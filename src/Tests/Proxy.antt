-- ===== src/Tests/Proxy.antt =====
-- The proxy of src/acars_bridge/tap/proxy.py at concrete messages.
use acars_printer.Prelude.{
  ◌≤◌, ◌≡◌, refl, true, false, none, some, [], ◌∷◌, ◌++◌, arith, length, if◌then◌else◌,
}
use acars_printer.Text.{
  codes, is_empty, text_eq, lower, upper, strip, is_space, starts_with, partition, int_of_text,
  is_digit,
}
use acars_printer.Tap.Proxy.{
  Bytes, Socket, is_response, recv_http_message, split_head, header_value, split_crlf,
}
use acars_printer.Tap.Proxy.Cut.{concat}
use acars_printer.Tap.Proxy.Whole.{whole, is_framed, recv_http_message-whole}
use acars_printer.Tap.Proxy.Whole.Exact.{is_exact}
use acars_printer.Tap.Proxy.Patch.{
  Codec, form_patch_fields, filled_pairs, fill_pair, is_from, is_blank_from,
}
use acars_printer.Tap.Proxy.Patch.Fields.{IsFilled, form_patch_fields-IsFilled}
use acars_printer.Tap.Proxy.Client.{ProxyConfig, Outside, handle_client}
use acars_printer.Tap.Proxy.Client.Transparent.{IsClean, handle_client_transparent}

abbrev crlf : Bytes
crlf = b'\r' ∷ b'\n' ∷ []

-- A request that is cut within its blank line.
abbrev request : Socket
request = record {
  pieces =
      (codes "POST /connect.html HTTP/1.1" ++ (crlf ++ (codes "Content-Length: 3" ++ (b'\r' ∷ []))))
      ∷ (b'\n' ∷ (crlf ++ codes "a="))
      ∷ codes "b"
      ∷ [];
  closes = false;
}

abbrev reply : Socket
reply = record {
  pieces =
      (codes "HTTP/1.1 200 OK" ++ crlf)
      ∷ (codes "Content-Length: 2" ++ (crlf ++ (crlf ++ codes "ok")))
      ∷ [];
  closes = true;
}

request-is_framed : is_framed (concat request.pieces) ≡ true
unfolding is_framed concat split_head starts_with header_value split_crlf lower int_of_text strip
    partition is_space is_digit
request-is_framed = refl

request-short : length (concat request.pieces) ≤ 2000000
unfolding concat
request-short = omega arith

recv_http_message-whole_example : recv_http_message request ≡ whole false (concat request.pieces)
recv_http_message-whole_example =
    recv_http_message-whole request refl request-short request-is_framed

-- A form of one field, and the one that it becomes.
abbrev toy_codec : Codec
toy_codec = record {
  parse_qsl = λ text.
      if text_eq text (codes "type=poll")
      then (codes "type", codes "poll") ∷ []
      else (codes "type", codes "poll") ∷ (codes "from", codes "DLH1") ∷ [];
  parse_qs = λ text. [];
  urlencode = λ pairs. codes "type=poll&from=DLH1";
  decode_utf8 = λ bytes. bytes;
  encode_utf8 = λ text. text;
}

toy_codec-reads :
    toy_codec.parse_qsl
      (toy_codec.urlencode (filled_pairs (codes "DLH1") (toy_codec.parse_qsl (codes "type=poll"))))
    ≡ filled_pairs (codes "DLH1") (toy_codec.parse_qsl (codes "type=poll"))
unfolding text_eq filled_pairs fill_pair is_from is_blank_from lower
toy_codec-reads = refl

callsign_is_solid : is_empty (strip (codes "DLH1")) ≡ false
unfolding strip is_space
callsign_is_solid = refl

form_patch_fields-IsFilled_example :
    IsFilled
      (toy_codec.parse_qsl (codes "type=poll"))
      (toy_codec.parse_qsl (form_patch_fields toy_codec (codes "DLH1") (codes "type=poll")).0)
    × (form_patch_fields toy_codec
          (codes "DLH1")
          (form_patch_fields toy_codec (codes "DLH1") (codes "type=poll")).0
        ≡ ((form_patch_fields toy_codec (codes "DLH1") (codes "type=poll")).0, []))
form_patch_fields-IsFilled_example =
    form_patch_fields-IsFilled toy_codec (codes "DLH1") (codes "type=poll") refl callsign_is_solid
      toy_codec-reads

abbrev no_fill : ProxyConfig
no_fill = record { fill_from_callsign = none; wire_format = codes "hoppie" }

abbrev server : Outside
server = record {
  codec = toy_codec;
  answer = λ bytes. some reply;
  gunzip = λ bytes. none;
  inflate = λ bytes. none;
  inflate_raw = λ bytes. none;
}

-- A request without a length.
abbrev poll : Socket
poll = record {
  pieces =
      (codes "GET /connect.html?type=poll HTTP/1.1" ++ crlf)
      ∷ (codes "Host: www.hoppie.nl" ++ (crlf ++ crlf))
      ∷ [];
  closes = false;
}

poll-IsClean : IsClean poll
unfolding is_exact concat split_head starts_with header_value split_crlf lower int_of_text strip
    partition is_space is_digit is_response upper
poll-IsClean = record { pieces_solid = refl; short = omega arith; exact = refl }

reply-IsClean : IsClean reply
unfolding is_exact concat split_head starts_with header_value split_crlf lower int_of_text strip
    partition is_space is_digit
reply-IsClean = record { pieces_solid = refl; short = omega arith; exact = refl }

nothing_to_fill : is_empty (strip []) ≡ true
unfolding strip
nothing_to_fill = refl

handle_client_transparent_example :
    ((handle_client no_fill server poll).forwarded ≡ some (concat poll.pieces))
    × ((handle_client no_fill server poll).returned ≡ some (concat reply.pieces))
handle_client_transparent_example =
    handle_client_transparent no_fill server poll reply nothing_to_fill poll-IsClean refl
      reply-IsClean
