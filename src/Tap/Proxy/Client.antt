-- ===== src/Tap/Proxy/Client.antt =====
-- `_handle_client` of src/acars_bridge/tap/proxy.py: a request from the aircraft, its answer, and the
-- exchange that is tapped. The real server, the decompression and the coding of forms are parameters.
pub mod Transparent
pub mod Fallback
use acars_printer.Prelude.{
  ℕ, suc, ◌+◌, max, Bool, true, false, Option, none, some, List, [], ◌∷◌, ◌++◌, not, ◌&&◌, ◌||◌,
  leb, if◌then◌else◌, or_else,
}
use acars_printer.Text.{
  Text, codes, is_empty, text_eq, one_of, lower, upper, strip, lstrip, starts_with, contains,
}
use acars_printer.Tap.Proxy.{
  Bytes, Socket, Received, message, nothing, raised, header_value, recv_http_message,
}
use acars_printer.Tap.Proxy.Patch.{
  Codec, Form, field, set_field, form_from_http, request_path, no_notes, Patched,
  patch_hoppie_credentials,
}

pub record ProxyConfig : Type 0 where
  pub fill_from_callsign : Option Text
  pub wire_format : Text

-- The server's answer to some bytes, if the proxy reaches it, and the libraries for compressed bodies.
pub record Outside : Type 0 where
  pub codec : Codec
  pub answer : Bytes → Option Socket
  pub gunzip : Bytes → Option Bytes
  pub inflate : Bytes → Option Bytes
  pub inflate_raw : Bytes → Option Bytes

-- What a connection does: the bytes that go to the server and to the aircraft, whether the raw exchange
-- is shown, and the exchange that is tapped.
pub record Handled : Type 0 where
  pub forwarded : Option Bytes
  pub returned : Option Bytes
  pub shown : Bool
  pub exchange : Option (Form × Text)

abbrev pub idle : Handled
idle = record { forwarded = none; returned = none; shown = false; exchange = none }

decoded : Outside → Option Bytes → Option Text
decoded x none = none
decoded x (some raw) = some (x.codec.decode_utf8 raw)

first_of : Option Bytes → Option Bytes → Option Bytes
first_of none other = other
first_of (some raw) other = some raw

-- `_decode_response_body`; `none` is an error.
unfoldable pub decode_response_body : Outside → Bytes → Bytes → Option Text
unfolding decoded first_of
decode_response_body x head body =
    let encoding = strip (lower (or_else (header_value head (codes "Content-Encoding")) [])) in
    if one_of (codes "gzip" ∷ codes "x-gzip" ∷ []) encoding || starts_with (31 ∷ 139 ∷ []) body
    then decoded x (x.gunzip body)
    else if text_eq encoding (codes "deflate")
    then decoded x (first_of (x.inflate body) (x.inflate_raw body))
    else if one_of (codes "br" ∷ codes "zstd" ∷ []) encoding
    then none
    else decoded x (some body)

filled : Text → Form → Bool
filled key form = not (is_empty (field key form))

unfoldable pub names_hoppie : Form → Bool
unfolding filled
names_hoppie form =
    filled (codes "type") form || filled (codes "logon") form || filled (codes "packet") form

unfoldable pub is_connect : Text → Bool
is_connect path = contains (codes "connect.html") (lower path)

-- `_looks_like_hoppie`.
unfoldable pub looks_like_hoppie : Form → Text → Text → Bool
looks_like_hoppie form response path =
    if not (is_connect path)
    then false
    else if is_empty response
        || starts_with (31 ∷ 139 ∷ []) response
        || starts_with (137 ∷ codes "PNG") response
    then false
    else if names_hoppie form
    then true
    else (let lowered = lower (lstrip response) in
        starts_with (codes "ok") lowered || starts_with (codes "error") lowered)

-- `_looks_like_gfo`.
unfoldable pub looks_like_gfo : Text → Text → Bool
looks_like_gfo path response =
    contains (codes "/api/datalink/") (lower path)
    && (starts_with (b'{' ∷ []) (lstrip response) && contains (codes "success") (lstrip response))

or_hoppie : Text → Text
or_hoppie [] = codes "hoppie"
or_hoppie (c ∷ s) = c ∷ s

unfoldable pub is_gfo : ProxyConfig → Bool
unfolding or_hoppie
is_gfo c = text_eq (lower (or_hoppie c.wire_format)) (codes "gfo")

unfoldable pub gfo_form : Text → Form → Form
gfo_form path form = set_field (codes "path") path (
    set_field (codes "type")
      (if contains (codes "uplink") (lower path) then codes "gfo_uplink" else codes "gfo_downlink")
      form)

-- The exchange that goes on to the tap.
tapped : ProxyConfig → Form → Text → Option Text → Option (Form × Text)
tapped c form path none = none
tapped c form path (some text) =
    if is_gfo c
    then (if looks_like_gfo path text then some (gfo_form path form, text) else none)
    else if looks_like_hoppie form text path
    then some (form, text)
    else none

after_reply : ProxyConfig → Outside → Form → Text → Bytes → Received → Handled
unfolding tapped
after_reply c x form path sent nothing = record idle { forwarded = some sent }
after_reply c x form path sent raised = record idle { forwarded = some sent }
after_reply c x form path sent (message head body) = record {
  forwarded = some sent;
  returned = some (head ++ body);
  shown = true;
  exchange = tapped c form path (decode_response_body x head body);
}

send_on : ProxyConfig → Outside → Form → Text → Bytes → Option Socket → Handled
unfolding after_reply
send_on c x form path sent none = idle
send_on c x form path sent (some socket) = after_reply c x form path sent (recv_http_message socket)

-- The request as it goes on.
unfoldable pub outgoing : ProxyConfig → Codec → Bytes → Bytes → Patched
outgoing c x head body =
    if not (is_gfo c) && is_connect (request_path head) && names_hoppie (form_from_http x head body)
    then patch_hoppie_credentials x (upper (strip (or_else c.fill_from_callsign []))) head body
    else record { head = head; body = body; notes = [] }

handle_request : ProxyConfig → Outside → Bytes → Bytes → Handled
unfolding send_on
handle_request c x head body =
    let out = outgoing c x.codec head body in
    let form = form_from_http x.codec head body in
    let sent = out.head ++ out.body in
    send_on c x (if no_notes out.notes then form else form_from_http x.codec out.head out.body)
      (request_path head) sent (x.answer sent)

on_request : ProxyConfig → Outside → Received → Handled
unfolding handle_request
on_request c x nothing = idle
on_request c x raised = idle
on_request c x (message head body) = handle_request c x head body

-- `_handle_client`, once the connection stands.
unfoldable pub handle_client : ProxyConfig → Outside → Socket → Handled
unfolding on_request
handle_client c x request = on_request c x (recv_http_message request)

-- The failures of TLS, and whether the fallback was asked for.
pub record TlsState : Type 0 where
  pub tls_failures : ℕ
  pub fallback_armed : Bool

-- A handshake that fails: the state after it, and the number with which the callback is called.
unfoldable pub tls_failed : ℕ → TlsState → TlsState × Option ℕ
tls_failed limit s =
    let failures = s.tls_failures + 1 in
    if not s.fallback_armed && leb (max 1 limit) failures
    then (record { tls_failures = failures; fallback_armed = true }, some failures)
    else (record s { tls_failures = failures }, none)
