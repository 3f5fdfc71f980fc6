-- ===== src/Tap/Proxy/Client/Transparent.antt =====
-- The proxy passes on what it gets.
use acars_printer.Prelude.{
  ◌≤◌, ◌≡◌, refl, ap, ◌∙◌, true, some, [], ◌∷◌, length, or_else, not, ◌&&◌, Bool-cases, inl, inr,
}
use acars_printer.Text.{Text, upper, strip, is_empty}
use acars_printer.Tap.Proxy.{Bytes, Socket, max_head, recv_http_message}
use acars_printer.Tap.Proxy.Cut.{concat, solid}
use acars_printer.Tap.Proxy.Whole.Exact.{IsAll, is_exact, recv_http_message-IsAll}
use acars_printer.Tap.Proxy.Patch.{patch_hoppie_credentials, form_from_http, request_path}
use acars_printer.Tap.Proxy.Client.{
  ProxyConfig, Outside, outgoing, handle_client, on_request, handle_request, send_on, after_reply,
  is_gfo, is_connect, names_hoppie,
}

-- A socket whose bytes are one message, in pieces that are not empty, and no more than the limit.
pub record IsClean (s : Socket) : Type 0 where
  pub pieces_solid : solid s.pieces ≡ true
  pub short : length (concat s.pieces) ≤ max_head
  pub exact : is_exact (concat s.pieces) ≡ true

clean-IsAll : (s : Socket) → IsClean s → IsAll (concat s.pieces) (recv_http_message s)
clean-IsAll s h = recv_http_message-IsAll s h.pieces_solid h.short h.exact

is_empty-upper : (s : Text) → is_empty (upper s) ≡ is_empty s
unfolding upper
is_empty-upper [] = refl
is_empty-upper (c ∷ s) = refl

not_patched :
    (c : ProxyConfig) (x : Outside) (head body : Bytes)
    → is_empty (strip (or_else c.fill_from_callsign [])) ≡ true
    → outgoing c x.codec head body ≡ record { head = head; body = body; notes = [] }
unfolding outgoing patch_hoppie_credentials
not_patched c x head body h =
    let blank = is_empty-upper (strip (or_else c.fill_from_callsign [])) ∙ h in
    elim (Bool-cases (
      not (is_gfo c)
      && is_connect (request_path head)
      && names_hoppie (form_from_http x.codec head body))) [
        | inl e ↦ rw (e, blank) refl
        | inr e ↦ rw e refl
      ]

-- Without a callsign to fill in, a request that comes as one message of at most 2000000 bytes, in any
-- pieces that are not empty, goes to the server byte for byte, and the server's answer, if it is one such
-- message, goes to the aircraft byte for byte. One message is a head and a blank line, with as many bytes
-- after them as its Content-Length says; with no Content-Length, nothing follows a request, as in a GET,
-- and anything follows a response.
pub handle_client_transparent :
    (c : ProxyConfig) (x : Outside) (request reply : Socket)
    → is_empty (strip (or_else c.fill_from_callsign [])) ≡ true
    → IsClean request
    → x.answer (concat request.pieces) ≡ some reply
    → IsClean reply
    → ((handle_client c x request).forwarded ≡ some (concat request.pieces))
      × ((handle_client c x request).returned ≡ some (concat reply.pieces))
unfolding handle_client on_request handle_request send_on after_reply
handle_client_transparent c x request reply f q a r =
    let asked = clean-IsAll request q in
    let answered = clean-IsAll reply r in
    rw (asked.read, not_patched c x asked.head asked.body f, asked.joins, a, answered.read)
      (refl, ap some answered.joins)
