-- ===== src/Tap/Proxy.antt =====
-- The HTTP messages of src/acars_bridge/tap/proxy.py. A byte is a number, and the bytes of a head are its
-- characters, as ISO 8859-1 has it. A socket is what `recv` still returns: the pieces that come, and
-- whether the peer closes after them or is silent until the time is out.
pub mod Cut
pub mod Whole
pub mod Patch
pub mod Client
use acars_printer.Prelude.{
  ℕ, suc, ◌-◌, Bool, true, false, Option, none, some, List, [], ◌∷◌, ◌++◌, length, take, drop, not,
  ◌&&◌, ltb, ◌==◌, if◌then◌else◌,
}
use acars_printer.Prelude.Int.{ℤ, pos, negsuc}
use acars_printer.Text.{
  Text, codes, is_empty, lower, upper, strip, starts_with, onto_first, partition, int_of_text,
}

abbrev pub Bytes : Type 0
Bytes = List ℕ

pub record Socket : Type 0 where
  pub pieces : List Bytes
  pub closes : Bool

-- What `_recv_http_message` does: it returns a message or `None`, or it raises.
pub data Received : Type 0 where
  message : Bytes → Bytes → Received
  nothing : Received
  raised : Received

-- `s.split("\r\n")`.
unfoldable pub split_crlf : Text → List Text
split_crlf [] = [] ∷ []
split_crlf (c ∷ []) = (c ∷ []) ∷ []
split_crlf (c ∷ d ∷ s) = elim (c == b'\r' && d == b'\n') [
  | true ↦ [] ∷ split_crlf s
  | false ↦ onto_first c (split_crlf (d ∷ s))
]

-- The blank line that ends a head.
abbrev pub blank_line : Bytes
blank_line = b'\r' ∷ b'\n' ∷ b'\r' ∷ b'\n' ∷ []

-- `data.split(b"\r\n\r\n", 1)`, or nothing if there is no blank line.
in_front : ℕ → Option (Bytes × Bytes) → Option (Bytes × Bytes)
in_front c none = none
in_front c (some (head, body)) = some (c ∷ head, body)

unfoldable pub split_head : Bytes → Option (Bytes × Bytes)
unfolding in_front
split_head [] = none
split_head (c ∷ s) =
    let rest = split_head s in
    if starts_with blank_line (c ∷ s) then some ([], drop 4 (c ∷ s)) else in_front c rest

-- `_header_value` over the lines of a head.
first_value : Text → List Text → Option Text
first_value target [] = none
first_value target (line ∷ lines) =
    let rest = first_value target lines in
    if starts_with target (lower line) then some (strip (partition b':' line).2) else rest

unfoldable pub header_value : Text → Text → Option Text
unfolding first_value
header_value headers name = first_value (lower name ++ b':' ∷ []) (split_crlf headers)

-- Reading up to the blank line: the head, the bytes after it, and the pieces that are left.
pub data HeadRead : Type 0 where
  parted : Bytes → Bytes → List Bytes → HeadRead
  no_head : HeadRead
  timed_out : HeadRead

unfoldable pub found_or : Option (Bytes × Bytes) → List Bytes → HeadRead → HeadRead
found_or none pieces other = other
found_or (some (head, rest)) pieces other = parted head rest pieces

abbrev max_head : ℕ
max_head = 2000000

unfoldable pub read_head : Bool → Bytes → List Bytes → HeadRead
unfolding found_or
read_head closes bytes [] = found_or (split_head bytes) [] (if closes then no_head else timed_out)
read_head closes bytes (p ∷ ps) =
    let rest = read_head closes (bytes ++ p) ps in
    found_or (split_head bytes) (p ∷ ps)
      (if is_empty p then no_head else if ltb max_head (length (bytes ++ p)) then no_head else rest)

-- Reading until the body has the length that was announced, or the peer closes.
unfoldable pub read_body : Bool → ℕ → Bytes → List Bytes → Option Bytes
read_body closes needed body [] = if ltb (length body) needed && not closes then none else some body
read_body closes needed body (p ∷ ps) =
    let rest = read_body closes needed (body ++ p) ps in
    if ltb (length body) needed then (if is_empty p then some body else rest) else some body

-- Reading all that comes, for a response with no length.
unfoldable pub read_on : Bytes → List Bytes → Bytes
read_on body [] = body
read_on body (p ∷ ps) = let rest = read_on (body ++ p) ps in if is_empty p then body else rest

unfoldable pub is_response : Text → Bool
is_response headers = starts_with (codes "HTTP/") (upper headers)

-- `body[:needed]`, where a length may be negative.
unfoldable pub clipped : ℤ → Bytes → Bytes
clipped (ℤ.pos n) body = take n body
clipped (ℤ.negsuc n) body = take (length body - suc n) body

-- The length that the loop waits for.
unfoldable pub awaited : ℤ → ℕ
awaited (ℤ.pos n) = n
awaited (ℤ.negsuc n) = 0

clipped_message : Bytes → ℤ → Option Bytes → Received
clipped_message head needed none = raised
clipped_message head needed (some body) = message (head ++ blank_line) (clipped needed body)

with_length : Bool → Bytes → Bytes → List Bytes → Option ℤ → Received
unfolding clipped_message
with_length closes head rest pieces none = raised
with_length closes head rest pieces (some needed) =
    clipped_message head needed (read_body closes (awaited needed) rest pieces)

body_of : Bool → Bytes → Bytes → List Bytes → Option Text → Received
unfolding with_length read_on
body_of closes head rest pieces none =
    message (head ++ blank_line) (if is_response head then read_on rest pieces else rest)
body_of closes head rest pieces (some value) =
    with_length closes head rest pieces (int_of_text value)

unfoldable pub received : Bool → HeadRead → Received
unfolding body_of
received closes (parted head rest pieces) =
    body_of closes head rest pieces (header_value head (codes "Content-Length"))
received closes no_head = nothing
received closes timed_out = raised

-- `_recv_http_message`.
unfoldable pub recv_http_message : Socket → Received
unfolding received read_head
recv_http_message s = received s.closes (read_head s.closes [] s.pieces)
