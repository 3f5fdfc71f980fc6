-- ===== src/Tap/Proxy/Whole.antt =====
-- How a message is cut into pieces on its way does not matter.
pub mod Exact
use acars_printer.Prelude.{
  ℕ, zero, suc, ◌+◌, ◌-◌, ◌≤◌, ◌<◌, ◌≡◌, refl, sym, ap, ◌∙◌, Bool, true, false, Option, none, some,
  List, [], ◌∷◌, ◌++◌, append-nil, append_assoc, length, length-append, take, drop, not, ◌&&◌, ◌||◌,
  ltb, arith, subst, if◌then◌else◌, ◌⊎◌, inl, inr, is_some, Bool-cases, all, drop-append_le, ◌==◌,
}
use acars_printer.Prelude.Int.{ℤ}
use acars_printer.Text.{Text, codes, is_empty, starts_with, int_of_text}
use acars_printer.Tap.Proxy.{
  Bytes, Socket, Received, message, nothing, raised, split_head, in_front, blank_line, header_value,
  HeadRead, parted, no_head, timed_out, found_or, max_head, read_head, read_body, read_on,
  is_response, clipped, awaited, clipped_message, with_length, body_of, received, recv_http_message,
}
use acars_printer.Tap.Proxy.Cut.{concat, take-append_le, solid, Cut, cut, uncut, read_head-Cut}

-- A message that is read from all its bytes at once.
clip : ℕ → Option Bytes → Option Bytes
clip n none = none
clip n (some body) = some (take n body)

whole_body : Bool → ℕ → Bytes → Option Bytes
whole_body closes n bytes = if ltb (length bytes) n && not closes then none else some (take n bytes)

full_body :
    (closes : Bool) (n : ℕ) (body more : Bytes)
    → ltb (length body) n ≡ false
    → some (take n body) ≡ whole_body closes n (body ++ more)
unfolding whole_body
full_body closes n body more h =
    let grown = length-append body more in
    let full : ltb (length (body ++ more)) n ≡ false = ground arith in
    rw full (ap some (sym (take-append_le n body more (ground arith))))

if_clip :
    (n : ℕ) (body : Bytes) (b : Bool)
    → clip n (if b then none else some body) ≡ (if b then none else some (take n body))
unfolding clip
if_clip n body true = refl
if_clip n body false = refl

read_body-whole :
    (closes : Bool) (n : ℕ) (body : Bytes) (pieces : List Bytes)
    → solid pieces ≡ true
    → clip n (read_body closes n body pieces) ≡ whole_body closes n (body ++ concat pieces)
unfolding read_body concat whole_body clip
read_body-whole closes n body [] s =
    rw (append-nil body) (if_clip n body (ltb (length body) n && not closes))
read_body-whole closes n body (p ∷ ps) s =
    let some_bytes : is_empty p ≡ false = ground arith in
    let later = read_body-whole closes n (body ++ p) ps (ground arith) in
    let together = append_assoc body p (concat ps) in
    elim (Bool-cases (ltb (length body) n)) [
      | inl e ↦ rw (e, some_bytes) (later ∙ ap (whole_body closes n) together)
      | inr e ↦ rw e (full_body closes n body (p ++ concat ps) e)
    ]

clipped_whole : Bytes → Option Bytes → Received
clipped_whole head none = raised
clipped_whole head (some body) = message (head ++ blank_line) body

whole_length : Bool → Bytes → Bytes → Option ℤ → Received
whole_length closes head rest none = raised
whole_length closes head rest (some (ℤ.pos n)) = clipped_whole head (whole_body closes n rest)
whole_length closes head rest (some (ℤ.negsuc n)) =
    message (head ++ blank_line) (take (length rest - suc n) rest)

whole_message : Bool → Bytes → Bytes → Option Text → Received
whole_message closes head rest none = message (head ++ blank_line) rest
whole_message closes head rest (some value) = whole_length closes head rest (int_of_text value)

whole_of : Bool → Option (Bytes × Bytes) → Received
whole_of closes none = if closes then nothing else raised
whole_of closes (some (head, rest)) =
    whole_message closes head rest (header_value head (codes "Content-Length"))

-- What all the bytes of a message say: the head up to the blank line, and as much of what follows as the
-- length says, or all of it.
unfoldable pub whole : Bool → Bytes → Received
unfolding whole_of whole_message whole_length clipped_whole whole_body
whole closes bytes = whole_of closes (split_head bytes)

is_length : Option ℤ → Bool
is_length none = true
is_length (some (ℤ.pos n)) = true
is_length (some (ℤ.negsuc n)) = false

says_its_end : Bytes → Option Text → Bool
says_its_end head none = is_response head
says_its_end head (some value) = is_length (int_of_text value)

framed_head : Option (Bytes × Bytes) → Bool
framed_head none = true
framed_head (some (head, rest)) = says_its_end head (header_value head (codes "Content-Length"))

-- The head tells where the body ends: by a length that is not negative, or as a response, which ends when
-- no more comes.
unfoldable pub is_framed : Bytes → Bool
unfolding framed_head says_its_end is_length
is_framed bytes = framed_head (split_head bytes)

read_on-whole :
    (body : Bytes) (pieces : List Bytes)
    → solid pieces ≡ true
    → read_on body pieces ≡ body ++ concat pieces
unfolding read_on concat
read_on-whole body [] s = sym (append-nil body)
read_on-whole body (p ∷ ps) s =
    let some_bytes : is_empty p ≡ false = ground arith in
    rw some_bytes (read_on-whole (body ++ p) ps (ground arith) ∙ append_assoc body p (concat ps))

clipped_message-whole :
    (head : Bytes) (n : ℕ) (o : Option Bytes)
    → clipped_message head (ℤ.pos n) o ≡ clipped_whole head (clip n o)
unfolding clipped_message clipped_whole clip clipped
clipped_message-whole head n none = refl
clipped_message-whole head n (some body) = refl

with_length-whole :
    (closes : Bool) (head rest : Bytes) (pieces : List Bytes) (o : Option ℤ)
    → solid pieces ≡ true
    → is_length o ≡ true
    → with_length closes head rest pieces o ≡ whole_length closes head (rest ++ concat pieces) o
unfolding with_length whole_length is_length awaited
with_length-whole closes head rest pieces none s h = refl
with_length-whole closes head rest pieces (some (ℤ.pos n)) s h =
    clipped_message-whole head n _
    ∙ ap (clipped_whole head) (read_body-whole closes n rest pieces s)
with_length-whole closes head rest pieces (some (ℤ.negsuc n)) s h = absurd (ground arith)

body_of-whole :
    (closes : Bool) (head rest : Bytes) (pieces : List Bytes) (o : Option Text)
    → solid pieces ≡ true
    → says_its_end head o ≡ true
    → body_of closes head rest pieces o ≡ whole_message closes head (rest ++ concat pieces) o
unfolding body_of whole_message says_its_end
body_of-whole closes head rest pieces none s h =
    rw h (ap (message (head ++ blank_line)) (read_on-whole rest pieces s))
body_of-whole closes head rest pieces (some value) s h =
    with_length-whole closes head rest pieces (int_of_text value) s h

uncut_received :
    (closes : Bool)
    → received closes (if closes then no_head else timed_out) ≡ (if closes then nothing else raised)
unfolding received
uncut_received true = refl
uncut_received false = refl

received-whole :
    (closes : Bool) (total : Bytes) (r : HeadRead)
    → Cut closes total r
    → framed_head (split_head total) ≡ true
    → received closes r ≡ whole_of closes (split_head total)
unfolding received framed_head whole_of
received-whole closes total r (cut {head} {rest} {pieces} e s) h =
    rw e (body_of-whole closes head rest pieces _ s (subst (λ o. framed_head o ≡ true) e h))
received-whole closes total r (uncut e) h = rw e (uncut_received closes)

-- However the bytes of a message are cut into pieces on their way, none of them empty, and together no
-- more than the limit of a head, the proxy reads what all the bytes say, when the head tells where the
-- body ends.
pub recv_http_message-whole :
    (s : Socket)
    → solid s.pieces ≡ true
    → length (concat s.pieces) ≤ max_head
    → is_framed (concat s.pieces) ≡ true
    → recv_http_message s ≡ whole s.closes (concat s.pieces)
unfolding recv_http_message whole is_framed
recv_http_message-whole s solid_pieces short framed =
    received-whole s.closes (concat s.pieces) _
      (read_head-Cut s.closes [] s.pieces solid_pieces short) framed
