-- ===== src/Hoppie/Parser/Wire.antt =====
-- A block as the server writes it, `SENDER type {packet}`, and the message that is read from it.
use acars_printer.Prelude.{
  ℕ, ◌≡◌, refl, ap, ◌∙◌, true, false, Option, some, [], ◌∷◌, ◌++◌, ◌==◌, not, all, arith,
  append-nil,
}
use acars_printer.Text.{
  Text, codes, is_digit, is_alpha, is_space, strip, rstrip, starts_with, is_empty, split_first,
  text_eq, lower,
}
use acars_printer.Text.Strip.{IsWord, lstrip-word, split_first-words}
use acars_printer.Hoppie.Types.{cpdlc, is_cpdlc, from_hoppie, HoppieMessage}
use acars_printer.Hoppie.Cpdlc.{CpdlcPacket, expand_cpdlc_at_marks, encode, wire_text, display_text}
use acars_printer.Hoppie.Cpdlc.RoundTrip.{parse-encode}
use acars_printer.Hoppie.Parser.{
  drop_last, ends_with_char, push_head, partition_head, drop_id, head_message, parts_message,
  build_message, parse_block,
}

-- The block that the server writes.
abbrev pub wire_block : Text → Text → Text → Text
wire_block sender type_raw packet =
    sender ++ (b' ' ∷ (type_raw ++ (b' ' ∷ b'{' ∷ (packet ++ b'}' ∷ []))))

drop_last-append : (s : Text) (c : ℕ) → drop_last (s ++ c ∷ []) ≡ s
drop_last-append [] c = refl
drop_last-append (d ∷ []) c = refl
drop_last-append (d ∷ e ∷ s) c = ap (◌∷◌ d) (drop_last-append (e ∷ s) c)

ends_with_char-append :
    (c : ℕ) (s t : Text) → is_empty t ≡ false → ends_with_char c (s ++ t) ≡ ends_with_char c t
ends_with_char-append c [] t h = refl
ends_with_char-append c (d ∷ []) [] h = cc
ends_with_char-append c (d ∷ []) (e ∷ t) h = refl
ends_with_char-append c (d ∷ e ∷ s) t h = ends_with_char-append c (e ∷ s) t h

rstrip-ends_with_char :
    (c : ℕ) (s : Text) → is_space c ≡ false → ends_with_char c s ≡ true → rstrip s ≡ s
unfolding rstrip
rstrip-ends_with_char c [] h e = refl
rstrip-ends_with_char c (d ∷ []) h e = ground arith
rstrip-ends_with_char c (d ∷ x ∷ s) h e = rw (rstrip-ends_with_char c (x ∷ s) h e)

push_all : Text → Option (Text × Text) → Option (Text × Text)
push_all [] o = o
push_all (c ∷ w) o = push_head c (push_all w o)

push_all-some : (w h t : Text) → push_all w (some (h, t)) ≡ some (w ++ h, t)
unfolding push_all push_head
push_all-some [] h t = refl
push_all-some (c ∷ w) h t = rw (push_all-some w h t)

push_head-some : (c : ℕ) (h t : Text) → push_head c (some (h, t)) ≡ some (c ∷ h, t)
unfolding push_head
push_head-some c h t = refl

not_space_char : (c : ℕ) → is_space c ≡ false → (c == b' ') ≡ false
unfolding is_space
not_space_char c h = ground arith

partition_head-word :
    (w s : Text)
    → all (λ c. not (is_space c)) w ≡ true
    → partition_head (w ++ s) ≡ push_all w (partition_head s)
unfolding partition_head push_all
partition_head-word [] s h = refl
partition_head-word (c ∷ w) s h =
    let solid : is_space c ≡ false = ground arith in
    let rest : all (λ d. not (is_space d)) w ≡ true = ground arith in
    rw (not_space_char c solid) (ap (push_head c) (partition_head-word w s rest))

partition_head-space :
    (s : Text)
    → starts_with (b'{' ∷ []) s ≡ false
    → partition_head (b' ' ∷ s) ≡ push_head b' ' (partition_head s)
unfolding partition_head
partition_head-space s h = rw h

partition_head-brace : (s : Text) → partition_head (b' ' ∷ b'{' ∷ s) ≡ some ([], s)
unfolding partition_head starts_with
partition_head-brace s = refl

starts_with-append :
    (c : ℕ) (s t : Text)
    → is_empty s ≡ false
    → starts_with (c ∷ []) (s ++ t) ≡ starts_with (c ∷ []) s
unfolding starts_with
starts_with-append c [] t h = cc
starts_with-append c (d ∷ s) t h = refl

-- What the server may send as sender and type: words, the sender no number, the type no brace.
pub record IsWire (sender type_raw : Text) : Type 0 where
  pub sender_word : IsWord sender
  pub sender_no_id : all is_digit sender ≡ false
  pub type_word : IsWord type_raw
  pub type_no_brace : starts_with (b'{' ∷ []) type_raw ≡ false

module _ (sender type_raw packet : Text) (h : IsWire sender type_raw) where
  abbrev closing : Text
  closing = packet ++ b'}' ∷ []

  partition_head-wire :
      partition_head (wire_block sender type_raw packet)
      ≡ some (sender ++ (b' ' ∷ type_raw), closing)
  partition_head-wire =
      let after_type = b' ' ∷ b'{' ∷ closing in
      let typed =
        partition_head-word type_raw after_type h.type_word.solid
        ∙ ap (push_all type_raw) (partition_head-brace closing)
        ∙ push_all-some type_raw [] closing in
      partition_head-word sender (b' ' ∷ (type_raw ++ after_type)) h.sender_word.solid
      ∙ ap (push_all sender) (
          partition_head-space (type_raw ++ after_type)
            (starts_with-append b'{' type_raw after_type h.type_word.filled ∙ h.type_no_brace)
          ∙ ap (push_head b' ') typed
          ∙ push_head-some b' ' (type_raw ++ []) closing
          ∙ ap (λ x. some (b' ' ∷ x, closing)) (append-nil type_raw))
      ∙ push_all-some sender (b' ' ∷ type_raw) closing

  ends_with_brace : ends_with_char b'}' (wire_block sender type_raw packet) ≡ true
  ends_with_brace =
      ends_with_char-append b'}' sender _ refl
      ∙ ends_with_char-append b'}' (b' ' ∷ type_raw) _ refl
      ∙ ends_with_char-append b'}' (b' ' ∷ b'{' ∷ packet) (b'}' ∷ []) refl

  strip-wire : strip (wire_block sender type_raw packet) ≡ wire_block sender type_raw packet
  unfolding strip
  strip-wire =
      ap rstrip (lstrip-word sender _ h.sender_word)
      ∙ rstrip-ends_with_char b'}' _ (unfold is_space in refl) ends_with_brace

  drop_id-wire :
      drop_id (wire_block sender type_raw packet) (split_first (wire_block sender type_raw packet))
      ≡ wire_block sender type_raw packet
  drop_id-wire =
      let parts =
        split_first-words sender type_raw (b' ' ∷ b'{' ∷ closing) b' ' h.sender_word h.type_word
          (unfold is_space in refl) in
      rw parts (unfold drop_id in rw (h.sender_word.filled, h.sender_no_id))

  split_first-head : split_first (sender ++ (b' ' ∷ type_raw)) ≡ sender ∷ type_raw ∷ []
  split_first-head =
      let parts =
        split_first-words sender type_raw [] b' ' h.sender_word h.type_word
          (unfold is_space in refl) in
      rw (append-nil type_raw) at parts

  -- A block that the server writes, from a sender and a type with no space in them, the sender not
  -- all digits and the type not beginning with a brace, is read as the message of that sender, type
  -- and packet, whatever the packet holds.
  pub parse_block-wire :
      (callsign : Text)
      → parse_block (wire_block sender type_raw packet) callsign
        ≡ some (build_message callsign (wire_block sender type_raw packet) sender type_raw packet)
  parse_block-wire callsign =
      let whole = strip-wire in
      let body = drop_id-wire in
      let split = partition_head-wire in
      let ended = ends_with_brace in
      let packet_read = drop_last-append packet b'}' in
      let parts = split_first-head in
      unfold parse_block parts_message head_message in
      rw whole (rw body (rw split (rw ended (rw packet_read (rw parts)))))

cpdlc_type : from_hoppie (codes "cpdlc") ≡ cpdlc
unfolding from_hoppie text_eq lower strip is_space
cpdlc_type = refl

-- A CPDLC uplink whose response code is letters, as an encoder writes it into a block from a sender
-- with no space in it that is not all digits, is read with its numbers and its code, and the body is
-- the text on the wire, stripped at its end, with the marks expanded.
pub parse_block-encode :
    (callsign sender : Text) (p : CpdlcPacket)
    → IsWire sender (codes "cpdlc")
    → all is_alpha p.ra ≡ true
    → (m : HoppieMessage) × (parse_block (wire_block sender (codes "cpdlc") (encode p)) callsign
        ≡ some m)
      × (m.message_type ≡ cpdlc)
      × (m.min ≡ p.min)
      × (m.mrn ≡ p.mrn)
      × (m.ra ≡ some p.ra)
      × (m.normalized_body ≡ expand_cpdlc_at_marks (rstrip (wire_text p.text)))
parse_block-encode callsign sender p h letters =
    let m =
      build_message callsign (wire_block sender (codes "cpdlc") (encode p)) sender (codes "cpdlc")
        (encode p) in
    let read = parse-encode p letters in
    (
      m,
      parse_block-wire sender (codes "cpdlc") (encode p) h callsign,
      (unfold build_message is_cpdlc in rw cpdlc_type (rw read)),
      (unfold build_message is_cpdlc in rw cpdlc_type (rw read)),
      (unfold build_message is_cpdlc in rw cpdlc_type (rw read)),
      (unfold build_message is_cpdlc in rw cpdlc_type (rw read)),
      (unfold build_message is_cpdlc display_text in rw cpdlc_type (rw read)),
    )
