-- ===== src/Hoppie/Parser/Messages.antt =====
-- What `parse_response` and `_parse_block` return.
use acars_printer.Prelude.{
  ◌≡◌, refl, sym, ap, ◌∙◌, ◌↔◌, ◌⊎◌, true, false, Option, none, some, List, [], ◌∷◌, drop, All,
  arith, Bool-cases, inl, inr,
}
use acars_printer.Text.{
  Text, codes, upper, lower, strip, lstrip, starts_with, is_empty, split_first,
}
use acars_printer.Hoppie.Types.{is_cpdlc, from_hoppie, HoppieMessage, Result, ok, raise, ◌>>=◌}
use acars_printer.Hoppie.Blocks.{extract_blocks}
use acars_printer.Hoppie.Blocks.Grammar.{Framed, done, extract_blocks_iff}
use acars_printer.Hoppie.Parser.{
  error_word, drop_last, ends_with_char, partition_head, drop_id, head_message, parts_message,
  build_message, parse_block, push_message, parse_blocks, parse_response,
}

-- A message to the station that polled, with CPDLC numbers only on CPDLC messages.
pub record IsFor (callsign : Text) (m : HoppieMessage) : Type 0 where
  pub callsign_upper : m.callsign ≡ upper callsign
  pub recipient_upper : m.recipient ≡ some (upper callsign)
  pub numbered :
      (is_cpdlc m.message_type ≡ true) ⊎ ((m.min ≡ none) × (m.mrn ≡ none) × (m.ra ≡ none))

build_message-IsFor :
    (callsign block sender type_raw packet : Text)
    → IsFor callsign (build_message callsign block sender type_raw packet)
unfolding build_message
build_message-IsFor callsign block sender type_raw packet =
    elim (Bool-cases (is_cpdlc (from_hoppie type_raw))) [
      | inl yes_cpdlc ↦ rw yes_cpdlc (ground arith)
      | inr not_cpdlc ↦ rw not_cpdlc (record {
        callsign_upper = refl;
        recipient_upper = refl;
        numbered = inr (refl, refl, refl);
      })
    ]

-- The property of a message that may not be there.
abbrev IfSome {ℓ} : (HoppieMessage → Type ℓ) → Option HoppieMessage → Type ℓ
IfSome P none = Unit
IfSome P (some m) = P m

head_message-IsFor :
    (callsign block packet : Text) (parts : List Text)
    → IfSome (IsFor callsign) (head_message callsign block packet parts)
unfolding head_message
head_message-IsFor callsign block packet (sender ∷ type_raw ∷ []) =
    build_message-IsFor callsign block sender type_raw packet
head_message-IsFor callsign block packet _ = tt

parts_message-IsFor :
    (callsign block : Text) (parts : Option (Text × Text))
    → IfSome (IsFor callsign) (parts_message callsign block parts)
parts_message-IsFor callsign block none = unfold parts_message in tt
parts_message-IsFor callsign block (some (head, tail)) =
    elim (Bool-cases (ends_with_char b'}' block)) [
      | inl closed ↦
          unfold parts_message in
          rw closed (head_message-IsFor callsign block (drop_last tail) (split_first head))
      | inr open_end ↦ unfold parts_message in rw open_end tt
    ]

push_message-IsFor :
    (callsign : Text) (o : Option HoppieMessage) (ms : List HoppieMessage)
    → IfSome (IsFor callsign) o
    → All (IsFor callsign) ms
    → All (IsFor callsign) (push_message o ms)
push_message-IsFor callsign none ms h hs = hs
push_message-IsFor callsign (some m) ms h hs = (h, hs)

pub parse_blocks-IsFor :
    (callsign : Text) (bs : List Text) → All (IsFor callsign) (parse_blocks callsign bs)
unfolding parse_blocks parse_block
parse_blocks-IsFor callsign [] = tt
parse_blocks-IsFor callsign (b ∷ bs) =
    push_message-IsFor callsign (parse_block b callsign) (parse_blocks callsign bs)
      (parts_message-IsFor callsign (drop_id (strip b) (split_first (strip b)))
        (partition_head (drop_id (strip b) (split_first (strip b)))))
      (parse_blocks-IsFor callsign bs)

abbrev pub ok_word : Text
ok_word = codes "ok"

ok_is_no_error : (s : Text) → starts_with ok_word s ≡ true → starts_with error_word s ≡ false
unfolding starts_with
ok_is_no_error [] h = cc
ok_is_no_error (c ∷ s) h = ground arith

lower_of_empty : (s : Text) → starts_with ok_word (lower s) ≡ true → is_empty s ≡ false
unfolding starts_with lower
lower_of_empty [] h = cc
lower_of_empty (c ∷ s) h = refl

empty_is_nil : (s : Text) → is_empty s ≡ true → s ≡ []
empty_is_nil [] h = refl
empty_is_nil (c ∷ s) h = cc

extract_nil : extract_blocks [] ≡ ok []
extract_nil = (extract_blocks_iff [] []).1 done

-- A body that begins with `ok`: what follows it is read block by block.
read_ok :
    (raw callsign : Text)
    → starts_with ok_word (lower (strip raw)) ≡ true
    → parse_response raw callsign
      ≡ (do bs ← extract_blocks (lstrip (drop 2 (strip raw))); ok (parse_blocks callsign bs))
read_ok raw callsign h =
    let filled = lower_of_empty (strip raw) h in
    let no_error = ok_is_no_error (lower (strip raw)) h in
    elim (Bool-cases (is_empty (lstrip (drop 2 (strip raw))))) [
      | inl nothing ↦
          let read =
            ap extract_blocks (empty_is_nil (lstrip (drop 2 (strip raw))) nothing) ∙ extract_nil in
          unfold parse_response parse_blocks in rw (filled, no_error, h, nothing) (rw read)
      | inr something ↦ unfold parse_response in rw (filled, no_error, h, something)
    ]

not_ok_raises :
    (raw callsign : Text) {ms : List HoppieMessage}
    → starts_with ok_word (lower (strip raw)) ≡ false
    → parse_response raw callsign ≡ ok ms
    → ⊥
unfolding parse_response
not_ok_raises raw callsign h e = ground arith

-- The body after `ok` is made of balanced blocks, and the messages are those of the blocks.
abbrev pub ReadsBlocks : Text → Text → List HoppieMessage → Type 0
ReadsBlocks raw callsign ms =
    (starts_with ok_word (lower (strip raw)) ≡ true)
    × ((bs : List Text) × Framed (lstrip (drop 2 (strip raw))) bs × (ms ≡ parse_blocks callsign bs))

bind_blocks :
    (callsign : Text) (r : Result (List Text)) {ms : List HoppieMessage}
    → (do bs ← r; ok (parse_blocks callsign bs)) ≡ ok ms
    → (bs : List Text) × (r ≡ ok bs) × (ms ≡ parse_blocks callsign bs)
bind_blocks callsign (ok bs) h = (bs, refl, ground arith)
bind_blocks callsign (raise e) h = cc

reads_blocks :
    (raw callsign : Text) {ms : List HoppieMessage}
    → parse_response raw callsign ≡ ok ms
    → ReadsBlocks raw callsign ms
reads_blocks raw callsign e = elim (Bool-cases (starts_with ok_word (lower (strip raw)))) [
  | inl h ↦
      let (bs, read, messages) = bind_blocks callsign _ (sym (read_ok raw callsign h) ∙ e) in
      (h, (bs, (extract_blocks_iff _ bs).0 read, messages))
  | inr h ↦ absurd (not_ok_raises raw callsign h e)
]

blocks_read :
    (raw callsign : Text) {ms : List HoppieMessage}
    → ReadsBlocks raw callsign ms
    → parse_response raw callsign ≡ ok ms
blocks_read raw callsign (h, (bs, frame, messages)) =
    let read = (extract_blocks_iff _ bs).1 frame in read_ok raw callsign h ∙ rw (read, messages)

-- A response is accepted exactly when its body, stripped, begins with `ok` in any case and goes on as
-- white space and balanced blocks in braces; the messages are then those of the blocks, in order.
pub parse_response_iff :
    (raw callsign : Text) (ms : List HoppieMessage)
    → (parse_response raw callsign ≡ ok ms) ↔ ReadsBlocks raw callsign ms
parse_response_iff raw callsign ms = (reads_blocks raw callsign, blocks_read raw callsign)

-- Every message of an accepted response is to the polling callsign in upper case, as its callsign and
-- as its recipient, and only a CPDLC message has a MIN, an MRN or a response code.
pub parse_response-IsFor :
    (raw callsign : Text) (ms : List HoppieMessage)
    → parse_response raw callsign ≡ ok ms
    → All (IsFor callsign) ms
parse_response-IsFor raw callsign ms e =
    let (h, (bs, frame, messages)) = reads_blocks raw callsign e in
    rw messages (parse_blocks-IsFor callsign bs)
