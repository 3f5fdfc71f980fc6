-- ===== src/Tap/Proxy/Whole/Exact.antt =====
-- Bytes that are one message.
use acars_printer.Prelude.{
  ℕ, ◌≤◌, ◌≡◌, refl, sym, ap, ◌∙◌, Bool, true, false, Option, none, some, List, [], ◌∷◌, ◌++◌,
  length, take, drop, ltb, ◌==◌, ◌||◌, arith, Bool-cases, inl, inr, subst, if◌then◌else◌,
}
use acars_printer.Prelude.Int.{ℤ}
use acars_printer.Text.{Text, codes, is_empty, starts_with, int_of_text}
use acars_printer.Tap.Proxy.{
  Bytes, Socket, Received, message, blank_line, split_head, in_front, header_value, is_response,
  HeadRead, max_head, read_on, body_of, received, recv_http_message,
}
use acars_printer.Tap.Proxy.Cut.{concat, solid, Cut, cut, uncut, read_head-Cut}
use acars_printer.Tap.Proxy.Whole.{
  whole_length, whole_body, clipped_whole, is_length, read_on-whole, with_length-whole,
}

-- The bytes are one message, with nothing after it: as many bytes follow the head as its length says, or
-- it is a response with no length, or nothing follows it.
exact_length : Bytes → Option ℤ → Bool
exact_length rest none = false
exact_length rest (some (ℤ.pos n)) = length rest == n
exact_length rest (some (ℤ.negsuc n)) = false

exact_value : Bytes → Bytes → Option Text → Bool
unfolding exact_length
exact_value head rest none = is_response head || is_empty rest
exact_value head rest (some value) = exact_length rest (int_of_text value)

exact_head : Option (Bytes × Bytes) → Bool
exact_head none = false
exact_head (some (head, rest)) = exact_value head rest (header_value head (codes "Content-Length"))

unfoldable pub is_exact : Bytes → Bool
unfolding exact_head exact_value
is_exact bytes = exact_head (split_head bytes)

starts_with-drop : (p s : Bytes) → starts_with p s ≡ true → p ++ drop (length p) s ≡ s
unfolding starts_with
starts_with-drop [] s h = refl
starts_with-drop (x ∷ p) [] h = absurd (ground arith)
starts_with-drop (x ∷ p) (y ∷ s) h =
    let same : x ≡ y = ground arith in
    ap (◌∷◌ x) (starts_with-drop p s (ground arith)) ∙ ap (λ z. z ∷ s) same

-- The head, the blank line and the rest are the bytes.
joined : Option (Bytes × Bytes) → Bytes → Bytes
joined none other = other
joined (some (head, rest)) other = head ++ blank_line ++ rest

joined-in_front :
    (c : ℕ) (o : Option (Bytes × Bytes)) (other : Bytes)
    → joined (in_front c o) (c ∷ other) ≡ c ∷ joined o other
unfolding in_front joined
joined-in_front c none other = refl
joined-in_front c (some (head, rest)) other = refl

joined-split_head : (s : Bytes) → joined (split_head s) s ≡ s
unfolding joined split_head
joined-split_head [] = refl
joined-split_head (c ∷ s) = elim (Bool-cases (starts_with blank_line (c ∷ s))) [
  | inl e ↦ rw e (starts_with-drop blank_line (c ∷ s) e)
  | inr e ↦ rw e (joined-in_front c (split_head s) s ∙ ap (◌∷◌ c) (joined-split_head s))
]

take-length : (xs : Bytes) → take (length xs) xs ≡ xs
take-length [] = refl
take-length (x ∷ xs) = ap (◌∷◌ x) (take-length xs)

exact_length-whole :
    (closes : Bool) (head rest : Bytes) (o : Option ℤ)
    → exact_length rest o ≡ true
    → (whole_length closes head rest o ≡ message (head ++ blank_line) rest) × (is_length o ≡ true)
unfolding exact_length whole_length whole_body clipped_whole is_length
exact_length-whole closes head rest none h = absurd (ground arith)
exact_length-whole closes head rest (some (ℤ.pos n)) h =
    let same : length rest ≡ n = ground arith in
    let full : ltb (length rest) n ≡ false = ground arith in
    (
      rw full
          (ap (message (head ++ blank_line)) (ap (λ m. take m rest) (sym same) ∙ take-length rest)),
      refl,
    )
exact_length-whole closes head rest (some (ℤ.negsuc n)) h = absurd (ground arith)

is_empty-nil : (s : Bytes) → is_empty s ≡ true → s ≡ []
is_empty-nil [] h = refl
is_empty-nil (c ∷ s) h = absurd (ground arith)

-- Pieces that are not empty and hold nothing are none, so what is read is what is there.
read_part-IsAll :
    (rest : Bytes) (pieces : List Bytes)
    → solid pieces ≡ true
    → is_empty (rest ++ concat pieces) ≡ true
    → rest ≡ rest ++ concat pieces
read_part-IsAll [] pieces s h = sym (is_empty-nil (concat pieces) h)
read_part-IsAll (c ∷ rest) pieces s h = absurd (ground arith)

read_rest-IsAll :
    (head rest : Bytes) (pieces : List Bytes)
    → solid pieces ≡ true
    → (is_response head || is_empty (rest ++ concat pieces)) ≡ true
    → (if is_response head then read_on rest pieces else rest) ≡ rest ++ concat pieces
read_rest-IsAll head rest pieces s h = elim (Bool-cases (is_response head)) [
  | inl e ↦ rw e (read_on-whole rest pieces s)
  | inr e ↦ rw e (read_part-IsAll rest pieces s (ground arith))
]

body_of-IsAll :
    (closes : Bool) (head rest : Bytes) (pieces : List Bytes) (o : Option Text)
    → solid pieces ≡ true
    → exact_value head (rest ++ concat pieces) o ≡ true
    → body_of closes head rest pieces o ≡ message (head ++ blank_line) (rest ++ concat pieces)
unfolding body_of exact_value
body_of-IsAll closes head rest pieces none s h =
    ap (message (head ++ blank_line)) (read_rest-IsAll head rest pieces s h)
body_of-IsAll closes head rest pieces (some value) s h =
    let exact = exact_length-whole closes head (rest ++ concat pieces) (int_of_text value) h in
    with_length-whole closes head rest pieces (int_of_text value) s exact.1 ∙ exact.0

-- A message that is read, and is all the bytes.
pub record IsAll (bytes : Bytes) (r : Received) : Type 0 where
  pub head : Bytes
  pub body : Bytes
  pub read : r ≡ message head body
  pub joins : head ++ body ≡ bytes

received-IsAll :
    (closes : Bool) (bytes : Bytes) (r : HeadRead)
    → Cut closes bytes r
    → exact_head (split_head bytes) ≡ true
    → IsAll bytes (received closes r)
unfolding received exact_head joined
received-IsAll closes bytes r (cut {head} {rest} {pieces} e s) h =
    let value = header_value head (codes "Content-Length") in
    record {
      head = head ++ blank_line;
      body = rest ++ concat pieces;
      read = body_of-IsAll closes head rest pieces value s (subst (λ o. exact_head o ≡ true) e h);
      joins = ap (λ o. joined o bytes) (sym e) ∙ joined-split_head bytes;
    }
received-IsAll closes bytes r (uncut e) h =
    let nothing_there : exact_head none ≡ true = subst (λ o. exact_head o ≡ true) e h in
    absurd (ground arith)

pub recv_http_message-IsAll :
    (s : Socket)
    → solid s.pieces ≡ true
    → length (concat s.pieces) ≤ max_head
    → is_exact (concat s.pieces) ≡ true
    → IsAll (concat s.pieces) (recv_http_message s)
unfolding recv_http_message is_exact
recv_http_message-IsAll s solid_pieces short h =
    received-IsAll s.closes (concat s.pieces) _
      (read_head-Cut s.closes [] s.pieces solid_pieces short) h
