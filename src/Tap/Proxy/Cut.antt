-- ===== src/Tap/Proxy/Cut.antt =====
-- Where the head of a message ends, in whatever pieces it comes.
use acars_printer.Prelude.{
  ℕ, zero, suc, ◌≤◌, ◌≡◌, refl, sym, ap, ◌∙◌, Bool, true, false, Option, none, some, List, [], ◌∷◌,
  ◌++◌, append-nil, append_assoc, length, length-append, take, drop, not, ◌&&◌, ltb, arith, subst,
  if◌then◌else◌, inl, inr, is_some, Bool-cases, all, drop-append_le, ◌==◌,
}
use acars_printer.Text.{is_empty, starts_with}
use acars_printer.Tap.Proxy.{
  Bytes, split_head, in_front, blank_line, HeadRead, parted, no_head, timed_out, found_or, max_head,
  read_head,
}

unfoldable pub concat : List Bytes → Bytes
concat [] = []
concat (p ∷ ps) = p ++ concat ps

pub take-append_le : (n : ℕ) (xs ys : Bytes) → n ≤ length xs → take n (xs ++ ys) ≡ take n xs
take-append_le zero xs ys h = refl
take-append_le (suc n) [] ys h = absurd (omega arith)
take-append_le (suc n) (x ∷ xs) ys h = ap (◌∷◌ x) (take-append_le n xs ys (omega arith))

starts_with-append :
    (p s t : Bytes) → length p ≤ length s → starts_with p (s ++ t) ≡ starts_with p s
unfolding starts_with
starts_with-append [] s t h = refl
starts_with-append (x ∷ p) [] t h = absurd (omega arith)
starts_with-append (x ∷ p) (y ∷ s) t h =
    ap (λ b. x == y && b) (starts_with-append p s t (omega arith))

starts_with-length : (p s : Bytes) → starts_with p s ≡ true → length p ≤ length s
unfolding starts_with
starts_with-length [] s h = omega arith
starts_with-length (x ∷ p) [] h = absurd (ground arith)
starts_with-length (x ∷ p) (y ∷ s) h = omega (arith, starts_with-length p s (ground arith))

-- More bytes after the body.
abbrev append_body : Bytes → Option (Bytes × Bytes) → Option (Bytes × Bytes)
append_body t none = none
append_body t (some (head, body)) = some (head, body ++ t)

is_some-in_front : (c : ℕ) (o : Option (Bytes × Bytes)) → is_some (in_front c o) ≡ is_some o
unfolding in_front
is_some-in_front c none = refl
is_some-in_front c (some (head, body)) = refl

in_front-append_body :
    (c : ℕ) (t : Bytes) (o : Option (Bytes × Bytes))
    → in_front c (append_body t o) ≡ append_body t (in_front c o)
unfolding in_front
in_front-append_body c t none = refl
in_front-append_body c t (some (head, body)) = refl

-- A text with a blank line has room for it.
split_head-length : (s : Bytes) → is_some (split_head s) ≡ true → 4 ≤ length s
unfolding split_head
split_head-length [] h = absurd (ground arith)
split_head-length (c ∷ s) h = elim (Bool-cases (starts_with blank_line (c ∷ s))) [
  | inl e ↦ starts_with-length blank_line (c ∷ s) e
  | inr e ↦
      let rest : is_some (in_front c (split_head s)) ≡ true =
        subst
          (λ b. is_some (if b then some ([], drop 4 (c ∷ s)) else in_front c (split_head s)) ≡ true)
          e h in
      omega (arith, split_head-length s (sym (is_some-in_front c (split_head s)) ∙ rest))
]

split_head-append :
    (s t : Bytes)
    → is_some (split_head s) ≡ true
    → split_head (s ++ t) ≡ append_body t (split_head s)
unfolding split_head
split_head-append [] t h = absurd (ground arith)
split_head-append (c ∷ s) t h =
    let room = split_head-length (c ∷ s) h in
    let same = starts_with-append blank_line (c ∷ s) t room in
    elim (Bool-cases (starts_with blank_line (c ∷ s))) [
      | inl e ↦ rw (same, e) (ap (λ b. some ([], b)) (drop-append_le 4 (c ∷ s) t room))
      | inr e ↦
          let rest : is_some (in_front c (split_head s)) ≡ true =
            subst
              (λ b.
                is_some (if b then some ([], drop 4 (c ∷ s)) else in_front c (split_head s)) ≡ true)
              e h in
          let later = split_head-append s t (sym (is_some-in_front c (split_head s)) ∙ rest) in
          rw (same, e) (ap (in_front c) later ∙ in_front-append_body c t (split_head s))
    ]

abbrev pub solid : List Bytes → Bool
solid = all (λ p. not (is_empty p))

-- What is read of a head, against all the bytes that came and come.
pub data Cut (closes : Bool) (total : Bytes) : HeadRead → Type 0 where
  cut :
      {head rest : Bytes} {pieces : List Bytes}
      → split_head total ≡ some (head, rest ++ concat pieces)
      → solid pieces ≡ true
      → Cut closes total (parted head rest pieces)
  uncut : split_head total ≡ none → Cut closes total (if closes then no_head else timed_out)

found_or-Cut :
    (closes : Bool) (bytes : Bytes) (pieces : List Bytes) (o : Option (Bytes × Bytes))
    (other : HeadRead)
    → split_head bytes ≡ o
    → solid pieces ≡ true
    → (o ≡ none → Cut closes (bytes ++ concat pieces) other)
    → Cut closes (bytes ++ concat pieces) (found_or o pieces other)
unfolding found_or
found_or-Cut closes bytes pieces none other e s k = k refl
found_or-Cut closes bytes pieces (some (head, rest)) other e s k =
    let found : is_some (split_head bytes) ≡ true = rw e refl in
    cut (split_head-append bytes (concat pieces) found ∙ ap (append_body (concat pieces)) e) s

pub read_head-Cut :
    (closes : Bool) (bytes : Bytes) (pieces : List Bytes)
    → solid pieces ≡ true
    → length (bytes ++ concat pieces) ≤ max_head
    → Cut closes (bytes ++ concat pieces) (read_head closes bytes pieces)
unfolding read_head concat
read_head-Cut closes bytes [] s h =
    found_or-Cut closes bytes [] (split_head bytes) _ refl refl
      λ e. uncut (ap split_head (append-nil bytes) ∙ e)
read_head-Cut closes bytes (p ∷ ps) s h =
    let together = append_assoc bytes p (concat ps) in
    let some_bytes : is_empty p ≡ false = ground arith in
    let room : length (bytes ++ p) ≤ max_head =
      omega (arith, length-append (bytes ++ p) (concat ps), ap length together) in
    let short : ltb max_head (length (bytes ++ p)) ≡ false = ground arith in
    found_or-Cut closes bytes (p ∷ ps) (split_head bytes) _ refl s λ e.
      rw (some_bytes, short)
        (subst (λ total. Cut closes total (read_head closes (bytes ++ p) ps)) together
          (read_head-Cut closes (bytes ++ p) ps (ground arith) (rw together h)))
