-- ===== src/Tap/Hosts/Removal.antt =====
-- The block that was appended to the hosts file is removed again.
use acars_printer.Prelude.{
  ℕ, ◌≡◌, refl, sym, ap, ◌∙◌, inl, inr, Bool, true, false, List, [], ◌∷◌, ◌++◌, map, not, ◌||◌, all,
  All, append_assoc, Bool-cases, arith,
}
use acars_printer.Text.{Text, text_eq, strip, lstrip, rstrip, is_space, join, onto_first}
use acars_printer.Tap.Hosts.{marker_begin, marker_end, is_break, lines_of, kept_lines, comment_line}

-- A line of the file, with its line feed.
abbrev pub ended : Text → Text
ended line = line ++ (b'\n' ∷ [])

onto_first-append :
    (c : ℕ) (p : Text) (ps qs : List Text)
    → onto_first c ((p ∷ ps) ++ qs) ≡ onto_first c (p ∷ ps) ++ qs
onto_first-append c p ps qs = refl

-- A line with no break in it comes off in one piece.
lines_of-line :
    (line rest : Text)
    → all (λ c. not (is_break c)) line ≡ true
    → lines_of (line ++ (b'\n' ∷ rest)) ≡ ended line ∷ lines_of rest
unfolding lines_of
lines_of-line [] [] h = refl
lines_of-line [] (d ∷ s) h = unfold is_break in refl
lines_of-line (c ∷ []) rest h =
    let later = lines_of-line [] rest refl in
    let whole : is_break c ≡ false = ground arith in rw whole (ap (onto_first c) later)
lines_of-line (c ∷ d ∷ line) rest h =
    let tail : all (λ x. not (is_break x)) (d ∷ line) ≡ true = ground arith in
    let later = lines_of-line (d ∷ line) rest tail in
    let whole : is_break c ≡ false = ground arith in rw whole (ap (onto_first c) later)

-- The texts of some lines, each ended.
abbrev pub file_of : List Text → Text
file_of [] = []
file_of (line ∷ lines) = line ++ (b'\n' ∷ file_of lines)

abbrev pub Unbroken : Text → Type 0
Unbroken line = all (λ c. not (is_break c)) line ≡ true

pub lines_of-file_of :
    (lines : List Text) (rest : Text)
    → All Unbroken lines
    → lines_of (file_of lines ++ rest) ≡ map ended lines ++ lines_of rest
lines_of-file_of [] rest h = refl
lines_of-file_of (line ∷ lines) rest h =
    ap lines_of (append_assoc line (b'\n' ∷ file_of lines) rest)
    ∙ lines_of-line line (file_of lines ++ rest) h.0
    ∙ ap (◌∷◌ (ended line)) (lines_of-file_of lines rest h.1)

-- A line that is no marker.
abbrev pub is_plain : Text → Bool
is_plain line =
    not (text_eq (strip (ended line)) marker_begin || text_eq (strip (ended line)) marker_end)

pub kept_lines-plain :
    (lines rest : List Text)
    → All (λ line. is_plain line ≡ true) lines
    → kept_lines false (map ended lines ++ rest) ≡ file_of lines ++ kept_lines false rest
unfolding kept_lines
kept_lines-plain [] rest h = refl
kept_lines-plain (line ∷ lines) rest h =
    let later = kept_lines-plain lines rest h.1 in
    let no_begin : text_eq (strip (ended line)) marker_begin ≡ false = ground arith in
    let no_end : text_eq (strip (ended line)) marker_end ≡ false = ground arith in
    rw (no_begin, no_end, later)
      (append_assoc line (b'\n' ∷ []) (file_of lines ++ kept_lines false rest)
        ∙ sym (append_assoc line (b'\n' ∷ file_of lines) (kept_lines false rest)))

-- A line that does not end the block.
abbrev pub stays_inside : Text → Bool
stays_inside line = not (text_eq (strip (ended line)) marker_end)

kept_lines-inside :
    (lines rest : List Text)
    → All (λ line. stays_inside line ≡ true) lines
    → kept_lines true (map ended lines ++ rest) ≡ kept_lines true rest
unfolding kept_lines
kept_lines-inside [] rest h = refl
kept_lines-inside (line ∷ lines) rest h =
    let later = kept_lines-inside lines rest h.1 in
    let no_end : text_eq (strip (ended line)) marker_end ≡ false = ground arith in
    elim (Bool-cases (text_eq (strip (ended line)) marker_begin)) [
      | inl begins ↦ rw begins later
      | inr other ↦ rw (other, no_end) later
    ]

pub join-file_of :
    (line : Text) (lines : List Text)
    → join (b'\n' ∷ []) (line ∷ lines) ++ (b'\n' ∷ []) ≡ file_of (line ∷ lines)
unfolding join
join-file_of line [] = refl
join-file_of line (next ∷ lines) =
    append_assoc line (b'\n' ∷ join (b'\n' ∷ []) (next ∷ lines)) (b'\n' ∷ [])
    ∙ ap (λ s. line ++ (b'\n' ∷ s)) (join-file_of next lines)

kept_lines-end : kept_lines true (ended marker_end ∷ []) ≡ []
unfolding kept_lines strip lstrip rstrip is_space text_eq
kept_lines-end = refl

kept_lines-begin :
    (rest : List Text)
    → kept_lines false (ended [] ∷ ended marker_begin ∷ rest) ≡ b'\n' ∷ kept_lines true rest
unfolding kept_lines strip lstrip rstrip is_space text_eq
kept_lines-begin rest = refl

comment_stays : stays_inside comment_line ≡ true
unfolding strip lstrip rstrip is_space text_eq
comment_stays = refl

map-append_lines : (xs ys : List Text) → map ended (xs ++ ys) ≡ map ended xs ++ map ended ys
map-append_lines [] ys = refl
map-append_lines (x ∷ xs) ys = ap (◌∷◌ (ended x)) (map-append_lines xs ys)

pub kept_lines-block :
    (inside : List Text)
    → All (λ line. stays_inside line ≡ true) inside
    → kept_lines false (map ended ([] ∷ marker_begin ∷ comment_line ∷ (inside ++ marker_end ∷ [])))
      ≡ b'\n' ∷ []
kept_lines-block inside h =
    kept_lines-begin (map ended (comment_line ∷ (inside ++ marker_end ∷ [])))
    ∙ ap (◌∷◌ b'\n') (
        ap (λ ls. kept_lines true (ended comment_line ∷ ls))
          (map-append_lines inside (marker_end ∷ []))
        ∙ kept_lines-inside (comment_line ∷ inside) (ended marker_end ∷ []) (comment_stays, h)
        ∙ kept_lines-end)
