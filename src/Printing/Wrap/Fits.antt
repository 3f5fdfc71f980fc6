-- ===== src/Printing/Wrap/Fits.antt =====
-- Every row of a wrapped line fits the strip.
use acars_printer.Prelude.{
  ◌<◌, ℕ, zero, suc, ◌≤◌, ◌≡◌, refl, List, [], ◌∷◌, ◌++◌, true, false, leb, ltb, length, drop,
  length-take, All, All-append, all, arith, if◌then◌else◌, inl, inr, Bool-cases, leb→le,
}
use acars_printer.Text.{Text, is_empty, is_space, rstrip, space_runs, is_space_text}
use acars_printer.Printing.Wrap.{
  Rows, chunks, close_row, wrap_token, wrap_tokens, or_blank, finish_rows, wrap_lines,
}

abbrev pub Fits : ℕ → Text → Type 0
Fits width row = length row ≤ width

chunks-Fits : (fuel width : ℕ) (token : Text) → All (Fits width) (chunks fuel width token)
unfolding chunks
chunks-Fits zero width token = tt
chunks-Fits (suc fuel) width [] = tt
chunks-Fits (suc fuel) width (c ∷ s) =
    (length-take width (c ∷ s), chunks-Fits fuel width (drop width (c ∷ s)))

rstrip-space : (t : Text) → all is_space t ≡ true → rstrip t ≡ []
unfolding rstrip
rstrip-space [] h = refl
rstrip-space (c ∷ t) h = ground (arith, rstrip-space t)

-- Space at the end does not count.
rstrip-append_space : (s t : Text) → all is_space t ≡ true → rstrip (s ++ t) ≡ rstrip s
unfolding rstrip
rstrip-append_space [] t h = rstrip-space t h
rstrip-append_space (c ∷ s) t h = rw (rstrip-append_space s t h)

length-rstrip : (s : Text) → length (rstrip s) ≤ length s
unfolding rstrip
length-rstrip [] = omega arith
length-rstrip (c ∷ s) = ground (arith, length-rstrip s)

record IsFit (width : ℕ) (r : Rows) : Type 0 where
  rows : All (Fits width) r.rows
  current : Fits width (rstrip r.current)

close_row-Fits :
    (width : ℕ) (r : Rows) → IsFit width r → All (Fits width) (close_row r.rows r.current)
close_row-Fits width r h = elim (Bool-cases (is_empty r.current)) [
  | inl e ↦ rw e h.rows
  | inr e ↦ rw e (All-append (Fits width) r.rows _ h.rows (h.current, tt))
]

rstrip-extend :
    (current t : Text)
    → is_space_text t ≡ true
    → rstrip (if is_empty current then current else current ++ t) ≡ rstrip current
unfolding is_space_text
rstrip-extend [] t h = refl
rstrip-extend (c ∷ s) [] h = cc
rstrip-extend (c ∷ s) (d ∷ t) h = rstrip-append_space (c ∷ s) (d ∷ t) h

wrap_word-IsFit :
    (width : ℕ) (t : Text) (r : Rows)
    → IsFit width r
    → is_empty t ≡ false
    → is_space_text t ≡ false
    → IsFit width (wrap_token width t r)
unfolding wrap_token
wrap_word-IsFit width t r h e sp = elim (Bool-cases (ltb width (length t))) [
  | inl long ↦
      rw (e, sp, long)
        (record {
          rows =
              All-append (Fits width) (close_row r.rows r.current) _ (close_row-Fits width r h)
                (chunks-Fits (length t) width t);
          current = unfold rstrip in omega arith;
        })
  | inr short ↦
      let candidate = if is_empty r.current then t else r.current ++ t in
      elim (Bool-cases (leb (length (rstrip candidate)) width)) [
        | inl fits ↦ rw (e, sp, short, fits) (record { rows = h.rows; current = leb→le _ _ fits })
        | inr full ↦
            rw (e, sp, short, full)
              (record {
                rows = close_row-Fits width r h;
                current = ground (arith, length-rstrip t);
              })
      ]
]

wrap_token-IsFit :
    (width : ℕ) (t : Text) (r : Rows) → IsFit width r → IsFit width (wrap_token width t r)
wrap_token-IsFit width [] r h = unfold wrap_token in h
wrap_token-IsFit width (c ∷ t) r h = elim (Bool-cases (is_space_text (c ∷ t))) [
  | inl space ↦
      unfold wrap_token in
      rw space
        (record { rows = h.rows; current = rw (rstrip-extend r.current (c ∷ t) space) h.current })
  | inr word ↦ wrap_word-IsFit width (c ∷ t) r h refl word
]

wrap_tokens-IsFit :
    (width : ℕ) (ts : List Text) (r : Rows) → IsFit width r → IsFit width (wrap_tokens width ts r)
unfolding wrap_tokens
wrap_tokens-IsFit width [] r h = h
wrap_tokens-IsFit width (t ∷ ts) r h =
    wrap_tokens-IsFit width ts (wrap_token width t r) (wrap_token-IsFit width t r h)

or_blank-Fits :
    (width : ℕ) (rows : List Text) → All (Fits width) rows → All (Fits width) (or_blank rows)
or_blank-Fits width [] h = (omega arith, tt)
or_blank-Fits width (r ∷ rows) h = h

-- On a strip of some width, no row of a wrapped line is longer than the strip is wide.
pub wrap_lines-Fits :
    (width : ℕ) (line : Text) → 0 < width → All (Fits width) (wrap_lines width line)
wrap_lines-Fits width [] w = unfold wrap_lines in (omega arith, tt)
wrap_lines-Fits width (c ∷ s) w = elim (Bool-cases (leb (suc (length s)) width)) [
  | inl short ↦ unfold wrap_lines in rw short (leb→le _ _ short, tt)
  | inr long ↦
      let start : Rows = record { rows = []; current = [] } in
      let last = wrap_tokens width (space_runs (c ∷ s)) start in
      let fit : IsFit width last =
        wrap_tokens-IsFit width (space_runs (c ∷ s)) start
          (record { rows = tt; current = unfold rstrip in omega arith }) in
      unfold wrap_lines finish_rows in
      rw long (or_blank-Fits width _ (close_row-Fits width last fit))
]
