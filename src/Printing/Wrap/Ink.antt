-- ===== src/Printing/Wrap/Ink.antt =====
-- Wrapping loses no character but space.
use acars_printer.Prelude.{
  ℕ, zero, suc, ◌≤◌, ◌<◌, ◌≡◌, refl, sym, ap, ◌∙◌, List, [], ◌∷◌, ◌++◌, true, false, leb, ltb,
  length, take, drop, take-append-drop, length-drop, all, arith, if◌then◌else◌, append-nil,
  append_assoc, inl, inr, Bool-cases,
}
use acars_printer.Text.{Text, is_empty, is_space, rstrip, push_run, space_runs, is_space_text}
use acars_printer.Printing.Wrap.{
  Rows, chunks, close_row, wrap_token, wrap_tokens, or_blank, finish_rows, wrap_lines,
}

-- The characters of a text that are not space, in order.
abbrev pub ink : Text → Text
ink [] = []
ink (c ∷ s) = if is_space c then ink s else c ∷ ink s

abbrev pub ink_all : List Text → Text
ink_all [] = []
ink_all (row ∷ rows) = ink row ++ ink_all rows

ink-append : (s t : Text) → ink (s ++ t) ≡ ink s ++ ink t
ink-append [] t = refl
ink-append (c ∷ s) t = ground (arith, ink-append s t)

ink_all-append : (a b : List Text) → ink_all (a ++ b) ≡ ink_all a ++ ink_all b
ink_all-append [] b = refl
ink_all-append (r ∷ a) b =
    rw (ink_all-append a b) (sym (append_assoc (ink r) (ink_all a) (ink_all b)))

ink-rstrip : (s : Text) → ink (rstrip s) ≡ ink s
unfolding rstrip
ink-rstrip [] = refl
ink-rstrip (c ∷ s) = ground (arith, ink-rstrip s)

ink-space : (t : Text) → all is_space t ≡ true → ink t ≡ []
ink-space [] h = refl
ink-space (c ∷ t) h = ground (arith, ink-space t)

ink_all-push_run :
    (c : ℕ) (runs : List Text) → ink_all (push_run c runs) ≡ ink (c ∷ []) ++ ink_all runs
unfolding push_run
ink_all-push_run c [] = refl
ink_all-push_run c ([] ∷ runs) = refl
ink_all-push_run c ((d ∷ run) ∷ runs) = ground arith

ink_all-space_runs : (s : Text) → ink_all (space_runs s) ≡ ink s
unfolding space_runs
ink_all-space_runs [] = refl
ink_all-space_runs (c ∷ s) =
    ink_all-push_run c (space_runs s) ∙ rw (ink_all-space_runs s) (ground arith)

ink_all-chunks :
    (fuel width : ℕ) (t : Text)
    → 0 < width
    → length t ≤ fuel
    → ink_all (chunks fuel width t) ≡ ink t
unfolding chunks
ink_all-chunks zero width [] w h = refl
ink_all-chunks zero width (c ∷ t) w h = absurd (omega arith)
ink_all-chunks (suc fuel) width [] w h = refl
ink_all-chunks (suc fuel) width (c ∷ t) w h =
    ap (λ x. ink (take width (c ∷ t)) ++ x)
      (ink_all-chunks fuel width (drop width (c ∷ t)) w (omega (arith, length-drop width (c ∷ t))))
    ∙ sym (ink-append (take width (c ∷ t)) (drop width (c ∷ t)))
    ∙ ap ink (take-append-drop width (c ∷ t))

-- The ink of the rows so far and of the current one.
abbrev inked : Rows → Text
inked r = ink_all r.rows ++ ink r.current

ink_all-close_row :
    (rows : List Text) (current : Text)
    → ink_all (close_row rows current) ≡ ink_all rows ++ ink current
ink_all-close_row rows [] = sym (append-nil (ink_all rows))
ink_all-close_row rows (c ∷ s) =
    ink_all-append rows (rstrip (c ∷ s) ∷ [])
    ∙ ap (λ x. ink_all rows ++ x) (append-nil (ink (rstrip (c ∷ s))) ∙ ink-rstrip (c ∷ s))

ink-is_space_text : (t : Text) → is_space_text t ≡ true → ink t ≡ []
unfolding is_space_text
ink-is_space_text [] h = refl
ink-is_space_text (c ∷ t) h = ink-space (c ∷ t) h

ink-extend :
    (current t : Text) → ink (if is_empty current then t else current ++ t) ≡ ink current ++ ink t
ink-extend [] t = refl
ink-extend (c ∷ s) t = ink-append (c ∷ s) t

ink-extend_space :
    (current t : Text)
    → is_space_text t ≡ true
    → ink (if is_empty current then current else current ++ t) ≡ ink current ++ ink t
ink-extend_space [] t h = sym (ink-is_space_text t h)
ink-extend_space (c ∷ s) t h = ink-append (c ∷ s) t

inked-wrap_word :
    (width : ℕ) (t : Text) (r : Rows)
    → 0 < width
    → is_empty t ≡ false
    → is_space_text t ≡ false
    → inked (wrap_token width t r) ≡ inked r ++ ink t
unfolding wrap_token
inked-wrap_word width t r w e sp = elim (Bool-cases (ltb width (length t))) [
  | inl long ↦
      rw (e, sp, long)
        (append-nil _
          ∙ ink_all-append (close_row r.rows r.current) (chunks (length t) width t)
          ∙ ap (λ x. x ++ ink_all (chunks (length t) width t)) (ink_all-close_row r.rows r.current)
          ∙ ap (λ x. inked r ++ x) (ink_all-chunks (length t) width t w (omega arith)))
  | inr short ↦
      let candidate = if is_empty r.current then t else r.current ++ t in
      elim (Bool-cases (leb (length (rstrip candidate)) width)) [
        | inl fits ↦
            rw (e, sp, short, fits)
              (ap (λ x. ink_all r.rows ++ x) (ink-extend r.current t)
                ∙ sym (append_assoc (ink_all r.rows) (ink r.current) (ink t)))
        | inr full ↦
            rw (e, sp, short, full) (ap (λ x. x ++ ink t) (ink_all-close_row r.rows r.current))
      ]
]

inked-wrap_token :
    (width : ℕ) (t : Text) (r : Rows) → 0 < width → inked (wrap_token width t r) ≡ inked r ++ ink t
inked-wrap_token width [] r w = unfold wrap_token in sym (append-nil (inked r))
inked-wrap_token width (c ∷ t) r w = elim (Bool-cases (is_space_text (c ∷ t))) [
  | inl space ↦
      unfold wrap_token in
      rw space (
        ap (λ x. ink_all r.rows ++ x) (ink-extend_space r.current (c ∷ t) space)
        ∙ sym (append_assoc (ink_all r.rows) (ink r.current) (ink (c ∷ t))))
  | inr word ↦ inked-wrap_word width (c ∷ t) r w refl word
]

inked-wrap_tokens :
    (width : ℕ) (ts : List Text) (r : Rows)
    → 0 < width
    → inked (wrap_tokens width ts r) ≡ inked r ++ ink_all ts
unfolding wrap_tokens
inked-wrap_tokens width [] r w = sym (append-nil (inked r))
inked-wrap_tokens width (t ∷ ts) r w =
    inked-wrap_tokens width ts (wrap_token width t r) w
    ∙ ap (λ x. x ++ ink_all ts) (inked-wrap_token width t r w)
    ∙ append_assoc (inked r) (ink t) (ink_all ts)

ink_all-or_blank : (rows : List Text) → ink_all (or_blank rows) ≡ ink_all rows
ink_all-or_blank [] = refl
ink_all-or_blank (r ∷ rows) = refl

-- On a strip of some width, the rows of a wrapped line hold the line's characters but for white
-- space: all of them, once, in their order.
pub ink_all-wrap_lines :
    (width : ℕ) (line : Text) → 0 < width → ink_all (wrap_lines width line) ≡ ink line
ink_all-wrap_lines width [] w = unfold wrap_lines in refl
ink_all-wrap_lines width (c ∷ s) w = elim (Bool-cases (leb (suc (length s)) width)) [
  | inl short ↦ unfold wrap_lines in rw short (append-nil (ink (c ∷ s)))
  | inr long ↦
      let start : Rows = record { rows = []; current = [] } in
      let last = wrap_tokens width (space_runs (c ∷ s)) start in
      unfold wrap_lines finish_rows in
      rw long (
        ink_all-or_blank (close_row last.rows last.current)
        ∙ ink_all-close_row last.rows last.current
        ∙ inked-wrap_tokens width (space_runs (c ∷ s)) start w
        ∙ ink_all-space_runs (c ∷ s))
]
