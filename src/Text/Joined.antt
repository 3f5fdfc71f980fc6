-- ===== src/Text/Joined.antt =====
-- Words that are joined by one space: no space stands at either end.
use acars_printer.Prelude.{
  ℕ, ◌≡◌, refl, ap, ◌∙◌, arith, Bool, true, false, List, [], ◌∷◌, ◌++◌, ◌&&◌, ◌||◌, not, all,
}
use acars_printer.Text.Chars.{Text, codes, is_space, is_empty, lstrip, rstrip, strip}
use acars_printer.Text.Lines.{join}
use acars_printer.Text.Words.{push_run, space_runs, is_space_text, drop_space_runs, words}
use acars_printer.Text.Strip.{rstrip-append, is_empty-append, IsWord, lstrip-word}
use acars_printer.Text.Number.{rstrip-solid}

is_run : Text → Bool
is_run r = not (is_empty r) && (all is_space r || all (λ c. not (is_space c)) r)

is_word : Text → Bool
is_word r = not (is_empty r) && all (λ c. not (is_space c)) r

push_run-all :
    (c : ℕ) (runs : List Text) → all is_run runs ≡ true → all is_run (push_run c runs) ≡ true
unfolding push_run is_run
push_run-all c [] h = ground arith
push_run-all c ([] ∷ runs) h = ground arith
push_run-all c ((d ∷ run) ∷ runs) h = ground arith

space_runs-all : (s : Text) → all is_run (space_runs s) ≡ true
unfolding space_runs
space_runs-all [] = refl
space_runs-all (c ∷ s) = push_run-all c (space_runs s) (space_runs-all s)

drop_space_runs-all :
    (runs : List Text) → all is_run runs ≡ true → all is_word (drop_space_runs runs) ≡ true
unfolding drop_space_runs is_run is_word is_space_text
drop_space_runs-all [] h = refl
drop_space_runs-all ([] ∷ runs) h = ground arith
drop_space_runs-all ((c ∷ run) ∷ runs) h = ground (arith, drop_space_runs-all runs)

words-all : (s : Text) → all is_word (words s) ≡ true
unfolding words
words-all s = drop_space_runs-all (space_runs s) (space_runs-all s)

-- What `join` makes of words is not empty, and has no space at its end.
record IsTrimmed (s : Text) : Type 0 where
  filled : is_empty s ≡ false
  right : rstrip s ≡ s

join-IsTrimmed :
    (w : Text) (ws : List Text)
    → all is_word (w ∷ ws) ≡ true
    → IsTrimmed (join (codes " ") (w ∷ ws))
unfolding join is_word
join-IsTrimmed w [] h = record { filled = ground arith; right = rstrip-solid w (ground arith) }
join-IsTrimmed w (v ∷ ws) h =
    let rest = join-IsTrimmed v ws (ground arith) in
    let tail = join (codes " ") (v ∷ ws) in
    let kept = ap is_empty rest.right ∙ rest.filled in
    let spaced = rstrip-append (codes " ") tail kept ∙ ap (λ s. codes " " ++ s) rest.right in
    record {
      filled = is_empty-append w (codes " " ++ tail) refl;
      right = rstrip-append w (codes " " ++ tail) (ap is_empty spaced) ∙ ap (λ s. w ++ s) spaced;
    }

lstrip-join :
    (w : Text) (ws : List Text)
    → IsWord w
    → lstrip (join (codes " ") (w ∷ ws)) ≡ join (codes " ") (w ∷ ws)
unfolding join lstrip
lstrip-join [] [] h = refl
lstrip-join (c ∷ w) [] h = let e = h.solid in ground arith
lstrip-join w (v ∷ ws) h = lstrip-word w _ h

strip-joined :
    (ws : List Text) → all is_word ws ≡ true → strip (join (codes " ") ws) ≡ join (codes " ") ws
unfolding strip is_word join
strip-joined [] h = refl
strip-joined (w ∷ ws) h =
    let first : IsWord w = record { filled = ground arith; solid = ground arith } in
    ap rstrip (lstrip-join w ws first) ∙ (join-IsTrimmed w ws h).right

-- A text whose words are joined by one space has no space to strip.
pub strip-join-words : (s : Text) → strip (join (codes " ") (words s)) ≡ join (codes " ") (words s)
strip-join-words s = strip-joined (words s) (words-all s)
