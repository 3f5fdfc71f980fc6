-- ===== src/Hoppie/Blocks.antt =====
-- `_extract_blocks` of src/acars_bridge/hoppie/parser.py: the texts between matching braces.
pub mod Grammar
use acars_printer.Prelude.{ℕ, zero, suc, List, [], ◌∷◌, ◌++◌, ◌==◌, if◌then◌else◌}
use acars_printer.Text.{Text, codes, is_space}
use acars_printer.Hoppie.Types.{Result, ok, raise, hoppie_error}

abbrev pub expected_block : Text
expected_block = codes "Malformed Hoppie response: expected message block."

abbrev pub unbalanced : Text
unbalanced = codes "Malformed Hoppie response: unbalanced braces."

-- `blocks.append(…)` before what follows.
abbrev pub push_block : Text → Result (List Text) → Result (List Text)
push_block block (ok blocks) = ok (block ∷ blocks)
push_block block (raise e) = raise e

-- The scan: outside of a block at depth zero, else inside one, with what it has read of the block.
unfoldable pub scan : ℕ → Text → Text → Result (List Text)
scan zero block [] = ok []
scan zero block (c ∷ s) =
    let skip = scan zero [] s in
    let enter = scan 1 [] s in
    if is_space c then skip else if c == b'{' then enter else raise (hoppie_error expected_block)
scan (suc depth) block [] = raise (hoppie_error unbalanced)
scan (suc depth) block (c ∷ s) =
    let deeper = scan (suc (suc depth)) (block ++ c ∷ []) s in
    let closed = push_block block (scan zero [] s) in
    let shallower = scan depth (block ++ c ∷ []) s in
    let inside = scan (suc depth) (block ++ c ∷ []) s in
    if c == b'{'
    then deeper
    else if c == b'}'
    then (if depth == 0 then closed else shallower)
    else inside

unfoldable pub extract_blocks : Text → Result (List Text)
unfolding scan
extract_blocks text = scan zero [] text
