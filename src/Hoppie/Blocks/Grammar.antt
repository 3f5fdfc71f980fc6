-- ===== src/Hoppie/Blocks/Grammar.antt =====
-- `_extract_blocks` reads exactly the sequences of balanced blocks with white space between them.
use acars_printer.Prelude.{
  ℕ, zero, suc, ◌≡◌, ◌≢◌, refl, sym, ap, ◌∙◌, ◌↔◌, ◌⊎◌, true, false, List, [], ◌∷◌, ◌++◌, ◌==◌,
  arith, append_assoc, append-nil, Bool-cases, inl, inr, ==_iff,
}
use acars_printer.Text.{Text, is_space}
use acars_printer.Hoppie.Types.{Result, ok, raise}
use acars_printer.Hoppie.Blocks.{push_block, scan, extract_blocks}

-- A text that closes `depth` open braces and is balanced otherwise.
pub data Closes : ℕ → Text → Type 0 where
  end : Closes zero []
  opening : {depth c : ℕ} {s : Text} → c ≡ b'{' → Closes (suc depth) s → Closes depth (c ∷ s)
  closing : {depth c : ℕ} {s : Text} → c ≡ b'}' → Closes depth s → Closes (suc depth) (c ∷ s)
  other : {depth c : ℕ} {s : Text} → c ≢ b'{' → c ≢ b'}' → Closes depth s → Closes depth (c ∷ s)

-- White space and balanced texts in braces, with the list of those.
pub data Framed : Text → List Text → Type 0 where
  done : Framed [] []
  space : {c : ℕ} {s : Text} {bs : List Text} → is_space c ≡ true → Framed s bs → Framed (c ∷ s) bs
  framed :
      {c d : ℕ} {b s t : Text} {bs : List Text}
      → c ≡ b'{'
      → d ≡ b'}'
      → Closes zero b
      → t ≡ b ++ d ∷ s
      → Framed s bs
      → Framed (c ∷ t) (b ∷ bs)

scan_space :
    (acc : Text) (c : ℕ) (s : Text) → is_space c ≡ true → scan zero acc (c ∷ s) ≡ scan zero [] s
unfolding scan
scan_space acc c s h = rw h

scan_opening :
    (acc : Text) (c : ℕ) (s : Text)
    → is_space c ≡ false
    → c ≡ b'{'
    → scan zero acc (c ∷ s) ≡ scan 1 [] s
unfolding scan
scan_opening acc c s h e = rw (h, (==_iff c b'{').1 e)

brace_is_no_space : (c : ℕ) → c ≡ b'{' → is_space c ≡ false
unfolding is_space
brace_is_no_space c e = ground arith

scan_deeper :
    (depth c : ℕ) (acc s : Text)
    → c ≡ b'{'
    → scan (suc depth) acc (c ∷ s) ≡ scan (suc (suc depth)) (acc ++ c ∷ []) s
unfolding scan
scan_deeper depth c acc s e = rw ((==_iff c b'{').1 e)

scan_shallower :
    (depth c : ℕ) (acc s : Text)
    → c ≡ b'}'
    → scan (suc (suc depth)) acc (c ∷ s) ≡ scan (suc depth) (acc ++ c ∷ []) s
unfolding scan
scan_shallower depth c acc s e = ground arith

scan_closed :
    (c : ℕ) (acc s : Text) → c ≡ b'}' → scan 1 acc (c ∷ s) ≡ push_block acc (scan zero [] s)
unfolding scan
scan_closed c acc s e = ground arith

scan_inside :
    (depth c : ℕ) (acc s : Text)
    → c ≢ b'{'
    → c ≢ b'}'
    → scan (suc depth) acc (c ∷ s) ≡ scan (suc depth) (acc ++ c ∷ []) s
unfolding scan
scan_inside depth c acc s n m = ground arith

scan-Closes :
    {depth : ℕ} {b : Text} (acc s : Text) (d : ℕ)
    → Closes depth b
    → d ≡ b'}'
    → scan (suc depth) acc (b ++ d ∷ s) ≡ push_block (acc ++ b) (scan zero [] s)
scan-Closes acc s d end e = rw (append-nil acc) (scan_closed d acc s e)
scan-Closes acc s d (opening {depth} {c} {s = b} o h) e =
    scan_deeper depth c acc (b ++ d ∷ s) o
    ∙ scan-Closes (acc ++ c ∷ []) s d h e
    ∙ ap (λ x. push_block x (scan zero [] s)) (append_assoc acc (c ∷ []) b)
scan-Closes acc s d (closing {depth} {c} {s = b} o h) e =
    scan_shallower depth c acc (b ++ d ∷ s) o
    ∙ scan-Closes (acc ++ c ∷ []) s d h e
    ∙ ap (λ x. push_block x (scan zero [] s)) (append_assoc acc (c ∷ []) b)
scan-Closes acc s d (other {depth} {c} {s = b} o p h) e =
    scan_inside depth c acc (b ++ d ∷ s) o p
    ∙ scan-Closes (acc ++ c ∷ []) s d h e
    ∙ ap (λ x. push_block x (scan zero [] s)) (append_assoc acc (c ∷ []) b)

scan_nil : (acc : Text) → scan zero acc [] ≡ ok []
unfolding scan
scan_nil acc = refl

scan-Framed : {text : Text} {bs : List Text} → Framed text bs → scan zero [] text ≡ ok bs
scan-Framed done = scan_nil []
scan-Framed (space {c} {s} h f) = scan_space [] c s h ∙ scan-Framed f
scan-Framed (framed {c} {d} {b} {s} {t} e e' h split f) =
    scan_opening [] c t (brace_is_no_space c e) e
    ∙ ap (scan 1 []) split
    ∙ scan-Closes [] s d h e'
    ∙ ap (push_block b) (scan-Framed f)

-- What a successful scan says of the text, outside a block and inside one.
record ClosedHere (depth : ℕ) (acc text : Text) (bs : List Text) : Type 0 where
  inner : Text
  brace : ℕ
  rest : Text
  later : List Text
  split : text ≡ inner ++ brace ∷ rest
  is_brace : brace ≡ b'}'
  closes : Closes depth inner
  blocks : bs ≡ (acc ++ inner) ∷ later
  framed : Framed rest later

abbrev Read : ℕ → Text → Text → List Text → Type 0
Read zero acc text bs = Framed text bs
Read (suc depth) acc text bs = ClosedHere depth acc text bs

push_block-eq-ok :
    (b : Text) (r : Result (List Text)) {bs : List Text}
    → push_block b r ≡ ok bs
    → (later : List Text) × (r ≡ ok later) × (bs ≡ b ∷ later)
push_block-eq-ok b (ok later) h = (later, refl, ground arith)
push_block-eq-ok b (raise e) h = cc

ClosedHere-closed :
    (c : ℕ) (acc s : Text) {bs later : List Text}
    → c ≡ b'}'
    → bs ≡ acc ∷ later
    → Framed s later
    → ClosedHere zero acc (c ∷ s) bs
ClosedHere-closed c acc s {later} e b f = record {
  inner = [];
  brace = c;
  rest = s;
  later = later;
  split = refl;
  is_brace = e;
  closes = end;
  blocks = rw (append-nil acc) b;
  framed = f;
}

-- One more character in front of the text inside.
ClosedHere-more :
    (depth depth' c : ℕ) (acc s : Text) {bs : List Text}
    → ((b : Text) → Closes depth' b → Closes depth (c ∷ b))
    → ClosedHere depth' (acc ++ c ∷ []) s bs
    → ClosedHere depth acc (c ∷ s) bs
ClosedHere-more depth depth' c acc s k r = record {
  inner = c ∷ r.inner;
  brace = r.brace;
  rest = r.rest;
  later = r.later;
  split = ap (◌∷◌ c) r.split;
  is_brace = r.is_brace;
  closes = k r.inner r.closes;
  blocks = r.blocks ∙ ap (λ x. x ∷ r.later) (append_assoc acc (c ∷ []) r.inner);
  framed = r.framed;
}

Read-brace :
    (c : ℕ) (s : Text) {bs : List Text} → c ≡ b'{' → ClosedHere zero [] s bs → Framed (c ∷ s) bs
Read-brace c s e r = rw r.blocks (framed e r.is_brace r.closes r.split r.framed)

scan_refused :
    (acc : Text) (c : ℕ) (s : Text) {bs : List Text}
    → is_space c ≡ false
    → (c == b'{') ≡ false
    → scan zero acc (c ∷ s) ≡ ok bs
    → ⊥
unfolding scan
scan_refused acc c s sp n h = ground arith

scan_unclosed : (depth : ℕ) (acc : Text) {bs : List Text} → scan (suc depth) acc [] ≡ ok bs → ⊥
unfolding scan
scan_unclosed depth acc h = cc

brace_cases : (c : ℕ) → (c ≡ b'{') ⊎ ((c ≡ b'}') ⊎ ((c ≢ b'{') × (c ≢ b'}')))
brace_cases c = ground arith

ok_injective : {a b : List Text} → ok a ≡ ok b → a ≡ b
ok_injective h = cc

scan-Read :
    (depth : ℕ) (acc text : Text) {bs : List Text}
    → scan depth acc text ≡ ok bs
    → Read depth acc text bs
scan-Read zero acc [] h = rw (← ok_injective (sym (scan_nil acc) ∙ h)) done
scan-Read zero acc (c ∷ s) h = elim (Bool-cases (is_space c)) [
  | inl sp ↦ space sp (scan-Read zero [] s (sym (scan_space acc c s sp) ∙ h))
  | inr nsp ↦ elim (Bool-cases (c == b'{')) [
    | inl e ↦
        let e' = (==_iff c b'{').0 e in
        Read-brace c s e' (scan-Read 1 [] s (sym (scan_opening acc c s nsp e') ∙ h))
    | inr n ↦ absurd (scan_refused acc c s nsp n h)
  ]
]
scan-Read (suc depth) acc [] h = absurd (scan_unclosed depth acc h)
scan-Read (suc zero) acc (c ∷ s) h = elim (brace_cases c) [
  | inl o ↦
      ClosedHere-more 0 1 c acc s (λ b. opening o)
        (scan-Read 2 (acc ++ c ∷ []) s (sym (scan_deeper 0 c acc s o) ∙ h))
  | inr (inl e) ↦
      let (later, read, blocks) =
        push_block-eq-ok acc (scan zero [] s) (sym (scan_closed c acc s e) ∙ h) in
      ClosedHere-closed c acc s e blocks (scan-Read zero [] s read)
  | inr (inr (n, m)) ↦
      ClosedHere-more 0 0 c acc s (λ b. other n m)
        (scan-Read 1 (acc ++ c ∷ []) s (sym (scan_inside 0 c acc s n m) ∙ h))
]
scan-Read (suc (suc depth)) acc (c ∷ s) h = elim (brace_cases c) [
  | inl o ↦
      ClosedHere-more (suc depth) (suc (suc depth)) c acc s (λ b. opening o)
        (scan-Read (suc (suc (suc depth))) (acc ++ c ∷ []) s
          (sym (scan_deeper (suc depth) c acc s o) ∙ h))
  | inr (inl e) ↦
      ClosedHere-more (suc depth) depth c acc s (λ b. closing e)
        (scan-Read (suc depth) (acc ++ c ∷ []) s (sym (scan_shallower depth c acc s e) ∙ h))
  | inr (inr (n, m)) ↦
      ClosedHere-more (suc depth) (suc depth) c acc s (λ b. other n m)
        (scan-Read (suc (suc depth)) (acc ++ c ∷ []) s
          (sym (scan_inside (suc depth) c acc s n m) ∙ h))
]

-- The block scan returns a list of blocks exactly for the texts that are white space and balanced
-- blocks in braces, and then it returns those blocks in their order.
pub extract_blocks_iff :
    (text : Text) (bs : List Text) → (extract_blocks text ≡ ok bs) ↔ Framed text bs
unfolding extract_blocks
extract_blocks_iff text bs = (scan-Read zero [] text, scan-Framed)
