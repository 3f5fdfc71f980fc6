-- ===== src/Tap/Proxy/Client/Fallback.antt =====
-- When the fallback for TLS is asked for.
use acars_printer.Prelude.{
  ℕ, zero, suc, ◌+◌, ◌<◌, ◌≡◌, refl, ap, ◌∙◌, max, leb, Bool, true, false, Option, none, some, List,
  [], ◌∷◌, if◌then◌else◌, arith, Bool-cases, inl, inr,
}
use acars_printer.Tap.Proxy.Client.{TlsState, tls_failed}

called : Option ℕ → List ℕ → List ℕ
called none calls = calls
called (some n) calls = n ∷ calls

-- The calls of the callback over that many failures in a row.
unfoldable pub fallback_calls : ℕ → ℕ → TlsState → List ℕ
unfolding called
fallback_calls limit zero s = []
fallback_calls limit (suc n) s =
    let (after, call) = tls_failed limit s in called call (fallback_calls limit n after)

abbrev failures_so_far : ℕ → Bool → TlsState
failures_so_far k armed = record { tls_failures = k; fallback_armed = armed }

armed_is_quiet : (limit n k : ℕ) → fallback_calls limit n (failures_so_far k true) ≡ []
unfolding fallback_calls tls_failed
armed_is_quiet limit zero k = refl
armed_is_quiet limit (suc n) k = armed_is_quiet limit n (k + 1)

calls_from :
    (limit n k : ℕ)
    → k < max 1 limit
    → fallback_calls limit n (failures_so_far k false)
      ≡ (if leb (max 1 limit) (k + n) then max 1 limit ∷ [] else [])
unfolding fallback_calls tls_failed
calls_from limit zero k h =
    let below : leb (max 1 limit) (k + 0) ≡ false = ground arith in rw below refl
calls_from limit (suc n) k h = elim (Bool-cases (leb (max 1 limit) (k + 1))) [
  | inl e ↦
      let reached : leb (max 1 limit) (k + suc n) ≡ true = ground arith in
      let exact : k + 1 ≡ max 1 limit = ground arith in
      rw (e, reached) (ap (◌∷◌ (k + 1)) (armed_is_quiet limit n (k + 1)) ∙ ap (λ m. m ∷ []) exact)
  | inr e ↦
      let shift : k + 1 + n ≡ k + suc n = omega arith in
      rw e (
        calls_from limit n (k + 1) (ground arith)
        ∙ ap (λ m. if leb (max 1 limit) m then max 1 limit ∷ [] else []) shift)
]

-- From a start with no failures, the callback is called once, with the limit, which is at least one,
-- when that many handshakes failed; and before that it is not called.
pub fallback_once :
    (limit n : ℕ)
    → fallback_calls limit n record { tls_failures = 0; fallback_armed = false }
      ≡ (if leb (max 1 limit) n then max 1 limit ∷ [] else [])
fallback_once limit n =
    calls_from limit n 0 (omega arith)
    ∙ ap (λ m. if leb (max 1 limit) m then max 1 limit ∷ [] else []) (omega arith)
