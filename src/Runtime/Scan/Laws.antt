-- ===== src/Runtime/Scan/Laws.antt =====
-- `indexOf` finds the first occurrence, and what the payload scan returns.
use sandcode.Base.{
  ℕ, zero, suc, ◌+◌, ◌-◌, ◌≤◌, ◌<◌, ◌≡◌, refl, ◌≢◌, inl, inr, subst, List, [], ◌∷◌, ◌++◌, Option,
  none, some, true, false, arith, ◌==◌, ==_iff, ltb, ltb→lt, length, take, drop, take-append,
  Bool-cases, Option-cases, length-append,
}
use sandcode.Base.Bytes.{bytes_eq→eq, bytes_eq_refl}
use sandcode.Runtime.Scan.{
  window_eq, scan, index_of, error_key, quote, message_after, extract_error_message,
}

-- `sub` stands in `s` at place `i`.
abbrev pub At : List ℕ → List ℕ → ℕ → Type 0
At s sub i = take (length sub) (drop i s) ≡ sub

module _ (s sub : List ℕ) where
  window_eq→At : (i : ℕ) → window_eq s sub i ≡ true → At s sub i
  unfolding window_eq
  window_eq→At i h = bytes_eq→eq (take (length sub) (drop i s)) sub h

  not_window_eq→At : (i : ℕ) → window_eq s sub i ≡ false → ¬ At s sub i
  unfolding window_eq
  not_window_eq→At i h e = ground (arith, bytes_eq_refl sub, e, h)

  some_ne_none : {i : ℕ} → ◌≡◌ {A = Option ℕ} (some i) none → ⊥
  some_ne_none e = cc

  scan_here :
      (rounds : ℕ) {i k : ℕ}
      → window_eq s sub i ≡ true
      → ◌≡◌ {A = Option ℕ} (some i) (some k)
      → (i ≤ k) × (k < i + suc rounds) × At s sub k × ((j : ℕ) → i ≤ j → j < k → ¬ At s sub j)
  scan_here rounds {i} {k} hit e =
      let same : i ≡ k = cc in
      (
        omega arith,
        omega arith,
        subst (λ n. At s sub n) same (window_eq→At i hit),
        λ j l u _. absurd (omega arith),
      )

  scan_later :
      (rounds : ℕ) {i k : ℕ}
      → window_eq s sub i ≡ false
      → (i + 1 ≤ k)
        × (k < i + 1 + rounds)
        × At s sub k
        × ((j : ℕ) → i + 1 ≤ j → j < k → ¬ At s sub j)
      → (i ≤ k) × (k < i + suc rounds) × At s sub k × ((j : ℕ) → i ≤ j → j < k → ¬ At s sub j)
  scan_later rounds {i} {k} miss later = (
    omega arith,
    omega arith,
    later.2,
    λ j l u. elim (Bool-cases (j == i)) [
      | inl same ↦ rw ((==_iff j i).0 same) (not_window_eq→At i miss)
      | inr other ↦ later.3 j (ground arith) u
    ],
  )

  -- What the loop answers from place `i` on, with the rounds that are left.
  scan-some :
      (rounds i k : ℕ)
      → scan s sub rounds i ≡ some k
      → (i ≤ k) × (k < i + rounds) × At s sub k × ((j : ℕ) → i ≤ j → j < k → ¬ At s sub j)
  unfolding scan
  scan-some zero i k h = cc
  scan-some (suc rounds) i k h = elim (Bool-cases (window_eq s sub i)) [
    | inl hit ↦ scan_here rounds hit (rw hit at h)
    | inr miss ↦ scan_later rounds miss (scan-some rounds (i + 1) k (rw miss at h))
  ]

  scan-none :
      (rounds i : ℕ) → scan s sub rounds i ≡ none → (j : ℕ) → i ≤ j → j < i + rounds → ¬ At s sub j
  unfolding scan
  scan-none zero i h j l u = absurd (omega arith)
  scan-none (suc rounds) i h j l u = elim (Bool-cases (window_eq s sub i)) [
    | inl hit ↦ absurd (some_ne_none (rw hit at h))
    | inr miss ↦ elim (Bool-cases (j == i)) [
      | inl same ↦ rw ((==_iff j i).0 same) (not_window_eq→At i miss)
      | inr other ↦ scan-none rounds (i + 1) (rw miss at h) j (ground arith) (omega arith)
    ]
  ]

  index_of-scan :
      0 < length sub
      → length sub ≤ length s
      → index_of s sub ≡ scan s sub (length s - length sub + 1) 0
  unfolding index_of
  index_of-scan h l = ground arith

  index_of_short : length s < length sub → index_of s sub ≡ none
  unfolding index_of
  index_of_short l = ground arith

  -- `indexOf` of a non-empty text: an answer is the first place where it stands, and no answer means
  -- that it stands at no place where it would fit.
  pub index_of-first :
      0 < length sub
      → ((k : ℕ)
          → index_of s sub ≡ some k
          → At s sub k × (k + length sub ≤ length s) × ((j : ℕ) → j < k → ¬ At s sub j))
        × (index_of s sub ≡ none → (j : ℕ) → j + length sub ≤ length s → ¬ At s sub j)
  index_of-first h = elim (Bool-cases (ltb (length s) (length sub))) [
    | inl short ↦
        let l : length s < length sub = ltb→lt (length s) (length sub) short in
        (λ k e. cc (index_of_short l), λ e j u. absurd (omega arith))
    | inr long ↦
        let l : length sub ≤ length s = ground arith in
        (
          λ k e.
              let found = scan-some (length s - length sub + 1) 0 k (rw (index_of-scan h l) at e) in
              (found.2, omega (arith, found.1), λ j u. found.3 j (omega arith) u),
          λ e j u.
              scan-none (length s - length sub + 1) 0 (rw (index_of-scan h l) at e) j (omega arith)
                (omega arith),
        )
  ]

abbrev pub NoQuote : List ℕ → Type 0
NoQuote [] = Unit
NoQuote (b ∷ bs) = (b ≢ b'"') × NoQuote bs

no_early_quote :
    (msg rest : List ℕ) (j : ℕ)
    → NoQuote msg
    → j < length msg
    → ¬ At (msg ++ (quote ++ rest)) quote j
no_early_quote [] rest j n l e = absurd (omega arith)
no_early_quote (b ∷ bs) rest zero n l e = n.0 (ground arith)
no_early_quote (b ∷ bs) rest (suc j) n l e = no_early_quote bs rest j n.1 (omega arith) e

quote-At_end : (msg rest : List ℕ) → At (msg ++ (quote ++ rest)) quote (length msg)
quote-At_end [] rest = refl
quote-At_end (b ∷ bs) rest = quote-At_end bs rest

index_of-quote :
    (msg rest : List ℕ) → NoQuote msg → index_of (msg ++ (quote ++ rest)) quote ≡ some (length msg)
index_of-quote msg rest n =
    let text = msg ++ (quote ++ rest) in
    let (found, missing) = index_of-first text quote (omega arith) in
    elim (Option-cases (index_of text quote)) [
      | inl e ↦ absurd (
          missing e (length msg) (omega (arith, length-append {0} msg (quote ++ rest)))
            (quote-At_end msg rest))
      | inr (k, e) ↦ elim (Bool-cases (ltb k (length msg))) [
        | inl early ↦
            absurd (no_early_quote msg rest k n (ltb→lt k (length msg) early) (found k e).0)
        | inr late ↦ elim (Bool-cases (ltb (length msg) k)) [
          | inl later ↦
              absurd
                ((found k e).2 (length msg) (ltb→lt (length msg) k later) (quote-At_end msg rest))
          | inr same ↦ rw e (ground arith)
        ]
      ]
    ]

-- Where the key `"error":"` first stands at place `k`, the scan returns the bytes from behind it up to
-- the next quotation mark, escaped or not.
pub extract_error_message-first :
    (payload msg rest : List ℕ) (k : ℕ)
    → index_of payload error_key ≡ some k
    → drop (k + length error_key) payload ≡ msg ++ (quote ++ rest)
    → NoQuote msg
    → extract_error_message payload ≡ msg
unfolding extract_error_message
extract_error_message-first payload msg rest k e d n =
    let (found, missing) = index_of-first payload error_key (omega arith) in
    let nonempty : (length payload == 0) ≡ false = ground (arith, (found k e).1) in
    rw nonempty (
      rw (e, message_after)
        (rw d (rw (index_of-quote msg rest n) (take-append msg (quote ++ rest)))))
