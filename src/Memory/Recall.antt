-- ===== src/Memory/Recall.antt =====
-- internal/memory: how much a recall gives, and when it fails.
use sandcode.Base.{
  ℕ, zero, suc, ◌+◌, ◌-◌, ◌*◌, ◌≤◌, ◌<◌, ◌≡◌, refl, sym, ◌⊎◌, inl, inr, List, [], ◌∷◌, false, ◌==◌,
  length, length-append, All, arith, Bool-cases,
}
use native.Mathlib.Nat.{div-add-mod}
use sandcode.Base.Bytes.{Bytes}
use sandcode.Base.Int.{ℤ, pos, negsuc}
use sandcode.Memory.{
  Item, Answer, items, failure, Tier, limit_or_default, per_tier, ask_tiers, recall,
}

limit_positive : (limit : ℤ) → 0 < limit_or_default limit
unfolding limit_or_default
limit_positive (pos zero) = omega arith
limit_positive (pos (suc n)) = omega arith
limit_positive (negsuc n) = omega arith

share_fits : (limit n : ℕ) → 0 < n → 0 < limit → n * per_tier limit n < limit + n
unfolding per_tier
share_fits limit n h g = omega (arith, div-add-mod (limit + n - 1) n, h, g)

module _ {Error : Type 0} where
  -- A tier that keeps the contract of `Recall`: no more than the limit.
  abbrev pub KeepsLimit : Tier Error → Type 0
  KeepsLimit t = (prompt : Bytes) (n : ℕ) (xs : List Item) → t prompt n ≡ items xs → length xs ≤ n

  abbrev Answers : Tier Error → Bytes → ℕ → Type 0
  Answers t prompt n = (xs : List Item) × (t prompt n ≡ items xs)

  answer-cases :
      (a : Answer Error) → ((xs : List Item) × (a ≡ items xs)) ⊎ ((e : Error) × (a ≡ failure e))
  answer-cases (items xs) = inl (xs, refl)
  answer-cases (failure e) = inr (e, refl)

  ask_tiers-counts :
      (prompt : Bytes) (n : ℕ) (tiers : List (Tier Error))
      → All KeepsLimit tiers
      → (length (ask_tiers prompt n tiers).1 ≤ length tiers)
        × (length (ask_tiers prompt n tiers).0 + n * length (ask_tiers prompt n tiers).1
            ≤ n * length tiers)
  unfolding ask_tiers
  ask_tiers-counts prompt n [] k = omega arith
  ask_tiers-counts prompt n (t ∷ tiers) k =
      let (short, rest) = ask_tiers-counts prompt n tiers k.1 in
      elim (answer-cases (t prompt n)) [
        | inl (xs, e) ↦ rw e (
          omega (arith, short),
          grind (arith, rest, k.0 prompt n xs e, length-append xs (ask_tiers prompt n tiers).0),
        )
        | inr (x, e) ↦ rw e (omega (arith, short), grind (arith, rest))
      ]

  -- A recall which comes to an answer gives fewer items than the limit, where 10 stands for a limit that is not
  -- positive, and one more for each tier, if each tier keeps to the limit it is given.
  pub recall-limited :
      (tiers : List (Tier Error)) (prompt : Bytes) (limit : ℤ) (out : List Item)
      → All KeepsLimit tiers
      → recall tiers prompt limit ≡ inl out
      → length out < limit_or_default limit + length tiers
  unfolding recall ask_tiers
  recall-limited [] prompt limit out k e =
      let same : [] ≡ out = cc in rw (sym same) (omega (arith, limit_positive limit))
  recall-limited (t ∷ ts) prompt limit out k e =
      let n = suc (length ts) in
      let share = per_tier (limit_or_default limit) n in
      let (short, counts) = ask_tiers-counts prompt share (t ∷ ts) k in
      let fits = share_fits (limit_or_default limit) n (omega arith) (limit_positive limit) in
      let some_left : (length (t ∷ ts) == 0) ≡ false = ground arith in
      elim (Bool-cases (length (ask_tiers prompt share (t ∷ ts)).1 == n)) [
        | inl y ↦
            let other : inr (ask_tiers prompt share (t ∷ ts)).1 ≡ inl out =
              rw (some_left, y) at e in
            cc
        | inr z ↦
            let same : inl (ask_tiers prompt share (t ∷ ts)).0 ≡ inl out = rw (some_left, z) at e in
            let out' : (ask_tiers prompt share (t ∷ ts)).0 ≡ out = cc in
            rw (sym out') (grind (arith, counts, fits))
      ]
