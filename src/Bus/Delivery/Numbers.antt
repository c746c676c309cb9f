-- ===== src/Bus/Delivery/Numbers.antt =====
-- internal/event/local.go: the live subscriptions by their numbers, and the handles of a client.
use mathlib.Core.List.{List, [], ◌∷◌, ◌++◌}
use mathlib.Core.Option.{some-injective}
use sandcode.Base.{
  ℕ, suc, ◌+◌, ◌%◌, ◌^◌, ◌≤◌, ◌<◌, ◌≡◌, refl, sym, ap, ◌∙◌, subst, Option, some, Bool, true, false,
  ◌==◌, ==_iff, ◌&&◌, str_eq, eq_iff, map, All, All-append, arith, inl, inr, Bool-cases,
}
use sandcode.Bus.{LocalSub}
use sandcode.Bus.Log.{Listed, listed, strike}
use sandcode.Bus.Delivery.{Live, with_sub, without}

pub next_lt : (n : ℕ) → suc n < 2 ^ 64 → (n + 1) % 2 ^ 64 ≡ suc n
next_lt n lt = omega (arith, lt)

pub is_other : (j n : ℕ) → j ≤ n → (j == suc n) ≡ false
is_other j n le = ground (arith, le)

pub other_is : (j n : ℕ) → j ≤ n → (suc n == j) ≡ false
other_is j n le = ground (arith, le)

pub same_number : (k : ℕ) → (k == k) ≡ true
same_number k = (==_iff k k).1 refl

pub with_sub_same :
    (k : ℕ) (s : LocalSub) (subs : ℕ → Option LocalSub) → with_sub k s subs k ≡ some s
with_sub_same k s subs = rw (same_number k) refl

pub with_sub-ids :
    (k m n : ℕ) (s : LocalSub) (subs : ℕ → Option LocalSub)
    → s.id ≡ k
    → k ≤ m
    → n ≤ m
    → ((j : ℕ) (h : LocalSub) → subs j ≡ some h → (h.id ≡ j) × (j ≤ n))
    → (j : ℕ) (h : LocalSub) → with_sub k s subs j ≡ some h
    → (h.id ≡ j) × (j ≤ m)
with_sub-ids k m n s subs e le lt ids j h f = elim (Bool-cases (j == k)) [
  | inl y ↦
      let here : some s ≡ some h = rw y at f in
      let same : s ≡ h = some-injective s h here in
      let at_k : j ≡ k = (==_iff j k).0 y in
      (sym (ap (λ (x : LocalSub). x.id) same) ∙ e ∙ sym at_k, omega (arith, at_k, le))
  | inr o ↦
      let there : subs j ≡ some h = rw o at f in
      let old = ids j h there in (old.0, omega (arith, old.1, lt))
]

pub and_false : (x : Bool) → (x && false) ≡ false
and_false true = refl
and_false false = refl

module _ {H : Type 0} where
  -- A live subscription is an entry whose id is its number.
  abbrev pub entry_of : Live H → Listed H
  entry_of s = listed s.topic s.number s.handler

  -- Its handle names its topic and was not used.
  abbrev pub IsHeld : (ℕ → Option LocalSub) → ℕ → Live H → Type 0
  IsHeld subs n s =
      (s.number ≤ n)
      × (h : LocalSub) × (subs s.number ≡ some h)
      × (h.typ ≡ s.topic)
      × (h.once ≡ false)

  abbrev pub IsOther : ℕ → Live H → Type 0
  IsOther k s = (s.number == k) ≡ false

  abbrev pub HasDistinct : List (Live H) → Type 0
  HasDistinct [] = Unit
  HasDistinct (s ∷ live) = All (IsOther s.number) live × HasDistinct live

  pub without-absent : (k : ℕ) (live : List (Live H)) → All (IsOther k) live → without k live ≡ live
  unfolding without
  without-absent k [] h = refl
  without-absent k (s ∷ live) h = rw (h.0, without-absent k live h.1) refl

  -- What stays is not the one that is taken out.
  pub without-All :
      (P : Live H → Type 0) (k : ℕ) (live : List (Live H))
      → All P live
      → All (λ s. P s × IsOther k s) (without k live)
  unfolding without
  without-All P k [] h = tt
  without-All P k (s ∷ live) h = elim (Bool-cases (s.number == k)) [
    | inl y ↦ rw y (without-All P k live h.1)
    | inr n ↦ rw n ((h.0, n), without-All P k live h.1)
  ]

  pub All-to :
      {P Q : Live H → Type 0} (f : (s : Live H) → P s → Q s) (live : List (Live H))
      → All P live
      → All Q live
  All-to f [] h = tt
  All-to f (s ∷ live) h = (f s h.0, All-to f live h.1)

  pub without-HasDistinct :
      (k : ℕ) (live : List (Live H)) → HasDistinct live → HasDistinct (without k live)
  unfolding without
  without-HasDistinct k [] h = tt
  without-HasDistinct k (s ∷ live) h = elim (Bool-cases (s.number == k)) [
    | inl y ↦ rw y (without-HasDistinct k live h.1)
    | inr n ↦ rw n (
      All-to (λ t x. x.0) (without k live) (without-All (IsOther s.number) k live h.0),
      without-HasDistinct k live h.1,
    )
  ]

  -- Among distinct numbers, the first entry with a topic and an id is the subscription with that number.
  pub strike-without :
      (k : ℕ) (h : LocalSub) (subs : ℕ → Option LocalSub) (n : ℕ) (live : List (Live H))
      → subs k ≡ some h
      → All (IsHeld subs n) live
      → HasDistinct live
      → strike h.typ k (map entry_of live) ≡ map entry_of (without k live)
  unfolding strike without
  strike-without k h subs n [] e held d = refl
  strike-without k h subs n (s ∷ live) e held d = elim (Bool-cases (s.number == k)) [
    | inl y ↦
        let (le, g, f, t, o) = held.0 in
        let same : s.number ≡ k = (==_iff s.number k).0 y in
        let handle : h ≡ g = some-injective h g (sym e ∙ ap subs (sym same) ∙ f) in
        let topic : str_eq s.topic h.typ ≡ true =
          (eq_iff s.topic h.typ).1 (sym (ap (λ (x : LocalSub). x.typ) handle ∙ t)) in
        rw (topic, y)
          (ap (map entry_of)
            (sym (without-absent k live (subst (λ i. All (IsOther i) live) same d.0))))
    | inr m ↦
        rw (m, and_false (str_eq s.topic h.typ))
          (ap (λ l. entry_of s ∷ l) (strike-without k h subs n live e held.1 d.1))
  ]

  pub IsHeld-without :
      (k : ℕ) (h : LocalSub) (subs : ℕ → Option LocalSub) (n : ℕ) (live : List (Live H))
      → All (λ s. IsHeld subs n s × IsOther k s) live
      → All (IsHeld (with_sub k h subs) n) live
  IsHeld-without k h subs n live =
      All-to (λ s x. let (le, g, e, t, o) = x.0 in (le, g, rw x.1 e, t, o)) live

  pub distinct_snoc :
      (s : Live H) (live : List (Live H))
      → HasDistinct live
      → All (λ (t : Live H). (s.number == t.number) ≡ false) live
      → HasDistinct (live ++ s ∷ [])
  distinct_snoc s [] d a = (tt, tt)
  distinct_snoc s (t ∷ live) d a =
      (All-append (IsOther t.number) live (s ∷ []) d.0 (a.0, tt), distinct_snoc s live d.1 a.1)

  pub map-snoc :
      (s : Live H) (live : List (Live H))
      → map entry_of (live ++ s ∷ []) ≡ map entry_of live ++ entry_of s ∷ []
  map-snoc s [] = refl
  map-snoc s (t ∷ live) = ap (λ l. entry_of t ∷ l) (map-snoc s live)

  -- A handle that is used up, or that nobody has, is no live subscription's.
  pub used_up :
      (k : ℕ) (subs : ℕ → Option LocalSub) (n : ℕ) (live : List (Live H))
      → ((g : LocalSub) → subs k ≡ some g → ¬ (g.once ≡ false))
      → All (IsHeld subs n) live
      → All (IsOther k) live
  used_up k subs n live unused =
      All-to
        (λ s x. elim (Bool-cases (s.number == k)) [
          | inl y ↦
              let (le, g, e, t, o) = x in
              absurd (unused g (ap subs (sym ((==_iff s.number k).0 y)) ∙ e) o)
          | inr m ↦ m
        ])
        live
