-- ===== src/Bus/Delivery/Handles.antt =====
-- internal/event/local.go: `Cancel` reaches the subscription it was given for, and no other.
use mathlib.Core.List.{List, [], ◌∷◌, ◌++◌}
use mathlib.Core.Option.{some-injective}
use sandcode.Base.{
  ℕ, suc, ◌^◌, ◌≤◌, ◌<◌, ◌≡◌, refl, sym, ap, ◌∙◌, subst, String, Option, none, some, false, str_eq,
  map, All, All-append, arith, inl, inr, Bool-cases, if◌then◌else◌,
}
use sandcode.Base.Dict.{lookup}
use sandcode.Bus.{
  SubEntry, LocalBus, LocalSub, next_id, subscribe, close, cancel, remove_sub, remove_found,
}
use sandcode.Bus.Log.{listed, strike, Refines, subscribe-Refines, cancel-Refines, close-Refines}
use sandcode.Bus.Delivery.{
  subscribed, cancelled, closed, Client, Live, with_sub, after_cancel, cancel_sub, perform, without,
}
use sandcode.Bus.Delivery.Numbers.{
  next_lt, is_other, other_is, with_sub_same, with_sub-ids, without-absent, without-All, All-to,
  without-HasDistinct, strike-without, IsHeld-without, distinct_snoc, map-snoc, used_up, entry_of,
  IsHeld, HasDistinct,
}

module _ {H : Type 0} where
  pub record Inv (c : Client H) (n : ℕ) (live : List (Live H)) : Type 0 where
    pub refines : Refines c.bus (map entry_of live)
    pub counted : c.bus.seq ≡ n
    pub made : c.made ≡ n
    pub ids : (k : ℕ) (h : LocalSub) → c.subs k ≡ some h → (h.id ≡ k) × (k ≤ n)
    pub held : All (IsHeld c.subs n) live
    pub distinct : HasDistinct live

  number_of : (b : LocalBus H) (n : ℕ) → b.seq ≡ n → suc n < 2 ^ 64 → next_id b.seq ≡ suc n
  number_of b n e lt = ap next_id e ∙ next_lt n lt

  subscribe_seq :
      (typ : String) (h : H) (b : LocalBus H) → (subscribe typ h b).0.seq ≡ next_id b.seq
  unfolding subscribe
  subscribe_seq typ h b = ground arith

  given_id : (typ : String) (h : H) (b : LocalBus H) → (subscribe typ h b).1.id ≡ next_id b.seq
  unfolding subscribe
  given_id typ h b = refl

  given_topic : (typ : String) (h : H) (b : LocalBus H) → (subscribe typ h b).1.typ ≡ typ
  unfolding subscribe
  given_topic typ h b = refl

  given_once : (typ : String) (h : H) (b : LocalBus H) → (subscribe typ h b).1.once ≡ false
  unfolding subscribe
  given_once typ h b = refl

  pub subscribed-Inv :
      (typ : String) (h : H) (c : Client H) (n : ℕ) (live : List (Live H))
      → Inv c n live
      → suc n < 2 ^ 64
      → Inv
          (perform (subscribed typ h) c)
          (suc n)
          (live ++ record { number = suc n; topic = typ; handler = h } ∷ [])
  unfolding perform
  subscribed-Inv typ h c n live v lt =
      let s : Live H = record { number = suc n; topic = typ; handler = h } in
      let id = number_of c.bus n v.counted lt in
      record {
        refines =
            subst (λ l. Refines (subscribe typ h c.bus).0 l)
              (ap (λ i. map entry_of live ++ listed typ i h ∷ []) id ∙ sym (map-snoc s live))
              (subscribe-Refines c.bus (map entry_of live) typ h v.refines);
        counted = subscribe_seq typ h c.bus ∙ id;
        made = ap suc v.made;
        ids =
            with_sub-ids (suc c.made) (suc n) n (subscribe typ h c.bus).1 c.subs
              (given_id typ h c.bus ∙ id ∙ ap suc (sym v.made)) (omega (arith, v.made))
              (omega arith) v.ids;
        held =
            All-append _ live (s ∷ [])
              (All-to
                (λ t x.
                  let (le, g, e, m, o) = x in
                  (
                    omega (arith, le),
                    g,
                    rw (is_other t.number c.made (omega (arith, le, v.made))) e,
                    m,
                    o,
                  ))
                live v.held)
              (
                (
                  omega arith,
                  (subscribe typ h c.bus).1,
                  ap (with_sub (suc c.made) (subscribe typ h c.bus).1 c.subs) (ap suc (sym v.made))
                      ∙ with_sub_same (suc c.made) (subscribe typ h c.bus).1 c.subs,
                  given_topic typ h c.bus,
                  given_once typ h c.bus,
                ),
                tt,
              );
        distinct =
            distinct_snoc s live v.distinct (All-to (λ t x. other_is t.number n x.0) live v.held);
      }

  pub closed-Inv :
      (c : Client H) (n : ℕ) (live : List (Live H)) → Inv c n live → Inv (perform closed c) n []
  unfolding perform close
  closed-Inv c n live v = record {
    refines = unfold close in close-Refines c.bus;
    counted = v.counted;
    made = v.made;
    ids = v.ids;
    held = tt;
    distinct = tt;
  }

  cancelled_with :
      (k n : ℕ) (s : LocalSub) (b : LocalBus H) (c : Client H) (live : List (Live H))
      → Inv c n live
      → k ≤ n
      → s.id ≡ k
      → b.seq ≡ c.bus.seq
      → Refines b (map entry_of (without k live))
      → Inv (after_cancel k (s, b) c) n (without k live)
  cancelled_with k n s b c live v le e seq r = record {
    refines = r;
    counted = seq ∙ v.counted;
    made = v.made;
    ids = with_sub-ids k n n s c.subs e le (omega arith) v.ids;
    held =
        IsHeld-without k s c.subs n (without k live) (without-All (IsHeld c.subs n) k live v.held);
    distinct = without-HasDistinct k live v.distinct;
  }

  remove_sub_seq : (typ : String) (id : ℕ) (b : LocalBus H) → (remove_sub typ id b).seq ≡ b.seq
  unfolding remove_sub
  remove_sub_seq typ id b = elim (Bool-cases (str_eq typ "*")) [
    | inl y ↦ rw y refl
    | inr n ↦ rw n (found_seq (lookup typ b.subs))
  ]
    where
      found_seq : (o : Option (List (SubEntry H))) → (remove_found typ id b o).seq ≡ b.seq
      found_seq none = refl
      found_seq (some es) = refl

  cancel_seq : (s : LocalSub) (b : LocalBus H) → (cancel s b).1.seq ≡ b.seq
  unfolding cancel
  cancel_seq s b = ground (arith, remove_sub_seq s.typ s.id b)

  cancel_id : (s : LocalSub) (b : LocalBus H) → (cancel s b).0.id ≡ s.id
  unfolding cancel
  cancel_id s b = ground arith

  cancel-without :
      (k n : ℕ) (s : LocalSub) (c : Client H) (live : List (Live H))
      → Inv c n live
      → c.subs k ≡ some s
      → (if s.once then map entry_of live else strike s.typ s.id (map entry_of live))
        ≡ map entry_of (without k live)
  cancel-without k n s c live v e = elim (Bool-cases s.once) [
    | inl y ↦ rw y (
        ap (map entry_of) (
          sym (
            without-absent k live (
              used_up k c.subs n live
                (λ g f o.
                  let same : s ≡ g = some-injective s g (sym e ∙ f) in
                  let clash : s.once ≡ false = ap (λ (x : LocalSub). x.once) same ∙ o in cc)
                v.held))))
    | inr m ↦ rw (m, (v.ids k s e).0) (strike-without k s c.subs n live e v.held v.distinct)
  ]

  cancel_sub-Inv :
      (k n : ℕ) (o : Option LocalSub) (c : Client H) (live : List (Live H))
      → Inv c n live
      → c.subs k ≡ o
      → Inv (cancel_sub k o c) n (without k live)
  cancel_sub-Inv k n none c live v e =
      subst (λ l. Inv c n l)
        (sym (
          without-absent k live
            (used_up k c.subs n live (λ g f o. none-is_some g (sym e ∙ f)) v.held)))
        v
    where
      none-is_some : (g : LocalSub) → ¬ (none ≡ some g)
      none-is_some g h = cc
  cancel_sub-Inv k n (some s) c live v e =
      let own = v.ids k s e in
      cancelled_with k n (cancel s c.bus).0 (cancel s c.bus).1 c live v own.1
        (cancel_id s c.bus ∙ own.0) (cancel_seq s c.bus)
        (subst (λ l. Refines (cancel s c.bus).1 l) (cancel-without k n s c live v e)
          (cancel-Refines s c.bus (map entry_of live) v.refines))

  pub cancelled-Inv :
      (k : ℕ) (c : Client H) (n : ℕ) (live : List (Live H))
      → Inv c n live
      → Inv (perform (cancelled k) c) n (without k live)
  unfolding perform
  cancelled-Inv k c n live v = cancel_sub-Inv k n (c.subs k) c live v refl
