-- ===== src/Bus/Delivery/Result.antt =====
-- internal/event/local.go: what is delivered after any operations.
use mathlib.Core.List.{List, [], ◌∷◌, ◌++◌}
use sandcode.Base.{
  ℕ, suc, ◌+◌, ◌^◌, ◌<◌, ◌≡◌, refl, ap, ◌∙◌, String, false, str_eq, map, length, arith, inl, inr,
  Bool-cases,
}
use sandcode.Bus.{publish, new_local_bus}
use sandcode.Bus.Log.{on, new-Refines, publish-Refines}
use sandcode.Bus.Delivery.{
  Op, subscribed, cancelled, closed, Client, Live, run, new_client, remaining, standing,
}
use sandcode.Bus.Delivery.Numbers.{entry_of}
use sandcode.Bus.Delivery.Handles.{Inv, subscribed-Inv, cancelled-Inv, closed-Inv}

module _ {H : Type 0} where
  on-standing :
      (topic : String) (live : List (Live H))
      → map (λ e. e.handler) (on topic (map entry_of live)) ≡ standing topic live
  unfolding on standing
  on-standing topic [] = refl
  on-standing topic (s ∷ live) = elim (Bool-cases (str_eq s.topic topic)) [
    | inl y ↦ rw y (ap (λ l. s.handler ∷ l) (on-standing topic live))
    | inr n ↦ rw n (on-standing topic live)
  ]

  Inv-Delivers :
      (typ : String) (c : Client H) (n : ℕ) (live : List (Live H))
      → str_eq typ "*" ≡ false
      → Inv c n live
      → publish typ c.bus ≡ standing typ live ++ standing "*" live
  Inv-Delivers typ c n live named v =
      publish-Refines typ c.bus (map entry_of live) named v.refines
      ∙ ap (λ l. l ++ map (λ e. e.handler) (on "*" (map entry_of live))) (on-standing typ live)
      ∙ ap (λ l. standing typ live ++ l) (on-standing "*" live)

  run-delivers :
      (typ : String) (ops : List (Op H)) (c : Client H) (n : ℕ) (live : List (Live H))
      → str_eq typ "*" ≡ false
      → n + length ops < 2 ^ 64
      → Inv c n live
      → publish typ (run ops c).bus
        ≡ standing typ (remaining ops n live) ++ standing "*" (remaining ops n live)
  unfolding run remaining
  run-delivers typ [] c n live named lt v = Inv-Delivers typ c n live named v
  run-delivers typ (subscribed t h ∷ ops) c n live named lt v =
      run-delivers typ ops _ (suc n) _ named (omega (arith, lt))
        (subscribed-Inv t h c n live v (omega (arith, lt)))
  run-delivers typ (cancelled k ∷ ops) c n live named lt v =
      run-delivers typ ops _ n _ named (omega (arith, lt)) (cancelled-Inv k c n live v)
  run-delivers typ (closed ∷ ops) c n live named lt v =
      run-delivers typ ops _ n _ named (omega (arith, lt)) (closed-Inv c n live v)

  new-Inv : Inv {H = H} new_client 0 []
  unfolding new_client new_local_bus
  new-Inv = record {
    refines = unfold new_local_bus in new-Refines;
    counted = refl;
    made = refl;
    ids = λ k h e. cc;
    held = tt;
    distinct = tt;
  }

  -- After any subscriptions, cancellations and closings of a new bus, fewer than 2^64 in all, an event is handed to
  -- the handlers that stand for its type, and then to those that stand for all types, in the order of their
  -- subscriptions. A handler stands from its subscription until that very subscription is cancelled, by what the
  -- client was given for it, or the bus is closed.
  pub run-publish :
      (ops : List (Op H)) (typ : String)
      → str_eq typ "*" ≡ false
      → length ops < 2 ^ 64
      → let live = remaining ops 0 [] in
        publish typ (run ops new_client).bus ≡ standing typ live ++ standing "*" live
  run-publish ops typ named lt =
      run-delivers typ ops new_client 0 [] named (omega (arith, lt)) new-Inv
