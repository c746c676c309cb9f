-- ===== src/Bus/Delivery.antt =====
-- internal/event/local.go: what the bus delivers after any sequence of its operations, a client of the bus holding the
-- subscriptions that it was given.
pub mod Numbers
pub mod Handles
pub mod Result
use mathlib.Core.List.{List, [], ◌∷◌, ◌++◌}
use sandcode.Base.{
  ℕ, suc, ◌≡◌, String, Option, none, some, Bool, true, false, ◌==◌, str_eq, if◌then◌else◌,
}
use sandcode.Bus.{SubEntry, LocalBus, LocalSub, subscribe, close, cancel, new_local_bus}

-- `cancelled k` is a call of `Cancel` on what the k-th call of `Subscribe` gave, counted from 1.
pub data Op (H : Type 0) : Type 0 where
  subscribed : String → H → Op H
  cancelled : ℕ → Op H
  closed : Op H

-- The bus, how many subscriptions were made, and what each was given.
pub record Client (H : Type 0) : Type 0 where
  pub bus : LocalBus H
  pub made : ℕ
  pub subs : ℕ → Option LocalSub

-- A subscription by its number.
pub record Live (H : Type 0) : Type 0 where
  pub number : ℕ
  pub topic : String
  pub handler : H

abbrev pub with_sub : ℕ → LocalSub → (ℕ → Option LocalSub) → ℕ → Option LocalSub
with_sub k s subs j = if j == k then some s else subs j

module _ {H : Type 0} where
  abbrev pub subscribed_to : LocalBus H × LocalSub → Client H → Client H
  subscribed_to (b, s) c = record {
    bus = b;
    made = suc c.made;
    subs = with_sub (suc c.made) s c.subs;
  }

  abbrev pub after_cancel : ℕ → LocalSub × LocalBus H → Client H → Client H
  after_cancel k (s, b) c = record c { bus = b; subs = with_sub k s c.subs }

  abbrev pub cancel_sub : ℕ → Option LocalSub → Client H → Client H
  cancel_sub k none c = c
  cancel_sub k (some s) c = after_cancel k (cancel s c.bus) c

  unfoldable pub perform : Op H → Client H → Client H
  perform (subscribed typ h) c = subscribed_to (subscribe typ h c.bus) c
  perform (cancelled k) c = cancel_sub k (c.subs k) c
  perform closed c = record c { bus = close c.bus }

  unfoldable pub run : List (Op H) → Client H → Client H
  unfolding perform
  run [] c = c
  run (op ∷ ops) c = run ops (perform op c)

  unfoldable pub new_client : Client H
  new_client = record { bus = new_local_bus; made = 0; subs = λ k. none }

  -- The subscriptions that are left: a new one goes to the end, a cancelled one is taken out, closing takes all.
  unfoldable pub without : ℕ → List (Live H) → List (Live H)
  without k [] = []
  without k (s ∷ live) = let rest = without k live in if s.number == k then rest else s ∷ rest

  unfoldable pub remaining : List (Op H) → ℕ → List (Live H) → List (Live H)
  unfolding without
  remaining [] n live = live
  remaining (subscribed typ h ∷ ops) n live =
      remaining ops (suc n) (live ++ record { number = suc n; topic = typ; handler = h } ∷ [])
  remaining (cancelled k ∷ ops) n live = remaining ops n (without k live)
  remaining (closed ∷ ops) n live = remaining ops n []

  -- The handlers that stand for a topic.
  unfoldable pub standing : String → List (Live H) → List H
  standing topic [] = []
  standing topic (s ∷ live) =
      let rest = standing topic live in if str_eq s.topic topic then s.handler ∷ rest else rest
