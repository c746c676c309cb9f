-- ===== src/Approval/Delivery.antt =====
-- internal/approval/approval.go: the send of a decision never blocks.
use mathlib.Core.List.{Memᴰ}
use mathlib.Core.List.Memᴰ
use mathlib.Core.Option.{some-injective}
use sandcode.Base.{
  ◌≢◌, ℕ, ◌+◌, ◌≤◌, ◌<◌, ◌≡◌, refl, ap, ◌∙◌, inl, inr, List, [], ◌∷◌, ◌++◌, Option, none, some,
  String, Bool, true, false, ◌==◌, if◌then◌else◌, Bool-cases, Option-cases, arith, str_eq,
}
use sandcode.Base.Dict.{Dict, lookup, put, delete}
use sandcode.Approval.{
  Decision, Registry, new_registry, set_buffer, registered, request_approval, claimed, resolve,
  send, receive, expire, clean_up, Step, requested, resolved, sent, received, expired, cleaned,
  Reach, at_start, after,
}

-- How often a channel is registered, and how often a call is about to send on it.
registrations : ℕ → Dict ℕ → ℕ
registrations ch [] = 0
registrations ch ((k, c) ∷ m) = (if c == ch then 1 else 0) + registrations ch m

sends : ℕ → List (ℕ × Decision) → ℕ
sends ch [] = 0
sends ch ((c, d) ∷ xs) = (if c == ch then 1 else 0) + sends ch xs

sends-append :
    (ch : ℕ) (xs ys : List (ℕ × Decision)) → sends ch (xs ++ ys) ≡ sends ch xs + sends ch ys
unfolding sends
sends-append ch [] ys = omega arith
sends-append ch ((c, d) ∷ xs) ys = omega (arith, sends-append ch xs ys)

full : Option Decision → ℕ
full none = 0
full (some d) = 1

registrations-delete :
    (ch : ℕ) (k : String) (m : Dict ℕ) → registrations ch (delete k m) ≤ registrations ch m
unfolding registrations delete
registrations-delete ch k [] = omega arith
registrations-delete ch k ((j, c) ∷ m) = ground (arith, registrations-delete ch k m)

-- Taking the entry of an id takes a registration of its channel.
registrations-taken :
    (ch : ℕ) (k : String) (m : Dict ℕ)
    → lookup k m ≡ some ch
    → registrations ch (delete k m) < registrations ch m
unfolding registrations delete lookup
registrations-taken ch k [] h = absurd cc
registrations-taken ch k ((j, c) ∷ m) h = elim (Bool-cases (str_eq j k)) [
  | inl y ↦
      let same : c ≡ ch = some-injective c ch (rw (y, lookup) at h) in
      ground (arith, y, same, registrations-delete ch k m)
  | inr n ↦ ground (arith, n, registrations-taken ch k m (rw (n, lookup) at h))
]

-- What is on its way to a channel, or in it.
load : ℕ → Registry → ℕ
load ch s = registrations ch s.waiters + sends ch s.sending + full (s.buffers ch)

-- At most one decision is on its way to a channel or in it, and none to a channel not yet made.
record Inv (s : Registry) : Type 0 where
  once : (ch : ℕ) → load ch s ≤ 1
  unmade : (ch : ℕ) → s.channels ≤ ch → load ch s ≡ 0

-- A step that makes no channel and adds nothing to the load keeps the invariant.
Inv-lighter :
    (s t : Registry) → t.channels ≡ s.channels → ((ch : ℕ) → load ch t ≤ load ch s) → Inv s → Inv t
Inv-lighter s t same lighter h = record {
  once = λ ch. omega (arith, lighter ch, h.once ch);
  unmade = λ ch le. omega (arith, lighter ch, h.unmade ch (omega (arith, le, same)));
}

Inv-start : Inv new_registry
unfolding new_registry registrations sends full load
Inv-start = record { once = λ ch. omega arith; unmade = λ ch h. omega arith }

load-registered :
    (run_id : String) (s : Registry) (ch : ℕ)
    → load ch (registered run_id s) ≤ (if s.channels == ch then 1 else 0) + load ch s
unfolding load registrations put
load-registered run_id s ch = omega (arith, registrations-delete ch run_id s.waiters)

Inv-registered : (run_id : String) (s : Registry) → Inv s → Inv (registered run_id s)
Inv-registered run_id s h = record {
  once = λ ch. ground (arith, load-registered run_id s ch, h.once ch, h.unmade ch);
  unmade =
      λ ch le. ground (arith, le, load-registered run_id s ch, h.unmade ch (omega (arith, le)));
}

Inv-request : (run_id : String) (s : Registry) → Inv s → Inv (request_approval run_id s).0
unfolding request_approval
Inv-request run_id s h = elim (Option-cases (lookup run_id s.waiters)) [
  | inl e ↦ rw (e, request_approval) (Inv-registered run_id s h)
  | inr (ch, e) ↦ rw (e, request_approval) h
]

load-claimed :
    (run_id : String) (c : ℕ) (d : Decision) (s : Registry) (ch : ℕ)
    → lookup run_id s.waiters ≡ some c
    → load ch (claimed run_id c d s) ≤ load ch s
unfolding load sends
load-claimed run_id c d s ch e =
    ground
      (arith, registrations-delete ch run_id s.waiters, registrations-taken c run_id s.waiters e)

Inv-resolve : (run_id : String) (d : Decision) (s : Registry) → Inv s → Inv (resolve run_id d s).0
unfolding resolve
Inv-resolve run_id d s h = elim (Option-cases (lookup run_id s.waiters)) [
  | inl e ↦ rw (e, resolve) h
  | inr (c, e) ↦
      rw (e, resolve)
        (Inv-lighter s (claimed run_id c d s) refl (λ ch. load-claimed run_id c d s ch e) h)
]

-- What a call is about to send is not yet in the channel.
sends-here :
    (xs ys : List (ℕ × Decision)) (c ch : ℕ) (d : Decision)
    → sends ch (xs ++ (c, d) ∷ ys) ≡ (if c == ch then 1 else 0) + sends ch (xs ++ ys)
unfolding sends
sends-here xs ys c ch d = omega (arith, sends-append ch xs ((c, d) ∷ ys), sends-append ch xs ys)

full-le : (o : Option Decision) → full o ≤ 1
unfolding full
full-le none = omega arith
full-le (some d) = omega arith

full-set :
    (c ch : ℕ) (v : Option Decision) (buffers : ℕ → Option Decision)
    → full (set_buffer c v buffers ch) ≡ (if ch == c then full v else full (buffers ch))
unfolding set_buffer
full-set c ch v buffers = go (ch == c)
  where
    go : (b : Bool) → full (if b then v else buffers ch) ≡ (if b then full v else full (buffers ch))
    go true = refl
    go false = refl

Inv-Step : {s t : Registry} → Inv s → Step s t → Inv t
Inv-Step h (requested run_id) = Inv-request run_id _ h
Inv-Step h (resolved run_id d) = Inv-resolve run_id d _ h
Inv-Step {s} h (sent xs ys c d e) =
    Inv-lighter s (send xs c d ys s) (unfold send in refl)
      (λ ch.
        unfold send load full in
        ground (arith, ap (sends ch) e, sends-here xs ys c ch d, full-set c ch (some d) s.buffers))
      h
Inv-Step {s} h (received xs ys run_id c d e f) =
    Inv-lighter s (receive xs run_id c ys s) (unfold receive in refl)
      (λ ch. unfold receive load full in ground (arith, full-set c ch none s.buffers)) h
Inv-Step {s} h (expired xs ys run_id c e) =
    Inv-lighter s (expire xs run_id ys s) (unfold expire in refl)
      (λ ch. unfold expire load in omega arith) h
Inv-Step {s} h (cleaned xs ys run_id e) =
    Inv-lighter s (clean_up xs run_id ys s) (unfold clean_up in refl)
      (λ ch. unfold clean_up load in omega (arith, registrations-delete ch run_id s.waiters)) h

Reach-Inv : {s : Registry} → Reach s → Inv s
Reach-Inv at_start = Inv-start
Reach-Inv (after r step) = Inv-Step (Reach-Inv r) step

full-none : (o : Option Decision) → full o ≡ 0 → o ≡ none
unfolding full
full-none none h = refl
full-none (some d) h = absurd (omega (arith, h))

sends-none :
    (ch : ℕ) (xs : List (ℕ × Decision))
    → sends ch xs ≡ 0
    → (c : ℕ) (d : Decision) → Memᴰ (c, d) xs
    → c ≢ ch
unfolding sends
sends-none ch [] h c d m = absurd (Memᴰ.not-nil m)
sends-none ch ((k, x) ∷ xs) h c d (Memᴰ.head e) = λ same. ground (arith, h, ap (λ z. z.0) e, same)
sends-none ch ((k, x) ∷ xs) h c d (Memᴰ.tail m) = sends-none ch xs (ground (arith, h)) c d m

-- Whatever the calls and their interleaving, when a `Resolve` is about to send its decision the
-- channel's buffer is empty and no other call is about to send on it, so the send does not block.
pub send-never_blocks :
    (s : Registry) (xs ys : List (ℕ × Decision)) (ch : ℕ) (d : Decision)
    → Reach s
    → s.sending ≡ xs ++ (ch, d) ∷ ys
    → (s.buffers ch ≡ none) × ((c : ℕ) (d' : Decision) → Memᴰ (c, d') (xs ++ ys) → c ≢ ch)
send-never_blocks s xs ys ch d r e =
    let h = Reach-Inv r in
    let one = ap (sends ch) e ∙ sends-here xs ys ch ch d in
    (
      full-none (s.buffers ch) (unfold load in ground (arith, h.once ch, one)),
      sends-none ch (xs ++ ys) (unfold load in ground (arith, h.once ch, one)),
    )
