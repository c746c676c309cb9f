-- ===== src/Approval.antt =====
-- internal/approval/approval.go: the registry, as the steps that its calls take one at a time.
pub mod Delivery
mod Tests
use sandcode.Base.{
  ℕ, suc, ◌+◌, ◌≡◌, refl, List, [], ◌∷◌, ◌++◌, Option, none, some, String, Bool, true, false, ◌==◌,
  if◌then◌else◌,
}
use sandcode.Base.Dict.{Dict, lookup, put, delete}

pub record Decision : Type 0 where
  pub approved : Bool
  pub approver : String
  pub reason : String

-- `channels` counts the channels that were made, which are numbered; `buffers` holds what each holds.
-- `waiting` are the calls of RequestApproval in their select; `leaving` those past it, which have yet
-- to run their deferred delete; `sending` the calls of Resolve that have taken a channel.
pub record Registry : Type 0 where
  pub waiters : Dict ℕ
  pub channels : ℕ
  pub buffers : ℕ → Option Decision
  pub waiting : List (String × ℕ)
  pub leaving : List String
  pub sending : List (ℕ × Decision)

unfoldable pub new_registry : Registry
new_registry = record {
  waiters = [];
  channels = 0;
  buffers = λ _. none;
  waiting = [];
  leaving = [];
  sending = [];
}

unfoldable pub set_buffer : ℕ → Option Decision → (ℕ → Option Decision) → ℕ → Option Decision
set_buffer ch v buffers c = if c == ch then v else buffers c

-- The first critical section of RequestApproval, with the new channel; `none` for ErrAlreadyWaiting.
abbrev pub registered : String → Registry → Registry
registered run_id s = record s {
  waiters = put run_id s.channels s.waiters;
  channels = s.channels + 1;
  waiting = (run_id, s.channels) ∷ s.waiting;
}

unfoldable pub request_approval : String → Registry → Registry × Option ℕ
unfolding lookup put
request_approval run_id s = elim (lookup run_id s.waiters) [
  | some _ ↦ (s, none)
  | none ↦ (registered run_id s, some s.channels)
]

-- The critical section of Resolve, and its result.
abbrev pub claimed : String → ℕ → Decision → Registry → Registry
claimed run_id ch d s = record s {
  waiters = delete run_id s.waiters;
  sending = (ch, d) ∷ s.sending;
}

unfoldable pub resolve : String → Decision → Registry → Registry × Bool
unfolding lookup delete
resolve run_id d s = elim (lookup run_id s.waiters) [
  | none ↦ (s, false)
  | some ch ↦ (claimed run_id ch d s, true)
]

-- `ch <- d` of the call that stands between xs and ys.
unfoldable pub send : List (ℕ × Decision) → ℕ → Decision → List (ℕ × Decision) → Registry → Registry
unfolding set_buffer
send xs ch d ys s = record s { buffers = set_buffer ch (some d) s.buffers; sending = xs ++ ys }

-- `<-ch`, which empties the buffer, and `<-ctx.Done()`.
unfoldable pub receive : List (String × ℕ) → String → ℕ → List (String × ℕ) → Registry → Registry
unfolding set_buffer
receive xs run_id ch ys s = record s {
  buffers = set_buffer ch none s.buffers;
  waiting = xs ++ ys;
  leaving = run_id ∷ s.leaving;
}

unfoldable pub expire : List (String × ℕ) → String → List (String × ℕ) → Registry → Registry
expire xs run_id ys s = record s { waiting = xs ++ ys; leaving = run_id ∷ s.leaving }

-- The deferred delete.
unfoldable pub clean_up : List String → String → List String → Registry → Registry
unfolding delete
clean_up xs run_id ys s = record s { waiters = delete run_id s.waiters; leaving = xs ++ ys }

unfoldable pub pending : Dict ℕ → List String
pending [] = []
pending ((run_id, ch) ∷ m) = run_id ∷ pending m

-- One step of one call.
pub data Step (s : Registry) : Registry → Type 0 where
  requested : (run_id : String) → Step s (request_approval run_id s).0
  resolved : (run_id : String) (d : Decision) → Step s (resolve run_id d s).0
  sent :
      (xs ys : List (ℕ × Decision)) (ch : ℕ) (d : Decision)
      → s.sending ≡ xs ++ (ch, d) ∷ ys
      → Step s (send xs ch d ys s)
  received :
      (xs ys : List (String × ℕ)) (run_id : String) (ch : ℕ) (d : Decision)
      → s.waiting ≡ xs ++ (run_id, ch) ∷ ys
      → s.buffers ch ≡ some d
      → Step s (receive xs run_id ch ys s)
  expired :
      (xs ys : List (String × ℕ)) (run_id : String) (ch : ℕ)
      → s.waiting ≡ xs ++ (run_id, ch) ∷ ys
      → Step s (expire xs run_id ys s)
  cleaned :
      (xs ys : List String) (run_id : String)
      → s.leaving ≡ xs ++ run_id ∷ ys
      → Step s (clean_up xs run_id ys s)

-- The states after any interleaving of calls.
pub data Reach : Registry → Type 0 where
  at_start : Reach new_registry
  after : {s t : Registry} → Reach s → Step s t → Reach t
