-- ===== src/Orchestrator/Node/Attempts.antt =====
-- internal/orchestrator/dag_chain.go: how often `runNode` tries, and when it succeeds.
use sandcode.Base.{
  ℕ, zero, suc, ◌+◌, ◌-◌, ◌≤◌, ◌<◌, ◌≡◌, refl, ap, ◌∙◌, inl, inr, List, [], ◌∷◌, ◌++◌, Option, none,
  some, String, true, not, ◌||◌, arith, Bool-cases, ltb→lt,
}
use sandcode.Base.Bytes.{Bytes}
use sandcode.Base.Int.{ℤ, pos, negsuc, ltz}
use sandcode.Orchestrator.Refine.{RefineOptions, active}
use sandcode.Orchestrator.Node.{
  Execution, not_started, finished, Sandbox, NodeError, agent_error, InvocationResult, NodeResult,
  NodeEvent, node_started, node_completed, Verdict, leave, again, is_zero_exit, is_none, map_error,
  after_verify, after_agent, attempts_from, attempt_cap, invocation_succeeded, run_node,
  node_succeeded, Ran, with_event, next_attempt, report,
}

-- The events of k attempts from attempt a on.
unfoldable pub starts : ℕ → ℕ → List NodeEvent
starts a zero = []
starts a (suc k) = node_started a ∷ starts (a + 1) k

start_none : (n : ℕ) → [] ≡ starts n (n - n)
unfolding starts
start_none n = let nothing : 0 ≡ n - n = omega arith in ap (starts n) nothing

start_next : (a n : ℕ) → a < n → node_started a ∷ starts (a + 1) (n - (a + 1)) ≡ starts a (n - a)
unfolding starts
start_next a n h =
    let one_more : suc (n - (a + 1)) ≡ n - a = omega (arith, h) in ap (starts a) one_more

start_first : (n : ℕ) → 0 < n → node_started 0 ∷ starts (0 + 1) (n - (0 + 1)) ≡ starts 0 n
start_first n h = let all : n - 0 ≡ n = omega arith in start_next 0 n h ∙ ap (starts 0) all

pub cap_positive : (refine : RefineOptions) → 0 < attempt_cap refine
unfolding attempt_cap
cap_positive refine = go refine.max_attempts
  where
    go : (z : ℤ) → 0 < (elim z [ pos zero ↦ 1 | pos (suc n) ↦ suc n | negsuc n ↦ 1 ])
    go (pos zero) = omega arith
    go (pos (suc n)) = omega arith
    go (negsuc n) = omega arith

module _ {World Error : Type 0} (box : Sandbox World Error) (refine : RefineOptions)
    (original : Bytes) where
  -- Where the refine loop is on, the last command that was run is the verify command, and its exit
  -- code is 0.
  abbrev pub IsVerified : World → Type 0
  IsVerified w =
      (before : World) × (lines : List Bytes) × (err : Option Error) × (box.run_command
          refine.verify_cmd before
        ≡ (finished lines (pos 0) err, w))

  abbrev Checked : InvocationResult Error → World → Type 0
  Checked last w = invocation_succeeded last ≡ true → active refine ≡ true → IsVerified w

  -- How one attempt ends.
  data Ended (attempt : ℕ) : Verdict Error × World → Type 0 where
    left :
        {last : InvocationResult Error} {w : World} → Checked last w → Ended attempt (leave last, w)
    retried :
        {prompt : Bytes} {w : World}
        → ltz (pos attempt) refine.max_attempts ≡ true
        → Ended attempt (again prompt, w)

  zero_exit : (code : ℤ) → is_zero_exit code ≡ true → code ≡ pos 0
  zero_exit (pos zero) h = refl
  zero_exit (pos (suc n)) h = absurd cc
  zero_exit (negsuc n) h = absurd cc

  after_verify-Ended :
      (attempt : ℕ) (last : InvocationResult Error) (u : World) (x : Execution Error × World)
      → box.run_command refine.verify_cmd u ≡ x
      → Ended attempt (after_verify box refine original attempt last x)
  unfolding after_verify invocation_succeeded
  after_verify-Ended attempt last u (not_started e, w) h = left (λ s a. absurd cc)
  after_verify-Ended attempt last u (finished lines code err, w) h =
      elim (Bool-cases (is_zero_exit code)) [
        | inl y ↦ rw y (
            left
              (λ s a. (u, lines, err, h ∙ ap (λ c. (finished lines c err, w)) (zero_exit code y))))
        | inr n ↦ rw n (elim (Bool-cases (ltz (pos attempt) refine.max_attempts)) [
          | inl y ↦ rw y (retried y)
          | inr m ↦ rw m (left (λ s a. absurd (ground (arith, s, n))))
        ])
      ]

  is_none-map_error :
      (err : Option Error)
      → is_none (map_error {A = Error} {B = NodeError Error} (λ e. agent_error e) err) ≡ is_none err
  is_none-map_error none = refl
  is_none-map_error (some e) = refl

  after_agent-Ended :
      (attempt : ℕ) (x : Execution Error × World)
      → Ended attempt (after_agent box refine original attempt x)
  unfolding after_agent invocation_succeeded
  after_agent-Ended attempt (not_started e, w) = left (λ s a. absurd cc)
  after_agent-Ended attempt (finished lines code err, w) =
      elim (Bool-cases (not (active refine) || not (is_zero_exit code) || not (is_none err))) [
        | inl y ↦ rw y (left (λ s a. absurd (ground (arith, y, s, a, is_none-map_error err))))
        | inr n ↦ rw n (after_verify-Ended attempt _ w (box.run_command refine.verify_cmd w) refl)
      ]

  -- What the loop gives after some attempts.
  record IsRun (made : ℕ) (n : ℕ) (last : InvocationResult Error) (w : World) (es : List NodeEvent)
      : Type 0 where
    more : made < n
    capped : n ≤ attempt_cap refine
    checked : Checked last w
    announced : es ≡ starts (made + 1) (n - (made + 1))

  abbrev Runs : ℕ → Ran box refine original → Type 0
  Runs made r =
      (n : ℕ) × (last : InvocationResult Error) × (w : World) × (es : List NodeEvent) × (r
        ≡ some (n, last, w, es))
      × IsRun made n last w es

  below_cap : (m : ℕ) → ltz (pos m) refine.max_attempts ≡ true → m < attempt_cap refine
  unfolding attempt_cap ltz
  below_cap m h = go refine.max_attempts h
    where
      go :
          (z : ℤ)
          → ltz (pos m) z ≡ true
          → m < (elim z [ pos zero ↦ 1 | pos (suc n) ↦ suc n | negsuc n ↦ 1 ])
      go (pos zero) e = ground arith
      go (pos (suc n)) e = ltb→lt m (suc n) e
      go (negsuc n) e = absurd cc

  attempts_from-Runs :
      (fuel made : ℕ) (prompt : Bytes) (w : World)
      → made < attempt_cap refine
      → attempt_cap refine ≤ fuel + made
      → Runs made (attempts_from box refine original fuel made prompt w)
  unfolding attempts_from
  attempts_from-Runs zero made prompt w h le = absurd (omega (arith, h, le))
  attempts_from-Runs (suc fuel) made prompt w h le =
      go (after_agent-Ended (made + 1) (box.run_agent prompt w)) (λ p u e.
        attempts_from-Runs fuel (made + 1) p u (below_cap (made + 1) e) (omega (arith, le)))
    where
      go :
          {v : Verdict Error × World} {next : Bytes → World → Ran box refine original}
          → Ended (made + 1) v
          → ((p : Bytes) (u : World)
              → ltz (pos (made + 1)) refine.max_attempts ≡ true
              → Runs (made + 1) (next p u))
          → Runs made (next_attempt box refine original (made + 1) next v)
      go (left {last} {w} c) ih = (
        made + 1,
        last,
        w,
        [],
        refl,
        record {
          more = omega arith;
          capped = omega (arith, h);
          checked = c;
          announced = start_none (made + 1);
        },
      )
      go (retried {prompt} {w} e) ih =
          let (n, last, x, es, f, r) = ih prompt w e in
          (
            n,
            last,
            x,
            node_started (made + 1) ∷ es,
            ap (with_event box refine original (node_started (made + 1))) f,
            record {
              more = omega (arith, r.more);
              capped = r.capped;
              checked = r.checked;
              announced =
                  ap (λ l. node_started (made + 1) ∷ l) r.announced
                  ∙ start_next (made + 1) n r.more;
            },
          )

-- `runNode` ends for every agent and verify command: after one attempt at least, and at most as many
-- as the cap, or one where the cap is not positive. It announces each attempt, and then the end with
-- the outcome. A node that succeeds with the refine loop on ends with a verify command whose exit
-- code is 0.
pub run_node-attempts :
    {World Error : Type 0} (box : Sandbox World Error) (refine : RefineOptions) (prompt : Bytes)
    (id : String) (w : World)
    → (r : NodeResult Error) × (u : World) × (es : List NodeEvent) × (run_node box refine prompt id
          w
        ≡ some (r, u, es))
      × (r.node_id ≡ id)
      × (1 ≤ r.attempts)
      × (r.attempts ≤ attempt_cap refine)
      × (es ≡ starts 0 r.attempts ++ node_completed (r.attempts - 1) (node_succeeded r) ∷ [])
      × (node_succeeded r ≡ true → active refine ≡ true → IsVerified box refine prompt u)
unfolding run_node node_succeeded
run_node-attempts box refine prompt id w =
    let (n, last, u, es, e, r) =
      attempts_from-Runs box refine prompt (attempt_cap refine) 0 prompt w (cap_positive refine)
        (omega arith) in
    (
      record { node_id = id; prompt = prompt; attempts = n; result = last; diff = [] },
      u,
      node_started 0 ∷ es ++ node_completed (n - 1) (invocation_succeeded last) ∷ [],
      ap (report box refine prompt id) e,
      refl,
      r.more,
      r.capped,
      ap (λ l. node_started 0 ∷ l ++ node_completed (n - 1) (invocation_succeeded last) ∷ [])
            r.announced
          ∙ ap (λ l. l ++ node_completed (n - 1) (invocation_succeeded last) ∷ [])
              (start_first n r.more),
      r.checked,
    )
