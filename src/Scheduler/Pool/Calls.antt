-- ===== src/Scheduler/Pool/Calls.antt =====
-- What each call of the scheduler does on each of its branches, and that every state that the steps
-- reach satisfies the invariant.
use sandcode.Base.{
  ℕ, ◌≤◌, ◌<◌, ◌≡◌, refl, sym, subst, ◌∙◌, ◌≢◌, inl, inr, String, List, [], ◌∷◌, Option, none, some,
  Bool, true, false, leb, arith, length, if◌then◌else◌, Bool-cases, Option-cases,
}
use sandcode.Base.Dict.{lookup, put}
use sandcode.Scheduler.Queue.{Priority, Entry, pop, position_of}
use sandcode.Scheduler.Pool.{
  Sched, new_entry, admit, withdraw, take, submit, cancel, dequeue, SubmitError, stopped, duplicate,
  queue_full, Emission, run_dequeued, run_scheduled, run_cancelled,
}

-- What `Submit` does: one of its three errors, or the new item.
pub data Submission (now : ℕ) (id : String) (p : Priority) (s : Sched)
    : Sched × Option SubmitError × List Emission → Type 0 where
  refused_stopped : s.is_stopped ≡ true → Submission now id p s (s, some stopped, [])
  refused_duplicate :
      s.is_stopped ≡ false → lookup id s.runs ≢ none → Submission now id p s (s, some duplicate, [])
  refused_full :
      s.is_stopped ≡ false
      → lookup id s.runs ≡ none
      → s.queue_cap ≤ length s.queue
      → Submission now id p s (s, some queue_full, [])
  accepted :
      s.is_stopped ≡ false
      → lookup id s.runs ≡ none
      → length s.queue < s.queue_cap
      → Submission now id p s (
        admit (new_entry now id p s) s,
        none,
        run_scheduled id p (position_of id (admit (new_entry now id p s) s).queue) ∷ [],
      )

pub submit-Submission :
    (now : ℕ) (id : String) (p : Priority) (s : Sched) → Submission now id p s (submit now id p s)
unfolding submit
submit-Submission now id p s = elim (Bool-cases s.is_stopped) [
  | inl e ↦ subst (Submission now id p s) (sym (simp (e))) (refused_stopped e)
  | inr e ↦ elim (Option-cases (lookup id s.runs)) [
    | inr (x, f) ↦
        subst (Submission now id p s) (sym (simp (e, f))) (refused_duplicate e (λ f'. cc))
    | inl f ↦ elim (Bool-cases (leb s.queue_cap (length s.queue))) [
      | inl g ↦
          subst (Submission now id p s) (sym (simp (e, f, g)))
            (refused_full e f (ground (arith, g)))
      | inr g ↦
          subst (Submission now id p s) (sym (simp (e, f, g))) (accepted e f (ground (arith, g)))
    ]
  ]
]

-- What `Cancel` does.
pub data Cancellation (id : String) (s : Sched) : Sched × Bool × List Emission → Type 0 where
  unknown : lookup id s.runs ≡ none → Cancellation id s (s, false, [])
  at_work :
      (e : Entry) → lookup id s.runs ≡ some e → e.running ≡ true → Cancellation id s (s, false, [])
  withdrawn :
      (e : Entry)
      → lookup id s.runs ≡ some e
      → e.running ≡ false
      → Cancellation id s (withdraw id s, true, run_cancelled id ∷ [])

cancel-none : (id : String) (s : Sched) → lookup id s.runs ≡ none → cancel id s ≡ (s, false, [])
unfolding cancel
cancel-none id s f = rw (f, cancel) refl

cancel-some :
    (id : String) (s : Sched) (e : Entry)
    → lookup id s.runs ≡ some e
    → cancel id s
      ≡ (if e.running then (s, false, []) else (withdraw id s, true, run_cancelled id ∷ []))
unfolding cancel withdraw
cancel-some id s e f = rw (f, cancel) refl

pub cancel-Cancellation : (id : String) (s : Sched) → Cancellation id s (cancel id s)
cancel-Cancellation id s = elim (Option-cases (lookup id s.runs)) [
  | inl f ↦ subst (Cancellation id s) (sym (cancel-none id s f)) (unknown f)
  | inr (e, f) ↦ elim (Bool-cases e.running) [
    | inl g ↦ subst (Cancellation id s) (sym (cancel-some id s e f ∙ simp (g))) (at_work e f g)
    | inr g ↦ subst (Cancellation id s) (sym (cancel-some id s e f ∙ simp (g))) (withdrawn e f g)
  ]
]

pub dequeue-take :
    (s : Sched) {m : Entry} {rest : List Entry}
    → pop s.queue ≡ some (m, rest)
    → dequeue s ≡ (take m rest s, run_dequeued m.run_id ∷ [])
unfolding dequeue put
dequeue-take s e = rw (e, dequeue) refl
