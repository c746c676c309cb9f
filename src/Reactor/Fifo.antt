-- ===== src/Reactor/Fifo.antt =====
-- internal/reactor/reactor.go: the order of the log of `Dispatch`, and when it ends.
use mathlib.Core.List.{append-nil, append_assoc}
use sandcode.Base.{
  ℕ, zero, suc, ◌+◌, ◌≤◌, ◌<◌, ◌≡◌, refl, ap, ◌∙◌, sym, List, [], ◌∷◌, ◌++◌, Option, none, some,
  String, Bool, true, false, if◌then◌else◌, All, arith,
}
use sandcode.Reactor.{
  Handled, produced, failed, Reactor, handle, Dispatched, publish, react, dispatch_from, dispatch,
}

-- The sum of a weight over a list.
weigh : {E : Type 0} → (E → ℕ) → List E → ℕ
weigh f [] = 0
weigh f (x ∷ xs) = f x + weigh f xs

weigh-append :
    {E : Type 0} (f : E → ℕ) (xs ys : List E) → weigh f (xs ++ ys) ≡ weigh f xs + weigh f ys
unfolding weigh
weigh-append f [] ys = omega arith
weigh-append f (x ∷ xs) ys = omega (arith, weigh-append f xs ys)

module _ {E Error : Type 0} (type_of : E → String) (r : Reactor E Error) where
  abbrev produced_by : Handled E Error → List E
  produced_by (produced es) = es
  produced_by (failed e) = []

  -- What the handler of an event produces, and those of a list of events, one after the other.
  abbrev pub outputs_of : E → List E
  outputs_of ev = produced_by (handle type_of r ev)

  pub outputs : List E → List E
  outputs [] = []
  outputs (ev ∷ evs) = outputs_of ev ++ outputs evs

  outputs-snoc : (evs : List E) (ev : E) → outputs (evs ++ ev ∷ []) ≡ outputs evs ++ outputs_of ev
  unfolding outputs
  outputs-snoc [] ev = append-nil (outputs_of ev)
  outputs-snoc (x ∷ evs) ev =
      ap (λ l. outputs_of x ++ l) (outputs-snoc evs ev)
      ∙ sym (append_assoc (outputs_of x) (outputs evs) (outputs_of ev))

  -- How a dispatch ends: the log is the seed and all that its events produced, in the order of the log;
  -- or it is a beginning of that, and ends with an event whose handler fails.
  pub data Ended (seed : E) (log : List E) : Option Error → Type 0 where
    quiescent : log ≡ seed ∷ outputs log → Ended seed log none
    aborted :
        (before rest : List E) (last : E) (e : Error)
        → log ≡ before ++ last ∷ []
        → handle type_of r last ≡ failed e
        → log ++ rest ≡ seed ∷ outputs before
        → Ended seed log (some e)

  -- Between the rounds, the log and the queue are the seed and what the events of the log produced.
  module _ (seed : E) where
    abbrev Returned : Dispatched type_of r → Type 0
    Returned o =
        (log : List E) × (sent : List E) × (err : Option Error) × (o ≡ some (log, sent, err))
        × (sent ≡ (if r.has_bus then log else []))
        × Ended seed log err

    sent_too :
        (ev : E) (log sent : List E) (b : Bool)
        → sent ≡ (if b then log else [])
        → (if b then sent ++ ev ∷ [] else sent) ≡ (if b then log ++ ev ∷ [] else [])
    sent_too ev log sent true s = ap (λ l. l ++ ev ∷ []) s
    sent_too ev log sent false s = s

    -- What a round does to the log and the queue.
    next_round :
        (ev : E) (queue log es : List E)
        → log ++ ev ∷ queue ≡ seed ∷ outputs log
        → outputs_of ev ≡ es
        → (log ++ ev ∷ []) ++ (queue ++ es) ≡ seed ∷ outputs (log ++ ev ∷ [])
    next_round ev queue log es h o =
        sym (append_assoc (log ++ ev ∷ []) queue es)
        ∙ ap (λ l. l ++ es) (append_assoc log (ev ∷ []) queue ∙ h)
        ∙ ap (λ l. seed ∷ outputs log ++ l) (sym o)
        ∙ ap (λ l. seed ∷ l) (sym (outputs-snoc log ev))

    module _ (weight : E → ℕ)
        (falls : (ev : E) → weight ev ≡ suc (weigh weight (outputs_of ev))) where
      dispatch_from-Returned :
          (rounds : ℕ) (queue log sent : List E)
          → weigh weight queue ≤ rounds
          → log ++ queue ≡ seed ∷ outputs log
          → sent ≡ (if r.has_bus then log else [])
          → Returned (dispatch_from type_of r rounds queue log sent)
      unfolding dispatch_from weigh
      dispatch_from-Returned rounds [] log sent le h s =
          (log, sent, none, refl, s, quiescent (sym (append-nil log) ∙ h))
      dispatch_from-Returned zero (ev ∷ queue) log sent le h s =
          absurd (omega (arith, le, falls ev))
      dispatch_from-Returned (suc rounds) (ev ∷ queue) log sent le h s =
          go (handle type_of r ev) refl (λ es o.
            dispatch_from-Returned rounds (queue ++ es) (log ++ ev ∷ []) (publish type_of r ev sent)
              (omega (arith, le, falls ev, ap (weigh weight) o, weigh-append weight queue es))
              (next_round ev queue log es h o) (sent_too ev log sent r.has_bus s))
        where
          go :
              (x : Handled E Error)
              → handle type_of r ev ≡ x
              → ((es : List E)
                  → outputs_of ev ≡ es
                  → Returned (
                      dispatch_from type_of r rounds
                        (queue ++ es)
                        (log ++ ev ∷ [])
                        (publish type_of r ev sent)))
              → Returned (
                  react type_of r x queue
                    (λ q.
                      dispatch_from type_of r rounds q (log ++ ev ∷ []) (publish type_of r ev sent))
                    (log ++ ev ∷ [], publish type_of r ev sent))
          go (failed e) same ih = (
            log ++ ev ∷ [],
            publish type_of r ev sent,
            some e,
            refl,
            sent_too ev log sent r.has_bus s,
            aborted log queue ev e refl same (append_assoc log (ev ∷ []) queue ∙ h),
          )
          go (produced es) same ih = ih es (ap produced_by same)

-- How many rounds an event takes with all that follows from it, where what an event produces has a
-- lower rank than the event.
module _ {E Error : Type 0} (type_of : E → String) (r : Reactor E Error) (rank : E → ℕ) where
  -- The events that a handler produces are of a lower rank.
  abbrev pub Descends : Type 0
  Descends = (ev : E) → All (λ x. rank x < rank ev) (outputs_of type_of r ev)

  rounds_for : ℕ → E → ℕ
  rounds_for zero ev = 1
  rounds_for (suc k) ev = suc (weigh (rounds_for k) (outputs_of type_of r ev))

  weigh-cong :
      (f g : E → ℕ) (n : ℕ) (evs : List E)
      → ((x : E) → rank x < n → f x ≡ g x)
      → All (λ x. rank x < n) evs
      → weigh f evs ≡ weigh g evs
  unfolding weigh
  weigh-cong f g n [] h a = refl
  weigh-cong f g n (x ∷ evs) h a = omega (arith, h x a.0, weigh-cong f g n evs h a.1)

  nothing_below :
      (f : E → ℕ) (evs : List E) (n : ℕ) → n ≡ 0 → All (λ x. rank x < n) evs → weigh f evs ≡ 0
  unfolding weigh
  nothing_below f [] n e a = refl
  nothing_below f (x ∷ evs) n e a = absurd (omega (arith, a.0, e))

  module _ (descends : Descends) where
    stable : (j k : ℕ) (ev : E) → rank ev ≤ j → rank ev ≤ k → rounds_for j ev ≡ rounds_for k ev
    unfolding rounds_for
    stable zero zero ev h g = refl
    stable zero (suc k) ev h g = omega (
      arith,
      nothing_below (rounds_for k) (outputs_of type_of r ev) (rank ev) (omega (arith, h))
          (descends ev),
    )
    stable (suc j) zero ev h g = omega (
      arith,
      nothing_below (rounds_for j) (outputs_of type_of r ev) (rank ev) (omega (arith, g))
          (descends ev),
    )
    stable (suc j) (suc k) ev h g = ap suc (
        weigh-cong (rounds_for j) (rounds_for k) (rank ev) (outputs_of type_of r ev)
          (λ x lt. stable j k x (omega (arith, lt, h)) (omega (arith, lt, g))) (descends ev))

    rounds_for-falls :
        (ev : E)
        → rounds_for (rank ev) ev
          ≡ suc (weigh (λ x. rounds_for (rank x) x) (outputs_of type_of r ev))
    rounds_for-falls ev = go (rank ev) refl
      where
        go :
            (n : ℕ)
            → rank ev ≡ n
            → rounds_for n ev ≡ suc (weigh (λ x. rounds_for (rank x) x) (outputs_of type_of r ev))
        go zero e =
            unfold rounds_for in
            omega (
              arith,
              nothing_below (λ x. rounds_for (rank x) x) (outputs_of type_of r ev) (rank ev) e
                  (descends ev),
            )
        go (suc k) e =
            unfold rounds_for in
            ap suc (
              weigh-cong (rounds_for k) (λ x. rounds_for (rank x) x) (rank ev)
                (outputs_of type_of r ev)
                (λ x lt. stable k (rank x) x (omega (arith, lt, e)) (omega arith)) (descends ev))

-- Where the events that a handler produces are of a lower rank than its event, `Dispatch` ends. Every
-- event of the log was published, if there is a bus. The log is the seed and then what the handlers of
-- its events produced, in the order of the log; or a handler failed, the log ends with its event, and
-- is a beginning of what the earlier ones gave.
pub dispatch-Ended :
    {E Error : Type 0} (type_of : E → String) (r : Reactor E Error) (rank : E → ℕ) (seed : E)
    → Descends type_of r rank
    → (rounds : ℕ) × (log : List E) × (sent : List E) × (err : Option Error) × (dispatch type_of r
          rounds seed
        ≡ some (log, sent, err))
      × (sent ≡ (if r.has_bus then log else []))
      × Ended type_of r seed log err
unfolding dispatch outputs
dispatch-Ended {E = E} type_of r rank seed h =
    let weight = λ (x : E). rounds_for type_of r rank (rank x) x in
    let rounds = weigh weight (seed ∷ []) in
    let (log, sent, err, e, s, end) =
      dispatch_from-Returned type_of r seed weight (rounds_for-falls type_of r rank h) rounds
        (seed ∷ []) [] [] (omega arith) refl (if_nil r.has_bus) in
    (rounds, log, sent, err, e, s, end)
  where
    if_nil : (b : Bool) → ◌≡◌ {A = List E} [] (if b then [] else [])
    if_nil true = refl
    if_nil false = refl
