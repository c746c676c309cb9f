-- ===== src/Orchestrator/Coordinator/Winner.antt =====
-- internal/orchestrator/dag_run.go: the winner of a run, and the worktree the synthesizer works in.
use mathlib.Core.List.{Memᴰ}
use mathlib.Core.List.Memᴰ
use sandcode.Base.{
  ◌≡◌, ◌≢◌, refl, ap, ◌∙◌, sym, subst, ◌⊎◌, inl, inr, List, [], ◌∷◌, Option, none, some, Bool, true,
  false, if◌then◌else◌, Bool-cases, arith,
}
use sandcode.Base.Bytes.{Bytes, bytes_eq, bytes_eq_iff}
use sandcode.Orchestrator.Node.{NodeResult}
use sandcode.Orchestrator.Chain.{ChainResult}
use sandcode.Orchestrator.Coordinator.{
  Candidate, Rank, ranked, rank_failed, candidate_of, candidates, winner_of, run_judge_over_chains,
  find_chain, survivors, SynthesizerArgs, DagResult, conclude, coordinate,
}

module _ {Error : Type 0} where
  -- A chain that succeeded and has the id.
  pub record IsSurvivor (results : List (ChainResult Error)) (id : Bytes) (c : ChainResult Error)
      : Type 0 where
    pub member : Memᴰ c results
    pub success : c.success ≡ true
    pub named : c.chain_id ≡ id

  mem-if :
      (b : Bool) (c x : ChainResult Error) (xs : List (ChainResult Error))
      → Memᴰ c (if b then x ∷ xs else xs)
      → (b ≡ true) × (c ≡ x) ⊎ Memᴰ c xs
  mem-if true c x xs (Memᴰ.head e) = inl (refl, e)
  mem-if true c x xs (Memᴰ.tail m) = inr m
  mem-if false c x xs m = inr m

  survivors-mem :
      (results : List (ChainResult Error)) (c : ChainResult Error)
      → Memᴰ c (survivors results)
      → Memᴰ c results × (c.success ≡ true)
  unfolding survivors
  survivors-mem [] c m = absurd (Memᴰ.not-nil m)
  survivors-mem (x ∷ xs) c m = elim (mem-if x.success c x (survivors xs) m) [
    | inl (y, e) ↦ (Memᴰ.head e, ap (λ (z : ChainResult Error). z.success) e ∙ y)
    | inr k ↦ let (in_rest, s) = survivors-mem xs c k in (Memᴰ.tail in_rest, s)
  ]

  -- `findChain` finds a chain with the id where there is one.
  find_chain-mem :
      (cs : List (ChainResult Error)) (id : Bytes) (c : ChainResult Error)
      → Memᴰ c cs
      → c.chain_id ≡ id
      → Memᴰ (find_chain cs id) cs × ((find_chain cs id).chain_id ≡ id)
  unfolding find_chain
  find_chain-mem [] id c m e = absurd (Memᴰ.not-nil m)
  find_chain-mem (x ∷ cs) id c m e = elim (Bool-cases (bytes_eq x.chain_id id)) [
    | inl y ↦ rw y (Memᴰ.head refl, (bytes_eq_iff x.chain_id id).0 y)
    | inr n ↦ let (k, f) = find_chain-mem cs id c (later n m) e in rw n (Memᴰ.tail k, f)
  ]
    where
      later : bytes_eq x.chain_id id ≡ false → Memᴰ c (x ∷ cs) → Memᴰ c cs
      later n (Memᴰ.head same) =
          let named : x.chain_id ≡ id = ap (λ (z : ChainResult Error). z.chain_id) (sym same) ∙ e in
          absurd (cc (sym n ∙ (bytes_eq_iff x.chain_id id).1 named))
      later n (Memᴰ.tail k) = k

  -- The judge names no chain, or one of those it was given.
  abbrev pub NamesCandidate : Option (List Candidate → Rank Error) → Type 0
  NamesCandidate none = Unit
  NamesCandidate (some rank) =
      (cands : List Candidate) (winner rationale : Bytes)
      → rank cands ≡ ranked winner rationale
      → (winner ≡ []) ⊎ (c : Candidate) × Memᴰ c cands × (c.run_id ≡ winner)

  candidate_of-id : (id : Bytes) (ns : List (NodeResult Error)) → (candidate_of id ns).run_id ≡ id
  unfolding candidate_of
  candidate_of-id id [] = refl
  candidate_of-id id (n ∷ []) = refl
  candidate_of-id id (n ∷ m ∷ ns) = candidate_of-id id (m ∷ ns)

  candidates-mem :
      (cs : List (ChainResult Error)) (k : Candidate)
      → Memᴰ k (candidates cs)
      → (c : ChainResult Error) × Memᴰ c cs × (c.chain_id ≡ k.run_id)
  unfolding candidates
  candidates-mem [] k m = absurd (Memᴰ.not-nil m)
  candidates-mem (x ∷ cs) k (Memᴰ.head e) = (
    x,
    Memᴰ.head refl,
    sym (ap (λ (z : Candidate). z.run_id) e ∙ candidate_of-id x.chain_id x.nodes),
  )
  candidates-mem (x ∷ cs) k (Memᴰ.tail m) =
      let (c, l, e) = candidates-mem cs k m in (c, Memᴰ.tail l, e)

  -- The winner is the id of one of the chains that were judged.
  judge-mem :
      (judge : Option (List Candidate → Rank Error)) (first : ChainResult Error)
      (rest : List (ChainResult Error))
      → NamesCandidate judge
      → (c : ChainResult Error) × Memᴰ c (first ∷ rest)
        × (c.chain_id ≡ (run_judge_over_chains judge first rest).0)
  unfolding run_judge_over_chains winner_of
  judge-mem none first rest h = (first, Memᴰ.head refl, refl)
  judge-mem (some rank) first rest h = go (rank (candidates (first ∷ rest))) refl
    where
      go :
          (r : Rank Error)
          → rank (candidates (first ∷ rest)) ≡ r
          → (c : ChainResult Error) × Memᴰ c (first ∷ rest) × (c.chain_id ≡ (winner_of first r).0)
      go (rank_failed e) same = (first, Memᴰ.head refl, refl)
      go (ranked [] why) same = (first, Memᴰ.head refl, refl)
      go (ranked (b ∷ bs) why) same = elim (h (candidates (first ∷ rest)) (b ∷ bs) why same) [
        | inl e ↦ absurd cc
        | inr (k, m, e) ↦ let (c, l, f) = candidates-mem (first ∷ rest) k m in (c, l, f ∙ e)
      ]

  -- How a run ends: every chain failed; or it has a winner, a chain that succeeded, and the
  -- synthesizer, if it is started, works in the worktree of such a chain.
  pub data Concluded (results : List (ChainResult Error)) (disabled : Bool) (r : DagResult Error)
      : Type 0 where
    none_left :
        ((c : ChainResult Error) → Memᴰ c results → c.success ≡ false)
        → r.all_failed ≡ true
        → r.winner ≡ []
        → r.synthesizer ≡ none
        → Concluded results disabled r
    one_left :
        (c : ChainResult Error)
        → IsSurvivor results r.winner c
        → r.all_failed ≡ false
        → r.synthesizer ≡ none
        → Concluded results disabled r
    some_left :
        (c : ChainResult Error) (args : SynthesizerArgs Error)
        → IsSurvivor results r.winner c
        → r.all_failed ≡ false
        → args.winner_worktree ≡ c.worktree
        → args.winner ≡ c
        → r.synthesizer ≡ (if disabled then none else some args)
        → Concluded results disabled r

  survivor-mem :
      (results : List (ChainResult Error)) (c : ChainResult Error)
      → Memᴰ c results
      → c.success ≡ true
      → Memᴰ c (survivors results)
  unfolding survivors
  survivor-mem [] c m y = absurd (Memᴰ.not-nil m)
  survivor-mem (x ∷ xs) c m y = into (λ k. survivor-mem xs c k y) x.success refl m
    where
      into :
          (Memᴰ c xs → Memᴰ c (survivors xs))
          → (b : Bool) → x.success ≡ b
          → Memᴰ c (x ∷ xs)
          → Memᴰ c (if b then x ∷ survivors xs else survivors xs)
      into ih true e (Memᴰ.head same) = Memᴰ.head same
      into ih true e (Memᴰ.tail k) = Memᴰ.tail (ih k)
      into ih false e (Memᴰ.head same) =
          absurd (cc (sym e ∙ ap (λ (z : ChainResult Error). z.success) (sym same) ∙ y))
      into ih false e (Memᴰ.tail k) = ih k

  conclude-Concluded :
      (judge : Option (List Candidate → Rank Error)) (disabled : Bool)
      (results succ : List (ChainResult Error))
      → NamesCandidate judge
      → survivors results ≡ succ
      → Concluded results disabled (conclude judge disabled results succ)
  unfolding conclude
  conclude-Concluded judge disabled results [] h e = none_left (λ c m. fails c m) refl refl refl
    where
      fails : (c : ChainResult Error) → Memᴰ c results → c.success ≡ false
      fails c m = elim (Bool-cases c.success) [
        | inl y ↦ absurd (Memᴰ.not-nil (subst (Memᴰ c) e (survivor-mem results c m y)))
        | inr n ↦ n
      ]
  conclude-Concluded judge disabled results (c ∷ []) h e =
      let (m, s) = survivors-mem results c (subst (Memᴰ c) (sym e) (Memᴰ.head refl)) in
      one_left c (record { member = m; success = s; named = refl }) refl refl
  conclude-Concluded judge disabled results (c ∷ d ∷ rest) h e =
      let (k, l, f) = judge-mem judge c (d ∷ rest) h in
      let winner = (run_judge_over_chains judge c (d ∷ rest)).0 in
      let (l', f') = find_chain-mem (c ∷ d ∷ rest) winner k l f in
      let best = find_chain (c ∷ d ∷ rest) winner in
      let (m, s) = survivors-mem results best (subst (Memᴰ best) (sym e) l') in
      some_left best
        (record {
          winner_worktree = best.worktree;
          winner = best;
          all_chains = c ∷ d ∷ rest;
          judge_rationale = (run_judge_over_chains judge c (d ∷ rest)).1;
        })
        (record { member = m; success = s; named = f' }) refl refl refl refl

-- Where the judge, if there is one, names no chain or one of those it is given, a run ends with the
-- error of all chains only if every chain failed; else its winner is a chain that succeeded, and the
-- synthesizer, which is started for two or more such chains unless it is disabled, works in the
-- worktree of the winner. The completed event names the winner.
pub coordinate-Concluded :
    {Error : Type 0} (judge : Option (List Candidate → Rank Error)) (disabled : Bool)
    (results : List (ChainResult Error))
    → NamesCandidate judge
    → let (res, event) = coordinate judge disabled results in
      Concluded results disabled res × (event.winner_chain_id ≡ res.winner)
unfolding coordinate
coordinate-Concluded judge disabled results h =
    (conclude-Concluded judge disabled results (survivors results) h refl, refl)

-- A judge that names a stranger: `findChain` returns the zero value, whose worktree is empty.
pub find_chain-stranger :
    {Error : Type 0} (cs : List (ChainResult Error)) (id : Bytes)
    → ((c : ChainResult Error) → Memᴰ c cs → c.chain_id ≢ id)
    → (find_chain cs id).worktree ≡ ""
unfolding find_chain
find_chain-stranger [] id h = refl
find_chain-stranger (x ∷ cs) id h =
    let other : bytes_eq x.chain_id id ≡ false =
      ground (arith, h x (Memᴰ.head refl), bytes_eq_iff x.chain_id id) in
    rw other (find_chain-stranger cs id (λ c m. h c (Memᴰ.tail m)))
