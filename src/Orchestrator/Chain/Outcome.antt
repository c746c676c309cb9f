-- ===== src/Orchestrator/Chain/Outcome.antt =====
-- internal/orchestrator/dag_chain.go: what the result of `runChain` says of the nodes that were run.
use mathlib.Core.List.{append-nil, append_assoc}
use sandcode.Base.{
  ◌≡◌, refl, ap, ◌∙◌, sym, subst, inl, inr, List, [], ◌∷◌, ◌++◌, Option, none, some, String, Bool,
  true, false, if◌then◌else◌, All, Bool-cases,
}
use sandcode.Base.Bytes.{Bytes}
use sandcode.Planner.{Node, ids}
use sandcode.Orchestrator.Refine.{RefineOptions, has_words}
use sandcode.Orchestrator.Node.{Sandbox, NodeResult, NodeEvent, node_succeeded}
use sandcode.Orchestrator.Node.Attempts.{run_node-attempts}
use sandcode.Orchestrator.Chain.{
  ChainResult, ChainEvent, mcp_injected, chain_started, ChainCalls, or_same, Nodes, after_events,
  after_node, run_nodes, Chained, finish, in_box, tag_events, with_events, with_auth, injected,
  in_worktree, provisioned, run_chain, fail,
}

abbrev pub node_ids : {Error : Type 0} → List (NodeResult Error) → List String
node_ids [] = []
node_ids (r ∷ rs) = r.node_id ∷ node_ids rs

node_ids-append :
    {Error : Type 0} (rs ss : List (NodeResult Error))
    → node_ids (rs ++ ss) ≡ node_ids rs ++ node_ids ss
node_ids-append [] ss = refl
node_ids-append (r ∷ rs) ss = ap (λ l. r.node_id ∷ l) (node_ids-append rs ss)

abbrev pub AllSucceeded : {Error : Type 0} → List (NodeResult Error) → Type 0
AllSucceeded = All (λ r. node_succeeded r ≡ true)

-- What the results of a loop over nodes say, where `prev` were there before: each node of `todo`
-- succeeded; or some did, in order, then one failed, and the rest were not run.
pub data Progress {Error : Type 0} (prev : List (NodeResult Error)) (todo : List String)
    (results : List (NodeResult Error)) (failed : Option String) : Type 0 where
  all_done :
      (rs : List (NodeResult Error))
      → results ≡ prev ++ rs
      → failed ≡ none
      → AllSucceeded rs
      → node_ids rs ≡ todo
      → Progress prev todo results failed
  broke :
      (rs : List (NodeResult Error)) (r : NodeResult Error) (rest : List String)
      → results ≡ prev ++ (rs ++ r ∷ [])
      → failed ≡ some r.node_id
      → AllSucceeded rs
      → node_succeeded r ≡ false
      → todo ≡ node_ids rs ++ r.node_id ∷ rest
      → Progress prev todo results failed

Progress-after :
    {Error : Type 0} (prev : List (NodeResult Error)) (r : NodeResult Error) (id : String)
    (todo : List String) (results : List (NodeResult Error)) (failed : Option String)
    → node_succeeded r ≡ true
    → r.node_id ≡ id
    → Progress (prev ++ r ∷ []) todo results failed
    → Progress prev (id ∷ todo) results failed
Progress-after prev r id todo results failed h named (all_done rs e f g i) =
    all_done (r ∷ rs) (e ∙ append_assoc prev (r ∷ []) rs) f (h, g)
      (ap (λ x. x ∷ node_ids rs) named ∙ ap (λ l. id ∷ l) i)
Progress-after prev r id todo results failed h named (broke rs x rest e f g i j) =
    broke (r ∷ rs) x rest (e ∙ append_assoc prev (r ∷ []) (rs ++ x ∷ [])) f (h, g) i
      (ap (λ l. id ∷ l) j ∙ ap (λ y. y ∷ node_ids rs ++ x.node_id ∷ rest) (sym named))

module _ {World Error : Type 0} (calls : ChainCalls World Error) (refine : RefineOptions) where
  -- The loop ends.
  abbrev Returned : List (NodeResult Error) → List String → Nodes calls refine → Type 0
  Returned prev todo o =
      (rs : List (NodeResult Error)) × (failed : Option String) × (w : World) × (es : List
        ChainEvent)
      × (o ≡ some (rs, failed, w, es))
      × Progress prev todo rs failed

  -- After a node, where what follows it returns.
  after_node-Returned :
      (prev : List (NodeResult Error)) (next : List (NodeResult Error) → World → Nodes calls refine)
      (id : String) (todo : List String) (r : NodeResult Error) (u : World) (es : List NodeEvent)
      → r.node_id ≡ id
      → ((p : List (NodeResult Error)) (w : World) → Returned p todo (next p w))
      → Returned prev (id ∷ todo) (after_node calls refine id prev next (some (r, u, es)))
  unfolding after_node node_succeeded
  after_node-Returned prev next id todo r u es named after = elim (Bool-cases (node_succeeded r)) [
    | inl y ↦
        let r' : NodeResult Error = record r { diff = or_same (calls.redacted_diff u) r.diff } in
        let (rs, failed, w, fs, e, p) = after (prev ++ r' ∷ []) u in
        rw y (
          rs,
          failed,
          w,
          tag_events id es ++ fs,
          ap (after_events calls refine (tag_events id es)) e,
          Progress-after prev r' id todo rs failed y named p,
        )
    | inr n ↦ rw n (
      prev ++ r ∷ [],
      some id,
      u,
      tag_events id es,
      refl,
      broke [] r todo refl (ap some (sym named)) tt n (ap (λ x. x ∷ todo) (sym named)),
    )
  ]

  run_nodes-Returned :
      (box : Sandbox World Error) (ns : List Node) (prev : List (NodeResult Error)) (w : World)
      → Returned prev (ids ns) (run_nodes calls refine box ns prev w)
  unfolding run_nodes
  run_nodes-Returned box [] prev w =
      (prev, none, w, [], refl, all_done [] (sym (append-nil prev)) refl tt refl)
  run_nodes-Returned box (n ∷ ns) prev w =
      let (r, u, es, e, named, _, _, _, _) =
        run_node-attempts box refine (calls.handoff_prompt n prev) n.id w in
      subst
        (λ o.
          Returned prev (n.id ∷ ids ns)
            (after_node calls refine n.id prev (run_nodes calls refine box ns) o))
        (sym e)
        (after_node-Returned prev (run_nodes calls refine box ns) n.id (ids ns) r u es named
          (λ p v. run_nodes-Returned box ns p v))

  -- How a chain ends: it could not start, or its nodes were run.
  pub data Ended (root : String) (todo : List String) (r : ChainResult Error) : Bool → Type 0 where
    not_started : r.nodes ≡ [] → r.success ≡ false → r.failed_at ≡ root → Ended root todo r true
    succeeded : r.success ≡ true → Progress [] todo r.nodes none → Ended root todo r false
    failed_in :
        (id : String)
        → r.success ≡ false
        → r.failed_at ≡ id
        → Progress [] todo r.nodes (some id)
        → Ended root todo r false

  module _ (chain_id : Bytes) (root : String) (nodes : List Node) where
    abbrev Ends : Chained calls refine → Type 0
    Ends o =
        (r : ChainResult Error) × (w : World) × (es : List ChainEvent) × (failed : Bool) × (o
          ≡ some (r, w, es, failed))
        × Ended root (ids nodes) r failed

    Ends-with_events :
        (es : List ChainEvent) (o : Chained calls refine)
        → Ends o
        → Ends (with_events calls refine es o)
    Ends-with_events es o (r, w, fs, failed, e, h) =
        (r, w, es ++ fs, failed, ap (with_events calls refine es) e, h)

    Ends-if : {x y : Chained calls refine} (b : Bool) → Ends x → Ends y → Ends (if b then x else y)
    Ends-if true h k = h
    Ends-if false h k = k

    Ends-fail :
        (place : String × String) (w : World) → Ends (fail calls refine chain_id root nodes place w)
    unfolding fail
    Ends-fail place w = (_, w, _, true, refl, not_started refl refl refl)

    Ends-finish :
        (place : String × String) (o : Nodes calls refine)
        → Returned [] (ids nodes) o
        → Ends (finish calls refine chain_id root nodes place o)
    Ends-finish place o (rs, none, w, es, e, p) =
        (_, w, _, false, ap (finish calls refine chain_id root nodes place) e, succeeded refl p)
    Ends-finish place o (rs, some id, w, es, e, p) = (
      _,
      w,
      _,
      false,
      ap (finish calls refine chain_id root nodes place) e,
      failed_in id refl refl p,
    )

    Ends-in_box :
        (place : String × String) (x : Option (Sandbox World Error) × World)
        → Ends (in_box calls refine chain_id root nodes place x)
    unfolding in_box
    Ends-in_box place (none, w) = Ends-fail place w
    Ends-in_box place (some box, w) = Ends-finish place _ (run_nodes-Returned box nodes [] w)

    Ends-with_auth :
        (place : String × String) (w : World)
        → Ends (with_auth calls refine chain_id root nodes place w)
    unfolding with_auth
    Ends-with_auth place w =
        Ends-if calls.apply_auth (Ends-in_box place (calls.create_box w)) (Ends-fail place w)

    Ends-injected :
        (place : String × String) (x : Bool × World)
        → Ends (injected calls refine chain_id root nodes place x)
    unfolding injected
    Ends-injected place (false, w) = Ends-fail place w
    Ends-injected place (true, w) =
        Ends-with_events (mcp_injected calls.enabled_servers ∷ []) _ (Ends-with_auth place w)

    Ends-in_worktree :
        (place : String × String) (w : World)
        → Ends (in_worktree calls refine chain_id root nodes place w)
    unfolding in_worktree
    Ends-in_worktree place w =
        Ends-if (has_words calls.enabled_servers) (Ends-injected place (calls.inject w))
          (Ends-with_auth place w)

    Ends-provisioned :
        (x : Option (String × String) × World)
        → Ends (provisioned calls refine chain_id root nodes x)
    unfolding provisioned
    Ends-provisioned (none, w) = Ends-with_events (chain_started ∷ []) _ (Ends-fail ("", "") w)
    Ends-provisioned (some place, w) =
        Ends-with_events (chain_started ∷ []) _ (Ends-in_worktree place w)

    -- `runChain` ends, in one of three ways. It returns an error, has run no node and names the root as
    -- the one that failed; or it returns none and reports success, and every node of the chain was run,
    -- in order, and succeeded; or it returns none and reports the node that failed, those before it were
    -- run and succeeded, and those after it were not run.
    pub run_chain_ends :
        (w : World)
        → (r : ChainResult Error) × (u : World) × (es : List ChainEvent) × (failed : Bool)
          × (run_chain calls refine chain_id root nodes w ≡ some (r, u, es, failed))
          × Ended root (ids nodes) r failed
    unfolding run_chain
    run_chain_ends w = Ends-provisioned (calls.create_worktree w)
