-- ===== src/Orchestrator/Strategy.antt =====
-- internal/strategy/strategy.go and internal/costopt/costopt.go: the rules that choose the shape of a run and the
-- model of its agent, from the classification of internal/brain/classifier.go.
use sandcode.Base.{String, Bool, true, false, ◌||◌, ltb, length, if◌then◌else◌}
use sandcode.Planner.{TaskDag}
use sandcode.Planner.Topo.{roots}

pub data ProblemType : Type 0 where
  convergent divergent : ProblemType

pub data Complexity : Type 0 where
  low medium high : Complexity

-- The text that explains a classification is left out.
pub record Classification : Type 0 where
  pub type : ProblemType
  pub complexity : Complexity

-- `unknown` is any other text, the empty one included.
pub data Strategy : Type 0 where
  single refine parallel unknown : Strategy

unfoldable pub is_high : Complexity → Bool
is_high high = true
is_high _ = false

unfoldable pub is_medium : Complexity → Bool
is_medium medium = true
is_medium _ = false

unfoldable pub is_divergent : ProblemType → Bool
is_divergent divergent = true
is_divergent convergent = false

-- `RuleSelector.Select`, with its reason.
unfoldable pub select : Classification → TaskDag → Strategy × String
unfolding roots is_high
select c plan =
    if ltb 1 (length (roots plan))
    then (parallel, "plan has multiple roots — parallelisable work")
    else if is_high c.complexity
    then (refine, "high complexity — verify+refine loop")
    else (single, "default — no rule fired")

abbrev pub model_strong : String
model_strong = "claude-opus-4-8"

abbrev pub model_balanced : String
model_balanced = "claude-sonnet-4-6"

abbrev pub model_fast : String
model_fast = "claude-haiku-4-5-20251001"

-- `RuleRouter.Route`
unfoldable pub route : Classification → String × String
unfolding is_high is_medium is_divergent
route c =
    if is_high c.complexity || is_divergent c.type
    then (model_strong, "high-complexity or divergent → strongest model")
    else if is_medium c.complexity
    then (model_balanced, "medium complexity → balanced model")
    else (model_fast, "low-complexity convergent → fast/cheap model")
