-- ===== src/Scheduler/Queue.antt =====
-- internal/scheduler/scheduler.go (priorities) and queue.go (the admission queue). Of `container/heap`
-- the queue uses that `Pop` takes the item which `Less` puts before the others; where the heap keeps
-- the items that remain is not observable, and they stand in a list here.
pub mod Order
pub mod Position
pub mod Members
use sandcode.Base.{
  ℕ, zero, suc, ◌+◌, ◌≡◌, refl, String, List, [], ◌∷◌, ◌++◌, Option, none, some, Bool, true, false,
  ◌==◌, ltb, length, str_eq, if◌then◌else◌,
}

pub data Priority : Type 0 where
  low normal high critical : Priority

-- The value of the constant.
unfoldable pub rank : Priority → ℕ
rank low = 0
rank normal = 1
rank high = 2
rank critical = 3

unfoldable pub show_priority : Priority → String
show_priority low = "low"
show_priority high = "high"
show_priority critical = "critical"
show_priority normal = "normal"

unfoldable pub parse_priority : String → Option Priority
parse_priority s =
    if str_eq s ""
    then some normal
    else if str_eq s "low"
    then some low
    else if str_eq s "normal"
    then some normal
    else if str_eq s "high"
    then some high
    else if str_eq s "critical"
    then some critical
    else none

pub record Entry : Type 0 where
  pub run_id : String
  pub priority : Priority
  pub submit_seq : ℕ
  pub enqueued : ℕ
  pub running : Bool

unfoldable pub less : Entry → Entry → Bool
unfolding rank
less a b =
    if rank a.priority == rank b.priority
    then ltb a.submit_seq b.submit_seq
    else ltb (rank b.priority) (rank a.priority)

-- `heap.Push`
unfoldable pub push : Entry → List Entry → List Entry
push e items = items ++ e ∷ []

-- The item of `e ∷ items` that no other precedes, and the others.
unfoldable pub select : Entry → List Entry → Entry × List Entry
select e [] = (e, [])
select e (x ∷ items) =
    let first = less x e in
    let (m, rest) = select (if first then x else e) items in (m, (if first then e else x) ∷ rest)

-- `heap.Pop`
unfoldable pub pop : List Entry → Option (Entry × List Entry)
unfolding select
pop [] = none
pop (e ∷ items) = some (select e items)

-- The scan and the `heap.Remove` of the item that it finds.
unfoldable pub remove : String → List Entry → List Entry
remove id [] = []
remove id (e ∷ items) = if str_eq e.run_id id then items else e ∷ remove id items

-- The loop that drains the clone; it makes a round for each item at most.
unfoldable pub drain_to : ℕ → String → List Entry → ℕ → Option ℕ
drain_to zero id items pos = none
drain_to (suc rounds) id items pos = elim (pop items) [
  | none ↦ none
  | some (m, rest) ↦ if str_eq m.run_id id then some pos else drain_to rounds id rest (pos + 1)
]

-- `none` stands for -1.
unfoldable pub position_of : String → List Entry → Option ℕ
unfolding drain_to
position_of id items = drain_to (length items) id items 0

-- Every name of a priority is read back, and so is the empty text, as the default.
parse-show : (p : Priority) → parse_priority (show_priority p) ≡ some p
unfolding parse_priority show_priority
parse-show low = refl
parse-show normal = refl
parse-show high = refl
parse-show critical = refl
