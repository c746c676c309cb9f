-- ===== src/Bus.antt =====
-- internal/event/local.go: the in-process bus. The handlers are of any type: `publish` answers the list of
-- those that are called, in their order, and what one of them returns changes nothing. A topic is the text
-- of an event type, or "*" for all.
mod Tests
pub mod Log
pub mod Delivery
use sandcode.Base.{
  ℕ, ◌+◌, ◌%◌, ◌^◌, String, List, [], ◌∷◌, ◌++◌, map, Option, none, some, Bool, true, false, ◌==◌,
  str_eq, if◌then◌else◌,
}
use sandcode.Base.Dict.{Dict, lookup, put}

pub record SubEntry (H : Type 0) : Type 0 where
  pub id : ℕ
  pub handler : H

pub record LocalBus (H : Type 0) : Type 0 where
  pub subs : Dict (List (SubEntry H))
  pub all : List (SubEntry H)
  pub seq : ℕ

-- `once` holds whether `Cancel` was called.
pub record LocalSub : Type 0 where
  pub typ : String
  pub id : ℕ
  pub once : Bool

-- `b.seq++` on a uint64.
abbrev pub next_id : ℕ → ℕ
next_id seq = (seq + 1) % 2 ^ 64

module _ {H : Type 0} where
  abbrev entries_of : Option (List (SubEntry H)) → List (SubEntry H)
  entries_of none = []
  entries_of (some es) = es

  -- `b.subs[typ]`
  unfoldable pub entries : String → LocalBus H → List (SubEntry H)
  entries typ b = entries_of (lookup typ b.subs)

  unfoldable pub publish : String → LocalBus H → List H
  unfolding entries
  publish typ b = map (λ e. e.handler) (entries typ b) ++ map (λ e. e.handler) b.all

  unfoldable pub subscribe : String → H → LocalBus H → LocalBus H × LocalSub
  unfolding entries
  subscribe typ h b =
      let entry : SubEntry H = record { id = next_id b.seq; handler = h } in
      (
        if str_eq typ "*"
            then record b { seq = next_id b.seq; all = b.all ++ entry ∷ [] }
            else record b {
              seq = next_id b.seq;
              subs = put typ (entries typ b ++ entry ∷ []) b.subs;
            },
        record { typ = typ; id = next_id b.seq; once = false },
      )

  unfoldable pub close : LocalBus H → LocalBus H
  close b = record b { subs = []; all = [] }

  unfoldable pub remove_by_id : List (SubEntry H) → ℕ → List (SubEntry H)
  remove_by_id [] id = []
  remove_by_id (e ∷ es) id = let rest = remove_by_id es id in if e.id == id then es else e ∷ rest

  abbrev pub remove_found : String → ℕ → LocalBus H → Option (List (SubEntry H)) → LocalBus H
  remove_found typ id b none = b
  remove_found typ id b (some es) = record b { subs = put typ (remove_by_id es id) b.subs }

  unfoldable pub remove_sub : String → ℕ → LocalBus H → LocalBus H
  remove_sub typ id b =
      if str_eq typ "*"
      then record b { all = remove_by_id b.all id }
      else remove_found typ id b (lookup typ b.subs)

  unfoldable pub cancel : LocalSub → LocalBus H → LocalSub × LocalBus H
  cancel s b = if s.once then (s, b) else (record s { once = true }, remove_sub s.typ s.id b)

  unfoldable pub new_local_bus : LocalBus H
  new_local_bus = record { subs = []; all = []; seq = 0 }
