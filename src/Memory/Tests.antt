-- ===== src/Memory/Tests.antt =====
-- internal/memory: a recall from two tiers, one of which fails.
use sandcode.Base.{zero, suc, ◌<◌, ◌+◌, ◌≡◌, refl, sym, [], ◌∷◌, inl, String, arith}
use sandcode.Base.Int.{pos}
use sandcode.Memory.{
  Item, lesson, items, failure, Tier, ask_tiers, per_tier, limit_or_default, recall,
}
use sandcode.Memory.Recall.{KeepsLimit, recall-limited}

abbrev a_lesson : Item
a_lesson = record { kind = lesson; text = []; source = "notes"; status = "" }

abbrev notes : Tier String
notes prompt zero = items []
notes prompt (suc n) = items (a_lesson ∷ [])

notes-KeepsLimit : KeepsLimit notes
notes-KeepsLimit prompt zero xs e = let same : [] ≡ xs = cc in rw (sym same) (omega arith)
notes-KeepsLimit prompt (suc n) xs e =
    let same : a_lesson ∷ [] ≡ xs = cc in rw (sym same) (omega arith)

abbrev offline : Tier String
offline prompt n = failure "offline"

offline-KeepsLimit : KeepsLimit offline
offline-KeepsLimit prompt n xs e = cc

recalls_a_lesson : recall (notes ∷ offline ∷ []) [] (pos 3) ≡ inl (a_lesson ∷ [])
unfolding recall ask_tiers per_tier limit_or_default
recalls_a_lesson = refl

recall-limited_example : 1 < limit_or_default (pos 3) + 2
recall-limited_example =
    recall-limited (notes ∷ offline ∷ []) [] (pos 3) (a_lesson ∷ [])
      (notes-KeepsLimit, (offline-KeepsLimit, tt)) recalls_a_lesson
