-- ===== src/Bus/Log.antt =====
-- The bus against a plain list of the subscriptions in the order in which they were made.
use sandcode.Base.{
  ℕ, ◌≡◌, refl, sym, ap, ◌∙◌, subst, inl, inr, String, List, [], ◌∷◌, ◌++◌, map, Option, none, some,
  Bool, true, false, ◌&&◌, arith, ◌==◌, str_eq, eq_iff, if◌then◌else◌, Bool-cases,
}
use sandcode.Base.Dict.{lookup, put, lookup-put}
use sandcode.Bus.{
  SubEntry, LocalBus, LocalSub, entries, publish, next_id, subscribe, close, remove_by_id,
  remove_found, remove_sub, cancel, new_local_bus,
}

pub record Listed (H : Type 0) : Type 0 where
  pub topic : String
  pub entry : SubEntry H

other_topic : (typ t : String) → str_eq typ "*" ≡ true → str_eq t "*" ≡ false → str_eq typ t ≡ false
other_topic typ t y n = ground (arith, eq_iff typ t, eq_iff typ "*", eq_iff t "*")

module _ {H : Type 0} where
  -- The subscriptions to one topic.
  unfoldable pub on : String → List (Listed H) → List (SubEntry H)
  on typ [] = []
  on typ (s ∷ log) = let rest = on typ log in if str_eq s.topic typ then s.entry ∷ rest else rest

  -- The list without the first subscription to the topic with that id.
  unfoldable pub strike : String → ℕ → List (Listed H) → List (Listed H)
  strike typ id [] = []
  strike typ id (s ∷ log) =
      let rest = strike typ id log in
      if str_eq s.topic typ && (s.entry.id == id) then log else s ∷ rest

  -- Each topic of the bus has the subscriptions of the list, in their order.
  pub record Refines (b : LocalBus H) (log : List (Listed H)) : Type 0 where
    pub topics : (typ : String) → str_eq typ "*" ≡ false → entries typ b ≡ on typ log
    pub wildcard : b.all ≡ on "*" log

  entries-put :
      (typ t : String) (es : List (SubEntry H)) (b : LocalBus H)
      → entries typ (record b { subs = put t es b.subs })
        ≡ (if str_eq t typ then es else entries typ b)
  unfolding entries
  entries-put typ t es b = elim (Bool-cases (str_eq t typ)) [
    | inl y ↦ rw (lookup-put t typ es b.subs, y) refl
    | inr n ↦ rw (lookup-put t typ es b.subs, n) refl
  ]

  on-snoc :
      (typ : String) (log : List (Listed H)) (s : Listed H)
      → on typ (log ++ s ∷ [])
        ≡ (if str_eq s.topic typ then on typ log ++ s.entry ∷ [] else on typ log)
  unfolding on
  on-snoc typ [] s = ground arith
  on-snoc typ (x ∷ log) s = ground (arith, on-snoc typ log s)

  on-strike :
      (typ t : String) (id : ℕ) (log : List (Listed H))
      → on typ (strike t id log)
        ≡ (if str_eq t typ then remove_by_id (on typ log) id else on typ log)
  unfolding on strike remove_by_id
  on-strike typ t id [] = ground arith
  on-strike typ t id (x ∷ log) =
      ground (arith, on-strike typ t id log, eq_iff x.topic t, eq_iff x.topic typ, eq_iff t typ)

  abbrev pub listed : String → ℕ → H → Listed H
  listed typ id h = record { topic = typ; entry = record { id = id; handler = h } }

  pub subscribe-Refines :
      (b : LocalBus H) (log : List (Listed H)) (typ : String) (h : H)
      → Refines b log
      → Refines (subscribe typ h b).0 (log ++ listed typ (next_id b.seq) h ∷ [])
  unfolding subscribe entries
  subscribe-Refines b log typ h r =
      let s = listed typ (next_id b.seq) h in
      elim (Bool-cases (str_eq typ "*")) [
        | inl y ↦ rw y (record {
          topics = λ t n. r.topics t n ∙ sym (on-snoc t log s ∙ rw (other_topic typ t y n) refl);
          wildcard = ap (λ l. l ++ s.entry ∷ []) r.wildcard ∙ sym (on-snoc "*" log s ∙ rw y refl);
        })
        | inr n ↦ rw n (record {
          topics = λ t m.
              entries-put t typ (entries typ b ++ s.entry ∷ []) b ∙ added t m (on-snoc t log s);
          wildcard = r.wildcard ∙ sym (on-snoc "*" log s ∙ rw n refl);
        })
      ]
    where
      added :
          (t : String)
          → str_eq t "*" ≡ false
          → on t (log ++ listed typ (next_id b.seq) h ∷ []) ≡ (
              if str_eq typ t
              then on t log ++ record { id = next_id b.seq; handler = h } ∷ []
              else on t log)
          → (if str_eq typ t
              then entries typ b ++ record { id = next_id b.seq; handler = h } ∷ []
              else entries t b)
            ≡ on t (log ++ listed typ (next_id b.seq) h ∷ [])
      added t m e = elim (Bool-cases (str_eq typ t)) [
        | inl y ↦
            let same : typ ≡ t = (eq_iff typ t).0 y in
            rw y (
              ap (λ l. l ++ record { id = next_id b.seq; handler = h } ∷ [])
                (ap (λ k. entries k b) same ∙ r.topics t m)
              ∙ sym (e ∙ rw y refl))
        | inr n ↦ rw n (r.topics t m ∙ sym (e ∙ rw n refl))
      ]

  entries_none : (b : LocalBus H) (typ : String) → lookup typ b.subs ≡ none → entries typ b ≡ []
  unfolding entries
  entries_none b typ missing = rw missing refl

  entries_some :
      (b : LocalBus H) (typ : String) (es : List (SubEntry H))
      → lookup typ b.subs ≡ some es
      → entries typ b ≡ es
  unfolding entries
  entries_some b typ es found = rw found refl

  module _ (b : LocalBus H) (log : List (Listed H)) (typ : String) (id : ℕ) (r : Refines b log)
      (named : str_eq typ "*" ≡ false) where
    struck :
        (t : String)
        → str_eq t "*" ≡ false
        → (if str_eq typ t then remove_by_id (entries typ b) id else entries t b)
          ≡ on t (strike typ id log)
    struck t m = elim (Bool-cases (str_eq typ t)) [
      | inl y ↦
          let same : typ ≡ t = (eq_iff typ t).0 y in
          rw y (
            ap (λ l. remove_by_id l id) (ap (λ k. entries k b) same ∙ r.topics t m)
            ∙ sym (on-strike t typ id log ∙ rw y refl))
      | inr n ↦ rw n (r.topics t m ∙ sym (on-strike t typ id log ∙ rw n refl))
    ]

    same_wildcard : b.all ≡ on "*" (strike typ id log)
    same_wildcard = r.wildcard ∙ sym (on-strike "*" typ id log ∙ rw named refl)

    remove_found-Refines :
        (o : Option (List (SubEntry H)))
        → lookup typ b.subs ≡ o
        → Refines (remove_found typ id b o) (strike typ id log)
    remove_found-Refines none missing = record {
      topics = λ t m. unchanged t ∙ struck t m;
      wildcard = same_wildcard;
    }
      where
        unchanged :
            (t : String)
            → entries t b ≡ (if str_eq typ t then remove_by_id (entries typ b) id else entries t b)
        unchanged t = elim (Bool-cases (str_eq typ t)) [
          | inl y ↦
              let same : typ ≡ t = (eq_iff typ t).0 y in
              rw y (
                ap (λ k. entries k b) (sym same)
                ∙ entries_none b typ missing
                ∙ sym (
                    ap (λ l. remove_by_id l id) (entries_none b typ missing)
                    ∙ unfold remove_by_id in refl))
          | inr n ↦ rw n refl
        ]
    remove_found-Refines (some es) found = record {
      topics = λ t m.
          entries-put t typ (remove_by_id es id) b
          ∙ ap (λ l. if str_eq typ t then remove_by_id l id else entries t b)
              (sym (entries_some b typ es found))
          ∙ struck t m;
      wildcard = same_wildcard;
    }

  entries_all :
      (t : String) (es : List (SubEntry H)) (b : LocalBus H)
      → entries t (record b { all = es }) ≡ entries t b
  unfolding entries
  entries_all t es b = refl

  remove_sub-Refines :
      (b : LocalBus H) (log : List (Listed H)) (typ : String) (id : ℕ)
      → Refines b log
      → Refines (remove_sub typ id b) (strike typ id log)
  unfolding remove_sub
  remove_sub-Refines b log typ id r = elim (Bool-cases (str_eq typ "*")) [
    | inl y ↦ rw y (record {
      topics = λ t n.
          entries_all t (remove_by_id b.all id) b
          ∙ r.topics t n
          ∙ sym (on-strike t typ id log ∙ rw (other_topic typ t y n) refl);
      wildcard =
          ap (λ l. remove_by_id l id) r.wildcard ∙ sym (on-strike "*" typ id log ∙ rw y refl);
    })
    | inr n ↦ rw n (remove_found-Refines b log typ id r n (lookup typ b.subs) refl)
  ]

  cancel_again : (s : LocalSub) (b : LocalBus H) → s.once ≡ true → (cancel s b).1 ≡ b
  unfolding cancel
  cancel_again s b e = simp (e)

  cancel_first :
      (s : LocalSub) (b : LocalBus H) → s.once ≡ false → (cancel s b).1 ≡ remove_sub s.typ s.id b
  unfolding cancel
  cancel_first s b e = simp (e)

  pub cancel-Refines :
      (s : LocalSub) (b : LocalBus H) (log : List (Listed H))
      → Refines b log
      → Refines (cancel s b).1 (if s.once then log else strike s.typ s.id log)
  cancel-Refines s b log r = elim (Bool-cases s.once) [
    | inl y ↦
        subst (λ (x : LocalBus H). Refines x (if s.once then log else strike s.typ s.id log))
          (sym (cancel_again s b y))
          (subst (λ (o : Bool). Refines b (if o then log else strike s.typ s.id log)) (sym y) r)
    | inr n ↦
        subst (λ (x : LocalBus H). Refines x (if s.once then log else strike s.typ s.id log))
          (sym (cancel_first s b n))
          (subst
            (λ (o : Bool).
              Refines (remove_sub s.typ s.id b) (if o then log else strike s.typ s.id log))
            (sym n) (remove_sub-Refines b log s.typ s.id r))
  ]

  pub close-Refines : (b : LocalBus H) → Refines (close b) []
  unfolding close entries on lookup
  close-Refines b = record { topics = λ t n. refl; wildcard = refl }

  pub new-Refines : Refines new_local_bus []
  unfolding new_local_bus entries on lookup
  new-Refines = record { topics = λ t n. refl; wildcard = refl }

  -- What `publish` calls: the handlers of the topic, then those of all topics.
  pub publish-Refines :
      (typ : String) (b : LocalBus H) (log : List (Listed H))
      → str_eq typ "*" ≡ false
      → Refines b log
      → publish typ b ≡ map (λ e. e.handler) (on typ log) ++ map (λ e. e.handler) (on "*" log)
  unfolding publish
  publish-Refines typ b log n r = rw (r.topics typ n, r.wildcard) refl
