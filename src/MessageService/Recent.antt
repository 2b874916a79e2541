-- ===== src/MessageService/Recent.antt =====
-- `GetRecentMessages` and `GetMessagesBefore` of message_service.go: where the answer comes from,
-- and what the cache holds afterwards.
use digital_square.Base.{
  ℕ, String, ◌≡◌, inl, inr, refl, sym, ap, ◌∙◌, List, [], ◌∷◌, ◌++◌, take, take-append-take,
  take_all, length, length-take, length-reverse, length-map, append-nil, ◌≤◌, subst, append_assoc,
  reverse, map, arith,
}
use mathlib.Core.List.{reverse-cons}
use digital_square.Errors.{Result, ok, err}
use digital_square.Action.{Result-cases}
use digital_square.Models.{Message}
use digital_square.Broker
use digital_square.Broker.Laws.{
  Caches, ReadsBack, as_json, cache_message-Caches, get_recent_messages-Caches,
}
use digital_square.Redis.{IsListStore}
use digital_square.Repository
use digital_square.Repository.{MessageTable, IsMessageTable}
use digital_square.MessageService.{
  Parts, State, warming, or_table, from_table, answer, get_recent_messages, warm_up, run_task,
}

module _ (P : Parts) (rows : P.table.State → List Message) (L : IsMessageTable P.table rows) where
  -- Neither the log nor a row changes.
  record Untouched (s s' : State P) : Type 0 where
    pub wal : s'.wal ≡ s.wal
    pub rows_same : rows s'.db ≡ rows s.db

  answer-Untouched : (msgs : List Message) (s : State P) → Untouched s (answer P msgs s).1
  unfolding answer
  answer-Untouched [] s = record { wal = refl; rows_same = refl }
  answer-Untouched (msg ∷ msgs) s = record { wal = refl; rows_same = refl }

  from_table-Untouched : (limit : ℕ) (s : State P) → Untouched s (from_table P limit s).1
  unfolding from_table Repository.get_recent_messages
  from_table-Untouched limit s =
      let read = P.table.find_recent limit s.db in
      let same : rows read.1 ≡ rows s.db = L.recent_reads limit s.db in
      elim (Result-cases read.0) [
        | inr (e, failed) ↦ rw failed (record { wal = refl; rows_same = same })
        | inl (msgs, got) ↦
            let t = answer-Untouched msgs (record s { db = read.1 }) in
            rw got (record { wal = t.wal; rows_same = t.rows_same ∙ same })
      ]

  or_table-Untouched :
      (limit : ℕ) (r : Result (List Message)) (s : State P) → Untouched s (or_table P limit r s).1
  or_table-Untouched limit (ok (msg ∷ msgs)) s = record { wal = refl; rows_same = refl }
  or_table-Untouched limit (ok []) s = from_table-Untouched limit s
  or_table-Untouched limit (err e) s = from_table-Untouched limit s

  pub get_recent_messages_untouched :
      (limit : ℕ) (s : State P)
      → ((get_recent_messages P limit s).1.wal ≡ s.wal)
        × (rows (get_recent_messages P limit s).1.db ≡ rows s.db)
  unfolding get_recent_messages
  get_recent_messages_untouched limit s =
      let cached = Broker.get_recent_messages P.redis P.message_json limit s.cache in
      let t = or_table-Untouched limit cached.0 (record s { cache = cached.1 }) in
      (t.wal, t.rows_same)

module _ (P : Parts) (list_at : P.redis.State → String → List String)
    (L : IsListStore P.redis list_at) (reads_back : ReadsBack P.message_json) where
  abbrev Cached : P.redis.State → List Message → Type 0
  Cached = Caches P.redis list_at L P.message_json reads_back

  -- Every one of the calls that the goroutine makes, one after another, succeeds.
  abbrev AllCached : List Message → P.redis.State → Type 0
  AllCached [] c = Unit
  AllCached (msg ∷ msgs) c =
      ((Broker.cache_message P.redis P.message_json msg c).0 ≡ ok tt)
      × AllCached msgs (Broker.cache_message P.redis P.message_json msg c).1

  warm_up-Caches :
      (msgs old : List Message) (c : P.redis.State)
      → Cached c old
      → length old ≤ 100
      → AllCached msgs c
      → Cached (warm_up P msgs c) (take 100 (reverse (map as_json msgs) ++ old))
  unfolding warm_up
  warm_up-Caches [] old c h few done = subst (Cached c) (sym (take_all 100 old few)) h
  warm_up-Caches (msg ∷ msgs) old c h few (first, done) =
      let h' = cache_message-Caches P.redis list_at L P.message_json reads_back msg old c h first in
      let all =
        warm_up-Caches msgs (take 100 (as_json msg ∷ old)) _ h'
          (omega (arith, length-take 100 (as_json msg ∷ old))) done in
      subst (Cached _)
        (take-append-take 100 100 (reverse (map as_json msgs)) (as_json msg ∷ old) (omega arith)
          ∙ ap (take 100) (
              sym (append_assoc (reverse (map as_json msgs)) (as_json msg ∷ []) old)
              ∙ ap (λ l. l ++ old) (sym (reverse-cons (as_json msg) (map as_json msgs)))))
        all

  -- The goroutine that fills an empty cache with an answer of the table of at most 100 messages
  -- pushes them in the answer's order, so that the cache, if all its calls succeed, then gives
  -- them the other way round.
  warm_up_reverses :
      (msgs found : List Message) (c : P.redis.State)
      → Cached c []
      → length msgs ≤ 100
      → AllCached msgs c
      → (Broker.get_recent_messages P.redis P.message_json 100 (run_task P (warming msgs) c)).0
        ≡ ok found
      → found ≡ reverse (map as_json msgs)
  unfolding run_task
  warm_up_reverses msgs found c h few done read =
      let newest = reverse (map as_json msgs) in
      let short : length newest ≤ 100 =
        omega (arith, length-reverse (map as_json msgs), length-map as_json msgs, few) in
      let full : take 100 (newest ++ []) ≡ newest =
        ap (take 100) (append-nil newest) ∙ take_all 100 newest short in
      let cached = subst (Cached _) full (warm_up-Caches msgs [] c h (omega arith) done) in
      get_recent_messages-Caches P.redis list_at L P.message_json reads_back 100 newest found _
        cached read
      ∙ take_all 100 newest short
