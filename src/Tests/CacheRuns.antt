-- ===== src/Tests/CacheRuns.antt =====
-- The theorems of the cache on concrete inputs.
use digital_square.Base.{◌≡◌, refl, true, false, List, [], ◌∷◌, ◌++◌, arith, ◌==◌, if◌then◌else◌}
use digital_square.Errors.{ok}
use digital_square.Models.{Message}
use digital_square.Broker
use digital_square.Broker.Laws.{as_json, Caches, mark_first, mark_message_as_deleted-Caches}
use digital_square.Broker.Race.{mark_while, mark_race}
use digital_square.Tests.Memory.{Store, memory, memory-IsListStore, empty_store}
use digital_square.Tests.Samples.{plain, message_json, message_json-ReadsBack}

abbrev one : Message
one = plain false false "a"

abbrev two : Message
two = plain false false "b"

abbrev Cached : Store → List Message → Type 0
Cached = Caches memory (λ s. s.lists) memory-IsListStore message_json message_json-ReadsBack

abbrev with_one : Store
with_one = record empty_store { lists = λ k. if k == "global:recent" then "00a" ∷ [] else [] }

marked_one : (Broker.mark_message_as_deleted memory message_json "a" true with_one).0 ≡ ok tt
unfolding Broker.mark_message_as_deleted Broker.mark_from Broker.replace_at
marked_one = refl

mark_message_as_deleted-Caches_example :
    Cached
      (Broker.mark_message_as_deleted memory message_json "a" true with_one).1
      (mark_first "a" true (one ∷ []))
mark_message_as_deleted-Caches_example =
    mark_message_as_deleted-Caches memory (λ s. s.lists) memory-IsListStore message_json
      message_json-ReadsBack "a" true (one ∷ []) with_one (refl, tt) marked_one

-- One message is cached; while it is being deleted, another one is pushed.
marked_while :
    (mark_while memory message_json
      (λ t. (Broker.cache_message memory message_json two t).1)
      "a"
      true
      with_one).0
    ≡ ok tt
unfolding mark_while Broker.cache_message Broker.mark_from Broker.replace_at
marked_while = refl

mark_race_example :
    Cached
      (mark_while memory message_json
        (λ t. (Broker.cache_message memory message_json two t).1)
        "a"
        true
        with_one).1
      ([] ++ as_json (Broker.as_deleted true one) ∷ one ∷ [])
unfolding Broker.cache_message
mark_race_example =
    mark_race memory (λ s. s.lists) memory-IsListStore message_json message_json-ReadsBack "a" true
      [] [] [] one two two with_one (refl, tt) tt refl (omega arith) refl refl marked_while
