-- ===== src/Broker.antt =====
-- backend/internal/broker: the cache of the last 100 messages, a Redis list of JSON texts.
pub mod Laws
pub mod Race
use digital_square.Base.{
  ℕ, suc, String, ◌==◌, Bool, true, Option, none, some, List, [], ◌∷◌, if◌then◌else◌,
}
use digital_square.Action.{Action, pure, from, ◌>>=◌, ◌>>◌}
use digital_square.Codec.{Codec}
use digital_square.Models.{Message}
use digital_square.Redis.{Redis, pos, negsuc, before}

abbrev pub recent_key : String
recent_key = "global:recent"

-- Go's `continue` on an element that does not decode.
pub decode_messages : Codec Message → List String → List Message
decode_messages c [] = []
decode_messages c (text ∷ texts) = elim (c.unmarshal text) [
  | none ↦ decode_messages c texts
  | some msg ↦ msg ∷ decode_messages c texts
]

-- The fields that a soft delete sets in the cached copy.
abbrev pub as_deleted : Bool → Message → Message
as_deleted by_admin msg = record msg {
  deleted_at = record msg.deleted_at { valid = true };
  is_deleted_by_admin = by_admin;
}

module _ (R : Redis) (c : Codec Message) where
  unfoldable pub cache_message : Message → Action R.State (Unit {0})
  cache_message msg = do
    text ← from (λ _. c.marshal msg)
    R.l_push recent_key text
    R.l_trim recent_key (pos 0) (pos 99)

  unfoldable pub get_recent_messages : ℕ → Action R.State (List Message)
  get_recent_messages limit = do
    results ← R.l_range recent_key (pos 0) (before limit)
    pure (decode_messages c results)

  -- The body of the loop at the message that is looked for.
  unfoldable pub replace_at : ℕ → Bool → Message → Action R.State (Unit {0})
  replace_at i by_admin msg = do
    updated ← from (λ _. c.marshal (as_deleted by_admin msg))
    R.l_set recent_key (pos i) updated

  -- The loop over the cached texts, from index `i` on.
  unfoldable pub mark_from : ℕ → String → Bool → List String → Action R.State (Unit {0})
  mark_from i message_id by_admin [] s = pure tt s
  mark_from i message_id by_admin (text ∷ texts) s =
      let next = mark_from (suc i) message_id by_admin texts s in
      elim (c.unmarshal text) [
        | none ↦ next
        | some msg ↦ if msg.message_id == message_id then replace_at i by_admin msg s else next
      ]

  unfoldable pub mark_message_as_deleted : String → Bool → Action R.State (Unit {0})
  unfolding mark_from replace_at
  mark_message_as_deleted message_id by_admin = do
    results ← R.l_range recent_key (pos 0) (negsuc 0)
    mark_from 0 message_id by_admin results
