-- ===== src/MessageHandler/Client.antt =====
-- `loadOlderMessages` of frontend/src/hooks/use-websocket.tsx: the client that asks GetBefore of
-- message_handler.go for older messages.
use digital_square.Base.{
  ℕ, zero, suc, ◌⊎◌, inl, inr, Bool, Option, none, some, List, [], ◌∷◌, ◌++◌, if◌then◌else◌,
}
use digital_square.Http.{Refusal}
use digital_square.Auth.{Claims}
use digital_square.MessageService.{Parts, State}
use digital_square.MessageHandler.{MessageData, Page, or_fetch}

-- The messages that are shown, newest first, and whether the server may have more.
pub record Client : Type 0 where
  pub messages : List MessageData
  pub has_more : Bool

abbrev pub oldest : List MessageData → Option ℕ
oldest [] = none
oldest (item ∷ []) = some item.id
oldest (item ∷ items) = oldest items

-- A failed request is only logged.
abbrev pub show : Client → Refusal ⊎ Page → Client
show c (inl refusal) = c
show c (inr p) = record { messages = c.messages ++ p.messages; has_more = p.has_more }

module _ (P : Parts) (claims : Claims) where
  abbrev pub ask : Client → Option ℕ → State P → Client × State P
  ask c none s = (c, s)
  ask c (some id) s = let (r, s') = or_fetch P claims (some id) s in (show c r, s')

  unfoldable pub load_older : Client → State P → Client × State P
  load_older c s = if c.has_more then ask c (oldest c.messages) s else (c, s)

  unfoldable pub load : ℕ → Client → State P → Client × State P
  load zero c s = (c, s)
  load (suc n) c s = let (c', s') = load_older c s in load n c' s'
