-- ===== src/MessageHandler.antt =====
-- backend/internal/handler/message_handler.go: one page of older messages over HTTP. The claims are
-- `none` where the middleware has set none; `parse_uint` is strconv.ParseUint(s, 10, 64).
pub mod Masking
pub mod Client
pub mod Pages
pub mod Scroll
pub mod Paging
pub mod SentIds
use digital_square.Base.{
  ℕ, zero, suc, ◌+◌, ◌-◌, ◌*◌, ◌^◌, leb, ltb, ◌=?◌, code, ◌⊎◌, inl, inr, String, ◌==◌, Bool, true,
  false, ◌&&◌, Option, none, some, List, [], ◌∷◌, length, if◌then◌else◌,
}
use digital_square.Errors.{Result, ok, err}
use digital_square.Models.{Uuid, Time, Message, role_admin}
use digital_square.Http.{Refusal}
use digital_square.Auth.{Claims}
use digital_square.MessageService
use digital_square.MessageService.{Parts, State}

-- The map that `filterMessages` makes of a message; `none` is a key that is not set.
pub record MessageData : Type 0 where
  pub id : ℕ
  pub message_id : String
  pub user_id : Uuid
  pub username : String
  pub content : String
  pub created_at : Time
  pub deleted : Bool
  pub deleted_by_admin : Option Bool
  pub deleted_by : Option (Option Uuid)

abbrev pub placeholder : Bool → String
placeholder by_admin =
    if by_admin then "This message was deleted by admin" else "This message was deleted"

abbrev as_data : Message → MessageData
as_data msg = record {
  id = msg.id;
  message_id = msg.message_id;
  user_id = msg.user_id;
  username = msg.username;
  content = msg.content;
  created_at = msg.created_at;
  deleted = msg.deleted_at.valid;
  deleted_by_admin = none;
  deleted_by = none;
}

-- The body of the loop.
unfoldable pub filter_message : Bool → Message → MessageData
filter_message is_admin msg =
    if msg.deleted_at.valid
    then if is_admin
      then record (as_data msg) {
        deleted_by_admin = some msg.is_deleted_by_admin;
        deleted_by = some msg.deleted_by;
      }
      else record (as_data msg) { content = placeholder msg.is_deleted_by_admin }
    else as_data msg

unfoldable pub filter_messages : Bool → List Message → List MessageData
filter_messages is_admin [] = []
filter_messages is_admin (msg ∷ msgs) = filter_message is_admin msg ∷ filter_messages is_admin msgs

abbrev is_digit : ℕ → Bool
is_digit c = leb b'0' c && leb c b'9'

-- The number that a text of digits continues, as long as it has 64 bits.
digits : ℕ → String → Option ℕ
digits n String.[] = some n
digits n (String.◌∷◌ c s) =
    let longer = n * 10 + (code c - b'0') in
    let rest = digits longer s in if is_digit (code c) && ltb longer (2 ^ 64) then rest else none

unfoldable pub parse_uint : String → Option ℕ
unfolding digits
parse_uint s = let n = digits 0 s in if s == "" then none else n

pub record Page : Type 0 where
  pub messages : List MessageData
  pub count : ℕ
  pub has_more : Bool

abbrev refused : ℕ → String → Refusal ⊎ Page
refused status error = inl (record { status = status; error = error; retry_after = none })

abbrev pub page_size : ℕ
page_size = 50

abbrev pub page : List MessageData → Page
page items = record { messages = items; count = length items; has_more = length items =? page_size }

abbrev or_page : Bool → Result (List Message) → Refusal ⊎ Page
or_page is_admin (ok messages) = inr (page (filter_messages is_admin messages))
or_page is_admin (err _) = refused 500 "failed to fetch messages"

module _ (P : Parts) where
  abbrev fetch : Bool → ℕ → State P → (Refusal ⊎ Page) × State P
  fetch is_admin id s =
      let (r, s') = MessageService.get_messages_before P id page_size is_admin s in
      (or_page is_admin r, s')

  abbrev pub or_fetch : Claims → Option ℕ → State P → (Refusal ⊎ Page) × State P
  or_fetch claims none s = (refused 400 "invalid message ID", s)
  or_fetch claims (some id) s = fetch (claims.role == role_admin) id s

  unfoldable pub get_before : Option Claims → String → State P → (Refusal ⊎ Page) × State P
  get_before none id s = (refused 401 "authentication required", s)
  get_before (some claims) id s = or_fetch claims (parse_uint id) s
