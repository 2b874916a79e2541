-- ===== src/Tests/PagingRuns.antt =====
-- The theorems on scrolling back and on messages that are not saved yet, on concrete inputs.
use digital_square.Base.{ℕ, ◌≡◌, inr, refl, true, false, none, some, [], ◌∷◌, All, arith}
use digital_square.Errors.{ok, err, message_not_found}
use digital_square.Html.{escape_string}
use digital_square.Models.{Message}
use digital_square.Auth.{Claims}
use digital_square.Repository
use digital_square.Repository.Order.{sort_newest, insert_newest}
use digital_square.MessageService
use digital_square.MessageService.{State, send_message, delete_message}
use digital_square.MessageService.Send.{send_message_accepts}
use digital_square.MessageService.Unsaved.{delete_message-send_message}
use digital_square.MessageHandler.Masking.{get_before_shows}
use digital_square.MessageHandler.{
  Page, filter_message, filter_messages, page, get_before, parse_uint,
}
use digital_square.MessageHandler.Client.{Client, load_older, load}
use digital_square.MessageHandler.Paging.{history, load_shows}
use digital_square.MessageHandler.SentIds.{get_before-send_message}
use digital_square.MessageHandler.Scroll.{IsScrolled}
use digital_square.Wal.Contents.{no_write_faults}
use digital_square.Tests.Table.{memory_table-IsMessageTable}
use digital_square.Tests.Samples.{parts, empty_state, hello, hello-IsStorable, empty_log-Holds}

abbrev numbered : ℕ → ℕ → Message
numbered id time = record hello { id = id; created_at = time }

-- Two saved messages, and a client that shows the newer one of them.
abbrev two_rows : State parts
two_rows = record empty_state { db = numbered 1 5 ∷ numbered 2 6 ∷ [] }

abbrev user_claims : Claims
user_claims = record {
  user_id = 8;
  email = "";
  username = "eve";
  role = "user";
  expires_at = some 100;
  issued_at = some 10;
  not_before = some 10;
}

abbrev shown_first : Client
shown_first = record { messages = filter_messages false (numbered 2 6 ∷ []); has_more = true }

load_shows_example :
    IsScrolled
      (history parts (λ rows. rows) memory_table-IsMessageTable user_claims 2 two_rows.db)
      shown_first
      3
      (load parts user_claims 3 shown_first two_rows).0
unfolding filter_messages filter_message
load_shows_example =
    load_shows parts (λ rows. rows) memory_table-IsMessageTable user_claims (λ before t. (_, refl))
      3 shown_first two_rows 2 (((omega arith, omega arith), tt), (tt, tt)) refl refl

-- What comes out: both messages, and the end of the history.
loads_run : (load parts user_claims 3 shown_first two_rows).0 ≡ record {
  messages = filter_messages false (numbered 2 6 ∷ numbered 1 5 ∷ []);
  has_more = false;
}
unfolding load load_older filter_messages filter_message MessageService.get_messages_before
    Repository.get_messages_before sort_newest insert_newest
loads_run = refl

is_sent : (send_message parts 1 5 no_write_faults 7 "ann" "hello" empty_state).0 ≡ ok hello
is_sent =
    send_message_accepts parts 1 5 7 "ann" "hello" empty_state [] (omega arith) (omega arith)
      empty_log-Holds hello-IsStorable

get_before-send_message_example :
    (get_before parts (some user_claims) "0" two_rows).0 ≡ inr (page [])
unfolding parse_uint escape_string sort_newest
get_before-send_message_example =
    get_before-send_message parts (λ rows. rows) memory_table-IsMessageTable 1 5 no_write_faults 7
      "ann" "hello" empty_state two_rows hello user_claims "0" [] is_sent refl refl

delete_message-send_message_example :
    let sent = (send_message parts 1 5 no_write_faults 7 "ann" "hello" empty_state).1 in
    let run = delete_message parts 9 "m1" 7 false sent in
    (run.0 ≡ err message_not_found)
    × (run.1.db ≡ [])
    × (run.1.cache ≡ empty_state.cache)
    × (run.1.wal ≡ sent.wal)
delete_message-send_message_example =
    delete_message-send_message parts (λ rows. rows) memory_table-IsMessageTable 1 5 9
      no_write_faults 7 7 "ann" "hello" false empty_state hello is_sent tt

-- One of the two messages is deleted, and an administrator asks for them.
abbrev deleted_row : State parts
deleted_row = record empty_state {
  db = numbered 1 5 ∷ record (numbered 2 6) { deleted_at = record { time = 7; valid = true } } ∷ [];
}

abbrev admin_page : Page
admin_page = page (filter_messages true (numbered 1 5 ∷ []))

admin_answered :
    (get_before parts (some (record user_claims { role = "admin" })) "3" deleted_row).0
    ≡ inr admin_page
unfolding get_before parse_uint filter_messages filter_message MessageService.get_messages_before
    Repository.get_messages_before sort_newest insert_newest
admin_answered = refl

get_before_shows_example :
    All (λ d. (d.deleted ≡ false) × (d.deleted_by ≡ none)) admin_page.messages
get_before_shows_example =
    get_before_shows parts (λ rows. rows) memory_table-IsMessageTable
      (record user_claims { role = "admin" }) "3" deleted_row admin_page admin_answered
