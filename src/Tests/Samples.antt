-- ===== src/Tests/Samples.antt =====
-- Sample data: two log entries with a JSON stand-in, a JSON stand-in for messages of which only the
-- id and the deletion marks are set, and a service made of them.
use text.Mathlib.TextPositions.{len-append}
use digital_square.Base.{
  ℕ, ◌<>◌, zero, suc, ◌-◌, len, ◌=?◌, ◌≡◌, refl, not, subst, ap, sym, Char, code, String, ◌==◌,
  eq_iff, Bool, true, false, ◌&&◌, Option, none, some, [], ◌∷◌, Bool-cases, inl, inr, arith,
  if◌then◌else◌,
}
use digital_square.Errors.{external, ok, err}
use digital_square.Codec.{Codec}
use digital_square.Models.{Message, User, no_message, no_user}
use digital_square.Wal.{Wal, WalEntry}
use digital_square.Wal.Contents.{IsStorable, Holds, Survives, render}
use digital_square.Scanner.{drop_cr}
use digital_square.Broker.Laws.{as_json, ReadsBack}
use digital_square.MessageService.{Parts, State, IsUuidText, new_message, wal_entry}
use digital_square.Html.{escape_string}
use digital_square.Tests.Table.{memory_table}
use digital_square.Tests.Memory.{memory, empty_store}

abbrev pub first_entry : WalEntry
first_entry = record { message_id = "m1"; user_id = "u7"; content = "hello"; timestamp = 5 }

abbrev pub second_entry : WalEntry
second_entry = record { message_id = "m2"; user_id = "u8"; content = "bye"; timestamp = 6 }

-- The text of an entry is its id.
abbrev pub entry_json : Codec WalEntry
entry_json = record {
  marshal = λ e. ok e.message_id;
  unmarshal = λ text.
      if text == "m1" then some first_entry else if text == "m2" then some second_entry else none;
}

pub first_entry-IsStorable : IsStorable entry_json first_entry
unfolding drop_cr
first_entry-IsStorable = record {
  marshalled = refl;
  is_line = record {
    no_newline = (omega arith, (omega arith, tt));
    no_return = refl;
    fits = omega arith;
  };
  reads_back = refl;
}

pub second_entry-IsStorable : IsStorable entry_json second_entry
unfolding drop_cr
second_entry-IsStorable = record {
  marshalled = refl;
  is_line = record {
    no_newline = (omega arith, (omega arith, tt));
    no_return = refl;
    fits = omega arith;
  };
  reads_back = refl;
}

abbrev flag : Bool → Char
flag true = "1"
flag false = "0"

abbrev is_plain_user : User → Bool
is_plain_user u =
    u.id =? 0
    && u.username == ""
    && u.email == ""
    && u.role == ""
    && u.created_at =? 0
    && u.updated_at =? 0
    && u.deleted_at.time =? 0
    && not u.deleted_at.valid

abbrev is_nobody : Option ℕ → Bool
is_nobody none = true
is_nobody (some id) = false

abbrev is_plain : Message → Bool
is_plain m =
    m.id =? 0
    && m.user_id =? 0
    && m.username == ""
    && m.content == ""
    && m.created_at =? 0
    && m.deleted_at.time =? 0
    && is_nobody m.deleted_by
    && is_plain_user m.user

abbrev pub plain : Bool → Bool → String → Message
plain valid by_admin message_id = record no_message {
  message_id = message_id;
  deleted_at = record { time = 0; valid = valid };
  is_deleted_by_admin = by_admin;
}

abbrev from_text : String → Option Message
from_text String.[] = none
from_text (String.◌∷◌ a String.[]) = none
from_text (String.◌∷◌ a (String.◌∷◌ b id)) = some (plain (code a =? 49) (code b =? 49) id)

abbrev pub message_json : Codec Message
message_json = record {
  marshal = λ m.
      if is_plain m
      then ok (
          String.◌∷◌ (flag m.deleted_at.valid)
            (String.◌∷◌ (flag m.is_deleted_by_admin) m.message_id))
      else err (external "not a plain message");
  unmarshal = from_text;
}

user_plain : (u : User) → is_plain_user u ≡ true → record u { password_hash = "" } ≡ no_user
user_plain u h =
    let name = eq_iff u.username "" in
    let mail = eq_iff u.email "" in
    let role = eq_iff u.role "" in
    let i : u.id ≡ 0 = ground arith in
    let n : u.username ≡ "" = ground (arith, name) in
    let m : u.email ≡ "" = ground (arith, mail) in
    let r : u.role ≡ "" = ground (arith, role) in
    let c : u.created_at ≡ 0 = ground arith in
    let p : u.updated_at ≡ 0 = ground arith in
    let t : u.deleted_at.time ≡ 0 = ground arith in
    let v : u.deleted_at.valid ≡ false = ground arith in
    λ k. record {
      id = i k;
      username = n k;
      email = m k;
      password_hash = "";
      role = r k;
      created_at = c k;
      updated_at = p k;
      deleted_at = record { time = t k; valid = v k };
    }

message_plain :
    (m : Message)
    → is_plain m ≡ true
    → as_json m ≡ plain m.deleted_at.valid m.is_deleted_by_admin m.message_id
message_plain m h =
    let name = eq_iff m.username "" in
    let text = eq_iff m.content "" in
    let i : m.id ≡ 0 = ground arith in
    let a : m.user_id ≡ 0 = ground arith in
    let n : m.username ≡ "" = ground (arith, name) in
    let c : m.content ≡ "" = ground (arith, text) in
    let d : m.created_at ≡ 0 = ground arith in
    let t : m.deleted_at.time ≡ 0 = ground arith in
    let b : m.deleted_by ≡ none = ground arith in
    let u = user_plain m.user (ground arith) in
    λ k. record {
      id = i k;
      message_id = m.message_id;
      user_id = a k;
      username = n k;
      content = c k;
      created_at = d k;
      deleted_at = record { time = t k; valid = m.deleted_at.valid };
      deleted_by = b k;
      is_deleted_by_admin = m.is_deleted_by_admin;
      user = u k;
    }

flag-code : (b : Bool) → (code (flag b) =? 49) ≡ b
flag-code true = refl
flag-code false = refl

pub message_json-ReadsBack : ReadsBack message_json
message_json-ReadsBack m text h = elim (Bool-cases (is_plain m)) [
  | inr bad ↦ ground (arith, bad)
  | inl good ↦
      let e : String.◌∷◌ (flag m.deleted_at.valid)
            (String.◌∷◌ (flag m.is_deleted_by_admin) m.message_id)
          ≡ text =
        cc (
          h,
          ap
              (λ b.
                if b
                then ok (
                    String.◌∷◌ (flag m.deleted_at.valid)
                      (String.◌∷◌ (flag m.is_deleted_by_admin) m.message_id))
                else err (external "not a plain message"))
              good,
        ) in
      subst (λ t. from_text t ≡ some (as_json m)) e
        (rw (flag-code m.deleted_at.valid)
          (rw (flag-code m.is_deleted_by_admin) (ap some (sym (message_plain m good)))))
]

-- A text of this many characters.
abbrev unary : ℕ → String
unary zero = ""
unary (suc n) = "x" <> unary n

len-unary : (n : ℕ) → len (unary n) ≡ n
len-unary zero = refl
len-unary (suc n) = let l = len-append "x" (unary n) in let k = len-unary n in omega arith

-- A service whose id texts are "m1", "m2", "u7" and texts that are longer.
abbrev id_text : ℕ → String
id_text n =
    if n =? 1
    then "m1"
    else if n =? 2
    then "m2"
    else if n =? 7
    then "u7"
    else unary (suc (suc (suc n)))

abbrev parse_id : String → ℕ
parse_id s = if s == "m1" then 1 else if s == "m2" then 2 else if s == "u7" then 7 else len s - 3

abbrev pub parts : Parts
parts = record {
  redis = memory;
  table = memory_table;
  message_json = message_json;
  entry_json = entry_json;
  uuid = record { to_string = id_text; parse = parse_id };
}

longer : (n : ℕ) (s : String) → len s ≡ 2 → (unary (suc (suc (suc n))) == s) ≡ false
longer n s two = elim (Bool-cases (unary (suc (suc (suc n))) == s)) [
  | inr other ↦ other
  | inl same ↦
      let e = (eq_iff (unary (suc (suc (suc n)))) s).0 same in
      let l = len-unary (suc (suc (suc n))) in
      let equal : len (unary (suc (suc (suc n)))) ≡ len s = ap len e in absurd (omega arith)
]

parse_id-id_text : (n : ℕ) → parse_id (id_text n) ≡ n
parse_id-id_text n = elim (Bool-cases (n =? 1)) [
  | inl one ↦ let e : n ≡ 1 = ground (arith, one) in rw e refl
  | inr not_one ↦ elim (Bool-cases (n =? 2)) [
    | inl two ↦ let e : n ≡ 2 = ground (arith, two) in rw e refl
    | inr not_two ↦ elim (Bool-cases (n =? 7)) [
      | inl seven ↦ let e : n ≡ 7 = ground (arith, seven) in rw e refl
      | inr other ↦
          let l = len-unary (suc (suc (suc n))) in
          rw not_one (
            rw not_two (
              rw other (
                rw (longer n "m1" refl)
                  (rw (longer n "m2" refl) (rw (longer n "u7" refl) (omega arith))))))
    ]
  ]
]

pub parts-IsUuidText : IsUuidText parts.uuid
parts-IsUuidText = record { reads_back = parse_id-id_text }

abbrev empty_log : Wal
empty_log = record {
  file_path = "wal.log";
  is_open = true;
  disk = λ p. if p == "wal.log" then some "" else none;
  synced = λ p. if p == "wal.log" then some "" else none;
}

-- A log that holds the two entries.
abbrev pub full_log : Wal
full_log = record empty_log {
  disk = λ p. if p == "wal.log" then some "m1\nm2\n" else none;
  synced = λ p. if p == "wal.log" then some "m1\nm2\n" else none;
}

abbrev pub empty_state : State parts
empty_state = record { wal = empty_log; cache = empty_store; db = []; spawned = [] }

pub empty_log-Holds : Holds entry_json empty_log []
unfolding render
empty_log-Holds = record { opened = refl; stores = record { text = refl; storable = tt } }

pub empty_log-Survives : Survives entry_json empty_log []
unfolding render
empty_log-Survives = record { text = refl; storable = tt }

pub full_log-Holds : Holds entry_json full_log (first_entry ∷ second_entry ∷ [])
unfolding render
full_log-Holds = record {
  opened = refl;
  stores = record {
    text = refl;
    storable = (first_entry-IsStorable, (second_entry-IsStorable, tt));
  };
}

-- The message that is made of "hello".
abbrev pub hello : Message
hello = new_message parts 1 5 7 "ann" "hello"

pub hello-IsStorable : IsStorable entry_json (wal_entry parts hello)
unfolding escape_string
hello-IsStorable = first_entry-IsStorable
