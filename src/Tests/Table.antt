-- ===== src/Tests/Table.antt =====
-- A table in memory that keeps every law of `IsMessageTable`.
use digital_square.Tests.Users.{micros-IsTimeOf}
use digital_square.Base.{
  ℕ, ◌/◌, ◌*◌, suc, String, ◌==◌, eq_iff, ◌≡◌, inl, inr, refl, Bool, true, false, ◌&&◌, ◌||◌, List,
  [], ◌∷◌, ◌++◌, map, reverse, length, take, keep, Has, ◌=?◌, Bool-cases, arith, if◌then◌else◌,
}
use digital_square.Errors.{external, record_not_found, Result, ok, err}
use digital_square.Models.{Message}
use digital_square.Repository.Order.{sort_newest, sort_newest-Perm, sort_newest-IsNewestFirst}
use mathlib.Core.List.Permᴰ
use digital_square.Repository.{
  kept_deletion, bare, older, MessageTable, IsMessageTable, AreRowsOf, is_visible, delete_row,
}

abbrev has_id : String → List Message → Bool
has_id id [] = false
has_id id (row ∷ rows) = row.message_id == id || has_id id rows

abbrev clash : List Message → List Message → Bool
clash [] rows = false
clash (msg ∷ msgs) rows =
    has_id msg.message_id rows || has_id msg.message_id msgs || clash msgs rows

abbrev number : ℕ → List Message → List Message
number n [] = []
number n (msg ∷ msgs) =
    record msg { id = n; created_at = msg.created_at / 1000 * 1000 } ∷ number (suc n) msgs

abbrev find : (Message → Bool) → List Message → Result Message
find p [] = err record_not_found
find p (row ∷ rows) = if p row then ok row else find p rows

abbrev pub memory_table : MessageTable
memory_table = record {
  State = List Message;
  column = λ t. t / 1000 * 1000;
  create = λ msg rows. (ok tt, rows ++ number (suc (length rows)) (msg ∷ []));
  create_in_batches = λ msgs size rows.
      if clash msgs rows
      then (err (external "duplicate key"), rows)
      else (ok tt, rows ++ number (suc (length rows)) msgs);
  first_by_id = λ id rows. (find (λ row. is_visible row && row.id =? id) rows, rows);
  first_by_message_id =
      λ id rows. (find (λ row. is_visible row && row.message_id == id) rows, rows);
  find_before = λ before limit rows. (ok (take limit (sort_newest (older before rows))), rows);
  find_recent = λ limit rows. (ok (take limit (keep is_visible (reverse rows))), rows);
  update_where_id = λ id d rows. (
    ok tt,
    map
        (λ row.
          if row.id =? id && is_visible row
          then delete_row (kept_deletion (λ t. t / 1000 * 1000) d) row
          else row)
        rows,
  );
}

AreRowsOf-number :
    (n : ℕ) (msgs : List Message) → AreRowsOf memory_table.column msgs (number n msgs)
AreRowsOf-number n [] = tt
AreRowsOf-number n (msg ∷ msgs) = (
  record {
    message_id = refl;
    user_id = refl;
    username = refl;
    content = refl;
    created_at = refl;
    not_deleted = refl;
  },
  AreRowsOf-number (suc n) msgs,
)

has_id-Has :
    (id : String) (rows : List Message)
    → Has (λ row. row.message_id ≡ id) rows
    → has_id id rows ≡ true
has_id-Has id [] h = absurd h
has_id-Has id (row ∷ rows) (inl p) = let q = (eq_iff row.message_id id).1 p in ground (arith, q)
has_id-Has id (row ∷ rows) (inr h) = ground (arith, has_id-Has id rows h)

clash-Has :
    (id : String) (msgs rows : List Message)
    → Has (λ msg. msg.message_id ≡ id) msgs
    → Has (λ row. row.message_id ≡ id) rows
    → clash msgs rows ≡ true
clash-Has id [] rows h k = absurd h
clash-Has id (msg ∷ msgs) rows (inl p) k = rw p (ground (arith, has_id-Has id rows k))
clash-Has id (msg ∷ msgs) rows (inr h) k = ground (arith, clash-Has id msgs rows h k)

find-Has :
    (id : String) (rows : List Message) (row : Message)
    → find (λ row. is_visible row && row.message_id == id) rows ≡ ok row
    → Has (λ r. (r ≡ row) × (r.message_id ≡ id) × (r.deleted_at.valid ≡ false)) rows
find-Has id [] row h = cc h
find-Has id (r ∷ rows) row h = elim (Bool-cases (is_visible r && r.message_id == id)) [
  | inl p ↦ inl (ground (arith, p), (eq_iff r.message_id id).0 (ground arith), ground arith)
  | inr q ↦ inr (find-Has id rows row (ground (arith, q)))
]

pub memory_table-IsMessageTable : IsMessageTable memory_table (λ rows. rows)
memory_table-IsMessageTable = record {
  keeps_time = micros-IsTimeOf;
  inserted = λ msgs size s done. elim (Bool-cases (clash msgs s)) [
    | inl c ↦ ground (arith, c)
    | inr c ↦ rw c (number (suc (length s)) msgs, refl, AreRowsOf-number (suc (length s)) msgs)
  ];
  rolled_back = λ msgs size s failed. ground arith;
  unique = λ msgs size s id there used. let c = clash-Has id msgs s there used in ground (arith, c);
  found = λ id s row h. find-Has id s row h;
  first_reads = λ id s. refl;
  before_newest = λ before limit s found_rows h. (
    sort_newest (older before s),
    Permᴰ.map bare (sort_newest-Perm (older before s)),
    sort_newest-IsNewestFirst (older before s),
    cc h,
  );
  before_reads = λ before limit s. refl;
  recent_reads = λ limit s. refl;
  updated = λ id d s done. refl;
  not_updated = λ id d s failed. absurd (failed refl);
}
