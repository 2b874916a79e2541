-- ===== src/Tests/Users.antt =====
-- A table of users in memory that keeps every law of `IsUserTable`.
use digital_square.Base.{
  ℕ, ◌/◌, ◌*◌, ◌==◌, eq_iff, ◌≡◌, ◌≢◌, inl, inr, refl, ap, subst, Bool, true, false, ◌&&◌, ◌||◌,
  List, [], ◌∷◌, ◌++◌, map, reverse, All, ◌=?◌, Bool-cases, arith, if◌then◌else◌,
}
use digital_square.Errors.{external, record_not_found, Result, ok, err}
use digital_square.Models.{User, IsTimeOf}
use digital_square.UserRepository.{
  kept_user, UserTable, IsUserTable, IsFirst, IsStoredAs, is_visible, mark,
}

abbrev is_taken : User → List User → Bool
is_taken user [] = false
is_taken user (u ∷ rows) =
    u.email == user.email || u.username == user.username || is_taken user rows

abbrev find : (User → Bool) → List User → Result User
find p [] = err record_not_found
find p (u ∷ rows) = if is_visible u && p u then ok u else find p rows

abbrev pub user_table : UserTable
user_table = record {
  State = List User;
  column = λ t. t / 1000 * 1000;
  create = λ now user rows.
      if is_taken user rows
      then (err (external "duplicate key"), rows)
      else (ok user, rows ++ kept_user (λ t. t / 1000 * 1000) user ∷ []);
  first_by_email = λ email rows. (find (λ u. u.email == email) rows, rows);
  first_by_username = λ username rows. (find (λ u. u.username == username) rows, rows);
  first_by_id = λ id rows. (find (λ u. u.id =? id) rows, rows);
  find_all = λ rows. (ok (reverse rows), rows);
  delete_by_id = λ now id rows. (ok tt, map (mark (now / 1000 * 1000) (id ∷ [])) rows);
  delete_by_ids = λ now ids rows. (ok tt, map (mark (now / 1000 * 1000) ids) rows);
}

is_taken-free :
    (user : User) (rows : List User)
    → is_taken user rows ≡ false
    → All (λ u. (u.email ≢ user.email) × (u.username ≢ user.username)) rows
is_taken-free user [] h = tt
is_taken-free user (u ∷ rows) h =
    let mail = eq_iff u.email user.email in
    let name = eq_iff u.username user.username in
    (
      (
        λ e. let same = mail.1 e in ground (arith, same, h),
        λ e. let same = name.1 e in ground (arith, same, h),
      ),
      is_taken-free user rows (ground arith),
    )

IsFirst-cons :
    (P : User → Type 0) (u : User) (rows : List User) (r : Result User)
    → (P u → u.deleted_at.valid ≡ true)
    → IsFirst P rows r
    → IsFirst P (u ∷ rows) r
IsFirst-cons P u rows (ok found) hidden h = inr h
IsFirst-cons P u rows (err e) hidden h = λ missing. (hidden, h missing)

find-IsFirst :
    (P : User → Type 0) (p : User → Bool) (rows : List User)
    → ((u : User) → p u ≡ true → P u)
    → ((u : User) → P u → p u ≡ true)
    → IsFirst P rows (find p rows)
find-IsFirst P p [] to from = λ h. tt
find-IsFirst P p (u ∷ rows) to from = elim (Bool-cases (is_visible u && p u)) [
  | inl first ↦ rw first (inl (refl, to u (ground (arith, first)), ground (arith, first)))
  | inr later ↦ rw later (
      IsFirst-cons P u rows (find p rows)
        (λ has. let yes = from u has in ground (arith, yes, later)) (find-IsFirst P p rows to from))
]

own-IsStoredAs : (user : User) → IsStoredAs user user
own-IsStoredAs user = record {
  id = refl;
  username = refl;
  email = refl;
  password_hash = refl;
  role = refl;
  not_deleted = refl;
}

pub micros-IsTimeOf : (t : ℕ) → IsTimeOf t (t / 1000 * 1000)
micros-IsTimeOf t = record { whole = omega arith; below = omega arith; above = omega arith }

pub user_table-IsUserTable : IsUserTable user_table (λ rows. rows)
user_table-IsUserTable = record {
  keeps_time = micros-IsTimeOf;
  created = λ now user stored s h. elim (Bool-cases (is_taken user s)) [
    | inl taken ↦ ground (arith, taken, h)
    | inr free ↦
        let done : (user_table.create now user s).0 ≡ ok user = rw free refl in
        let same : user ≡ stored = cc (done, h) in
        rw free (
          subst (IsStoredAs user) same (own-IsStoredAs user),
          ap (λ u. s ++ kept_user user_table.column u ∷ []) same,
        )
  ];
  not_created = λ now user e s h. elim (Bool-cases (is_taken user s)) [
    | inl taken ↦ rw taken refl
    | inr free ↦ ground (arith, free, h)
  ];
  unique = λ now user stored s h. elim (Bool-cases (is_taken user s)) [
    | inl taken ↦ ground (arith, taken, h)
    | inr free ↦ is_taken-free user s free
  ];
  by_email = λ email s.
      find-IsFirst (λ u. u.email ≡ email) (λ u. u.email == email) s (λ u. (eq_iff u.email email).0)
        (λ u. (eq_iff u.email email).1);
  by_username = λ username s.
      find-IsFirst (λ u. u.username ≡ username) (λ u. u.username == username) s
        (λ u. (eq_iff u.username username).0) (λ u. (eq_iff u.username username).1);
  by_email_reads = λ email s. refl;
  by_username_reads = λ username s. refl;
  all_reads = λ s. refl;
  marked = λ now id s done. refl;
  not_marked = λ now id s failed. absurd (failed refl);
  all_marked = λ now ids s done. refl;
  none_marked = λ now ids s failed. absurd (failed refl);
}
