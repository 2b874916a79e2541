-- ===== src/UserRepository/Lookups.antt =====
-- What the queries and the deletes of user_repository.go say of the table.
use digital_square.Base.{
  String, ◌≡◌, inl, inr, refl, sym, ap, ◌∙◌, subst, true, false, ◌&&◌, Bool-cases, none, some, List,
  [], ◌∷◌, ◌++◌, map, Has, All, arith,
}
use digital_square.Errors.{Result, ok, err}
use digital_square.Models.{Uuid, Time, User}
use digital_square.UserRepository.{
  UserTable, IsUserTable, IsFirst, user_or_nil, is_among, is_visible, mark, get_user_by_email,
  get_user_by_username,
}

user_or_nil-some :
    (P : User → Type 0) (users : List User) (r : Result User) (user : User)
    → IsFirst P users r
    → user_or_nil r ≡ ok (some user)
    → Has (λ u. (u ≡ user) × P u × (u.deleted_at.valid ≡ false)) users
user_or_nil-some P users (ok found) user first h =
    let same : found ≡ user = cc h in
    subst (λ x. Has (λ u. (u ≡ x) × P u × (u.deleted_at.valid ≡ false)) users) same first
user_or_nil-some P users (err e) user first h = ground arith

user_or_nil-none :
    (P : User → Type 0) (users : List User) (r : Result User)
    → IsFirst P users r
    → user_or_nil r ≡ ok none
    → All (λ u. P u → u.deleted_at.valid ≡ true) users
user_or_nil-none P users (ok found) first h = cc h
user_or_nil-none P users (err e) first h = first (ground arith)

pub Has-last :
    (P : User → Type 0) (users : List User) (user : User)
    → All (λ u. P u → ⊥) users
    → Has P (users ++ user ∷ [])
    → P user
Has-last P [] user none_before (inl p) = p
Has-last P [] user none_before (inr p) = absurd p
Has-last P (u ∷ users) user (differs, none_before) (inl p) = absurd (differs p)
Has-last P (u ∷ users) user (differs, none_before) (inr p) = Has-last P users user none_before p

pub All-last :
    (P : User → Type 0) (users : List User) (user : User) → All P (users ++ user ∷ []) → P user
All-last P [] user (p, _) = p
All-last P (u ∷ users) user (_, rest) = All-last P users user rest

module _ (T : UserTable) (users : T.State → List User) (L : IsUserTable T users) where
  pub get_user_by_email-some :
      (email : String) (s : T.State) (user : User)
      → (get_user_by_email T email s).0 ≡ ok (some user)
      → Has (λ u. (u ≡ user) × (u.email ≡ email) × (u.deleted_at.valid ≡ false)) (users s)
  unfolding get_user_by_email
  get_user_by_email-some email s user h =
      user_or_nil-some (λ u. u.email ≡ email) (users s) _ user (L.by_email email s) h

  pub get_user_by_email-none :
      (email : String) (s : T.State)
      → (get_user_by_email T email s).0 ≡ ok none
      → All (λ u. u.email ≡ email → u.deleted_at.valid ≡ true) (users s)
  unfolding get_user_by_email
  get_user_by_email-none email s h =
      user_or_nil-none (λ u. u.email ≡ email) (users s) _ (L.by_email email s) h

  pub get_user_by_email_reads :
      (email : String) (s : T.State) → users (get_user_by_email T email s).1 ≡ users s
  unfolding get_user_by_email
  get_user_by_email_reads email s = L.by_email_reads email s

  pub get_user_by_username_reads :
      (username : String) (s : T.State) → users (get_user_by_username T username s).1 ≡ users s
  unfolding get_user_by_username
  get_user_by_username_reads username s = L.by_username_reads username s

-- After a soft delete no user that can be seen has one of the ids.
mark_hides :
    (now : Time) (ids : List Uuid) (user u : User)
    → is_among user.id ids ≡ true
    → mark now ids u ≡ user
    → (mark now ids u).deleted_at.valid ≡ false
    → ⊥
mark_hides now ids user u among same seen = elim (Bool-cases (is_among u.id ids && is_visible u)) [
  | inl marked ↦ let e : (mark now ids u).deleted_at.valid ≡ true = rw marked refl in cc (e, seen)
  | inr kept ↦
      let e : mark now ids u ≡ u = rw kept refl in
      let among_u : is_among u.id ids ≡ true = ap (λ x. is_among x.id ids) (sym e ∙ same) ∙ among in
      let seen_u : u.deleted_at.valid ≡ false = ap (λ x. x.deleted_at.valid) (sym e) ∙ seen in
      ground (arith, among_u, seen_u, kept)
]

pub map-mark_hides :
    (now : Time) (ids : List Uuid) (email : String) (user : User) (users : List User)
    → is_among user.id ids ≡ true
    → Has
        (λ u. (u ≡ user) × (u.email ≡ email) × (u.deleted_at.valid ≡ false))
        (map (mark now ids) users)
    → ⊥
map-mark_hides now ids email user [] among h = h
map-mark_hides now ids email user (u ∷ users) among (inl (same, _, seen)) =
    mark_hides now ids user u among same seen
map-mark_hides now ids email user (u ∷ users) among (inr p) =
    map-mark_hides now ids email user users among p
