-- ===== src/UserRepository/History.antt =====
-- How the rows of user_repository.go change: one change is a step, and what holds after every
-- number of steps.
use mathlib.Core.List.{map}
use digital_square.Base.{
  ◌≡◌, ◌≢◌, refl, sym, ◌∙◌, true, ◌&&◌, Bool-cases, inl, inr, List, [], ◌∷◌, ◌++◌, All, All-imp,
  All-append, eq_iff, arith,
}
use digital_square.Base.Pairs.{AllPairs, AllPairs-snoc}
use digital_square.Models.{Uuid, Time, Role, User, role_user, role_admin}
use digital_square.UserRepository.{mark, is_among, is_visible}

-- Two accounts have different addresses and different names.
abbrev pub IsOtherThan : User → User → Type 0
IsOtherThan a b = (a.email ≢ b.email) × (a.username ≢ b.username)

-- What a request can do to the rows.
pub data AccountStep (before : List User) : List User → Type 0 where
  keeps : AccountStep before before
  registers :
      (user : User)
      → user.role ≡ role_user
      → All (λ u. IsOtherThan u user) before
      → AccountStep before (before ++ user ∷ [])
  bans : (now : Time) (ids : List Uuid) → AccountStep before (map (mark now ids) before)

-- The same account later on.
pub record IsSameAccount (u v : User) : Type 0 where
  pub id : v.id ≡ u.id
  pub username : v.username ≡ u.username
  pub email : v.email ≡ u.email
  pub password_hash : v.password_hash ≡ u.password_hash
  pub role : v.role ≡ u.role
  pub stays_banned : u.deleted_at.valid ≡ true → v.deleted_at.valid ≡ true

-- Every account is still there, and those that are new are no admins.
abbrev pub Grown : List User → List User → Type 0
Grown [] new = All (λ v. v.role ≡ role_user) new
Grown (u ∷ us) [] = ⊥
Grown (u ∷ us) (v ∷ vs) = IsSameAccount u v × Grown us vs

IsSameAccount-refl : (u : User) → IsSameAccount u u
IsSameAccount-refl u = record {
  id = refl;
  username = refl;
  email = refl;
  password_hash = refl;
  role = refl;
  stays_banned = λ h. h;
}

IsSameAccount-trans : (u v w : User) → IsSameAccount u v → IsSameAccount v w → IsSameAccount u w
IsSameAccount-trans u v w a b = record {
  id = b.id ∙ a.id;
  username = b.username ∙ a.username;
  email = b.email ∙ a.email;
  password_hash = b.password_hash ∙ a.password_hash;
  role = b.role ∙ a.role;
  stays_banned = λ h. b.stays_banned (a.stays_banned h);
}

mark-IsSameAccount : (now : Time) (ids : List Uuid) (u : User) → IsSameAccount u (mark now ids u)
mark-IsSameAccount now ids u = elim (Bool-cases (is_among u.id ids && is_visible u)) [
  | inr unmarked ↦ rw unmarked (IsSameAccount-refl u)
  | inl marked ↦ rw marked (record {
    id = refl;
    username = refl;
    email = refl;
    password_hash = refl;
    role = refl;
    stays_banned = λ h. refl;
  })
]

pub Grown-refl : (us : List User) → Grown us us
Grown-refl [] = tt
Grown-refl (u ∷ us) = (IsSameAccount-refl u, Grown-refl us)

Grown-append : (us new : List User) → All (λ v. v.role ≡ role_user) new → Grown us (us ++ new)
Grown-append [] new h = h
Grown-append (u ∷ us) new h = (IsSameAccount-refl u, Grown-append us new h)

Grown-mark : (now : Time) (ids : List Uuid) (us : List User) → Grown us (map (mark now ids) us)
Grown-mark now ids [] = tt
Grown-mark now ids (u ∷ us) = (mark-IsSameAccount now ids u, Grown-mark now ids us)

Grown-roles :
    (us vs : List User)
    → Grown us vs
    → All (λ u. u.role ≡ role_user) us
    → All (λ v. v.role ≡ role_user) vs
Grown-roles [] vs h k = h
Grown-roles (u ∷ us) [] h k = absurd h
Grown-roles (u ∷ us) (v ∷ vs) (p, h) (q, k) = (p.role ∙ q, Grown-roles us vs h k)

pub Grown-trans : (us vs ws : List User) → Grown us vs → Grown vs ws → Grown us ws
Grown-trans [] vs ws h k = Grown-roles vs ws k h
Grown-trans (u ∷ us) [] ws h k = absurd h
Grown-trans (u ∷ us) (v ∷ vs) [] h k = absurd k
Grown-trans (u ∷ us) (v ∷ vs) (w ∷ ws) (p, h) (q, k) =
    (IsSameAccount-trans u v w p q, Grown-trans us vs ws h k)

pub AccountStep-Grown : (before after : List User) → AccountStep before after → Grown before after
AccountStep-Grown before after keeps = Grown-refl before
AccountStep-Grown before after (registers user role other) =
    Grown-append before (user ∷ []) (role, tt)
AccountStep-Grown before after (bans now ids) = Grown-mark now ids before

pub not_admin : (role : Role) → role ≡ role_user → role ≢ role_admin
not_admin role is_user is_admin =
    let eq = eq_iff "user" "admin" in
    let same : role_user ≡ role_admin = sym is_user ∙ is_admin in ground (arith, eq, same)

map-mark-All :
    (P : User → Type 0) (now : Time) (ids : List Uuid)
    → ((u v : User) → IsSameAccount u v → P u → P v)
    → (us : List User) → All P us
    → All P (map (mark now ids) us)
map-mark-All P now ids same [] h = tt
map-mark-All P now ids same (u ∷ us) (p, h) =
    (same u (mark now ids u) (mark-IsSameAccount now ids u) p, map-mark-All P now ids same us h)

IsOtherThan-same :
    (a b u v : User) → IsSameAccount a b → IsSameAccount u v → IsOtherThan a u → IsOtherThan b v
IsOtherThan-same a b u v p q (mail, name) =
    (λ e. mail (sym p.email ∙ e ∙ q.email), λ e. name (sym p.username ∙ e ∙ q.username))

AllPairs-mark :
    (now : Time) (ids : List Uuid) (us : List User)
    → AllPairs IsOtherThan us
    → AllPairs IsOtherThan (map (mark now ids) us)
AllPairs-mark now ids [] h = tt
AllPairs-mark now ids (u ∷ us) (p, h) =
    let same = mark-IsSameAccount now ids u in
    let moved =
      All-imp _ _
        (λ v other. IsOtherThan-same u (mark now ids u) v v same (IsSameAccount-refl v) other) us
        p in
    (
      map-mark-All (IsOtherThan (mark now ids u)) now ids
          (λ v w kept other.
            IsOtherThan-same (mark now ids u) (mark now ids u) v w
              (IsSameAccount-refl (mark now ids u)) kept other)
          us moved,
      AllPairs-mark now ids us h,
    )

-- A step keeps all addresses and all names different.
pub AccountStep-IsOtherThan :
    (before after : List User)
    → AccountStep before after
    → AllPairs IsOtherThan before
    → AllPairs IsOtherThan after
AccountStep-IsOtherThan before after keeps h = h
AccountStep-IsOtherThan before after (registers user role other) h =
    AllPairs-snoc IsOtherThan before user h other
AccountStep-IsOtherThan before after (bans now ids) h = AllPairs-mark now ids before h

-- A step makes nobody an administrator.
pub AccountStep-no_admin :
    (before after : List User)
    → AccountStep before after
    → All (λ u. u.role ≢ role_admin) before
    → All (λ u. u.role ≢ role_admin) after
AccountStep-no_admin before after keeps h = h
AccountStep-no_admin before after (registers user role other) h =
    All-append _ before (user ∷ []) h (λ is_admin. not_admin user.role role is_admin, tt)
AccountStep-no_admin before after (bans now ids) h =
    map-mark-All (λ u. u.role ≢ role_admin) now ids
      (λ u v same no is_admin. no (sym same.role ∙ is_admin)) before h
