-- ===== src/Seed.antt =====
-- backend/cmd/seed/main.go: the program that creates the administrator. `log.Fatal`, which ends it, is
-- an error; `env` is os.Getenv.
pub mod Again
use digital_square.Base.{ℕ, String, ◌==◌, ◌||◌, if◌then◌else◌, List}
use digital_square.Errors.{Error, invalid_input, Result, ok, err}
use digital_square.Action.{Action, pure, fail, from, ◌>>=◌}
use digital_square.Models.{Uuid, Time, User, no_user, role_admin}
use digital_square.Hash.{Argon, hash_password}
use digital_square.UserRepository.{UserTable}

pub data Seeded : Type 0 where
  already_exists created : User → Seeded

abbrev pub new_admin : Uuid → String → String → String → User
new_admin id username email password_hash = record no_user {
  id = id;
  username = username;
  email = email;
  password_hash = password_hash;
  role = role_admin;
}

abbrev pub missing_variables : Error
missing_variables =
    invalid_input "Missing enviroment variables: ADMIN_USERNAME, ADMIN_EMAIL, ADMIN_PASSWORD"

module _ (T : UserTable) (G : Argon) (env : String → String) where
  abbrev pub admin_email : String
  admin_email = env "ADMIN_EMAIL"

  abbrev pub create_admin : Time → Uuid → Result (List ℕ) → Action T.State Seeded
  create_admin now id salt =
      from (λ _. hash_password G salt (env "ADMIN_PASSWORD")) >>= λ password_hash.
      T.create now (new_admin id (env "ADMIN_USERNAME") admin_email password_hash) >>= λ admin.
      pure (created admin)

  -- Every error of the query leads to the creation, not only `gorm.ErrRecordNotFound`.
  abbrev pub or_create :
      Time → Uuid → Result (List ℕ) → Result User → T.State → Result Seeded × T.State
  or_create now id salt (ok admin) s = (ok (already_exists admin), s)
  or_create now id salt (err _) s = create_admin now id salt s

  abbrev seed_given : Time → Uuid → Result (List ℕ) → Action T.State Seeded
  seed_given now id salt s =
      let (found, s') = T.first_by_email admin_email s in or_create now id salt found s'

  unfoldable pub seed : Time → Uuid → Result (List ℕ) → Action T.State Seeded
  seed now id salt =
      if env "ADMIN_USERNAME" == "" || admin_email == "" || env "ADMIN_PASSWORD" == ""
      then fail missing_variables
      else seed_given now id salt
