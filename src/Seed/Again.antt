-- ===== src/Seed/Again.antt =====
-- The seed program may be run again.
use digital_square.Base.{
  ℕ, String, ◌==◌, ◌||◌, ◌≡◌, ◌≢◌, inl, inr, refl, sym, ap, ◌∙◌, subst, Bool, false, Bool-cases,
  List, [], ◌∷◌, ◌++◌, All, Has,
}
use digital_square.Errors.{Result, ok, err}
use digital_square.Action.{Action, Result-cases, from, pure, >>=-ok, ◌>>=◌}
use digital_square.Models.{Uuid, Time, User, role_admin}
use digital_square.Hash.{Argon, hash_password}
use digital_square.UserRepository.{kept_user, UserTable, IsUserTable, IsFirst}
use digital_square.Seed.{
  Seeded, already_exists, created, new_admin, admin_email, create_admin, or_create,
  missing_variables, seed,
}

module _ (T : UserTable) (users : T.State → List User) (L : IsUserTable T users) (G : Argon)
    (env : String → String) where
  abbrev is_missing : Bool
  is_missing = env "ADMIN_USERNAME" == "" || admin_email T G env == "" || env "ADMIN_PASSWORD" == ""

  abbrev HasEmail : List User → Type 0
  HasEmail rows = Has (λ u. u.email ≡ admin_email T G env) rows

  taken-clash :
      (username : String) (rows : List User)
      → All (λ u. (u.email ≢ admin_email T G env) × (u.username ≢ username)) rows
      → HasEmail rows
      → ⊥
  taken-clash username [] free h = h
  taken-clash username (u ∷ rows) ((other, _), _) (inl h) = other h
  taken-clash username (u ∷ rows) (_, free) (inr h) = taken-clash username rows free h

  create_admin_keeps :
      (now : Time) (id : Uuid) (salt : Result (List ℕ)) (s : T.State)
      → HasEmail (users s)
      → users (create_admin T G env now id salt s).1 ≡ users s
  create_admin_keeps now id salt s there =
      elim (Result-cases (hash_password G salt (env "ADMIN_PASSWORD"))) [
        | inr (e, failed) ↦ rw failed refl
        | inl (hash, hashed) ↦
            let admin = new_admin id (env "ADMIN_USERNAME") (admin_email T G env) hash in
            elim (Result-cases (T.create now admin s).0) [
              | inr (e, failed) ↦ rw hashed (rw failed (L.not_created now admin e s failed))
              | inl (stored, made) ↦ absurd (
                  taken-clash (env "ADMIN_USERNAME") (users s) (L.unique now admin stored s made)
                    there)
            ]
      ]

  or_create_keeps :
      (now : Time) (id : Uuid) (salt : Result (List ℕ)) (found : Result User) (s : T.State)
      → HasEmail (users s)
      → users (or_create T G env now id salt found s).1 ≡ users s
  or_create_keeps now id salt (ok admin) s there = refl
  or_create_keeps now id salt (err e) s there = create_admin_keeps now id salt s there

  -- Where a user has the email nothing is created.
  seed_keeps :
      (now : Time) (id : Uuid) (salt : Result (List ℕ)) (s : T.State)
      → HasEmail (users s)
      → users (seed T G env now id salt s).1 ≡ users s
  unfolding seed
  seed_keeps now id salt s there = elim (Bool-cases is_missing) [
    | inl missing ↦ rw missing refl
    | inr given ↦
        let s' = (T.first_by_email (admin_email T G env) s).1 in
        let reads = L.by_email_reads (admin_email T G env) s in
        rw given (
          or_create_keeps now id salt (T.first_by_email (admin_email T G env) s).0 s'
            (subst HasEmail (sym reads) there)
          ∙ reads)
  ]

  found-HasEmail :
      (user : User) (rows : List User)
      → Has (λ u. (u ≡ user) × (u.email ≡ admin_email T G env) × (u.deleted_at.valid ≡ false)) rows
      → HasEmail rows
  found-HasEmail user [] h = h
  found-HasEmail user (u ∷ rows) (inl (_, email, _)) = inl email
  found-HasEmail user (u ∷ rows) (inr h) = inr (found-HasEmail user rows h)

  added-HasEmail :
      (rows : List User) (user : User)
      → user.email ≡ admin_email T G env
      → HasEmail (rows ++ user ∷ [])
  added-HasEmail [] user h = inl h
  added-HasEmail (u ∷ rows) user h = inr (added-HasEmail rows user h)

  -- What the program leaves of the rows, by what it says.
  abbrev IsSeeded : Seeded → List User → List User → Type 0
  IsSeeded (already_exists user) before after =
      (after ≡ before)
      × Has (λ u. (u ≡ user) × (u.email ≡ admin_email T G env) × (u.deleted_at.valid ≡ false))
          before
  IsSeeded (created user) before after =
      (after ≡ before ++ kept_user T.column user ∷ [])
      × (user.email ≡ admin_email T G env)
      × (user.role ≡ role_admin)

  create_admin-IsSeeded :
      (now : Time) (id : Uuid) (salt : Result (List ℕ)) (s : T.State) (end : Seeded)
      → (create_admin T G env now id salt s).0 ≡ ok end
      → IsSeeded end (users s) (users (create_admin T G env now id salt s).1)
  create_admin-IsSeeded now id salt s end h =
      let make : String → Action T.State Seeded = λ hash.
        T.create now (new_admin id (env "ADMIN_USERNAME") (admin_email T G env) hash) >>= λ admin.
        pure (created admin) in
      let (hash, hashed, h1, e1) =
        >>=-ok (from (λ _. hash_password G salt (env "ADMIN_PASSWORD"))) make s end h in
      let admin = new_admin id (env "ADMIN_USERNAME") (admin_email T G env) hash in
      let (stored, made, h2, e2) = >>=-ok (T.create now admin) (λ u. pure (created u)) s end h1 in
      let (fields, rows) = L.created now admin stored s made in
      let same : created stored ≡ end = cc h2 in
      subst (λ x. IsSeeded x (users s) (users (create_admin T G env now id salt s).1)) same
        (ap users (e1 ∙ e2) ∙ rows, fields.email, fields.role)

  or_create-IsSeeded :
      (now : Time) (id : Uuid) (salt : Result (List ℕ)) (found : Result User) (s : T.State)
      (end : Seeded)
      → IsFirst (λ u. u.email ≡ admin_email T G env) (users s) found
      → (or_create T G env now id salt found s).0 ≡ ok end
      → IsSeeded end (users s) (users (or_create T G env now id salt found s).1)
  or_create-IsSeeded now id salt (ok admin) s end first h =
      let same : already_exists admin ≡ end = cc h in
      subst (λ x. IsSeeded x (users s) (users s)) same (refl, first)
  or_create-IsSeeded now id salt (err e) s end first h = create_admin-IsSeeded now id salt s end h

  -- A run that succeeds found a visible user with the address, or created an administrator with it.
  seed-IsSeeded :
      (now : Time) (id : Uuid) (salt : Result (List ℕ)) (s : T.State) (end : Seeded)
      → (seed T G env now id salt s).0 ≡ ok end
      → IsSeeded end (users s) (users (seed T G env now id salt s).1)
  unfolding seed
  seed-IsSeeded now id salt s end h = elim (Bool-cases is_missing) [
    | inl missing ↦
        let e : (seed T G env now id salt s).0 ≡ err missing_variables = rw missing refl in
        cc (e, h)
    | inr given ↦
        let found = T.first_by_email (admin_email T G env) s in
        let reads = L.by_email_reads (admin_email T G env) s in
        let e : seed T G env now id salt s ≡ or_create T G env now id salt found.0 found.1 =
          rw given refl in
        let first : IsFirst (λ u. u.email ≡ admin_email T G env) (users found.1) found.0 =
          subst (λ rows. IsFirst (λ u. u.email ≡ admin_email T G env) rows found.0) (sym reads)
            (L.by_email (admin_email T G env) s) in
        subst (λ rows. IsSeeded end rows (users (seed T G env now id salt s).1)) reads
          (subst (λ x. IsSeeded end (users found.1) (users x.1)) (sym e)
            (or_create-IsSeeded now id salt found.0 found.1 end first (ap (λ x. x.0) (sym e) ∙ h)))
  ]

  IsSeeded-HasEmail :
      (end : Seeded) (before after : List User) → IsSeeded end before after → HasEmail after
  IsSeeded-HasEmail (already_exists user) before after (same, there) =
      subst HasEmail (sym same) (found-HasEmail user before there)
  IsSeeded-HasEmail (created user) before after (same, email, _) =
      subst HasEmail (sym same) (added-HasEmail before (kept_user T.column user) email)

  -- After a run of the seed program that succeeded another run changes no row, whether it succeeds
  -- or fails.
  pub seed_again :
      (now later : Time) (id next_id : Uuid) (salt next_salt : Result (List ℕ)) (s : T.State)
      (end : Seeded)
      → (seed T G env now id salt s).0 ≡ ok end
      → let after = (seed T G env now id salt s).1 in
        users (seed T G env later next_id next_salt after).1 ≡ users after
  seed_again now later id next_id salt next_salt s end h =
      let after = (seed T G env now id salt s).1 in
      seed_keeps later next_id next_salt after
        (IsSeeded-HasEmail end (users s) (users after) (seed-IsSeeded now id salt s end h))
