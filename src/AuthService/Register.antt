-- ===== src/AuthService/Register.antt =====
-- `Register` of auth_service.go: what a registration that succeeds has done.
use digital_square.Base.{
  ℕ, String, ◌≡◌, ◌≢◌, inl, inr, refl, sym, ap, ◌∙◌, subst, List, [], ◌∷◌, ◌++◌, All,
}
use digital_square.Errors.{Result, ok}
use digital_square.Action.{>>=-ok, Result-cases, Action, from, ◌>>◌}
use digital_square.Models.{Uuid, Time, User}
use digital_square.Hash.{hash_password}
use digital_square.Auth.{generate_token}
use digital_square.UserRepository.{
  kept_user, IsUserTable, IsStoredAs, create_user, get_user_by_email, get_user_by_username,
}
use digital_square.UserRepository.Lookups.{get_user_by_email_reads, get_user_by_username_reads}
use digital_square.AuthService.{
  Parts, State, validate_register_input, new_user, with_token, email_free, username_free,
  create_and_sign, store, register,
}
use digital_square.AuthService.Input.{IsRegistration, validate_register_input_iff}

-- What a registration leaves behind.
pub record IsRegistered (P : Parts) (users : State P → List User) (issued : Time) (id : Uuid)
    (salt : Result (List ℕ)) (username email password : String) (before after : State P)
    (user : User) (token : String) : Type 0 where
  pub input : IsRegistration username email password
  pub hash : String
  pub hashed : hash_password P.argon salt password ≡ ok hash
  pub stored : IsStoredAs (new_user id username email hash) user
  pub added : users after ≡ users before ++ kept_user P.table.column user ∷ []
  pub was_free : All (λ u. (u.email ≢ email) × (u.username ≢ username)) (users before)
  pub signed : generate_token P.jwt issued user P.jwt_secret P.jwt_expiration ≡ ok token

pub with_token-ok :
    (P : Parts) (issued : Time) (stored : User) (s : State P) (user : User) (token : String)
    → (with_token P issued stored s).0 ≡ ok (user, token)
    → (stored ≡ user)
      × (generate_token P.jwt issued user P.jwt_secret P.jwt_expiration ≡ ok token)
      × ((with_token P issued stored s).1 ≡ s)
with_token-ok P issued stored s user token h =
    elim (Result-cases (generate_token P.jwt issued stored P.jwt_secret P.jwt_expiration)) [
      | inr (e, failed) ↦ cc (h, failed)
      | inl (text, signed) ↦
          let made : (with_token P issued stored s).0 ≡ ok (stored, text) = rw signed refl in
          let same : stored ≡ user = cc (h, made) in
          let same_text : text ≡ token = cc (h, made) in
          (
            same,
            ap (λ u. generate_token P.jwt issued u P.jwt_secret P.jwt_expiration) (sym same)
                ∙ signed
                ∙ ap ok same_text,
            rw signed refl,
          )
    ]

module _ (P : Parts) (users : State P → List User) (L : IsUserTable P.table users) where
  pub email_free_reads : (email : String) (s : State P) → users (email_free P email s).1 ≡ users s
  email_free_reads email s = elim (Result-cases (get_user_by_email P.table email s).0) [
    | inl (found, h) ↦ rw h (get_user_by_email_reads P.table users L email s)
    | inr (e, h) ↦ rw h (get_user_by_email_reads P.table users L email s)
  ]

  pub username_free_reads :
      (username : String) (s : State P) → users (username_free P username s).1 ≡ users s
  username_free_reads username s = elim (Result-cases (get_user_by_username P.table username s).0) [
    | inl (found, h) ↦ rw h (get_user_by_username_reads P.table users L username s)
    | inr (e, h) ↦ rw h (get_user_by_username_reads P.table users L username s)
  ]

  module _ (now issued : Time) (id : Uuid) (salt : Result (List ℕ))
      (username email password : String) where
    -- A registration that succeeds had a valid input, and an address and a name that no row had,
    -- deleted ones included; it has added exactly one row, with the hash of the password and the
    -- role of a user and the times that the columns keep, and the token is signed for it.
    pub register-IsRegistered :
        (s : State P) (user : User) (token : String)
        → (register P now issued id salt username email password s).0 ≡ ok (user, token)
        → IsRegistered P users issued id salt username email password s
            (register P now issued id salt username email password s).1
            user
            token
    unfolding register create_user
    register-IsRegistered s user token h =
        let all = store P now issued id salt username email password in
        let named = username_free P username >> all in
        let (_, valid, h1, e1) =
          >>=-ok (from (λ _. validate_register_input username email password))
            (λ _. email_free P email >> named) s (user, token) h in
        let (_, is_free, h2, e2) = >>=-ok (email_free P email) (λ _. named) s (user, token) h1 in
        let s1 = (email_free P email s).1 in
        let (_, name_free, h3, e3) =
          >>=-ok (username_free P username) (λ _. all) s1 (user, token) h2 in
        let s2 = (username_free P username s1).1 in
        let make : String → Action (State P) (User × String) =
          λ hashed. create_and_sign P now issued (new_user id username email hashed) in
        let (hash, hashed, h4, e4) =
          >>=-ok (from (λ _. hash_password P.argon salt password)) make s2 (user, token) h3 in
        let made = new_user id username email hash in
        let (stored, created, h5, e5) =
          >>=-ok (create_user P.table now made) (λ u. with_token P issued u) s2 (user, token) h4 in
        let s3 = (create_user P.table now made s2).1 in
        let (same, signed, e6) = with_token-ok P issued stored s3 user token h5 in
        let kept : users s2 ≡ users s =
          username_free_reads username s1 ∙ email_free_reads email s in
        let is_new : All (λ u. (u.email ≢ email) × (u.username ≢ username)) (users s2) =
          L.unique now made stored s2 created in
        let (fields, rows) = L.created now made stored s2 created in
        record {
          input = (validate_register_input_iff username email password).0 (valid);
          hash = hash;
          hashed = hashed;
          stored = subst (IsStoredAs made) same fields;
          added =
              ap users (e1 ∙ e2 ∙ e3 ∙ e4 ∙ e5 ∙ e6)
              ∙ rows
              ∙ ap (λ l. l ++ kept_user P.table.column stored ∷ []) kept
              ∙ ap (λ u. users s ++ kept_user P.table.column u ∷ []) same;
          was_free = subst (All (λ u. (u.email ≢ email) × (u.username ≢ username))) kept is_new;
          signed = signed;
        }
