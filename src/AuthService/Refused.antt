-- ===== src/AuthService/Refused.antt =====
-- `Register` of auth_service.go: what a registration that fails leaves, and which ones fail.
use digital_square.Base.{
  ℕ, String, ◌≡◌, ◌≢◌, ◌⊎◌, inl, inr, refl, sym, ap, ◌∙◌, subst, none, List, [], ◌∷◌, ◌++◌, All,
  Has,
}
use digital_square.Errors.{Error, Result, ok, err}
use digital_square.Action.{>>=-err, Result-cases, from, ◌>>◌}
use digital_square.Models.{Uuid, Time, User}
use digital_square.Hash.{hash_password}
use digital_square.Auth.{generate_token}
use digital_square.UserRepository.{
  kept_user, IsUserTable, create_user, get_user_by_email, get_user_by_username,
}
use digital_square.UserRepository.Lookups.{get_user_by_email_reads, get_user_by_username_reads}
use digital_square.AuthService.{
  Parts, State, validate_register_input, new_user, email_free, username_free, create_and_sign,
  store, register,
}
use digital_square.AuthService.Input.{IsRegistration, validate_register_input_iff}
use digital_square.AuthService.Register.{
  email_free_reads, username_free_reads, register-IsRegistered,
}

module _ (P : Parts) (users : State P → List User) (L : IsUserTable P.table users) where
  module _ (now issued : Time) (id : Uuid) (salt : Result (List ℕ))
      (username email password : String) where
    -- What a registration that fails leaves of the rows.
    abbrev HasFailed : Error → List User → List User → Type 0
    HasFailed e before after =
        (after ≡ before)
        ⊎ ((user : User) × (after ≡ before ++ kept_user P.table.column user ∷ [])
            × (generate_token P.jwt issued user P.jwt_secret P.jwt_expiration ≡ err e))

    create_and_sign-HasFailed :
        (user : User) (s : State P) (e : Error)
        → (create_and_sign P now issued user s).0 ≡ err e
        → HasFailed e (users s) (users (create_and_sign P now issued user s).1)
    unfolding create_user
    create_and_sign-HasFailed user s e h = elim (Result-cases (create_user P.table now user s).0) [
      | inr (e', failed) ↦ rw failed (inl (L.not_created now user e' s failed))
      | inl (stored, created) ↦
          let (fields, rows) = L.created now user stored s created in
          elim (Result-cases (generate_token P.jwt issued stored P.jwt_secret P.jwt_expiration)) [
            | inl (text, signed) ↦
                let e' : (create_and_sign P now issued user s).0 ≡ ok (stored, text) =
                  rw created (rw signed refl) in
                cc (e', h)
            | inr (e', failed) ↦
                let e'' : (create_and_sign P now issued user s).0 ≡ err e' =
                  rw created (rw failed refl) in
                let same : e' ≡ e = cc (e'', h) in
                rw created (rw failed (inr (stored, rows, failed ∙ ap err same)))
          ]
    ]

    -- A registration that fails has changed no row, or its user was created and the token failed.
    register-HasFailed :
        (s : State P) (e : Error)
        → (register P now issued id salt username email password s).0 ≡ err e
        → HasFailed e (users s) (users (register P now issued id salt username email password s).1)
    unfolding register
    register-HasFailed s e h =
        let unchanged : (v : List User) → HasFailed e v v = λ v. inl refl in
        let all = store P now issued id salt username email password in
        let named = username_free P username >> all in
        >>=-err users (HasFailed e) unchanged
          (from (λ _. validate_register_input username email password))
          (λ _. email_free P email >> named) s e (users s) refl
          (λ _ s1 k1 h1.
            >>=-err users (HasFailed e) unchanged (email_free P email) (λ _. named) s1 e (users s)
              (email_free_reads P users L email s1 ∙ k1)
              (λ _ s2 k2 h2.
                >>=-err users (HasFailed e) unchanged (username_free P username) (λ _. all) s2 e
                  (users s) (username_free_reads P users L username s2 ∙ k2)
                  (λ _ s3 k3 h3.
                    >>=-err users (HasFailed e) unchanged
                      (from (λ _. hash_password P.argon salt password))
                      (λ hashed. create_and_sign P now issued (new_user id username email hashed))
                      s3 e (users s) k3
                      (λ hash s4 k4 h4.
                        subst
                          (λ v. HasFailed e v (
                            users
                              (create_and_sign P now issued (new_user id username email hash)
                                s4).1))
                          k4 (create_and_sign-HasFailed (new_user id username email hash) s4 e h4))
                      h3)
                  h2)
              h1)
          h

    was_free-clash :
        (rows : List User)
        → All (λ u. (u.email ≢ email) × (u.username ≢ username)) rows
        → Has (λ u. u.email ≡ email) rows ⊎ Has (λ u. u.username ≡ username) rows
        → ⊥
    was_free-clash [] free (inl p) = p
    was_free-clash [] free (inr p) = p
    was_free-clash (u ∷ rows) ((other, _), free) (inl (inl p)) = other p
    was_free-clash (u ∷ rows) (_, free) (inl (inr p)) = was_free-clash rows free (inl p)
    was_free-clash (u ∷ rows) ((_, other), free) (inr (inl p)) = other p
    was_free-clash (u ∷ rows) (_, free) (inr (inr p)) = was_free-clash rows free (inr p)

    -- A registration with an address or a name that some row has fails.
    register_taken :
        (s : State P)
        → Has (λ u. u.email ≡ email) (users s) ⊎ Has (λ u. u.username ≡ username) (users s)
        → (e : Error) × ((register P now issued id salt username email password s).0 ≡ err e)
    register_taken s taken =
        elim (Result-cases (register P now issued id salt username email password s).0) [
          | inr (e, h) ↦ (e, h)
          | inl ((user, token), h) ↦ absurd (
              was_free-clash (users s)
                (register-IsRegistered P users L now issued id salt username email password s user
                  token h).was_free
                taken)
        ]

    -- Where a row has the address but the two queries see no user, as for a banned one, a
    -- registration with a valid input and a hash is refused with the error of the insert itself.
    pub register_banned :
        (s : State P) (hash : String)
        → IsRegistration username email password
        → (get_user_by_email P.table email s).0 ≡ ok none
        → (get_user_by_username P.table username (get_user_by_email P.table email s).1).0 ≡ ok none
        → hash_password P.argon salt password ≡ ok hash
        → Has (λ u. u.email ≡ email) (users s)
        → let s1 = (get_user_by_email P.table email s).1 in
          let s2 = (get_user_by_username P.table username s1).1 in
          (e : Error) × ((P.table.create now (new_user id username email hash) s2).0 ≡ err e)
          × ((register P now issued id salt username email password s).0 ≡ err e)
    unfolding register create_user
    register_banned s hash input no_email no_name hashed used =
        let s1 = (get_user_by_email P.table email s).1 in
        let s2 = (get_user_by_username P.table username s1).1 in
        let made = new_user id username email hash in
        let valid = (validate_register_input_iff username email password).1 input in
        elim (Result-cases (P.table.create now made s2).0) [
          | inr (e, failed) ↦
              (e, failed, rw valid (rw no_email (rw no_name (rw hashed (rw failed refl)))))
          | inl (stored, created) ↦
              let kept : users s2 ≡ users s =
                get_user_by_username_reads P.table users L username s1
                ∙ get_user_by_email_reads P.table users L email s in
              let free : All (λ u. (u.email ≢ email) × (u.username ≢ username)) (users s2) =
                L.unique now made stored s2 created in
              absurd (
                was_free-clash (users s2) free
                  (inl (subst (Has (λ u. u.email ≡ email)) (sym kept) used)))
        ]
