-- ===== src/AuthService/Steps.antt =====
-- What the operations of auth_service.go do to the rows, on every branch: one step each.
use digital_square.Base.{
  ℕ, String, ◌≡◌, refl, sym, ap, ◌∙◌, subst, inl, inr, List, [], ◌∷◌, All, All-imp,
}
use digital_square.Errors.{Result, ok, err}
use digital_square.Action.{Action, continue, ◌>>◌, Result-cases}
use digital_square.Models.{Uuid, Time, User, role_user}
use digital_square.Hash.{hash_password}
use digital_square.Auth.{generate_token}
use digital_square.UserRepository.{kept_user, IsUserTable, create_user}
use digital_square.UserRepository.History.{IsOtherThan, AccountStep, keeps, registers, bans}
use digital_square.AuthService.{
  Parts, State, new_user, with_token, validate_register_input, create_and_sign, store, register,
  ban_user, ban_bulk, email_free, username_free,
}
use digital_square.AuthService.Register.{email_free_reads, username_free_reads}
use digital_square.AuthService.Ban.{ban_user_effect, ban_bulk_effect}

module _ (P : Parts) (users : State P → List User) (L : IsUserTable P.table users) where
  -- The first part of a sequence leaves the rows alone, and the rest takes a step.
  continue_step :
      {A B : Type 0} (r : Result A) (s s' : State P) (k : A → Action (State P) B)
      → users s' ≡ users s
      → ((a : A) (t : State P) → AccountStep (users t) (users (k a t).1))
      → AccountStep (users s) (users (continue r s' k).1)
  continue_step (ok a) s s' k kept step =
      subst (λ us. AccountStep us (users (k a s').1)) kept (step a s')
  continue_step (err e) s s' k kept step = subst (AccountStep (users s)) (sym kept) keeps

  with_token_keeps :
      (issued : Time) (user : User) (s : State P) → (with_token P issued user s).1 ≡ s
  with_token_keeps issued user s =
      elim (Result-cases (generate_token P.jwt issued user P.jwt_secret P.jwt_expiration)) [
        | inl (token, signed) ↦ rw signed refl
        | inr (e, failed) ↦ rw failed refl
      ]

  added :
      (now : Time) (user : User) (issued : Time) (s : State P)
      → user.role ≡ role_user
      → AccountStep (users s) (users (create_and_sign P now issued user s).1)
  unfolding create_user
  added now user issued s role = elim (Result-cases (P.table.create now user s).0) [
    | inr (e, failed) ↦
        rw failed (subst (AccountStep (users s)) (sym (L.not_created now user e s failed)) keeps)
    | inl (stored, done) ↦
        let (is_stored, effect) = L.created now user stored s done in
        let unique = L.unique now user stored s done in
        let other : All (λ u. IsOtherThan u stored) (users s) =
          All-imp _ _
            (λ u differs.
              (λ e. differs.0 (e ∙ is_stored.email), λ e. differs.1 (e ∙ is_stored.username)))
            (users s) unique in
        let kept = with_token_keeps issued stored (P.table.create now user s).1 in
        rw done (
          subst (AccountStep (users s)) (sym (ap users kept ∙ effect))
            (registers (kept_user P.table.column stored) (is_stored.role ∙ role) other))
  ]

  store_step :
      (now issued : Time) (id : Uuid) (salt : Result (List ℕ)) (username email password : String)
      (s : State P)
      → AccountStep (users s) (users (store P now issued id salt username email password s).1)
  store_step now issued id salt username email password s =
      continue_step (hash_password P.argon salt password) s s
        (λ hash. create_and_sign P now issued (new_user id username email hash)) refl
        (λ hash t. added now (new_user id username email hash) issued t refl)

  -- A registration, whatever comes of it.
  pub register_step :
      (now issued : Time) (id : Uuid) (salt : Result (List ℕ)) (username email password : String)
      (s : State P)
      → AccountStep (users s) (users (register P now issued id salt username email password s).1)
  unfolding register
  register_step now issued id salt username email password s =
      let storing = store P now issued id salt username email password in
      let rest : State P → Result (User × String) × State P = username_free P username >> storing in
      continue_step (validate_register_input username email password) s s
        (λ _. email_free P email >> rest) refl
        (λ _ t.
          continue_step (email_free P email t).0 t (email_free P email t).1 (λ _. rest)
            (email_free_reads P users L email t)
            (λ _ t'.
              continue_step (username_free P username t').0 t' (username_free P username t').1
                (λ _. storing) (username_free_reads P users L username t')
                (λ _ t''. store_step now issued id salt username email password t'')))

  pub ban_user_step :
      (now : Time) (user_id admin_id reason : String) (s : State P)
      → AccountStep (users s) (users (ban_user P now user_id admin_id reason s).1)
  ban_user_step now user_id admin_id reason s =
      elim (ban_user_effect P users L now user_id admin_id reason s) [
        | inl (_, (id, _, marked)) ↦
            subst (AccountStep (users s)) (sym marked) (bans (P.table.column now) (id ∷ []))
        | inr (_, kept) ↦ subst (AccountStep (users s)) (sym kept) keeps
      ]

  pub ban_bulk_step :
      (now : Time) (user_ids : List String) (admin_id reason : String) (s : State P)
      → AccountStep (users s) (users (ban_bulk P now user_ids admin_id reason s).1)
  ban_bulk_step now user_ids admin_id reason s =
      elim (ban_bulk_effect P users L now user_ids admin_id reason s) [
        | inl (_, (ids, marked, _, _)) ↦
            subst (AccountStep (users s)) (sym marked) (bans (P.table.column now) ids)
        | inr (_, kept) ↦ subst (AccountStep (users s)) (sym kept) keeps
      ]
