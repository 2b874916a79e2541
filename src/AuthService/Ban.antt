-- ===== src/AuthService/Ban.antt =====
-- `BanUser` and `BanBulk` of auth_service.go.
use digital_square.Base.{
  String, ◌≡◌, ◌≢◌, ◌↔◌, ◌=?◌, ◌⊎◌, inl, inr, refl, ap, ◌∙◌, subst, true, false, Bool-cases, Option,
  none, some, List, [], ◌∷◌, map, Has, arith,
}
use digital_square.Errors.{ok}
use digital_square.Action.{Result-cases}
use digital_square.Models.{Uuid, Time, User}
use digital_square.UserRepository.{IsUserTable, is_among, mark, soft_delete_user, bulk_soft_delete}
use digital_square.UserRepository.Lookups.{map-mark_hides}
use digital_square.AuthService.{
  Parts, State, or_invalid_id, or_no_ids, add_parsed, login, ban_user, parse_ids, ban_bulk,
}
use digital_square.AuthService.Login.{login_sound}

module _ (P : Parts) (users : State P → List User) (L : IsUserTable P.table users)
    (now : Time) where
  or_invalid_id_effect :
      (parsed : Option Uuid) (s : State P)
      → (or_invalid_id P now parsed s).0 ≡ ok tt
      → (id : Uuid) × (parsed ≡ some id)
        × (users (or_invalid_id P now parsed s).1
            ≡ map (mark (P.table.column now) (id ∷ [])) (users s))
  unfolding soft_delete_user
  or_invalid_id_effect none s h = cc h
  or_invalid_id_effect (some id) s h = (id, refl, L.marked now id s h)

  or_invalid_id_keeps :
      (parsed : Option Uuid) (s : State P)
      → (or_invalid_id P now parsed s).0 ≢ ok tt
      → users (or_invalid_id P now parsed s).1 ≡ users s
  unfolding soft_delete_user
  or_invalid_id_keeps none s h = refl
  or_invalid_id_keeps (some id) s h = L.not_marked now id s h

  or_no_ids_effect :
      (ids : List Uuid) (s : State P)
      → (or_no_ids P now ids s).0 ≡ ok tt
      → (ids ≢ [])
        × (users (or_no_ids P now ids s).1 ≡ map (mark (P.table.column now) ids) (users s))
  unfolding bulk_soft_delete
  or_no_ids_effect [] s h = cc h
  or_no_ids_effect (id ∷ ids) s h = (λ e. cc e, L.all_marked now (id ∷ ids) s h)

  or_no_ids_keeps :
      (ids : List Uuid) (s : State P)
      → (or_no_ids P now ids s).0 ≢ ok tt
      → users (or_no_ids P now ids s).1 ≡ users s
  unfolding bulk_soft_delete
  or_no_ids_keeps [] s h = refl
  or_no_ids_keeps (id ∷ ids) s h = L.none_marked now (id ∷ ids) s h

  among_parsed :
      (id : Uuid) (parsed : Option Uuid) (ids : List Uuid)
      → (is_among id (add_parsed P parsed ids) ≡ true)
        ↔ ((parsed ≡ some id) ⊎ (is_among id ids ≡ true))
  among_parsed id none ids = (inr, λ h. elim h [ inl e ↦ cc e | inr e ↦ e ])
  among_parsed id (some x) ids = (
    λ h. elim (Bool-cases (id =? x)) [
      | inl e ↦ let same : x ≡ id = ground (arith, e) in inl (ap some same)
      | inr e ↦ inr (ground (arith, e))
    ],
    λ h. elim h [ inl e ↦ let same : x ≡ id = cc e in ground arith | inr e ↦ ground (arith, e) ],
  )

  -- The ids of a bulk ban are exactly those of the texts that parse.
  is_among-parse_ids :
      (id : Uuid) (texts : List String)
      → (is_among id (parse_ids P texts) ≡ true) ↔ Has (λ t. P.parse_uuid t ≡ some id) texts
  unfolding parse_ids
  is_among-parse_ids id [] = (λ h. cc h, λ h. absurd h)
  is_among-parse_ids id (t ∷ texts) =
      let (to, from) = is_among-parse_ids id texts in
      let (split, join) = among_parsed id (P.parse_uuid t) (parse_ids P texts) in
      (
        λ h. elim (split h) [ inl e ↦ inl e | inr e ↦ inr (to e) ],
        λ h. elim h [ inl e ↦ join (inl e) | inr e ↦ join (inr (from e)) ],
      )

  -- A ban that succeeds marks the visible user with the id; one that fails changes no row.
  pub ban_user_effect :
      (user_id admin_id reason : String) (s : State P)
      → let run = ban_user P now user_id admin_id reason s in
        ((run.0 ≡ ok tt)
          × ((id : Uuid) × (P.parse_uuid user_id ≡ some id)
              × (users run.1 ≡ map (mark (P.table.column now) (id ∷ [])) (users s))))
        ⊎ ((run.0 ≢ ok tt) × (users run.1 ≡ users s))
  unfolding ban_user
  ban_user_effect user_id admin_id reason s =
      elim (Result-cases (or_invalid_id P now (P.parse_uuid user_id) s).0) [
        | inl (tt, done) ↦ inl (done, or_invalid_id_effect (P.parse_uuid user_id) s done)
        | inr (e, failed) ↦
            let not_done : (or_invalid_id P now (P.parse_uuid user_id) s).0 ≢ ok tt =
              λ h. cc (h, failed) in
            inr (not_done, or_invalid_id_keeps (P.parse_uuid user_id) s not_done)
      ]

  -- A login after a soft delete finds none of its users.
  marked_login :
      (ids : List Uuid) (s s' : State P)
      → users s' ≡ map (mark (P.table.column now) ids) (users s)
      → (issued : Time) (email password token : String) (user : User)
      → (login P issued email password s').0 ≡ ok (user, token)
      → is_among user.id ids ≡ true
      → ⊥
  marked_login ids s s' marked issued email password token user h among =
      let (seen, _, _, _) = login_sound P users L issued email password s' user token h in
      map-mark_hides (P.table.column now) ids email user (users s) among (
        subst (Has (λ u. (u ≡ user) × (u.email ≡ email) × (u.deleted_at.valid ≡ false))) marked
          seen)

  -- After a ban that succeeded no login returns a user with the id that was banned, whatever
  -- address and password it is tried with.
  pub login-ban_user :
      (user_id admin_id reason : String) (s : State P) (id : Uuid)
      → (ban_user P now user_id admin_id reason s).0 ≡ ok tt
      → P.parse_uuid user_id ≡ some id
      → (issued : Time) (email password token : String) (user : User)
      → (login P issued email password (ban_user P now user_id admin_id reason s).1).0
        ≡ ok (user, token)
      → user.id ≢ id
  unfolding ban_user
  login-ban_user user_id admin_id reason s id done parsed issued email password token user h same =
      let (id', parsed', marked) = or_invalid_id_effect (P.parse_uuid user_id) s done in
      let e : user.id ≡ id' = cc (same, parsed, parsed') in
      marked_login (id' ∷ []) s (or_invalid_id P now (P.parse_uuid user_id) s).1 marked issued email
        password token user h (ground arith)

  -- A bulk ban that succeeds marks the visible users whose ids are exactly those of the texts that
  -- parse, of which there is one; one that fails changes no row.
  pub ban_bulk_effect :
      (user_ids : List String) (admin_id reason : String) (s : State P)
      → let run = ban_bulk P now user_ids admin_id reason s in
        ((run.0 ≡ ok tt)
          × ((ids : List Uuid) × (users run.1 ≡ map (mark (P.table.column now) ids) (users s))
              × (ids ≢ [])
              × ((id : Uuid)
                  → (is_among id ids ≡ true) ↔ Has (λ t. P.parse_uuid t ≡ some id) user_ids)))
        ⊎ ((run.0 ≢ ok tt) × (users run.1 ≡ users s))
  unfolding ban_bulk
  ban_bulk_effect user_ids admin_id reason s =
      let ids = parse_ids P user_ids in
      elim (Result-cases (or_no_ids P now ids s).0) [
        | inl (tt, done) ↦
            let (some_id, marked) = or_no_ids_effect ids s done in
            inl (done, (ids, marked, some_id, λ id. is_among-parse_ids id user_ids))
        | inr (e, failed) ↦
            let not_done : (or_no_ids P now ids s).0 ≢ ok tt = λ h. cc (h, failed) in
            inr (not_done, or_no_ids_keeps ids s not_done)
      ]

  -- After a bulk ban that succeeded no login returns a user with one of the ids that parse.
  login-ban_bulk :
      (user_ids : List String) (admin_id reason : String) (s : State P) (id : Uuid)
      → (ban_bulk P now user_ids admin_id reason s).0 ≡ ok tt
      → Has (λ t. P.parse_uuid t ≡ some id) user_ids
      → (issued : Time) (email password token : String) (user : User)
      → (login P issued email password (ban_bulk P now user_ids admin_id reason s).1).0
        ≡ ok (user, token)
      → user.id ≢ id
  unfolding ban_bulk
  login-ban_bulk user_ids admin_id reason s id done given issued email password token user h same =
      let ids = parse_ids P user_ids in
      let (_, marked) = or_no_ids_effect ids s done in
      let among : is_among id ids ≡ true = (is_among-parse_ids id user_ids).1 given in
      marked_login ids s (or_no_ids P now ids s).1 marked issued email password token user h
        (ap (λ x. is_among x ids) same ∙ among)
