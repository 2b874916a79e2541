-- ===== src/AdminHandler/Answers.antt =====
-- What an answer of admin_handler.go says of the table of users.
use digital_square.Base.{
  String, ◌≡◌, ◌≢◌, ◌⊎◌, ◌↔◌, inl, inr, refl, true, ◌&&◌, Bool-cases, Option, none, some, List, [],
  map, Has,
}
use digital_square.Errors.{Result, ok, err}
use digital_square.Models.{Uuid, Time, User}
use digital_square.Http.{Refusal}
use digital_square.UserRepository.{IsUserTable, is_among, mark}
use digital_square.AuthHandler.{is_given}
use digital_square.AuthService
use digital_square.AuthService.{Parts, State}
use digital_square.AuthService.Ban.{ban_bulk_effect}
use digital_square.AdminHandler.{BanBulkRequest, is_set, ids_of, or_message, run_ban_bulk, ban_bulk}

-- A message is answered exactly where there is no error.
or_message-cases :
    (error message : String) (r : Result (Unit {0}))
    → ((r ≡ ok tt) × (or_message error message r ≡ inr message))
      ⊎ ((r ≢ ok tt) × ((x : Refusal) × (or_message error message r ≡ inl x)))
or_message-cases error message (ok tt) = inl (refl, refl)
or_message-cases error message (err e) = inr (λ h. cc h, (_, refl))

module _ (P : Parts) (users : State P → List User) (L : IsUserTable P.table users) (now : Time)
    (admin_id : String) (s : State P) where
  -- The users after a bulk ban of the request's ids that was done.
  abbrev AreBanned : BanBulkRequest → List User → Type 0
  AreBanned req after =
      (ids : List Uuid) × (after ≡ map (mark (P.table.column now) ids) (users s))
      × (ids ≢ [])
      × ((id : Uuid)
          → (is_among id ids ≡ true) ↔ Has (λ t. P.parse_uuid t ≡ some id) (ids_of req.user_ids))

  abbrev pub Answered : Option BanBulkRequest → (Refusal ⊎ String) × State P → Type 0
  Answered request run =
      ((req : BanBulkRequest) × (request ≡ some req)
        × (run.0 ≡ inr "Users banned successfully")
        × AreBanned req (users run.1))
      ⊎ ((x : Refusal) × (run.0 ≡ inl x) × (users run.1 ≡ users s))

  run_ban_bulk-Answered :
      (req : BanBulkRequest) → Answered (some req) (run_ban_bulk P now admin_id req s)
  run_ban_bulk-Answered req =
      let run = AuthService.ban_bulk P now (ids_of req.user_ids) admin_id req.reason s in
      let answer = or_message-cases "Failed to ban users" "Users banned successfully" run.0 in
      elim (ban_bulk_effect P users L now (ids_of req.user_ids) admin_id req.reason s) [
        | inl (done, banned) ↦ elim answer [
          | inl (_, says) ↦ inl (req, refl, says, banned)
          | inr (failed, _) ↦ absurd (failed done)
        ]
        | inr (failed, kept) ↦ elim answer [
          | inl (done, _) ↦ absurd (failed done)
          | inr (_, (x, says)) ↦ inr (x, says, kept)
        ]
      ]

  -- A bulk ban is answered with its message where the request could be read, and then it has
  -- marked the visible users whose ids are exactly those of its texts that parse, of which there
  -- is one; or it is refused, and no row has changed.
  pub ban_bulk_answers :
      (request : Option BanBulkRequest) → Answered request (ban_bulk P now admin_id request s)
  unfolding ban_bulk
  ban_bulk_answers none = inr (_, refl, refl)
  ban_bulk_answers (some req) = elim (Bool-cases (is_set req.user_ids && is_given req.reason)) [
    | inl complete ↦ rw complete (run_ban_bulk-Answered req)
    | inr missing ↦ rw missing (inr (_, refl, refl))
  ]
