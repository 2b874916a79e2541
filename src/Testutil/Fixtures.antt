-- ===== src/Testutil/Fixtures.antt =====
-- The users and messages of fixtures.go and the wrappers of service_wrappers.go.
use digital_square.Base.{ℕ, String, ◌≡◌, refl, Bool, true, List, All}
use digital_square.Errors.{Error, Result, ok, err}
use digital_square.Models.{Uuid, Time, Role}
use digital_square.Hash.{Argon, IsArgon, verify_password}
use digital_square.Hash.RoundTrip.{verify_password-hash_password}
use digital_square.Base64.RoundTrip.{IsByte}
use digital_square.Wal.{WriteFaults}
use digital_square.MessageService
use digital_square.MessageService.{Parts, State}
use digital_square.Testutil.{
  TestUser, create_test_user, made_user, send_message_str, delete_message_str,
}

module _ (G : Argon) (L : IsArgon G) (salt : List ℕ) (bytes : All IsByte salt) (fresh : String)
    (created updated : Time) where
  -- With a salt of bytes a user is made of any arguments, with the fresh identifier and the given
  -- name, address and role, and the password logs in with the hash that is stored.
  create_test_user-verify_password :
      (username email password : String) (role : Role)
      → (user : TestUser) × (create_test_user G
            (ok salt)
            fresh
            created
            updated
            username
            email
            password
            role
          ≡ ok user)
        × (user.id ≡ fresh)
        × (user.username ≡ username)
        × (user.email ≡ email)
        × (user.role ≡ role)
        × (verify_password G password user.password_hash ≡ ok true)
  unfolding create_test_user
  create_test_user-verify_password username email password role =
      let (stored, made, (_, accepts)) =
        verify_password-hash_password G L salt bytes password password in
      (
        made_user fresh username email role stored created updated,
        rw made refl,
        refl,
        refl,
        refl,
        refl,
        accepts refl,
      )

module _ (parse : String → Result Uuid) (P : Parts) where
  -- On the text of an identifier the wrapper is the call of the service with that identifier.
  send_message_str-parse :
      (t : String) (id : Uuid)
      → parse t ≡ ok id
      → (fresh : Uuid) (now : Time) (faults : WriteFaults) (username content : String)
      → send_message_str parse P fresh now faults t username content
        ≡ MessageService.send_message P fresh now faults id username content
  unfolding send_message_str
  send_message_str-parse t id reads fresh now faults username content = rw reads refl

  -- On a text that is no identifier nothing is sent, and the state is kept.
  delete_message_str-parse :
      (t : String) (e : Error)
      → parse t ≡ err e
      → (now : Time) (message_id : String) (is_admin : Bool) (s : State P)
      → delete_message_str parse P now message_id t is_admin s ≡ (err e, s)
  unfolding delete_message_str
  delete_message_str-parse t e fails now message_id is_admin s = rw fails refl
