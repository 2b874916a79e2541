-- ===== src/Hash.antt =====
-- backend/internal/utils/hash.go: the text under which a password's hash is stored. Bytes are
-- numbers below 256. argon2.IDKey is the parameter `Argon`: it panics on parameters that it does not
-- take. The salt that `rand.Read` fills in is an argument.
pub mod RoundTrip
use digital_square.Base.{
  ℕ, ◌+◌, ◌≤◌, ◌=?◌, ◌≡◌, ◌≢◌, String, ◌<>◌, Bool, true, false, not, ◌&&◌, ◌||◌, List, [], ◌∷◌,
  length, All, if◌then◌else◌,
}
use digital_square.Errors.{invalid_hash, incompatible_version, Result, ok, err}
use digital_square.Text.{split, decimal}
use digital_square.Base64
use digital_square.Base64.RoundTrip.{IsByte}
use digital_square.Sscanf.{Signed, Numbers, scan_version, scan_numbers}

abbrev pub salt_length : ℕ
salt_length = 16

abbrev pub memory : ℕ
memory = 65536

abbrev pub iterations : ℕ
iterations = 1

abbrev pub parallelism : ℕ
parallelism = 4

abbrev pub key_length : ℕ
key_length = 32

-- argon2.Version, 0x13
abbrev pub version : ℕ
version = 19

-- `id_key password salt iterations memory parallelism key_length`
pub record Argon : Type 0 where
  pub id_key : String → List ℕ → ℕ → ℕ → ℕ → ℕ → Result (List ℕ)

-- With one round and one thread at least, a key of the length that was asked for.
pub record IsArgon (G : Argon) : Type 0 where
  pub makes_key :
      (password : String) (salt : List ℕ) (t m p n : ℕ)
      → 1 ≤ t
      → 1 ≤ p
      → 1 ≤ n
      → (key : List ℕ) × (G.id_key password salt t m p n ≡ ok key)
        × All IsByte key
        × (length key ≡ n)

pub record HashParams : Type 0 where
  pub memory : ℕ
  pub iterations : ℕ
  pub parallelism : ℕ
  pub salt_length : ℕ
  pub key_length : ℕ

pub record Decoded : Type 0 where
  pub salt : List ℕ
  pub hash : List ℕ
  pub params : HashParams

abbrev numbers_text : String
numbers_text =
    "m=" <> (decimal memory <> (",t=" <> (decimal iterations <> (",p=" <> decimal parallelism))))

abbrev version_text : String
version_text = "v=" <> decimal version

-- The text that `HashPassword` makes of a salt and a key.
pub encoded : List ℕ → List ℕ → String
encoded salt key =
    "$"
    <> ("argon2id"
        <> ("$"
            <> (version_text
                <> ("$"
                    <> (numbers_text
                        <> ("$" <> (Base64.encode salt <> ("$" <> Base64.encode key))))))))

abbrev or_error : {A B : Type 0} → Result A → (A → Result B) → Result B
or_error (ok a) f = f a
or_error (err e) f = err e

unfoldable pub hash_password : Argon → Result (List ℕ) → String → Result String
unfolding encoded
hash_password G salt password = or_error salt λ s.
    or_error (G.id_key password s iterations memory parallelism key_length)
      λ key. ok (encoded s key)

abbrev is_version : Signed → Bool
is_version v = not v.is_negative && v.size =? version

abbrev with_params : Numbers → List ℕ → List ℕ → Decoded
with_params n salt hash = record {
  salt = salt;
  hash = hash;
  params = record {
    memory = n.memory;
    iterations = n.iterations;
    parallelism = n.parallelism;
    salt_length = length salt;
    key_length = length hash;
  };
}

abbrev decode_rest : String → String → String → Result Decoded
decode_rest params salt hash = or_error (scan_numbers params) λ (n, _).
    or_error (Base64.decode salt) λ s. or_error (Base64.decode hash) λ h. ok (with_params n s h)

-- The first two of the six parts are not looked at.
abbrev pub decode_parts : List String → Result Decoded
decode_parts (p0 ∷ p1 ∷ p2 ∷ p3 ∷ p4 ∷ p5 ∷ []) =
    or_error (scan_version p2)
      λ (v, _). if is_version v then decode_rest p3 p4 p5 else err incompatible_version
decode_parts _ = err invalid_hash

pub decode_hash : String → Result Decoded
decode_hash encoded_hash = decode_parts (split b'$' encoded_hash)

-- subtle.ConstantTimeCompare, as a test
pub same_bytes : List ℕ → List ℕ → Bool
same_bytes [] [] = true
same_bytes (x ∷ xs) (y ∷ ys) = x =? y && same_bytes xs ys
same_bytes _ _ = false

abbrev pub compare_keys : Argon → String → Result Decoded → Result Bool
compare_keys G password (err e) = err e
compare_keys G password (ok d) =
    or_error
      (G.id_key password d.salt d.params.iterations d.params.memory d.params.parallelism
        d.params.key_length)
      λ test_hash. ok (same_bytes d.hash test_hash)

pub verify_password : Argon → String → String → Result Bool
verify_password G password encoded_hash = compare_keys G password (decode_hash encoded_hash)
