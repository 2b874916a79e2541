-- ===== src/Hash/RoundTrip.antt =====
-- A stored hash is read back as it was made, and accepts the password that it was made of.
use text.Mathlib.TextLemmas.{nil-append, cons-append}
use digital_square.Base.{
  ℕ, ◌≡◌, ◌↔◌, refl, sym, ap, ◌∙◌, String, ◌<>◌, true, List, [], ◌∷◌, length, All, arith,
}
use digital_square.Errors.{Result, ok}
use digital_square.Text.{decimal, split, split_one, split-append, Lacks}
use digital_square.Base64
use digital_square.Base64.RoundTrip.{IsByte, decode-encode, encode-Lacks}
use digital_square.Sscanf.{scan_version, scan_numbers}
use digital_square.Hash.{
  compare_keys, version_text, numbers_text, memory, iterations, parallelism, key_length, Argon,
  IsArgon, encoded, hash_password, decode_parts, decode_hash, same_bytes, verify_password,
}

same_bytes_iff : (xs ys : List ℕ) → (same_bytes xs ys ≡ true) ↔ (xs ≡ ys)
unfolding same_bytes
same_bytes_iff [] [] = (λ h. refl, λ h. refl)
same_bytes_iff [] (y ∷ ys) = (λ h. cc h, λ h. cc h)
same_bytes_iff (x ∷ xs) [] = (λ h. cc h, λ h. cc h)
same_bytes_iff (x ∷ xs) (y ∷ ys) =
    let (to, from) = same_bytes_iff xs ys in
    (
      λ h. let e : x ≡ y = ground arith in cc (e, to (ground arith)),
      λ h.
          let rest : same_bytes xs ys ≡ true = from (cc h) in
          let e : x ≡ y = cc h in ground (arith, rest, e),
    )

-- The stored text has the six parts that it was made of.
parts : List ℕ → List ℕ → List String
parts salt key =
    "" ∷ "argon2id" ∷ "v=19" ∷ "m=65536,t=1,p=4" ∷ Base64.encode salt ∷ Base64.encode key ∷ []

split-part : (s t : String) → Lacks b'$' s → split b'$' (s <> ("$" <> t)) ≡ s ∷ split b'$' t
split-part s t h =
    ap (λ x. split b'$' (s <> x)) (cons-append "$" "" t ∙ ap (λ x. String.◌∷◌ "$" x) (nil-append t))
    ∙ split-append b'$' s "$" t refl h

numbers_test : numbers_text ≡ "m=65536,t=1,p=4"
unfolding decimal
numbers_test = refl

version_test : version_text ≡ "v=19"
unfolding decimal
version_test = refl

split-encoded :
    (salt key : List ℕ)
    → All IsByte salt
    → All IsByte key
    → split b'$' (encoded salt key) ≡ parts salt key
unfolding encoded parts
split-encoded salt key hs hk =
    let after_salt =
      split-part (Base64.encode salt) (Base64.encode key) (encode-Lacks salt hs)
      ∙ ap (λ l. Base64.encode salt ∷ l)
          (split_one b'$' (Base64.encode key) (encode-Lacks key hk)) in
    rw numbers_test (
      rw version_test (
        ap (split b'$') (sym (nil-append _))
        ∙ split-part "" _ tt
        ∙ ap (λ l. "" ∷ l)
            (split-part "argon2id" _ (omega arith)
              ∙ ap (λ l. "argon2id" ∷ l)
                  (split-part "v=19" _ (omega arith)
                    ∙ ap (λ l. "v=19" ∷ l)
                        (split-part "m=65536,t=1,p=4" _ (omega arith)
                          ∙ ap (λ l. "m=65536,t=1,p=4" ∷ l) after_salt)))))

-- Decoding the text that is stored of a salt and a key, both of bytes, gives back the salt, the
-- key, and the parameters of the hash.
decode_hash-encoded :
    (salt key : List ℕ)
    → All IsByte salt
    → All IsByte key
    → decode_hash (encoded salt key)
      ≡ ok (record {
        salt = salt;
        hash = key;
        params = record {
          memory = memory;
          iterations = iterations;
          parallelism = parallelism;
          salt_length = length salt;
          key_length = length key;
        };
      })
unfolding decode_hash scan_version scan_numbers parts
decode_hash-encoded salt key hs hk =
    ap decode_parts (split-encoded salt key hs hk)
    ∙ rw (decode-encode salt hs) (rw (decode-encode key hk) refl)

module _ (G : Argon) (L : IsArgon G) (salt : List ℕ) (is_salt : All IsByte salt) where
  abbrev pub key_of : String → Result (List ℕ)
  key_of password = G.id_key password salt iterations memory parallelism key_length

  verify_password-encoded :
      (other : String) (key key' : List ℕ)
      → All IsByte key
      → length key ≡ key_length
      → key_of other ≡ ok key'
      → verify_password G other (encoded salt key) ≡ ok (same_bytes key key')
  unfolding verify_password
  verify_password-encoded other key key' bytes full makes =
      ap (compare_keys G other) (decode_hash-encoded salt key is_salt bytes)
      ∙ rw full (rw makes refl)

  -- With a salt of bytes a password is hashed without an error, and the text that is stored
  -- accepts another password exactly when both have the same key under this salt.
  pub verify_password-hash_password :
      (password other : String)
      → (stored : String) × (hash_password G (ok salt) password ≡ ok stored)
        × ((verify_password G other stored ≡ ok true) ↔ (key_of other ≡ key_of password))
  unfolding hash_password
  verify_password-hash_password password other =
      let (key, makes, bytes, full) =
        L.makes_key password salt iterations memory parallelism key_length (omega arith)
          (omega arith) (omega arith) in
      let (key', makes', _, _) =
        L.makes_key other salt iterations memory parallelism key_length (omega arith) (omega arith)
          (omega arith) in
      let (to, from) = same_bytes_iff key key' in
      let verified = verify_password-encoded other key key' bytes full makes' in
      (
        encoded salt key,
        rw makes refl,
        (
          λ h. makes' ∙ sym (ap ok (to (cc (verified, h)))) ∙ sym makes,
          λ h. verified ∙ ap ok (from (cc (h, makes, makes'))),
        ),
      )

-- The name of the algorithm in a stored hash, and what stands before it, are not looked at: with
-- other texts without a dollar sign in their place a password is verified in the same way.
verify_password_ignores_name :
    (G : Argon) (password before name before' name' rest : String)
    → Lacks b'$' before
    → Lacks b'$' name
    → Lacks b'$' before'
    → Lacks b'$' name'
    → verify_password G password (before <> ("$" <> (name <> ("$" <> rest))))
      ≡ verify_password G password (before' <> ("$" <> (name' <> ("$" <> rest))))
unfolding verify_password decode_hash
verify_password_ignores_name G password before name before' name' rest hb hn hb' hn' =
    ap (compare_keys G password) (
      ap decode_parts (split-part before _ hb ∙ ap (λ l. before ∷ l) (split-part name rest hn))
      ∙ same_rest (split b'$' rest)
      ∙ sym (
          ap decode_parts
            (split-part before' _ hb' ∙ ap (λ l. before' ∷ l) (split-part name' rest hn'))))
  where
    same_rest :
        (l : List String) → decode_parts (before ∷ name ∷ l) ≡ decode_parts (before' ∷ name' ∷ l)
    same_rest [] = refl
    same_rest (a ∷ []) = refl
    same_rest (a ∷ b ∷ []) = refl
    same_rest (a ∷ b ∷ c ∷ []) = refl
    same_rest (a ∷ b ∷ c ∷ d ∷ []) = refl
    same_rest (a ∷ b ∷ c ∷ d ∷ e ∷ l) = refl
