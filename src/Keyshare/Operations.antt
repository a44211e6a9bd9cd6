-- ===== src/Keyshare/Operations.antt =====
-- internal/keysharecore/operations.go and legacy.go: the operations of the core. Each returns the core after it
-- and its result. Random values are arguments, and `now` is the clock in seconds.
use irmago.Prelude.{
  ℕ, ◌+◌, ◌%◌, ◌^◌, Bool, not, ◌||◌, Option, none, some, List, [], ◌∷◌, String, ◌==◌, nat_eq,
  string_eq, pair_eq, leb, is_some, if◌then◌else◌, map,
}
use irmago.Prelude.Int.{ℤ, is_neg, nat_abs, ◌-ℤ◌}
use irmago.Prelude.Map.{lookup, insert, delete}
use irmago.Prelude.Outcome.{ok, err, panic, ◌>>=◌, ◌>>◌, ensure, or_err}
use irmago.Identifier.{identifier_eq}
use irmago.Keyshare.Secrets.{
  invalid_challenge, invalid_jwt, expired_jwt, key_not_found, unknown_commit,
  challenge_response_required, wrong_challenge, already_public_key, jwt_required, no_public_key,
  jwt_expiry_too_far, other, Result, UnencryptedUserSecrets, UserSecrets, set_pin,
  set_keyshare_secret, set_id, verify_pin, encrypt_user_secrets, decrypt_user_secrets,
  decrypt_user_secrets_if_pin_ok,
}
use irmago.Keyshare.Core.{
  Core, Library, PublicKeyIdentifier, IdemixKey, AccessClaims, ProofP, ResponseRequest,
}

-- ChallengeJWTMaxExpiry, in seconds, and the bits of a challenge of 1024-bit parameters.
abbrev challenge_jwt_max_expiry : ℕ
challenge_jwt_max_expiry = 360

abbrev challenge_bits : ℕ
challenge_bits = 256

abbrev empty_secrets : UnencryptedUserSecrets
empty_secrets = record { pin = []; keyshare_secret = 0; id = []; public_key = none }

-- A challenge is out of bounds: its bit length is above that of the parameters, or it is negative.
unfoldable pub out_of_bounds : ℤ → Bool
out_of_bounds challenge = leb (2 ^ challenge_bits) (nat_abs challenge) || is_neg challenge

-- A step that needs a result: without it the core stays.
unfoldable pub with_result :
    {A B : Type 0} → Core → Result B → (B → Core × Result A) → Core × Result A
with_result c (ok b) next = next b
with_result c (err e) next = (c, err e)
with_result c panic next = (c, panic)

module _ (lib : Library) where
  encrypt : Core → List ℕ → UnencryptedUserSecrets → Result UserSecrets
  encrypt c nonce s = encrypt_user_secrets lib.cipher c.decryption_key c.decryption_key_id nonce s

  unfoldable pub decrypt : Core → UserSecrets → Result UnencryptedUserSecrets
  decrypt c secrets = decrypt_user_secrets lib.cipher c.decryption_keys secrets

  -- NewUserSecrets
  unfoldable pub new_user_secrets :
      ℤ → List ℕ → List ℕ → List ℕ → Option (List ℕ) → Core → Result UserSecrets
  unfolding encrypt
  new_user_secrets drawn_secret drawn_id nonce pin pk c = set_pin pin empty_secrets >>= λ s.
      set_keyshare_secret drawn_secret s >>= λ s.
      set_id drawn_id s >>= λ s. encrypt c nonce (record s { public_key = pk })

  -- authJWT
  unfoldable pub auth_jwt : ℕ → Core → UnencryptedUserSecrets → String
  auth_jwt now c s = lib.sign_access c.jwt_private_key c.jwt_private_key_id (record {
    issuer = c.jwt_issuer;
    subject = "auth_tok";
    issued_at = now;
    expires_at = some (now + c.jwt_pin_expiry);
    token_id = some (some (lib.encode_base64 s.id));
  })

  -- consumeChallenge
  unfoldable pub consume_challenge : List ℕ → Core → Core × Option (List ℕ)
  consume_challenge id c =
      (record c { auth_challenges = delete id c.auth_challenges }, lookup id c.auth_challenges)

  -- The key that a user's tokens are verified with: without one the JWT library fails.
  unfoldable pub with_public_key :
      {A : Type 0} → UnencryptedUserSecrets → (List ℕ → Option A) → Result A
  with_public_key s parse = or_err s.public_key other >>= λ pk. or_err (parse pk) other

  -- verifyChallengeResponse, with the challenge that was consumed.
  unfoldable pub verify_challenge_response :
      ℕ → UnencryptedUserSecrets → String → Option (List ℕ) → Result (List ℕ)
  unfolding with_public_key
  verify_challenge_response now s jwt challenge =
      or_err challenge challenge_response_required >>= λ expected.
      with_public_key s (λ pk. lib.parse_auth_response pk now jwt) >>= λ claims.
      ensure (expected == claims.challenge) wrong_challenge >> ok claims.pin

  -- ValidateAuth after the decryption.
  unfoldable pub validate_decrypted :
      ℕ → String → Core → UnencryptedUserSecrets → Core × Result String
  unfolding consume_challenge
  validate_decrypted now jwt c s =
      let (c', challenge) = consume_challenge s.id c in
      (
        c',
        verify_challenge_response now s jwt challenge >>= λ pin.
            verify_pin pin s >>= λ _. ok (auth_jwt now c' s),
      )

  -- ValidateAuth
  unfoldable pub validate_auth : ℕ → UserSecrets → String → Core → Core × Result String
  unfolding with_result validate_decrypted decrypt
  validate_auth now secrets jwt c = with_result c (decrypt c secrets) (validate_decrypted now jwt c)

  -- The token identifier of an access token.
  unfoldable pub token_id_of : ℕ → AccessClaims → Result (List ℕ)
  token_id_of now claims = or_err claims.expires_at expired_jwt >>= λ expires_at.
      ensure (lib.before_expiry now expires_at) expired_jwt
      >> (or_err claims.token_id invalid_jwt >>= λ present.
          or_err present invalid_jwt >>= λ text. or_err (lib.decode_base64 text) invalid_jwt)

  -- verifyAccess
  unfoldable pub verify_access : ℕ → UserSecrets → String → Core → Result UnencryptedUserSecrets
  unfolding token_id_of decrypt
  verify_access now secrets jwt c =
      or_err (lib.parse_access c.jwt_private_key now jwt) invalid_jwt >>= λ claims.
      token_id_of now claims >>= λ token_id.
      decrypt c secrets >>= λ s. ensure (s.id == token_id) invalid_jwt >> ok s

  -- ValidateJWT
  unfoldable pub validate_jwt : ℕ → UserSecrets → String → Core → Result (Unit {0})
  unfolding verify_access
  validate_jwt now secrets jwt c = verify_access now secrets jwt c >>= λ _. ok tt

  -- The end of ChangePin and ChangePinLegacy: a new pin under a new identifier.
  unfoldable pub reencrypt :
      List ℕ → List ℕ → List ℕ → Core → UnencryptedUserSecrets → Result UserSecrets
  unfolding encrypt
  reencrypt drawn_id nonce new_pin c s =
      set_pin new_pin s >>= λ s. set_id drawn_id s >>= λ s. encrypt c nonce s

  -- ChangePin
  unfoldable pub change_pin : ℕ → List ℕ → List ℕ → UserSecrets → String → Core → Result UserSecrets
  unfolding decrypt with_public_key reencrypt
  change_pin now drawn_id nonce secrets jwt c = decrypt c secrets >>= λ s.
      with_public_key s (λ pk. lib.parse_change_pin pk now jwt) >>= λ claims.
      verify_pin claims.old_pin s >>= λ _. reencrypt drawn_id nonce claims.new_pin c s

  -- The trusted keys with these identifiers, in their order.
  unfoldable pub key_list : List PublicKeyIdentifier → Core → Result (List IdemixKey)
  key_list [] c = ok []
  key_list (id ∷ ids) c =
      let rest = key_list ids c in
      or_err (lookup id c.trusted_keys) key_not_found >>= λ key. rest >>= λ keys. ok (key ∷ keys)

  -- GeneratePs
  unfoldable pub generate_ps :
      ℕ → UserSecrets → String → List PublicKeyIdentifier → Core → Result (List ℕ)
  unfolding key_list verify_access
  generate_ps now secrets jwt ids c = key_list ids c >>= λ keys.
      verify_access now secrets jwt c >>= λ s.
      ok (map (λ key. (key.r0 ^ s.keyshare_secret) % key.n) keys)

  -- The end of GenerateCommitments: the secret of the commitments is stored.
  unfoldable pub commit_secrets :
      ℕ → List IdemixKey → Core → UnencryptedUserSecrets → Core × Result (List String × ℕ)
  commit_secrets commit_id keys c s =
      with_result c (or_err (lib.new_commitments s.keyshare_secret keys) other)
        (λ (secret, commitments). (
          record c { commitment_data = insert commit_id secret c.commitment_data },
          ok (commitments, commit_id),
        ))

  -- GenerateCommitments, with the identifier that is drawn for the commitment.
  unfoldable pub generate_commitments :
      ℕ
      → ℕ
      → UserSecrets
      → String
      → List PublicKeyIdentifier
      → Core
      → Core × Result (List String × ℕ)
  unfolding with_result commit_secrets key_list verify_access
  generate_commitments now commit_id secrets jwt ids c =
      with_result c (key_list ids c)
        (λ keys. with_result c (verify_access now secrets jwt c) (commit_secrets commit_id keys c))

  -- The commitment is taken out of the core before the response is computed.
  unfoldable pub take_commitment : ℕ → Core → Core × Option ℕ
  take_commitment commit_id c = (
    record c { commitment_data = delete commit_id c.commitment_data },
    lookup commit_id c.commitment_data,
  )

  -- A response to a commitment that was taken out of the core.
  unfoldable pub respond : ℕ → ℕ → (ℕ → Result ProofP) → Core → Core × Result String
  unfolding take_commitment
  respond now commit_id prove c =
      let (c', commit) = take_commitment commit_id c in
      (
        c',
        or_err commit unknown_commit >>= λ commit. prove commit >>= λ proof_p. ok (
            lib.sign_response c'.jwt_private_key c'.jwt_private_key_id
              (record { proof_p = proof_p; issued_at = now; issuer = c'.jwt_issuer })),
      )

  -- GenerateResponse
  unfoldable pub generate_response :
      ℕ → UserSecrets → String → ℕ → ℤ → PublicKeyIdentifier → Core → Core × Result String
  unfolding respond with_result verify_access
  generate_response now secrets jwt commit_id challenge key_id c =
      if out_of_bounds challenge
      then (c, err invalid_challenge)
      else with_result c (or_err (lookup key_id c.trusted_keys) key_not_found) (λ key.
        with_result c (verify_access now secrets jwt c) (λ s.
          respond now commit_id
            (λ commit. ok (lib.response_legacy s.keyshare_secret commit challenge key)) c))

  -- The proof of GenerateResponseV2, with P and without the user's response for legacy issuers.
  unfoldable pub checked_proof :
      UnencryptedUserSecrets → IdemixKey → ResponseRequest → Bool → ProofP → Result ProofP
  checked_proof s key request linkable proof_p =
      if out_of_bounds proof_p.c
      then err invalid_challenge
      else if linkable
      then ok (record proof_p {
        p = some ((key.r0 ^ s.keyshare_secret) % key.n);
        s_response = proof_p.s_response -ℤ request.user_response;
      })
      else ok proof_p

  -- GenerateResponseV2
  unfoldable pub generate_response_v2 :
      ℕ
      → UserSecrets
      → String
      → ℕ
      → String
      → ResponseRequest
      → PublicKeyIdentifier
      → Bool
      → Core
      → Core × Result String
  unfolding respond with_result verify_access checked_proof
  generate_response_v2 now secrets jwt commit_id hashed request key_id linkable c =
      with_result c (or_err (lookup key_id c.trusted_keys) key_not_found) (λ key.
        with_result c (verify_access now secrets jwt c) (λ s.
          respond now commit_id
            (λ commit.
              or_err (lib.response s.keyshare_secret commit hashed request) other >>= λ proof_p.
              checked_proof s key request linkable proof_p)
            c))

  -- The checks of GenerateChallenge.
  unfoldable pub check_challenge_request : ℕ → String → UnencryptedUserSecrets → Result (Unit {0})
  unfolding with_public_key
  check_challenge_request now jwt s = or_err s.public_key no_public_key >>= λ _.
      with_public_key s (λ pk. lib.parse_auth_request pk now jwt) >>= λ claims.
      or_err claims.expires_at jwt_expiry_too_far >>= λ expires_at.
      ensure (leb expires_at (now + challenge_jwt_max_expiry)) jwt_expiry_too_far

  -- GenerateChallenge after the decryption.
  unfoldable pub challenge_decrypted :
      ℕ → List ℕ → String → Core → UnencryptedUserSecrets → Core × Result (List ℕ)
  unfolding with_result check_challenge_request
  challenge_decrypted now challenge jwt c s =
      with_result c (check_challenge_request now jwt s) (λ _.
        (record c { auth_challenges = insert s.id challenge c.auth_challenges }, ok challenge))

  -- GenerateChallenge, with the challenge that is drawn.
  unfoldable pub generate_challenge :
      ℕ → List ℕ → UserSecrets → String → Core → Core × Result (List ℕ)
  unfolding with_result challenge_decrypted decrypt
  generate_challenge now challenge secrets jwt c =
      with_result c (decrypt c secrets) (challenge_decrypted now challenge jwt c)

  -- SetUserPublicKey
  unfoldable pub set_user_public_key :
      ℕ → List ℕ → UserSecrets → List ℕ → List ℕ → Core → Result (String × UserSecrets)
  unfolding encrypt
  set_user_public_key now nonce secrets pin pk c =
      decrypt_user_secrets_if_pin_ok lib.cipher c.decryption_keys secrets pin >>= λ s.
      ensure (not (is_some s.public_key)) already_public_key
      >> (let s' = record s { public_key = some pk } in
          encrypt c nonce s' >>= λ secrets'. ok (auth_jwt now c s', secrets'))

  -- ChangePinLegacy
  unfoldable pub change_pin_legacy :
      List ℕ → List ℕ → UserSecrets → List ℕ → List ℕ → Core → Result UserSecrets
  unfolding reencrypt
  change_pin_legacy drawn_id nonce secrets old_pin new_pin c =
      decrypt_user_secrets_if_pin_ok lib.cipher c.decryption_keys secrets old_pin >>= λ s.
      ensure (not (is_some s.public_key)) jwt_required >> reencrypt drawn_id nonce new_pin c s

  -- ValidateAuthLegacy
  unfoldable pub validate_auth_legacy : ℕ → UserSecrets → List ℕ → Core → Result String
  validate_auth_legacy now secrets pin c =
      decrypt_user_secrets_if_pin_ok lib.cipher c.decryption_keys secrets pin >>= λ s.
      ensure (not (is_some s.public_key)) challenge_response_required >> ok (auth_jwt now c s)
