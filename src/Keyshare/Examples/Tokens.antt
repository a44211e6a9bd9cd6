-- ===== src/Keyshare/Examples/Tokens.antt =====
-- Secrets, commitments and access tokens of a user.
use irmago.Prelude.{
  ℕ, ◌≤◌, ◌≡◌, ◌≢◌, refl, none, some, List, [], ◌∷◌, ◌++◌, nat_eq, string_eq, pair_eq, replicate,
  arith,
}
use irmago.Prelude.Int.{pos}
use irmago.Prelude.Map.{lookup, insert, delete}
use irmago.Prelude.Outcome.{ok}
use irmago.Bytes.{to_bytes, from_bytes}
use irmago.Identifier.{identifier_eq, bytes_beq_iff}
use irmago.Keyshare.Secrets.{
  UnencryptedUserSecrets, UserSecrets, encrypt_user_secrets, decrypt_user_secrets, marshal,
  unmarshal, pad_bytes, put_uint32, uint32, set_pin, set_id, verify_pin,
}
use irmago.Keyshare.Core.{Core}
use irmago.Keyshare.Operations.{
  decrypt, change_pin, generate_commitments, generate_response, verify_access, validate_auth,
  verify_challenge_response, auth_jwt, out_of_bounds,
}
use irmago.Keyshare.Padding.{decrypt_user_secrets-encrypt_user_secrets}
use irmago.Keyshare.SingleUse.{
  Operation, commits, responds, all_commitments, all_responses, all_responses-all_commitments,
}
use irmago.Keyshare.Access.{Authenticated, validate_auth-Authenticated}
use irmago.Keyshare.Access.Revoked.{HasKey, verify_access-change_pin}
use irmago.Keyshare.Examples.World.{
  cipher, cipher-Reversible, lib, core, nonce, key_id, user_id, secrets_of_user,
}

abbrev key_number : List ℕ
key_number = 3 ∷ 0 ∷ 0 ∷ 0 ∷ []

-- The encrypted secrets of the user, with this last byte of the pin and this identifier.
abbrev sealed : List ℕ → List ℕ → UserSecrets
sealed pin id =
    key_number
    ++ (nonce ++ (64 ∷ 64 ∷ 32 ∷ (pin ++ ((replicate 63 0 ++ 5 ∷ []) ++ (id ++ 1 ∷ 4 ∷ [])))))

abbrev secrets : UserSecrets
secrets = sealed (replicate 63 0 ++ 49 ∷ []) user_id

encrypt_run : encrypt_user_secrets cipher "key" 3 nonce secrets_of_user ≡ ok secrets
unfolding encrypt_user_secrets marshal pad_bytes put_uint32 to_bytes
encrypt_run = refl

key_known : lookup 3 core.decryption_keys ≡ some "key"
unfolding lookup
key_known = refl

decrypt_user_secrets-encrypt_user_secrets_example :
    decrypt_user_secrets cipher core.decryption_keys secrets ≡ ok secrets_of_user
decrypt_user_secrets-encrypt_user_secrets_example =
    decrypt_user_secrets-encrypt_user_secrets cipher core.decryption_keys "key" 3 nonce
      secrets_of_user secrets cipher-Reversible.decode-encode cipher-Reversible.unseal-seal
      (omega arith) key_known refl encrypt_run

-- One commitment and two responses to it.
abbrev operations : List Operation
operations =
    commits 10 77 secrets "access" (key_id ∷ [])
    ∷ responds 11 secrets "access" 77 (pos 9) key_id
    ∷ responds 12 secrets "access" 77 (pos 9) key_id
    ∷ []

no_commitment : lookup 77 core.commitment_data ≡ none
unfolding lookup
no_commitment = refl

all_responses-all_commitments_example :
    all_responses lib 77 operations core ≤ all_commitments lib 77 operations core
all_responses-all_commitments_example =
    all_responses-all_commitments lib 77 operations core no_commitment

one_commitment : all_commitments lib 77 operations core ≡ 1
unfolding all_commitments generate_commitments lookup decrypt_user_secrets uint32 unmarshal
one_commitment = refl

one_response : all_responses lib 77 operations core ≡ 1
unfolding all_responses generate_response out_of_bounds lookup generate_commitments
    decrypt_user_secrets uint32 unmarshal insert delete
one_response = refl

abbrev core_after : Core
core_after = record core { auth_challenges = [] }

authenticated : validate_auth lib 10 secrets "answer" core ≡ (core_after, ok "access")
unfolding validate_auth decrypt decrypt_user_secrets uint32 lookup delete verify_challenge_response
    unmarshal verify_pin pad_bytes auth_jwt
authenticated = refl

validate_auth-Authenticated_example :
    (s : UnencryptedUserSecrets) × (decrypt lib core secrets ≡ ok s)
    × Authenticated lib 10 "answer" core s
    × (lookup s.id core_after.auth_challenges ≡ none)
validate_auth-Authenticated_example =
    validate_auth-Authenticated lib 10 secrets "answer" core core_after "access" authenticated

abbrev new_id : List ℕ
new_id = replicate 32 8

abbrev new_secrets : UserSecrets
new_secrets = sealed (replicate 63 0 ++ 50 ∷ []) new_id

changed : change_pin lib 20 new_id nonce secrets "change" core ≡ ok new_secrets
unfolding change_pin decrypt_user_secrets uint32 lookup unmarshal verify_pin pad_bytes set_pin
    set_id encrypt_user_secrets marshal to_bytes from_bytes put_uint32
changed = refl

accepted : verify_access lib 21 secrets "access" core ≡ ok secrets_of_user
unfolding verify_access decrypt_user_secrets uint32 lookup unmarshal from_bytes
accepted = refl

core-HasKey : HasKey core
core-HasKey = record { bounded = omega arith; known = key_known }

drawn_fresh : secrets_of_user.id ≢ new_id
drawn_fresh e = let same = (bytes_beq_iff user_id new_id).1 e in ground arith

verify_access-change_pin_example :
    verify_access lib 21 new_secrets "access" core ≢ ok secrets_of_user
verify_access-change_pin_example =
    verify_access-change_pin lib 20 21 new_id nonce secrets new_secrets "change" "access" core
      secrets_of_user secrets_of_user cipher-Reversible core-HasKey refl refl changed accepted
      drawn_fresh
