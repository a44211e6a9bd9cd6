-- ===== src/Keyshare/Secrets.antt =====
-- internal/keysharecore/usersecrets.go: the secrets of a keyshare user, with constant-size fields, and their
-- encryption under a key that the first four bytes name. CBOR and AES-GCM are parameters.
use irmago.Prelude.{
  ℕ, ◌-◌, ◌+◌, ◌*◌, ◌/◌, ◌%◌, ◌^◌, Option, none, some, List, [], ◌∷◌, ◌++◌, String, ◌==◌, nat_eq,
  ltb, leb, if◌then◌else◌, length, take, drop, replicate,
}
use irmago.Prelude.Int.{ℤ, pos, negsuc}
use irmago.Prelude.Map.{lookup}
use irmago.Prelude.Outcome.{Outcome, ok, err, panic, ◌>>=◌, ensure, or_err, or_panic}
use irmago.Bytes.{to_bytes, from_bytes}
use irmago.Identifier.{identifier_eq}

-- The errors of keysharecore; `other` is one of a library, or an anonymous one.
pub data CoreError : Type 0 where
  invalid_pin pin_too_long invalid_challenge invalid_jwt expired_jwt key_not_found unknown_commit :
      CoreError
  challenge_response_required wrong_challenge secret_too_big secret_negative no_such_key : CoreError
  pad_too_long already_public_key jwt_required no_public_key jwt_expiry_too_far other : CoreError

abbrev pub Result : Type 0 → Type 0
Result A = Outcome CoreError A

-- unencryptedUserSecrets: a public key is its PKIX bytes.
pub record UnencryptedUserSecrets : Type 0 where
  pub pin : List ℕ
  pub keyshare_secret : ℕ
  pub id : List ℕ
  pub public_key : Option (List ℕ)

-- marshaledUserSecrets
pub record MarshaledUserSecrets : Type 0 where
  pub pin : List ℕ
  pub keyshare_secret : List ℕ
  pub id : List ℕ
  pub public_key : Option (List ℕ)

-- UserSecrets: four bytes for the key's identifier, twelve for the nonce, and the ciphertext.
abbrev pub UserSecrets : Type 0
UserSecrets = List ℕ

-- The CBOR library and AES-GCM.
pub record Cipher : Type 0 where
  pub encode : MarshaledUserSecrets → List ℕ
  pub decode : List ℕ → Option MarshaledUserSecrets
  pub seal : String → List ℕ → List ℕ → List ℕ
  pub unseal : String → List ℕ → List ℕ → Option (List ℕ)

-- padBytes
unfoldable pub pad_bytes : List ℕ → ℕ → Result (List ℕ)
pad_bytes src len =
    if ltb len (length src)
    then err pad_too_long
    else if length src == len
    then ok src
    else ok (replicate (len - length src) 0 ++ src)

-- setPin
unfoldable pub set_pin : List ℕ → UnencryptedUserSecrets → Result UnencryptedUserSecrets
set_pin pin s =
    if ltb 64 (length pin)
    then err pin_too_long
    else (pad_bytes pin 64 >>= λ padded. ok (record s { pin = padded }))

-- setKeyshareSecret: 64 bytes hold the numbers below 2^512.
unfoldable pub set_keyshare_secret : ℤ → UnencryptedUserSecrets → Result UnencryptedUserSecrets
set_keyshare_secret (negsuc n) s = err secret_negative
set_keyshare_secret (pos n) s =
    if leb (2 ^ 512) n then err secret_too_big else ok (record s { keyshare_secret = n })

-- setID
unfoldable pub set_id : List ℕ → UnencryptedUserSecrets → Result UnencryptedUserSecrets
set_id id s = pad_bytes id 32 >>= λ padded. ok (record s { id = padded })

-- verifyPin
unfoldable pub verify_pin : List ℕ → UnencryptedUserSecrets → Result (Unit {0})
verify_pin pin s = pad_bytes pin 64 >>= λ padded. ensure (s.pin == padded) invalid_pin

-- MarshalCBOR
unfoldable pub marshal : UnencryptedUserSecrets → Result MarshaledUserSecrets
marshal s = pad_bytes (to_bytes s.keyshare_secret) 64 >>= λ secret.
    ok (record { pin = s.pin; keyshare_secret = secret; id = s.id; public_key = s.public_key })

-- UnmarshalCBOR. The public key is kept as its PKIX encoding, empty for none: the marshaled bytes come from a
-- key that has been parsed, so that the error of parsing them again is left out.
unfoldable pub unmarshal : MarshaledUserSecrets → UnencryptedUserSecrets
unmarshal raw = record {
  pin = raw.pin;
  keyshare_secret = from_bytes raw.keyshare_secret;
  id = raw.id;
  public_key = raw.public_key;
}

-- PutUint32 and Uint32 of binary.LittleEndian; Uint32 reads four bytes or panics.
unfoldable pub put_uint32 : ℕ → List ℕ
put_uint32 n = n % 256 ∷ n / 256 % 256 ∷ n / 65536 % 256 ∷ n / 16777216 % 256 ∷ []

unfoldable pub uint32 : List ℕ → Option ℕ
uint32 (a ∷ b ∷ c ∷ d ∷ rest) = some (a + 256 * b + 65536 * c + 16777216 * d)
uint32 _ = none

-- encryptUserSecrets, with the nonce that is drawn.
unfoldable pub encrypt_user_secrets :
    Cipher → String → ℕ → List ℕ → UnencryptedUserSecrets → Result UserSecrets
encrypt_user_secrets cipher key key_id nonce s = marshal s >>= λ raw.
    ok (put_uint32 key_id ++ nonce ++ cipher.seal key nonce (cipher.encode raw))

-- decryptUserSecrets: too short a slice panics.
unfoldable pub decrypt_user_secrets :
    Cipher → List (ℕ × String) → UserSecrets → Result UnencryptedUserSecrets
decrypt_user_secrets cipher keys secrets = or_panic (uint32 secrets) >>= λ id.
    or_err (lookup id keys) no_such_key >>= λ key.
    if ltb (length secrets) 16
    then panic
    else (or_err (cipher.unseal key (take 12 (drop 4 secrets)) (drop 16 secrets)) other >>= λ bts.
        or_err (cipher.decode bts) other >>= λ raw. ok (unmarshal raw))

-- decryptUserSecretsIfPinOK
unfoldable pub decrypt_user_secrets_if_pin_ok :
    Cipher → List (ℕ × String) → UserSecrets → List ℕ → Result UnencryptedUserSecrets
decrypt_user_secrets_if_pin_ok cipher keys secrets pin =
    decrypt_user_secrets cipher keys secrets >>= λ s. verify_pin pin s >>= λ _. ok s
