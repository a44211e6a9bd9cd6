-- ===== src/Keyshare/Examples/World.antt =====
-- A cipher, a library and a core to run the operations of the keyshare core with.
use irmago.Prelude.{
  ℕ, ◌++◌, ◌≡◌, refl, Option, none, some, List, [], ◌∷◌, length, take, drop, take-append,
  drop-append, replicate, leb, nat_eq, if◌then◌else◌, ◌==◌, string_eq,
}
use irmago.Prelude.Int.{pos}
use irmago.Identifier.{Identifier}
use irmago.Keyshare.Secrets.{UnencryptedUserSecrets, MarshaledUserSecrets, Cipher}
use irmago.Keyshare.Core.{Core, Library, PublicKeyIdentifier}
use irmago.Keyshare.Access.Revoked.{Reversible}

-- The lengths of the parts, and the parts.
abbrev key_bytes : Option (List ℕ) → List ℕ
key_bytes none = []
key_bytes (some key) = 1 ∷ key

abbrev encode : MarshaledUserSecrets → List ℕ
encode raw =
    length raw.pin
    ∷ length raw.keyshare_secret
    ∷ length raw.id
    ∷ (raw.pin ++ (raw.keyshare_secret ++ (raw.id ++ key_bytes raw.public_key)))

abbrev key_of : List ℕ → Option (List ℕ)
key_of [] = none
key_of (flag ∷ key) = some key

abbrev parts : ℕ → ℕ → ℕ → List ℕ → MarshaledUserSecrets
parts a b c rest = record {
  pin = take a rest;
  keyshare_secret = take b (drop a rest);
  id = take c (drop b (drop a rest));
  public_key = key_of (drop c (drop b (drop a rest)));
}

abbrev decode : List ℕ → Option MarshaledUserSecrets
decode (a ∷ b ∷ c ∷ rest) = some (parts a b c rest)
decode _ = none

abbrev pub cipher : Cipher
cipher = record {
  encode = encode;
  decode = decode;
  seal = λ key nonce m. m;
  unseal = λ key nonce m. some m;
}

key_of-key_bytes : (key : Option (List ℕ)) → key_of (key_bytes key) ≡ key
key_of-key_bytes none = refl
key_of-key_bytes (some key) = refl

decode-encode : (raw : MarshaledUserSecrets) → decode (encode raw) ≡ some raw
decode-encode raw =
    let p = raw.pin in
    let k = raw.keyshare_secret in
    let rest = raw.id ++ key_bytes raw.public_key in
    rw
      (
        take-append p (k ++ rest) (length p) refl,
        drop-append p (k ++ rest) (length p) refl,
        take-append k rest (length k) refl,
        drop-append k rest (length k) refl,
        take-append raw.id (key_bytes raw.public_key) (length raw.id) refl,
        drop-append raw.id (key_bytes raw.public_key) (length raw.id) refl,
        key_of-key_bytes raw.public_key,
      )
      refl

pub cipher-Reversible : Reversible cipher
cipher-Reversible = record { decode-encode = decode-encode; unseal-seal = λ k n m. refl }

abbrev pub user_id : List ℕ
user_id = replicate 32 7

abbrev pub challenge : List ℕ
challenge = 1 ∷ 2 ∷ []

-- Tokens are valid until second 400; the base64 text "id" is that of the user's identifier.
abbrev pub lib : Library
lib = record {
  cipher = cipher;
  sign_access = λ key id claims. "access";
  parse_access = λ key now token.
      if token == "access"
      then some (record {
        issuer = "keyshare_server";
        subject = "auth_tok";
        issued_at = 0;
        expires_at = some 400;
        token_id = some (some "id");
      })
      else none;
  sign_response = λ key id claims. "response";
  parse_auth_response = λ key now token.
      if token == "answer"
      then some (record { username = "user"; pin = 49 ∷ []; challenge = challenge })
      else none;
  parse_change_pin = λ key now token.
      if token == "change"
      then some (record { username = "user"; old_pin = 49 ∷ []; new_pin = 50 ∷ [] })
      else none;
  parse_auth_request = λ key now token.
      if token == "start" then some (record { username = "user"; expires_at = some 60 }) else none;
  before_expiry = λ now expires_at. leb now expires_at;
  encode_base64 = λ bytes. "id";
  decode_base64 = λ text. some user_id;
  new_commitments = λ secret keys. some (secret, "commitment" ∷ []);
  response_legacy = λ secret commit c key. record { p = none; c = c; s_response = pos (secret) };
  response = λ secret commit hashed request.
      some (record { p = none; c = pos 5; s_response = pos commit });
}

abbrev issuer : Identifier
issuer = 105 ∷ []

abbrev pub key_id : PublicKeyIdentifier
key_id = (issuer, 0)

abbrev pub core : Core
core = record {
  decryption_keys = (3, "key") ∷ [];
  decryption_key = "key";
  decryption_key_id = 3;
  jwt_private_key = "jwt";
  jwt_private_key_id = 0;
  jwt_issuer = "keyshare_server";
  jwt_pin_expiry = 300;
  commitment_data = [];
  auth_challenges = (user_id, challenge) ∷ [];
  trusted_keys = (key_id, record { r0 = 2; n = 35 }) ∷ [];
}

abbrev pub nonce : List ℕ
nonce = replicate 12 0

abbrev pub secrets_of_user : UnencryptedUserSecrets
secrets_of_user = record {
  pin = replicate 63 0 ++ 49 ∷ [];
  keyshare_secret = 5;
  id = user_id;
  public_key = some (4 ∷ []);
}
