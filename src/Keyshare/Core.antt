-- ===== src/Keyshare/Core.antt =====
-- The Core of internal/keysharecore/core.go: its keys, the secrets of open commitments and the challenges of
-- open authentications. JSON web tokens and the arithmetic of gabi are parameters.
use irmago.Prelude.{
  ℕ, Option, List, [], String, ◌==◌, nat_eq, string_eq, pair_eq, Bool, if◌then◌else◌,
}
use irmago.Prelude.Int.{ℤ}
use irmago.Prelude.Map.{insert}
use irmago.Identifier.{Identifier, identifier_eq}
use irmago.Keyshare.Secrets.{Cipher}

-- PublicKeyIdentifier: an issuer and the counter of its key.
abbrev pub PublicKeyIdentifier : Type 0
PublicKeyIdentifier = Identifier × ℕ

-- What is used of an Idemix public key: its first base R[0] and its modulus N.
pub record IdemixKey : Type 0 where
  pub r0 : ℕ
  pub n : ℕ

-- Core, without its mutexes.
pub record Core : Type 0 where
  pub decryption_keys : List (ℕ × String)
  pub decryption_key : String
  pub decryption_key_id : ℕ
  pub jwt_private_key : String
  pub jwt_private_key_id : ℕ
  pub jwt_issuer : String
  pub jwt_pin_expiry : ℕ
  pub commitment_data : List (ℕ × ℕ)
  pub auth_challenges : List (List ℕ × List ℕ)
  pub trusted_keys : List (PublicKeyIdentifier × IdemixKey)

-- Configuration
pub record CoreConfig : Type 0 where
  pub decryption_key : String
  pub decryption_key_id : ℕ
  pub jwt_private_key : String
  pub jwt_private_key_id : ℕ
  pub jwt_issuer : String
  pub jwt_pin_expiry : ℕ

-- JWTIssuerDefault and JWTPinExpiryDefault
abbrev jwt_issuer_default : String
jwt_issuer_default = "keyshare_server"

abbrev jwt_pin_expiry_default : ℕ
jwt_pin_expiry_default = 300

-- DangerousAddDecryptionKey
unfoldable pub dangerous_add_decryption_key : ℕ → String → Core → Core
dangerous_add_decryption_key key_id key c = record c {
  decryption_keys = insert key_id key c.decryption_keys;
}

-- setDecryptionKey
unfoldable pub set_decryption_key : ℕ → String → Core → Core
set_decryption_key id key c = record c {
  decryption_keys = insert id key c.decryption_keys;
  decryption_key = key;
  decryption_key_id = id;
}

-- setJWTPrivateKey
unfoldable pub set_jwt_private_key : ℕ → String → Core → Core
set_jwt_private_key id key c = record c { jwt_private_key = key; jwt_private_key_id = id }

-- DangerousAddTrustedPublicKey
unfoldable pub dangerous_add_trusted_public_key : PublicKeyIdentifier → IdemixKey → Core → Core
dangerous_add_trusted_public_key key_id key c = record c {
  trusted_keys = insert key_id key c.trusted_keys;
}

abbrev empty_core : Core
empty_core = record {
  decryption_keys = [];
  decryption_key = "";
  decryption_key_id = 0;
  jwt_private_key = "";
  jwt_private_key_id = 0;
  jwt_issuer = "";
  jwt_pin_expiry = 0;
  commitment_data = [];
  auth_challenges = [];
  trusted_keys = [];
}

-- NewKeyshareCore
unfoldable pub new_keyshare_core : CoreConfig → Core
unfolding set_decryption_key set_jwt_private_key
new_keyshare_core conf =
    let c = set_decryption_key conf.decryption_key_id conf.decryption_key empty_core in
    let c' = set_jwt_private_key conf.jwt_private_key_id conf.jwt_private_key c in
    record c' {
      jwt_issuer = if conf.jwt_issuer == "" then jwt_issuer_default else conf.jwt_issuer;
      jwt_pin_expiry =
          if conf.jwt_pin_expiry == 0 then jwt_pin_expiry_default else conf.jwt_pin_expiry;
    }

-- The claims of an access token: `token_id` is none if it is missing, and holds none if it is not a text.
pub record AccessClaims : Type 0 where
  pub issuer : String
  pub subject : String
  pub issued_at : ℕ
  pub expires_at : Option ℕ
  pub token_id : Option (Option String)

-- KeyshareAuthResponseClaims, KeyshareChangePinClaims and KeyshareAuthRequestClaims of the root package.
pub record AuthResponseClaims : Type 0 where
  pub username : String
  pub pin : List ℕ
  pub challenge : List ℕ

pub record ChangePinClaims : Type 0 where
  pub username : String
  pub old_pin : List ℕ
  pub new_pin : List ℕ

pub record AuthRequestClaims : Type 0 where
  pub username : String
  pub expires_at : Option ℕ

-- gabi.ProofP
pub record ProofP : Type 0 where
  pub p : Option ℕ
  pub c : ℤ
  pub s_response : ℤ

-- KeyshareResponseRequest of gabi, and its other fields as a text.
pub record ResponseRequest : Type 0 where
  pub user_response : ℤ
  pub rest : String

-- The claims of a response, signed by the server.
pub record ResponseClaims : Type 0 where
  pub proof_p : ProofP
  pub issued_at : ℕ
  pub issuer : String

-- The JWT library with base64, and gabi. A token is parsed with the public key of the signer, and not if it is
-- not valid at the time; `before_expiry now expires_at` is VerifyExpiresAt.
pub record Library : Type 0 where
  pub cipher : Cipher
  pub sign_access : String → ℕ → AccessClaims → String
  pub parse_access : String → ℕ → String → Option AccessClaims
  pub sign_response : String → ℕ → ResponseClaims → String
  pub parse_auth_response : List ℕ → ℕ → String → Option AuthResponseClaims
  pub parse_change_pin : List ℕ → ℕ → String → Option ChangePinClaims
  pub parse_auth_request : List ℕ → ℕ → String → Option AuthRequestClaims
  pub before_expiry : ℕ → ℕ → Bool
  pub encode_base64 : List ℕ → String
  pub decode_base64 : String → Option (List ℕ)
  pub new_commitments : ℕ → List IdemixKey → Option (ℕ × List String)
  pub response_legacy : ℕ → ℕ → ℤ → IdemixKey → ProofP
  pub response : ℕ → ℕ → String → ResponseRequest → Option ProofP
