-- ===== src/Credential/Issuance.antt =====
-- validateIssuanceRequest of server/irmaserver/helpers.go, and what startNextSession of
-- server/irmaserver/api.go does before it. Times are Unix seconds.
use irmago.Prelude.{
  ℕ, Bool, false, not, ◌||◌, Option, none, some, List, [], ◌∷◌, ltb, ◌==◌, if◌then◌else◌, or_else,
}
use irmago.Prelude.Outcome.{Outcome, ok, err, panic, ◌>>=◌, ◌>>◌, ensure, or_err, or_panic}
use irmago.Identifier.{Identifier, identifier_eq, issuer_identifier}
use irmago.Credential.{
  CredentialType, CredentialRequest, CredentialError, revocation_supported, validate,
  random_blind_attribute_names,
}

-- RevocationSetting, the parts that are read.
pub record RevocationSetting : Type 0 where
  pub revocation_server_url : List ℕ
  pub server : Bool

pub data IssuanceError : Type 0 where
  missing_private_key missing_public_key expired_public_key no_revocation_server : IssuanceError
  no_revocation_key cannot_issue_expired : IssuanceError
  key_error : List ℕ → IssuanceError
  invalid_credential : CredentialError → IssuanceError

-- What the configuration gives: the credential types, the counter of the latest private key of an
-- issuer, the expiry date of a public key, and settings. A missing key or setting is nil.
pub record IssuanceConfig : Type 0 where
  pub credential_types : Identifier → Option CredentialType
  pub latest_private_key : Identifier → Outcome IssuanceError (Option ℕ)
  pub public_key : Identifier → ℕ → Outcome IssuanceError (Option ℕ)
  pub revocation_settings : Identifier → Option RevocationSetting
  pub allow_issuing_expired_credentials : Bool

abbrev pub of_credential : Outcome CredentialError (Unit {0}) → Outcome IssuanceError (Unit {0})
of_credential (ok u) = ok u
of_credential (err e) = err (invalid_credential e)
of_credential panic = panic

abbrev pub has_revocation_server : Option RevocationSetting → Bool
has_revocation_server none = false
has_revocation_server (some settings) =
    not (settings.revocation_server_url == []) || settings.server

module _ (conf : IssuanceConfig) where
  -- The loop of startNextSession; the credential type is dereferenced.
  unfoldable pub with_random_blind :
      List CredentialRequest → Outcome IssuanceError (List CredentialRequest)
  unfolding random_blind_attribute_names
  with_random_blind [] = ok []
  with_random_blind (cred ∷ creds) = do
    credtype ← or_panic (conf.credential_types cred.credential_type_id)
    rest ← with_random_blind creds
    let names = random_blind_attribute_names credtype
    ok (record cred { random_blind_attribute_type_ids = names } ∷ rest)

  unfoldable pub check_revocation_settings : CredentialRequest → Outcome IssuanceError (Unit {0})
  unfolding revocation_supported
  check_revocation_settings cred = do
    credtype ← or_panic (conf.credential_types cred.credential_type_id)
    let settings = conf.revocation_settings cred.credential_type_id
    if revocation_supported credtype
        then (do
          ensure (has_revocation_server settings) no_revocation_server
          ensure (not (cred.revocation_key == [])) no_revocation_key)
        else ok tt

  -- The body of the loop, at the time `now`, with the validity that is set by default.
  unfoldable pub validate_issuance :
      ℕ → ℕ → CredentialRequest → Outcome IssuanceError CredentialRequest
  unfolding check_revocation_settings validate
  validate_issuance now default_validity cred = do
    let iss = issuer_identifier cred.credential_type_id
    latest ← conf.latest_private_key iss
    counter ← or_err latest missing_private_key
    found ← conf.public_key iss counter
    expiry_date ← or_err found missing_public_key
    ensure (not (ltb expiry_date now)) expired_public_key
    let counted = record cred { key_counter = counter }
    check_revocation_settings counted
    of_credential (validate conf.credential_types counted)
    let validity = or_else cred.validity default_validity
    ensure (conf.allow_issuing_expired_credentials || not (ltb validity now)) cannot_issue_expired
    ok (record counted { validity = some validity })

  -- validateIssuanceRequest, with the credentials that it leaves behind.
  unfoldable pub validate_issuance_request :
      ℕ → ℕ → List CredentialRequest → Outcome IssuanceError (List CredentialRequest)
  unfolding validate_issuance
  validate_issuance_request now default_validity [] = ok []
  validate_issuance_request now default_validity (cred ∷ creds) = do
    checked ← validate_issuance now default_validity cred
    rest ← validate_issuance_request now default_validity creds
    ok (checked ∷ rest)
