-- ===== src/Credential/Accepted.antt =====
-- What validateIssuanceRequest of server/irmaserver/helpers.go guarantees of the credentials that a
-- session is to issue.
use irmago.Prelude.{
  ℕ, ◌≤◌, ◌≡◌, refl, ◌≢◌, subst, false, not, ◌||◌, Option, none, some, List, [], ◌∷◌, ltb, or_else,
  arith,
}
use irmago.Prelude.Outcome.{
  Outcome, ok, err, panic, ensure, or_err, >>=-eq-ok, or_err-eq-ok, ensure_iff,
}
use irmago.Identifier.{issuer_identifier}
use irmago.Credential.{CredentialRequest, CredentialError, validate}
use irmago.Credential.Issuance.{
  IssuanceConfig, missing_private_key, missing_public_key, expired_public_key, cannot_issue_expired,
  of_credential, check_revocation_settings, validate_issuance, validate_issuance_request,
}

-- The credential that is left behind differs in its key counter and validity only; its key is the
-- latest one of its issuer, which has not expired, it agrees with the configured credential type, and
-- it has a validity, which has not passed unless expired credentials are allowed.
pub record Issuable (conf : IssuanceConfig) (now : ℕ) (cred checked : CredentialRequest)
    : Type 0 where
  pub counter : ℕ
  pub expiry_date : ℕ
  pub valid_until : ℕ
  pub left_behind : checked ≡ record cred { key_counter = counter; validity = some valid_until }
  pub latest :
      conf.latest_private_key (issuer_identifier cred.credential_type_id) ≡ ok (some counter)
  pub known :
      conf.public_key (issuer_identifier cred.credential_type_id) counter ≡ ok (some expiry_date)
  pub unexpired : now ≤ expiry_date
  pub consistent : validate conf.credential_types (record cred { key_counter = counter }) ≡ ok tt
  pub kept : cred.validity ≢ none → cred.validity ≡ some valid_until
  pub current : conf.allow_issuing_expired_credentials ≡ false → now ≤ valid_until

-- The same for a list of credentials, one by one.
abbrev pub AllIssuable :
    IssuanceConfig → ℕ → List CredentialRequest → List CredentialRequest → Type 0
AllIssuable conf now [] [] = Unit
AllIssuable conf now [] (c ∷ checked) = ⊥
AllIssuable conf now (c ∷ creds) [] = ⊥
AllIssuable conf now (c ∷ creds) (d ∷ checked) =
    Issuable conf now c d × AllIssuable conf now creds checked

of_credential-eq-ok : (o : Outcome CredentialError (Unit {0})) → of_credential o ≡ ok tt → o ≡ ok tt
of_credential-eq-ok (ok tt) h = refl
of_credential-eq-ok (err e) h = cc
of_credential-eq-ok panic h = cc

or_else-kept : (v : Option ℕ) (d : ℕ) → v ≢ none → v ≡ some (or_else v d)
or_else-kept none d h = absurd (h refl)
or_else-kept (some t) d h = refl

module _ (conf : IssuanceConfig) (now default_validity : ℕ) where
  validate_issuance-Issuable :
      (cred checked : CredentialRequest)
      → validate_issuance conf now default_validity cred ≡ ok checked
      → Issuable conf now cred checked
  unfolding validate_issuance
  validate_issuance-Issuable cred checked h =
      let iss = issuer_identifier cred.credential_type_id in
      let (latest, e1, h1) = >>=-eq-ok (conf.latest_private_key iss) _ h in
      let (counter, e2, h2) = >>=-eq-ok (or_err latest missing_private_key) _ h1 in
      let (found, e3, h3) = >>=-eq-ok (conf.public_key iss counter) _ h2 in
      let (expiry_date, e4, h4) = >>=-eq-ok (or_err found missing_public_key) _ h3 in
      let (_, e5, h5) = >>=-eq-ok (ensure (not (ltb expiry_date now)) expired_public_key) _ h4 in
      let counted = record cred { key_counter = counter } in
      let (_, e6, h6) = >>=-eq-ok (check_revocation_settings conf counted) _ h5 in
      let (_, e7, h7) = >>=-eq-ok (of_credential (validate conf.credential_types counted)) _ h6 in
      let valid = or_else cred.validity default_validity in
      let test = conf.allow_issuing_expired_credentials || not (ltb valid now) in
      let (_, e8, h8) = >>=-eq-ok (ensure test cannot_issue_expired) _ h7 in
      record {
        counter = counter;
        expiry_date = expiry_date;
        valid_until = valid;
        left_behind = cc;
        latest = cc (e1, or_err-eq-ok latest missing_private_key e2);
        known = cc (e3, or_err-eq-ok found missing_public_key e4);
        unexpired =
            (let t = (ensure_iff (not (ltb expiry_date now)) expired_public_key).0 e5 in
              ground arith);
        consistent = of_credential-eq-ok (validate conf.credential_types counted) e7;
        kept = or_else-kept cred.validity default_validity;
        current = λ off. (let t = (ensure_iff test cannot_issue_expired).0 e8 in ground arith);
      }

  -- If a request for issuance is accepted, the credentials that it is left with are those that were
  -- asked for, one by one, each with the counter of the latest private key of its issuer, whose public
  -- key has not expired, in agreement with the configured credential type, and with a validity: the
  -- one that was asked for, if any, which has not passed unless expired credentials are allowed.
  pub validate_issuance_request-AllIssuable :
      (creds checked : List CredentialRequest)
      → validate_issuance_request conf now default_validity creds ≡ ok checked
      → AllIssuable conf now creds checked
  unfolding validate_issuance_request
  validate_issuance_request-AllIssuable [] checked h =
      let eq : [] ≡ checked = cc in subst (AllIssuable conf now []) eq tt
  validate_issuance_request-AllIssuable (cred ∷ creds) checked h =
      let (first, e1, h1) = >>=-eq-ok (validate_issuance conf now default_validity cred) _ h in
      let (rest, e2, h2) =
        >>=-eq-ok (validate_issuance_request conf now default_validity creds) _ h1 in
      let eq : first ∷ rest ≡ checked = cc in
      subst (AllIssuable conf now (cred ∷ creds)) eq (
        validate_issuance-Issuable cred first e1,
        validate_issuance_request-AllIssuable creds rest e2,
      )
