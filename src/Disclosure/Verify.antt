-- ===== src/Disclosure/Verify.antt =====
-- The verification of a whole disclosure in verify.go: its proofs, the attributes that it shows beyond the
-- request, and their expiry. Times are in seconds.
use irmago.Prelude.{
  ℕ, suc, Bool, true, false, not, ◌&&◌, ◌||◌, Option, none, some, List, [], ◌∷◌, ◌++◌, ltb, ◌==◌,
  nat_eq, is_some, if_some, if◌then◌else◌, length,
}
use irmago.Prelude.Map.{lookup}
use irmago.Prelude.Outcome.{Outcome, ok, err, panic, ◌>>=◌, ◌>>◌, ensure, or_err, or_panic}
use irmago.Identifier.{
  Identifier, identifier_eq, dot, name, issuer_identifier, scheme_manager_identifier,
}
use irmago.Metadata.{MetadataAttribute, credential_type_hash, signing_date, key_counter, expiry}
use irmago.Request.{AttributeConDisCon}
use irmago.Disclosure.{
  Scheme, CredentialType, Proof, proof_d, other_proof, NonRevocationProof, VerifyError,
  missing_public_key, unknown_credential_type, not_a_proof_d, insufficient_public_keys,
  RevocationTimes,
}

-- What is read of an issuer's public key.
pub record PublicKey : Type 0 where
  pub issuer : Identifier
  pub expiry_date : ℕ

-- What is read of an accumulator, and of the settings for revocation of a credential type.
pub record Accumulator : Type 0 where
  pub index : ℕ
  pub time : ℕ

pub record RevocationSettings : Type 0 where
  pub updated : ℕ
  pub tolerance : ℕ

-- NonRevocationParameters for one credential type: the indices of the events of each update, by the counter of
-- its key.
pub record NonRevocation : Type 0 where
  pub updates : List (ℕ × List ℕ)
  pub tolerance : ℕ

-- What is read of a session request.
pub record Required : Type 0 where
  pub disclose : AttributeConDisCon
  pub skip_expiry_check : List Identifier
  pub revocation : List (Identifier × NonRevocation)

-- The configuration, and gabi. `verify_proofs` is the cryptographic verification with the context and the nonce
-- of the session, which gets the name of the keyshare server of each proof; `accumulator` is the one that a
-- nonrevocation proof holds, if its signature is valid; `elapsed` converts a difference of times to an unsigned
-- number of seconds.
pub record Verifier : Type 0 where
  pub scheme : Scheme
  pub public_key : Identifier → ℕ → Outcome VerifyError (Option PublicKey)
  pub distributed : Identifier → Option Bool
  pub verify_proofs : List Proof → List PublicKey → List Identifier → Bool
  pub accumulator : Identifier → NonRevocationProof → Option Accumulator
  pub settings : Identifier → RevocationSettings
  pub elapsed : ℕ → ℕ → ℕ

unfoldable pub has_identifier : List Identifier → Identifier → Bool
has_identifier [] id = false
has_identifier (other ∷ ids) id = let rest = has_identifier ids id in other == id || rest

unfoldable pub last_event : List ℕ → Option ℕ
last_event [] = none
last_event (event ∷ []) = some event
last_event (event ∷ next ∷ events) = last_event (next ∷ events)

-- Go on unless the proofs were found to be invalid, which is not an error.
abbrev pub unless_invalid :
    {A B : Type 0}
    → Outcome VerifyError (Option A)
    → (A → Outcome VerifyError (Option B))
    → Outcome VerifyError (Option B)
unless_invalid (ok none) next = ok none
unless_invalid (ok (some a)) next = next a
unless_invalid (err e) next = err e
unless_invalid panic next = panic

module _ (v : Verifier) where
  -- The credential type of a metadata attribute, which has to be there.
  unfoldable pub known_type : MetadataAttribute → Outcome VerifyError CredentialType
  known_type metadata = or_panic (v.scheme.credential_type (credential_type_hash metadata))

  -- MetadataAttribute.PublicKey
  unfoldable pub metadata_public_key : MetadataAttribute → Outcome VerifyError (Option PublicKey)
  unfolding known_type issuer_identifier
  metadata_public_key metadata = known_type metadata >>= λ typ.
      v.public_key (issuer_identifier typ.identifier) (key_counter metadata)

  -- ExtractPublicKeys
  unfoldable pub extract_public_keys : List Proof → Outcome VerifyError (List PublicKey)
  unfolding metadata_public_key
  extract_public_keys [] = ok []
  extract_public_keys (other_proof p ∷ proofs) = err not_a_proof_d
  extract_public_keys (proof_d disclosed revocation_proof ∷ proofs) =
      let rest = extract_public_keys proofs in
      or_panic (lookup 1 disclosed) >>= λ metadata. metadata_public_key metadata >>= λ found.
      or_err found missing_public_key >>= λ key. rest >>= λ keys. ok (key ∷ keys)

  -- Whether one proof has expired: its credential, or the key that signed it.
  unfoldable pub proof_expired : ℕ → List Identifier → Proof → Outcome VerifyError Bool
  unfolding known_type metadata_public_key has_identifier
  proof_expired t skip (other_proof p) = ok false
  proof_expired t skip (proof_d disclosed revocation_proof) =
      or_panic (lookup 1 disclosed) >>= λ metadata. known_type metadata >>= λ typ.
      if not (has_identifier skip typ.identifier) && ltb (expiry metadata) t
      then ok true
      else (metadata_public_key metadata >>= λ found.
          or_panic found >>= λ key. ok (ltb key.expiry_date (signing_date metadata)))

  -- Expired
  unfoldable pub proofs_expired : ℕ → List Identifier → List Proof → Outcome VerifyError Bool
  unfolding proof_expired
  proofs_expired t skip [] = ok false
  proofs_expired t skip (proof ∷ proofs) =
      let rest = proofs_expired t skip proofs in
      proof_expired t skip proof >>= λ found. if found then ok true else rest

  -- The keyshare server of a proof with this key: a name that no scheme has without one.
  unfoldable pub keyshare_servers : List PublicKey → Outcome VerifyError (List Identifier)
  unfolding scheme_manager_identifier name
  keyshare_servers [] = ok []
  keyshare_servers (key ∷ keys) =
      let rest = keyshare_servers keys in
      let scheme = scheme_manager_identifier key.issuer in
      or_panic (v.distributed scheme) >>= λ distributed.
      rest >>= λ servers. ok ((if distributed then name scheme else dot ∷ []) ∷ servers)

  -- The event that the request knows last for the key of a nonrevocation proof.
  unfoldable pub ours : Option NonRevocation → ℕ → Outcome VerifyError ℕ
  unfolding last_event
  ours none counter = ok 0
  ours (some params) counter =
      if_some (lookup counter params.updates) (ok 0) (λ events. or_panic (last_event events))

  abbrev the_tolerance : RevocationSettings → Option NonRevocation → ℕ
  the_tolerance settings none = settings.tolerance
  the_tolerance settings (some params) =
      if params.tolerance == 0 then settings.tolerance else params.tolerance

  -- The check of the nonrevocation proof of proof number i: the time that it is not revoked before, if that is
  -- too long ago.
  unfoldable pub check_revocation :
      ℕ
      → ℕ
      → CredentialType
      → Option NonRevocationProof
      → Option NonRevocation
      → Outcome VerifyError (Option RevocationTimes)
  unfolding ours
  check_revocation valid_at i typ none params = if is_some params then ok none else ok (some [])
  check_revocation valid_at i typ (some proof) params =
      if_some (v.accumulator typ.identifier proof) (ok none) (λ acc.
        let settings = v.settings typ.identifier in
        ours params proof.pk_counter >>= λ known.
        let time =
          if acc.index == known && ltb acc.time settings.updated
          then settings.updated
          else acc.time in
        if ltb acc.index known
        then ok none
        else if ltb (the_tolerance settings params) (v.elapsed valid_at time)
        then ok (some ((i, time) ∷ []))
        else ok (some []))

  -- The checks of VerifyProofs for each proof: no singleton twice, and the nonrevocation proofs.
  unfoldable pub check_proofs :
      ℕ
      → List (Identifier × NonRevocation)
      → ℕ
      → List Identifier
      → List Proof
      → Outcome VerifyError (Option RevocationTimes)
  unfolding check_revocation has_identifier
  check_proofs valid_at params i seen [] = ok (some [])
  check_proofs valid_at params i seen (other_proof p ∷ proofs) =
      check_proofs valid_at params (suc i) seen proofs
  check_proofs valid_at params i seen (proof_d disclosed revocation_proof ∷ proofs) =
      or_panic (lookup 1 disclosed) >>= λ metadata.
      or_err (v.scheme.credential_type (credential_type_hash metadata)) unknown_credential_type
      >>= λ typ.
          if typ.is_singleton && has_identifier seen typ.identifier
          then ok none
          else unless_invalid
              (check_revocation valid_at i typ revocation_proof (lookup typ.identifier params))
              (λ times.
                unless_invalid
                  (check_proofs valid_at params (suc i)
                    (if typ.is_singleton then typ.identifier ∷ seen else seen) proofs)
                  (λ rest. ok (some (times ++ rest))))

  -- VerifyProofs with these keys.
  unfoldable pub verify_with :
      ℕ
      → List (Identifier × NonRevocation)
      → List Proof
      → List PublicKey
      → Outcome VerifyError (Option RevocationTimes)
  unfolding keyshare_servers check_proofs
  verify_with valid_at params proofs keys =
      ensure (length proofs == length keys) insufficient_public_keys
      >> (keyshare_servers keys >>= λ servers.
          if v.verify_proofs proofs keys servers
          then check_proofs valid_at params 0 [] proofs
          else ok none)

  -- VerifyProofs: the result is none for false. No proofs are valid.
  unfoldable pub verify_proofs :
      ℕ
      → List (Identifier × NonRevocation)
      → List Proof
      → Option (List PublicKey)
      → Outcome VerifyError (Option RevocationTimes)
  unfolding verify_with extract_public_keys
  verify_proofs valid_at params [] keys = ok (some [])
  verify_proofs valid_at params (proof ∷ proofs) (some keys) =
      verify_with valid_at params (proof ∷ proofs) keys
  verify_proofs valid_at params (proof ∷ proofs) none =
      extract_public_keys (proof ∷ proofs) >>= verify_with valid_at params (proof ∷ proofs)
