-- ===== src/Session/Issuance.antt =====
-- Issuance: handlePostCommitments of server/irmaserver/handle.go and getProofP of helpers.go.
use irmago.Prelude.{
  ℕ, ◌-◌, Bool, true, false, Option, none, some, List, [], ◌∷◌, ◌++◌, String, nat_eq, string_eq,
  ltb, if◌then◌else◌, length, take, drop, map,
}
use irmago.Prelude.Map.{lookup, insert}
use irmago.Prelude.Outcome.{Outcome, ok, err, panic, ◌>>=◌}
use irmago.Identifier.{
  Identifier, identifier_eq, issuer_identifier, scheme_manager_identifier, name,
}
use irmago.Session.Types.{
  issuing, valid, expired, ServerError, keyshare_proof_missing, issuance_failed, malformed_input,
  unknown_public_key, exception, attributes_expired, invalid_proofs, CredentialRequest,
  SessionRequest, SessionData, Config,
}
use irmago.Session.Steps.{mark_alive}
use irmago.Session.Messages.{
  missing_key, other, Verified, response_reply, panic_reply, Handled, fail_with,
}
use irmago.Session.Respond.{add_implicit}

-- A proof in the commitments of a client: gabi's ProofU and the other proofs, as texts.
pub data CommitmentProof : Type 0 where
  proof_u proof_d : String → CommitmentProof

pub record PublicKey : Type 0 where
  pub issuer : Identifier
  pub counter : ℕ

-- IssueCommitmentMessage
pub record IssueCommitments : Type 0 where
  pub proofs : List CommitmentProof
  pub proof_p_jwts : List (Identifier × String)
  pub nonce2 : String

-- The components that are called: the configuration, ExtractPublicKeys and VerifyAgainstRequest of
-- verify.go, the JWT library, and the issuer of gabi with computeAttributes. `distributed` is none for a
-- scheme that is not configured.
pub record Issuer : Type 0 where
  pub extract_public_keys : List CommitmentProof → Outcome String (List PublicKey)
  pub public_key : Identifier → ℕ → Option PublicKey
  pub distributed : Identifier → Option Bool
  pub verify_jwt : Identifier → String → Outcome String String
  pub merge : CommitmentProof → String → PublicKey → CommitmentProof
  pub verify_against : SessionRequest → List CommitmentProof → List (Option PublicKey) → Verified
  pub issue : SessionData → CredentialRequest → String → String → Outcome String String

-- A computation on the session that may fail the session with an error.
abbrev pub Failing : Type 0 → Type 0
Failing A = Outcome (SessionData × ServerError × String) A

module _ (conf : Config) (iss : Issuer) where
  -- getProofP
  unfoldable pub get_proof_p :
      IssueCommitments → Identifier → SessionData → Outcome String (SessionData × String)
  get_proof_p commitments scheme session = elim (lookup scheme session.kss_proofs) [
    | some p ↦ ok (session, p)
    | none ↦ elim (lookup (name scheme) commitments.proof_p_jwts) [
      | none ↦ err "no keyshare proof included"
      | some jwt ↦ elim (iss.verify_jwt scheme jwt) [
        | ok p ↦ ok (record session { kss_proofs = insert scheme p session.kss_proofs }, p)
        | err e ↦ err e
        | panic ↦ panic
      ]
    ]
  ]

  -- The public keys of the credentials to be issued.
  unfoldable pub issued_keys : List CredentialRequest → List (Option PublicKey)
  issued_keys [] = []
  issued_keys (cred ∷ rest) =
      iss.public_key (issuer_identifier cred.credential_type_id) cred.key_counter ∷ issued_keys rest

  -- One step of the loop that merges the keyshare server's proofs: a missing key or scheme is
  -- dereferenced.
  unfoldable pub merge_one :
      IssueCommitments
      → Option PublicKey
      → CommitmentProof
      → SessionData
      → Failing (SessionData × CommitmentProof)
  unfolding get_proof_p
  merge_one commitments none proof session = panic
  merge_one commitments (some key) proof session =
      let scheme = scheme_manager_identifier key.issuer in
      elim (iss.distributed scheme) [
        | none ↦ panic
        | some false ↦ ok (session, proof)
        | some true ↦ elim (get_proof_p commitments scheme session) [
          | ok (session', p) ↦ ok (session', iss.merge proof p key)
          | err e ↦ err (session, keyshare_proof_missing, e)
          | panic ↦ panic
        ]
      ]

  unfoldable pub merge_loop :
      IssueCommitments
      → List (Option PublicKey)
      → List CommitmentProof
      → SessionData
      → Failing (SessionData × List CommitmentProof)
  unfolding merge_one
  merge_loop commitments keys [] session = ok (session, [])
  merge_loop commitments [] (proof ∷ proofs) session = panic
  merge_loop commitments (key ∷ keys) (proof ∷ proofs) session =
      let rest = merge_loop commitments keys proofs in
      merge_one commitments key proof session >>= λ r. rest (r.0) >>= λ q. ok (q.0, r.1 ∷ q.1)

  -- One step of the loop that computes the signatures.
  unfoldable pub sign_one :
      CommitmentProof → CredentialRequest → String → SessionData → Failing String
  sign_one (proof_u u) cred nonce2 session = elim (iss.issue session cred u nonce2) [
    | ok sig ↦ ok sig
    | err e ↦ err (session, issuance_failed, e)
    | panic ↦ panic
  ]
  sign_one (proof_d d) cred nonce2 session =
      err (session, malformed_input, "Received invalid issuance commitment")

  unfoldable pub sign_loop :
      List CommitmentProof → List CredentialRequest → String → SessionData → Failing (List String)
  unfolding sign_one
  sign_loop proofs [] nonce2 session = ok []
  sign_loop [] (cred ∷ creds) nonce2 session = panic
  sign_loop (proof ∷ proofs) (cred ∷ creds) nonce2 session =
      let rest = sign_loop proofs creds nonce2 session in
      sign_one proof cred nonce2 session >>= λ sig. rest >>= λ sigs. ok (sig ∷ sigs)

  -- The outcome of VerifyAgainstRequest: every status but valid fails the session.
  unfoldable pub check_verified : Verified → SessionData → Failing SessionData
  check_verified v session =
      let session' = record session {
        result = record (session.result) { disclosed = v.disclosed; proof_status = v.proof_status };
      } in
      elim (v.failure) [
        | some missing_key ↦ err (session', unknown_public_key, "")
        | some (other e) ↦ err (session', exception, "")
        | none ↦ elim (v.proof_status) [
          | expired ↦ err (session', attributes_expired, "")
          | valid ↦ ok session'
          | _ ↦ err (session', invalid_proofs, "")
        ]
      ]

  unfoldable pub extract : List CommitmentProof → SessionData → Failing (List PublicKey)
  extract proofs session = elim (iss.extract_public_keys proofs) [
    | ok keys ↦ ok keys
    | err e ↦ err (session, malformed_input, e)
    | panic ↦ panic
  ]

  -- handlePostCommitments after the count of the proofs, up to the response.
  unfoldable pub enough_commitments :
      ℕ
      → List CredentialRequest
      → IssueCommitments
      → SessionData
      → Failing (SessionData × List String)
  unfolding merge_loop sign_loop check_verified extract add_implicit issued_keys
  enough_commitments disclose_count creds commitments alive =
      extract (take disclose_count commitments.proofs) alive >>= λ keys.
      let all_keys = map some keys ++ issued_keys creds in
      merge_loop commitments all_keys commitments.proofs alive >>= λ m.
      let asked = add_implicit (m.0) in
      check_verified (iss.verify_against asked.rrequest.request (m.1) all_keys) asked >>= λ s.
      sign_loop (drop disclose_count (m.1)) creds commitments.nonce2 s >>= λ sigs. ok (s, sigs)

  unfoldable pub commitments_signed :
      ℕ → IssueCommitments → SessionData → Failing (SessionData × List String)
  unfolding enough_commitments
  commitments_signed now commitments session =
      let alive = mark_alive now session in
      let creds = session.rrequest.request.credentials in
      let signed =
        enough_commitments (length commitments.proofs - length creds) creds commitments alive in
      if ltb (length commitments.proofs) (length creds)
      then err (alive, malformed_input, "Received insufficient proofs")
      else signed

  unfoldable pub answer : SessionData → Failing (SessionData × List String) → Handled
  answer session (ok (s, sigs)) = (
    s,
    [],
    response_reply (record {
      action = issuing;
      version = s.version;
      proof_status = s.result.proof_status;
      issue_signatures = sigs;
      next_session = none;
    }),
  )
  answer session (err (s, e, message)) = fail_with conf s e message
  answer session panic = (session, [], panic_reply)

  -- handlePostCommitments
  unfoldable pub handle_post_commitments : ℕ → IssueCommitments → SessionData → Handled
  unfolding commitments_signed answer
  handle_post_commitments now commitments session =
      answer session (commitments_signed now commitments session)
