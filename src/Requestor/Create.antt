-- ===== src/Requestor/Create.antt =====
-- Requests of requestors in server/requestorserver/server.go: the session that one starts, and the credential
-- that one revokes. The IRMA server below is a parameter.
use irmago.Prelude.{
  ℕ, Bool, true, false, not, ◌&&◌, Option, List, [], ◌∷◌, String, ◌==◌, string_eq, is_some, if_some,
  if◌then◌else◌,
}
use irmago.Identifier.{Identifier}
use irmago.Session.Types.{RequestorRequest}
use irmago.Requestor.Permissions.{Configuration, Decision, allowed, denied, can_request, can_revoke}
use irmago.Requestor.Authentication.{
  Post, Wire, AuthError, invalid_request, Answer, not_applicable, refused, accepted, Authenticator,
  RevocationRequest, authenticate_session, authenticate_revocation,
}

-- What is written as an answer.
pub data Written : Type 0 where
  authentication_failed : AuthError → Written
  not_allowed : Written
  empty_next_session_url : Written
  unsupported_callback : Written
  session_failed : Written
  session_created : String → Written
  unknown_revocation_key revocation_failed revoked : Written

-- What starts and revokes: the IRMA server starts a session, and fails with an error or revokes.
pub record IrmaServer : Type 0 where
  pub start_session : RequestorRequest → Option String
  pub knows_key : RevocationRequest → Bool
  pub revokes : RevocationRequest → Bool

-- What of the configuration is read besides the permissions: whether a private key signs results, and whether
-- unsigned callbacks are allowed.
pub record Settings : Type 0 where
  pub signs_results : Bool
  pub allow_unsigned_callbacks : Bool

-- The first authenticator that applies answers.
unfoldable pub first_answer :
    {A : Type 0} → (Authenticator → Answer A) → List Authenticator → Answer A
first_answer authenticate [] = not_applicable
first_answer authenticate (authenticator ∷ authenticators) =
    let rest = first_answer authenticate authenticators in
    elim (authenticate authenticator) [
      | not_applicable ↦ rest
      | refused e ↦ refused e
      | accepted a requestor ↦ accepted a requestor
    ]

-- checkAuth: without an authenticator that applies, the request is invalid.
unfoldable pub check_auth : {A : Type 0} → Answer A → (A → String → List Written) → List Written
check_auth not_applicable next = authentication_failed invalid_request ∷ []
check_auth (refused e) next = authentication_failed e ∷ []
check_auth (accepted a requestor) next = next a requestor

unfoldable pub if_allowed : Decision → List Written → List Written
if_allowed allowed next = next
if_allowed (denied reason) next = not_allowed ∷ []

module _ (matches : String → String → Bool) (conf : Configuration) (settings : Settings)
    (irma : IrmaServer) (wire : Wire) where
  -- The start of a session, the last step of createSession.
  start : RequestorRequest → List Written
  start rrequest =
      if_some (irma.start_session rrequest) (session_failed ∷ [])
        (λ token. session_created token ∷ [])

  -- A callback that would not be signed.
  unfoldable pub unsigned_callback : RequestorRequest → Bool
  unsigned_callback rrequest =
      not settings.signs_results
      && (not settings.allow_unsigned_callbacks
          && (if rrequest.callback_url == "" then is_some rrequest.next_session else true))

  unfoldable pub has_empty_next_url : RequestorRequest → Bool
  has_empty_next_url rrequest = if_some rrequest.next_session false (λ url. url == "")

  -- createSession: what it writes, in order. After the error of an empty next session it goes on.
  unfoldable pub create_session : String → RequestorRequest → List Written
  unfolding start unsigned_callback has_empty_next_url if_allowed
  create_session requestor rrequest =
      let rest = if unsigned_callback rrequest then unsupported_callback ∷ [] else start rrequest in
      if_allowed (can_request matches requestor rrequest.request conf)
        (if has_empty_next_url rrequest then empty_next_session_url ∷ rest else rest)

  -- handleCreateSession
  unfoldable pub handle_create_session : ℕ → Post → List Authenticator → List Written
  unfolding first_answer check_auth create_session
  handle_create_session now post authenticators =
      check_auth (first_answer (authenticate_session wire now post) authenticators)
        (λ rrequest requestor. create_session requestor rrequest)

  -- revoke
  unfoldable pub revoke : (Identifier → Bool) → String → RevocationRequest → List Written
  unfolding if_allowed
  revoke has_key requestor request =
      if_allowed (can_revoke has_key requestor request.credential_type conf) (
        if not (irma.knows_key request)
        then unknown_revocation_key ∷ []
        else if irma.revokes request
        then revoked ∷ []
        else revocation_failed ∷ [])

  -- handleRevocation
  unfoldable pub handle_revocation :
      ℕ → Post → (Identifier → Bool) → List Authenticator → List Written
  unfolding first_answer check_auth revoke
  handle_revocation now post has_key authenticators =
      check_auth (first_answer (authenticate_revocation wire now post) authenticators)
        (λ request requestor. revoke has_key requestor request)
