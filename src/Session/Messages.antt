-- ===== src/Session/Messages.antt =====
-- What the session handlers of server/irmaserver/handle.go exchange with the client and with the other
-- components, and the helpers that build their replies.
use irmago.Prelude.{
  ℕ, Bool, true, false, not, Option, none, some, List, [], String, ◌==◌, string_eq, if◌then◌else◌,
  map,
}
use irmago.Prelude.Outcome.{Outcome, ok, err, panic}
use irmago.Version.{ProtocolVersion}
use irmago.Request.{AttributeConDisCon}
use irmago.Request.Legacy.{LegacyLabeledDisjunction, LegacyError, convert_con_dis_con}
use irmago.Session.Types.{
  ServerStatus, Action, issuing, ProofStatus, ServerError, RemoteError, Disclosed, SessionResult,
  PairingMethod, method_none, SessionOptions, Qr, CredentialRequest, SessionRequest,
  RequestorRequest, SessionData, Config,
}
use irmago.Session.Steps.{Posted, fail}

pub data VerifyFailure : Type 0 where
  missing_key : VerifyFailure
  other : String → VerifyFailure

-- What Verify of verify.go returns.
pub record Verified : Type 0 where
  pub disclosed : Disclosed
  pub proof_status : ProofStatus
  pub failure : Option VerifyFailure

-- The answer of the server that is asked for a next session: 204, an error, or a request.
pub data NextReply : Type 0 where
  no_content : NextReply
  post_failed : String → NextReply
  next_request : RequestorRequest → NextReply

-- The components that the handlers call: revocation.go, verify.go, the requestor's server, and the
-- start of a session, which returns its QR and its token.
pub record Backend : Type 0 where
  pub set_revocation_updates : SessionRequest → Outcome String SessionRequest
  pub verify : SessionRequest → String → Verified
  pub ask_next : String → SessionResult → NextReply
  pub start_session : RequestorRequest → AttributeConDisCon → String → Outcome String (Qr × String)

-- The conversions of legacy.go for the three kinds of requests.
pub record LegacyRequest : Type 0 where
  pub action : Action
  pub version : Option ProtocolVersion
  pub content : List LegacyLabeledDisjunction
  pub message : String
  pub credentials : List CredentialRequest

pub record ClientSessionRequest : Type 0 where
  pub version : Option ProtocolVersion
  pub options : SessionOptions
  pub request : Option SessionRequest

-- ServerSessionResponse
pub record ServerSessionResponse : Type 0 where
  pub action : Action
  pub version : Option ProtocolVersion
  pub proof_status : ProofStatus
  pub issue_signatures : List String
  pub next_session : Option Qr

-- What the client is sent.
pub data Reply : Type 0 where
  error_reply : RemoteError → Reply
  legacy_reply : LegacyRequest → Reply
  request_reply : SessionRequest → Reply
  client_reply : ClientSessionRequest → Reply
  response_reply : ServerSessionResponse → Reply
  status_reply : ServerStatus → Reply
  frontend_status_reply : ServerStatus → Option Qr → Reply
  options_reply : SessionOptions → Reply
  cached_reply : ℕ → String → Reply
  empty_reply panic_reply : Reply

-- The session after a handler, the callbacks that it posted, and its reply.
abbrev pub Handled : Type 0
Handled = SessionData × Posted × Reply

unfoldable pub refuse : SessionData → ServerError → String → Handled
refuse session e message = (session, [], error_reply (record { error = e; message = message }))

-- `return nil, session.fail(...)`
unfoldable pub fail_with : Config → SessionData → ServerError → String → Handled
fail_with conf session e message =
    let rerr : RemoteError = record { error = e; message = message } in
    let (session', posted) = fail conf rerr session in (session', posted, error_reply rerr)

-- Legacy
unfoldable pub legacy : SessionRequest → Outcome LegacyError LegacyRequest
legacy request = elim (convert_con_dis_con request.labels 0 request.disclose) [
  | ok content ↦ ok (record {
    action = request.action;
    version = request.version;
    content = content;
    message = request.message;
    credentials = request.credentials;
  })
  | err e ↦ err e
  | panic ↦ panic
]

strip_key : CredentialRequest → CredentialRequest
strip_key cred = record cred {
  revocation_key = "";
  revocation_supported = not (cred.revocation_key == "");
}

-- getRequest: requests for issuance are sent without their revocation keys.
unfoldable pub get_request : SessionData → SessionRequest
unfolding strip_key
get_request session =
    let req = session.rrequest.request in
    elim (req.action) [
      | issuing ↦ record req { credentials = map strip_key req.credentials }
      | _ ↦ req
    ]

abbrev pub is_none_method : PairingMethod → Bool
is_none_method method_none = true
is_none_method _ = false

-- getClientRequest: with pairing the request itself is not sent yet.
unfoldable pub get_client_request : SessionData → ClientSessionRequest
unfolding get_request
get_client_request session = record {
  version = session.version;
  options = session.options;
  request =
      if is_none_method session.options.pairing_method then some (get_request session) else none;
}
