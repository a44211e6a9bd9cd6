-- ===== src/Session/Types.antt =====
-- The data of a session: `sessionData` of server/irmaserver/sessions.go, `SessionResult` of
-- server/api.go, the statuses of messages.go and the request of the requestor. Values of third-party
-- types (proofs, signed messages, signatures) and JSON bodies are their texts.
use irmago.Prelude.{ℕ, Bool, ◌||◌, Option, List, String, nat_beq}
use irmago.Version.{ProtocolVersion}
use irmago.Identifier.{Identifier}
use irmago.Request.{AttributeConDisCon}

-- ServerStatus of messages.go.
pub data ServerStatus : Type 0 where
  initialized pairing connected cancelled done timed_out : ServerStatus

abbrev pub rank : ServerStatus → ℕ
rank initialized = 0
rank pairing = 1
rank connected = 2
rank cancelled = 3
rank done = 4
rank timed_out = 5

-- `==` on statuses.
abbrev pub is_status : ServerStatus → ServerStatus → Bool
is_status a b = nat_beq (rank a) (rank b)

-- ServerStatus.Finished
unfoldable pub finished : ServerStatus → Bool
finished status =
    is_status status done || (is_status status cancelled || is_status status timed_out)

pub data Action : Type 0 where
  disclosing signing issuing : Action

pub data ProofStatus : Type 0 where
  no_status valid invalid invalid_timestamp unmatched_request missing_attributes expired :
      ProofStatus

-- The errors of server/errors.go that the session handlers send.
pub data ServerError : Type 0 where
  unauthorized irma_unauthorized pairing_required issuance_failed invalid_proofs : ServerError
  attributes_expired unexpected_request unknown_public_key keyshare_proof_missing : ServerError
  session_unknown malformed_input exception next_session_error revocation_error : ServerError
  invalid_request protocol_version internal_error : ServerError

-- RemoteError, without the status and description that its kind determines.
pub record RemoteError : Type 0 where
  pub error : ServerError
  pub message : String

-- One list of disclosed attributes: identifier and raw value of each.
abbrev pub Disclosed : Type 0
Disclosed = List (List (Identifier × Option (List ℕ)))

-- server.SessionResult
pub record SessionResult : Type 0 where
  pub token : String
  pub status : ServerStatus
  pub action : Action
  pub proof_status : ProofStatus
  pub disclosed : Disclosed
  pub signature : Option String
  pub failure : Option RemoteError
  pub next_session : String
  pub legacy_session : Bool

pub data PairingMethod : Type 0 where
  unspecified method_none method_pin : PairingMethod
  unknown_method : String → PairingMethod

pub record SessionOptions : Type 0 where
  pub pairing_method : PairingMethod
  pub pairing_code : String

pub record Qr : Type 0 where
  pub url : String
  pub action : Action

pub record ResponseCache : Type 0 where
  pub endpoint : String
  pub message : String
  pub response : String
  pub http_status : ℕ
  pub session_status : ServerStatus

-- A credential to be issued.
pub record CredentialRequest : Type 0 where
  pub credential_type_id : Identifier
  pub key_counter : ℕ
  pub attributes : List (String × String)
  pub revocation_key : String
  pub revocation_supported : Bool

-- The session request with its BaseRequest, for the three actions; a label is the English one.
pub record SessionRequest : Type 0 where
  pub action : Action
  pub disclose : AttributeConDisCon
  pub labels : List (ℕ × List ℕ)
  pub message : String
  pub credentials : List CredentialRequest
  pub revocation : List (Identifier × String)
  pub version : Option ProtocolVersion
  pub host : String
  pub client_return_url : String
  pub augment_return_url : Bool
  pub was_legacy : Bool

-- RequestorRequest with its RequestorBaseRequest. The timeout is in seconds.
pub record RequestorRequest : Type 0 where
  pub result_jwt_validity : ℕ
  pub client_timeout : ℕ
  pub callback_url : String
  pub next_session : Option String
  pub request : SessionRequest

-- sessionData
pub record SessionData : Type 0 where
  pub action : Action
  pub requestor_token : String
  pub client_token : String
  pub version : Option ProtocolVersion
  pub rrequest : RequestorRequest
  pub legacy_compatible : Bool
  pub status : ServerStatus
  pub response_cache : ResponseCache
  pub last_active : ℕ
  pub result : SessionResult
  pub kss_proofs : List (Identifier × String)
  pub next : Option Qr
  pub frontend_auth : String
  pub implicit_disclosure : AttributeConDisCon
  pub options : SessionOptions
  pub client_auth : String

-- What the code reads of server.Configuration, with the package's AcceptInsecureProtocolVersions.
-- Lifetimes are in minutes. `sign_result` is ResultJwt with the private key, if there is one.
pub record Config : Type 0 where
  pub max_session_lifetime : ℕ
  pub session_result_lifetime : ℕ
  pub accept_insecure_protocol_versions : Bool
  pub sign_result : Option (SessionResult → ℕ → Option String)
