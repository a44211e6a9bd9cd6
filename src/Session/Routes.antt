-- ===== src/Session/Routes.antt =====
-- The client's and the frontend's endpoints: the middlewares of server/irmaserver/helpers.go, the handlers
-- of handle.go behind them, and the routes of HandlerFunc of api.go. Server-sent events are left out.
use irmago.Prelude.{
  ℕ, ◌+◌, Bool, true, false, not, ◌&&◌, ◌||◌, Option, none, some, [], String, ◌==◌, nat_eq,
  string_eq, ltb, if_some, if◌then◌else◌,
}
use irmago.Version.{ProtocolVersion, below}
use irmago.Session.Types.{
  pairing, connected, is_status, PairingMethod, SessionData, Config, ResponseCache, initialized,
  malformed_input, unexpected_request, unauthorized, irma_unauthorized, pairing_required,
}
use irmago.Session.Steps.{
  handle_delete, pairing_completed, update_frontend_options, updated, rejected, OptionsResult,
}
use irmago.Session.Messages.{
  Backend, Reply, request_reply, status_reply, frontend_status_reply, options_reply, cached_reply,
  empty_reply, panic_reply, Handled, refuse, get_request,
}
use irmago.Session.Connect.{handle_get_client_request}
use irmago.Session.Respond.{handle_session_proofs, finish}
use irmago.Session.Issuance.{IssueCommitments, Issuer, handle_post_commitments}

pub data Route : Type 0 where
  delete_session session_status frontend_status frontend_options frontend_pairing_completed : Route
  get_session get_session_request post_commitments post_proofs : Route

-- A request: `versions` are the headers with the least and greatest versions, none if they cannot be
-- parsed, and `pairing_code` is the code that the server draws.
pub record HttpRequest : Type 0 where
  pub route : Route
  pub path : String
  pub host : String
  pub authorization : String
  pub versions : Option (ProtocolVersion × ProtocolVersion)
  pub body : String
  pub pairing_code : String

-- Encodings of the standard library: JSON for bodies, replies and sessions, and SHA-256. `hash` is the
-- method of sessionData.
pub record Http : Type 0 where
  pub parse_proofs : String → Option String
  pub parse_commitments : String → Option IssueCommitments
  pub parse_options : String → Option PairingMethod
  pub write : Reply → ℕ × String
  pub sha256 : String → String
  pub hash : SessionData → String

abbrev pub is_panic : Reply → Bool
is_panic panic_reply = true
is_panic _ = false

-- retryTimeLimit: ten seconds.
abbrev retry_time_limit : ℕ
retry_time_limit = 10000000000

abbrev pub empty_cache : ResponseCache
empty_cache = record {
  endpoint = "";
  message = "";
  response = "";
  http_status = 0;
  session_status = initialized;
}

-- pairingMiddleware
unfoldable pub pairing_middleware : String → (SessionData → Handled) → SessionData → Handled
pairing_middleware client_auth next session =
    if is_status session.status pairing
    then refuse session pairing_required ""
    else if not (is_status session.status connected)
    then refuse session unexpected_request "Session not yet started or already finished"
    else if not (session.client_auth == client_auth)
    then refuse session irma_unauthorized ""
    else next session

-- frontendMiddleware
unfoldable pub frontend_middleware : String → (SessionData → Handled) → SessionData → Handled
frontend_middleware frontend_auth next session =
    if not (frontend_auth == session.frontend_auth)
    then refuse session irma_unauthorized ""
    else next session

-- handleSessionGetRequest: a session without a version is dereferenced.
unfoldable pub request_for : Option ProtocolVersion → SessionData → Handled
request_for none session = (session, [], panic_reply)
request_for (some v) session =
    if below v 2 8
    then refuse session unexpected_request "Endpoint is not support in used protocol version"
    else (session, [], request_reply (get_request session))

unfoldable pub handle_session_get_request : SessionData → Handled
unfolding request_for
handle_session_get_request session = request_for session.version session

-- handleFrontendPairingCompleted
unfoldable pub handle_frontend_pairing_completed : Config → SessionData → Handled
handle_frontend_pairing_completed conf session =
    if_some (pairing_completed conf session) (refuse session unexpected_request "")
      (λ s. (s.0, s.1, empty_reply))

module _ (conf : Config) (back : Backend) (iss : Issuer) (http : Http) where
  -- checkCache
  unfoldable pub check_cache : ℕ → String → String → SessionData → SessionData × (ℕ × String)
  check_cache now endpoint message session =
      let cache = session.response_cache in
      if not (cache.endpoint == endpoint)
        || (cache.response == ""
            || (not (is_status cache.session_status session.status)
                || (ltb (session.last_active + retry_time_limit) now
                    || not (http.sha256 cache.message == http.sha256 message))))
      then (record session { response_cache = empty_cache }, (0, ""))
      else (session, (cache.http_status, cache.response))

  -- What cacheMiddleware does after the handler; the panic of a handler passes it by.
  unfoldable pub record_output : String → String → Handled → Handled
  record_output endpoint message (session, posted, reply) =
      let (status, output) = http.write reply in
      if is_panic reply then (session, posted, reply) else (
        record session {
          response_cache = record {
            endpoint = endpoint;
            message = message;
            response = output;
            http_status = status;
            session_status = session.status;
          };
        },
        posted,
        reply,
      )

  -- cacheMiddleware
  unfoldable pub cache_middleware :
      ℕ → String → String → (SessionData → Handled) → SessionData → Handled
  unfolding check_cache record_output
  cache_middleware now endpoint message next session =
      let (session', cached) = check_cache now endpoint message session in
      if ltb 0 (cached.0) && not (cached.1 == "")
      then (session', [], cached_reply (cached.0) (cached.1))
      else record_output endpoint message (next session')

  -- handleSessionGet
  unfoldable pub handle_session_get : ℕ → HttpRequest → SessionData → Handled
  handle_session_get now r session =
      if_some r.versions (refuse session malformed_input "")
        (λ v. handle_get_client_request conf back now (v.0) (v.1) r.authorization session)

  -- handleSessionCommitments
  unfoldable pub handle_session_commitments : ℕ → String → SessionData → Handled
  handle_session_commitments now body session =
      if_some (http.parse_commitments body) (refuse session malformed_input "")
        (λ c. finish conf back (handle_post_commitments conf iss now c session))

  unfoldable pub options_reply_to : OptionsResult → SessionData → Handled
  options_reply_to (rejected e) session = refuse session unexpected_request ""
  options_reply_to (updated s) session = (s, [], options_reply s.options)

  -- handleFrontendOptionsPost
  unfoldable pub handle_frontend_options_post : HttpRequest → SessionData → Handled
  unfolding options_reply_to
  handle_frontend_options_post r session =
      if_some (http.parse_options r.body) (refuse session malformed_input "")
        (λ method. options_reply_to (update_frontend_options method r.pairing_code session) session)

  unfoldable pub deleted : ℕ → SessionData → Handled
  deleted now session = let (s, posted) = handle_delete conf now session in (s, posted, empty_reply)

  -- The routes of HandlerFunc behind sessionMiddleware.
  unfoldable pub serve_route : Route → ℕ → HttpRequest → SessionData → Handled
  unfolding deleted
  serve_route delete_session now r session = deleted now session
  serve_route session_status now r session = (session, [], status_reply session.status)
  serve_route frontend_status now r session =
      frontend_middleware r.authorization (λ s. (s, [], frontend_status_reply s.status s.next))
        session
  serve_route frontend_options now r session =
      frontend_middleware r.authorization (handle_frontend_options_post r) session
  serve_route frontend_pairing_completed now r session =
      frontend_middleware r.authorization (handle_frontend_pairing_completed conf) session
  serve_route get_session now r session =
      cache_middleware now r.path r.body (handle_session_get now r) session
  serve_route get_session_request now r session =
      cache_middleware now r.path r.body
        (pairing_middleware r.authorization handle_session_get_request) session
  serve_route post_commitments now r session =
      cache_middleware now r.path r.body
        (pairing_middleware r.authorization (handle_session_commitments now r.body)) session
  serve_route post_proofs now r session =
      cache_middleware now r.path r.body
        (pairing_middleware r.authorization
          (handle_session_proofs conf back now (http.parse_proofs r.body)))
        session

  unfoldable pub serve : ℕ → HttpRequest → SessionData → Handled
  unfolding serve_route
  serve now r session = serve_route r.route now r session

  -- The function that sessionMiddleware runs in a transaction, and whether the session is stored. The
  -- transaction of a handler that panics is not completed.
  unfoldable pub session_middleware : ℕ → HttpRequest → SessionData → Handled × Bool
  session_middleware now r session =
      let expected_host = session.rrequest.request.host in
      if not (expected_host == "") && not (expected_host == r.host)
      then (refuse session unauthorized "Host mismatch", false)
      else (let (session', posted, reply) = serve now r session in
          (
            (session', posted, reply),
            not (is_panic reply) && not (http.hash session == http.hash session'),
          ))
