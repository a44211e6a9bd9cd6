-- ===== src/Session/Connect.antt =====
-- handleGetClientRequest of server/irmaserver/handle.go: the client retrieves the session request.
use irmago.Prelude.{
  ℕ, Bool, true, false, not, ◌&&◌, none, some, [], String, ◌==◌, string_eq, if◌then◌else◌,
}
use irmago.Prelude.Outcome.{Outcome, ok, err, panic}
use irmago.Version.{ProtocolVersion, below, above}
use irmago.Request.Legacy.{LegacyError}
use irmago.Session.Types.{
  initialized, pairing, connected, is_status, unexpected_request, protocol_version,
  irma_unauthorized, revocation_error, SessionRequest, SessionData, Config,
}
use irmago.Session.Steps.{mark_alive, set_status}
use irmago.Session.Messages.{
  Backend, LegacyRequest, Reply, legacy_reply, request_reply, client_reply, panic_reply, Handled,
  refuse, fail_with, legacy, get_request, is_none_method, get_client_request,
}
use irmago.Session.Negotiation.{choose_protocol_version}

module _ (conf : Config) (back : Backend) where
  -- The reply in the format of the version that was negotiated. A request that is not convertible
  -- has no legacy form, which the source dereferences.
  request_in_format : ProtocolVersion → Outcome LegacyError LegacyRequest → SessionData → Reply
  request_in_format v old session =
      if below v 2 5
      then (elim old [
        | ok l ↦ legacy_reply (record l { version = some v })
        | err e ↦ panic_reply
        | panic ↦ panic_reply
      ])
      else if below v 2 8
      then request_reply (get_request session)
      else client_reply (get_client_request session)

  is_ok : Outcome LegacyError LegacyRequest → Bool
  is_ok (ok l) = true
  is_ok (err e) = false
  is_ok panic = false

  set_request : SessionRequest → SessionData → SessionData
  set_request request session = record session {
    rrequest = record (session.rrequest) { request = request };
  }

  -- The status, the session data and the reply of a client that connects.
  unfoldable pub connect_with :
      Outcome LegacyError LegacyRequest → ProtocolVersion → SessionRequest → SessionData → Handled
  unfolding request_in_format is_ok set_request
  connect_with old v request session =
      let session' = record (set_request (record request { version = some v }) session) {
        legacy_compatible = is_ok old;
      } in
      let status =
        if not (is_none_method session.options.pairing_method) && above v 2 7
        then pairing
        else connected in
      let (session'', posted) = set_status conf status session' in
      (session'', posted, request_in_format v old session'')

  -- The rest of handleGetClientRequest, once the request has its revocation updates and was converted.
  unfoldable pub connect_legacy :
      Outcome LegacyError LegacyRequest → ProtocolVersion → SessionRequest → SessionData → Handled
  unfolding connect_with set_request
  connect_legacy (ok l) v request session = connect_with (ok l) v request session
  connect_legacy (err e) v request session = connect_with (err e) v request session
  connect_legacy panic v request session = (set_request request session, [], panic_reply)

  unfoldable pub connect : ProtocolVersion → SessionRequest → SessionData → Handled
  unfolding connect_legacy
  connect v request session = connect_legacy (legacy request) v request session

  unfoldable pub with_version : String → ProtocolVersion → SessionData → Handled
  unfolding connect
  with_version client_auth v session =
      if client_auth == "" && above v 2 7
      then fail_with conf session irma_unauthorized "No authorization header provided"
      else (let session' = record session { client_auth = client_auth } in
          elim (back.set_revocation_updates session.rrequest.request) [
            | ok request ↦ connect v request session'
            | err e ↦ fail_with conf session' revocation_error e
            | panic ↦ (session', [], panic_reply)
          ])

  -- handleGetClientRequest
  unfoldable pub handle_get_client_request :
      ℕ → ProtocolVersion → ProtocolVersion → String → SessionData → Handled
  unfolding with_version
  handle_get_client_request now min max client_auth session =
      if not (is_status session.status initialized)
      then refuse session unexpected_request "Session already started"
      else (let alive = mark_alive now session in
          elim (choose_protocol_version conf session min max) [
            | none ↦ fail_with conf (record alive { version = none }) protocol_version ""
            | some v ↦ with_version client_auth v (record alive { version = some v })
          ])
