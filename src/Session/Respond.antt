-- ===== src/Session/Respond.antt =====
-- The responses of the client in server/irmaserver/handle.go: a disclosure or a signature, and the
-- chained session that may follow.
use irmago.Prelude.{
  ℕ, Bool, true, false, not, ◌||◌, Option, none, some, is_some, [], ◌∷◌, ◌++◌, String,
  if◌then◌else◌, map,
}
use irmago.Prelude.Outcome.{Outcome, ok, err, panic}
use irmago.Request.{AttributeConDisCon}
use irmago.Session.Types.{
  connected, done, is_status, Action, disclosing, signing, issuing, ProofStatus, valid,
  unknown_public_key, exception, next_session_error, invalid_request, malformed_input, Disclosed,
  SessionData, Config,
}
use irmago.Session.Steps.{Posted, mark_alive, set_status}
use irmago.Session.Messages.{
  missing_key, other, Verified, no_content, post_failed, next_request, Backend,
  ServerSessionResponse, error_reply, response_reply, panic_reply, Handled, refuse, fail_with,
}

abbrev pub is_valid : ProofStatus → Bool
is_valid valid = true
is_valid _ = false

-- The attributes of a result as a request for the same values, in nextSession.
unfoldable pub disclosed_again : Disclosed → AttributeConDisCon
disclosed_again [] = []
disclosed_again (con ∷ rest) =
    (map (λ attr. record { attr_type = attr.0; value = attr.1; not_null = false }) con ∷ [])
    ∷ disclosed_again rest

-- The attributes of earlier sessions in the chain are asked for again.
unfoldable pub add_implicit : SessionData → SessionData
add_implicit session = record session {
  rrequest = record (session.rrequest) {
    request = record (session.rrequest.request) {
      disclose = session.rrequest.request.disclose ++ session.implicit_disclosure;
    };
  };
}

module _ (conf : Config) (back : Backend) where
  -- The result of Verify, and the failure of the session on an error.
  unfoldable pub record_verified : Action → Verified → SessionData → Handled
  record_verified action v session =
      let session' = record session {
        result = record (session.result) { disclosed = v.disclosed; proof_status = v.proof_status };
      } in
      elim (v.failure) [
        | none ↦ (
          session',
          [],
          response_reply (record {
            action = action;
            version = session.version;
            proof_status = v.proof_status;
            issue_signatures = [];
            next_session = none;
          }),
        )
        | some missing_key ↦ fail_with conf session' unknown_public_key "Missing public key"
        | some (other e) ↦ fail_with conf session' exception e
      ]

  -- handlePostDisclosure
  unfoldable pub handle_post_disclosure : ℕ → String → SessionData → Handled
  unfolding add_implicit record_verified
  handle_post_disclosure now disclosure session =
      let asked = add_implicit (mark_alive now session) in
      record_verified disclosing (back.verify asked.rrequest.request disclosure) asked

  -- handlePostSignature
  unfoldable pub handle_post_signature : ℕ → String → SessionData → Handled
  unfolding add_implicit record_verified
  handle_post_signature now signature session =
      let alive = mark_alive now session in
      let asked =
        add_implicit
          (record alive { result = record (alive.result) { signature = some signature } }) in
      record_verified signing (back.verify asked.rrequest.request signature) asked

  -- nextSession and startNext: the session and the response after asking for a next session.
  unfoldable pub start_next :
      SessionData → ServerSessionResponse → Outcome String (SessionData × ServerSessionResponse)
  unfolding disclosed_again
  start_next session res = elim (session.rrequest.next_session) [
    | none ↦ ok (session, res)
    | some url ↦
        if not (is_status session.result.status connected)
          || (not (is_valid session.result.proof_status) || is_some session.result.failure)
        then err "session in invalid state"
        else elim (back.ask_next url session.result) [
          | no_content ↦ ok (session, res)
          | post_failed e ↦ err e
          | next_request req ↦
              elim (back.start_session req (disclosed_again session.result.disclosed)
                session.frontend_auth) [
                  | ok (qr, token) ↦ ok (
                    record session {
                      result = record (session.result) { next_session = token };
                      next = some qr;
                    },
                    record res { next_session = some qr },
                  )
                  | err e ↦ err e
                  | panic ↦ panic
                ]
        ]
  ]

  -- The end of handleSessionProofs and handleSessionCommitments, after startNext.
  unfoldable pub finish_with :
      SessionData → Posted → Outcome String (SessionData × ServerSessionResponse) → Handled
  finish_with session posted (ok (session', res)) =
      let (session'', more) = set_status conf done session' in
      (session'', posted ++ more, response_reply res)
  finish_with session posted (err e) =
      (session, posted, error_reply (record { error = next_session_error; message = e }))
  finish_with session posted panic = (session, posted, panic_reply)

  unfoldable pub finish : Handled → Handled
  unfolding start_next finish_with
  finish (session, posted, response_reply res) = finish_with session posted (start_next session res)
  finish (session, posted, reply) = (session, posted, reply)

  -- handleSessionProofs, for a body that can be parsed.
  unfoldable pub proofs_handler : Action → ℕ → String → SessionData → Handled
  unfolding finish handle_post_disclosure handle_post_signature
  proofs_handler disclosing now body session = finish (handle_post_disclosure now body session)
  proofs_handler signing now body session = finish (handle_post_signature now body session)
  proofs_handler issuing now body session = refuse session invalid_request ""

  unfoldable pub unparsed : Action → SessionData → Handled
  unparsed issuing session = refuse session invalid_request ""
  unparsed _ session = refuse session malformed_input ""

  -- handleSessionProofs: `none` is a body that cannot be parsed, which matters where one is expected.
  unfoldable pub handle_session_proofs : ℕ → Option String → SessionData → Handled
  unfolding proofs_handler unparsed
  handle_session_proofs now (some body) session = proofs_handler session.action now body session
  handle_session_proofs now none session = unparsed session.action session
