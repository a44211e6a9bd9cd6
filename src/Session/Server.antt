-- ===== src/Session/Server.antt =====
-- The functions of server/irmaserver/api.go on the sessions of a server, newSession and the use of the store
-- by sessionMiddleware, both of helpers.go.
use irmago.Prelude.{
  ℕ, Bool, true, false, not, ◌&&◌, none, some, [], String, ◌==◌, string_eq, if◌then◌else◌,
}
use irmago.Prelude.Outcome.{Outcome, ok, err, panic}
use irmago.Request.{AttributeConDisCon}
use irmago.Session.Types.{
  initialized, no_status, Action, SessionResult, method_none, PairingMethod, SessionOptions,
  RequestorRequest, SessionRequest, SessionData, Config, session_unknown, internal_error,
}
use irmago.Session.Steps.{
  Posted, handle_delete, pairing_completed, update_frontend_options, updated, rejected,
}
use irmago.Session.Messages.{Backend, Reply, error_reply, panic_reply}
use irmago.Session.Issuance.{Issuer}
use irmago.Session.Routes.{HttpRequest, Http, is_panic, session_middleware, empty_cache}
use irmago.Session.Store.{
  Store, StoreError, unknown_session, Handler, transaction, client_transaction,
}

-- The return URL of the client with the token, for the library's `strings.Contains`, which is a parameter.
augmented :
    (String → String → Bool)
    → (String → String → String)
    → Bool
    → String
    → SessionRequest
    → SessionRequest
augmented contains concat augment token request =
    let url = request.client_return_url in
    if augment && (request.augment_return_url && not (url == ""))
    then record request {
      client_return_url =
          concat url (concat (if contains url "?" then "&token=" else "?token=") token);
    }
    else request

module _ (contains : String → String → Bool) (concat : String → String → String)
    (augment : Bool) where
  -- newSession, with the tokens and the frontend's authorization that common.NewSessionToken draws.
  unfoldable pub new_session :
      ℕ
      → String
      → String
      → String
      → Action
      → RequestorRequest
      → AttributeConDisCon
      → String
      → SessionData
  unfolding augmented
  new_session now client_token requestor_token drawn action rrequest disclosed frontend_auth =
      record {
        action = action;
        requestor_token = requestor_token;
        client_token = client_token;
        version = none;
        rrequest = record rrequest {
          request = augmented contains concat augment requestor_token rrequest.request;
        };
        legacy_compatible = false;
        status = initialized;
        response_cache = empty_cache;
        last_active = now;
        result = record {
          token = requestor_token;
          status = initialized;
          action = action;
          proof_status = no_status;
          disclosed = [];
          signature = none;
          failure = none;
          next_session = "";
          legacy_session = rrequest.request.was_legacy;
        };
        kss_proofs = [];
        next = none;
        frontend_auth = if frontend_auth == "" then drawn else frontend_auth;
        implicit_disclosure = disclosed;
        options = record { pairing_method = method_none; pairing_code = "" };
        client_auth = "";
      }

-- The answer to a client: the reply of the handler, or the error of the transaction.
unfoldable pub answer_to_client : Store × Posted × Outcome StoreError Reply → Store × Posted × Reply
answer_to_client (s, posted, ok reply) = (s, posted, reply)
answer_to_client (s, posted, panic) = (s, posted, panic_reply)
answer_to_client (s, posted, err (unknown_session t)) =
    (s, posted, error_reply (record { error = session_unknown; message = "" }))
answer_to_client (s, posted, err _) =
    (s, posted, error_reply (record { error = internal_error; message = "" }))

module _ (conf : Config) where
  -- GetSessionResult
  unfoldable pub get_session_result :
      ℕ → String → Store → Store × Posted × Outcome StoreError SessionResult
  get_session_result now token = transaction conf now token (λ s. (s, [], false, ok s.result))

  -- GetRequest
  unfoldable pub get_requestor_request :
      ℕ → String → Store → Store × Posted × Outcome StoreError RequestorRequest
  get_requestor_request now token = transaction conf now token (λ s. (s, [], false, ok s.rrequest))

  cancel_handler : ℕ → Handler (Unit {0})
  cancel_handler now s = let (s', posted) = handle_delete conf now s in (s', posted, true, ok tt)

  -- CancelSession
  unfoldable pub cancel_session :
      ℕ → String → Store → Store × Posted × Outcome StoreError (Unit {0})
  unfolding cancel_handler
  cancel_session now token = transaction conf now token (cancel_handler now)

  options_handler : PairingMethod → String → Handler SessionOptions
  options_handler method code s = elim (update_frontend_options method code s) [
    | updated s' ↦ (s', [], true, ok s'.options)
    | rejected e ↦ (s, [], true, err "")
  ]

  -- SetFrontendOptions
  unfoldable pub set_frontend_options :
      ℕ
      → String
      → PairingMethod
      → String
      → Store
      → Store × Posted × Outcome StoreError SessionOptions
  unfolding options_handler
  set_frontend_options now token method code =
      transaction conf now token (options_handler method code)

  pairing_handler : Handler (Unit {0})
  pairing_handler s = elim (pairing_completed conf s) [
    | none ↦ (s, [], true, err "Pairing was not completed")
    | some p ↦ (p.0, p.1, true, ok tt)
  ]

  -- PairingCompleted
  unfoldable pub complete_pairing :
      ℕ → String → Store → Store × Posted × Outcome StoreError (Unit {0})
  unfolding pairing_handler
  complete_pairing now token = transaction conf now token pairing_handler

  module _ (back : Backend) (iss : Issuer) (http : Http) where
    unfoldable pub client_handler : ℕ → HttpRequest → Handler Reply
    client_handler now r s =
        let ((s', posted, reply), update) = session_middleware conf back iss http now r s in
        (s', posted, update, if is_panic reply then panic else ok reply)

    -- sessionMiddleware, for a client token that can be parsed.
    unfoldable pub serve_client : ℕ → String → HttpRequest → Store → Store × Posted × Reply
    unfolding client_handler answer_to_client
    serve_client now token r s =
        answer_to_client (client_transaction conf now token (client_handler now r) s)
