-- ===== src/Session/Steps.antt =====
-- The helpers of server/irmaserver/helpers.go that change a session, and handleDelete. A method that
-- mutates the session returns the new one; the result callbacks that it posts are kept in order. `now`
-- is the clock in nanoseconds, and is read once where the source reads it more than once.
use irmago.Prelude.{
  ℕ, ◌+◌, ◌*◌, false, not, ◌&&◌, Option, none, some, List, [], ◌∷◌, String, ◌==◌, nat_eq, string_eq,
  if◌then◌else◌,
}
use irmago.Prelude.Int.{ℤ, sub_ℕ, add_ℕ}
use irmago.Session.Types.{
  ServerStatus, initialized, pairing, connected, cancelled, is_status, finished, no_status,
  RemoteError, SessionResult, PairingMethod, unspecified, method_none, method_pin, unknown_method,
  SessionData, Config,
}

-- What DoResultCallback posts.
pub data Payload : Type 0 where
  plain : SessionResult → Payload
  signed : String → Payload

abbrev pub Posted : Type 0
Posted = List (String × Payload)

-- A session after some steps, with the callbacks posted by them.
abbrev pub Stepped : Type 0
Stepped = SessionData × Posted

-- server.DoResultCallback: a result that cannot be signed is not posted.
unfoldable pub do_result_callback_to :
    Option (SessionResult → ℕ → Option String) → String → SessionResult → ℕ → Posted
do_result_callback_to none url result validity = (url, plain result) ∷ []
do_result_callback_to (some sign) url result validity = elim (sign result validity) [
  | none ↦ []
  | some jwt ↦ (url, signed jwt) ∷ []
]

-- doResultCallback
unfoldable pub do_result_callback : Config → SessionData → Posted
unfolding do_result_callback_to
do_result_callback conf session =
    let url = session.rrequest.callback_url in
    if url == ""
    then []
    else do_result_callback_to conf.sign_result url session.result
        session.rrequest.result_jwt_validity

-- markAlive
unfoldable pub mark_alive : ℕ → SessionData → SessionData
mark_alive now session = record session { last_active = now }

-- setStatus
unfoldable pub set_status : Config → ServerStatus → SessionData → Stepped
unfolding do_result_callback finished
set_status conf status session =
    let session' = record session {
      status = status;
      result = record (session.result) { status = status };
    } in
    (session', if finished status then do_result_callback conf session' else [])

abbrev pub empty_result : SessionData → SessionResult
empty_result session = record {
  token = session.requestor_token;
  status = cancelled;
  action = session.action;
  proof_status = no_status;
  disclosed = [];
  signature = none;
  failure = none;
  next_session = "";
  legacy_session = false;
}

-- fail
unfoldable pub fail : Config → RemoteError → SessionData → Stepped
unfolding set_status
fail conf rerr session =
    set_status conf cancelled
      (record session { result = record (empty_result session) { failure = some rerr } })

-- handleDelete
unfoldable pub handle_delete : Config → ℕ → SessionData → Stepped
unfolding mark_alive set_status finished
handle_delete conf now session =
    if finished session.status
    then (session, [])
    else (let alive = mark_alive now session in
        set_status conf cancelled (record alive { result = empty_result alive }))

-- pairingCompleted
unfoldable pub pairing_completed : Config → SessionData → Option Stepped
unfolding set_status
pairing_completed conf session =
    if is_status session.status pairing then some (set_status conf connected session) else none

pub data OptionsError : Type 0 where
  not_initialized unknown_pairing_method : OptionsError

pub data OptionsResult : Type 0 where
  updated : SessionData → OptionsResult
  rejected : OptionsError → OptionsResult

unfoldable pub update_pairing : PairingMethod → String → SessionData → OptionsResult
update_pairing unspecified code session = updated session
update_pairing method_none code session = updated (record session {
  options = record (session.options) { pairing_method = method_none; pairing_code = "" };
})
update_pairing method_pin code session = updated (record session {
  options = record (session.options) { pairing_method = method_pin; pairing_code = code };
})
update_pairing (unknown_method m) code session = rejected unknown_pairing_method

-- updateFrontendOptions, with the pairing code that common.NewPairingCode draws.
unfoldable pub update_frontend_options : PairingMethod → String → SessionData → OptionsResult
unfolding update_pairing
update_frontend_options method code session =
    if not (is_status session.status initialized)
    then rejected not_initialized
    else update_pairing method code session

-- timeout: the time left, which is negative once it has passed.
unfoldable pub timeout : Config → ℕ → SessionData → ℤ
unfolding finished
timeout conf now session =
    let client_timeout = session.rrequest.client_timeout in
    let max_session_duration =
      if is_status session.status initialized && not (client_timeout == 0)
      then client_timeout * 1000000000
      else if finished session.status
      then 0
      else conf.max_session_lifetime * 60000000000 in
    sub_ℕ (max_session_duration + session.last_active) now

-- ttl
unfoldable pub ttl : Config → ℕ → SessionData → ℤ
unfolding timeout
ttl conf now session = add_ℕ (timeout conf now session) (conf.session_result_lifetime * 60000000000)
