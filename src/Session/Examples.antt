-- ===== src/Session/Examples.antt =====
-- The theorems on sessions at a concrete session of a server with default settings.
use irmago.Prelude.{
  ℕ, ◌≤◌, ◌≡◌, refl, true, false, none, some, List, [], ◌∷◌, String, length, nat_eq, string_eq,
  arith,
}
use irmago.Prelude.Int.{is_nonpos}
use irmago.Prelude.Map.{lookup, insert}
use irmago.Prelude.Outcome.{ok, err}
use irmago.Version.{ProtocolVersion, new_version, below, above_version, below_version}
use irmago.Version.Order.{AtMost, AtMost-refl}
use irmago.Session.Types.{
  disclosing, connected, timed_out, valid, finished, SessionRequest, RequestorRequest, SessionData,
  Config, method_pin,
}
use irmago.Session.Steps.{do_result_callback, set_status, timeout}
use irmago.Session.Messages.{Backend, no_content}
use irmago.Session.Issuance.{Issuer}
use irmago.Session.Negotiation.{
  choose_protocol_version, min_session_protocol_version, Common, choose_protocol_version_greatest,
  choose_protocol_version_complete, choose_protocol_version_condiscon,
}
use irmago.Session.Routes.{
  get_session_request, is_panic, serve_route, Http, HttpRequest, Route, get_session, post_proofs,
  delete_session, frontend_options, serve,
}
use irmago.Session.Status.{Move, IsWellFormed, identity}
use irmago.Session.Store.{
  Store, Cell, Begun, empty_store, add, begun, begin_transaction, commit, check_timeout,
}
use irmago.Session.Server.{new_session, get_session_result}
use irmago.Session.Callbacks.{serve_moves, serve-IsWellFormed, serve_all, serve_all-finished}
use irmago.Session.Once.{stored_unfinished, serve_clients, serve_clients-posts}
use irmago.Session.Types.{ServerStatus, initialized, pairing, cancelled, done}
use irmago.Prelude.{◌↔◌, ◌+◌, sym, ap, ◌∙◌, if◌then◌else◌, ◌==◌}
use irmago.Session.Access.{
  Cached, is_cached, serve-needs_client, serve-needs_frontend, serve-Cached_iff,
}
use irmago.Session.Reached.{new_session-get_session_request}
use irmago.Session.Updates.{
  StoreSteps, here, step, adds, IsFresh, commit_sees_latest, steps-IsFresh,
  get_session_result-timed_out,
}

abbrev conf : Config
conf = record {
  max_session_lifetime = 5;
  session_result_lifetime = 5;
  accept_insecure_protocol_versions = false;
  sign_result = none;
}

abbrev back : Backend
back = record {
  set_revocation_updates = λ r. ok r;
  verify = λ r d. record { disclosed = []; proof_status = valid; failure = none };
  ask_next = λ url result. no_content;
  start_session = λ r d auth. err "";
}

abbrev iss : Issuer
iss = record {
  extract_public_keys = λ ps. ok [];
  public_key = λ i c. none;
  distributed = λ s. some false;
  verify_jwt = λ s j. err "";
  merge = λ p q k. p;
  verify_against = λ r ps ks. record { disclosed = []; proof_status = valid; failure = none };
  issue = λ s c u n. ok "signature";
}

abbrev status_text : ServerStatus → String
status_text initialized = "INITIALIZED"
status_text pairing = "PAIRING"
status_text connected = "CONNECTED"
status_text cancelled = "CANCELLED"
status_text done = "DONE"
status_text timed_out = "TIMEOUT"

abbrev status_of_text : String → ServerStatus
status_of_text t =
    if t == "INITIALIZED"
    then initialized
    else if t == "PAIRING"
    then pairing
    else if t == "CONNECTED"
    then connected
    else if t == "CANCELLED"
    then cancelled
    else if t == "DONE"
    then done
    else timed_out

status_of_text-status_text : (a : ServerStatus) → status_of_text (status_text a) ≡ a
status_of_text-status_text initialized = refl
status_of_text-status_text pairing = refl
status_of_text-status_text connected = refl
status_of_text-status_text cancelled = refl
status_of_text-status_text done = refl
status_of_text-status_text timed_out = refl

abbrev http : Http
http = record {
  parse_proofs = λ b. some b;
  parse_commitments = λ b. none;
  parse_options = λ b. some method_pin;
  write = λ r. (200, "reply");
  sha256 = λ m. m;
  hash = λ s. status_text s.status;
}

abbrev asked : SessionRequest
asked = record {
  action = disclosing;
  disclose = [];
  labels = [];
  message = "";
  credentials = [];
  revocation = [];
  version = none;
  host = "";
  client_return_url = "";
  augment_return_url = false;
  was_legacy = false;
}

abbrev rrequest : RequestorRequest
rrequest = record {
  result_jwt_validity = 120;
  client_timeout = 0;
  callback_url = "https://requestor.example";
  next_session = none;
  request = asked;
}

abbrev fresh : SessionData
fresh =
    new_session (λ a b. false) (λ a b. a) false 0 "client" "requestor" "frontend" disclosing
      rrequest [] ""

-- A session that its client has connected to.
abbrev open_session : SessionData
open_session = record fresh {
  status = connected;
  version = some (new_version 2 8);
  client_auth = "phone";
  result = record (fresh.result) { status = connected };
  response_cache = record {
    endpoint = "/request";
    message = "";
    response = "cached";
    http_status = 200;
    session_status = connected;
  };
}

abbrev request_to : Route → String → HttpRequest
request_to route auth = record {
  route = route;
  path = "/request";
  host = "server";
  authorization = auth;
  versions = some (new_version 2 8, new_version 2 8);
  body = "";
  pairing_code = "1234";
}

abbrev requests : List (ℕ × HttpRequest)
requests =
    (1, request_to get_session "phone")
    ∷ (2, request_to post_proofs "phone")
    ∷ (3, request_to delete_session "")
    ∷ []

fresh-IsWellFormed : IsWellFormed fresh
unfolding new_session
fresh-IsWellFormed = record {
  status_agrees = refl;
  token_agrees = refl;
  action_agrees = refl;
  has_version = λ h. cc;
  has_pairing = λ h. cc;
}

serve_moves_example :
    Move fresh.status (serve conf back iss http 1 (request_to get_session "phone") fresh).0.status
serve_moves_example = serve_moves conf back iss http 1 (request_to get_session "phone") fresh

serve-IsWellFormed_example :
    IsWellFormed ((serve conf back iss http 1 (request_to get_session "phone") fresh).0)
    × (identity ((serve conf back iss http 1 (request_to get_session "phone") fresh).0)
        ≡ identity fresh)
serve-IsWellFormed_example =
    serve-IsWellFormed conf back iss http 1 (request_to get_session "phone") fresh
      fresh-IsWellFormed

abbrev expired_session : SessionData
expired_session = (set_status conf timed_out fresh).0

expired-finished : finished expired_session.status ≡ true
unfolding set_status finished
expired-finished = refl

serve_all-finished_example :
    ((serve_all conf back iss http requests expired_session).0.status ≡ expired_session.status)
    × ((serve_all conf back iss http requests expired_session).1 ≡ [])
serve_all-finished_example =
    serve_all-finished conf back iss http requests expired_session expired-finished

serve-needs_client_example :
    ((serve conf back iss http 1 (request_to post_proofs "other") open_session).0
      ≡ record open_session {
        response_cache =
            (serve conf back iss http 1
              (request_to post_proofs "other")
              open_session).0.response_cache;
      })
    × ((serve conf back iss http 1 (request_to post_proofs "other") open_session).1 ≡ [])
unfolding new_session
serve-needs_client_example =
    serve-needs_client conf back iss http 1 (request_to post_proofs "other") open_session refl refl

hash-distinct : (x y : SessionData) → http.hash x ≡ http.hash y → x.status ≡ y.status
hash-distinct x y h =
    sym (status_of_text-status_text x.status)
    ∙ (ap status_of_text h ∙ status_of_text-status_text y.status)

serve_clients-posts_example :
    length ((serve_clients conf back iss http "client" requests (add fresh empty_store)).1)
      + stored_unfinished "client"
          ((serve_clients conf back iss http "client" requests (add fresh empty_store)).0)
    ≤ stored_unfinished "client" (add fresh empty_store)
      + (serve_clients conf back iss http "client" requests (add fresh empty_store)).2
serve_clients-posts_example =
    serve_clients-posts conf back iss http hash-distinct "client" requests (add fresh empty_store)

serve-needs_frontend_example :
    ((serve conf back iss http 1 (request_to frontend_options "phone") fresh).0 ≡ fresh)
    × ((serve conf back iss http 1 (request_to frontend_options "phone") fresh).1 ≡ [])
unfolding new_session
serve-needs_frontend_example =
    serve-needs_frontend conf back iss http 1 (request_to frontend_options "phone") fresh refl refl

open-Cached : Cached conf back iss http 1 (request_to post_proofs "other") open_session
unfolding new_session
open-Cached = record {
  same_endpoint = refl;
  same_message = refl;
  same_status = refl;
  recent = omega arith;
  has_status = omega arith;
  has_response = refl;
}

-- Another client gets the cached response.
serve-Cached_iff_example :
    (is_cached ((serve conf back iss http 1 (request_to post_proofs "other") open_session).2)
      ≡ true)
    ↔ Cached conf back iss http 1 (request_to post_proofs "other") open_session
unfolding new_session
serve-Cached_iff_example =
    serve-Cached_iff conf back iss http 1 (request_to post_proofs "other") open_session refl refl

open_session-cached :
    is_cached ((serve conf back iss http 1 (request_to post_proofs "other") open_session).2) ≡ true
open_session-cached = serve-Cached_iff_example.1 open-Cached

abbrev v28 : ProtocolVersion
v28 = new_version 2 8

fresh_version : choose_protocol_version conf fresh v28 v28 ≡ some v28
unfolding choose_protocol_version min_session_protocol_version new_session above_version
    below_version
fresh_version = refl

fresh-Common : Common conf fresh v28 v28 v28
unfolding min_session_protocol_version
fresh-Common = record {
  client_min = AtMost-refl v28;
  client_max = AtMost-refl v28;
  server_min = AtMost-refl v28;
  server_max = AtMost-refl v28;
}

choose_protocol_version_greatest_example :
    Common conf fresh v28 v28 v28
    × ((w : ProtocolVersion) → Common conf fresh v28 v28 w → AtMost w v28)
choose_protocol_version_greatest_example =
    choose_protocol_version_greatest conf fresh v28 v28 v28 fresh_version

choose_protocol_version_complete_example :
    (v : ProtocolVersion) × (choose_protocol_version conf fresh v28 v28 ≡ some v)
choose_protocol_version_complete_example =
    choose_protocol_version_complete conf fresh v28 v28 v28 fresh-Common

fresh_incompatible : fresh.legacy_compatible ≡ false
unfolding new_session
fresh_incompatible = refl

choose_protocol_version_condiscon_example : below v28 2 5 ≡ false
choose_protocol_version_condiscon_example =
    choose_protocol_version_condiscon conf fresh v28 v28 v28 fresh_incompatible fresh_version

abbrev sample_store : Store
sample_store = add fresh empty_store

sample_steps : StoreSteps empty_store sample_store
sample_steps = step (adds fresh empty_store) here

empty_store-IsFresh : IsFresh empty_store
unfolding lookup
empty_store-IsFresh a c h = cc

sample_store-IsFresh : IsFresh sample_store
sample_store-IsFresh = steps-IsFresh empty_store sample_store sample_steps empty_store-IsFresh

abbrev sample_cell : Cell
sample_cell = record { stamp = 0; contents = fresh }

abbrev sample_begun : Begun
sample_begun = begun conf 1 0 sample_cell

sample_begins : begin_transaction conf 1 "requestor" sample_store ≡ some sample_begun
unfolding begin_transaction add lookup insert new_session
sample_begins = refl

abbrev updated_store : Store
updated_store = record sample_store {
  heap = insert 0 (record { stamp = 1; contents = open_session }) sample_store.heap;
  next = 2;
}

sample_commits : commit sample_begun open_session sample_store ≡ ok updated_store
unfolding commit begun add lookup insert
sample_commits = refl

commit_sees_latest_example :
    (c : Cell) × (lookup sample_begun.cell sample_store.heap ≡ some c)
    × (sample_begun.session ≡ (check_timeout conf 1 c.contents).0)
    × ((d : Cell) × (lookup sample_begun.cell updated_store.heap ≡ some d)
        × (d.contents ≡ open_session))
commit_sees_latest_example =
    commit_sees_latest conf 1 "requestor" sample_store sample_store updated_store sample_begun
      open_session sample_store-IsFresh sample_begins here sample_commits

sample_token : lookup "requestor" sample_store.requestor ≡ some 0
unfolding add lookup insert new_session
sample_token = refl

sample_lookup : lookup 0 sample_store.heap ≡ some sample_cell
unfolding add lookup insert
sample_lookup = refl

fresh_running : finished fresh.status ≡ false
unfolding finished new_session
fresh_running = refl

-- Five minutes after the session started.
fresh_timed_out : is_nonpos (timeout conf 300000000000 fresh) ≡ true
unfolding timeout new_session finished
fresh_timed_out = refl

get_session_result-timed_out_example :
    ((get_session_result conf 300000000000 "requestor" sample_store).0 ≡ sample_store)
    × ((get_session_result conf 300000000000 "requestor" sample_store).1
        ≡ do_result_callback conf (set_status conf timed_out fresh).0)
get_session_result-timed_out_example =
    get_session_result-timed_out conf 300000000000 0 "requestor" sample_store sample_cell
      sample_token sample_lookup fresh_running fresh_timed_out

new_session-get_session_request_example :
    is_panic
      (serve_route conf back iss http get_session_request 9
        (request_to get_session_request "phone")
        ((serve_all conf back iss http requests (
          new_session
            (λ a b. false)
            (λ a b. a)
            false
            0
            "client"
            "requestor"
            "frontend"
            disclosing
            rrequest
            []
            "")).0)).2
    ≡ false
new_session-get_session_request_example =
    new_session-get_session_request conf back iss http (λ a b. false) (λ a b. a) false 0 9 "client"
      "requestor" "frontend" disclosing rrequest [] "" requests
      (request_to get_session_request "phone")
