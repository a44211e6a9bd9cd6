-- ===== src/Session/Reached.antt =====
-- The sessions that requests reach from newSession of server/irmaserver/helpers.go, and what their invariant
-- is for: handleSessionGetRequest dereferences the version of a session.
use irmago.Prelude.{
  is_some, ◌≡◌, refl, ℕ, Bool, true, false, not, ◌&&◌, Option, none, some, List, [], ◌∷◌, String,
  ◌==◌, string_eq, ltb, inl, inr, Bool-cases,
}
use irmago.Version.{ProtocolVersion, below}
use irmago.Request.{AttributeConDisCon}
use irmago.Session.Types.{
  Action, RequestorRequest, SessionData, Config, is_status, pairing, connected,
}
use irmago.Prelude.{◌∙◌}
use irmago.Session.Messages.{Handled}
use irmago.Session.Messages.{Backend, refuse}
use irmago.Session.Issuance.{Issuer}
use irmago.Session.Routes.{
  get_session_request, HttpRequest, Http, is_panic, pairing_middleware, request_for,
  handle_session_get_request, check_cache, record_output, cache_middleware, serve, serve_route,
}
use irmago.Session.Server.{new_session}
use irmago.Session.Status.{IsWellFormed, Kept-IsWellFormed}
use irmago.Session.Lifecycle.{is_status_eq}
use irmago.Session.Serving.{serve_advances, check_cache-Kept}
use irmago.Session.Callbacks.{serve_all}

new_session-IsWellFormed :
    (contains : String → String → Bool) (concat : String → String → String) (augment : Bool)
    (now : ℕ) (client_token requestor_token drawn : String) (action : Action)
    (rrequest : RequestorRequest) (disclosed : AttributeConDisCon) (auth : String)
    → IsWellFormed (
        new_session contains concat augment now client_token requestor_token drawn action rrequest
          disclosed auth)
unfolding new_session
new_session-IsWellFormed contains concat augment now client_token requestor_token drawn action
      rrequest disclosed auth =
    record {
      status_agrees = refl;
      token_agrees = refl;
      action_agrees = refl;
      has_version = λ h. cc;
      has_pairing = λ h. cc;
    }

request_for_answers :
    (v : Option ProtocolVersion) (s : SessionData)
    → is_some v ≡ true
    → is_panic (request_for v s).2 ≡ false
unfolding request_for refuse
request_for_answers none s h = cc
request_for_answers (some v) s h = elim (Bool-cases (below v 2 8)) [
  | inl e ↦ rw e refl
  | inr e ↦ rw e refl
]

paired_answers :
    (auth : String) (s : SessionData)
    → IsWellFormed s
    → is_panic (pairing_middleware auth handle_session_get_request s).2 ≡ false
unfolding pairing_middleware refuse handle_session_get_request
paired_answers auth s w = elim (Bool-cases (is_status s.status pairing)) [
  | inl e ↦ rw e refl
  | inr e ↦ elim (Bool-cases (is_status s.status connected)) [
    | inr f ↦ rw (e, f) refl
    | inl f ↦
        let at : s.status ≡ connected = is_status_eq s.status connected f in
        let v : is_some s.version ≡ true = w.has_version (rw at refl) in
        elim (Bool-cases (s.client_auth == auth)) [
          | inr g ↦ rw (e, f, g) refl
          | inl g ↦ rw (e, f, g) (request_for_answers s.version s v)
        ]
  ]
]

module _ (conf : Config) (back : Backend) (iss : Issuer) (http : Http) where
  -- Requests in any order keep a session well-formed.
  pub serve_all-IsWellFormed :
      (rs : List (ℕ × HttpRequest)) (s : SessionData)
      → IsWellFormed s
      → IsWellFormed ((serve_all conf back iss http rs s).0)
  unfolding serve_all
  serve_all-IsWellFormed [] s w = w
  serve_all-IsWellFormed ((now, r) ∷ rs) s w =
      let a = serve_advances conf back iss http now r s in
      serve_all-IsWellFormed rs ((serve conf back iss http now r s).0) (a.well_formed w)

  recorded :
      (endpoint message : String) (h : Handled)
      → is_panic (record_output conf back iss http endpoint message h).2 ≡ is_panic (h.2)
  unfolding record_output
  recorded endpoint message (t, p, reply) = elim (Bool-cases (is_panic reply)) [
    | inl e ↦ rw e e
    | inr e ↦ rw e e
  ]

  get_session_request_answers :
      (now : ℕ) (r : HttpRequest) (s : SessionData)
      → IsWellFormed s
      → is_panic (serve_route conf back iss http get_session_request now r s).2 ≡ false
  unfolding serve_route cache_middleware
  get_session_request_answers now r s w =
      let (t, c) = check_cache conf back iss http now r.path r.body s in
      let (k, _) = check_cache-Kept conf back iss http now r.path r.body s in
      elim (Bool-cases (ltb 0 (c.0) && not (c.1 == ""))) [
        | inl e ↦ rw e refl
        | inr e ↦ rw e (
            recorded r.path r.body _ ∙ paired_answers r.authorization t (Kept-IsWellFormed s t k w))
      ]

  -- Whatever requests a new session has served, asking for its request never dereferences a missing version:
  -- the handler answers, and does not panic.
  pub new_session-get_session_request :
      (contains : String → String → Bool) (concat : String → String → String) (augment : Bool)
      (start now : ℕ) (client_token requestor_token drawn : String) (action : Action)
      (rrequest : RequestorRequest) (disclosed : AttributeConDisCon) (auth : String)
      (rs : List (ℕ × HttpRequest)) (r : HttpRequest)
      → is_panic
          (serve_route conf back iss http get_session_request now r (
            (serve_all conf back iss http rs (
              new_session contains concat augment start client_token requestor_token drawn action
                rrequest disclosed auth)).0)).2
        ≡ false
  new_session-get_session_request contains concat augment start now client_token requestor_token
        drawn action rrequest disclosed auth rs r =
      get_session_request_answers now r _ (
        serve_all-IsWellFormed rs _ (
          new_session-IsWellFormed contains concat augment start client_token requestor_token drawn
            action rrequest disclosed auth))
