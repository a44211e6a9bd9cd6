-- ===== src/Session/Access.antt =====
-- Who may advance a session: the authorization of the client and of the frontend, and the responses that are
-- cached for retries. All of server/irmaserver/helpers.go.
use irmago.Prelude.{
  ◌≡◌, refl, ap, ◌∙◌, inl, inr, ℕ, ◌+◌, ◌<◌, Bool, true, false, not, ◌&&◌, [], String, ◌==◌, nat_eq,
  string_eq, ltb, Bool-cases, arith,
}
use irmago.Session.Types.{connected, rank, is_status, SessionData, Config}
use irmago.Session.Messages.{Backend, Reply, cached_reply, Handled, refuse}
use irmago.Session.Steps.{Posted}
use irmago.Prelude.{◌↔◌, ◌≤◌}
use irmago.Session.Issuance.{Issuer}
use irmago.Session.Routes.{
  Route, frontend_status, frontend_options, frontend_pairing_completed, get_session_request,
  post_commitments, post_proofs, HttpRequest, Http, check_cache, record_output, cache_middleware,
  is_panic, pairing_middleware, frontend_middleware, serve_route, serve,
}
use irmago.Session.Lifecycle.{is_status_eq}

-- The routes behind pairingMiddleware.
abbrev pub needs_client : Route → Bool
needs_client get_session_request = true
needs_client post_commitments = true
needs_client post_proofs = true
needs_client _ = false

-- The routes behind frontendMiddleware.
abbrev pub needs_frontend : Route → Bool
needs_frontend frontend_status = true
needs_frontend frontend_options = true
needs_frontend frontend_pairing_completed = true
needs_frontend _ = false

-- The session with another response in its cache.
abbrev pub with_cache_of : SessionData → SessionData → SessionData
with_cache_of t s = record s { response_cache = t.response_cache }

-- A handler that did nothing but cache what it replied.
record Idle (s : SessionData) (h : Handled) : Type 0 where
  kept : h.0 ≡ with_cache_of (h.0) s
  quiet : h.1 ≡ []

-- The client that a request comes from is the one that connected, and pairing is over.
abbrev pub client_may : SessionData → String → Bool
client_may s auth = is_status s.status connected && s.client_auth == auth

abbrev pub is_cached : Reply → Bool
is_cached (cached_reply status response) = true
is_cached _ = false

shut_out :
    (auth : String) (next : SessionData → Handled) (s : SessionData)
    → client_may s auth ≡ false
    → ((pairing_middleware auth next s).0 ≡ s)
      × ((pairing_middleware auth next s).1 ≡ [])
      × (is_cached ((pairing_middleware auth next s).2) ≡ false)
unfolding pairing_middleware refuse
shut_out auth next s h = ground arith

module _ (conf : Config) (back : Backend) (iss : Issuer) (http : Http) where
  -- checkCache changes the cache only.
  check_cache-with_cache_of :
      (now : ℕ) (endpoint message : String) (s : SessionData)
      → (check_cache conf back iss http now endpoint message s).0
        ≡ with_cache_of ((check_cache conf back iss http now endpoint message s).0) s
  unfolding check_cache
  check_cache-with_cache_of now endpoint message s = ground arith

  record_output-with_cache_of :
      (endpoint message : String) (t : SessionData) (p : Posted) (reply : Reply)
      → let h = record_output conf back iss http endpoint message (t, p, reply) in
        (h.0 ≡ with_cache_of (h.0) t) × (h.1 ≡ p) × (h.2 ≡ reply)
  unfolding record_output
  record_output-with_cache_of endpoint message t p reply = elim (Bool-cases (is_panic reply)) [
    | inl e ↦ rw e (refl, refl, refl)
    | inr e ↦ rw e (refl, refl, refl)
  ]

  -- What the cache has for a request: a hit of checkCache that is not empty.
  hit : ℕ → String → String → SessionData → Bool
  hit now endpoint message s =
      let (t, c) = check_cache conf back iss http now endpoint message s in
      ltb 0 (c.0) && not (c.1 == "")

  cached_shut_out :
      (now : ℕ) (endpoint message auth : String) (next : SessionData → Handled) (s : SessionData)
      → client_may s auth ≡ false
      → let h =
          cache_middleware conf back iss http now endpoint message
            (pairing_middleware auth next)
            s in
        Idle s h × (is_cached (h.2) ≡ hit now endpoint message s)
  unfolding cache_middleware hit
  cached_shut_out now endpoint message auth next s h =
      let (t, c) = check_cache conf back iss http now endpoint message s in
      let k = check_cache-with_cache_of now endpoint message s in
      let h' : client_may t auth ≡ false = rw k h in
      let (e, p, n) = shut_out auth next t h' in
      let (u, q, reply) = pairing_middleware auth next t in
      let (r, posted, same) = record_output-with_cache_of endpoint message u q reply in
      elim (Bool-cases (ltb 0 (c.0) && not (c.1 == ""))) [
        | inl f ↦ rw f (record { kept = k; quiet = refl }, refl)
        | inr f ↦ rw f (
          record {
            kept =
                r
                ∙ ap
                    (with_cache_of
                      (record_output conf back iss http endpoint message (u, q, reply)).0)
                    (e ∙ k);
            quiet = posted ∙ p;
          },
          ap is_cached same ∙ n,
        )
      ]

  serve_route-client :
      (route : Route) (now : ℕ) (r : HttpRequest) (s : SessionData)
      → needs_client route ≡ true
      → client_may s r.authorization ≡ false
      → Idle s (serve_route conf back iss http route now r s)
        × (is_cached ((serve_route conf back iss http route now r s).2) ≡ hit now r.path r.body s)
  unfolding serve_route
  serve_route-client get_session_request now r s n h =
      cached_shut_out now r.path r.body r.authorization _ s h
  serve_route-client post_commitments now r s n h =
      cached_shut_out now r.path r.body r.authorization _ s h
  serve_route-client post_proofs now r s n h =
      cached_shut_out now r.path r.body r.authorization _ s h
  serve_route-client _ now r s n h = cc

  serve_route-frontend :
      (route : Route) (now : ℕ) (r : HttpRequest) (s : SessionData)
      → needs_frontend route ≡ true
      → (r.authorization == s.frontend_auth) ≡ false
      → ((serve_route conf back iss http route now r s).0 ≡ s)
        × ((serve_route conf back iss http route now r s).1 ≡ [])
  unfolding serve_route frontend_middleware refuse
  serve_route-frontend frontend_status now r s n h = rw h (refl, refl)
  serve_route-frontend frontend_options now r s n h = rw h (refl, refl)
  serve_route-frontend frontend_pairing_completed now r s n h = rw h (refl, refl)
  serve_route-frontend _ now r s n h = cc

  -- The routes of a connected client change nothing of a session that is not connected, or that another client
  -- connected to, except the response that it has cached, and no result is posted.
  pub serve-needs_client :
      (now : ℕ) (r : HttpRequest) (s : SessionData)
      → needs_client r.route ≡ true
      → client_may s r.authorization ≡ false
      → ((serve conf back iss http now r s).0
          ≡ record s { response_cache = (serve conf back iss http now r s).0.response_cache })
        × ((serve conf back iss http now r s).1 ≡ [])
  unfolding serve
  serve-needs_client now r s n h =
      let i = (serve_route-client r.route now r s n h).0 in (i.kept, i.quiet)

  -- The routes of the frontend leave a session as it is, without the frontend's authorization.
  pub serve-needs_frontend :
      (now : ℕ) (r : HttpRequest) (s : SessionData)
      → needs_frontend r.route ≡ true
      → (r.authorization == s.frontend_auth) ≡ false
      → ((serve conf back iss http now r s).0 ≡ s) × ((serve conf back iss http now r s).1 ≡ [])
  unfolding serve
  serve-needs_frontend now r s n h = serve_route-frontend r.route now r s n h

  -- The session has a cached response for a request, at its present status.
  pub record Cached (now : ℕ) (r : HttpRequest) (s : SessionData) : Type 0 where
    pub same_endpoint : s.response_cache.endpoint ≡ r.path
    pub same_message : http.sha256 s.response_cache.message ≡ http.sha256 r.body
    pub same_status : s.response_cache.session_status ≡ s.status
    pub recent : now ≤ s.last_active + 10000000000
    pub has_status : 0 < s.response_cache.http_status
    pub has_response : (s.response_cache.response == "") ≡ false

  hit-Cached :
      (now : ℕ) (r : HttpRequest) (s : SessionData)
      → (hit now r.path r.body s ≡ true) ↔ Cached now r s
  unfolding hit check_cache
  hit-Cached now r s =
      let c = s.response_cache in
      let endpoints = string_eq.decides c.endpoint r.path in
      let messages = string_eq.decides (http.sha256 c.message) (http.sha256 r.body) in
      (
        λ h. record {
          same_endpoint = ground (arith, endpoints);
          same_message = ground (arith, messages);
          same_status = is_status_eq c.session_status s.status (ground arith);
          recent = ground arith;
          has_status = ground arith;
          has_response = ground arith;
        },
        λ k.
            let same : is_status c.session_status s.status ≡ true =
              rw k.same_status ((nat_eq.decides (rank s.status) (rank s.status)).1 refl) in
            let e = endpoints.1 k.same_endpoint in
            let m = messages.1 k.same_message in
            ground (arith, e, m, same, k.recent, k.has_status, k.has_response),
      )

  -- A request to a route of a connected client that has not its authorization, or that comes while the session
  -- is not connected, is answered with a cached response exactly when the cache has one for the same path, a
  -- body with the same hash and the present status of the session, and the session was active in the last ten
  -- seconds.
  pub serve-Cached_iff :
      (now : ℕ) (r : HttpRequest) (s : SessionData)
      → needs_client r.route ≡ true
      → client_may s r.authorization ≡ false
      → (is_cached ((serve conf back iss http now r s).2) ≡ true) ↔ Cached now r s
  unfolding serve
  serve-Cached_iff now r s n h =
      rw ((serve_route-client r.route now r s n h).1) (hit-Cached now r s)
