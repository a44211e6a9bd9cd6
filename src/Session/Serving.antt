-- ===== src/Session/Serving.antt =====
-- Every request of the client and of the frontend advances its session: the routes and the middlewares of
-- server/irmaserver.
use irmago.Prelude.{
  ◌≡◌, refl, sym, ap, inl, inr, ℕ, not, ◌&&◌, Option, none, some, [], String, ◌==◌, nat_eq,
  string_eq, ltb, arith, Bool-cases, Option-cases, subst,
}
use irmago.Version.{ProtocolVersion, below}
use irmago.Session.Types.{pairing, connected, is_status, PairingMethod, SessionData, Config}
use irmago.Session.Steps.{
  do_result_callback, update_frontend_options, OptionsResult, updated, rejected, pairing_completed,
}
use irmago.Session.Messages.{Backend, empty_reply, Handled, refuse}
use irmago.Session.Issuance.{Issuer}
use irmago.Session.Routes.{
  Route, HttpRequest, Http, deleted, options_reply_to, serve_route, delete_session, session_status,
  frontend_status, frontend_options, frontend_pairing_completed, get_session, get_session_request,
  post_commitments, post_proofs, pairing_middleware, frontend_middleware, request_for,
  handle_session_get_request, handle_frontend_pairing_completed, check_cache, record_output,
  cache_middleware, handle_session_get, is_panic, handle_session_commitments,
  handle_frontend_options_post, serve,
}
use irmago.Session.Status.{Kept, Advanced, Kept-advances, advances_after, core}
use irmago.Session.Lifecycle.{
  delete_advances, pairing_completed_advances, update_frontend_options_advances,
  get_client_request_advances, is_status_eq,
}
use irmago.Session.Completion.{session_proofs_advances}
use irmago.Session.Commitments.{commitments_advances}

refused : (conf : Config) (s : SessionData) (h : Handled) → h.0 ≡ s → h.1 ≡ [] → Advanced conf s h
refused conf s (t, p, r) e f =
    subst (λ x. Advanced conf s (t, x, r)) (sym f) (Kept-advances conf s t r (ap core e))

-- The middleware lets a request through only at the status connected.
paired_advances :
    (conf : Config) (auth : String) (next : SessionData → Handled) (s : SessionData)
    → (s.status ≡ connected → Advanced conf s (next s))
    → Advanced conf s (pairing_middleware auth next s)
unfolding pairing_middleware refuse
paired_advances conf auth next s a = elim (Bool-cases (is_status s.status pairing)) [
  | inl e ↦ rw e (Kept-advances conf s s _ refl)
  | inr e ↦ elim (Bool-cases (is_status s.status connected)) [
    | inr f ↦ rw (e, f) (Kept-advances conf s s _ refl)
    | inl f ↦ elim (Bool-cases (s.client_auth == auth)) [
      | inr g ↦ rw (e, f, g) (Kept-advances conf s s _ refl)
      | inl g ↦ rw (e, f, g) (a (is_status_eq s.status connected f))
    ]
  ]
]

frontend_advances :
    (conf : Config) (auth : String) (next : SessionData → Handled) (s : SessionData)
    → Advanced conf s (next s)
    → Advanced conf s (frontend_middleware auth next s)
unfolding frontend_middleware refuse
frontend_advances conf auth next s a = elim (Bool-cases (auth == s.frontend_auth)) [
  | inl e ↦ rw e a
  | inr e ↦ rw e (Kept-advances conf s s _ refl)
]

request_for_advances :
    (conf : Config) (v : Option ProtocolVersion) (s : SessionData)
    → Advanced conf s (request_for v s)
unfolding request_for refuse
request_for_advances conf none s = Kept-advances conf s s _ refl
request_for_advances conf (some v) s = elim (Bool-cases (below v 2 8)) [
  | inl f ↦ rw f (Kept-advances conf s s _ refl)
  | inr f ↦ rw f (Kept-advances conf s s _ refl)
]

get_session_request_advances :
    (conf : Config) (s : SessionData) → Advanced conf s (handle_session_get_request s)
unfolding handle_session_get_request
get_session_request_advances conf s = request_for_advances conf s.version s

frontend_pairing_completed_advances :
    (conf : Config) (s : SessionData) → Advanced conf s (handle_frontend_pairing_completed conf s)
unfolding handle_frontend_pairing_completed refuse
frontend_pairing_completed_advances conf s = elim (Option-cases (pairing_completed conf s)) [
  | inl e ↦ rw e (Kept-advances conf s s _ refl)
  | inr ((t, p), e) ↦ rw e (pairing_completed_advances conf s t p empty_reply e)
]

module _ (conf : Config) (back : Backend) (iss : Issuer) (http : Http) where
  record_output_advances :
      (endpoint message : String) (s : SessionData) (h : Handled)
      → Advanced conf s h
      → Advanced conf s (record_output conf back iss http endpoint message h)
  unfolding record_output do_result_callback
  record_output_advances endpoint message s (t, posted, reply) a =
      elim (Bool-cases (is_panic reply)) [
        | inl e ↦ rw e a
        | inr e ↦ rw e (record {
          same = a.same;
          well_formed = λ w.
              (let x = a.well_formed w in
                record {
                  status_agrees = x.status_agrees;
                  token_agrees = x.token_agrees;
                  action_agrees = x.action_agrees;
                  has_version = x.has_version;
                  has_pairing = x.has_pairing;
                });
          move = a.move;
          posts = a.posts;
        })
      ]

  pub check_cache-Kept :
      (now : ℕ) (endpoint message : String) (s : SessionData)
      → Kept s ((check_cache conf back iss http now endpoint message s).0)
        × ((check_cache conf back iss http now endpoint message s).0.version ≡ s.version)
  unfolding check_cache
  check_cache-Kept now endpoint message s = ground arith

  cached_advances :
      (now : ℕ) (endpoint message : String) (next : SessionData → Handled) (s : SessionData)
      → ((t : SessionData) → Advanced conf t (next t))
      → Advanced conf s (cache_middleware conf back iss http now endpoint message next s)
  unfolding cache_middleware
  cached_advances now endpoint message next s a =
      let (t, c) = check_cache conf back iss http now endpoint message s in
      let (k, _) = check_cache-Kept now endpoint message s in
      elim (Bool-cases (ltb 0 (c.0) && not (c.1 == ""))) [
        | inl e ↦ rw e (Kept-advances conf s t _ k)
        | inr e ↦ rw e (
            record_output_advances endpoint message s (next t)
              (advances_after conf s t (next t) k (a t)))
      ]

  options_reply_advances :
      (m : PairingMethod) (code : String) (s : SessionData) (o : OptionsResult)
      → update_frontend_options m code s ≡ o
      → Advanced conf s (options_reply_to conf back iss http o s)
  unfolding options_reply_to refuse
  options_reply_advances m code s (updated t) h =
      update_frontend_options_advances conf m code s t _ h
  options_reply_advances m code s (rejected e) h = Kept-advances conf s s _ refl

  options_post_advances :
      (r : HttpRequest) (s : SessionData)
      → Advanced conf s (handle_frontend_options_post conf back iss http r s)
  unfolding handle_frontend_options_post refuse
  options_post_advances r s = elim (Option-cases (http.parse_options r.body)) [
    | inl e ↦ rw e (Kept-advances conf s s _ refl)
    | inr (m, e) ↦ rw e (
        options_reply_advances m r.pairing_code s (update_frontend_options m r.pairing_code s) refl)
  ]

  session_get_advances :
      (now : ℕ) (r : HttpRequest) (s : SessionData)
      → Advanced conf s (handle_session_get conf back iss http now r s)
  unfolding handle_session_get refuse
  session_get_advances now r s = elim (Option-cases r.versions) [
    | inl e ↦ rw e (Kept-advances conf s s _ refl)
    | inr (v, e) ↦ rw e (get_client_request_advances conf back now (v.0) (v.1) r.authorization s)
  ]

  session_commitments_advances :
      (now : ℕ) (body : String) (s : SessionData)
      → s.status ≡ connected
      → Advanced conf s (handle_session_commitments conf back iss http now body s)
  unfolding handle_session_commitments refuse
  session_commitments_advances now body s c = elim (Option-cases (http.parse_commitments body)) [
    | inl e ↦ rw e (Kept-advances conf s s _ refl)
    | inr (m, e) ↦ rw e (commitments_advances conf iss now m s back c)
  ]

  serve_route_advances :
      (route : Route) (now : ℕ) (r : HttpRequest) (s : SessionData)
      → Advanced conf s (serve_route conf back iss http route now r s)
  unfolding serve_route deleted
  serve_route_advances delete_session now r s = delete_advances conf now s empty_reply
  serve_route_advances session_status now r s = Kept-advances conf s s _ refl
  serve_route_advances frontend_status now r s =
      frontend_advances conf r.authorization _ s (Kept-advances conf s s _ refl)
  serve_route_advances frontend_options now r s =
      frontend_advances conf r.authorization _ s (options_post_advances r s)
  serve_route_advances frontend_pairing_completed now r s =
      frontend_advances conf r.authorization _ s (frontend_pairing_completed_advances conf s)
  serve_route_advances get_session now r s =
      cached_advances now r.path r.body _ s (session_get_advances now r)
  serve_route_advances get_session_request now r s =
      cached_advances now r.path r.body _ s
        (λ t. paired_advances conf r.authorization _ t (λ c. get_session_request_advances conf t))
  serve_route_advances post_commitments now r s =
      cached_advances now r.path r.body _ s
        (λ t. paired_advances conf r.authorization _ t (session_commitments_advances now r.body t))
  serve_route_advances post_proofs now r s = cached_advances now r.path r.body _ s (λ t.
      paired_advances conf r.authorization _ t
        (session_proofs_advances conf back now (http.parse_proofs r.body) t))

  -- Every request keeps the identity of its session and the invariant, and moves its status along the
  -- protocol; the result is posted in the step that finishes the session, and in no other.
  pub serve_advances :
      (now : ℕ) (r : HttpRequest) (s : SessionData)
      → Advanced conf s (serve conf back iss http now r s)
  unfolding serve
  serve_advances now r s = serve_route_advances r.route now r s
