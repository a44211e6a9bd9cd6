-- ===== src/Session/Once.antt =====
-- How often the result of a session is posted, when its requests run in transactions of the memory store of
-- server/irmaserver/sessions.go, one after the other.
use irmago.Prelude.{
  ◌≡◌, refl, sym, ap, ◌∙◌, ℕ, ◌+◌, ◌≤◌, Bool, true, false, not, ◌&&◌, ◌||◌, none, List, [], ◌∷◌,
  ◌++◌, String, string_eq, nat_eq, ◌==◌, if_some, if◌then◌else◌, length, length-append, arith, inl,
  inr, Bool-cases, Option-cases,
}
use irmago.Prelude.Int.{is_nonpos}
use irmago.Prelude.Map.{lookup}
use irmago.Session.Types.{timed_out, finished, SessionData, Config}
use irmago.Session.Steps.{Posted, do_result_callback, set_status, timeout}
use irmago.Session.Messages.{Backend, refuse}
use irmago.Session.Issuance.{Issuer}
use irmago.Session.Routes.{HttpRequest, Http, serve, is_panic, session_middleware}
use irmago.Session.Store.{Cell, Store, begun, check_timeout}
use irmago.Session.Server.{serve_client}
use irmago.Session.Callbacks.{finished_stays, one_callback, not_again}
use irmago.Session.Serving.{serve_advances}
use irmago.Session.Transactions.{
  stored, stored_contents, serve_client-Transacted, serve_client-unknown,
}

-- 1 for a session that is not finished.
abbrev pub unfinished : SessionData → ℕ
unfinished x = if finished x.status then 0 else 1

abbrev pub count : Bool → ℕ
count b = if b then 1 else 0

-- 1 if the store has a session for the client token that is not finished.
unfoldable pub stored_unfinished : String → Store → ℕ
unfolding stored
stored_unfinished token s = if_some (stored token s) 0 unfinished

-- The session has timed out, which the store finds at each transaction.
abbrev pub is_expired : Config → ℕ → SessionData → Bool
is_expired conf now x = not (finished x.status) && is_nonpos (timeout conf now x)

unfoldable pub finds_expired : Config → ℕ → String → Store → Bool
unfolding stored
finds_expired conf now token s = if_some (stored token s) false (is_expired conf now)

-- A handler that ran: `b` and `was` say whether the session is finished after and before it, `panics` and
-- `same` why it may not be stored.
step_bound :
    (b was panics same : Bool) (p : Posted)
    → length p ≤ 1
    → (was ≡ true → b ≡ true)
    → (same ≡ true → b ≡ was)
    → length (if b && not was then p else [])
        + (if (if not panics && not same then b else was) then 0 else 1)
      ≤ (if was then 0 else 1) + count panics
step_bound true true panics same p one stays equal = ground arith
step_bound false true panics same p one stays equal = cc (stays refl)
step_bound true false panics true p one stays equal = cc (equal refl)
step_bound true false panics false p one stays equal = ground arith
step_bound false false panics same p one stays equal = ground arith

finished_if :
    (u : Bool) (y x : SessionData)
    → unfinished (if u then y else x)
      ≡ (if (if u then finished y.status else finished x.status) then 0 else 1)
finished_if true y x = refl
finished_if false y x = refl

timed_out_finished :
    (conf : Config) (x : SessionData) → finished (set_status conf timed_out x).0.status ≡ true
unfolding set_status finished
timed_out_finished conf x = refl

timed_out_callback :
    (conf : Config) (x : SessionData) → length ((set_status conf timed_out x).1) ≤ 1
unfolding set_status finished
timed_out_callback conf x = one_callback conf (set_status conf timed_out x).0

-- A transaction on a session that has timed out, whether its handler's session `y` is stored or not.
expired_bound :
    (x y : SessionData) (p q : Posted) (u : Bool)
    → length p ≤ 1
    → q ≡ []
    → finished y.status ≡ true
    → length (p ++ q) + unfinished (if u then y else x) ≤ unfinished x + 1
expired_bound x y p q true one quiet f =
    rw (f, quiet) (omega (arith, length-append {A = _} p [], one))
expired_bound x y p q false one quiet f = rw quiet (omega (arith, length-append {A = _} p [], one))

module _ (conf : Config) (back : Backend) (iss : Issuer) (http : Http) where
  -- The requests with a client token one after the other: the store, the callbacks that they post, and how
  -- many of them found a session that had timed out or panicked.
  unfoldable pub serve_clients : String → List (ℕ × HttpRequest) → Store → Store × Posted × ℕ
  unfolding finds_expired
  serve_clients token [] s = (s, [], 0)
  serve_clients token ((now, r) ∷ rs) s =
      let (t, posted, reply) = serve_client conf back iss http now token r s in
      let (u, more, lost) = serve_clients token rs t in
      (u, posted ++ more, count (finds_expired conf now token s || is_panic reply) + lost)

  -- A handler on a finished session posts nothing, and leaves it finished.
  middleware-finished :
      (now : ℕ) (r : HttpRequest) (x : SessionData)
      → finished x.status ≡ true
      → let m = session_middleware conf back iss http now r x in
        (m.0.1 ≡ []) × (finished m.0.0.status ≡ true)
  unfolding session_middleware refuse
  middleware-finished now r x f =
      let a = serve_advances conf back iss http now r x in
      let host = x.rrequest.request.host in
      let quiet =
        a.posts
        ∙ not_again (finished (serve conf back iss http now r x).0.status) (finished x.status) f
            _ in
      let still = ap finished (finished_stays x.status _ a.move f) ∙ f in
      elim (Bool-cases (not (host == "") && not (host == r.host))) [
        | inl e ↦ rw e (refl, f)
        | inr e ↦ rw e (quiet, still)
      ]

  middleware-posts :
      ((x y : SessionData) → http.hash x ≡ http.hash y → x.status ≡ y.status)
      → (now : ℕ) (r : HttpRequest) (x : SessionData)
      → let m = session_middleware conf back iss http now r x in
        length (m.0.1) + unfinished (if m.1 then m.0.0 else x)
        ≤ unfinished x + count (is_panic (m.0.2))
  unfolding session_middleware refuse
  middleware-posts distinct now r x =
      let (y, q, reply) = serve conf back iss http now r x in
      let a = serve_advances conf back iss http now r x in
      let host = x.rrequest.request.host in
      let same = http.hash x == http.hash y in
      let stays : finished x.status ≡ true → finished y.status ≡ true =
        λ f. ap finished (finished_stays x.status y.status a.move f) ∙ f in
      let equal : same ≡ true → finished y.status ≡ finished x.status = λ e.
        ap finished (sym (distinct x y ((string_eq.decides (http.hash x) (http.hash y)).0 e))) in
      let bound =
        step_bound (finished y.status) (finished x.status) (is_panic reply) same
          (do_result_callback conf y) (one_callback conf y) stays equal in
      elim (Bool-cases (not (host == "") && not (host == r.host))) [
        | inl e ↦ rw e (omega arith)
        | inr e ↦ rw (e, finished_if (not (is_panic reply) && not same) y x, a.posts) bound
      ]

  -- The bound for one transaction.
  transacted_posts :
      ((x y : SessionData) → http.hash x ≡ http.hash y → x.status ≡ y.status)
      → (now a : ℕ) (r : HttpRequest) (c : Cell)
      → let b = begun conf now a c in
        let m = session_middleware conf back iss http now r b.session in
        length (b.posted ++ m.0.1) + unfinished (if m.1 then m.0.0 else c.contents)
        ≤ unfinished c.contents + count (is_expired conf now c.contents || is_panic (m.0.2))
  unfolding begun check_timeout
  transacted_posts distinct now a r c = elim (Bool-cases (is_expired conf now c.contents)) [
    | inr e ↦ rw e (middleware-posts distinct now r c.contents)
    | inl e ↦
        let x = (set_status conf timed_out c.contents).0 in
        let (quiet, still) = middleware-finished now r x (timed_out_finished conf c.contents) in
        rw e (
          expired_bound c.contents _ _ _ (session_middleware conf back iss http now r x).1
            (timed_out_callback conf c.contents) quiet still)
  ]

  -- A request that finds no session posts nothing and stores nothing.
  served_nothing :
      (now : ℕ) (token : String) (r : HttpRequest) (s : Store)
      → stored token s ≡ none
      → (n : ℕ)
      → let h = serve_client conf back iss http now token r s in
        length (h.1) + stored_unfinished token (h.0) ≤ stored_unfinished token s + n
  served_nothing now token r s e n =
      let (same, quiet) = serve_client-unknown conf back iss http now token r s e in
      rw (same, quiet) (omega arith)

  -- Each callback that a request posts finishes the stored session, unless the request found it timed out or
  -- panicked.
  serve_client-posts :
      ((x y : SessionData) → http.hash x ≡ http.hash y → x.status ≡ y.status)
      → (now : ℕ) (token : String) (r : HttpRequest) (s : Store)
      → let h = serve_client conf back iss http now token r s in
        length (h.1) + stored_unfinished token (h.0)
        ≤ stored_unfinished token s + count (finds_expired conf now token s || is_panic (h.2))
  unfolding stored_unfinished finds_expired
  serve_client-posts distinct now token r s = elim (Option-cases (lookup token s.client)) [
    | inl e ↦ served_nothing now token r s (unfold stored in rw e refl) _
    | inr (a, e) ↦ elim (Option-cases (lookup a s.heap)) [
      | inl f ↦ served_nothing now token r s (unfold stored in rw (e, f) refl) _
      | inr (c, f) ↦
          let t = serve_client-Transacted conf back iss http now a token r s c e f in
          let was = stored_contents token s a c e f in
          rw (t.served, was, t.contents, t.panicked) (transacted_posts distinct now a r c)
    ]
  ]

  -- Over any sequence of requests that run in transactions of the store one after the other, each callback
  -- that is posted finishes the stored session, but for one at each request that found the session timed out
  -- or panicked: the number of callbacks is at most the number of those requests, and one more if the session
  -- was not finished before and is finished after. The hash of a session is taken to tell statuses apart.
  pub serve_clients-posts :
      ((x y : SessionData) → http.hash x ≡ http.hash y → x.status ≡ y.status)
      → (token : String) (rs : List (ℕ × HttpRequest)) (s : Store)
      → let h = serve_clients token rs s in
        length (h.1) + stored_unfinished token (h.0) ≤ stored_unfinished token s + h.2
  unfolding serve_clients
  serve_clients-posts distinct token [] s = omega arith
  serve_clients-posts distinct token ((now, r) ∷ rs) s =
      let (t, posted, reply) = serve_client conf back iss http now token r s in
      let first = serve_client-posts distinct now token r s in
      let (u, more, lost) = serve_clients token rs t in
      let rest = serve_clients-posts distinct token rs t in
      omega (arith, first, rest, length-append posted more)
