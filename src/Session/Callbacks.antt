-- ===== src/Session/Callbacks.antt =====
-- What follows for whole sessions from the steps of their requests: the order of the statuses, the invariant,
-- and that nothing follows once they are finished.
use irmago.Prelude.{
  ◌≡◌, refl, ap, ◌∙◌, ℕ, ◌≤◌, Bool, true, false, not, ◌&&◌, List, [], ◌∷◌, ◌++◌, string_eq,
  if◌then◌else◌, length, arith,
}
use irmago.Session.Types.{ServerStatus, finished, SessionData, Config}
use irmago.Session.Steps.{Posted, do_result_callback, do_result_callback_to}
use irmago.Session.Messages.{Backend}
use irmago.Session.Issuance.{Issuer}
use irmago.Session.Routes.{HttpRequest, Http, serve}
use irmago.Session.Status.{
  Move, stay, client_connects, client_pairs, pairing_completes, session_completes,
  initialized_cancels, pairing_cancels, connected_cancels, IsWellFormed, identity,
}
use irmago.Session.Serving.{serve_advances}

pub finished_stays : (a b : ServerStatus) → Move a b → finished a ≡ true → b ≡ a
unfolding finished
finished_stays a _ stay h = refl
finished_stays _ _ client_connects h = cc
finished_stays _ _ client_pairs h = cc
finished_stays _ _ pairing_completes h = cc
finished_stays _ _ session_completes h = cc
finished_stays _ _ initialized_cancels h = cc
finished_stays _ _ pairing_cancels h = cc
finished_stays _ _ connected_cancels h = cc

pub one_callback : (conf : Config) (s : SessionData) → length (do_result_callback conf s) ≤ 1
unfolding do_result_callback do_result_callback_to
one_callback conf s = ground arith

pub not_again : (b was : Bool) → was ≡ true → (p : Posted) → (if b && not was then p else []) ≡ []
not_again true true h p = refl
not_again false true h p = refl
not_again b false h p = cc

module _ (conf : Config) (back : Backend) (iss : Issuer) (http : Http) where
  -- Each request moves the status of its session along the protocol: it stays, a client connects or starts
  -- pairing, pairing completes, a connected session completes, or an unfinished session is cancelled.
  pub serve_moves :
      (now : ℕ) (r : HttpRequest) (s : SessionData)
      → Move s.status (serve conf back iss http now r s).0.status
  serve_moves now r s = let a = serve_advances conf back iss http now r s in a.move

  -- Each request keeps the invariant of its session: the result agrees with the session on status, token and
  -- action, a version is present from pairing or connecting on, and only a session with a pairing method is
  -- being paired. It keeps the tokens, the action and the frontend's authorization too.
  pub serve-IsWellFormed :
      (now : ℕ) (r : HttpRequest) (s : SessionData)
      → IsWellFormed s
      → IsWellFormed ((serve conf back iss http now r s).0)
        × (identity ((serve conf back iss http now r s).0) ≡ identity s)
  serve-IsWellFormed now r s w =
      let a = serve_advances conf back iss http now r s in (a.well_formed w, a.same)

  -- The handlers of requests one after the other on a session in memory, with the callbacks that they post.
  -- The transactions around them, which check the timeout and store nothing after a panic, are left out.
  unfoldable pub serve_all : List (ℕ × HttpRequest) → SessionData → SessionData × Posted
  serve_all [] s = (s, [])
  serve_all (r ∷ rs) s =
      let (t, posted, _) = serve conf back iss http (r.0) (r.1) s in
      let (u, more) = serve_all rs t in (u, posted ++ more)

  -- A session that is finished keeps its status whatever requests follow, and none of them posts its result.
  pub serve_all-finished :
      (rs : List (ℕ × HttpRequest)) (s : SessionData)
      → finished s.status ≡ true
      → ((serve_all rs s).0.status ≡ s.status) × ((serve_all rs s).1 ≡ [])
  unfolding serve_all
  serve_all-finished [] s f = (refl, refl)
  serve_all-finished ((now, r) ∷ rs) s f =
      let h = serve conf back iss http now r s in
      let a = serve_advances conf back iss http now r s in
      let st = finished_stays s.status h.0.status a.move f in
      let f' : finished h.0.status ≡ true = ap finished st ∙ f in
      let (e, p) = serve_all-finished rs (h.0) f' in
      let none_now : h.1 ≡ [] = a.posts ∙ not_again (finished h.0.status) (finished s.status) f _ in
      (e ∙ st, rw (none_now, p) refl)
