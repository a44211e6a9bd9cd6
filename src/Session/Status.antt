-- ===== src/Session/Status.antt =====
-- How a session advances: the moves between statuses, the invariant of a session, and what one step of a
-- handler of server/irmaserver keeps.
use irmago.Prelude.{
  is_some, ◌≡◌, refl, sym, ap, ◌∙◌, Bool, true, false, not, ◌&&◌, Option, some, [], String,
  if◌then◌else◌,
}
use irmago.Version.{ProtocolVersion}
use irmago.Request.{AttributeConDisCon}
use irmago.Session.Types.{
  ServerStatus, initialized, pairing, connected, cancelled, done, timed_out, finished, Action,
  PairingMethod, ServerError, SessionData, Config,
}
use irmago.Session.Steps.{Posted, do_result_callback, set_status, empty_result, fail}
use irmago.Session.Messages.{Reply, Handled, fail_with, is_none_method}

-- The moves that a request of the client or the frontend makes.
pub data Move : ServerStatus → ServerStatus → Type 0 where
  stay : {a : ServerStatus} → Move a a
  client_connects : Move initialized connected
  client_pairs : Move initialized pairing
  pairing_completes : Move pairing connected
  session_completes : Move connected done
  initialized_cancels : Move initialized cancelled
  pairing_cancels : Move pairing cancelled
  connected_cancels : Move connected cancelled

-- The statuses of a session whose protocol version has been negotiated.
abbrev pub negotiated : ServerStatus → Bool
negotiated pairing = true
negotiated connected = true
negotiated done = true
negotiated _ = false

-- A session whose parts agree.
pub record IsWellFormed (s : SessionData) : Type 0 where
  pub status_agrees : s.result.status ≡ s.status
  pub token_agrees : s.result.token ≡ s.requestor_token
  pub action_agrees : s.result.action ≡ s.action
  pub has_version : negotiated s.status ≡ true → is_some s.version ≡ true
  pub has_pairing : s.status ≡ pairing → is_none_method s.options.pairing_method ≡ false

-- What never changes about a session.
pub record Identity : Type 0 where
  pub requestor_token : String
  pub client_token : String
  pub action : Action
  pub frontend_auth : String
  pub implicit_disclosure : AttributeConDisCon

abbrev pub identity : SessionData → Identity
identity s = record {
  requestor_token = s.requestor_token;
  client_token = s.client_token;
  action = s.action;
  frontend_auth = s.frontend_auth;
  implicit_disclosure = s.implicit_disclosure;
}

-- What the invariant reads.
pub record Core : Type 0 where
  pub identity : Identity
  pub status : ServerStatus
  pub result_status : ServerStatus
  pub result_token : String
  pub result_action : Action
  pub version : Option ProtocolVersion
  pub pairing_method : PairingMethod

abbrev pub core : SessionData → Core
core s = record {
  identity = identity s;
  status = s.status;
  result_status = s.result.status;
  result_token = s.result.token;
  result_action = s.result.action;
  version = s.version;
  pairing_method = s.options.pairing_method;
}

abbrev pub Kept : SessionData → SessionData → Type 0
Kept s t = core t ≡ core s

-- One step of a handler: the session keeps its identity and the invariant, its status makes a move, and the
-- result is posted in the step that finishes the session and in no other.
pub record Advanced (conf : Config) (s : SessionData) (h : Handled) : Type 0 where
  pub same : identity (h.0) ≡ identity s
  pub well_formed : IsWellFormed s → IsWellFormed (h.0)
  pub move : Move s.status h.0.status
  pub posts : h.1 ≡ (
      if finished h.0.status && not (finished s.status) then do_result_callback conf (h.0) else [])

pub finished_once : (a : ServerStatus) → (finished a && not (finished a)) ≡ false
unfolding finished
finished_once initialized = refl
finished_once pairing = refl
finished_once connected = refl
finished_once cancelled = refl
finished_once done = refl
finished_once timed_out = refl

posts_if :
    (b was : Bool) (p : Posted)
    → was ≡ false
    → (if b then p else []) ≡ (if b && not was then p else [])
posts_if true was p h = rw h refl
posts_if false was p h = refl

pub Kept-IsWellFormed : (s t : SessionData) → Kept s t → IsWellFormed s → IsWellFormed t
Kept-IsWellFormed s t k w =
    let st : t.status ≡ s.status = ap (λ c. c.status) k in
    record {
      status_agrees = ap (λ c. c.result_status) k ∙ (w.status_agrees ∙ sym st);
      token_agrees =
          ap (λ c. c.result_token) k
          ∙ (w.token_agrees ∙ sym (ap (λ c. c.identity.requestor_token) k));
      action_agrees =
          ap (λ c. c.result_action) k ∙ (w.action_agrees ∙ sym (ap (λ c. c.identity.action) k));
      has_version = λ h. ap (λ c. is_some c.version) k ∙ w.has_version (ap negotiated (sym st) ∙ h);
      has_pairing = λ h. ap (λ c. is_none_method c.pairing_method) k ∙ w.has_pairing (sym st ∙ h);
    }

-- A handler that changes nothing that matters.
pub Kept-advances :
    (conf : Config) (s t : SessionData) (reply : Reply) → Kept s t → Advanced conf s (t, [], reply)
Kept-advances conf s t reply k =
    let st : t.status ≡ s.status = ap (λ c. c.status) k in
    record {
      same = ap (λ c. c.identity) k;
      well_formed = Kept-IsWellFormed s t k;
      move = rw st stay;
      posts = rw (st, finished_once s.status) refl;
    }

-- setStatus after changes that keep what the invariant reads, where the new status has what it needs.
pub set_status_advances :
    (conf : Config) (s t : SessionData) (status : ServerStatus) (reply : Reply)
    → identity t ≡ identity s
    → (IsWellFormed s → t.result.token ≡ t.requestor_token)
    → (IsWellFormed s → t.result.action ≡ t.action)
    → Move s.status status
    → finished s.status ≡ false
    → (IsWellFormed s → negotiated status ≡ true → is_some t.version ≡ true)
    → (status ≡ pairing → is_none_method t.options.pairing_method ≡ false)
    → Advanced conf s ((set_status conf status t).0, (set_status conf status t).1, reply)
unfolding set_status
set_status_advances conf s t status reply i k a m running version paired = record {
  same = i;
  well_formed = λ w. record {
    status_agrees = refl;
    token_agrees = k w;
    action_agrees = a w;
    has_version = version w;
    has_pairing = paired;
  };
  move = m;
  posts = posts_if (finished status) (finished s.status) _ running;
}

pub cancels : (a : ServerStatus) → finished a ≡ false → Move a cancelled
unfolding finished
cancels initialized h = initialized_cancels
cancels pairing h = pairing_cancels
cancels connected h = connected_cancels
cancels cancelled h = cc
cancels done h = cc
cancels timed_out h = cc

-- A handler that fails the session.
pub fail_advances :
    (conf : Config) (s t : SessionData) (e : ServerError) (message : String)
    → identity t ≡ identity s
    → finished s.status ≡ false
    → Advanced conf s (fail_with conf t e message)
unfolding fail_with fail
fail_advances conf s t e message i running =
    set_status_advances conf s
      (record t {
        result = record (empty_result t) {
          failure = some (record { error = e; message = message });
        };
      })
      cancelled _ i (λ w. refl) (λ w. refl) (cancels s.status running) running (λ w h. cc) (λ h. cc)

-- A middleware that changes the session before a handler.
pub advances_after :
    (conf : Config) (s t : SessionData) (h : Handled)
    → Kept s t
    → Advanced conf t h
    → Advanced conf s h
advances_after conf s t h k a =
    let st : s.status ≡ t.status = sym (ap (λ c. c.status) k) in
    record {
      same = a.same ∙ ap (λ c. c.identity) k;
      well_formed = λ w. a.well_formed (Kept-IsWellFormed s t k w);
      move = rw st a.move;
      posts = rw st a.posts;
    }
