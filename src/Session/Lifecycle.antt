-- ===== src/Session/Lifecycle.antt =====
-- The handlers of server/irmaserver/handle.go advance a session, each on all of its branches.
use irmago.Prelude.{
  is_some, ◌≡◌, refl, sym, ap, ◌∙◌, inl, inr, ℕ, zero, suc, Bool, true, false, not, ◌&&◌, some, [],
  String, if◌then◌else◌, Bool-cases, Option-cases, ◌==◌, string_eq, nat_beq_iff, subst,
}
use irmago.Prelude.Outcome.{Outcome, ok, err, panic, Outcome-cases}
use irmago.Version.{ProtocolVersion, above}
use irmago.Request.Legacy.{LegacyError}
use irmago.Session.Types.{
  ServerStatus, initialized, pairing, connected, cancelled, done, timed_out, finished, is_status,
  rank, PairingMethod, unspecified, method_none, method_pin, unknown_method, SessionOptions,
  SessionRequest, SessionData, Config,
}
use irmago.Session.Steps.{
  Posted, set_status, mark_alive, empty_result, handle_delete, pairing_completed,
  update_frontend_options, update_pairing, updated,
}
use irmago.Session.Messages.{
  Backend, LegacyRequest, Reply, panic_reply, legacy, refuse, is_none_method,
}
use irmago.Session.Negotiation.{choose_protocol_version}
use irmago.Session.Connect.{
  handle_get_client_request, with_version, connect, connect_legacy, connect_with,
}
use irmago.Session.Status.{
  Move, stay, client_connects, client_pairs, pairing_completes, IsWellFormed, Advanced,
  Kept-advances, finished_once, set_status_advances, cancels, fail_advances, identity, negotiated,
}

of_rank : ℕ → ServerStatus
of_rank zero = initialized
of_rank (suc zero) = pairing
of_rank (suc (suc zero)) = connected
of_rank (suc (suc (suc zero))) = cancelled
of_rank (suc (suc (suc (suc zero)))) = done
of_rank _ = timed_out

of_rank-rank : (a : ServerStatus) → of_rank (rank a) ≡ a
unfolding of_rank
of_rank-rank initialized = refl
of_rank-rank pairing = refl
of_rank-rank connected = refl
of_rank-rank cancelled = refl
of_rank-rank done = refl
of_rank-rank timed_out = refl

pub is_status_eq : (a b : ServerStatus) → is_status a b ≡ true → a ≡ b
is_status_eq a b h =
    sym (of_rank-rank a) ∙ (ap of_rank ((nat_beq_iff (rank a) (rank b)).0 h) ∙ of_rank-rank b)

updated-inj : {s t : SessionData} → updated s ≡ updated t → s ≡ t
updated-inj h = cc

some-inj {ℓ} : {A : Type ℓ} {a b : A} → some a ≡ some b → a ≡ b
some-inj h = cc

pub running_at : (a b : ServerStatus) → a ≡ b → finished b ≡ false → finished a ≡ false
running_at a b e h = ap finished e ∙ h

running_start : (s : SessionData) → s.status ≡ initialized → finished s.status ≡ false
unfolding finished
running_start s e = rw e refl

pub delete_advances :
    (conf : Config) (now : ℕ) (s : SessionData) (reply : Reply)
    → Advanced conf s ((handle_delete conf now s).0, (handle_delete conf now s).1, reply)
unfolding handle_delete mark_alive
delete_advances conf now s reply = elim (Bool-cases (finished s.status)) [
  | inl e ↦ rw e (Kept-advances conf s s reply refl)
  | inr e ↦ rw e (
      (let alive = mark_alive now s in
        set_status_advances conf s (record alive { result = empty_result alive }) cancelled reply
          refl (λ w. refl) (λ w. refl) (cancels s.status e) e (λ w h. cc) (λ h. cc)))
]

pub pairing_completed_advances :
    (conf : Config) (s t : SessionData) (p : Posted) (reply : Reply)
    → pairing_completed conf s ≡ some (t, p)
    → Advanced conf s (t, p, reply)
unfolding pairing_completed
pairing_completed_advances conf s t p reply h = elim (Bool-cases (is_status s.status pairing)) [
  | inl e ↦
      let at_pairing = is_status_eq s.status pairing e in
      let q : set_status conf connected s ≡ (t, p) = some-inj (sym (rw e refl) ∙ h) in
      subst (λ x. Advanced conf s (x.0, x.1, reply)) q
        (set_status_advances conf s s connected reply refl (λ w. w.token_agrees)
          (λ w. w.action_agrees) (rw at_pairing pairing_completes)
          (running_at s.status pairing at_pairing refl)
          (λ w h. w.has_version (ap negotiated at_pairing)) (λ h. cc))
  | inr e ↦ cc
]

-- Options change before a client connects.
options_advances :
    (conf : Config) (s : SessionData) (o : SessionOptions) (reply : Reply)
    → s.status ≡ initialized
    → Advanced conf s (record s { options = o }, [], reply)
options_advances conf s o reply e = record {
  same = refl;
  well_formed = λ w. record {
    status_agrees = w.status_agrees;
    token_agrees = w.token_agrees;
    action_agrees = w.action_agrees;
    has_version = w.has_version;
    has_pairing = λ h. cc (e, h);
  };
  move = stay;
  posts = rw (finished_once s.status) refl;
}

update_pairing_advances :
    (conf : Config) (m : PairingMethod) (code : String) (s t : SessionData) (reply : Reply)
    → s.status ≡ initialized
    → update_pairing m code s ≡ updated t
    → Advanced conf s (t, [], reply)
unfolding update_pairing
update_pairing_advances conf unspecified code s t reply e h =
    subst (λ x. Advanced conf s (x, [], reply)) (updated-inj h) (Kept-advances conf s s reply refl)
update_pairing_advances conf method_none code s t reply e h =
    subst (λ x. Advanced conf s (x, [], reply)) (updated-inj h) (options_advances conf s _ reply e)
update_pairing_advances conf method_pin code s t reply e h =
    subst (λ x. Advanced conf s (x, [], reply)) (updated-inj h) (options_advances conf s _ reply e)
update_pairing_advances conf (unknown_method k) code s t reply e h = cc

pub update_frontend_options_advances :
    (conf : Config) (m : PairingMethod) (code : String) (s t : SessionData) (reply : Reply)
    → update_frontend_options m code s ≡ updated t
    → Advanced conf s (t, [], reply)
unfolding update_frontend_options
update_frontend_options_advances conf m code s t reply h =
    elim (Bool-cases (is_status s.status initialized)) [
      | inl e ↦
          update_pairing_advances conf m code s t reply (is_status_eq s.status initialized e)
            (sym (rw e refl) ∙ h)
      | inr e ↦ cc
    ]

with_pairing : (n a : Bool) → (if not n && a then pairing else connected) ≡ pairing → n ≡ false
with_pairing true a h = cc
with_pairing false a h = refl

client_moves :
    (a : ServerStatus) (b : Bool) → a ≡ initialized → Move a (if b then pairing else connected)
client_moves a true e = rw e client_pairs
client_moves a false e = rw e client_connects

-- A session that the client may connect to, and what the handler has made of it.
record Connecting (s t : SessionData) : Type 0 where
  at_start : s.status ≡ initialized
  same : identity t ≡ identity s
  token : IsWellFormed s → t.result.token ≡ t.requestor_token
  action : IsWellFormed s → t.result.action ≡ t.action
  status : t.status ≡ s.status
  agrees : IsWellFormed s → t.result.status ≡ t.status

module _ (conf : Config) (back : Backend) where
  connect_with_advances :
      (old : Outcome LegacyError LegacyRequest) (v : ProtocolVersion) (r : SessionRequest)
      (s t : SessionData)
      → Connecting s t
      → t.version ≡ some v
      → Advanced conf s (connect_with conf back old v r t)
  unfolding connect_with
  connect_with_advances old v r s t c e =
      let n = is_none_method t.options.pairing_method in
      set_status_advances conf s _ _ _ c.same c.token c.action
        (client_moves s.status (not n && above v 2 7) c.at_start) (running_start s c.at_start)
        (λ _ _. ap is_some e) (with_pairing n (above v 2 7))

  Connecting-advances :
      (v : ProtocolVersion) (s t : SessionData) (reply : Reply)
      → Connecting s t
      → t.version ≡ some v
      → Advanced conf s (t, [], reply)
  Connecting-advances v s t reply c e =
      let st : t.status ≡ initialized = c.status ∙ c.at_start in
      record {
        same = c.same;
        well_formed = λ w. record {
          status_agrees = c.agrees w;
          token_agrees = c.token w;
          action_agrees = c.action w;
          has_version = λ _. ap is_some e;
          has_pairing = λ h. cc (st, h);
        };
        move = rw c.status stay;
        posts = rw (c.status, finished_once s.status) refl;
      }

  connect_advances :
      (old : Outcome LegacyError LegacyRequest) (v : ProtocolVersion) (r : SessionRequest)
      (s t : SessionData)
      → Connecting s t
      → t.version ≡ some v
      → Advanced conf s (connect_legacy conf back old v r t)
  unfolding connect_legacy
  connect_advances (ok l) v r s t c e = connect_with_advances (ok l) v r s t c e
  connect_advances (err f) v r s t c e = connect_with_advances (err f) v r s t c e
  connect_advances panic v r s t c e =
      Connecting-advances v s _ panic_reply
        (record {
          at_start = c.at_start;
          same = c.same;
          token = c.token;
          action = c.action;
          status = c.status;
          agrees = c.agrees;
        })
        e

  with_version_advances :
      (auth : String) (v : ProtocolVersion) (s t : SessionData)
      → Connecting s t
      → t.version ≡ some v
      → Advanced conf s (with_version conf back auth v t)
  unfolding with_version connect
  with_version_advances auth v s t c e =
      let running = running_start s c.at_start in
      let t' = record t { client_auth = auth } in
      let c' : Connecting s t' = record {
        at_start = c.at_start;
        same = c.same;
        token = c.token;
        action = c.action;
        status = c.status;
        agrees = c.agrees;
      } in
      elim (Bool-cases (auth == "" && above v 2 7)) [
        | inl q ↦ rw q (fail_advances conf s t _ _ c.same running)
        | inr q ↦ elim (Outcome-cases (back.set_revocation_updates t.rrequest.request)) [
          | inl (r, p) ↦ rw (q, p) (connect_advances (legacy r) v r s t' c' e)
          | inr (inl (f, p)) ↦ rw (q, p) (fail_advances conf s t' _ _ c.same running)
          | inr (inr p) ↦ rw (q, p) (Connecting-advances v s t' panic_reply c' e)
        ]
      ]

  pub get_client_request_advances :
      (now : ℕ) (min max : ProtocolVersion) (auth : String) (s : SessionData)
      → Advanced conf s (handle_get_client_request conf back now min max auth s)
  unfolding handle_get_client_request mark_alive refuse
  get_client_request_advances now min max auth s =
      elim (Bool-cases (is_status s.status initialized)) [
        | inr q ↦ rw q (Kept-advances conf s s _ refl)
        | inl q ↦
            let i = is_status_eq s.status initialized q in
            elim (Option-cases (choose_protocol_version conf s min max)) [
              | inl p ↦ rw (q, p) (fail_advances conf s _ _ _ refl (running_start s i))
              | inr (v, p) ↦
                  rw (q, p)
                    (with_version_advances auth v s _
                      (record {
                        at_start = i;
                        same = refl;
                        token = λ w. w.token_agrees;
                        action = λ w. w.action_agrees;
                        status = refl;
                        agrees = λ w. w.status_agrees;
                      })
                      refl)
            ]
      ]
