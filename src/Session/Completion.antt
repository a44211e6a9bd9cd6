-- ===== src/Session/Completion.antt =====
-- The responses of a client advance a session: handlePostDisclosure, handlePostSignature and
-- handlePostCommitments with the next session that may follow, all of server/irmaserver/handle.go.
use irmago.Prelude.{
  is_some, ◌≡◌, refl, sym, ap, ◌∙◌, inl, inr, ℕ, Bool, true, false, Option, none, some, [], String,
  arith, Option-cases, subst,
}
use irmago.Prelude.Outcome.{Outcome, ok, err, panic}
use irmago.Identifier.{identifier_eq}
use irmago.Session.Types.{
  connected, done, finished, Action, disclosing, signing, issuing, ServerError, SessionData, Config,
}
use irmago.Session.Steps.{Posted, mark_alive}
use irmago.Session.Messages.{
  Backend, Verified, missing_key, other, ServerSessionResponse, Reply, response_reply, refuse,
  Handled, fail_with,
}
use irmago.Session.Respond.{
  add_implicit, record_verified, handle_post_disclosure, handle_post_signature, start_next, finish,
  finish_with, handle_session_proofs, unparsed, proofs_handler,
}
use irmago.Session.Status.{
  session_completes, Kept, Advanced, Kept-advances, negotiated, set_status_advances, fail_advances,
  identity,
}

abbrev is_response : Reply → Bool
is_response (response_reply res) = true
is_response _ = false

-- A handler that has a response for the client with nothing else done yet, or that has ended.
pub data Ready (conf : Config) (s : SessionData) : Handled → Type 0 where
  ready :
      (t : SessionData) (res : ServerSessionResponse)
      → Kept s t
      → Ready conf s (t, [], response_reply res)
  ended :
      (t : SessionData) (posted : Posted) (reply : Reply)
      → is_response reply ≡ false
      → Advanced conf s (t, posted, reply)
      → Ready conf s (t, posted, reply)

pub connected_runs : (s : SessionData) → s.status ≡ connected → finished s.status ≡ false
unfolding finished
connected_runs s e = rw e refl

ok-inj {ℓ κ} : {E : Type ℓ} {A : Type κ} {a b : A} → (◌≡◌ {A = Outcome E A} (ok a) (ok b)) → a ≡ b
ok-inj h = cc

pub failed :
    (conf : Config) (s t : SessionData) (e : ServerError) (message : String)
    → identity t ≡ identity s
    → finished s.status ≡ false
    → Ready conf s (fail_with conf t e message)
unfolding fail_with
failed conf s t e message i r = ended _ _ _ refl (fail_advances conf s t e message i r)

module _ (conf : Config) (back : Backend) where
  start_next-Kept :
      (s t : SessionData) (res res' : ServerSessionResponse)
      → start_next conf back s res ≡ ok (t, res')
      → Kept s t
  unfolding start_next
  start_next-Kept s t res res' h = ground arith

  finish_other :
      (t : SessionData) (posted : Posted) (reply : Reply)
      → is_response reply ≡ false
      → finish conf back (t, posted, reply) ≡ (t, posted, reply)
  unfolding finish
  finish_other t posted (response_reply res) h = cc
  finish_other t posted reply h = refl

  completed :
      (s t : SessionData) (next : Outcome String (SessionData × ServerSessionResponse))
      → s.status ≡ connected
      → Kept s t
      → ((u : SessionData) (res : ServerSessionResponse) → next ≡ ok (u, res) → Kept t u)
      → Advanced conf s (finish_with conf back t [] next)
  unfolding finish_with
  completed s t (ok (u, res)) c k n =
      let k' : Kept s u = n u res refl ∙ k in
      let i = ap (λ x. x.identity) k' in
      set_status_advances conf s u done _ i
        (λ w. ap (λ x. x.result_token) k' ∙ (w.token_agrees ∙ sym (ap (λ x. x.requestor_token) i)))
        (λ w. ap (λ x. x.result_action) k' ∙ (w.action_agrees ∙ sym (ap (λ x. x.action) i)))
        (rw c session_completes) (connected_runs s c)
        (λ w h. ap (λ x. is_some x.version) k' ∙ w.has_version (ap negotiated c)) (λ h. cc)
  completed s t (err e) c k n = Kept-advances conf s t _ k
  completed s t panic c k n = Kept-advances conf s t _ k

  pub finish-Ready :
      (s : SessionData) (h : Handled)
      → s.status ≡ connected
      → Ready conf s h
      → Advanced conf s (finish conf back h)
  unfolding finish
  finish-Ready s _ c (ready t res k) =
      completed s t (start_next conf back t res) c k (λ u res' e. start_next-Kept t u res res' e)
  finish-Ready s _ c (ended t posted reply f a) =
      subst (Advanced conf s) (sym (finish_other t posted reply f)) a

  record_verified-Ready :
      (a : Action) (v : Verified) (s t : SessionData)
      → s.status ≡ connected
      → Kept s t
      → Ready conf s (record_verified conf back a v t)
  unfolding record_verified
  record_verified-Ready a v s t c k =
      let i = ap (λ x. x.identity) k in
      elim (Option-cases v.failure) [
        | inl e ↦ rw e (ready _ _ k)
        | inr (missing_key, e) ↦ rw e (failed conf s _ _ _ i (connected_runs s c))
        | inr (other m, e) ↦ rw e (failed conf s _ _ _ i (connected_runs s c))
      ]

  disclosure-Ready :
      (now : ℕ) (body : String) (s : SessionData)
      → s.status ≡ connected
      → Ready conf s (handle_post_disclosure conf back now body s)
  unfolding handle_post_disclosure mark_alive add_implicit
  disclosure-Ready now body s c =
      let t = add_implicit (mark_alive now s) in
      record_verified-Ready disclosing (back.verify t.rrequest.request body) s t c refl

  signature-Ready :
      (now : ℕ) (body : String) (s : SessionData)
      → s.status ≡ connected
      → Ready conf s (handle_post_signature conf back now body s)
  unfolding handle_post_signature mark_alive add_implicit
  signature-Ready now body s c =
      let alive = mark_alive now s in
      let t =
        add_implicit (record alive { result = record (alive.result) { signature = some body } }) in
      record_verified-Ready signing (back.verify t.rrequest.request body) s t c refl

  proofs_handler_advances :
      (a : Action) (now : ℕ) (body : String) (s : SessionData)
      → s.status ≡ connected
      → Advanced conf s (proofs_handler conf back a now body s)
  unfolding proofs_handler refuse
  proofs_handler_advances disclosing now body s c =
      finish-Ready s (handle_post_disclosure conf back now body s) c (disclosure-Ready now body s c)
  proofs_handler_advances signing now body s c =
      finish-Ready s (handle_post_signature conf back now body s) c (signature-Ready now body s c)
  proofs_handler_advances issuing now body s c = Kept-advances conf s s _ refl

  unparsed_advances : (a : Action) (s : SessionData) → Advanced conf s (unparsed conf back a s)
  unfolding unparsed refuse
  unparsed_advances issuing s = Kept-advances conf s s _ refl
  unparsed_advances _ s = Kept-advances conf s s _ refl

  pub session_proofs_advances :
      (now : ℕ) (body : Option String) (s : SessionData)
      → s.status ≡ connected
      → Advanced conf s (handle_session_proofs conf back now body s)
  unfolding handle_session_proofs
  session_proofs_advances now (some body) s c = proofs_handler_advances s.action now body s c
  session_proofs_advances now none s c = unparsed_advances s.action s
