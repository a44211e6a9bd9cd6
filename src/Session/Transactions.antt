-- ===== src/Session/Transactions.antt =====
-- The transaction that sessionMiddleware of server/irmaserver/helpers.go runs on the memory store: what one
-- request posts and leaves in the store, while no other routine runs.
use irmago.Prelude.{
  ◌≡◌, ◌≢◌, refl, sym, ap, ◌∙◌, ℕ, suc, Bool, true, false, not, ◌&&◌, Option, none, some, [], ◌++◌,
  String, string_eq, nat_eq, ◌==◌, if_some, if◌then◌else◌, inl, inr, Bool-cases, Option-cases,
  beq_refl,
}
use irmago.Prelude.Map.{lookup, insert, lookup-insert}
use irmago.Prelude.Outcome.{ok, err, panic}
use irmago.Session.Types.{SessionData, Config}
use irmago.Session.Steps.{Posted}
use irmago.Session.Messages.{Backend, Reply, panic_reply, refuse}
use irmago.Session.Issuance.{Issuer}
use irmago.Session.Routes.{HttpRequest, Http, is_panic, session_middleware}
use irmago.Session.Store.{
  Cell, Store, Begun, Handler, begun, begin_client_transaction, commit, run, client_transaction,
  unknown_session, store_update,
}
use irmago.Session.Server.{serve_client, client_handler, answer_to_client}

-- The session that the store has for a client token.
unfoldable pub stored : String → Store → Option SessionData
stored token s =
    if_some (lookup token s.client) none
      (λ a. if_some (lookup a s.heap) none (λ c. some c.contents))

-- The three ends of a transaction, with what the handler returns.
module _ {R : Type 0} (b : Begun) (handler : Handler R) (s : Store) (x : SessionData)
    (q : Posted) where
  run_panic :
      (u : Bool)
      → handler b.session ≡ (x, q, u, panic)
      → run b handler s ≡ (s, b.posted ++ q, panic)
  unfolding run
  run_panic u h = ap (λ h. run b (λ _. h) s) h

  run_kept :
      (r : R) → handler b.session ≡ (x, q, false, ok r) → run b handler s ≡ (s, b.posted ++ q, ok r)
  unfolding run
  run_kept r h = ap (λ h. run b (λ _. h) s) h

  run_committed :
      (r : R) (c : Cell)
      → lookup b.cell s.heap ≡ some c
      → c.stamp ≡ b.before
      → handler b.session ≡ (x, q, true, ok r)
      → run b handler s ≡ (
        record s {
          heap = insert b.cell (record { stamp = s.next; contents = x }) s.heap;
          next = suc s.next;
        },
        b.posted ++ q,
        ok r,
      )
  unfolding run commit store_update
  run_committed r c found stamped h =
      ap (λ h. run b (λ _. h) s) h ∙ rw (found, stamped, beq_refl b.before) refl

client_transaction-run :
    {R : Type 0} (conf : Config) (now a : ℕ) (token : String) (handler : Handler R) (s : Store)
    (c : Cell)
    → lookup token s.client ≡ some a
    → lookup a s.heap ≡ some c
    → client_transaction conf now token handler s ≡ run (begun conf now a c) handler s
unfolding client_transaction begin_client_transaction
client_transaction-run conf now a token handler s c e f = rw (e, f) refl

pub stored_contents :
    (token : String) (s : Store) (a : ℕ) (c : Cell)
    → lookup token s.client ≡ some a
    → lookup a s.heap ≡ some c
    → stored token s ≡ some c.contents
unfolding stored
stored_contents token s a c e f = rw (e, f) refl

some≢none {ℓ} : {A : Type ℓ} {a : A} → some a ≢ none
some≢none h = cc

client_transaction-unknown :
    {R : Type 0} (conf : Config) (now : ℕ) (token : String) (handler : Handler R) (s : Store)
    → stored token s ≡ none
    → client_transaction conf now token handler s ≡ (s, [], err (unknown_session token))
unfolding client_transaction begin_client_transaction
client_transaction-unknown conf now token handler s e =
    elim (Option-cases (lookup token s.client)) [
      | inl n ↦ rw n refl
      | inr (a, n) ↦ elim (Option-cases (lookup a s.heap)) [
        | inl k ↦ rw (n, k) refl
        | inr (c, k) ↦ absurd (some≢none (sym (stored_contents token s a c n k) ∙ e))
      ]
    ]

module _ (conf : Config) (back : Backend) (iss : Issuer) (http : Http) where
  -- The transaction of a handler that panics is not completed.
  middleware-panic :
      (now : ℕ) (r : HttpRequest) (x : SessionData)
      → let m = session_middleware conf back iss http now r x in
        is_panic (m.0.2) ≡ true → m.1 ≡ false
  unfolding session_middleware refuse
  middleware-panic now r x =
      let host = x.rrequest.request.host in
      elim (Bool-cases (not (host == "") && not (host == r.host))) [
        | inl e ↦ rw e (λ p. refl)
        | inr e ↦ rw e (λ p. rw p refl)
      ]

  client_handler-panic :
      (now : ℕ) (r : HttpRequest) (x : SessionData)
      → let m = session_middleware conf back iss http now r x in
        is_panic (m.0.2) ≡ true
        → client_handler conf back iss http now r x ≡ (m.0.0, m.0.1, m.1, panic)
  unfolding client_handler
  client_handler-panic now r x p = rw p refl

  client_handler-ok :
      (now : ℕ) (r : HttpRequest) (x : SessionData)
      → let m = session_middleware conf back iss http now r x in
        (u : Bool)
        → is_panic (m.0.2) ≡ false
        → m.1 ≡ u
        → client_handler conf back iss http now r x ≡ (m.0.0, m.0.1, u, ok (m.0.2))
  unfolding client_handler
  client_handler-ok now r x u p e = rw (p, e) refl

  serve_client-panic :
      (now : ℕ) (token : String) (r : HttpRequest) (s t : Store) (q : Posted)
      → client_transaction conf now token (client_handler conf back iss http now r) s
        ≡ (t, q, panic)
      → serve_client conf back iss http now token r s ≡ (t, q, panic_reply)
  unfolding serve_client answer_to_client
  serve_client-panic now token r s t q h = ap answer_to_client h

  serve_client-ok :
      (now : ℕ) (token : String) (r : HttpRequest) (s t : Store) (q : Posted) (reply : Reply)
      → client_transaction conf now token (client_handler conf back iss http now r) s
        ≡ (t, q, ok reply)
      → serve_client conf back iss http now token r s ≡ (t, q, reply)
  unfolding serve_client answer_to_client
  serve_client-ok now token r s t q reply h = ap answer_to_client h

  -- What a request does to a session that the store has.
  pub record Transacted (now a : ℕ) (token : String) (r : HttpRequest) (s : Store) (c : Cell)
      : Type 0 where
    pub after : Store
    pub reply : Reply
    pub served : serve_client conf back iss http now token r s ≡ (
      after,
      (begun conf now a c).posted
          ++ (session_middleware conf back iss http now r (begun conf now a c).session).0.1,
      reply,
    )
    pub contents :
        let m = session_middleware conf back iss http now r (begun conf now a c).session in
        stored token after ≡ some (if m.1 then m.0.0 else c.contents)
    pub panicked :
        is_panic reply
        ≡ is_panic ((session_middleware conf back iss http now r (begun conf now a c).session).0.2)

  pub serve_client-Transacted :
      (now a : ℕ) (token : String) (r : HttpRequest) (s : Store) (c : Cell)
      → lookup token s.client ≡ some a
      → lookup a s.heap ≡ some c
      → Transacted now a token r s c
  unfolding begun
  serve_client-Transacted now a token r s c e f =
      let b = begun conf now a c in
      let handler = client_handler conf back iss http now r in
      let m = session_middleware conf back iss http now r b.session in
      let start = client_transaction-run conf now a token handler s c e f in
      elim (Bool-cases (is_panic (m.0.2))) [
        | inl p ↦ record {
          after = s;
          reply = panic_reply;
          served = serve_client-panic now token r s s (b.posted ++ m.0.1) (
              start
              ∙ run_panic b handler s (m.0.0) (m.0.1) (m.1)
                  (client_handler-panic now r b.session p));
          contents = rw (middleware-panic now r b.session p) (stored_contents token s a c e f);
          panicked = sym p;
        }
        | inr p ↦ elim (Bool-cases (m.1)) [
          | inr u ↦ record {
            after = s;
            reply = m.0.2;
            served = serve_client-ok now token r s s (b.posted ++ m.0.1) (m.0.2) (
                start
                ∙ run_kept b handler s (m.0.0) (m.0.1) (m.0.2)
                    (client_handler-ok now r b.session false p u));
            contents = rw u (stored_contents token s a c e f);
            panicked = refl;
          }
          | inl u ↦
              let new : Cell = record { stamp = s.next; contents = m.0.0 } in
              let t = record s { heap = insert a new s.heap; next = suc s.next } in
              record {
                after = t;
                reply = m.0.2;
                served = serve_client-ok now token r s t (b.posted ++ m.0.1) (m.0.2) (
                    start
                    ∙ run_committed b handler s (m.0.0) (m.0.1) (m.0.2) c f refl
                        (client_handler-ok now r b.session true p u));
                contents = rw u (
                    stored_contents token t a new e
                      (lookup-insert a a new s.heap ∙ rw (beq_refl a) refl));
                panicked = refl;
              }
        ]
      ]

  pub serve_client-unknown :
      (now : ℕ) (token : String) (r : HttpRequest) (s : Store)
      → stored token s ≡ none
      → ((serve_client conf back iss http now token r s).0 ≡ s)
        × ((serve_client conf back iss http now token r s).1 ≡ [])
  unfolding serve_client answer_to_client
  serve_client-unknown now token r s e =
      let h =
        ap answer_to_client (
          client_transaction-unknown conf now token (client_handler conf back iss http now r) s
            e) in
      (ap (λ t. t.0) h, ap (λ t. t.1) h)
