-- ===== src/Session/Store.antt =====
-- memorySessionStore of server/irmaserver/sessions.go. A memorySessionData is a cell of the heap, which both
-- maps point to; the session data that a cell points to is immutable and named by a stamp, its address. A
-- transaction is two steps, since other routines may run between them: it begins with a copy of the session,
-- and commits what the handler made of it.
use irmago.Prelude.{
  ℕ, suc, Bool, not, ◌&&◌, Option, none, some, List, [], ◌∷◌, ◌++◌, String, ◌==◌, nat_eq, string_eq,
  if_some, if◌then◌else◌, map,
}
use irmago.Prelude.Int.{is_nonpos}
use irmago.Prelude.Map.{lookup, insert, delete}
use irmago.Prelude.Outcome.{Outcome, ok, err, panic}
use irmago.Session.Types.{timed_out, finished, SessionData, Config}
use irmago.Session.Steps.{Posted, Stepped, set_status, timeout, ttl}

pub record Cell : Type 0 where
  pub stamp : ℕ
  pub contents : SessionData

pub record Store : Type 0 where
  pub requestor : List (String × ℕ)
  pub client : List (String × ℕ)
  pub heap : List (ℕ × Cell)
  pub next : ℕ

pub data StoreError : Type 0 where
  unknown_session : String → StoreError
  handler_failed : String → StoreError
  changed : StoreError

abbrev pub empty_store : Store
empty_store = record { requestor = []; client = []; heap = []; next = 0 }

-- add
unfoldable pub add : SessionData → Store → Store
add session s = record {
  requestor = insert session.requestor_token s.next s.requestor;
  client = insert session.client_token s.next s.client;
  heap = insert s.next (record { stamp = s.next; contents = session }) s.heap;
  next = suc s.next;
}

-- A transaction that has begun: the cell, the stamp of the data that was copied, the session for the handler
-- and the callbacks posted so far.
pub record Begun : Type 0 where
  pub cell : ℕ
  pub before : ℕ
  pub session : SessionData
  pub posted : Posted

-- The check of the timeout in handleTransaction.
unfoldable pub check_timeout : Config → ℕ → SessionData → Stepped
unfolding finished
check_timeout conf now session =
    if not (finished session.status) && is_nonpos (timeout conf now session)
    then set_status conf timed_out session
    else (session, [])

-- The start of handleTransaction.
unfoldable pub begun : Config → ℕ → ℕ → Cell → Begun
begun conf now a c =
    let (session, posted) = check_timeout conf now c.contents in
    record { cell = a; before = c.stamp; session = session; posted = posted }

-- transaction, up to the handler.
unfoldable pub begin_transaction : Config → ℕ → String → Store → Option Begun
begin_transaction conf now token s =
    if_some (lookup token s.requestor) none
      (λ a. if_some (lookup a s.heap) none (λ c. some (begun conf now a c)))

-- clientTransaction, up to the handler.
unfoldable pub begin_client_transaction : Config → ℕ → String → Store → Option Begun
begin_client_transaction conf now token s =
    if_some (lookup token s.client) none
      (λ a. if_some (lookup a s.heap) none (λ c. some (begun conf now a c)))

-- The end of handleTransaction, for a handler that asks for an update: it fails if the cell points to other
-- data by now. The cell itself is never freed while a routine holds it.
unfoldable pub commit : Begun → SessionData → Store → Outcome StoreError Store
commit b session s = if_some (lookup b.cell s.heap) (err changed) (λ c.
    if not (c.stamp == b.before)
    then err changed
    else ok (record s {
      heap = insert b.cell (record { stamp = s.next; contents = session }) s.heap;
      next = suc s.next;
    }))

-- handleTransaction when no other routine runs: the handler returns the session, the callbacks that it
-- posted and whether to store the session, or an error.
abbrev pub Handler : Type 0 → Type 0
Handler R = SessionData → SessionData × Posted × Bool × Outcome String R

unfoldable pub store_update :
    {R : Type 0}
    → Outcome StoreError Store
    → Store
    → Posted
    → R
    → Store × Posted × Outcome StoreError R
store_update (ok s') s posted r = (s', posted, ok r)
store_update (err e) s posted r = (s, posted, err e)
store_update panic s posted r = (s, posted, panic)

unfoldable pub run :
    {R : Type 0} → Begun → Handler R → Store → Store × Posted × Outcome StoreError R
unfolding commit store_update
run b handler s =
    let (session, posted, update, result) = handler b.session in
    let all = b.posted ++ posted in
    elim result [
      | err e ↦ (s, all, err (handler_failed e))
      | panic ↦ (s, all, panic)
      | ok r ↦ if not update then (s, all, ok r) else store_update (commit b session s) s all r
    ]

-- transaction
unfoldable pub transaction :
    {R : Type 0} → Config → ℕ → String → Handler R → Store → Store × Posted × Outcome StoreError R
unfolding begin_transaction run
transaction conf now token handler s =
    if_some (begin_transaction conf now token s) (s, [], err (unknown_session token))
      (λ b. run b handler s)

-- clientTransaction
unfoldable pub client_transaction :
    {R : Type 0} → Config → ℕ → String → Handler R → Store → Store × Posted × Outcome StoreError R
unfolding begin_client_transaction run
client_transaction conf now token handler s =
    if_some (begin_client_transaction conf now token s) (s, [], err (unknown_session token))
      (λ b. run b handler s)

-- The transactions of deleteExpired on the tokens to check: what they post, and the expired tokens.
unfoldable pub check_expired : Config → ℕ → List String → Store → Posted × List String
unfolding begin_transaction
check_expired conf now [] s = ([], [])
check_expired conf now (token ∷ tokens) s =
    let (posted, expired) = check_expired conf now tokens s in
    elim (begin_transaction conf now token s) [
      | none ↦ (posted, expired)
      | some b ↦ (
        b.posted ++ posted,
        if is_nonpos (ttl conf now b.session) then token ∷ expired else expired,
      )
    ]

-- The deletion of one expired session. A token that is gone by now is dereferenced.
unfoldable pub delete_session : String → Store → Outcome StoreError Store
delete_session token s = if_some (lookup token s.requestor) panic (λ a.
    if_some (lookup a s.heap) panic (λ c. ok (record s {
      requestor = delete token s.requestor;
      client = delete c.contents.client_token s.client;
    })))

delete_all : List String → Store → Outcome StoreError Store
unfolding delete_session
delete_all [] s = ok s
delete_all (token ∷ tokens) s = elim (delete_session token s) [
  | ok s' ↦ delete_all tokens s'
  | err e ↦ err e
  | panic ↦ panic
]

-- deleteExpired, when no other routine runs.
unfoldable pub delete_expired : Config → ℕ → Store → Posted × Outcome StoreError Store
unfolding check_expired delete_all
delete_expired conf now s =
    let (posted, expired) = check_expired conf now (map (λ e. e.0) s.requestor) s in
    (posted, delete_all expired s)
