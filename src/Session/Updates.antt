-- ===== src/Session/Updates.antt =====
-- What the memory store of server/irmaserver/sessions.go promises: an update is based on the latest data,
-- every stored session is well-formed, and what a read of an expired session does.
use irmago.Prelude.{
  ◌≡◌, refl, sym, ap, ◌∙◌, inl, inr, ℕ, suc, ◌<◌, true, false, Option, none, some, [], ◌∷◌, ◌++◌,
  String, ◌==◌, nat_eq, string_eq, if_some, beq_refl, nat_beq_iff, Bool-cases, Option-cases, arith,
  subst,
}
use irmago.Prelude.Int.{is_nonpos}
use irmago.Prelude.Map.{lookup, insert, delete, lookup-insert}
use irmago.Prelude.Outcome.{Outcome, ok}
use irmago.Session.Types.{timed_out, finished, SessionData, Config}
use irmago.Session.Steps.{Posted, do_result_callback, set_status, timeout}
use irmago.Session.Store.{
  Cell, Store, Begun, begun, transaction, StoreError, add, check_timeout, begin_transaction, commit,
  delete_session, run,
}
use irmago.Session.Server.{get_session_result}

-- One step of any routine on the store: a new session, an update that a transaction commits, or the deletion
-- of an expired session.
pub data StoreStep : Store → Store → Type 0 where
  adds : (session : SessionData) (s : Store) → StoreStep s (add session s)
  commits :
      (b : Begun) (session : SessionData) (s t : Store) → commit b session s ≡ ok t → StoreStep s t
  deletes : (token : String) (s t : Store) → delete_session token s ≡ ok t → StoreStep s t

-- The steps that routines make between two moments.
pub data StoreSteps : Store → Store → Type 0 where
  here : {s : Store} → StoreSteps s s
  step : {s t u : Store} → StoreStep s t → StoreSteps t u → StoreSteps s u

-- Stamps are handed out in order, so that those from `next` on are unused.
abbrev pub IsFresh : Store → Type 0
IsFresh s = (a : ℕ) (c : Cell) → lookup a s.heap ≡ some c → c.stamp < s.next

-- What a step does to the heap: nothing, or one cell gets data with a new stamp.
data HeapStep (s t : Store) : Type 0 where
  unchanged : t.heap ≡ s.heap → t.next ≡ s.next → HeapStep s t
  written :
      (k : ℕ) (x : SessionData)
      → t.heap ≡ insert k (record { stamp = s.next; contents = x }) s.heap
      → t.next ≡ suc s.next
      → HeapStep s t

ok-inj {ℓ κ} : {E : Type ℓ} {A : Type κ} {a b : A} → (◌≡◌ {A = Outcome E A} (ok a) (ok b)) → a ≡ b
ok-inj h = cc

commit_step : (b : Begun) (x : SessionData) (s t : Store) → commit b x s ≡ ok t → HeapStep s t
unfolding commit
commit_step b x s t h = elim (Option-cases (lookup b.cell s.heap)) [
  | inl e ↦ cc
  | inr (c, e) ↦ elim (Bool-cases (c.stamp == b.before)) [
    | inl q ↦
        let r : record s {
          heap = insert b.cell (record { stamp = s.next; contents = x }) s.heap;
          next = suc s.next;
        }
            ≡ t =
          ok-inj {E = StoreError} (sym (rw (e, q) refl) ∙ h) in
        written b.cell x (sym (ap (λ y. y.heap) r)) (sym (ap (λ y. y.next) r))
    | inr q ↦ cc
  ]
]

delete_step : (token : String) (s t : Store) → delete_session token s ≡ ok t → HeapStep s t
unfolding delete_session
delete_step token s t h = elim (Option-cases (lookup token s.requestor)) [
  | inl e ↦ cc
  | inr (a, e) ↦ elim (Option-cases (lookup a s.heap)) [
    | inl q ↦ cc
    | inr (c, q) ↦
        let r : record s {
          requestor = delete token s.requestor;
          client = delete c.contents.client_token s.client;
        }
            ≡ t =
          ok-inj {E = StoreError} (sym (rw (e, q) refl) ∙ h) in
        unchanged (sym (ap (λ y. y.heap) r)) (sym (ap (λ y. y.next) r))
  ]
]

heap_step : {s t : Store} → StoreStep s t → HeapStep s t
unfolding add
heap_step (adds x s) = written s.next x refl refl
heap_step (commits b x s t h) = commit_step b x s t h
heap_step (deletes token s t h) = delete_step token s t h

some-inj {ℓ} : {A : Type ℓ} {a b : A} → some a ≡ some b → a ≡ b
some-inj h = cc

clash :
    (d c : Cell) (n : ℕ) (x : SessionData)
    → record { stamp = n; contents = x } ≡ d
    → d.stamp ≡ c.stamp
    → ¬ (c.stamp < n)
clash d c n x e q l = let m : n ≡ d.stamp = ap (λ y. y.stamp) e in omega (arith, m, q, l)

-- What is kept since a moment at which cell `a` held `c`: the stamp stands for no other data.
record Since (a : ℕ) (c : Cell) (s : Store) : Type 0 where
  used : c.stamp < s.next
  same : (d : Cell) → lookup a s.heap ≡ some d → d.stamp ≡ c.stamp → d ≡ c

heap_step-Since : (a : ℕ) (c : Cell) (s t : Store) → HeapStep s t → Since a c s → Since a c t
heap_step-Since a c s t (unchanged h n) k = record {
  used = subst (λ x. c.stamp < x) (sym n) k.used;
  same = λ d e q. k.same d (sym (ap (lookup a) h) ∙ e) q;
}
heap_step-Since a c s t (written i x h n) k =
    let l = lookup-insert i a (record { stamp = s.next; contents = x }) s.heap in
    record {
      used = omega (arith, n, k.used);
      same = λ d e q. elim (Bool-cases (i == a)) [
        | inl b ↦ absurd (
            clash d c s.next x (some-inj ((sym (rw b refl) ∙ sym l) ∙ (sym (ap (lookup a) h) ∙ e)))
              q k.used)
        | inr b ↦ k.same d ((sym (rw b refl) ∙ sym l) ∙ (sym (ap (lookup a) h) ∙ e)) q
      ];
    }

heap_step-IsFresh : (s t : Store) → HeapStep s t → IsFresh s → IsFresh t
heap_step-IsFresh s t (unchanged h n) f a c e =
    subst (λ x. c.stamp < x) (sym n) (f a c (sym (ap (lookup a) h) ∙ e))
heap_step-IsFresh s t (written i x h n) f a c e =
    let l = lookup-insert i a (record { stamp = s.next; contents = x }) s.heap in
    let e' = sym l ∙ (sym (ap (lookup a) h) ∙ e) in
    elim (Bool-cases (i == a)) [
      | inl b ↦
          let p : some (record { stamp = s.next; contents = x }) ≡ some c = sym (rw b refl) ∙ e' in
          let m : s.next ≡ c.stamp = ap (λ y. y.stamp) (some-inj p) in omega (arith, m, n)
      | inr b ↦ let m = f a c (sym (rw b refl) ∙ e') in omega (arith, m, n)
    ]

steps-Since : (a : ℕ) (c : Cell) (s t : Store) → StoreSteps s t → Since a c s → Since a c t
steps-Since a c s _ here k = k
steps-Since a c s t (step {t = u} x xs) k =
    steps-Since a c u t xs (heap_step-Since a c s u (heap_step x) k)

-- The transaction `b` has read the cell `c`.
record HasRead (conf : Config) (now : ℕ) (s : Store) (b : Begun) (c : Cell) : Type 0 where
  found : lookup b.cell s.heap ≡ some c
  stamped : c.stamp ≡ b.before
  checked : b.session ≡ (check_timeout conf now c.contents).0

begun-HasRead :
    (conf : Config) (now a : ℕ) (s : Store) (c : Cell)
    → lookup a s.heap ≡ some c
    → HasRead conf now s (begun conf now a c) c
unfolding begun
begun-HasRead conf now a s c e = record { found = e; stamped = refl; checked = refl }

none≢some {ℓ κ} : {A : Type ℓ} {P : Type κ} {a : A} → none ≡ some a → P
none≢some h = cc

read_cell :
    (conf : Config) (now a : ℕ) (s : Store) (b : Begun) (m : Option Cell)
    → lookup a s.heap ≡ m
    → if_some m none (λ c. some (begun conf now a c)) ≡ some b
    → (c : Cell) × HasRead conf now s b c
read_cell conf now a s b none e h = none≢some h
read_cell conf now a s b (some c) e h =
    (c, subst (λ y. HasRead conf now s y c) (some-inj h) (begun-HasRead conf now a s c e))

read_token :
    (conf : Config) (now : ℕ) (s : Store) (b : Begun) (m : Option ℕ)
    → if_some m none (λ a. if_some (lookup a s.heap) none (λ c. some (begun conf now a c))) ≡ some b
    → (c : Cell) × HasRead conf now s b c
read_token conf now s b none h = none≢some h
read_token conf now s b (some a) h = read_cell conf now a s b (lookup a s.heap) refl h

-- A transaction that begins at a token reads the cell that the token points to.
begun_at :
    (conf : Config) (now : ℕ) (token : String) (s : Store) (b : Begun)
    → begin_transaction conf now token s ≡ some b
    → (c : Cell) × HasRead conf now s b c
unfolding begin_transaction
begun_at conf now token s b h = read_token conf now s b (lookup token s.requestor) h

-- What a commit that succeeds has found in the cell, and what it leaves there.
commit_found :
    (b : Begun) (x : SessionData) (t u : Store)
    → commit b x t ≡ ok u
    → (c : Cell) × (lookup b.cell t.heap ≡ some c)
      × (c.stamp ≡ b.before)
      × ((d : Cell) × (lookup b.cell u.heap ≡ some d) × (d.contents ≡ x))
unfolding commit
commit_found b x t u h = elim (Option-cases (lookup b.cell t.heap)) [
  | inl e ↦ cc
  | inr (c, e) ↦ elim (Bool-cases (c.stamp == b.before)) [
    | inl q ↦
        let new : Cell = record { stamp = t.next; contents = x } in
        let r : record t { heap = insert b.cell new t.heap; next = suc t.next } ≡ u =
          ok-inj {E = StoreError} (sym (rw (e, q) refl) ∙ h) in
        let l : lookup b.cell (insert b.cell new t.heap) ≡ some new =
          lookup-insert b.cell b.cell new t.heap ∙ rw (beq_refl b.cell) refl in
        (
          c,
          e,
          (nat_beq_iff c.stamp b.before).0 q,
          (new, ap (λ y. lookup b.cell y.heap) (sym r) ∙ l, refl),
        )
    | inr q ↦ cc
  ]
]

-- If a transaction commits, then the session that it was based on is the one in the store at that moment, up
-- to the timeout check, whatever other routines did since the transaction began: no update is lost.
pub commit_sees_latest :
    (conf : Config) (now : ℕ) (token : String) (s t u : Store) (b : Begun) (x : SessionData)
    → IsFresh s
    → begin_transaction conf now token s ≡ some b
    → StoreSteps s t
    → commit b x t ≡ ok u
    → (c : Cell) × (lookup b.cell t.heap ≡ some c)
      × (b.session ≡ (check_timeout conf now c.contents).0)
      × ((d : Cell) × (lookup b.cell u.heap ≡ some d) × (d.contents ≡ x))
commit_sees_latest conf now token s t u b x f h xs k =
    let (c, read) = begun_at conf now token s b h in
    let (d, e', st', new) = commit_found b x t u k in
    let since : Since b.cell c s = record {
      used = f b.cell c read.found;
      same = λ d' e₂ _. some-inj (sym e₂ ∙ read.found);
    } in
    let after = steps-Since b.cell c s t xs since in
    let same : d ≡ c = after.same d e' (st' ∙ sym read.stamped) in
    (d, e', read.checked ∙ ap (λ y. (check_timeout conf now y.contents).0) (sym same), new)

-- The fresh stamps that the theorem on updates needs are there in every store that is reached from the empty
-- one.
pub steps-IsFresh : (s t : Store) → StoreSteps s t → IsFresh s → IsFresh t
steps-IsFresh s _ here f = f
steps-IsFresh s _ (step {t = u} {u = v} x xs) f =
    steps-IsFresh u v xs (heap_step-IsFresh s u (heap_step x) f)

check_timeout-timed_out :
    (conf : Config) (now : ℕ) (x : SessionData)
    → finished x.status ≡ false
    → is_nonpos (timeout conf now x) ≡ true
    → check_timeout conf now x ≡ set_status conf timed_out x
unfolding check_timeout
check_timeout-timed_out conf now x r t = rw (r, t) refl

append_nil : (p : Posted) → p ++ [] ≡ p
append_nil [] = refl
append_nil (x ∷ xs) = ap (λ y. x ∷ y) (append_nil xs)

-- Reading the result of an unfinished session that has timed out leaves the store as it is, so that every
-- such read posts the result callback of the timed out session.
pub get_session_result-timed_out :
    (conf : Config) (now a : ℕ) (token : String) (s : Store) (c : Cell)
    → lookup token s.requestor ≡ some a
    → lookup a s.heap ≡ some c
    → finished c.contents.status ≡ false
    → is_nonpos (timeout conf now c.contents) ≡ true
    → ((get_session_result conf now token s).0 ≡ s)
      × ((get_session_result conf now token s).1
          ≡ do_result_callback conf (set_status conf timed_out c.contents).0)
unfolding get_session_result transaction begin_transaction begun run set_status finished
get_session_result-timed_out conf now a token s c e f r t =
    rw (e, f, check_timeout-timed_out conf now c.contents r t) (refl, append_nil _)
