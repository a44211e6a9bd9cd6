-- ===== src/Keyshare/Store/Refinement.antt =====
-- The session store of server/keyshare/keyshareserver/session.go against the functions from usernames to
-- sessions.
use irmago.Prelude.{
  ℕ, ◌+◌, ◌≡◌, refl, ap, subst, ◌∙◌, inl, inr, Option, none, some, List, [], ◌∷◌, String, ◌==◌,
  string_eq, ltb, if◌then◌else◌, Bool-cases, arith,
}
use irmago.Prelude.Map.{lookup, insert, lookup-insert}
use irmago.Keyshare.Store.{Session, SessionStore, new_memory_session_store, add, get, live, flush}

-- What a store promises: one session per user.
abbrev Sessions : Type 0
Sessions = String → Option Session

-- The operations of a store.
pub data Operation : Type 0 where
  adds : ℕ → String → Session → Operation
  flushes : ℕ → Operation

unfoldable keep_live : ℕ → Option Session → Option Session
keep_live now none = none
keep_live now (some session) = if ltb session.expiry now then none else some session

-- An operation on the sessions of a store with this lifetime.
unfoldable pub promised : ℕ → Operation → Sessions → Sessions
unfolding keep_live
promised lifetime (adds now username session) f =
    λ user. if username == user then some (record session { expiry = now + lifetime }) else f user
promised lifetime (flushes now) f = λ user. keep_live now (f user)

unfoldable pub perform : Operation → SessionStore → SessionStore
unfolding add flush
perform (adds now username session) s = add now username session s
perform (flushes now) s = flush now s

-- The sessions that a store with this lifetime promises after the operations.
unfoldable pub promised_all : ℕ → List Operation → Sessions → Sessions
unfolding promised
promised_all lifetime [] f = f
promised_all lifetime (operation ∷ operations) f =
    promised_all lifetime operations (promised lifetime operation f)

unfoldable pub perform_all : List Operation → SessionStore → SessionStore
unfolding perform
perform_all [] s = s
perform_all (operation ∷ operations) s = perform_all operations (perform operation s)

-- No key of a map stands twice in it.
abbrev Distinct : List (String × Session) → Type 0
Distinct [] = Unit
Distinct ((username, session) ∷ rest) = (lookup username rest ≡ none) × Distinct rest

lookup-live :
    (now : ℕ) (user : String) (m : List (String × Session))
    → Distinct m
    → lookup user (live now m) ≡ keep_live now (lookup user m)
unfolding live lookup keep_live
lookup-live now user [] d = refl
lookup-live now user ((username, session) ∷ rest) (absent, d) =
    elim (Bool-cases (username == user)) [
      | inl same ↦
          let gone : lookup user rest ≡ none =
            subst (λ u. lookup u rest ≡ none) ((string_eq.decides username user).0 same) absent in
          let gone_live : lookup user (live now rest) ≡ none =
            lookup-live now user rest d ∙ ap (keep_live now) gone in
          elim (Bool-cases (ltb session.expiry now)) [
            | inl expired ↦ rw (same, expired) gone_live
            | inr kept ↦ rw (same, kept) (rw same refl)
          ]
      | inr differs ↦ elim (Bool-cases (ltb session.expiry now)) [
        | inl expired ↦ rw (differs, expired) (lookup-live now user rest d)
        | inr kept ↦ rw (differs, kept) (rw differs (lookup-live now user rest d))
      ]
    ]

live-Distinct : (now : ℕ) (m : List (String × Session)) → Distinct m → Distinct (live now m)
unfolding live keep_live
live-Distinct now [] d = tt
live-Distinct now ((username, session) ∷ rest) (absent, d) =
    elim (Bool-cases (ltb session.expiry now)) [
      | inl expired ↦ rw expired (live-Distinct now rest d)
      | inr kept ↦
          rw kept
            (lookup-live now username rest d ∙ ap (keep_live now) absent, live-Distinct now rest d)
    ]

insert-Distinct :
    (username : String) (session : Session) (m : List (String × Session))
    → Distinct m
    → Distinct (insert username session m)
unfolding insert lookup
insert-Distinct username session [] d = (refl, tt)
insert-Distinct username session ((other, kept) ∷ rest) (absent, d) =
    elim (Bool-cases (other == username)) [
      | inl same ↦
          rw same (
            subst (λ u. lookup u rest ≡ none) ((string_eq.decides other username).0 same) absent,
            d,
          )
      | inr differs ↦ rw differs (
        ground (
          arith,
          lookup-insert username other session rest,
          string_eq.decides other username,
          string_eq.decides username other,
          absent,
        ),
        insert-Distinct username session rest d,
      )
    ]

-- A store is the sessions it promises.
abbrev Implements : SessionStore → ℕ → Sessions → Type 0
Implements s lifetime f =
    (s.session_lifetime ≡ lifetime) × Distinct s.sessions × ((user : String) → get user s ≡ f user)

perform-Implements :
    (operation : Operation) (s : SessionStore) (lifetime : ℕ) (f : Sessions)
    → Implements s lifetime f
    → Implements (perform operation s) lifetime (promised lifetime operation f)
unfolding perform promised get flush add
perform-Implements (adds now username session) s lifetime f (e, d, h) = (
  e,
  insert-Distinct _ _ s.sessions d,
  λ user. ground (
    arith,
    lookup-insert username user (record session { expiry = now + s.session_lifetime }) s.sessions,
    h user,
    e,
  ),
)
perform-Implements (flushes now) s lifetime f (e, d, h) = (
  e,
  live-Distinct now s.sessions d,
  λ user. lookup-live now user s.sessions d ∙ ap (keep_live now) (h user),
)

perform_all-Implements :
    (operations : List Operation) (s : SessionStore) (lifetime : ℕ) (f : Sessions)
    → Implements s lifetime f
    → Implements (perform_all operations s) lifetime (promised_all lifetime operations f)
unfolding perform_all promised_all
perform_all-Implements [] s lifetime f h = h
perform_all-Implements (operation ∷ operations) s lifetime f h =
    perform_all-Implements operations (perform operation s) lifetime (promised lifetime operation f)
      (perform-Implements operation s lifetime f h)

-- Whatever sessions are added and flushed, a store that starts empty gives the sessions that it promises: the
-- last one that was added for a user, unless it was flushed after it had expired.
pub perform_all-get :
    (operations : List Operation) (lifetime : ℕ) (user : String)
    → get user (perform_all operations (new_memory_session_store lifetime))
      ≡ promised_all lifetime operations (λ _. none) user
perform_all-get operations lifetime user =
    (perform_all-Implements operations (new_memory_session_store lifetime) lifetime (λ _. none)
        (unfold new_memory_session_store get lookup in (refl, tt, λ _. refl))).2
      user
