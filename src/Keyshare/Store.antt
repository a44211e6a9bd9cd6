-- ===== src/Keyshare/Store.antt =====
-- memorySessionStore of server/keyshare/keyshareserver/session.go: the last commitment of each user, which is
-- flushed some time after it expires.
pub mod Refinement
use irmago.Prelude.{
  ℕ, ◌+◌, Option, none, some, List, [], ◌∷◌, String, ◌==◌, string_eq, ltb, if◌then◌else◌,
}
use irmago.Prelude.Map.{lookup, insert}
use irmago.Keyshare.Core.{PublicKeyIdentifier}

-- session
pub record Session : Type 0 where
  pub key_id : PublicKeyIdentifier
  pub commit_id : ℕ
  pub hw : String
  pub expiry : ℕ

-- memorySessionStore
pub record SessionStore : Type 0 where
  pub sessions : List (String × Session)
  pub session_lifetime : ℕ

-- newMemorySessionStore
unfoldable pub new_memory_session_store : ℕ → SessionStore
new_memory_session_store session_lifetime = record {
  sessions = [];
  session_lifetime = session_lifetime;
}

-- add
unfoldable pub add : ℕ → String → Session → SessionStore → SessionStore
add now username session s = record s {
  sessions = insert username (record session { expiry = now + s.session_lifetime }) s.sessions;
}

-- get
unfoldable pub get : String → SessionStore → Option Session
get username s = lookup username s.sessions

-- The sessions that have not expired.
unfoldable pub live : ℕ → List (String × Session) → List (String × Session)
live now [] = []
live now ((username, session) ∷ rest) =
    let others = live now rest in
    if ltb session.expiry now then others else (username, session) ∷ others

-- flush
unfoldable pub flush : ℕ → SessionStore → SessionStore
unfolding live
flush now s = record s { sessions = live now s.sessions }
