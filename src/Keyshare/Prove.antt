-- ===== src/Keyshare/Prove.antt =====
-- The keyshare protocol of server/keyshare/keyshareserver/server.go: the middlewares, and the handlers of the
-- paths below /prove.
use irmago.Prelude.{
  ℕ, Bool, true, false, not, Option, none, some, List, [], ◌∷◌, String, nat_eq, string_eq, pair_eq,
  if◌then◌else◌,
}
use irmago.Prelude.Int.{ℤ}
use irmago.Prelude.Map.{insert}
use irmago.Prelude.Outcome.{Outcome, ok, err, panic, or_err, or_panic}
use irmago.Identifier.{identifier_eq}
use irmago.Keyshare.Secrets.{CoreError, invalid_challenge, invalid_jwt}
use irmago.Keyshare.Core.{Library, PublicKeyIdentifier, ResponseRequest}
use irmago.Keyshare.Operations.{
  validate_jwt, generate_ps, generate_commitments, generate_response, generate_response_v2,
}
use irmago.Keyshare.Store.{Session, add, get}
use irmago.Keyshare.Users.{
  Db, User, KeyshareError, core_error, missing_commitment, irma_session, Result,
}
use irmago.Keyshare.Handler.{
  Server, Handler, ◌>>?◌, give, ignoring, on_core, in_core, exec_db, RemoteError, internal,
  invalid_request, Reply, refused, write_error, serve,
}

-- GetCommitmentsRequest of the root package.
pub record GetCommitmentsRequest : Type 0 where
  pub keys : List PublicKeyIdentifier
  pub hash : String

-- What the middlewares add to a request: the user, the token and whether it is valid.
pub record Authorized : Type 0 where
  pub user : User
  pub authorization : String
  pub has_valid_authorization : Bool

-- A map from the keys to the values at the same places; a missing value panics.
unfoldable pub mapped :
    {V : Type 0}
    → List PublicKeyIdentifier
    → List V
    → List (PublicKeyIdentifier × V)
    → Result (List (PublicKeyIdentifier × V))
mapped [] values m = ok m
mapped (key ∷ keys) [] m = panic
mapped (key ∷ keys) (value ∷ values) m = mapped keys values (insert key value m)

unfoldable pub last_key : List PublicKeyIdentifier → Option PublicKeyIdentifier
last_key [] = none
last_key (key ∷ []) = some key
last_key (key ∷ other ∷ keys) = last_key (other ∷ keys)

abbrev is_ok : {A : Type 0} → Outcome CoreError A → Bool
is_ok (ok a) = true
is_ok _ = false

-- The answers of the handlers that do not use keyshare.WriteError.
unfoldable pub jwt_error : KeyshareError → RemoteError
jwt_error (core_error invalid_jwt) = invalid_request
jwt_error _ = internal

unfoldable pub commitment_error : KeyshareError → RemoteError
commitment_error (core_error invalid_challenge) = invalid_request
commitment_error (core_error invalid_jwt) = invalid_request
commitment_error _ = internal

unfoldable pub response_error : KeyshareError → RemoteError
response_error missing_commitment = invalid_request
response_error e = write_error e

unfoldable pub response_v2_error : KeyshareError → RemoteError
unfolding commitment_error
response_v2_error missing_commitment = invalid_request
response_v2_error e = commitment_error e

-- A list of keys that is empty is refused.
unfoldable pub some_keys :
    {S A : Type 0}
    → List PublicKeyIdentifier
    → (Server S → Server S × Reply A)
    → Server S
    → Server S × Reply A
some_keys [] next s = (s, refused invalid_request)
some_keys (key ∷ keys) next s = next s

module _ {S : Type 0} (lib : Library) (db : Db S) where
  -- userMiddleware and authorizationMiddleware, with the username and the token of the headers.
  unfoldable pub middleware :
      {A : Type 0}
      → ℕ
      → String
      → String
      → (Authorized → Server S → Server S × Reply A)
      → Server S
      → Server S × Reply A
  middleware now username authorization next s = elim (db.user username s.db) [
    | ok user ↦
        next
          (record {
            user = user;
            authorization = authorization;
            has_valid_authorization =
                is_ok (validate_jwt lib now user.secrets authorization s.core);
          })
          s
    | err e ↦ (s, refused (write_error e))
    | panic ↦ (s, Reply.recovered)
  ]

  -- generatePs
  unfoldable pub generate_mapped_ps :
      ℕ → User → String → List PublicKeyIdentifier → Handler S (List (PublicKeyIdentifier × ℕ))
  unfolding mapped
  generate_mapped_ps now user authorization keys =
      in_core (generate_ps lib now user.secrets authorization keys) >>? λ ps.
      give (mapped keys ps [])

  -- handlePs
  unfoldable pub handle_ps :
      ℕ
      → Authorized
      → Option (List PublicKeyIdentifier)
      → Server S
      → Server S × Reply (List (PublicKeyIdentifier × ℕ))
  unfolding generate_mapped_ps jwt_error some_keys
  handle_ps now who none s = (s, refused invalid_request)
  handle_ps now who (some keys) s =
      some_keys keys
        (serve (some keys) jwt_error (generate_mapped_ps now who.user who.authorization)) s

  -- The session of a commitment is stored for its user.
  unfoldable pub store_session : ℕ → String → Session → Handler S (Unit {0})
  store_session now username session s =
      (record s { store = add now username session s.store }, ok tt)

  -- generateCommitments, and generateCommitmentsV2 with the hash of the user's commitments.
  unfoldable pub generate_mapped_commitments :
      ℕ
      → ℕ
      → User
      → String
      → List PublicKeyIdentifier
      → String
      → Handler S (List (PublicKeyIdentifier × String))
  unfolding mapped last_key store_session
  generate_mapped_commitments now commit_id user authorization keys hw =
      on_core (generate_commitments lib now commit_id user.secrets authorization keys)
      >>? λ (commitments, id). give (mapped keys commitments []) >>? λ m.
          give (or_panic (last_key keys)) >>? λ key_id.
          store_session now user.username
            (record { key_id = key_id; commit_id = id; hw = hw; expiry = now })
          >>? λ _. give (ok m)

  -- handleCommitments
  unfoldable pub handle_commitments :
      ℕ
      → ℕ
      → Authorized
      → Option (List PublicKeyIdentifier)
      → Server S
      → Server S × Reply (List (PublicKeyIdentifier × String))
  unfolding generate_mapped_commitments some_keys
  handle_commitments now commit_id who none s = (s, refused invalid_request)
  handle_commitments now commit_id who (some keys) s =
      some_keys keys
        (serve (some keys) write_error
          (λ keys. generate_mapped_commitments now commit_id who.user who.authorization keys ""))
        s

  -- handleCommitmentsV2
  unfoldable pub handle_commitments_v2 :
      ℕ
      → ℕ
      → Authorized
      → Option GetCommitmentsRequest
      → Server S
      → Server S × Reply (List (PublicKeyIdentifier × String))
  unfolding generate_mapped_commitments commitment_error some_keys
  handle_commitments_v2 now commit_id who none s = (s, refused invalid_request)
  handle_commitments_v2 now commit_id who (some request) s =
      some_keys request.keys
        (serve (some request) commitment_error (λ request.
          generate_mapped_commitments now commit_id who.user who.authorization request.keys
            request.hash))
        s

  current_session : String → Handler S Session
  current_session username s = (s, or_err (get username s.store) missing_commitment)

  -- The user is seen, and the session logged.
  record_session : ℕ → User → Handler S (Unit {0})
  record_session now user = ignoring (exec_db (db.set_seen now user)) >>? λ _.
      exec_db (db.add_log now user irma_session none)

  -- generateResponse
  unfoldable pub generate_session_response : ℕ → User → String → ℤ → Handler S String
  unfolding current_session record_session
  generate_session_response now user authorization challenge =
      current_session user.username >>? λ session. record_session now user >>? λ _. on_core (
        generate_response lib now user.secrets authorization session.commit_id challenge
          session.key_id)

  -- generateResponseV2
  unfoldable pub generate_session_response_v2 :
      ℕ → User → String → ResponseRequest → Bool → Handler S String
  unfolding current_session record_session
  generate_session_response_v2 now user authorization request linkable =
      current_session user.username >>? λ session. record_session now user >>? λ _. on_core (
        generate_response_v2 lib now user.secrets authorization session.commit_id session.hw request
          session.key_id linkable)

  -- handleResponse
  unfoldable pub handle_response : ℕ → Authorized → Option ℤ → Server S → Server S × Reply String
  unfolding generate_session_response response_error
  handle_response now who none s = (s, refused invalid_request)
  handle_response now who (some challenge) s =
      if not who.has_valid_authorization
      then (s, refused invalid_request)
      else serve (some challenge) response_error
          (generate_session_response now who.user who.authorization) s

  -- keyshareResponse: handleResponseV2, and handleResponseV2Linkable if `linkable` is set.
  unfoldable pub keyshare_response :
      ℕ → Authorized → Bool → Option ResponseRequest → Server S → Server S × Reply String
  unfolding generate_session_response_v2 response_v2_error
  keyshare_response now who linkable none s = (s, refused invalid_request)
  keyshare_response now who linkable (some request) s =
      if not who.has_valid_authorization
      then (s, refused invalid_request)
      else serve (some request) response_v2_error
          (λ request. generate_session_response_v2 now who.user who.authorization request linkable)
          s
