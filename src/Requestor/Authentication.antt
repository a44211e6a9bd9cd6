-- ===== src/Requestor/Authentication.antt =====
-- server/requestorserver/auth.go: the authenticators of the requestor server. JSON and JSON web tokens are
-- parameters; the clock is in nanoseconds.
use irmago.Prelude.{
  ℕ, ◌+◌, ◌*◌, ◌/◌, Bool, false, not, ◌&&◌, ◌||◌, Option, none, some, List, String, ◌==◌, string_eq,
  ltb, if_some, if◌then◌else◌,
}
use irmago.Prelude.Map.{lookup}
use irmago.Prelude.Outcome.{Outcome, ok, err, panic, ◌>>=◌, ◌>>◌, ensure, or_err}
use irmago.Identifier.{Identifier}
use irmago.Session.Types.{RequestorRequest}

-- RevocationRequest of the root package.
pub record RevocationRequest : Type 0 where
  pub credential_type : Identifier
  pub key : String
  pub issued : ℕ

-- jwt.StandardClaims, as far as they are read.
pub record StandardClaims : Type 0 where
  pub issuer : String
  pub subject : String
  pub issued_at : ℕ

-- The headers and the body of a request.
pub record Post : Type 0 where
  pub authorization : String
  pub content_type : String
  pub body : String

-- JSON, base64 and the JWT library. The `kid` of a header holds none if it is not a text. `verifies` checks the
-- signature with a key, and the claims at a time in seconds. The body of a revocation names a server.
pub record Wire : Type 0 where
  pub is_json : String → Bool
  pub is_text : String → Bool
  pub parse_session_request : String → Option RequestorRequest
  pub parse_revocation : String → Option RevocationRequest
  pub algorithm : String → Option String
  pub kid : String → Option (Option String)
  pub claims : String → Option StandardClaims
  pub verifies : ℕ → String → String → Bool
  pub verify_issued_at : ℕ → ℕ → Bool
  pub parse_requestor_jwt : String → String → Option RequestorRequest
  pub parse_revocation_jwt : String → Option (RevocationRequest × String)

-- The errors that are answered.
pub data AuthError : Type 0 where
  invalid_request unauthorized : AuthError

-- What an authenticator answers: the request and the name of the requestor if it applies.
pub data Answer (A : Type 0) : Type 0 where
  not_applicable : Answer A
  refused : AuthError → Answer A
  accepted : A → String → Answer A

-- The keys of the authenticators, by requestor, and the greatest age of a token in seconds. A preshared key
-- stands for the requestor.
pub data Authenticator : Type 0 where
  hmac_authenticator : List (String × String) → ℕ → Authenticator
  public_key_authenticator : List (String × String) → ℕ → Authenticator
  preshared_key_authenticator : List (String × String) → Authenticator
  nil_authenticator : Authenticator

abbrev pub nanoseconds : ℕ
nanoseconds = 1000000000

module _ (wire : Wire) where
  -- The requestor that a token names: its `kid`, or its issuer without one.
  unfoldable pub named_requestor : String → StandardClaims → Option String
  named_requestor token claims = if_some (wire.kid token) (some claims.issuer) (λ kid. kid)

  -- jwtKeyExtractor: the requestor and its key.
  unfoldable pub jwt_key :
      List (String × String) → String → StandardClaims → Option (String × String)
  unfolding named_requestor
  jwt_key keys token claims =
      if_some (named_requestor token claims) none
        (λ requestor. if_some (lookup requestor keys) none (λ key. some (requestor, key)))

  -- jwtValidateClaims: the requestor that the key belongs to becomes the issuer of the claims.
  unfoldable pub jwt_validate_claims :
      ℕ → String → List (String × String) → ℕ → Outcome AuthError StandardClaims
  unfolding jwt_key
  jwt_validate_claims now token keys max_request_age =
      or_err (wire.claims token) invalid_request >>= λ claims.
      or_err (jwt_key keys token claims) invalid_request >>= λ (requestor, key).
      ensure (wire.verifies (now / nanoseconds) token key) invalid_request
      >> (ensure (not (ltb ((claims.issued_at + max_request_age) * nanoseconds) now)) unauthorized
          >> (ensure (wire.verify_issued_at (now / nanoseconds) claims.issued_at) unauthorized
              >> ok (record claims { issuer = requestor })))

  -- jwtApplies
  unfoldable pub jwt_applies : Post → String → Bool
  jwt_applies post alg =
      post.authorization == ""
      && (wire.is_text post.content_type
          && if_some (wire.algorithm post.body) false (λ found. found == alg))

  unfoldable pub answered : {A : Type 0} → Outcome AuthError (A × String) → Answer A
  answered (ok (a, requestor)) = accepted a requestor
  answered (err e) = refused e
  answered panic = refused invalid_request

  -- jwtAuthenticate
  unfoldable pub jwt_authenticate :
      ℕ → Post → String → List (String × String) → ℕ → Answer RequestorRequest
  unfolding jwt_applies jwt_validate_claims answered
  jwt_authenticate now post alg keys max_request_age =
      if not (jwt_applies post alg)
      then not_applicable
      else answered (
          jwt_validate_claims now post.body keys max_request_age >>= λ claims.
          or_err (wire.parse_requestor_jwt claims.subject post.body) invalid_request >>= λ request.
          ok (request, claims.issuer))

  -- jwtAutheticateRevocation: the requestor is the server that the body names.
  unfoldable pub jwt_authenticate_revocation :
      ℕ → Post → String → List (String × String) → ℕ → Answer RevocationRequest
  unfolding jwt_applies jwt_validate_claims answered
  jwt_authenticate_revocation now post alg keys max_request_age =
      if not (jwt_applies post alg)
      then not_applicable
      else answered (
          jwt_validate_claims now post.body keys max_request_age >>= λ claims.
          or_err (wire.parse_revocation_jwt post.body) invalid_request)

  -- The requestor of a preshared key, if there is a header for it.
  unfoldable pub preshared : {A : Type 0} → Post → List (String × String) → Option A → Answer A
  preshared post keys parsed =
      if post.authorization == "" || not (wire.is_json post.content_type)
      then not_applicable
      else if_some (lookup post.authorization keys) (refused unauthorized)
          (λ requestor. if_some parsed (refused invalid_request) (λ a. accepted a requestor))

  unfoldable pub unauthenticated : {A : Type 0} → Post → Option A → Answer A
  unauthenticated post parsed =
      if not (post.authorization == "") || not (wire.is_json post.content_type)
      then not_applicable
      else if_some parsed (refused invalid_request) (λ a. accepted a "")

  -- AuthenticateSession
  unfoldable pub authenticate_session : ℕ → Post → Authenticator → Answer RequestorRequest
  unfolding jwt_authenticate preshared unauthenticated
  authenticate_session now post (hmac_authenticator keys age) =
      jwt_authenticate now post "HS256" keys age
  authenticate_session now post (public_key_authenticator keys age) =
      jwt_authenticate now post "RS256" keys age
  authenticate_session now post (preshared_key_authenticator keys) =
      preshared post keys (wire.parse_session_request post.body)
  authenticate_session now post nil_authenticator =
      unauthenticated post (wire.parse_session_request post.body)

  -- AuthenticateRevocation
  unfoldable pub authenticate_revocation : ℕ → Post → Authenticator → Answer RevocationRequest
  unfolding jwt_authenticate_revocation preshared unauthenticated
  authenticate_revocation now post (hmac_authenticator keys age) =
      jwt_authenticate_revocation now post "HS256" keys age
  authenticate_revocation now post (public_key_authenticator keys age) =
      jwt_authenticate_revocation now post "RS256" keys age
  authenticate_revocation now post (preshared_key_authenticator keys) =
      preshared post keys (wire.parse_revocation post.body)
  authenticate_revocation now post nil_authenticator =
      unauthenticated post (wire.parse_revocation post.body)
