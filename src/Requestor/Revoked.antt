-- ===== src/Requestor/Revoked.antt =====
-- What has been checked when server/requestorserver/server.go revokes a credential, by auth.go and conf.go.
use irmago.Prelude.{
  ℕ, ◌≡◌, refl, ◌⊎◌, inl, inr, Bool, true, false, not, ◌||◌, Option, none, some, List, [], ◌∷◌,
  String, string_eq, ◌==◌, if_some, if◌then◌else◌,
}
use irmago.Prelude.Map.{lookup}
use irmago.Prelude.Outcome.{Outcome, ◌>>=◌, >>=-eq-ok, or_err, or_err-eq-ok}
use irmago.Identifier.{Identifier}
use irmago.Requestor.Permissions.{Configuration, Decision, allowed, denied, can_revoke}
use irmago.Requestor.Authentication.{
  RevocationRequest, StandardClaims, Post, Wire, AuthError, invalid_request, unauthorized, Answer,
  not_applicable, refused, accepted, Authenticator, hmac_authenticator, public_key_authenticator,
  preshared_key_authenticator, nil_authenticator, jwt_applies, jwt_validate_claims,
  jwt_authenticate_revocation, authenticate_revocation, preshared, unauthenticated,
}
use irmago.Requestor.Create.{
  revoked, unknown_revocation_key, revocation_failed, if_allowed, IrmaServer, Settings,
  first_answer, check_auth, revoke, handle_revocation,
}
use irmago.Requestor.Signed.{SignedBy, jwt_validate_claims-SignedBy, answered-accepted, if-accepted}

module _ (wire : Wire) (now : ℕ) (post : Post) where
  -- A token that the key of some requestor verifies, and whose body is the request in this name. The two
  -- requestors need not be the same.
  pub record SignedRevocation (keys : List (String × String)) (request : RevocationRequest)
      (requestor : String) : Type 0 where
    pub signer : String
    pub signed : SignedBy wire now post.body keys signer
    pub parsed : wire.parse_revocation_jwt post.body ≡ some (request, requestor)

  -- What an authenticator has checked of a request that it accepts in the name of a requestor.
  abbrev pub Vouches : Authenticator → RevocationRequest → String → Type 0
  Vouches (hmac_authenticator keys age) request requestor = SignedRevocation keys request requestor
  Vouches (public_key_authenticator keys age) request requestor =
      SignedRevocation keys request requestor
  Vouches (preshared_key_authenticator keys) request requestor =
      (lookup post.authorization keys ≡ some requestor)
      × (wire.parse_revocation post.body ≡ some request)
  Vouches nil_authenticator request requestor =
      (requestor ≡ "")
      × ((post.authorization == "") ≡ true)
      × (wire.parse_revocation post.body ≡ some request)

  -- One of the authenticators vouches for the request.
  abbrev pub AnyVouches : List Authenticator → RevocationRequest → String → Type 0
  AnyVouches [] request requestor = ⊥
  AnyVouches (a ∷ authenticators) request requestor =
      Vouches a request requestor ⊎ AnyVouches authenticators request requestor

  jwt_authenticate_revocation-Signed :
      (alg : String) (keys : List (String × String)) (age : ℕ) (request : RevocationRequest)
      (requestor : String)
      → jwt_authenticate_revocation wire now post alg keys age ≡ accepted request requestor
      → SignedRevocation keys request requestor
  unfolding jwt_authenticate_revocation
  jwt_authenticate_revocation-Signed alg keys age request requestor h =
      let body : StandardClaims → Outcome AuthError (RevocationRequest × String) =
        λ claims. or_err (wire.parse_revocation_jwt post.body) invalid_request in
      let given = if-accepted wire (not (jwt_applies wire post alg)) _ h in
      let result =
        answered-accepted wire (jwt_validate_claims wire now post.body keys age >>= body) request
          requestor given in
      let (claims, valid, h1) =
        >>=-eq-ok (jwt_validate_claims wire now post.body keys age) body result in
      record {
        signer = claims.issuer;
        signed = jwt_validate_claims-SignedBy wire now post.body keys age claims valid;
        parsed = or_err-eq-ok (wire.parse_revocation_jwt post.body) invalid_request h1;
      }

  given_key :
      (key : Option String) (parsed : Option RevocationRequest) (request : RevocationRequest)
      (requestor : String)
      → if_some key
          (refused unauthorized)
          (λ name. if_some parsed (refused invalid_request) (λ a. accepted a name))
        ≡ accepted request requestor
      → (key ≡ some requestor) × (parsed ≡ some request)
  given_key none parsed request requestor h = cc
  given_key (some name) none request requestor h = cc
  given_key (some name) (some a) request requestor h = (cc h, cc h)

  given_nothing :
      (parsed : Option RevocationRequest) (request : RevocationRequest) (requestor : String)
      → if_some parsed (refused invalid_request) (λ a. accepted a "") ≡ accepted request requestor
      → (requestor ≡ "") × (parsed ≡ some request)
  given_nothing none request requestor h = cc
  given_nothing (some a) request requestor h = (cc h, cc h)

  if-applies :
      (b c : Bool) (x : Answer RevocationRequest) {request : RevocationRequest} {requestor : String}
      → (if not b || c then not_applicable else x) ≡ accepted request requestor
      → (b ≡ true) × (x ≡ accepted request requestor)
  if-applies true true x h = cc
  if-applies true false x h = (refl, h)
  if-applies false c x h = cc

  authenticate_revocation-Vouches :
      (a : Authenticator) (request : RevocationRequest) (requestor : String)
      → authenticate_revocation wire now post a ≡ accepted request requestor
      → Vouches a request requestor
  unfolding authenticate_revocation preshared unauthenticated
  authenticate_revocation-Vouches (hmac_authenticator keys age) request requestor h =
      jwt_authenticate_revocation-Signed "HS256" keys age request requestor h
  authenticate_revocation-Vouches (public_key_authenticator keys age) request requestor h =
      jwt_authenticate_revocation-Signed "RS256" keys age request requestor h
  authenticate_revocation-Vouches (preshared_key_authenticator keys) request requestor h =
      given_key (lookup post.authorization keys) (wire.parse_revocation post.body) request requestor
        (if-accepted wire _ _ h)
  authenticate_revocation-Vouches nil_authenticator request requestor h =
      let (empty, h1) = if-applies (post.authorization == "") _ _ h in
      let (name, parsed) = given_nothing (wire.parse_revocation post.body) request requestor h1 in
      (name, empty, parsed)

  answers :
      (x rest : Answer RevocationRequest) (request : RevocationRequest) (requestor : String)
      → elim x [ not_applicable ↦ rest | refused e ↦ refused e | accepted a name ↦ accepted a name ]
        ≡ accepted request requestor
      → (x ≡ accepted request requestor) ⊎ (rest ≡ accepted request requestor)
  answers not_applicable rest request requestor h = inr h
  answers (refused e) rest request requestor h = cc
  answers (accepted a name) rest request requestor h = inl h

  first_answer-AnyVouches :
      (authenticators : List Authenticator) (request : RevocationRequest) (requestor : String)
      → first_answer (authenticate_revocation wire now post) authenticators
        ≡ accepted request requestor
      → AnyVouches authenticators request requestor
  unfolding first_answer
  first_answer-AnyVouches [] request requestor h = cc
  first_answer-AnyVouches (a ∷ authenticators) request requestor h =
      elim (answers (authenticate_revocation wire now post a) _ request requestor h) [
        | inl e ↦ inl (authenticate_revocation-Vouches a request requestor e)
        | inr e ↦ inr (first_answer-AnyVouches authenticators request requestor e)
      ]

revoked_if :
    (d : Decision) (knows revokes : Bool)
    → if_allowed d (
        if not knows
        then unknown_revocation_key ∷ []
        else if revokes
        then revoked ∷ []
        else revocation_failed ∷ [])
      ≡ revoked ∷ []
    → (d ≡ allowed) × (knows ≡ true) × (revokes ≡ true)
unfolding if_allowed
revoked_if allowed true true h = (refl, refl, refl)
revoked_if allowed true false h = cc
revoked_if allowed false revokes h = cc
revoked_if (denied reason) knows revokes h = cc

module _ (matches : String → String → Bool) (conf : Configuration) (settings : Settings)
    (irma : IrmaServer) (wire : Wire) where
  -- A request in whose name the server may revoke, and which it then carries out.
  pub record Revocation (now : ℕ) (post : Post) (has_key : Identifier → Bool)
      (authenticators : List Authenticator) : Type 0 where
    pub request : RevocationRequest
    pub requestor : String
    pub vouched : AnyVouches wire now post authenticators request requestor
    pub permitted : can_revoke has_key requestor request.credential_type conf ≡ allowed
    pub carried_out : irma.revokes request ≡ true

  answer-revoked :
      (now : ℕ) (post : Post) (has_key : Identifier → Bool) (authenticators : List Authenticator)
      (x : Answer RevocationRequest)
      → first_answer (authenticate_revocation wire now post) authenticators ≡ x
      → check_auth x
          (λ request requestor. revoke matches conf settings irma wire has_key requestor request)
        ≡ revoked ∷ []
      → Revocation now post has_key authenticators
  unfolding check_auth revoke
  answer-revoked now post has_key authenticators not_applicable e h = cc
  answer-revoked now post has_key authenticators (refused x) e h = cc
  answer-revoked now post has_key authenticators (accepted request requestor) e h =
      let (may, knows, done) =
        revoked_if (can_revoke has_key requestor request.credential_type conf)
          (irma.knows_key request) (irma.revokes request) h in
      record {
        request = request;
        requestor = requestor;
        vouched = first_answer-AnyVouches wire now post authenticators request requestor e;
        permitted = may;
        carried_out = done;
      }

  -- If a request is answered with a revocation, then the server has revoked a request in the name of a
  -- requestor that may revoke credentials of its type, and one of the authenticators vouches for the request
  -- in this name: a preshared key is the requestor's, or the key of some requestor verifies the token whose
  -- body has the request in this name, or, without authentication, the name is empty.
  pub handle_revocation-Revocation :
      (now : ℕ) (post : Post) (has_key : Identifier → Bool) (authenticators : List Authenticator)
      → handle_revocation matches conf settings irma wire now post has_key authenticators
        ≡ revoked ∷ []
      → Revocation now post has_key authenticators
  unfolding handle_revocation
  handle_revocation-Revocation now post has_key authenticators h =
      answer-revoked now post has_key authenticators _ refl h
