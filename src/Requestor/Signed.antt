-- ===== src/Requestor/Signed.antt =====
-- Whose name a request of server/requestorserver/auth.go carries.
use irmago.Prelude.{
  ℕ, ◌+◌, ◌*◌, ◌/◌, ◌≡◌, refl, subst, ap, ◌∙◌, Bool, true, false, not, Option, none, some, List,
  String, string_eq, ltb, if_some, if◌then◌else◌,
}
use irmago.Prelude.Map.{lookup}
use irmago.Prelude.Outcome.{
  Outcome, ok, err, panic, ◌>>=◌, ◌>>◌, >>=-eq-ok, ensure, or_err, or_err-eq-ok,
}
use irmago.Session.Types.{RequestorRequest}
use irmago.Requestor.Authentication.{
  StandardClaims, Post, Wire, AuthError, invalid_request, unauthorized, Answer, not_applicable,
  accepted, named_requestor, jwt_key, jwt_validate_claims, jwt_applies, answered, jwt_authenticate,
  nanoseconds,
}

-- A token that the key of the requestor verifies at this time.
pub record SignedBy (wire : Wire) (now : ℕ) (token : String) (keys : List (String × String))
    (requestor : String) : Type 0 where
  pub key : String
  pub known : lookup requestor keys ≡ some key
  pub verified : wire.verifies (now / nanoseconds) token key ≡ true

module _ (wire : Wire) where
  if_some-eq-some :
      {A B : Type 0} (o : Option A) (f : A → Option B) {b : B}
      → if_some o none f ≡ some b
      → (a : A) × (o ≡ some a) × (f a ≡ some b)
  if_some-eq-some none f h = cc
  if_some-eq-some (some a) f h = (a, refl, h)

  jwt_key-lookup :
      (keys : List (String × String)) (token : String) (claims : StandardClaims)
      (requestor key : String)
      → jwt_key wire keys token claims ≡ some (requestor, key)
      → lookup requestor keys ≡ some key
  unfolding jwt_key
  jwt_key-lookup keys token claims requestor key h =
      let find : String → Option (String × String) =
        λ name. if_some (lookup name keys) none (λ k. some (name, k)) in
      let (name, named, h1) = if_some-eq-some (named_requestor wire token claims) find h in
      let (k, found, h2) = if_some-eq-some (lookup name keys) (λ k. some (name, k)) h1 in
      let same : name ≡ requestor = cc h2 in
      let same_key : k ≡ key = cc h2 in
      subst (λ n. lookup n keys ≡ some key) same (found ∙ ap some same_key)

  ensure-eq-ok :
      {A : Type 0} (b : Bool) (e : AuthError) (rest : Outcome AuthError A) {a : A}
      → (ensure b e >> rest) ≡ ok a
      → (b ≡ true) × (rest ≡ ok a)
  ensure-eq-ok true e rest h = (refl, h)
  ensure-eq-ok false e rest h = cc

  pub jwt_validate_claims-SignedBy :
      (now : ℕ) (token : String) (keys : List (String × String)) (age : ℕ) (claims : StandardClaims)
      → jwt_validate_claims wire now token keys age ≡ ok claims
      → SignedBy wire now token keys claims.issuer
  unfolding jwt_validate_claims
  jwt_validate_claims-SignedBy now token keys age claims h =
      let fresh : StandardClaims → String → Outcome AuthError StandardClaims = λ c requestor.
        ensure (not (ltb ((c.issued_at + age) * nanoseconds) now)) unauthorized
        >> (ensure (wire.verify_issued_at (now / nanoseconds) c.issued_at) unauthorized
            >> ok (record c { issuer = requestor })) in
      let signed : StandardClaims → String × String → Outcome AuthError StandardClaims = λ c p.
        ensure (wire.verifies (now / nanoseconds) token p.1) invalid_request >> fresh c p.0 in
      let (c, parsed, h1) =
        >>=-eq-ok (or_err (wire.claims token) invalid_request)
          (λ c. or_err (jwt_key wire keys token c) invalid_request >>= signed c) h in
      let (p, found, h2) =
        >>=-eq-ok (or_err (jwt_key wire keys token c) invalid_request) (signed c) h1 in
      let (verified, h3) =
        ensure-eq-ok (wire.verifies (now / nanoseconds) token p.1) invalid_request (fresh c p.0)
          h2 in
      let (young, h4) =
        ensure-eq-ok (not (ltb ((c.issued_at + age) * nanoseconds) now)) unauthorized _ h3 in
      let (issued, h5) =
        ensure-eq-ok (wire.verify_issued_at (now / nanoseconds) c.issued_at) unauthorized _ h4 in
      let name : p.0 ≡ claims.issuer = cc h5 in
      let known =
        jwt_key-lookup keys token c p.0 p.1
          (or_err-eq-ok (jwt_key wire keys token c) invalid_request found) in
      record {
        key = p.1;
        known = subst (λ n. lookup n keys ≡ some p.1) name known;
        verified = verified;
      }

  pub answered-accepted :
      {A : Type 0} (o : Outcome AuthError (A × String)) (a : A) (requestor : String)
      → answered wire o ≡ accepted a requestor
      → o ≡ ok (a, requestor)
  unfolding answered
  answered-accepted (ok (b, name)) a requestor h = cc h
  answered-accepted (err e) a requestor h = cc
  answered-accepted panic a requestor h = cc

  pub if-accepted :
      {A : Type 0} (b : Bool) (x : Answer A) {a : A} {requestor : String}
      → (if b then not_applicable else x) ≡ accepted a requestor
      → x ≡ accepted a requestor
  if-accepted true x h = cc
  if-accepted false x h = h

  -- A session request in a token is accepted in the name of a requestor only if the key of this requestor
  -- verifies the token.
  pub jwt_authenticate-SignedBy :
      (now : ℕ) (post : Post) (alg : String) (keys : List (String × String)) (age : ℕ)
      (request : RequestorRequest) (requestor : String)
      → jwt_authenticate wire now post alg keys age ≡ accepted request requestor
      → SignedBy wire now post.body keys requestor
  unfolding jwt_authenticate
  jwt_authenticate-SignedBy now post alg keys age request requestor h =
      let name : StandardClaims → Outcome AuthError (RequestorRequest × String) = λ claims.
        or_err (wire.parse_requestor_jwt claims.subject post.body) invalid_request >>= λ r.
        ok (r, claims.issuer) in
      let given = if-accepted (not (jwt_applies wire post alg)) _ h in
      let result =
        answered-accepted (jwt_validate_claims wire now post.body keys age >>= name) request
          requestor given in
      let (claims, valid, h1) =
        >>=-eq-ok (jwt_validate_claims wire now post.body keys age) name result in
      let (r, parsed, h2) =
        >>=-eq-ok (or_err (wire.parse_requestor_jwt claims.subject post.body) invalid_request)
          (λ r. ok (r, claims.issuer)) h1 in
      let same : claims.issuer ≡ requestor = cc h2 in
      subst (λ n. SignedBy wire now post.body keys n) same
        (jwt_validate_claims-SignedBy now post.body keys age claims valid)
