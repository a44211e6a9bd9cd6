-- ===== src/Keyshare/Access.antt =====
-- Access tokens of internal/keysharecore/operations.go: what a pin gives access to, and when the access ends.
pub mod Revoked
use irmago.Prelude.{
  ℕ, ◌≡◌, refl, sym, ap, subst, beq_refl, ◌∙◌, inl, inr, Bool, true, false, Option, none, some,
  List, String, ◌==◌, Bool-cases,
}
use irmago.Prelude.Map.{lookup, delete, lookup-delete}
use irmago.Prelude.Outcome.{
  Outcome, ok, err, panic, ◌>>=◌, ◌>>◌, >>=-eq-ok, ensure, ensure_iff, or_err, or_err-eq-ok,
}
use irmago.Identifier.{identifier_eq, bytes_beq_iff}
use irmago.Keyshare.Secrets.{
  CoreError, invalid_jwt, wrong_challenge, other, Result, UnencryptedUserSecrets, UserSecrets,
  verify_pin,
}
use irmago.Keyshare.Core.{Core, Library, AccessClaims, AuthResponseClaims}
use irmago.Keyshare.Operations.{
  with_result, decrypt, consume_challenge, validate_decrypted, validate_auth,
  verify_challenge_response, with_public_key, verify_access, token_id_of, auth_jwt, reencrypt,
}

-- What a challenge-response authentication has checked.
pub record Authenticated (lib : Library) (now : ℕ) (jwt : String) (c : Core)
    (s : UnencryptedUserSecrets) : Type 0 where
  public_key : List ℕ
  claims : AuthResponseClaims
  challenged : lookup s.id c.auth_challenges ≡ some claims.challenge
  registered : s.public_key ≡ some public_key
  signed : lib.parse_auth_response public_key now jwt ≡ some claims
  pin_right : verify_pin claims.pin s ≡ ok tt

module _ (lib : Library) where
  -- A test that has to hold before the rest.
  ensure-eq-ok :
      {A : Type 0} (b : Bool) (e : CoreError) (rest : Result A) {a : A}
      → (ensure b e >> rest) ≡ ok a
      → (b ≡ true) × (rest ≡ ok a)
  ensure-eq-ok true e rest h = (refl, h)
  ensure-eq-ok false e rest h = cc

  -- What verifyChallengeResponse has checked.
  verify_challenge_response-eq-ok :
      (now : ℕ) (s : UnencryptedUserSecrets) (jwt : String) (challenge : Option (List ℕ))
      (pin : List ℕ)
      → verify_challenge_response lib now s jwt challenge ≡ ok pin
      → (public_key : List ℕ) × (claims : AuthResponseClaims) × (s.public_key ≡ some public_key)
        × (lib.parse_auth_response public_key now jwt ≡ some claims)
        × (challenge ≡ some claims.challenge)
        × (claims.pin ≡ pin)
  unfolding verify_challenge_response with_public_key
  verify_challenge_response-eq-ok now s jwt none pin h = cc
  verify_challenge_response-eq-ok now s jwt (some expected) pin h =
      let answer : AuthResponseClaims → Result (List ℕ) =
        λ claims. ensure (expected == claims.challenge) wrong_challenge >> ok claims.pin in
      let parse : List ℕ → Result AuthResponseClaims =
        λ pk. or_err (lib.parse_auth_response pk now jwt) other in
      let (claims, parsed, h1) = >>=-eq-ok (or_err s.public_key other >>= parse) answer h in
      let (pk, registered, h2) = >>=-eq-ok (or_err s.public_key other) parse parsed in
      let (same, h3) =
        ensure-eq-ok (expected == claims.challenge) wrong_challenge (ok claims.pin) h1 in
      (
        pk,
        claims,
        or_err-eq-ok s.public_key other registered,
        or_err-eq-ok _ other h2,
        ap some ((bytes_beq_iff expected claims.challenge).0 same),
        cc h3,
      )

  with_result-eq-ok :
      {A B : Type 0} (c c' : Core) (r : Result B) (next : B → Core × Result A) {a : A}
      → with_result c r next ≡ (c', ok a)
      → (b : B) × (r ≡ ok b) × (next b ≡ (c', ok a))
  unfolding with_result
  with_result-eq-ok c c' (ok b) next h = (b, refl, h)
  with_result-eq-ok c c' (err e) next h = cc
  with_result-eq-ok c c' panic next h = cc

  validate_decrypted-Authenticated :
      (now : ℕ) (jwt : String) (c : Core) (s : UnencryptedUserSecrets) (token : String)
      → (validate_decrypted lib now jwt c s).1 ≡ ok token
      → Authenticated lib now jwt c s
  unfolding validate_decrypted
  validate_decrypted-Authenticated now jwt c s token h =
      let check : List ℕ → Result String = λ pin. verify_pin pin s >>= λ _.
      ok (auth_jwt lib now (record c { auth_challenges = delete s.id c.auth_challenges }) s) in
      let (pin, verified, h1) =
        >>=-eq-ok (verify_challenge_response lib now s jwt (lookup s.id c.auth_challenges)) check
          h in
      let (u, right, h2) =
        >>=-eq-ok (verify_pin pin s)
          (λ _.
            ok (auth_jwt lib now (record c { auth_challenges = delete s.id c.auth_challenges }) s))
          h1 in
      let (pk, claims, registered, signed, challenged, same) =
        verify_challenge_response-eq-ok now s jwt (lookup s.id c.auth_challenges) pin verified in
      record {
        public_key = pk;
        claims = claims;
        challenged = challenged;
        registered = registered;
        signed = signed;
        pin_right = ap (λ p. verify_pin p s) same ∙ right;
      }

  consumed :
      (now : ℕ) (jwt : String) (c : Core) (s : UnencryptedUserSecrets)
      → lookup s.id (validate_decrypted lib now jwt c s).0.auth_challenges ≡ none
  unfolding validate_decrypted
  consumed now jwt c s = rw (lookup-delete s.id s.id c.auth_challenges, beq_refl s.id) refl

  -- Access is given to a user only if the core holds a challenge for her, which a token that is signed with her
  -- key answers together with her pin; the challenge is gone afterwards.
  pub validate_auth-Authenticated :
      (now : ℕ) (secrets : UserSecrets) (jwt : String) (c c' : Core) (token : String)
      → validate_auth lib now secrets jwt c ≡ (c', ok token)
      → (s : UnencryptedUserSecrets) × (decrypt lib c secrets ≡ ok s)
        × Authenticated lib now jwt c s
        × (lookup s.id c'.auth_challenges ≡ none)
  unfolding validate_auth
  validate_auth-Authenticated now secrets jwt c c' token h =
      let (s, decrypted, h1) =
        with_result-eq-ok c c' (decrypt lib c secrets) (validate_decrypted lib now jwt c) h in
      (
        s,
        decrypted,
        validate_decrypted-Authenticated now jwt c s token (ap (λ x. x.1) h1),
        subst (λ x. lookup s.id x.0.auth_challenges ≡ none) h1 (consumed now jwt c s),
      )

  -- The identifier in an access token that is valid at this time.
  unfoldable pub access_id : ℕ → String → Core → Result (List ℕ)
  access_id now jwt c =
      or_err (lib.parse_access c.jwt_private_key now jwt) invalid_jwt >>= token_id_of lib now

  pub verify_access-eq-ok :
      (now : ℕ) (secrets : UserSecrets) (jwt : String) (c : Core) (s : UnencryptedUserSecrets)
      → verify_access lib now secrets jwt c ≡ ok s
      → (access_id now jwt c ≡ ok s.id) × (decrypt lib c secrets ≡ ok s)
  unfolding verify_access access_id
  verify_access-eq-ok now secrets jwt c s h =
      let check : List ℕ → UnencryptedUserSecrets → Result UnencryptedUserSecrets =
        λ token_id s. ensure (s.id == token_id) invalid_jwt >> ok s in
      let open_with : List ℕ → Result UnencryptedUserSecrets =
        λ token_id. decrypt lib c secrets >>= check token_id in
      let (claims, parsed, h1) =
        >>=-eq-ok (or_err (lib.parse_access c.jwt_private_key now jwt) invalid_jwt)
          (λ claims. token_id_of lib now claims >>= open_with) h in
      let (token_id, is_id, h2) = >>=-eq-ok (token_id_of lib now claims) open_with h1 in
      let (t, decrypted, h3) = >>=-eq-ok (decrypt lib c secrets) (check token_id) h2 in
      let (same, h4) = ensure-eq-ok (t.id == token_id) invalid_jwt (ok t) h3 in
      let is_s : t ≡ s = cc h4 in
      let id_same : token_id ≡ s.id =
        sym ((bytes_beq_iff t.id token_id).0 same) ∙ ap (λ x. x.id) is_s in
      (rw parsed (is_id ∙ ap ok id_same), decrypted ∙ ap ok is_s)

  -- One access token is not accepted for secrets with different identifiers.
  pub verify_access-id :
      (now : ℕ) (secrets secrets' : UserSecrets) (jwt : String) (c : Core)
      (s s' : UnencryptedUserSecrets)
      → verify_access lib now secrets jwt c ≡ ok s
      → verify_access lib now secrets' jwt c ≡ ok s'
      → s.id ≡ s'.id
  verify_access-id now secrets secrets' jwt c s s' h h' =
      let (id, d) = verify_access-eq-ok now secrets jwt c s h in
      let (id', d') = verify_access-eq-ok now secrets' jwt c s' h' in cc (sym id ∙ id')
