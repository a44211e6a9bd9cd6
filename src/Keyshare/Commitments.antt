-- ===== src/Keyshare/Commitments.antt =====
-- What the operations of internal/keysharecore/operations.go do to one commitment of the core.
use irmago.Prelude.{
  ℕ, ◌+◌, ◌≤◌, ◌≡◌, refl, inl, inr, Bool, true, false, none, List, String, ◌==◌, nat_eq, pair_eq,
  is_some, if◌then◌else◌, arith, Bool-cases, Option-cases, nat_beq_iff, beq_refl,
}
use irmago.Prelude.Int.{ℤ}
use irmago.Prelude.Map.{lookup, insert, lookup-insert, lookup-delete}
use irmago.Prelude.Outcome.{ok, err, panic, ◌>>=◌, or_err}
use irmago.Identifier.{identifier_eq}
use irmago.Keyshare.Secrets.{
  invalid_challenge, key_not_found, other, Result, UserSecrets, UnencryptedUserSecrets,
}
use irmago.Keyshare.Core.{Core, Library, PublicKeyIdentifier, IdemixKey, ProofP, ResponseRequest}
use irmago.Keyshare.Operations.{
  out_of_bounds, with_result, validate_auth, validate_decrypted, verify_access, key_list,
  commit_secrets, generate_commitments, respond, generate_response, generate_response_v2,
  checked_proof, generate_challenge, challenge_decrypted, check_challenge_request, decrypt,
}

abbrev pub one_if : Bool → ℕ
one_if true = 1
one_if false = 0

abbrev pub is_ok : {A : Type 0} → Result A → Bool
is_ok (ok a) = true
is_ok _ = false

-- Whether the core holds a secret for this commitment.
unfoldable pub held : ℕ → Core → ℕ
held id c = one_if (is_some (lookup id c.commitment_data))

-- A result about commitment `used`, counted if that is commitment `id`.
unfoldable pub counted : {A : Type 0} → ℕ → ℕ → Result A → ℕ
counted id used r = if used == id then one_if (is_ok r) else 0

-- `kept` and `spent` of what an operation on a commitment leaves add up to no more than there was.
unfoldable pub Spends : {A : Type 0} → ℕ → ℕ → ℕ → Core × Result A → Type 0
Spends id used before x = counted id used x.1 + held id x.0 ≤ before

Spends-stays :
    {A : Type 0} (id used : ℕ) (c : Core) (r : Result A)
    → is_ok r ≡ false
    → Spends id used (held id c) (c, r)
unfolding counted Spends
Spends-stays id used c r h = ground (arith, h)

Spends-with_result :
    {A B : Type 0} (id used : ℕ) (c : Core) (r : Result B) (next : B → Core × Result A)
    → ((b : B) → Spends id used (held id c) (next b))
    → Spends id used (held id c) (with_result c r next)
unfolding with_result
Spends-with_result id used c (ok b) next step = step b
Spends-with_result id used c (err e) next step = Spends-stays id used c (err e) refl
Spends-with_result id used c panic next step = Spends-stays id used c panic refl

one_if-le : (b : Bool) → one_if b ≤ 1
one_if-le true = omega arith
one_if-le false = omega arith

counted-differs :
    {A : Type 0} (id used : ℕ) (r : Result A) → (used == id) ≡ false → counted id used r ≡ 0
unfolding counted
counted-differs id used r differs = rw differs refl

counted-same : {A : Type 0} (id : ℕ) (r : Result A) → counted id id r ≡ one_if (is_ok r)
unfolding counted
counted-same id r = rw (beq_refl id) refl

module _ (lib : Library) where
  held-respond :
      (id now used : ℕ) (prove : ℕ → Result ProofP) (c : Core)
      → held id (respond lib now used prove c).0 ≡ (if used == id then 0 else held id c)
  unfolding held respond
  held-respond id now used prove c = elim (Bool-cases (used == id)) [
    | inl same ↦ rw (lookup-delete used id c.commitment_data, same) refl
    | inr differs ↦ rw (lookup-delete used id c.commitment_data, differs) refl
  ]

  respond-unknown :
      (now used : ℕ) (prove : ℕ → Result ProofP) (c : Core)
      → lookup used c.commitment_data ≡ none
      → is_ok (respond lib now used prove c).1 ≡ false
  unfolding respond
  respond-unknown now used prove c gone = rw gone refl

  respond-Spends :
      (id now used : ℕ) (prove : ℕ → Result ProofP) (c : Core)
      → Spends id used (held id c) (respond lib now used prove c)
  unfolding Spends
  respond-Spends id now used prove c = elim (Bool-cases (used == id)) [
    | inl same ↦
        rw
          (
            (nat_beq_iff used id).0 same,
            counted-same id (respond lib now id prove c).1,
            held-respond id now id prove c,
            beq_refl id,
          )
          (elim (Option-cases (lookup id c.commitment_data)) [
            | inl gone ↦ rw (respond-unknown now id prove c gone) (omega arith)
            | inr (secret, there) ↦
                unfold held in
                rw there (omega (arith, one_if-le (is_ok (respond lib now id prove c).1)))
          ])
    | inr differs ↦
        rw
          (
            counted-differs id used (respond lib now used prove c).1 differs,
            held-respond id now used prove c,
            differs,
          )
          (omega arith)
  ]

  -- A response that needs a key and a valid token.
  authorized-Spends :
      {K U : Type 0} (id now used : ℕ) (c : Core) (key : Result K) (user : Result U)
      (prove : K → U → ℕ → Result ProofP)
      → Spends id used
          (held id c)
          (with_result c key (λ k. with_result c user (λ u. respond lib now used (prove k u) c)))
  authorized-Spends id now used c key user prove =
      Spends-with_result id used c key _
        (λ k. Spends-with_result id used c user _ (λ u. respond-Spends id now used (prove k u) c))

  pub generate_response-Spends :
      (id now used : ℕ) (secrets : UserSecrets) (jwt : String) (challenge : ℤ)
      (key_id : PublicKeyIdentifier) (c : Core)
      → Spends id used (held id c) (generate_response lib now secrets jwt used challenge key_id c)
  unfolding generate_response
  generate_response-Spends id now used secrets jwt challenge key_id c =
      elim (Bool-cases (out_of_bounds challenge)) [
        | inl out ↦ rw out (Spends-stays id used c (err invalid_challenge) refl)
        | inr bounded ↦ rw bounded (
            authorized-Spends id now used c (or_err (lookup key_id c.trusted_keys) key_not_found)
              (verify_access lib now secrets jwt c)
              (λ key s commit. ok (lib.response_legacy s.keyshare_secret commit challenge key)))
      ]

  pub generate_response_v2-Spends :
      (id now used : ℕ) (secrets : UserSecrets) (jwt hashed : String) (request : ResponseRequest)
      (key_id : PublicKeyIdentifier) (linkable : Bool) (c : Core)
      → Spends id used
          (held id c)
          (generate_response_v2 lib now secrets jwt used hashed request key_id linkable c)
  unfolding generate_response_v2
  generate_response_v2-Spends id now used secrets jwt hashed request key_id linkable c =
      authorized-Spends id now used c (or_err (lookup key_id c.trusted_keys) key_not_found)
        (verify_access lib now secrets jwt c)
        (λ key s commit.
          or_err (lib.response s.keyshare_secret commit hashed request) other >>= λ proof_p.
          checked_proof lib s key request linkable proof_p)

  held-with_result :
      {A B : Type 0} (id before : ℕ) (c : Core) (r : Result B) (next : B → Core × Result A)
      → held id c ≡ before
      → ((b : B) → held id (next b).0 ≡ before)
      → held id (with_result c r next).0 ≡ before
  unfolding with_result
  held-with_result id before c (ok b) next h step = step b
  held-with_result id before c (err e) next h step = h
  held-with_result id before c panic next h step = h

  -- What these operations leave of the commitments.
  held-challenge_decrypted :
      (id now : ℕ) (challenge : List ℕ) (jwt : String) (c : Core) (s : UnencryptedUserSecrets)
      → held id (challenge_decrypted lib now challenge jwt c s).0 ≡ held id c
  unfolding challenge_decrypted held
  held-challenge_decrypted id now challenge jwt c s =
      held-with_result id (held id c) c (check_challenge_request lib now jwt s)
        (λ _.
          (record c { auth_challenges = insert s.id challenge c.auth_challenges }, ok challenge))
        refl (λ _. refl)

  held-validate_decrypted :
      (id now : ℕ) (jwt : String) (c : Core) (s : UnencryptedUserSecrets)
      → held id (validate_decrypted lib now jwt c s).0 ≡ held id c
  unfolding validate_decrypted held
  held-validate_decrypted id now jwt c s = refl

  pub held-generate_challenge :
      (id now : ℕ) (challenge : List ℕ) (secrets : UserSecrets) (jwt : String) (c : Core)
      → held id (generate_challenge lib now challenge secrets jwt c).0 ≡ held id c
  unfolding generate_challenge
  held-generate_challenge id now challenge secrets jwt c =
      held-with_result id (held id c) c (decrypt lib c secrets)
        (challenge_decrypted lib now challenge jwt c) refl
        (λ s. held-challenge_decrypted id now challenge jwt c s)

  pub held-validate_auth :
      (id now : ℕ) (secrets : UserSecrets) (jwt : String) (c : Core)
      → held id (validate_auth lib now secrets jwt c).0 ≡ held id c
  unfolding validate_auth
  held-validate_auth id now secrets jwt c =
      held-with_result id (held id c) c (decrypt lib c secrets) (validate_decrypted lib now jwt c)
        refl (λ s. held-validate_decrypted id now jwt c s)

  -- Commitments are stored under the identifier they are counted for.
  unfoldable pub Stores : {A : Type 0} → ℕ → ℕ → ℕ → Core × Result A → Type 0
  Stores id used before x = held id x.0 ≤ before + counted id used x.1

  Stores-with_result :
      {A B : Type 0} (id used : ℕ) (c : Core) (r : Result B) (next : B → Core × Result A)
      → ((b : B) → Stores id used (held id c) (next b))
      → Stores id used (held id c) (with_result c r next)
  unfolding with_result Stores
  Stores-with_result id used c (ok b) next step = step b
  Stores-with_result id used c (err e) next step = omega arith
  Stores-with_result id used c panic next step = omega arith

  insert-Stores :
      {A : Type 0} (id used secret : ℕ) (a : A) (c : Core)
      → Stores id used
          (held id c)
          (record c { commitment_data = insert used secret c.commitment_data }, ok a)
  unfolding Stores held counted
  insert-Stores id used secret a c = elim (Bool-cases (used == id)) [
    | inl same ↦ rw (lookup-insert used id secret c.commitment_data, same) (omega arith)
    | inr differs ↦ rw (lookup-insert used id secret c.commitment_data, differs) (omega arith)
  ]

  commit_secrets-Stores :
      (id used : ℕ) (keys : List IdemixKey) (s : UnencryptedUserSecrets) (c : Core)
      → Stores id used (held id c) (commit_secrets lib used keys c s)
  unfolding commit_secrets
  commit_secrets-Stores id used keys s c =
      Stores-with_result id used c (or_err (lib.new_commitments s.keyshare_secret keys) other)
        (λ made.
          (record c { commitment_data = insert used made.0 c.commitment_data }, ok (made.1, used)))
        (λ made. insert-Stores id used made.0 (made.1, used) c)

  pub generate_commitments-Stores :
      (id now used : ℕ) (secrets : UserSecrets) (jwt : String) (ids : List PublicKeyIdentifier)
      (c : Core)
      → Stores id used (held id c) (generate_commitments lib now used secrets jwt ids c)
  unfolding generate_commitments
  generate_commitments-Stores id now used secrets jwt ids c =
      Stores-with_result id used c (key_list lib ids c)
        (λ keys.
          with_result c (verify_access lib now secrets jwt c) (commit_secrets lib used keys c))
        (λ keys.
          Stores-with_result id used c (verify_access lib now secrets jwt c)
            (commit_secrets lib used keys c) (λ s. commit_secrets-Stores id used keys s c))
