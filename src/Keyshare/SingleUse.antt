-- ===== src/Keyshare/SingleUse.antt =====
-- A commitment of the core of internal/keysharecore/operations.go is responded to once.
use irmago.Prelude.{
  ℕ, ◌+◌, ◌≤◌, ◌≡◌, refl, Bool, none, List, [], ◌∷◌, String, nat_eq, pair_eq, arith,
}
use irmago.Prelude.Int.{ℤ}
use irmago.Prelude.Map.{lookup}
use irmago.Identifier.{identifier_eq}
use irmago.Keyshare.Secrets.{UserSecrets}
use irmago.Keyshare.Core.{Core, Library, PublicKeyIdentifier, ResponseRequest}
use irmago.Keyshare.Operations.{
  validate_auth, generate_commitments, generate_response, generate_response_v2, generate_challenge,
}
use irmago.Keyshare.Commitments.{
  held, counted, Spends, Stores, generate_response-Spends, generate_response_v2-Spends,
  held-generate_challenge, held-validate_auth, generate_commitments-Stores,
}

-- The operations that change a core, with their arguments.
pub data Operation : Type 0 where
  commits : ℕ → ℕ → UserSecrets → String → List PublicKeyIdentifier → Operation
  responds : ℕ → UserSecrets → String → ℕ → ℤ → PublicKeyIdentifier → Operation
  responds_v2 :
      ℕ
      → UserSecrets
      → String
      → ℕ
      → String
      → ResponseRequest
      → PublicKeyIdentifier
      → Bool
      → Operation
  challenges : ℕ → List ℕ → UserSecrets → String → Operation
  authenticates : ℕ → UserSecrets → String → Operation

module _ (lib : Library) where
  -- The core after an operation, the commitments that the operation made with this identifier, and the
  -- responses that it gave to them.
  unfoldable pub perform : Operation → Core → Core
  perform (commits now used secrets jwt ids) c =
      (generate_commitments lib now used secrets jwt ids c).0
  perform (responds now secrets jwt used challenge key_id) c =
      (generate_response lib now secrets jwt used challenge key_id c).0
  perform (responds_v2 now secrets jwt used hashed request key_id linkable) c =
      (generate_response_v2 lib now secrets jwt used hashed request key_id linkable c).0
  perform (challenges now challenge secrets jwt) c =
      (generate_challenge lib now challenge secrets jwt c).0
  perform (authenticates now secrets jwt) c = (validate_auth lib now secrets jwt c).0

  unfoldable pub commitments : ℕ → Operation → Core → ℕ
  unfolding counted
  commitments id (commits now used secrets jwt ids) c =
      counted id used (generate_commitments lib now used secrets jwt ids c).1
  commitments id _ c = 0

  unfoldable pub responses : ℕ → Operation → Core → ℕ
  unfolding counted
  responses id (responds now secrets jwt used challenge key_id) c =
      counted id used (generate_response lib now secrets jwt used challenge key_id c).1
  responses id (responds_v2 now secrets jwt used hashed request key_id linkable) c =
      counted id used
        (generate_response_v2 lib now secrets jwt used hashed request key_id linkable c).1
  responses id _ c = 0

  perform-balance :
      (id : ℕ) (operation : Operation) (c : Core)
      → responses id operation c + held id (perform operation c)
        ≤ held id c + commitments id operation c
  unfolding perform commitments responses Stores Spends
  perform-balance id (commits now used secrets jwt ids) c =
      omega (arith, generate_commitments-Stores lib id now used secrets jwt ids c)
  perform-balance id (responds now secrets jwt used challenge key_id) c =
      omega (arith, generate_response-Spends lib id now used secrets jwt challenge key_id c)
  perform-balance id (responds_v2 now secrets jwt used hashed request key_id linkable) c = omega (
    arith,
    generate_response_v2-Spends lib id now used secrets jwt hashed request key_id linkable c,
  )
  perform-balance id (challenges now challenge secrets jwt) c =
      omega (arith, held-generate_challenge lib id now challenge secrets jwt c)
  perform-balance id (authenticates now secrets jwt) c =
      omega (arith, held-validate_auth lib id now secrets jwt c)

  -- All the commitments with this identifier, and all the responses to them, of a run of operations.
  unfoldable pub all_commitments : ℕ → List Operation → Core → ℕ
  unfolding commitments perform
  all_commitments id [] c = 0
  all_commitments id (operation ∷ operations) c =
      commitments id operation c + all_commitments id operations (perform operation c)

  unfoldable pub all_responses : ℕ → List Operation → Core → ℕ
  unfolding responses perform
  all_responses id [] c = 0
  all_responses id (operation ∷ operations) c =
      responses id operation c + all_responses id operations (perform operation c)

  all_responses-balance :
      (id : ℕ) (operations : List Operation) (c : Core)
      → all_responses id operations c ≤ held id c + all_commitments id operations c
  unfolding all_responses all_commitments
  all_responses-balance id [] c = omega arith
  all_responses-balance id (operation ∷ operations) c = omega (
    arith,
    perform-balance id operation c,
    all_responses-balance id operations (perform operation c),
  )

  -- Whatever operations run on a core that holds no commitment of this identifier, it gives no more responses
  -- to commitments with the identifier than it made such commitments.
  pub all_responses-all_commitments :
      (id : ℕ) (operations : List Operation) (c : Core)
      → lookup id c.commitment_data ≡ none
      → all_responses id operations c ≤ all_commitments id operations c
  all_responses-all_commitments id operations c absent =
      let none_held : held id c ≡ 0 = unfold held in rw absent refl in
      omega (arith, all_responses-balance id operations c)
