-- ===== src/Disclosure/Singletons.antt =====
-- Singleton credentials in the proofs that verify.go accepts.
use irmago.Prelude.{
  ℕ, suc, ◌≤◌, ◌≡◌, refl, sym, subst, beq_refl, ◌∙◌, inl, inr, Bool, true, false, ◌&&◌, Option,
  none, some, List, [], ◌∷◌, ◌++◌, ◌==◌, nat_eq, if_some, if◌then◌else◌, Bool-cases, arith, length,
}
use irmago.Prelude.Map.{lookup}
use irmago.Prelude.Outcome.{
  Outcome, ok, err, panic, ◌>>=◌, >>=-eq-ok, ensure, or_panic, or_panic-eq-ok, or_err, or_err-eq-ok,
}
use irmago.Identifier.{Identifier, identifier_eq}
use irmago.Metadata.{MetadataAttribute, credential_type_hash}
use irmago.Disclosure.{
  CredentialType, Proof, proof_d, other_proof, NonRevocationProof, VerifyError,
  unknown_credential_type, insufficient_public_keys, RevocationTimes,
}
use irmago.Disclosure.Verify.{
  Verifier, PublicKey, verify_proofs, verify_with, keyshare_servers, extract_public_keys,
  NonRevocation, has_identifier, unless_invalid, check_revocation, check_proofs,
}

module _ (v : Verifier) where
  -- Whether a proof shows a singleton credential of this type.
  unfoldable pub shows_singleton : Identifier → List (ℕ × ℕ) → Bool
  shows_singleton id disclosed = if_some (lookup 1 disclosed) false (λ metadata.
      if_some (v.scheme.credential_type (credential_type_hash metadata)) false
        (λ typ. typ.is_singleton && typ.identifier == id))

  -- The proofs of singleton credentials of this type.
  unfoldable pub singletons : Identifier → List Proof → ℕ
  unfolding shows_singleton
  singletons id [] = 0
  singletons id (other_proof p ∷ proofs) = singletons id proofs
  singletons id (proof_d disclosed revocation_proof ∷ proofs) =
      let rest = singletons id proofs in if shows_singleton id disclosed then suc rest else rest

  unless_invalid-eq-some :
      {A B : Type 0} (o : Outcome VerifyError (Option A))
      (next : A → Outcome VerifyError (Option B)) {b : B}
      → unless_invalid o next ≡ ok (some b)
      → (a : A) × (next a ≡ ok (some b))
  unless_invalid-eq-some (ok none) next h = cc
  unless_invalid-eq-some (ok (some a)) next h = (a, h)
  unless_invalid-eq-some (err e) next h = cc
  unless_invalid-eq-some panic next h = cc

  found :
      {A B : Type 0} (o : Outcome VerifyError (Option A))
      (next : A → Outcome VerifyError (Option B)) {b : B}
      → unless_invalid o next ≡ ok (some b)
      → (a : A) × (o ≡ ok (some a))
  found (ok none) next h = cc
  found (ok (some a)) next h = (a, refl)
  found (err e) next h = cc
  found panic next h = cc

  if-invalid :
      {A : Type 0} (b : Bool) (rest : Outcome VerifyError (Option A)) {a : A}
      → (if b then ok none else rest) ≡ ok (some a)
      → (b ≡ false) × (rest ≡ ok (some a))
  if-invalid true rest h = cc
  if-invalid false rest h = (refl, h)

  if-verified :
      {A : Type 0} (b : Bool) (rest : Outcome VerifyError (Option A)) {a : A}
      → (if b then rest else ok none) ≡ ok (some a)
      → (b ≡ true) × (rest ≡ ok (some a))
  if-verified true rest h = (refl, h)
  if-verified false rest h = cc

  -- The checks that are left after a proof of this type.
  remember : CredentialType → List Identifier → List Identifier
  remember typ seen = if typ.is_singleton then typ.identifier ∷ seen else seen

  remember-identifier :
      (typ : CredentialType) (seen : List Identifier)
      → typ.is_singleton ≡ true
      → has_identifier (remember typ seen) typ.identifier ≡ true
  unfolding remember has_identifier
  remember-identifier typ seen single = rw (single, beq_refl typ.identifier) refl

  remember-contains :
      (typ : CredentialType) (seen : List Identifier) (id : Identifier)
      → has_identifier seen id ≡ true
      → has_identifier (remember typ seen) id ≡ true
  unfolding remember has_identifier
  remember-contains typ seen id before = elim (Bool-cases typ.is_singleton) [
    | inl single ↦ rw single (ground (arith, before))
    | inr several ↦ rw several before
  ]

  check_proofs-next :
      (t : ℕ) (params : List (Identifier × NonRevocation)) (i : ℕ) (seen : List Identifier)
      (disclosed : List (ℕ × ℕ)) (revocation_proof : Option NonRevocationProof)
      (proofs : List Proof) (times : RevocationTimes)
      → check_proofs v t params i seen (proof_d disclosed revocation_proof ∷ proofs)
        ≡ ok (some times)
      → (metadata : MetadataAttribute) × (typ : CredentialType) × (lookup 1 disclosed
          ≡ some metadata)
        × (v.scheme.credential_type (credential_type_hash metadata) ≡ some typ)
        × ((typ.is_singleton && has_identifier seen typ.identifier) ≡ false)
        × ((rest : RevocationTimes) × (check_proofs v t params (suc i) (remember typ seen) proofs
              ≡ ok (some rest)))
  unfolding check_proofs remember
  check_proofs-next t params i seen disclosed revocation_proof proofs times h =
      let others : CredentialType → RevocationTimes → Outcome VerifyError (Option RevocationTimes) =
        λ typ now.
          unless_invalid
            (check_proofs v t params (suc i)
              (if typ.is_singleton then typ.identifier ∷ seen else seen) proofs)
            (λ rest. ok (some (now ++ rest))) in
      let check : CredentialType → Outcome VerifyError (Option RevocationTimes) = λ typ.
        if typ.is_singleton && has_identifier seen typ.identifier
        then ok none
        else unless_invalid
            (check_revocation v t i typ revocation_proof (lookup typ.identifier params))
            (others typ) in
      let type_of : MetadataAttribute → Outcome VerifyError CredentialType = λ metadata.
        or_err (v.scheme.credential_type (credential_type_hash metadata)) unknown_credential_type in
      let (metadata, shown, h1) =
        >>=-eq-ok (or_panic (lookup 1 disclosed)) (λ metadata. type_of metadata >>= check) h in
      let (typ, known, h2) = >>=-eq-ok (type_of metadata) check h1 in
      let (first, h3) = if-invalid (typ.is_singleton && has_identifier seen typ.identifier) _ h2 in
      let (now, h4) =
        unless_invalid-eq-some
          (check_revocation v t i typ revocation_proof (lookup typ.identifier params)) (others typ)
          h3 in
      (
        metadata,
        typ,
        or_panic-eq-ok (lookup 1 disclosed) shown,
        or_err-eq-ok _ unknown_credential_type known,
        first,
        found
            (check_proofs v t params (suc i)
              (if typ.is_singleton then typ.identifier ∷ seen else seen) proofs)
            (λ rest. ok (some (now ++ rest))) h4,
      )

  check_proofs-Single :
      (t : ℕ) (params : List (Identifier × NonRevocation)) (i : ℕ) (seen : List Identifier)
      (proofs : List Proof) (times : RevocationTimes) (id : Identifier)
      → check_proofs v t params i seen proofs ≡ ok (some times)
      → (has_identifier seen id ≡ true → singletons id proofs ≡ 0) × (singletons id proofs ≤ 1)
  unfolding singletons
  check_proofs-Single t params i seen [] times id h = (λ _. refl, omega arith)
  check_proofs-Single t params i seen (other_proof p ∷ proofs) times id h =
      check_proofs-Single t params (suc i) seen proofs times id (unfold check_proofs in h)
  check_proofs-Single t params i seen (proof_d disclosed revocation_proof ∷ proofs) times id h =
      let (metadata, typ, shown, known, first, (rest, h1)) =
        check_proofs-next t params i seen disclosed revocation_proof proofs times h in
      let (gone, once) =
        check_proofs-Single t params (suc i) (remember typ seen) proofs rest id h1 in
      let shows : shows_singleton id disclosed ≡ (typ.is_singleton && typ.identifier == id) =
        unfold shows_singleton in rw (shown, known) refl in
      elim (Bool-cases (shows_singleton id disclosed)) [
        | inl one ↦
            let both = sym shows ∙ one in
            let single : typ.is_singleton ≡ true = ground (arith, both) in
            let same : typ.identifier ≡ id =
              (identifier_eq.decides typ.identifier id).0 (ground (arith, both)) in
            let none_left = gone (
              subst (λ x. has_identifier (remember typ seen) x ≡ true) same
                (remember-identifier typ seen single)) in
            rw one (
              λ before. ground (
                arith,
                single,
                before,
                first,
                subst (λ x. (typ.is_singleton && has_identifier seen x) ≡ false) same first,
              ),
              omega arith,
            )
        | inr another ↦ rw another (λ before. gone (remember-contains typ seen id before), once)
      ]

  verify_with-check_proofs :
      (t : ℕ) (params : List (Identifier × NonRevocation)) (proofs : List Proof)
      (keys : List PublicKey) (times : RevocationTimes)
      → verify_with v t params proofs keys ≡ ok (some times)
      → ((servers : List Identifier) × (v.verify_proofs proofs keys servers ≡ true))
        × (check_proofs v t params 0 [] proofs ≡ ok (some times))
  unfolding verify_with
  verify_with-check_proofs t params proofs keys times h =
      let check : List Identifier → Outcome VerifyError (Option RevocationTimes) = λ servers.
        if v.verify_proofs proofs keys servers
        then check_proofs v t params 0 [] proofs
        else ok none in
      let (u, enough, h1) =
        >>=-eq-ok (ensure (length proofs == length keys) insufficient_public_keys)
          (λ _. keyshare_servers v keys >>= check) h in
      let (servers, known, h2) = >>=-eq-ok (keyshare_servers v keys) check h1 in
      let (verified, checked) =
        if-verified (v.verify_proofs proofs keys servers) (check_proofs v t params 0 [] proofs)
          h2 in
      ((servers, verified), checked)

  verify_proofs-verify_with :
      (t : ℕ) (params : List (Identifier × NonRevocation)) (proof : Proof) (proofs : List Proof)
      (keys : Option (List PublicKey)) (times : RevocationTimes)
      → verify_proofs v t params (proof ∷ proofs) keys ≡ ok (some times)
      → (found : List PublicKey) × (verify_with v t params (proof ∷ proofs) found ≡ ok (some times))
  unfolding verify_proofs
  verify_proofs-verify_with t params proof proofs (some keys) times h = (keys, h)
  verify_proofs-verify_with t params proof proofs none times h =
      let (keys, extracted, h1) =
        >>=-eq-ok (extract_public_keys v (proof ∷ proofs)) (verify_with v t params (proof ∷ proofs))
          h in
      (keys, h1)

  -- Proofs are accepted only if they are cryptographically valid for some keys, and show no credential of a
  -- singleton type more than once.
  pub verify_proofs-singletons :
      (t : ℕ) (params : List (Identifier × NonRevocation)) (proof : Proof) (proofs : List Proof)
      (keys : Option (List PublicKey)) (times : RevocationTimes)
      → verify_proofs v t params (proof ∷ proofs) keys ≡ ok (some times)
      → ((used : List PublicKey) × ((servers : List Identifier) × (v.verify_proofs
                (proof ∷ proofs)
                used
                servers
              ≡ true)))
        × ((id : Identifier) → singletons id (proof ∷ proofs) ≤ 1)
  verify_proofs-singletons t params proof proofs keys times h =
      let (used, h1) = verify_proofs-verify_with t params proof proofs keys times h in
      let ((servers, verified), checked) =
        verify_with-check_proofs t params (proof ∷ proofs) used times h1 in
      (
        (used, (servers, verified)),
        λ id. (check_proofs-Single t params 0 [] (proof ∷ proofs) times id checked).1,
      )
