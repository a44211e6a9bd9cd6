-- ===== src/Disclosure/Valid.antt =====
-- What it means that verify.go finds a disclosure valid.
use irmago.Prelude.{
  ℕ, ◌≤◌, ◌≡◌, refl, ap, nat_eq, ◌∙◌, ◌⊎◌, Bool, true, false, not, ◌&&◌, Option, none, some, List,
  [], ◌∷◌, ◌++◌, ◌==◌, ltb, if◌then◌else◌, All, arith, length,
}
use irmago.Prelude.Map.{lookup}
use irmago.Prelude.Outcome.{Outcome, ok, ◌>>=◌, >>=-eq-ok, or_panic, or_panic-eq-ok}
use irmago.Identifier.{Identifier, identifier_eq}
use irmago.Metadata.{MetadataAttribute, credential_type_hash, signing_date, expiry}
use irmago.Request.{AttributeConDisCon}
use irmago.Session.Types.{valid, expired}
use irmago.Disclosure.{
  CredentialType, Proof, proof_d, other_proof, Disclosure, DisclosedAttribute, VerifyError,
  RevocationTimes, con_dis_con_satisfy,
}
use irmago.Disclosure.Satisfied.{AllMet}
use irmago.Disclosure.Matching.{con_dis_con_satisfy_iff}
use irmago.Disclosure.Verify.{
  Verifier, PublicKey, Required, has_identifier, known_type, metadata_public_key, proof_expired,
  proofs_expired, verify_proofs,
}
use irmago.Disclosure.Against.{
  extra_indices, extract_extra, with_extras, disclosed_attributes, check_expiry, after_proofs,
  verify_against_request, Verified,
}

-- A proof that has not expired: its credential is valid at the time or of a type that is skipped, and was signed
-- before its key expired.
pub record Fresh (v : Verifier) (t : ℕ) (skip : List Identifier) (disclosed : List (ℕ × ℕ))
    : Type 0 where
  metadata : MetadataAttribute
  credential_type : CredentialType
  key : PublicKey
  disclosed_metadata : lookup 1 disclosed ≡ some metadata
  known : v.scheme.credential_type (credential_type_hash metadata) ≡ some credential_type
  unexpired : (has_identifier skip credential_type.identifier ≡ true) ⊎ (t ≤ expiry metadata)
  has_key : metadata_public_key v metadata ≡ ok (some key)
  in_time : signing_date metadata ≤ key.expiry_date

abbrev pub FreshProof : Verifier → ℕ → List Identifier → Proof → Type 0
FreshProof v t skip (proof_d disclosed revocation_proof) = Fresh v t skip disclosed
FreshProof v t skip (other_proof p) = Unit

module _ (v : Verifier) where
  if-eq-ok-false :
      (b : Bool) (rest : Outcome VerifyError Bool)
      → (if b then ok true else rest) ≡ ok false
      → (b ≡ false) × (rest ≡ ok false)
  if-eq-ok-false true rest h = cc
  if-eq-ok-false false rest h = (refl, h)

  not_expired :
      (t : ℕ) (skip : List Identifier) (typ : CredentialType) (metadata : MetadataAttribute)
      → (not (has_identifier skip typ.identifier) && ltb (expiry metadata) t) ≡ false
      → (has_identifier skip typ.identifier ≡ true) ⊎ (t ≤ expiry metadata)
  not_expired t skip typ metadata h = ground arith

  known_type-eq-ok :
      (metadata : MetadataAttribute) (typ : CredentialType)
      → known_type v metadata ≡ ok typ
      → v.scheme.credential_type (credential_type_hash metadata) ≡ some typ
  unfolding known_type
  known_type-eq-ok metadata typ h =
      or_panic-eq-ok (v.scheme.credential_type (credential_type_hash metadata)) h

  proof_expired-FreshProof :
      (t : ℕ) (skip : List Identifier) (proof : Proof)
      → proof_expired v t skip proof ≡ ok false
      → FreshProof v t skip proof
  unfolding proof_expired
  proof_expired-FreshProof t skip (other_proof p) h = tt
  proof_expired-FreshProof t skip (proof_d disclosed revocation_proof) h =
      let key_check : MetadataAttribute → Option PublicKey → Outcome VerifyError Bool =
        λ metadata found.
          or_panic found >>= λ key. ok (ltb key.expiry_date (signing_date metadata)) in
      let type_check : MetadataAttribute → CredentialType → Outcome VerifyError Bool =
        λ metadata typ.
          if not (has_identifier skip typ.identifier) && ltb (expiry metadata) t
          then ok true
          else (metadata_public_key v metadata >>= key_check metadata) in
      let (metadata, shown, h1) =
        >>=-eq-ok (or_panic (lookup 1 disclosed))
          (λ metadata. known_type v metadata >>= type_check metadata) h in
      let (typ, known, h2) = >>=-eq-ok (known_type v metadata) (type_check metadata) h1 in
      let (current, h3) =
        if-eq-ok-false (not (has_identifier skip typ.identifier) && ltb (expiry metadata) t) _ h2 in
      let (found, has_key, h4) =
        >>=-eq-ok (metadata_public_key v metadata) (key_check metadata) h3 in
      let (key, is_key, h5) =
        >>=-eq-ok (or_panic found) (λ key. ok (ltb key.expiry_date (signing_date metadata))) h4 in
      let early : ltb key.expiry_date (signing_date metadata) ≡ false = cc h5 in
      record {
        metadata = metadata;
        credential_type = typ;
        key = key;
        disclosed_metadata = or_panic-eq-ok (lookup 1 disclosed) shown;
        known = known_type-eq-ok metadata typ known;
        unexpired = not_expired t skip typ metadata current;
        has_key = has_key ∙ ap ok (or_panic-eq-ok found is_key);
        in_time = ground arith;
      }

  proofs_expired-FreshProof :
      (t : ℕ) (skip : List Identifier) (proofs : List Proof)
      → proofs_expired v t skip proofs ≡ ok false
      → All (FreshProof v t skip) proofs
  unfolding proofs_expired
  proofs_expired-FreshProof t skip [] h = tt
  proofs_expired-FreshProof t skip (proof ∷ proofs) h =
      let (found, checked, h1) =
        >>=-eq-ok (proof_expired v t skip proof)
          (λ found. if found then ok true else proofs_expired v t skip proofs) h in
      let (current, rest) = if-eq-ok-false found (proofs_expired v t skip proofs) h1 in
      (
        proof_expired-FreshProof t skip proof (checked ∙ ap ok current),
        proofs_expired-FreshProof t skip proofs rest,
      )

  with_extras_complete :
      (d : Disclosure) (condiscon : AttributeConDisCon) (times : RevocationTimes)
      (complete all : Bool) (found list : List (List DisclosedAttribute))
      → with_extras v d condiscon times (complete, found) ≡ ok (all, list)
      → complete ≡ all
  unfolding with_extras
  with_extras_complete d condiscon times complete all found list h =
      let finish : List DisclosedAttribute
          → Outcome VerifyError (Bool × List (List DisclosedAttribute)) =
        λ extras. ok (complete, (if length extras == 0 then found else found ++ extras ∷ [])) in
      let (indices, left, h1) =
        >>=-eq-ok (extra_indices d condiscon)
          (λ indices. extract_extra v d.proofs times indices >>= finish) h in
      let (extras, extracted, h2) = >>=-eq-ok (extract_extra v d.proofs times indices) finish h1 in
      cc h2

  disclosed_attributes-AllMet :
      (d : Disclosure) (condiscon : AttributeConDisCon) (times : RevocationTimes)
      (list : List (List DisclosedAttribute))
      → disclosed_attributes v d condiscon times ≡ ok (true, list)
      → (found : List (List DisclosedAttribute)) × AllMet v.scheme d.proofs times condiscon
          d.indices found
  unfolding disclosed_attributes
  disclosed_attributes-AllMet d condiscon times list h =
      let ((complete, found), satisfied, h1) =
        >>=-eq-ok (con_dis_con_satisfy v.scheme condiscon d times) (with_extras v d condiscon times)
          h in
      let all = with_extras_complete d condiscon times complete true found list h1 in
      (
        found,
        (con_dis_con_satisfy_iff v.scheme condiscon d times found).0
            (satisfied ∙ ap (λ b. ok (b, found)) all),
      )

  valid-unexpired :
      (is_expired : Bool) (shown list : List (List DisclosedAttribute))
      → ◌≡◌ {A = Outcome VerifyError Verified}
          (ok (shown, (if is_expired then expired else valid)))
          (ok (list, valid))
      → is_expired ≡ false
  valid-unexpired true shown list h = cc
  valid-unexpired false shown list h = refl

  check_expiry-valid :
      (t : ℕ) (required : Required) (d : Disclosure) (complete : Bool)
      (shown list : List (List DisclosedAttribute))
      → check_expiry v t required d (complete, shown) ≡ ok (list, valid)
      → (complete ≡ true) × (proofs_expired v t required.skip_expiry_check d.proofs ≡ ok false)
  unfolding check_expiry
  check_expiry-valid t required d false shown list h = cc
  check_expiry-valid t required d true shown list h =
      let (is_expired, checked, h1) =
        >>=-eq-ok (proofs_expired v t required.skip_expiry_check d.proofs)
          (λ is_expired. ok (shown, (if is_expired then expired else valid))) h in
      (refl, checked ∙ ap ok (valid-unexpired is_expired shown list h1))

  after_proofs-valid :
      (t : ℕ) (required : Required) (d : Disclosure) (found : Option RevocationTimes)
      (list : List (List DisclosedAttribute))
      → after_proofs v t required d found ≡ ok (list, valid)
      → (times : RevocationTimes) × (found ≡ some times)
        × ((disclosed_attributes v d required.disclose times >>= check_expiry v t required d)
            ≡ ok (list, valid))
  unfolding after_proofs
  after_proofs-valid t required d none list h = cc
  after_proofs-valid t required d (some times) list h = (times, refl, h)

  -- A disclosure is found valid only if its proofs are, every disjunction of the request is met by attributes
  -- that the proofs show, and none of the proofs has expired.
  pub verify_against_request-valid :
      (t : ℕ) (required : Required) (d : Disclosure) (keys : Option (List PublicKey))
      (list : List (List DisclosedAttribute))
      → verify_against_request v t required d keys ≡ ok (list, valid)
      → (times : RevocationTimes) × (verify_proofs v t required.revocation d.proofs keys
          ≡ ok (some times))
        × ((found : List (List DisclosedAttribute)) × AllMet v.scheme d.proofs times
              required.disclose d.indices found)
        × All (FreshProof v t required.skip_expiry_check) d.proofs
  unfolding verify_against_request
  verify_against_request-valid t required d keys list h =
      let (found, verified, h1) =
        >>=-eq-ok (verify_proofs v t required.revocation d.proofs keys)
          (after_proofs v t required d) h in
      let (times, same, h2) = after_proofs-valid t required d found list h1 in
      let ((complete, shown), attributes, h3) =
        >>=-eq-ok (disclosed_attributes v d required.disclose times) (check_expiry v t required d)
          h2 in
      let (all, current) = check_expiry-valid t required d complete shown list h3 in
      (
        times,
        verified ∙ ap ok same,
        disclosed_attributes-AllMet d required.disclose times shown
            (attributes ∙ ap (λ b. ok (b, shown)) all),
        proofs_expired-FreshProof t required.skip_expiry_check d.proofs current,
      )
