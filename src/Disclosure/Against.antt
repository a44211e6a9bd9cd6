-- ===== src/Disclosure/Against.antt =====
-- The verification of a disclosure and of an attribute-based signature against a request, in verify.go.
use irmago.Prelude.{
  ℕ, zero, suc, Bool, not, Option, none, some, List, [], ◌∷◌, ◌++◌, leb, ◌==◌, nat_eq,
  if◌then◌else◌, length,
}
use irmago.Prelude.Int.{ℤ, pos, negsuc}
use irmago.Prelude.Outcome.{Outcome, ok, panic, ◌>>=◌}
use irmago.Request.{AttributeConDisCon}
use irmago.Session.Types.{ProofStatus, valid, invalid, missing_attributes, expired}
use irmago.Disclosure.{
  Proof, proof_d, other_proof, Disclosure, DisclosedAttributeIndex, DisclosedAttribute, extra,
  VerifyError, lookup_int, RevocationTimes, extract_attribute, con_dis_con_satisfy,
}
use irmago.Disclosure.Verify.{Verifier, PublicKey, Required, verify_proofs, proofs_expired}

-- The indices of the attributes that each proof discloses, without the secret key and the metadata.
unfoldable pub shown : List (ℕ × ℕ) → List ℕ
shown [] = []
shown ((i, value) ∷ rest) = let others = shown rest in if leb i 1 then others else i ∷ others

unfoldable pub all_shown : List Proof → List (List ℕ)
unfolding shown
all_shown [] = []
all_shown (proof_d disclosed revocation_proof ∷ proofs) = shown disclosed ∷ all_shown proofs
all_shown (other_proof p ∷ proofs) = [] ∷ all_shown proofs

without : ℕ → List ℕ → List ℕ
without i [] = []
without i (j ∷ js) = let rest = without i js in if j == i then rest else j ∷ rest

abbrev without_int : ℤ → List ℕ → List ℕ
without_int (pos i) js = without i js
without_int (negsuc i) js = js

-- An attribute that the client points to is taken out; a proof out of range panics.
remove_at : ℕ → ℤ → List (List ℕ) → Outcome VerifyError (List (List ℕ))
unfolding without
remove_at proof attribute [] = panic
remove_at zero attribute (js ∷ rest) = ok (without_int attribute js ∷ rest)
remove_at (suc proof) attribute (js ∷ rest) =
    remove_at proof attribute rest >>= λ rest'. ok (js ∷ rest')

remove_index : DisclosedAttributeIndex → List (List ℕ) → Outcome VerifyError (List (List ℕ))
unfolding remove_at
remove_index index disclosed = elim index.credential_index [
  | pos proof ↦ remove_at proof index.attribute_index disclosed
  | negsuc n ↦ panic
]

remove_set : List DisclosedAttributeIndex → List (List ℕ) → Outcome VerifyError (List (List ℕ))
unfolding remove_index
remove_set [] disclosed = ok disclosed
remove_set (index ∷ indices) disclosed = remove_index index disclosed >>= remove_set indices

-- The sets of indices for the disjunctions of the request; further ones are skipped.
remove_sets :
    AttributeConDisCon
    → List (List DisclosedAttributeIndex)
    → List (List ℕ)
    → Outcome VerifyError (List (List ℕ))
unfolding remove_set
remove_sets [] sets disclosed = ok disclosed
remove_sets (discon ∷ condiscon) [] disclosed = ok disclosed
remove_sets (discon ∷ condiscon) (set ∷ sets) disclosed =
    remove_set set disclosed >>= remove_sets condiscon sets

indices_of : ℕ → List ℕ → List DisclosedAttributeIndex
indices_of proof [] = []
indices_of proof (j ∷ js) =
    record { credential_index = pos proof; attribute_index = pos j } ∷ indices_of proof js

all_indices : ℕ → List (List ℕ) → List DisclosedAttributeIndex
unfolding indices_of
all_indices proof [] = []
all_indices proof (js ∷ rest) = indices_of proof js ++ all_indices (suc proof) rest

-- extraIndices, in the order of the proofs
unfoldable pub extra_indices :
    Disclosure → AttributeConDisCon → Outcome VerifyError (List DisclosedAttributeIndex)
unfolding all_shown remove_sets all_indices
extra_indices d condiscon =
    remove_sets condiscon d.indices (all_shown d.proofs) >>= λ left. ok (all_indices 0 left)

-- The result of a verification: the attributes and the status.
abbrev pub Verified : Type 0
Verified = List (List DisclosedAttribute) × ProofStatus

module _ (v : Verifier) where
  unfoldable pub extract_extra :
      List Proof
      → RevocationTimes
      → List DisclosedAttributeIndex
      → Outcome VerifyError (List DisclosedAttribute)
  extract_extra proofs times [] = ok []
  extract_extra proofs times (index ∷ indices) =
      let rest = extract_extra proofs times indices in
      extract_attribute v.scheme proofs index (lookup_int index.credential_index times)
      >>= λ (attr, val). rest >>= λ attrs. ok (record attr { status = extra } ∷ attrs)

  -- The attributes that the request did not ask for are added to those that satisfy it.
  unfoldable pub with_extras :
      Disclosure
      → AttributeConDisCon
      → RevocationTimes
      → Bool × List (List DisclosedAttribute)
      → Outcome VerifyError (Bool × List (List DisclosedAttribute))
  unfolding extract_extra extra_indices
  with_extras d condiscon times (complete, list) = extra_indices d condiscon >>= λ indices.
      extract_extra d.proofs times indices >>= λ extras.
      ok (complete, (if length extras == 0 then list else list ++ extras ∷ []))

  -- DisclosedAttributes
  unfoldable pub disclosed_attributes :
      Disclosure
      → AttributeConDisCon
      → RevocationTimes
      → Outcome VerifyError (Bool × List (List DisclosedAttribute))
  unfolding with_extras
  disclosed_attributes d condiscon times =
      con_dis_con_satisfy v.scheme condiscon d times >>= with_extras d condiscon times

  -- The expiry of the proofs, once all disjunctions are satisfied.
  unfoldable pub check_expiry :
      ℕ
      → Required
      → Disclosure
      → Bool × List (List DisclosedAttribute)
      → Outcome VerifyError Verified
  unfolding proofs_expired
  check_expiry valid_at required d (complete, list) =
      if not complete
      then ok (list, missing_attributes)
      else (proofs_expired v valid_at required.skip_expiry_check d.proofs >>= λ is_expired.
          ok (list, (if is_expired then expired else valid)))

  unfoldable pub after_proofs :
      ℕ → Required → Disclosure → Option RevocationTimes → Outcome VerifyError Verified
  unfolding disclosed_attributes check_expiry
  after_proofs valid_at required d none = ok ([], invalid)
  after_proofs valid_at required d (some times) =
      disclosed_attributes d required.disclose times >>= check_expiry valid_at required d

  -- VerifyAgainstRequest: an error comes with the status `invalid`.
  unfoldable pub verify_against_request :
      ℕ → Required → Disclosure → Option (List PublicKey) → Outcome VerifyError Verified
  unfolding verify_proofs after_proofs
  verify_against_request valid_at required d keys =
      verify_proofs v valid_at required.revocation d.proofs keys
      >>= after_proofs valid_at required d

  -- Verify of a Disclosure, at the current time.
  unfoldable pub verify_disclosure : ℕ → Required → Disclosure → Outcome VerifyError Verified
  unfolding verify_against_request
  verify_disclosure now required d = verify_against_request now required d none
