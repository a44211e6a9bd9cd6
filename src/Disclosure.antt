-- ===== src/Disclosure.antt =====
-- verify.go and the Satisfy methods of requests.go: which attributes a list of disclosure proofs
-- shows, and whether they satisfy a request. Indices of the client are Go's signed `int`s; reads out
-- of range and nil dereferences are the panics that they are in Go.
pub mod Satisfied
pub mod Matching
pub mod Verify
pub mod Against
pub mod Valid
pub mod Singletons
mod Checks
mod Examples
use irmago.Prelude.{
  ℕ, zero, suc, ◌+◌, ◌-◌, ◌/◌, ◌%◌, Bool, true, false, not, ◌&&◌, ◌||◌, Option, none, some, List,
  [], ◌∷◌, ◌++◌, ltb, leb, ◌==◌, nat_eq, if◌then◌else◌, length, get_elem?,
}
use irmago.Prelude.Map.{lookup}
use irmago.Prelude.Int.{ℤ, pos, negsuc}
use irmago.Prelude.Outcome.{Outcome, ok, err, panic, ◌>>=◌, ◌>>◌, ensure, or_err, or_panic}
use irmago.Bytes.{to_bytes}
use irmago.Identifier.{Identifier}
use irmago.Metadata.{MetadataAttribute, credential_type_hash, signing_date, version}
use irmago.Request.{
  AttributeRequest, AttributeCon, AttributeDisCon, AttributeConDisCon, attribute_satisfy,
}

-- The parts of AttributeType and CredentialType (descriptions.go) that verification reads.
pub record AttributeType : Type 0 where
  pub identifier : Identifier
  pub random_blind : Bool

pub record CredentialType : Type 0 where
  pub identifier : Identifier
  pub attribute_types : List AttributeType
  pub is_singleton : Bool

-- A nonrevocation proof: its signed accumulator, as text, and the counter of the key that signed it.
pub record NonRevocationProof : Type 0 where
  pub signed_accumulator : List ℕ
  pub pk_counter : ℕ

-- gabi.Proof: a disclosure proof (ProofD) with its disclosed attributes by index, or another one.
pub data Proof : Type 0 where
  proof_d : List (ℕ × ℕ) → Option NonRevocationProof → Proof
  other_proof : List ℕ → Proof

-- DisclosedAttributeIndex
pub record DisclosedAttributeIndex : Type 0 where
  pub credential_index : ℤ
  pub attribute_index : ℤ

-- Disclosure
pub record Disclosure : Type 0 where
  pub proofs : List Proof
  pub indices : List (List DisclosedAttributeIndex)

pub data AttributeProofStatus : Type 0 where
  present extra null : AttributeProofStatus

-- DisclosedAttribute, without the translations that are derived from its raw value.
pub record DisclosedAttribute : Type 0 where
  pub raw_value : Option (List ℕ)
  pub identifier : Identifier
  pub status : AttributeProofStatus
  pub issuance_time : ℕ
  pub not_revoked : Bool
  pub not_revoked_before : Option ℕ

pub data VerifyError : Type 0 where
  missing_public_key credential_index_out_of_range invalid_proof_type unknown_credential_type :
      VerifyError
  not_a_proof_d insufficient_public_keys : VerifyError
  public_key_error : List ℕ → VerifyError

-- What extraction reads of the configuration: the credential type with a hash, and the base-62
-- encoding of the library basex.
pub record Scheme : Type 0 where
  pub credential_type : List ℕ → Option CredentialType
  pub encode_base62 : List ℕ → List ℕ

-- decodeAttribute: from version 3 on the lowest bit says whether the attribute is there.
unfoldable pub decode_attribute : ℕ → ℕ → Option (List ℕ)
decode_attribute attr metadata_version =
    if leb 3 metadata_version
    then (if attr % 2 == 0 then none else some (to_bytes (attr / 2)))
    else some (to_bytes attr)

abbrev pub status_of : Option (List ℕ) → AttributeProofStatus
status_of none = null
status_of (some v) = present

-- Indexing a slice by an `int`.
abbrev pub at_int {ℓ} : {A : Type ℓ} → List A → ℤ → Option A
at_int xs (pos n) = get_elem? xs n
at_int xs (negsuc n) = none

-- Reading a map by an `int` key, which is negative for no entry.
abbrev pub lookup_int {ℓ} : {A : Type ℓ} → ℤ → List (ℕ × A) → Option A
lookup_int (pos n) m = lookup n m
lookup_int (negsuc n) m = none

-- The attribute types start at index 2, behind the secret key and the metadata.
abbrev pub type_at : CredentialType → ℤ → Option AttributeType
type_at credtype (pos zero) = none
type_at credtype (pos (suc zero)) = none
type_at credtype (pos (suc (suc i))) = get_elem? credtype.attribute_types i
type_at credtype (negsuc n) = none

-- The value "present" that stands for a whole credential.
abbrev present_value : List ℕ
present_value = b'p' ∷ b'r' ∷ b'e' ∷ b's' ∷ b'e' ∷ b'n' ∷ b't' ∷ []

-- The bounds test of extractAttribute, which lets an index equal to the length pass.
abbrev pub too_large : ℤ → ℕ → Bool
too_large (pos n) len = ltb len n
too_large (negsuc n) len = false

-- Revocation times by the index of the proof.
abbrev pub RevocationTimes : Type 0
RevocationTimes = List (ℕ × ℕ)

module _ (conf : Scheme) where
  -- The value of an attribute. A missing one is nil: no value if random blind, and else a panic.
  unfoldable pub decode_value :
      AttributeType → MetadataAttribute → Option ℕ → Outcome VerifyError (Option (List ℕ))
  unfolding decode_attribute
  decode_value typ metadata none = if typ.random_blind then ok none else panic
  decode_value typ metadata (some attr) = ok (
      if typ.random_blind
      then some (conf.encode_base62 (to_bytes attr))
      else decode_attribute attr (version metadata))

  parsed : Identifier → Option (List ℕ) → MetadataAttribute → DisclosedAttribute
  parsed id val metadata = record {
    raw_value = val;
    identifier = id;
    status = status_of val;
    issuance_time = signing_date metadata;
    not_revoked = false;
    not_revoked_before = none;
  }

  -- parseAttribute beyond the metadata attribute.
  parse_typed :
      CredentialType
      → ℤ
      → MetadataAttribute
      → Option ℕ
      → Outcome VerifyError (DisclosedAttribute × Option (List ℕ))
  unfolding decode_value parsed
  parse_typed credtype i metadata attr = do
    typ ← or_panic (type_at credtype i)
    val ← decode_value typ metadata attr
    ok (parsed typ.identifier val metadata, val)

  -- parseAttribute
  unfoldable pub parse_attribute :
      ℤ → MetadataAttribute → Option ℕ → Outcome VerifyError (DisclosedAttribute × Option (List ℕ))
  unfolding parse_typed parsed
  parse_attribute i metadata attr = elim (conf.credential_type (credential_type_hash metadata)) [
    | none ↦ err unknown_credential_type
    | some credtype ↦ elim i [
      | pos n ↦
          if n == 1
          then ok (parsed credtype.identifier (some present_value) metadata, some present_value)
          else parse_typed credtype (pos n) metadata attr
      | negsuc n ↦ parse_typed credtype (negsuc n) metadata attr
    ]
  ]

  extract_from :
      Proof
      → DisclosedAttributeIndex
      → Option ℕ
      → Outcome VerifyError (DisclosedAttribute × Option (List ℕ))
  unfolding parse_attribute
  extract_from (other_proof p) i notrevoked = err invalid_proof_type
  extract_from (proof_d disclosed nonrev) i notrevoked = do
    metadata ← or_panic (lookup 1 disclosed)
    (attr, str) ←
        parse_attribute i.attribute_index metadata (lookup_int i.attribute_index disclosed)
    ok (
      record attr {
        not_revoked = (elim nonrev [ none ↦ false | some p ↦ true ]);
        not_revoked_before = notrevoked;
      },
      str,
    )

  -- extractAttribute
  unfoldable pub extract_attribute :
      List Proof
      → DisclosedAttributeIndex
      → Option ℕ
      → Outcome VerifyError (DisclosedAttribute × Option (List ℕ))
  unfolding extract_from
  extract_attribute pl i notrevoked =
      if too_large i.credential_index (length pl)
      then err credential_index_out_of_range
      else do proof ← or_panic (at_int pl i.credential_index); extract_from proof i notrevoked

  -- The loop of AttributeCon.Satisfy; `none` is the early return that is not satisfied.
  unfoldable pub con_satisfy_loop :
      AttributeCon
      → List Proof
      → List DisclosedAttributeIndex
      → RevocationTimes
      → Outcome VerifyError (Option (List DisclosedAttribute))
  con_satisfy_loop [] pl indices revocation = ok (some [])
  con_satisfy_loop (ar ∷ c) pl [] revocation = ok none
  con_satisfy_loop (ar ∷ c) pl (i ∷ indices) revocation = do
    (attr, val) ← extract_attribute pl i (lookup_int i.credential_index revocation)
    let rest = con_satisfy_loop c pl indices revocation
    if attribute_satisfy ar attr.identifier val
        then (do found ← rest; ok (elim found [ none ↦ none | some attrs ↦ some (attr ∷ attrs) ]))
        else ok none

  -- AttributeCon.Satisfy
  unfoldable pub con_satisfy :
      AttributeCon
      → List Proof
      → List DisclosedAttributeIndex
      → RevocationTimes
      → Outcome VerifyError (Option (List DisclosedAttribute))
  con_satisfy c pl indices revocation =
      if ltb (length indices) (length c) then ok none else con_satisfy_loop c pl indices revocation

  -- AttributeDisCon.Satisfy
  unfoldable pub dis_con_satisfy :
      AttributeDisCon
      → List Proof
      → List DisclosedAttributeIndex
      → RevocationTimes
      → Outcome VerifyError (Option (List DisclosedAttribute))
  dis_con_satisfy [] pl indices revocation = ok none
  dis_con_satisfy (con ∷ dc) pl indices revocation = do
    satisfied ← con_satisfy con pl indices revocation
    let rest = dis_con_satisfy dc pl indices revocation
    elim satisfied [ none ↦ rest | some attrs ↦ ok (some attrs) ]

  -- The loop of AttributeConDisCon.Satisfy over the disjunctions and their indices: whether all are
  -- satisfied, and the attributes of each, none for one that is not.
  unfoldable pub con_dis_con_satisfy_loop :
      AttributeConDisCon
      → List Proof
      → List (List DisclosedAttributeIndex)
      → RevocationTimes
      → Outcome VerifyError (Bool × List (List DisclosedAttribute))
  con_dis_con_satisfy_loop [] pl indices revocation = ok (true, [])
  con_dis_con_satisfy_loop (discon ∷ cdc) pl [] revocation = ok (false, [])
  con_dis_con_satisfy_loop (discon ∷ cdc) pl (set ∷ indices) revocation = do
    satisfied ← dis_con_satisfy discon pl set revocation
    (complete, list) ← con_dis_con_satisfy_loop cdc pl indices revocation
    ok (elim satisfied [ none ↦ (false, [] ∷ list) | some attrs ↦ (complete, attrs ∷ list) ])

  -- AttributeConDisCon.Satisfy
  unfoldable pub con_dis_con_satisfy :
      AttributeConDisCon
      → Disclosure
      → RevocationTimes
      → Outcome VerifyError (Bool × List (List DisclosedAttribute))
  con_dis_con_satisfy cdc disclosure revocation =
      if ltb (length disclosure.indices) (length cdc)
      then ok (false, [])
      else con_dis_con_satisfy_loop cdc disclosure.proofs disclosure.indices revocation
