-- ===== src/Credential.antt =====
-- CredentialRequest of requests.go, with what it reads of a credential type (descriptions.go): the
-- checks on a credential that is to be issued, and the integers that its attributes become.
pub mod Encoding
pub mod Issued
pub mod Issuance
pub mod Accepted
mod Examples
use irmago.Prelude.{
  ℕ, zero, suc, ◌+◌, ◌*◌, Bool, true, false, not, ◌&&◌, ◌||◌, Option, none, some, is_some, List, [],
  ◌∷◌, ◌++◌, ltb, leb, ◌==◌, nat_eq, if◌then◌else◌, length, replicate, or_else,
}
use irmago.Prelude.Map.{lookup}
use irmago.Prelude.Int.{ℤ, pos, negsuc, add_ℕ}
use irmago.Prelude.Index.{set}
use irmago.Prelude.Outcome.{Outcome, ok, err, panic, ◌>>=◌, ◌>>◌, ensure, or_err, or_panic}
use irmago.Bytes.{from_bytes}
use irmago.Identifier.{Identifier, identifier_eq, bytes_beq}
use irmago.Metadata.{
  MetadataAttribute, MetadataError, new_metadata_attribute, set_key_counter, set_signing_date,
  set_credential_type_identifier, set_expiry_date, version,
}

-- The parts of AttributeType and CredentialType that issuance reads. `optional` is the text of the
-- XML attribute.
pub record AttributeType : Type 0 where
  pub id : List ℕ
  pub optional : List ℕ
  pub random_blind : Bool
  pub revocation_attribute : Bool

pub record CredentialType : Type 0 where
  pub attribute_types : List AttributeType
  pub revocation_servers : List (List ℕ)
  pub revocation_index : ℤ

-- CredentialRequest, with the values of its attributes by their names.
pub record CredentialRequest : Type 0 where
  pub credential_type_id : Identifier
  pub key_counter : ℕ
  pub validity : Option ℕ
  pub attributes : List (List ℕ × List ℕ)
  pub random_blind_attribute_type_ids : List (List ℕ)
  pub revocation_key : List ℕ

pub data CredentialError : Type 0 where
  unknown_identifier required_attribute_missing : CredentialError
  revocation_attribute_set random_blind_attribute_set random_blind_mismatch : CredentialError
  revocation_not_supported : CredentialError
  metadata_error : MetadataError → CredentialError

-- "true"
abbrev pub true_text : List ℕ
true_text = b't' ∷ b'r' ∷ b'u' ∷ b'e' ∷ []

-- RevocationSupported
unfoldable pub revocation_supported : CredentialType → Bool
revocation_supported credtype = ltb 0 (length credtype.revocation_servers)

-- RandomBlindAttributeIndices, for the types from index `i` on: indices of an attribute list, whose
-- index 0 is the metadata.
unfoldable pub random_blind_indices : ℕ → List AttributeType → List ℕ
random_blind_indices i [] = []
random_blind_indices i (at ∷ types) =
    let rest = random_blind_indices (suc i) types in if at.random_blind then suc i ∷ rest else rest

-- The inner loop of attributeTypeIdentifiers.
unfoldable pub named_by : ℕ → List ℕ → List ℕ → List (List ℕ)
named_by i id [] = []
named_by i id (j ∷ indices) = let rest = named_by i id indices in if i == j then id ∷ rest else rest

-- attributeTypeIdentifiers, for the types from index `i` on: here the index 0 is the first type.
unfoldable pub attribute_type_identifiers : ℕ → List AttributeType → List ℕ → List (List ℕ)
unfolding named_by
attribute_type_identifiers i [] indices = []
attribute_type_identifiers i (at ∷ types) indices =
    named_by i at.id indices ++ attribute_type_identifiers (suc i) types indices

-- RandomBlindAttributeNames
unfoldable pub random_blind_attribute_names : CredentialType → List (List ℕ)
unfolding random_blind_indices attribute_type_identifiers
random_blind_attribute_names credtype =
    attribute_type_identifiers 0 credtype.attribute_types
      (random_blind_indices 0 credtype.attribute_types)

-- stringSliceEqual
unfoldable pub string_slice_equal : List (List ℕ) → List (List ℕ) → Bool
string_slice_equal [] [] = true
string_slice_equal [] (b ∷ bs) = false
string_slice_equal (a ∷ rest) [] = false
string_slice_equal (a ∷ rest) (b ∷ bs) = bytes_beq a b && string_slice_equal rest bs

-- Whether the descriptor has an attribute with the name.
unfoldable pub has_attribute : List ℕ → List AttributeType → Bool
has_attribute name [] = false
has_attribute name (at ∷ types) = at.id == name || has_attribute name types

-- The loop over the attributes of the request.
unfoldable pub check_known :
    List AttributeType → List (List ℕ × List ℕ) → Outcome CredentialError (Unit {0})
unfolding has_attribute
check_known types [] = ok tt
check_known types ((name, value) ∷ rest) = do
  ensure (has_attribute name types) unknown_identifier
  check_known types rest

-- The body of the loop over the attributes of the descriptor.
unfoldable pub check_attribute :
    List (List ℕ × List ℕ) → AttributeType → Outcome CredentialError (Unit {0})
check_attribute attributes at = do
  let present = is_some (lookup at.id attributes)
  let may_miss = at.revocation_attribute || (at.random_blind || at.optional == true_text)
  ensure (present || may_miss) required_attribute_missing
  ensure (not (present && at.revocation_attribute)) revocation_attribute_set
  ensure (not (present && at.random_blind)) random_blind_attribute_set

unfoldable pub check_attributes :
    List (List ℕ × List ℕ) → List AttributeType → Outcome CredentialError (Unit {0})
unfolding check_attribute
check_attributes attributes [] = ok tt
check_attributes attributes (at ∷ types) = do
  check_attribute attributes at
  check_attributes attributes types

-- The encoding of the value of an attribute: from version 3 on the lowest bit says that it is there.
unfoldable pub encode_attribute : ℕ → List ℕ → ℕ
encode_attribute v str = if leb 3 v then from_bytes str * 2 + 1 else from_bytes str

unfoldable pub encode_optional : ℕ → Option (List ℕ) → ℕ
unfolding encode_attribute
encode_optional v none = 0
encode_optional v (some str) = encode_attribute v str

-- The attributes that the loop of AttributeList leaves alone.
abbrev pub is_skipped : AttributeType → Bool
is_skipped at = at.revocation_attribute || at.random_blind

-- The loop of AttributeList over the types from index `i` on.
unfoldable pub fill_attributes :
    MetadataAttribute
    → List (List ℕ × List ℕ)
    → ℕ
    → List AttributeType
    → List (Option ℕ)
    → List (Option ℕ)
unfolding encode_optional
fill_attributes meta attributes i [] attrs = attrs
fill_attributes meta attributes i (at ∷ types) attrs =
    let value = encode_optional (version meta) (lookup at.id attributes) in
    fill_attributes meta attributes (suc i) types
      (if is_skipped at then attrs else set attrs (suc i) (some value))

-- A write at an `int` index, which panics out of range.
unfoldable pub set_int : ℤ → Option ℕ → List (Option ℕ) → Outcome CredentialError (List (Option ℕ))
set_int (pos j) value attrs = if ltb j (length attrs) then ok (set attrs j value) else panic
set_int (negsuc j) value attrs = panic

-- The revocation attribute, which is zero when none is given.
unfoldable pub fill_revocation :
    CredentialType → Option ℕ → List (Option ℕ) → Outcome CredentialError (List (Option ℕ))
unfolding revocation_supported set_int
fill_revocation credtype revocation_attr attrs =
    if revocation_supported credtype
    then set_int (add_ℕ credtype.revocation_index 1) (some (or_else revocation_attr 0)) attrs
    else ok attrs

abbrev pub of_metadata {ℓ} : {A : Type ℓ} → Outcome MetadataError A → Outcome CredentialError A
of_metadata (ok a) = ok a
of_metadata (err e) = err (metadata_error e)
of_metadata panic = panic

-- The credential types of the configuration.
module _ (credential_types : Identifier → Option CredentialType) where
  -- CredentialRequest.Validate
  unfoldable pub validate : CredentialRequest → Outcome CredentialError (Unit {0})
  unfolding check_known check_attributes string_slice_equal random_blind_attribute_names
  validate cr = do
    credtype ← or_err (credential_types cr.credential_type_id) unknown_identifier
    check_known credtype.attribute_types cr.attributes
    check_attributes cr.attributes credtype.attribute_types
    ensure
        (string_slice_equal (random_blind_attribute_names credtype)
          cr.random_blind_attribute_type_ids)
        random_blind_mismatch

-- The hash function SHA-256 and `AddDate(0, 6, 0)`.
module _ (sha256 : List ℕ → List ℕ) (add_half_year : ℕ → ℕ) where
  -- The metadata of a credential that is issued, made at the time `now`.
  unfoldable pub issued_metadata :
      CredentialRequest → ℕ → ℕ → ℕ → Outcome MetadataError MetadataAttribute
  unfolding new_metadata_attribute set_key_counter set_credential_type_identifier set_signing_date
      set_expiry_date
  issued_metadata cr metadata_version now issued_at = do
    fresh ← new_metadata_attribute add_half_year metadata_version now
    counted ← set_key_counter cr.key_counter fresh
    typed ← set_credential_type_identifier sha256 cr.credential_type_id counted
    signed ← set_signing_date issued_at typed
    set_expiry_date add_half_year cr.validity signed

-- The configured credential types, the hash function SHA-256 and `AddDate(0, 6, 0)`.
module _ (credential_types : Identifier → Option CredentialType) (sha256 : List ℕ → List ℕ)
    (add_half_year : ℕ → ℕ) where
  -- CredentialRequest.AttributeList, of which the integers are modelled; a random blind attribute is
  -- nil.
  unfoldable pub attribute_list :
      CredentialRequest → ℕ → Option ℕ → ℕ → ℕ → Outcome CredentialError (List (Option ℕ))
  unfolding validate issued_metadata fill_attributes fill_revocation revocation_supported
  attribute_list cr metadata_version revocation_attr now issued_at = do
    validate credential_types cr
    credtype ← or_panic (credential_types cr.credential_type_id)
    ensure (revocation_supported credtype || not (is_some revocation_attr)) revocation_not_supported
    meta ← of_metadata (issued_metadata sha256 add_half_year cr metadata_version now issued_at)
    attrs ←
        fill_revocation credtype revocation_attr
          (some meta ∷ replicate (length credtype.attribute_types) none)
    ok (fill_attributes meta cr.attributes 0 credtype.attribute_types attrs)
