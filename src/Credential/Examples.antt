-- ===== src/Credential/Examples.antt =====
-- The theorem on issued attributes at a concrete credential request, and tests of the checks on one.
use irmago.Prelude.{
  ℕ, ◌+◌, ◌≡◌, ◌≤◌, refl, subst, none, some, Option, true, false, List, [], ◌∷◌, arith, get_elem?,
}
use irmago.Prelude.Map.{lookup}
use irmago.Prelude.Int.{pos}
use irmago.Prelude.Outcome.{Outcome, ok, err, panic}
use irmago.Bytes.{IsBytes, pad_left, to_bytes, from_bytes}
use irmago.Identifier.{Identifier, identifier_eq, issuer_identifier}
use irmago.Metadata.{
  MetadataAttribute, MetadataError, version, short_to_byte, set_field, bytes, signing_date,
  set_validity_duration,
}
use irmago.Prelude.Index.{set}
use irmago.Disclosure.{decode_attribute}
use irmago.Credential.{
  AttributeType, CredentialType, CredentialRequest, CredentialError, unknown_identifier,
  required_attribute_missing, random_blind_attribute_set, random_blind_mismatch, true_text,
  random_blind_attribute_names, validate, issued_metadata, attribute_list,
}
use irmago.Credential.Issuance.{
  IssuanceConfig, validate_issuance_request, with_random_blind, expired_public_key,
  cannot_issue_expired,
}
use irmago.Credential.Accepted.{AllIssuable, validate_issuance_request-AllIssuable}
use irmago.Credential.Encoding.{NoZeroFirst}
use irmago.Credential.Issued.{attribute_list-decode_attribute}

-- A required, a random blind and an optional attribute.
abbrev email : AttributeType
email = record { id = b'e' ∷ []; optional = []; random_blind = false; revocation_attribute = false }

abbrev voting : AttributeType
voting = record { id = b'v' ∷ []; optional = []; random_blind = true; revocation_attribute = false }

abbrev nick : AttributeType
nick = record {
  id = b'n' ∷ [];
  optional = true_text;
  random_blind = false;
  revocation_attribute = false;
}

abbrev member : CredentialType
member = record {
  attribute_types = email ∷ voting ∷ nick ∷ [];
  revocation_servers = [];
  revocation_index = pos 0;
}

abbrev member_id : Identifier
member_id = b's' ∷ b'.' ∷ b'i' ∷ b'.' ∷ b'm' ∷ []

abbrev known_types : Identifier → Option CredentialType
known_types id = lookup id ((member_id, member) ∷ [])

abbrev half_year : ℕ → ℕ
half_year t = t + 15768000

abbrev hash : List ℕ → List ℕ
hash id = 7 ∷ id

-- The names that the code computes: that of the attribute behind the random blind one.
abbrev request : CredentialRequest
request = record {
  credential_type_id = member_id;
  key_counter = 2;
  validity = some 1588204800;
  attributes = (b'e' ∷ [], b'm' ∷ b'e' ∷ []) ∷ [];
  random_blind_attribute_type_ids = (b'n' ∷ []) ∷ [];
  revocation_key = [];
}

abbrev made : Outcome MetadataError MetadataAttribute
made = issued_metadata hash half_year request 3 1572480000 1572480000

abbrev listed : Outcome CredentialError (List (Option ℕ))
listed = attribute_list known_types hash half_year request 3 none 1572480000 1572480000

abbrev issued : MetadataAttribute
issued = 73563585866399545604514516927336758751388663743397834349

abbrev attrs : List (Option ℕ)
attrs = some issued ∷ some 56011 ∷ none ∷ some 0 ∷ []

issued_metadata-request : made ≡ ok issued
unfolding issued_metadata set_field short_to_byte signing_date bytes pad_left to_bytes from_bytes
    set set_validity_duration
issued_metadata-request = refl

version-issued : version issued ≡ 3
unfolding version bytes pad_left to_bytes
version-issued = refl

three_le_version : 3 ≤ version issued
three_le_version = rw version-issued (omega arith)

known_member : known_types member_id ≡ some member
unfolding lookup
known_member = refl

attribute_list-request : listed ≡ ok attrs
unfolding attribute_list lookup version set_field short_to_byte signing_date bytes pad_left to_bytes
    from_bytes set set_validity_duration
attribute_list-request = refl

first : NoZeroFirst (b'm' ∷ b'e' ∷ [])
first e = ground (arith, e)

request_value :
    (str : List ℕ)
    → lookup (b'e' ∷ []) request.attributes ≡ some str
    → IsBytes str × NoZeroFirst str
unfolding lookup
request_value str e =
    let same : b'm' ∷ b'e' ∷ [] ≡ str = cc in
    subst (λ s. IsBytes s × NoZeroFirst s) same ((omega arith, (omega arith, tt)), λ h. first h)

attribute_list-decode_attribute_example :
    (get_elem? attrs 0 ≡ some (some issued))
    × ((x : ℕ) × (get_elem? attrs 1 ≡ some (some x))
        × (decode_attribute x (version issued) ≡ lookup (b'e' ∷ []) request.attributes))
attribute_list-decode_attribute_example =
    attribute_list-decode_attribute known_types hash half_year request 3 none 1572480000 1572480000
      member 0 issued attrs 0 email known_member refl issued_metadata-request three_le_version
      attribute_list-request refl refl request_value

-- The code names the attribute behind the random blind one.
random_blind_names_shifted : random_blind_attribute_names member ≡ (b'n' ∷ []) ∷ []
unfolding random_blind_attribute_names
random_blind_names_shifted = refl

validate_named_rightly :
    validate known_types (record request { random_blind_attribute_type_ids = (b'v' ∷ []) ∷ [] })
    ≡ err random_blind_mismatch
unfolding validate lookup
validate_named_rightly = refl

validate_branches :
    (validate known_types request ≡ ok tt)
    × (validate known_types (record request { credential_type_id = [] }) ≡ err unknown_identifier)
    × (validate known_types (record request { attributes = (b'x' ∷ [], []) ∷ request.attributes })
        ≡ err unknown_identifier)
    × (validate known_types (record request { attributes = [] }) ≡ err required_attribute_missing)
    × (validate known_types (record request { attributes = (b'v' ∷ [], []) ∷ request.attributes })
        ≡ err random_blind_attribute_set)
unfolding validate lookup
validate_branches = (refl, refl, refl, refl, refl)

-- Key 2 of every issuer, which expires in 2033.
abbrev issuing : IssuanceConfig
issuing = record {
  credential_types = known_types;
  latest_private_key = λ id. ok (some 2);
  public_key = λ id counter. ok (some 2000000000);
  revocation_settings = λ id. none;
  allow_issuing_expired_credentials = false;
}

abbrev asked : CredentialRequest
asked = record request { key_counter = 0; validity = none }

abbrev asked_later : CredentialRequest
asked_later = record request { validity = some 1588204801 }

validate_issuance_request-asked :
    validate_issuance_request issuing 1572480000 1588248000 (asked ∷ asked_later ∷ [])
    ≡ ok (record request { validity = some 1588248000 } ∷ asked_later ∷ [])
unfolding validate_issuance_request lookup issuer_identifier
validate_issuance_request-asked = refl

validate_issuance_request-AllIssuable_example :
    AllIssuable issuing 1572480000
      (asked ∷ asked_later ∷ [])
      (record request { validity = some 1588248000 } ∷ asked_later ∷ [])
validate_issuance_request-AllIssuable_example =
    validate_issuance_request-AllIssuable issuing 1572480000 1588248000 (asked ∷ asked_later ∷ [])
      (record request { validity = some 1588248000 } ∷ asked_later ∷ [])
      validate_issuance_request-asked

validate_issuance_branches :
    (validate_issuance_request issuing 2000000001 2000000001 (asked ∷ []) ≡ err expired_public_key)
    × (validate_issuance_request issuing 1588204802 1600000000 (asked_later ∷ [])
        ≡ err cannot_issue_expired)
    × (validate_issuance_request issuing 1572480000 1588248000
          (record asked { credential_type_id = [] } ∷ [])
        ≡ panic)
    × (with_random_blind issuing (record asked { random_blind_attribute_type_ids = [] } ∷ [])
        ≡ ok (asked ∷ []))
unfolding validate_issuance_request with_random_blind lookup
validate_issuance_branches = (refl, refl, refl, refl)
