-- ===== src/Request/Validation.antt =====
-- The Validate methods of DisclosureRequest, SignatureRequest and IssuanceRequest in requests.go.
use irmago.Prelude.{suc, not, List, [], ◌∷◌, ◌++◌, String, string_eq, ◌==◌, nat_eq, length}
use irmago.Prelude.Outcome.{Outcome, ok, ◌>>◌, ensure}
use irmago.Identifier.{Identifier, parts_count}
use irmago.Request.{
  AttributeCon, AttributeDisCon, AttributeConDisCon, ValidateError, not_disclosure, no_attributes,
  not_signature, empty_message, not_issuance, empty_issuance, credential_parts, dis_con_validate,
}
use irmago.Credential.{CredentialRequest}

-- DisclosureRequest, the parts that are validated; the other requests embed it.
pub record DisclosureRequest : Type 0 where
  pub ld_context : String
  pub disclose : AttributeConDisCon

pub record SignatureRequest : Type 0 where
  pub disclosure : DisclosureRequest
  pub message : String

pub record IssuanceRequest : Type 0 where
  pub disclosure : DisclosureRequest
  pub credentials : List CredentialRequest

abbrev pub ld_context_disclosure_request : String
ld_context_disclosure_request = "https://irma.app/ld/request/disclosure/v2"

abbrev pub ld_context_signature_request : String
ld_context_signature_request = "https://irma.app/ld/request/signature/v2"

abbrev pub ld_context_issuance_request : String
ld_context_issuance_request = "https://irma.app/ld/request/issuance/v2"

-- The attribute types that `identifiers` collects, with repetitions.
unfoldable pub types_of_con : AttributeCon → List Identifier
types_of_con [] = []
types_of_con (attr ∷ con) = attr.attr_type ∷ types_of_con con

unfoldable pub types_of_dis_con : AttributeDisCon → List Identifier
unfolding types_of_con
types_of_dis_con [] = []
types_of_dis_con (con ∷ discon) = types_of_con con ++ types_of_dis_con discon

unfoldable pub types_of_con_dis_con : AttributeConDisCon → List Identifier
unfolding types_of_dis_con
types_of_con_dis_con [] = []
types_of_con_dis_con (discon ∷ cdc) = types_of_dis_con discon ++ types_of_con_dis_con cdc

-- The loop over the disjunctions.
unfoldable pub validate_dis_cons : AttributeConDisCon → Outcome ValidateError (Unit {0})
unfolding dis_con_validate
validate_dis_cons [] = ok tt
validate_dis_cons (discon ∷ cdc) = do dis_con_validate discon; validate_dis_cons cdc

-- DisclosureRequest.Validate
unfoldable pub disclosure_request_validate : DisclosureRequest → Outcome ValidateError (Unit {0})
unfolding types_of_con_dis_con validate_dis_cons
disclosure_request_validate dr = do
  ensure (dr.ld_context == ld_context_disclosure_request) not_disclosure
  ensure (not (length (types_of_con_dis_con dr.disclose) == 0)) no_attributes
  validate_dis_cons dr.disclose

-- SignatureRequest.Validate
unfoldable pub signature_request_validate : SignatureRequest → Outcome ValidateError (Unit {0})
unfolding validate_dis_cons
signature_request_validate sr = do
  ensure (sr.disclosure.ld_context == ld_context_signature_request) not_signature
  ensure (not (sr.message == "")) empty_message
  ensure (not (length sr.disclosure.disclose == 0)) no_attributes
  validate_dis_cons sr.disclosure.disclose

-- The loop over the credentials, whose identifiers have two separators.
unfoldable pub check_credential_parts : List CredentialRequest → Outcome ValidateError (Unit {0})
check_credential_parts [] = ok tt
check_credential_parts (cred ∷ creds) = do
  let count = parts_count cred.credential_type_id
  ensure (count == 2) (credential_parts (suc count))
  check_credential_parts creds

-- IssuanceRequest.Validate
unfoldable pub issuance_request_validate : IssuanceRequest → Outcome ValidateError (Unit {0})
unfolding check_credential_parts validate_dis_cons
issuance_request_validate ir = do
  ensure (ir.disclosure.ld_context == ld_context_issuance_request) not_issuance
  ensure (not (length ir.credentials == 0)) empty_issuance
  check_credential_parts ir.credentials
  validate_dis_cons ir.disclosure.disclose
