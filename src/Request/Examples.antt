-- ===== src/Request/Examples.antt =====
-- The theorems on session requests at a concrete request, and tests of the validation.
use irmago.Prelude.{◌≡◌, refl, ◌↔◌, false, All, none, [], ◌∷◌}
use irmago.Prelude.Outcome.{ok, err}
use irmago.Identifier.{dot}
use irmago.Request.Validation.{
  disclosure_request_validate, signature_request_validate, issuance_request_validate,
  ld_context_disclosure_request, ld_context_signature_request, ld_context_issuance_request,
}
use irmago.Request.{AttributeCon, credential_types, con_validate, no_attributes, empty_issuance}
use irmago.Request.Adjacency.{Distinct, HasParts, con_validate_iff}

-- An attribute of the credential a.b.c and one of x.y.z.
abbrev sample_con : AttributeCon
sample_con =
    record {
      attr_type = b'a' ∷ dot ∷ b'b' ∷ dot ∷ b'c' ∷ dot ∷ b'd' ∷ [];
      value = none;
      not_null = false;
    }
    ∷ record {
      attr_type = b'x' ∷ dot ∷ b'y' ∷ dot ∷ b'z' ∷ dot ∷ b'd' ∷ [];
      value = none;
      not_null = false;
    }
    ∷ []

con_validate_iff_example :
    (con_validate sample_con ≡ ok tt)
    ↔ (All HasParts sample_con × Distinct (credential_types sample_con))
con_validate_iff_example = con_validate_iff sample_con

-- The checks on a disjunction with one empty conjunction.
signature_without_attributes :
    signature_request_validate (record {
      disclosure = record { ld_context = ld_context_signature_request; disclose = ([] ∷ []) ∷ [] };
      message = "text";
    })
    ≡ ok tt
unfolding signature_request_validate con_validate
signature_without_attributes = refl

disclosure_without_attributes :
    disclosure_request_validate
      (record { ld_context = ld_context_disclosure_request; disclose = ([] ∷ []) ∷ [] })
    ≡ err no_attributes
unfolding disclosure_request_validate
disclosure_without_attributes = refl

issuance_without_credentials :
    issuance_request_validate (record {
      disclosure = record { ld_context = ld_context_issuance_request; disclose = [] };
      credentials = [];
    })
    ≡ err empty_issuance
unfolding issuance_request_validate
issuance_without_credentials = refl
