-- ===== src/Requestor/Examples.antt =====
-- The theorems on the requestor server at a configuration with two requestors.
use irmago.Prelude.{
  ℕ, ◌≡◌, ◌≢◌, ◌↔◌, refl, true, false, none, some, List, [], ◌∷◌, String, ◌==◌, string_eq, length,
  All, leb,
}
use irmago.Prelude.Map.{lookup}
use irmago.Identifier.{Identifier, root}
use irmago.Request.{AttributeConDisCon}
use irmago.Session.Types.{disclosing, issuing, SessionRequest, RequestorRequest}
use irmago.Requestor.Permissions.{
  Configuration, allowed, below, can_verify_or_sign, can_request, verify_permissions,
  requested_types, issuing_permissions, credential_types_of,
}
use irmago.Requestor.Grants.{
  GrantsAttribute, GrantsCredential, can_verify_or_sign_iff, can_request-Grants,
}
use irmago.Requestor.Authentication.{
  Post, Wire, StandardClaims, RevocationRequest, accepted, jwt_authenticate,
}
use irmago.Requestor.Create.{Settings, IrmaServer, revoked, handle_revocation}
use irmago.Requestor.Revoked.{Revocation, handle_revocation-Revocation}
use irmago.Requestor.Authentication.{
  Authenticator, nil_authenticator, public_key_authenticator, authenticate_revocation,
}
use irmago.Requestor.Permissions.{can_revoke}
use irmago.Identifier.{parent}
use irmago.Requestor.Signed.{SignedBy, jwt_authenticate-SignedBy}

-- The scheme s, its issuer i, the credential type c, and the attribute a.
abbrev scheme : Identifier
scheme = 115 ∷ []

abbrev credential : Identifier
credential = 115 ∷ 46 ∷ 105 ∷ 46 ∷ 99 ∷ []

abbrev attribute : Identifier
attribute = 115 ∷ 46 ∷ 105 ∷ 46 ∷ 99 ∷ 46 ∷ 97 ∷ []

abbrev conf : Configuration
conf = record {
  permissions = record {
    disclose_perms = [];
    sign_perms = [];
    issue_perms = [];
    revoke_perms = [];
    host_perms = [];
  };
  requestors =
      (
        "alice",
        record {
          disclose_perms = below scheme ∷ [];
          sign_perms = [];
          issue_perms = credential ∷ [];
          revoke_perms = [];
          host_perms = [];
        },
      )
      ∷ [];
  default_host = some "example.com";
}

abbrev asked : AttributeConDisCon
asked = ((record { attr_type = attribute; value = none; not_null = false } ∷ []) ∷ []) ∷ []

abbrev request : SessionRequest
request = record {
  action = disclosing;
  disclose = asked;
  labels = [];
  message = "";
  credentials = [];
  revocation = [];
  version = none;
  host = "";
  client_return_url = "";
  augment_return_url = false;
  was_legacy = false;
}

can_verify_or_sign_iff_example : (can_verify_or_sign "alice" disclosing asked conf ≡ allowed) ↔ (
    (length (verify_permissions "alice" disclosing conf) ≢ 0)
    × All (GrantsAttribute (verify_permissions "alice" disclosing conf)) (requested_types asked))
can_verify_or_sign_iff_example = can_verify_or_sign_iff "alice" disclosing asked conf

session_allowed : can_request (λ p host. p == host) "alice" request conf ≡ allowed
unfolding can_request lookup root
session_allowed = refl

can_request-Grants_example :
    (request.action ≡ issuing
      → All
          (GrantsCredential (issuing_permissions "alice" conf))
          (credential_types_of request.credentials))
    × All
        (GrantsAttribute (verify_permissions "alice" request.action conf))
        (requested_types request.disclose)
can_request-Grants_example =
    can_request-Grants (λ p host. p == host) "alice" request conf session_allowed

abbrev rrequest : RequestorRequest
rrequest = record {
  result_jwt_validity = 120;
  client_timeout = 0;
  callback_url = "";
  next_session = none;
  request = request;
}

abbrev revocation : RevocationRequest
revocation = record { credential_type = credential; key = "key"; issued = 0 }

-- Every token names alice in its header, and bob in its body.
abbrev wire : Wire
wire = record {
  is_json = λ t. t == "application/json";
  is_text = λ t. t == "text/plain";
  parse_session_request = λ body. none;
  parse_revocation = λ body. none;
  algorithm = λ token. some "RS256";
  kid = λ token. some (some "alice");
  claims =
      λ token. some (record { issuer = "bob"; subject = "revocation_request"; issued_at = 90 });
  verifies = λ now token key. key == "alice's key";
  verify_issued_at = λ now issued_at. leb issued_at now;
  parse_requestor_jwt = λ subject token. some rrequest;
  parse_revocation_jwt = λ token. some (revocation, "bob");
}

abbrev post : Post
post = record { authorization = ""; content_type = "text/plain"; body = "token" }

abbrev keys : List (String × String)
keys = ("bob", "bob's key") ∷ ("alice", "alice's key") ∷ []

abbrev now : ℕ
now = 100000000000

abbrev alice_claims : StandardClaims
alice_claims = record { issuer = "alice"; subject = "revocation_request"; issued_at = 90 }

request_accepted : jwt_authenticate wire now post "RS256" keys 60 ≡ accepted rrequest "alice"
unfolding jwt_authenticate lookup
request_accepted = refl

jwt_authenticate-SignedBy_example : SignedBy wire now "token" keys "alice"
jwt_authenticate-SignedBy_example =
    jwt_authenticate-SignedBy wire now post "RS256" keys 60 rrequest "alice" request_accepted

-- Bob may revoke, and Alice's key signs a token whose body names Bob.
abbrev revoking : Configuration
revoking = record conf {
  requestors =
      (
        "bob",
        record {
          disclose_perms = [];
          sign_perms = [];
          issue_perms = [];
          revoke_perms = credential ∷ [];
          host_perms = [];
        },
      )
      ∷ conf.requestors;
}

abbrev settings : Settings
settings = record { signs_results = true; allow_unsigned_callbacks = false }

abbrev irma : IrmaServer
irma = record { start_session = λ r. some "token"; knows_key = λ r. true; revokes = λ r. true }

abbrev authenticators : List Authenticator
authenticators = nil_authenticator ∷ public_key_authenticator keys 60 ∷ []

handle_revocation-signed_by_alice :
    handle_revocation
      (λ p host. p == host)
      revoking
      settings
      irma
      wire
      now
      post
      (λ id. true)
      authenticators
    ≡ revoked ∷ []
unfolding handle_revocation lookup root authenticate_revocation can_revoke parent
handle_revocation-signed_by_alice = refl

handle_revocation-Revocation_example :
    Revocation
      (λ p host. p == host)
      revoking
      settings
      irma
      wire
      now
      post
      (λ id. true)
      authenticators
handle_revocation-Revocation_example =
    handle_revocation-Revocation (λ p host. p == host) revoking settings irma wire now post
      (λ id. true) authenticators handle_revocation-signed_by_alice
