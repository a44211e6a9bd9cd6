-- ===== src/Requestor/Permissions.antt =====
-- server/requestorserver/conf.go: what a requestor may issue, verify, sign and revoke. Host patterns are matched
-- by a parameter, as is the host of the configured URL.
use irmago.Prelude.{
  Bool, true, false, not, ◌&&◌, ◌||◌, Option, none, some, List, [], ◌∷◌, ◌++◌, String, ◌==◌,
  string_eq, nat_eq, if_some, if◌then◌else◌, length, or_else,
}
use irmago.Prelude.Map.{lookup}
use irmago.Identifier.{
  Identifier, identifier_eq, dot, root, credential_type_identifier, issuer_identifier,
}
use irmago.Request.{AttributeCon, AttributeDisCon, AttributeConDisCon}
use irmago.Session.Types.{Action, disclosing, signing, issuing, SessionRequest, CredentialRequest}

-- Permissions: an identifier, or one whose last part is an asterisk.
pub record Permissions : Type 0 where
  pub disclose_perms : List Identifier
  pub sign_perms : List Identifier
  pub issue_perms : List Identifier
  pub revoke_perms : List Identifier
  pub host_perms : List String

-- Configuration, for its permissions: those of all requestors, and those of each.
pub record Configuration : Type 0 where
  pub permissions : Permissions
  pub requestors : List (String × Permissions)
  pub default_host : Option String

-- A decision, with the reason of a refusal.
pub data Reason : Type 0 where
  no_permissions : Reason
  no_permission : Identifier → Reason
  default_host_invalid no_private_key host_not_allowed : Reason

pub data Decision : Type 0 where
  allowed : Decision
  denied : Reason → Decision

abbrev no_perms : Permissions
no_perms = record {
  disclose_perms = [];
  sign_perms = [];
  issue_perms = [];
  revoke_perms = [];
  host_perms = [];
}

-- conf.Requestors[requestor]
unfoldable pub permissions_of : String → Configuration → Permissions
permissions_of requestor conf = or_else (lookup requestor conf.requestors) no_perms

-- slices.Contains
unfoldable pub has : List Identifier → Identifier → Bool
has [] id = false
has (permission ∷ permissions) id = let rest = has permissions id in permission == id || rest

abbrev pub everything : Identifier
everything = 42 ∷ []

-- All that is below an identifier.
abbrev pub below : Identifier → Identifier
below id = id ++ dot ∷ everything

-- The permission for a credential type.
unfoldable pub grants_credential : List Identifier → Identifier → Bool
unfolding has
grants_credential permissions id =
    has permissions everything
    || (has permissions (below (root id))
        || (has permissions (below (issuer_identifier id)) || has permissions id))

-- The permission for an attribute.
unfoldable pub grants_attribute : List Identifier → Identifier → Bool
unfolding has
grants_attribute permissions attr =
    let credential = credential_type_identifier attr in
    has permissions everything
    || (has permissions (below (root attr))
        || (has permissions (below (issuer_identifier credential))
            || (has permissions (below credential) || has permissions attr)))

-- The first identifier that is not granted.
unfoldable pub first_refused : (Identifier → Bool) → List Identifier → Option Identifier
first_refused granted [] = none
first_refused granted (id ∷ ids) =
    let rest = first_refused granted ids in if granted id then rest else some id

abbrev pub decide : List Identifier → Option Identifier → Decision
decide [] refused = denied no_permissions
decide (permission ∷ permissions) none = allowed
decide (permission ∷ permissions) (some id) = denied (no_permission id)

unfoldable pub issuing_permissions : String → Configuration → List Identifier
unfolding permissions_of
issuing_permissions requestor conf =
    (permissions_of requestor conf).issue_perms ++ conf.permissions.issue_perms

unfoldable pub credential_types_of : List CredentialRequest → List Identifier
credential_types_of [] = []
credential_types_of (cred ∷ creds) = cred.credential_type_id ∷ credential_types_of creds

-- CanIssue
unfoldable pub can_issue : String → List CredentialRequest → Configuration → Decision
unfolding issuing_permissions grants_credential first_refused credential_types_of
can_issue requestor creds conf =
    let permissions = issuing_permissions requestor conf in
    decide permissions (first_refused (grants_credential permissions) (credential_types_of creds))

-- The permissions for the attributes of a session with this action.
unfoldable pub verify_permissions : String → Action → Configuration → List Identifier
unfolding permissions_of
verify_permissions requestor signing conf =
    (permissions_of requestor conf).sign_perms ++ conf.permissions.sign_perms
verify_permissions requestor disclosing conf =
    (permissions_of requestor conf).disclose_perms ++ conf.permissions.disclose_perms
verify_permissions requestor issuing conf =
    (permissions_of requestor conf).disclose_perms ++ conf.permissions.disclose_perms

unfoldable pub con_types : AttributeCon → List Identifier
con_types [] = []
con_types (attr ∷ con) = attr.attr_type ∷ con_types con

unfoldable pub dis_con_types : AttributeDisCon → List Identifier
unfolding con_types
dis_con_types [] = []
dis_con_types (con ∷ discon) = con_types con ++ dis_con_types discon

-- The attribute types of a request, in the order of Iterate.
unfoldable pub requested_types : AttributeConDisCon → List Identifier
unfolding dis_con_types
requested_types [] = []
requested_types (discon ∷ condiscon) = dis_con_types discon ++ requested_types condiscon

-- CanVerifyOrSign
unfoldable pub can_verify_or_sign : String → Action → AttributeConDisCon → Configuration → Decision
unfolding verify_permissions grants_attribute first_refused requested_types
can_verify_or_sign requestor action disjunctions conf =
    let permissions = verify_permissions requestor action conf in
    decide permissions (first_refused (grants_attribute permissions) (requested_types disjunctions))

-- One check after another.
abbrev pub and_then : Decision → Decision → Decision
and_then allowed next = next
and_then (denied reason) next = denied reason

-- A check of the credentials that a session issues.
abbrev pub if_issuing : Action → Decision → Decision
if_issuing issuing decision = decision
if_issuing _ decision = allowed

-- The check of the attributes of a request that asks for some.
unfoldable pub can_disclose : String → Action → AttributeConDisCon → Configuration → Decision
unfolding can_verify_or_sign
can_disclose requestor action disjunctions conf =
    if length disjunctions == 0
    then allowed
    else can_verify_or_sign requestor action disjunctions conf

module _ (matches : String → String → Bool) where
  any_match : List String → String → Bool
  any_match [] host = false
  any_match (pattern' ∷ patterns) host =
      let rest = any_match patterns host in matches pattern' host || rest

  allowed_if : Bool → Decision
  allowed_if true = allowed
  allowed_if false = denied host_not_allowed

  -- The host of a session: the default one, or what the patterns of the requestor match.
  unfoldable pub can_use_host : String → String → Configuration → Decision
  unfolding permissions_of any_match allowed_if
  can_use_host requestor host conf =
      if_some conf.default_host (denied default_host_invalid) (λ default_host.
        let used = if host == "" then default_host else host in
        let patterns = (permissions_of requestor conf).host_perms in
        allowed_if ((length patterns == 0 && used == default_host) || any_match patterns used))

  -- CanRequest
  unfoldable pub can_request : String → SessionRequest → Configuration → Decision
  unfolding can_issue can_disclose can_use_host
  can_request requestor request conf =
      and_then (if_issuing request.action (can_issue requestor request.credentials conf)) (
        and_then (can_disclose requestor request.action request.disclose conf)
          (can_use_host requestor request.host conf))

-- The end of CanRevoke.
decide_revocation : Bool → List Identifier → Identifier → Decision
unfolding grants_credential
decide_revocation has_key permissions cred =
    if not has_key
    then denied no_private_key
    else if grants_credential permissions cred
    then allowed
    else denied (no_permission cred)

-- CanRevoke: a private key of the issuer has to be there.
unfoldable pub can_revoke : (Identifier → Bool) → String → Identifier → Configuration → Decision
unfolding permissions_of decide_revocation issuer_identifier
can_revoke has_key requestor cred conf =
    let permissions =
      (permissions_of requestor conf).revoke_perms ++ conf.permissions.revoke_perms in
    and_then (decide permissions none)
      (decide_revocation (has_key (issuer_identifier cred)) permissions cred)
