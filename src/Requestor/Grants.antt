-- ===== src/Requestor/Grants.antt =====
-- Which permissions of server/requestorserver/conf.go allow a session.
use irmago.Prelude.{
  ◌≡◌, ◌≢◌, ◌↔◌, ◌⊎◌, inl, inr, refl, sym, subst, ◌∙◌, Bool, true, false, Option, none, some, List,
  [], ◌∷◌, String, ◌==◌, nat_eq, string_eq, length, if◌then◌else◌, All, Bool-cases, arith,
}
use irmago.Identifier.{
  Identifier, identifier_eq, root, credential_type_identifier, issuer_identifier,
}
use irmago.Request.{AttributeConDisCon}
use irmago.Session.Types.{Action, issuing, SessionRequest}
use irmago.Requestor.Permissions.{
  Configuration, Decision, allowed, denied, everything, below, has, grants_credential,
  grants_attribute, first_refused, decide, verify_permissions, requested_types, can_verify_or_sign,
  can_issue, issuing_permissions, credential_types_of, and_then, if_issuing, can_use_host,
  can_disclose, can_request,
}

-- The permission stands in the list.
abbrev pub Listed : Identifier → List Identifier → Type 0
Listed id [] = ⊥
Listed id (permission ∷ permissions) = (permission ≡ id) ⊎ Listed id permissions

has_iff :
    (permissions : List Identifier) (id : Identifier)
    → (has permissions id ≡ true) ↔ Listed id permissions
unfolding has
has_iff [] id = ground arith
has_iff (permission ∷ permissions) id =
    ground (arith, identifier_eq.decides permission id, has_iff permissions id)

-- A permission of the list covers a credential type or an attribute.
abbrev pub GrantsCredential : List Identifier → Identifier → Type 0
GrantsCredential permissions id =
    Listed everything permissions
    ⊎ (Listed (below (root id)) permissions
        ⊎ (Listed (below (issuer_identifier id)) permissions ⊎ Listed id permissions))

abbrev pub GrantsAttribute : List Identifier → Identifier → Type 0
GrantsAttribute permissions attr =
    Listed everything permissions
    ⊎ (Listed (below (root attr)) permissions
        ⊎ (Listed (below (issuer_identifier (credential_type_identifier attr))) permissions
            ⊎ (Listed (below (credential_type_identifier attr)) permissions
                ⊎ Listed attr permissions)))

grants_credential_iff :
    (permissions : List Identifier) (id : Identifier)
    → (grants_credential permissions id ≡ true) ↔ GrantsCredential permissions id
unfolding grants_credential
grants_credential_iff permissions id = ground (
  arith,
  has_iff permissions everything,
  has_iff permissions (below (root id)),
  has_iff permissions (below (issuer_identifier id)),
  has_iff permissions id,
)

grants_attribute_iff :
    (permissions : List Identifier) (id : Identifier)
    → (grants_attribute permissions id ≡ true) ↔ GrantsAttribute permissions id
unfolding grants_attribute
grants_attribute_iff permissions id = ground (
  arith,
  has_iff permissions everything,
  has_iff permissions (below (root id)),
  has_iff permissions (below (issuer_identifier (credential_type_identifier id))),
  has_iff permissions (below (credential_type_identifier id)),
  has_iff permissions id,
)

decide-eq-allowed :
    (permissions : List Identifier) (o : Option Identifier)
    → decide permissions o ≡ allowed
    → (length permissions ≢ 0) × (o ≡ none)
decide-eq-allowed [] o h = cc
decide-eq-allowed (permission ∷ permissions) none h = (omega arith, refl)
decide-eq-allowed (permission ∷ permissions) (some id) h = cc

decide-none :
    (permissions : List Identifier) → length permissions ≢ 0 → decide permissions none ≡ allowed
decide-none [] h = ground arith
decide-none (permission ∷ permissions) h = refl

-- A check that says what it means for all identifiers finds none that it refuses exactly when it means so for
-- each.
first_refused_iff :
    (granted : Identifier → Bool) (Granted : Identifier → Type 0) (ids : List Identifier)
    → ((id : Identifier) → (granted id ≡ true) ↔ Granted id)
    → (first_refused granted ids ≡ none) ↔ All Granted ids
unfolding first_refused
first_refused_iff granted Granted [] each = (λ _. tt, λ _. refl)
first_refused_iff granted Granted (id ∷ ids) each =
    let rest = first_refused_iff granted Granted ids each in
    elim (Bool-cases (granted id)) [
      | inl covered ↦ rw covered ((λ h. ((each id).0 covered, rest.0 h)), λ h. rest.1 h.1)
      | inr refused ↦ rw refused ((λ h. cc), λ h. cc (sym refused ∙ (each id).1 h.0))
    ]

decide_iff :
    (granted : Identifier → Bool) (Granted : Identifier → Type 0)
    (permissions ids : List Identifier)
    → ((id : Identifier) → (granted id ≡ true) ↔ Granted id)
    → (decide permissions (first_refused granted ids) ≡ allowed)
      ↔ ((length permissions ≢ 0) × All Granted ids)
decide_iff granted Granted permissions ids each =
    let found = first_refused_iff granted Granted ids each in
    (
      λ h.
          (let (full, clear) = decide-eq-allowed permissions (first_refused granted ids) h in
            (full, found.0 clear)),
      λ h. rw (found.1 h.1) (decide-none permissions h.0),
    )

-- A requestor may verify or sign exactly if there are permissions for it, and each attribute of the request is
-- covered by one of the requestor or of all requestors.
pub can_verify_or_sign_iff :
    (requestor : String) (action : Action) (disjunctions : AttributeConDisCon)
    (conf : Configuration)
    → (can_verify_or_sign requestor action disjunctions conf ≡ allowed) ↔ (
        (length (verify_permissions requestor action conf) ≢ 0)
        × All
            (GrantsAttribute (verify_permissions requestor action conf))
            (requested_types disjunctions))
unfolding can_verify_or_sign
can_verify_or_sign_iff requestor action disjunctions conf =
    let permissions = verify_permissions requestor action conf in
    decide_iff (grants_attribute permissions) (GrantsAttribute permissions) permissions
      (requested_types disjunctions) (grants_attribute_iff permissions)

can_issue_iff :
    (requestor : String) (request : SessionRequest) (conf : Configuration)
    → (can_issue requestor request.credentials conf ≡ allowed) ↔ (
        (length (issuing_permissions requestor conf) ≢ 0)
        × All
            (GrantsCredential (issuing_permissions requestor conf))
            (credential_types_of request.credentials))
unfolding can_issue
can_issue_iff requestor request conf =
    let permissions = issuing_permissions requestor conf in
    decide_iff (grants_credential permissions) (GrantsCredential permissions) permissions
      (credential_types_of request.credentials) (grants_credential_iff permissions)

and_then-allowed :
    (d next : Decision) → and_then d next ≡ allowed → (d ≡ allowed) × (next ≡ allowed)
and_then-allowed allowed next h = (refl, h)
and_then-allowed (denied reason) next h = cc

can_disclose-Grants :
    (requestor : String) (action : Action) (disjunctions : AttributeConDisCon)
    (conf : Configuration)
    → can_disclose requestor action disjunctions conf ≡ allowed
    → All
        (GrantsAttribute (verify_permissions requestor action conf))
        (requested_types disjunctions)
unfolding can_disclose
can_disclose-Grants requestor action [] conf h = unfold requested_types in tt
can_disclose-Grants requestor action (discon ∷ disjunctions) conf h =
    let full : (length (discon ∷ disjunctions) == 0) ≡ false = ground arith in
    ((can_verify_or_sign_iff requestor action (discon ∷ disjunctions) conf).0 (
      subst
        (λ b.
          (if b then allowed else can_verify_or_sign requestor action (discon ∷ disjunctions) conf)
          ≡ allowed)
        full h)).1

-- A session that is allowed issues only credentials, and asks only for attributes, that a permission of the
-- requestor or of all requestors covers.
pub can_request-Grants :
    (matches : String → String → Bool) (requestor : String) (request : SessionRequest)
    (conf : Configuration)
    → can_request matches requestor request conf ≡ allowed
    → (request.action ≡ issuing
        → All
            (GrantsCredential (issuing_permissions requestor conf))
            (credential_types_of request.credentials))
      × All
          (GrantsAttribute (verify_permissions requestor request.action conf))
          (requested_types request.disclose)
unfolding can_request
can_request-Grants matches requestor request conf h =
    let (issues, h1) =
      and_then-allowed (if_issuing request.action (can_issue requestor request.credentials conf))
        (and_then (can_disclose requestor request.action request.disclose conf)
          (can_use_host matches requestor request.host conf))
        h in
    let (discloses, h2) =
      and_then-allowed (can_disclose requestor request.action request.disclose conf)
        (can_use_host matches requestor request.host conf) h1 in
    (
      λ e.
          ((can_issue_iff requestor request conf).0 (
            subst (λ a. if_issuing a (can_issue requestor request.credentials conf) ≡ allowed) e
              issues)).1,
      can_disclose-Grants requestor request.action request.disclose conf discloses,
    )
