-- ===== src/Request.antt =====
-- requests.go: what a session request asks for. A conjunction holds attribute requests, a
-- disjunction holds conjunctions, and a request holds a conjunction of disjunctions.
pub mod Adjacency
pub mod Legacy
mod Validation
mod Examples
use irmago.Prelude.{
  ℕ, suc, Bool, true, false, not, ◌&&◌, ◌||◌, Option, none, some, is_some, List, [], ◌∷◌, String,
  ◌==◌, nat_eq, if◌then◌else◌,
}
use irmago.Prelude.Outcome.{Outcome, ok, err, panic, ◌>>=◌, ◌>>◌, ensure}
use irmago.Identifier.{Identifier, identifier_eq, parts_count, credential_type_identifier}

-- AttributeRequest: a value is the slice of its bytes.
pub record AttributeRequest : Type 0 where
  pub attr_type : Identifier
  pub value : Option (List ℕ)
  pub not_null : Bool

abbrev pub AttributeCon : Type 0
AttributeCon = List AttributeRequest

abbrev pub AttributeDisCon : Type 0
AttributeDisCon = List AttributeCon

abbrev pub AttributeConDisCon : Type 0
AttributeConDisCon = List AttributeDisCon

abbrev pub value_matches : Option (List ℕ) → Option (List ℕ) → Bool
value_matches none val = true
value_matches (some v) none = false
value_matches (some v) (some w) = v == w

-- AttributeRequest.Satisfy
unfoldable pub attribute_satisfy : AttributeRequest → Identifier → Option (List ℕ) → Bool
attribute_satisfy ar attr val =
    ar.attr_type == attr && ((not ar.not_null || is_some val) && value_matches ar.value val)

pub data ValidateError : Type 0 where
  parts credential_parts : ℕ → ValidateError
  not_adjacent empty_disjunction multiple_non_singletons not_disclosure no_attributes :
      ValidateError
  not_signature empty_message not_issuance empty_issuance : ValidateError

-- The keys of a Go map that is used as a set.
unfoldable pub contains : List Identifier → Identifier → Bool
contains [] a = false
contains (x ∷ xs) a = a == x || contains xs a

-- AttributeCon.CredentialTypes, behind a last element of the result.
unfoldable pub credential_types_from : Option Identifier → AttributeCon → List Identifier
credential_types_from last [] = []
credential_types_from last (attr ∷ c) =
    let typ = credential_type_identifier attr.attr_type in
    let rest = credential_types_from (some typ) c in
    elim last [ none ↦ typ ∷ rest | some t ↦ if t == typ then rest else typ ∷ rest ]

unfoldable pub credential_types : AttributeCon → List Identifier
unfolding credential_types_from
credential_types c = credential_types_from none c

-- The loop of AttributeCon.Validate.
unfoldable pub con_validate_from :
    List Identifier → Identifier → AttributeCon → Outcome ValidateError (Unit {0})
con_validate_from credtypes last [] = ok tt
con_validate_from credtypes last (attr ∷ c) =
    let count = parts_count attr.attr_type in
    let typ = credential_type_identifier attr.attr_type in
    let rest = con_validate_from (typ ∷ credtypes) typ c in
    if not (count == 3) && not (count == 2)
    then err (parts (suc count))
    else if contains credtypes typ && not (last == typ)
    then err not_adjacent
    else rest

unfoldable pub con_validate : AttributeCon → Outcome ValidateError (Unit {0})
unfolding con_validate_from
con_validate c = con_validate_from [] [] c

unfoldable pub cons_validate : AttributeDisCon → Outcome ValidateError (Unit {0})
cons_validate [] = ok tt
cons_validate (con ∷ dc) = do con_validate con; cons_validate dc

-- AttributeDisCon.Validate
unfoldable pub dis_con_validate : AttributeDisCon → Outcome ValidateError (Unit {0})
unfolding cons_validate
dis_con_validate [] = err empty_disjunction
dis_con_validate (con ∷ dc) = cons_validate (con ∷ dc)

-- The check of AttributeConDisCon.Validate on one conjunction; `is_singleton` is `none` where the
-- configuration does not know the credential type, and the source dereferences nil.
unfoldable pub singletons_from :
    (Identifier → Option Bool) → Option Identifier → AttributeCon → Outcome ValidateError (Unit {0})
singletons_from is_singleton nonsingleton [] = ok tt
singletons_from is_singleton nonsingleton (attr ∷ con) =
    let typ = credential_type_identifier attr.attr_type in
    let keep = singletons_from is_singleton nonsingleton con in
    let replace = singletons_from is_singleton (some typ) con in
    elim (is_singleton typ) [
      | none ↦ panic
      | some true ↦ keep
      | some false ↦ elim nonsingleton [
        | none ↦ replace
        | some t ↦ if not (t == typ) then err multiple_non_singletons else replace
      ]
    ]

unfoldable pub all_cons :
    (AttributeCon → Outcome ValidateError (Unit {0}))
    → AttributeDisCon
    → Outcome ValidateError (Unit {0})
all_cons check [] = ok tt
all_cons check (con ∷ dc) = do check con; all_cons check dc

-- AttributeConDisCon.Validate
unfoldable pub con_dis_con_validate :
    (Identifier → Option Bool) → AttributeConDisCon → Outcome ValidateError (Unit {0})
unfolding singletons_from all_cons
con_dis_con_validate is_singleton [] = ok tt
con_dis_con_validate is_singleton (discon ∷ cdc) = do
  all_cons (singletons_from is_singleton none) discon
  con_dis_con_validate is_singleton cdc
