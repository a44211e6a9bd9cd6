-- ===== src/Identifier.antt =====
-- identifiers.go: dotted identifiers of schemes, issuers, credential types and attributes. An
-- identifier is the slice of its bytes; the wrapper structs of the source, which only keep the kinds
-- apart, are one type here.
pub mod Parts
mod Examples
use irmago.Prelude.{
  ℕ, zero, suc, ◌+◌, Bool, true, false, ◌&&◌, Option, none, some, List, [], ◌∷◌, ◌≡◌, ◌↔◌, refl,
  ap₂, arith, Eq, ◌==◌, nat_beq, nat_eq, nat_beq_iff, if◌then◌else◌, take, drop,
}

-- metaObjectIdentifier
abbrev pub Identifier : Type 0
Identifier = List ℕ

abbrev pub bytes_beq : List ℕ → List ℕ → Bool
bytes_beq [] [] = true
bytes_beq [] (y ∷ ys) = false
bytes_beq (x ∷ xs) [] = false
bytes_beq (x ∷ xs) (y ∷ ys) = nat_beq x y && bytes_beq xs ys

bytes_beq_sound : (xs ys : List ℕ) → bytes_beq xs ys ≡ true → xs ≡ ys
bytes_beq_sound [] [] h = refl
bytes_beq_sound [] (y ∷ ys) h = cc
bytes_beq_sound (x ∷ xs) [] h = cc
bytes_beq_sound (x ∷ xs) (y ∷ ys) h = ground (arith, bytes_beq_sound xs ys)

bytes_beq_refl : (xs : List ℕ) → bytes_beq xs xs ≡ true
bytes_beq_refl [] = refl
bytes_beq_refl (x ∷ xs) = ground (arith, bytes_beq_refl xs)

pub bytes_beq_iff : (xs ys : List ℕ) → (bytes_beq xs ys ≡ true) ↔ (xs ≡ ys)
bytes_beq_iff xs ys = (bytes_beq_sound xs ys, λ e. rw e (bytes_beq_refl ys))

instance abbrev pub identifier_eq : Eq (List ℕ)
identifier_eq = record { same = bytes_beq; decides = bytes_beq_iff }

abbrev pub dot : ℕ
dot = b'.'

-- strings.LastIndex, strings.Index and strings.Count for the separator.
unfoldable pub last_index : Identifier → Option ℕ
last_index [] = none
last_index (c ∷ cs) = elim (last_index cs) [
  | none ↦ if c == dot then some 0 else none
  | some i ↦ some (suc i)
]

unfoldable pub index : Identifier → Option ℕ
index [] = none
index (c ∷ cs) =
    if c == dot then some 0 else elim (index cs) [ none ↦ none | some i ↦ some (suc i) ]

unfoldable pub count : Identifier → ℕ
count [] = 0
count (c ∷ cs) = if c == dot then suc (count cs) else count cs

-- Parent
unfoldable pub parent : Identifier → Identifier
unfolding last_index
parent oi = elim (last_index oi) [ none ↦ oi | some i ↦ take i oi ]

-- Name: without a separator the index is -1, and the slice starts at 0.
unfoldable pub name : Identifier → Identifier
unfolding last_index
name oi = elim (last_index oi) [ none ↦ oi | some i ↦ drop (i + 1) oi ]

-- Root
unfoldable pub root : Identifier → Identifier
unfolding index
root oi = elim (index oi) [ none ↦ oi | some i ↦ take i oi ]

-- PartsCount counts the separators.
unfoldable pub parts_count : Identifier → ℕ
unfolding count
parts_count oi = count oi

-- AttributeTypeIdentifier.IsCredential
unfoldable pub is_credential : Identifier → Bool
unfolding count
is_credential id = count id == 2

-- AttributeTypeIdentifier.CredentialTypeIdentifier
unfoldable pub credential_type_identifier : Identifier → Identifier
unfolding is_credential
credential_type_identifier id = if is_credential id then id else parent id

-- CredentialTypeIdentifier.IssuerIdentifier and IssuerIdentifier.SchemeManagerIdentifier
unfoldable pub issuer_identifier : Identifier → Identifier
issuer_identifier id = parent id

unfoldable pub scheme_manager_identifier : Identifier → Identifier
scheme_manager_identifier id = parent id
