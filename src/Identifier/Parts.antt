-- ===== src/Identifier/Parts.antt =====
-- How the parts of an identifier fit together.
use irmago.Prelude.{
  ℕ, zero, suc, ◌+◌, ◌<◌, ◌≡◌, refl, ap, ◌⊎◌, inl, inr, none, some, List, [], ◌∷◌, ◌++◌, arith,
  ◌==◌, nat_eq, take, drop, Option-cases, Bool-cases,
}
use irmago.Identifier.{
  Identifier, dot, last_index, count, parent, name, parts_count, credential_type_identifier,
  issuer_identifier,
}

pub count-append : (xs ys : List ℕ) → count (xs ++ ys) ≡ count xs + count ys
unfolding count
count-append [] ys = omega arith
count-append (x ∷ xs) ys = ground (arith, count-append xs ys)

last_index-none : (oi : Identifier) → last_index oi ≡ none → count oi ≡ 0
unfolding last_index count
last_index-none [] h = refl
last_index-none (c ∷ cs) h = ground (arith, last_index-none cs)

-- With a last separator at i, the identifier splits there, and nothing behind it is a separator.
last_index_split :
    (oi : Identifier) (i : ℕ)
    → last_index oi ≡ some i
    → (take i oi ++ dot ∷ drop (i + 1) oi ≡ oi) × (count (drop (i + 1) oi) ≡ 0)
unfolding last_index count
last_index_split [] i h = cc
last_index_split (c ∷ cs) zero h = elim (Option-cases (last_index cs)) [
  | inl e ↦ (ap (λ x. x ∷ cs) (ground (arith, e)), last_index-none cs e)
  | inr (j, e) ↦ absurd (ground (arith, e))
]
last_index_split (c ∷ cs) (suc i) h =
    let e : last_index cs ≡ some i = ground arith in
    let (whole, last) = last_index_split cs i e in
    let n : suc i + 1 ≡ suc (i + 1) = omega arith in rw n (ap (◌∷◌ c) whole, last)

-- An identifier with at least two parts is its parent, a separator and its name; the name has no
-- separator, and the parent has one less than the identifier.
pub parent-name :
    (oi : Identifier)
    → 0 < parts_count oi
    → (parent oi ++ dot ∷ name oi ≡ oi)
      × (parts_count (name oi) ≡ 0)
      × (suc (parts_count (parent oi)) ≡ parts_count oi)
unfolding parent name parts_count
parent-name oi h = elim (Option-cases (last_index oi)) [
  | inl e ↦ absurd (omega (arith, last_index-none oi e))
  | inr (i, e) ↦
      let (whole, last) = last_index_split oi i e in
      let sum = count-append (take i oi) (dot ∷ drop (i + 1) oi) in
      let parts = ap count whole in
      rw (e, parent, name) (whole, last, omega (arith, sum, parts, last))
]

-- An attribute identifier of 4 parts, or of the 3 parts of a whole credential, has a credential type
-- identifier of 3 parts, whose issuer has 2 parts.
pub credential_type_parts :
    (id : Identifier)
    → (parts_count id ≡ 3) ⊎ (parts_count id ≡ 2)
    → (parts_count (credential_type_identifier id) ≡ 2)
      × (parts_count (issuer_identifier (credential_type_identifier id)) ≡ 1)
unfolding credential_type_identifier issuer_identifier parts_count
credential_type_parts id h = elim (Bool-cases (count id == 2)) [
  | inl whole ↦
      let (_, _, up) = parent-name id (unfold parts_count in ground arith) in
      rw (whole, credential_type_identifier) (ground (arith, up))
  | inr part ↦
      let (_, _, up) = parent-name id (unfold parts_count in ground arith) in
      let (_, _, top) = parent-name (parent id) (unfold parts_count in ground (arith, up)) in
      rw (part, credential_type_identifier) (ground (arith, up, top))
]
