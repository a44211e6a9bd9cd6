-- ===== src/Request/Adjacency.antt =====
-- AttributeCon.Validate accepts a conjunction exactly when the attributes of each credential type
-- stand next to each other.
use irmago.Prelude.{
  ℕ, ◌≡◌, refl, ◌⊎◌, inl, inr, ◌↔◌, Bool, true, false, not, ◌&&◌, some, List, [], ◌∷◌, ◌==◌, nat_eq,
  if◌then◌else◌, All, arith, Bool-cases, beq_refl,
}
use irmago.Prelude.Outcome.{Outcome, ok, err}
use irmago.Identifier.{
  Identifier, bytes_beq, identifier_eq, bytes_beq_iff, parts_count, credential_type_identifier,
}
use irmago.Request.{
  AttributeRequest, AttributeCon, ValidateError, parts, not_adjacent, contains,
  credential_types_from, credential_types, con_validate_from, con_validate,
}

-- No identifier occurs twice.
abbrev pub Distinct : List Identifier → Type 0
Distinct [] = Unit
Distinct (x ∷ xs) = (contains xs x ≡ false) × Distinct xs

abbrev pub HasParts : AttributeRequest → Type 0
HasParts attr = (parts_count attr.attr_type ≡ 3) ⊎ (parts_count attr.attr_type ≡ 2)

abbrev Unseen : List Identifier → List Identifier → Type 0
Unseen seen = All (λ t. contains seen t ≡ false)

Unseen-cons :
    (seen : List Identifier) (typ : Identifier) (xs : List Identifier)
    → Unseen (typ ∷ seen) xs ↔ ((contains xs typ ≡ false) × Unseen seen xs)
unfolding contains
Unseen-cons seen typ [] = (λ _. (refl, tt), λ _. tt)
Unseen-cons seen typ (x ∷ xs) =
    let (down, up) = Unseen-cons seen typ xs in
    (
      λ h. ground (arith, down h.1, bytes_beq_iff x typ, bytes_beq_iff typ x),
      λ h. (
        ground (arith, h.0, h.1.0, bytes_beq_iff x typ, bytes_beq_iff typ x),
        up (ground (arith, h.0), h.1.1),
      ),
    )

Unseen-nil : (xs : List Identifier) → Unseen [] xs
unfolding contains
Unseen-nil [] = tt
Unseen-nil (x ∷ xs) = (refl, Unseen-nil xs)

-- An identifier that was seen before can be added again.
Unseen-again :
    (seen : List Identifier) (typ : Identifier) (xs : List Identifier)
    → contains seen typ ≡ true
    → Unseen (typ ∷ seen) xs ↔ Unseen seen xs
unfolding contains
Unseen-again seen typ [] old = (λ _. tt, λ _. tt)
Unseen-again seen typ (x ∷ xs) old =
    let (down, up) = Unseen-again seen typ xs old in
    (
      λ h. (ground (arith, h.0), down h.1),
      λ h. (ground (arith, old, h.0, bytes_beq_iff x typ), up h.1),
    )

-- What the loop still accepts, from the set of types so far and the last one.
abbrev Accepts : List Identifier → Identifier → AttributeCon → Type 0
Accepts seen last c =
    All HasParts c
    × Distinct (credential_types_from (some last) c)
    × Unseen seen (credential_types_from (some last) c)

abbrev typ_of : AttributeRequest → Identifier
typ_of attr = credential_type_identifier attr.attr_type

Accepts-same :
    (seen : List Identifier) (last : Identifier) (attr : AttributeRequest) (c : AttributeCon)
    → contains seen last ≡ true
    → last ≡ typ_of attr
    → HasParts attr
    → Accepts (typ_of attr ∷ seen) (typ_of attr) c ↔ Accepts seen last (attr ∷ c)
unfolding credential_types_from
Accepts-same seen last attr c old e p =
    let again =
      Unseen-again seen (typ_of attr) (credential_types_from (some (typ_of attr)) c)
        (rw (← e) old) in
    let q : bytes_beq last (typ_of attr) ≡ true = (bytes_beq_iff last (typ_of attr)).1 e in
    rw q (λ h. ((p, h.0), h.1, again.0 h.2), λ h. (h.0.1, h.1, again.1 h.2))

Accepts-next :
    (seen : List Identifier) (last : Identifier) (attr : AttributeRequest) (c : AttributeCon)
    → bytes_beq last (typ_of attr) ≡ false
    → contains seen (typ_of attr) ≡ false
    → HasParts attr
    → Accepts (typ_of attr ∷ seen) (typ_of attr) c ↔ Accepts seen last (attr ∷ c)
unfolding credential_types_from
Accepts-next seen last attr c q new p =
    let (down, up) =
      Unseen-cons seen (typ_of attr) (credential_types_from (some (typ_of attr)) c) in
    rw q (
      λ h. let (r, u) = down h.2 in ((p, h.0), (r, h.1), (new, u)),
      λ h. (h.0.1, h.1.1, up (h.1.0, h.2.1)),
    )

HasParts-test :
    (attr : AttributeRequest)
    → HasParts attr
      ↔ ((not (parts_count attr.attr_type == 3) && not (parts_count attr.attr_type == 2)) ≡ false)
HasParts-test attr = (ground arith, ground arith)

contains_self : (seen : List Identifier) (typ : Identifier) → contains (typ ∷ seen) typ ≡ true
unfolding contains
contains_self seen typ = rw (beq_refl typ)

iff_trans : {A B C : Type 0} → A ↔ B → B ↔ C → A ↔ C
iff_trans f g = (λ a. g.0 (f.0 a), λ c. f.1 (g.1 c))

-- The test for adjacency, from what the rest of the conjunction gives.
Accepts-adjacent :
    (seen : List Identifier) (last : Identifier) (attr : AttributeRequest) (c : AttributeCon)
    → Accepts seen last (attr ∷ c)
    → (contains seen (typ_of attr) && not (bytes_beq last (typ_of attr))) ≡ false
unfolding credential_types_from
Accepts-adjacent seen last attr c acc = elim (Bool-cases (bytes_beq last (typ_of attr))) [
  | inl same ↦ rw same (ground arith)
  | inr diff ↦ ground (arith, acc.2)
]

Accepts-step :
    (seen : List Identifier) (last : Identifier) (attr : AttributeRequest) (c : AttributeCon)
    → contains seen last ≡ true
    → HasParts attr
    → (contains seen (typ_of attr) && not (bytes_beq last (typ_of attr))) ≡ false
    → Accepts (typ_of attr ∷ seen) (typ_of attr) c ↔ Accepts seen last (attr ∷ c)
Accepts-step seen last attr c old p next = elim (Bool-cases (bytes_beq last (typ_of attr))) [
  | inl same ↦ Accepts-same seen last attr c old ((bytes_beq_iff last (typ_of attr)).0 same) p
  | inr diff ↦ Accepts-next seen last attr c diff (ground arith) p
]

-- The two tests of the loop, before the rest of it is read.
abbrev guarded :
    Bool → Bool → Bool → ℕ → Outcome ValidateError (Unit {0}) → Outcome ValidateError (Unit {0})
guarded bad seen same count rest =
    if bad then err (parts count) else if seen && not same then err not_adjacent else rest

guarded_iff :
    {P : Type 0} (bad seen same : Bool) (count : ℕ) (rest : Outcome ValidateError (Unit {0}))
    → (P → (bad ≡ false) × ((seen && not same) ≡ false))
    → (bad ≡ false → (seen && not same) ≡ false → (rest ≡ ok tt) ↔ P)
    → (guarded bad seen same count rest ≡ ok tt) ↔ P
guarded_iff true seen same count rest need iff = (λ h. cc, λ p. cc (need p).0)
guarded_iff false true false count rest need iff = (λ h. cc, λ p. cc (need p).1)
guarded_iff false true true count rest need iff = iff refl refl
guarded_iff false false same count rest need iff = iff refl refl

con_validate_from-Accepts :
    (seen : List Identifier) (last : Identifier) (c : AttributeCon)
    → contains seen last ≡ true
    → (con_validate_from seen last c ≡ ok tt) ↔ Accepts seen last c
unfolding con_validate_from credential_types_from
con_validate_from-Accepts seen last [] old = (λ _. (tt, tt, tt), λ _. refl)
con_validate_from-Accepts seen last (attr ∷ c) old =
    let typ = typ_of attr in
    let rest = con_validate_from-Accepts (typ ∷ seen) typ c (contains_self seen typ) in
    guarded_iff (not (parts_count attr.attr_type == 3) && not (parts_count attr.attr_type == 2))
      (contains seen typ) (bytes_beq last typ) _ _
      (λ acc. ((HasParts-test attr).0 acc.0.0, Accepts-adjacent seen last attr c acc))
      (λ good next.
        iff_trans rest (Accepts-step seen last attr c old ((HasParts-test attr).1 good) next))

-- A conjunction is accepted exactly when each of its identifiers has 3 or 4 parts, and the credential
-- types in the order of their first attributes are distinct: attributes of one credential type are adjacent.
pub con_validate_iff :
    (c : AttributeCon) → (con_validate c ≡ ok tt) ↔ (All HasParts c × Distinct (credential_types c))
unfolding con_validate credential_types contains
con_validate_iff [] = (λ _. (tt, tt), λ _. refl)
con_validate_iff (attr ∷ c) =
    let typ = typ_of attr in
    let (down, up) = Unseen-cons [] typ (credential_types_from (some typ) c) in
    guarded_iff (not (parts_count attr.attr_type == 3) && not (parts_count attr.attr_type == 2))
      false (bytes_beq [] typ) _ _ (λ acc. ((HasParts-test attr).0 acc.0.0, refl))
      (λ good _. iff_trans (con_validate_from-Accepts (typ ∷ []) typ c (contains_self [] typ)) (
        λ h. (((HasParts-test attr).1 good, h.0), ((down h.2).0, h.1)),
        λ h. (h.0.1, h.1.1, up (h.1.0, Unseen-nil _)),
      ))
