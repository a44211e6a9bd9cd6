-- ===== src/Disclosure/Satisfied.antt =====
-- What it means that disclosed attributes satisfy a request, written without the loops of the code,
-- and that the Satisfy methods decide it.
use irmago.Prelude.{
  ℕ, ◌≤◌, ◌≡◌, ◌≢◌, refl, ◌⊎◌, inl, inr, ◌↔◌, Bool, true, false, Option, none, some, List, [], ◌∷◌,
  ltb, if◌then◌else◌, length, arith, Bool-cases,
}
use irmago.Prelude.Outcome.{Outcome, ok, err, panic, ◌>>=◌, >>=-eq-ok}
use irmago.Identifier.{Identifier, identifier_eq, bytes_beq_iff}
use irmago.Request.{
  AttributeRequest, AttributeCon, AttributeDisCon, AttributeConDisCon, attribute_satisfy,
  value_matches,
}
use irmago.Disclosure.{
  Scheme, Proof, DisclosedAttribute, DisclosedAttributeIndex, VerifyError, RevocationTimes,
  lookup_int, extract_attribute, con_satisfy_loop, con_satisfy, dis_con_satisfy,
}

value_matches_iff :
    (value val : Option (List ℕ))
    → (value_matches value val ≡ true) ↔ ((v : List ℕ) → value ≡ some v → val ≡ some v)
value_matches_iff none val = (λ _ v e. cc, λ _. refl)
value_matches_iff (some v) none = (λ h. cc, λ f. cc (f v refl))
value_matches_iff (some v) (some w) =
    (λ h v' e. cc ((bytes_beq_iff v w).0 h), λ f. (bytes_beq_iff v w).1 (cc (f v refl)))

-- An attribute meets a request exactly when it has the type of the request, is not null if the request
-- says so, and has the value of the request if there is one.
pub attribute_satisfy_iff :
    (ar : AttributeRequest) (attr : Identifier) (val : Option (List ℕ))
    → (attribute_satisfy ar attr val ≡ true) ↔ (
        (ar.attr_type ≡ attr)
        × (ar.not_null ≡ true → val ≢ none)
        × ((v : List ℕ) → ar.value ≡ some v → val ≡ some v))
unfolding attribute_satisfy
attribute_satisfy_iff ar attr val =
    let same = bytes_beq_iff ar.attr_type attr in
    let valued = value_matches_iff ar.value val in
    (
      λ h. (same.0 (ground arith), (λ n z. ground (arith, n, z)), valued.0 (ground arith)),
      λ h. ground (arith, same.1 h.0, h.1, valued.1 h.2),
    )

-- One round of the loop of a conjunction, read backwards.
collect_inv :
    (b : Bool) (a : DisclosedAttribute)
    (rest : Outcome VerifyError (Option (List DisclosedAttribute))) (r : List DisclosedAttribute)
    → (if b
        then (rest >>= λ found. ok (elim found [ none ↦ none | some attrs ↦ some (a ∷ attrs) ]))
        else ok none)
      ≡ ok (some r)
    → (b ≡ true) × (ds : List DisclosedAttribute) × (rest ≡ ok (some ds)) × (r ≡ a ∷ ds)
collect_inv true a (ok none) r h = cc
collect_inv true a (ok (some ds)) r h = (refl, ds, refl, cc)
collect_inv true a (err e) r h = cc
collect_inv true a panic r h = cc
collect_inv false a rest r h = cc

-- One round of the loop over a disjunction.
choose_inv :
    (satisfied : Option (List DisclosedAttribute))
    (rest : Outcome VerifyError (Option (List DisclosedAttribute))) (r : List DisclosedAttribute)
    → (elim satisfied [ none ↦ rest | some attrs ↦ ok (some attrs) ]) ≡ ok (some r)
    → (satisfied ≡ some r) ⊎ ((satisfied ≡ none) × (rest ≡ ok (some r)))
choose_inv none rest r h = inr (refl, h)
choose_inv (some attrs) rest r h = inl (cc)

-- One round of the loop over the disjunctions.
pub complete_inv :
    (satisfied : Option (List DisclosedAttribute)) (complete : Bool)
    (list : List (List DisclosedAttribute)) (r : List (List DisclosedAttribute))
    → ◌≡◌ {A = Outcome VerifyError (Bool × List (List DisclosedAttribute))}
        (ok (elim satisfied [ none ↦ (false, [] ∷ list) | some attrs ↦ (complete, attrs ∷ list) ]))
        (ok (true, r))
    → (ds : List DisclosedAttribute) × (satisfied ≡ some ds) × (complete ≡ true) × (r ≡ ds ∷ list)
complete_inv none complete list r h = cc
complete_inv (some ds) complete list r h = (ds, refl, cc, cc)

module _ (conf : Scheme) (pl : List Proof) (revocation : RevocationTimes) where
  -- The attribute that an index points to meets a request.
  abbrev pub Meets : AttributeRequest → DisclosedAttributeIndex → DisclosedAttribute → Type 0
  Meets ar i d =
      (val : Option (List ℕ)) × (extract_attribute conf pl i
          (lookup_int i.credential_index revocation)
        ≡ ok (d, val))
      × (attribute_satisfy ar d.identifier val ≡ true)

  -- The attributes that the first indices point to meet the requests of a conjunction, one by one.
  abbrev pub ConMet : AttributeCon → List DisclosedAttributeIndex → List DisclosedAttribute → Type 0
  ConMet [] indices [] = Unit
  ConMet [] indices (d ∷ ds) = ⊥
  ConMet (ar ∷ c) [] ds = ⊥
  ConMet (ar ∷ c) (i ∷ indices) [] = ⊥
  ConMet (ar ∷ c) (i ∷ indices) (d ∷ ds) = Meets ar i d × ConMet c indices ds

  -- A conjunction of the disjunction is met, and those before it are not.
  abbrev pub DisConMet :
      AttributeDisCon → List DisclosedAttributeIndex → List DisclosedAttribute → Type 0
  DisConMet [] indices ds = ⊥
  DisConMet (con ∷ dc) indices ds =
      ConMet con indices ds
      ⊎ ((con_satisfy conf con pl indices revocation ≡ ok none) × DisConMet dc indices ds)

  -- Every disjunction is met by the attributes of its own list of indices.
  abbrev pub AllMet :
      AttributeConDisCon
      → List (List DisclosedAttributeIndex)
      → List (List DisclosedAttribute)
      → Type 0
  AllMet [] indices [] = Unit
  AllMet [] indices (ds ∷ list) = ⊥
  AllMet (discon ∷ cdc) [] list = ⊥
  AllMet (discon ∷ cdc) (set ∷ indices) [] = ⊥
  AllMet (discon ∷ cdc) (set ∷ indices) (ds ∷ list) =
      DisConMet discon set ds × AllMet cdc indices list

  con_loop_sound :
      (c : AttributeCon) (indices : List DisclosedAttributeIndex) (ds : List DisclosedAttribute)
      → con_satisfy_loop conf c pl indices revocation ≡ ok (some ds)
      → ConMet c indices ds
  unfolding con_satisfy_loop
  con_loop_sound [] indices [] h = tt
  con_loop_sound [] indices (d ∷ ds) h = cc
  con_loop_sound (ar ∷ c) [] ds h = cc
  con_loop_sound (ar ∷ c) (i ∷ indices) ds h =
      let ((attr, val), e, f) =
        >>=-eq-ok (extract_attribute conf pl i (lookup_int i.credential_index revocation)) _ h in
      let (met, ds', rest, eq) = collect_inv _ attr _ ds f in
      rw eq ((val, e, met), con_loop_sound c indices ds' rest)

  con_loop_complete :
      (c : AttributeCon) (indices : List DisclosedAttributeIndex) (ds : List DisclosedAttribute)
      → ConMet c indices ds
      → con_satisfy_loop conf c pl indices revocation ≡ ok (some ds)
  unfolding con_satisfy_loop
  con_loop_complete [] indices [] m = refl
  con_loop_complete [] indices (d ∷ ds) m = absurd m
  con_loop_complete (ar ∷ c) [] ds m = absurd m
  con_loop_complete (ar ∷ c) (i ∷ indices) [] m = absurd m
  con_loop_complete (ar ∷ c) (i ∷ indices) (d ∷ ds) ((val, e, s), m) =
      rw e (rw s (rw (con_loop_complete c indices ds m)))

  ConMet-length :
      (c : AttributeCon) (indices : List DisclosedAttributeIndex) (ds : List DisclosedAttribute)
      → ConMet c indices ds
      → length c ≤ length indices
  ConMet-length [] indices ds m = omega arith
  ConMet-length (ar ∷ c) [] ds m = absurd m
  ConMet-length (ar ∷ c) (i ∷ indices) [] m = absurd m
  ConMet-length (ar ∷ c) (i ∷ indices) (d ∷ ds) m = omega (arith, ConMet-length c indices ds m.1)

  -- AttributeCon.Satisfy returns these attributes exactly when they meet its requests one by one.
  pub con_satisfy_iff :
      (c : AttributeCon) (indices : List DisclosedAttributeIndex) (ds : List DisclosedAttribute)
      → (con_satisfy conf c pl indices revocation ≡ ok (some ds)) ↔ ConMet c indices ds
  unfolding con_satisfy
  con_satisfy_iff c indices ds = elim (Bool-cases (ltb (length indices) (length c))) [
    | inl short ↦ (
      λ h. cc (rw (short, con_satisfy) at h),
      λ m. absurd (ground (arith, ConMet-length c indices ds m)),
    )
    | inr long ↦
        rw (long, con_satisfy) (con_loop_sound c indices ds, con_loop_complete c indices ds)
  ]

  -- AttributeDisCon.Satisfy returns the attributes of the first conjunction that is met.
  pub dis_con_satisfy_iff :
      (dc : AttributeDisCon) (indices : List DisclosedAttributeIndex) (ds : List DisclosedAttribute)
      → (dis_con_satisfy conf dc pl indices revocation ≡ ok (some ds)) ↔ DisConMet dc indices ds
  unfolding dis_con_satisfy
  dis_con_satisfy_iff [] indices ds = (λ h. cc, λ m. absurd m)
  dis_con_satisfy_iff (con ∷ dc) indices ds =
      let (sound, complete) = con_satisfy_iff con indices ds in
      let (down, up) = dis_con_satisfy_iff dc indices ds in
      (
        λ h.
            let (satisfied, e, f) = >>=-eq-ok (con_satisfy conf con pl indices revocation) _ h in
            elim (choose_inv satisfied _ ds f) [
              | inl s ↦ inl (sound (cc (e, s)))
              | inr (s, r) ↦ inr (cc (e, s), down r)
            ],
        λ m. elim m [ inl met ↦ rw (complete met) refl | inr (unmet, later) ↦ rw unmet (up later) ],
      )
