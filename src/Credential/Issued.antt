-- ===== src/Credential/Issued.antt =====
-- What a credential that AttributeList of requests.go makes discloses later.
use irmago.Prelude.{
  ℕ, suc, ◌+◌, ◌≤◌, ◌≡◌, sym, ap, ◌∙◌, Bool, true, false, not, ◌||◌, Option, none, some, is_some,
  List, ◌∷◌, if◌then◌else◌, length, length-replicate, replicate, get_elem?, arith,
}
use irmago.Prelude.Map.{lookup}
use irmago.Prelude.Int.{ℤ, pos, negsuc, add_ℕ}
use irmago.Prelude.Index.{length-set, get_elem?-set}
use irmago.Prelude.Outcome.{ok, ensure, or_panic, >>=-eq-ok, or_panic-eq-ok}
use irmago.Bytes.{IsBytes}
use irmago.Identifier.{Identifier, identifier_eq}
use irmago.Metadata.{MetadataAttribute, version}
use irmago.Disclosure.{decode_attribute}
use irmago.Credential.{
  AttributeType, CredentialType, CredentialRequest, encode_optional, is_skipped, fill_attributes,
  set_int, fill_revocation, revocation_supported, revocation_not_supported, of_metadata, validate,
  issued_metadata, attribute_list,
}
use irmago.Credential.Encoding.{
  NoZeroFirst, get_elem?-fill_attributes_below, get_elem?-fill_attributes,
  decode_attribute-encode_optional,
}

-- A write at a place other than 0 keeps the length and the entry at 0.
set_int-eq-ok :
    (r : ℕ) (value : Option ℕ) (attrs attrs' : List (Option ℕ))
    → set_int (pos (r + 1)) value attrs ≡ ok attrs'
    → (length attrs' ≡ length attrs) × (get_elem? attrs' 0 ≡ get_elem? attrs 0)
unfolding set_int
set_int-eq-ok r value attrs attrs' h =
    ground (arith, length-set attrs (r + 1) value, get_elem?-set attrs (r + 1) 0 value)

fill_cases :
    {r : ℕ} (value : Option ℕ) (attrs attrs' : List (Option ℕ)) (z : ℤ) (supported : Bool)
    → z ≡ pos r
    → (if supported then set_int (add_ℕ z 1) value attrs else ok attrs) ≡ ok attrs'
    → (length attrs' ≡ length attrs) × (get_elem? attrs' 0 ≡ get_elem? attrs 0)
fill_cases value attrs attrs' (pos i) true e h = set_int-eq-ok i value attrs attrs' h
fill_cases value attrs attrs' (negsuc i) true e h = cc
fill_cases value attrs attrs' z false e h =
    let same : attrs ≡ attrs' = cc in (ap length (sym same), ap (λ l. get_elem? l 0) (sym same))

fill_revocation-eq-ok :
    (credtype : CredentialType) (r : ℕ) (rev : Option ℕ) (attrs attrs' : List (Option ℕ))
    → credtype.revocation_index ≡ pos r
    → fill_revocation credtype rev attrs ≡ ok attrs'
    → (length attrs' ≡ length attrs) × (get_elem? attrs' 0 ≡ get_elem? attrs 0)
unfolding fill_revocation
fill_revocation-eq-ok credtype r rev attrs attrs' e h =
    fill_cases _ attrs attrs' credtype.revocation_index (revocation_supported credtype) e h

module _ (credential_types : Identifier → Option CredentialType) (sha256 : List ℕ → List ℕ)
    (add_half_year : ℕ → ℕ) where
  -- How a list of attributes came about.
  attribute_list-eq-ok :
      (cr : CredentialRequest) (v : ℕ) (rev : Option ℕ) (now issued_at : ℕ)
      (credtype : CredentialType) (meta : MetadataAttribute) (attrs : List (Option ℕ))
      → credential_types cr.credential_type_id ≡ some credtype
      → issued_metadata sha256 add_half_year cr v now issued_at ≡ ok meta
      → attribute_list credential_types sha256 add_half_year cr v rev now issued_at ≡ ok attrs
      → (filled : List (Option ℕ)) × (fill_revocation credtype rev
            (some meta ∷ replicate (length credtype.attribute_types) none)
          ≡ ok filled)
        × (attrs ≡ fill_attributes meta cr.attributes 0 credtype.attribute_types filled)
  unfolding attribute_list
  attribute_list-eq-ok cr v rev now issued_at credtype meta attrs known made h =
      let (_, _, h1) = >>=-eq-ok (validate credential_types cr) _ h in
      let (typ, found, h2) = >>=-eq-ok (or_panic (credential_types cr.credential_type_id)) _ h1 in
      let same : typ ≡ credtype = cc (or_panic-eq-ok _ found, known) in
      let (_, _, h3) =
        >>=-eq-ok (ensure (revocation_supported typ || not (is_some rev)) revocation_not_supported)
          _ h2 in
      let (meta', made', h4) =
        >>=-eq-ok (of_metadata (issued_metadata sha256 add_half_year cr v now issued_at)) _ h3 in
      let also : meta' ≡ meta = cc (made', ap of_metadata made) in
      let (filled, revoked, h5) =
        >>=-eq-ok
          (fill_revocation typ rev (some meta' ∷ replicate (length typ.attribute_types) none)) _
          h4 in
      (filled, cc, cc)

  -- If a credential request is accepted, the revocation index of its credential type is not negative,
  -- the version of the metadata is 3 at least, and the value that the request gives to an attribute,
  -- if any, is bytes of which the first is not zero, then entry 0 of the list of attributes is the
  -- metadata, and the entry of that attribute, which is neither a random blind nor a revocation one,
  -- is decoded on disclosure to the value, or to no value where the request gives none.
  pub attribute_list-decode_attribute :
      (cr : CredentialRequest) (v : ℕ) (rev : Option ℕ) (now issued_at : ℕ)
      (credtype : CredentialType) (r : ℕ) (meta : MetadataAttribute) (attrs : List (Option ℕ))
      (k : ℕ) (at : AttributeType)
      → credential_types cr.credential_type_id ≡ some credtype
      → credtype.revocation_index ≡ pos r
      → issued_metadata sha256 add_half_year cr v now issued_at ≡ ok meta
      → 3 ≤ version meta
      → attribute_list credential_types sha256 add_half_year cr v rev now issued_at ≡ ok attrs
      → get_elem? credtype.attribute_types k ≡ some at
      → is_skipped at ≡ false
      → ((str : List ℕ) → lookup at.id cr.attributes ≡ some str → IsBytes str × NoZeroFirst str)
      → (get_elem? attrs 0 ≡ some (some meta))
        × ((x : ℕ) × (get_elem? attrs (suc k) ≡ some (some x))
            × (decode_attribute x (version meta) ≡ lookup at.id cr.attributes))
  attribute_list-decode_attribute cr v rev now issued_at credtype r meta attrs k at known index made
        new h read kept proper =
      let (filled, e, eq) =
        attribute_list-eq-ok cr v rev now issued_at credtype meta attrs known made h in
      let (len, first) = fill_revocation-eq-ok credtype r rev _ filled index e in
      let j : 0 + k ≡ k = omega arith in
      (
        ap (λ l. get_elem? l 0) eq
            ∙ (get_elem?-fill_attributes_below meta cr.attributes credtype.attribute_types 0 0
                  filled (omega arith)
                ∙ first),
        (
          encode_optional (version meta) (lookup at.id cr.attributes),
          ap (λ l. get_elem? l (suc k)) eq
              ∙ (ap
                    (λ i.
                      get_elem?
                        (fill_attributes meta cr.attributes 0 credtype.attribute_types filled)
                        (suc i))
                    (sym j)
                  ∙ get_elem?-fill_attributes meta cr.attributes credtype.attribute_types 0 k filled
                      at
                      (omega (
                        arith,
                        len,
                        length-replicate {A = Option ℕ} (length credtype.attribute_types) none,
                      ))
                      read kept),
          decode_attribute-encode_optional (version meta) (lookup at.id cr.attributes) new proper,
        ),
      )
