-- ===== src/Credential/Encoding.antt =====
-- The attributes of a list that AttributeList of requests.go makes, read back as verify.go does.
use irmago.Prelude.{
  ℕ, zero, suc, ◌+◌, ◌-◌, ◌*◌, ◌/◌, ◌%◌, ◌≤◌, ◌<◌, ◌≡◌, ◌≢◌, refl, sym, ap, ◌∙◌, inl, inr, Bool,
  true, false, Option, none, some, List, [], ◌∷◌, ◌++◌, ltb, leb, nat_eq, if◌then◌else◌, length,
  replicate, get_elem?, arith, Bool-cases,
}
use irmago.Prelude.Map.{lookup}
use irmago.Prelude.Index.{set, length-set, get_elem?-set}
use irmago.Bytes.{IsBytes, to_bytes, from_bytes, pad_left}
use irmago.Bytes.Fixed.{pad_left-to_bytes-from_bytes}
use irmago.Identifier.{identifier_eq}
use irmago.Metadata.{MetadataAttribute, version}
use irmago.Disclosure.{decode_attribute}
use irmago.Credential.{
  AttributeType, encode_attribute, encode_optional, is_skipped, fill_attributes,
}

-- A byte slice that does not start with a zero, which `SetBytes` would lose.
abbrev pub NoZeroFirst : List ℕ → Type 0
NoZeroFirst bs = get_elem? bs 0 ≢ some 0

pad_left-short :
    (bs rest : List ℕ)
    → ltb (length rest) (length bs) ≡ true
    → pad_left (length bs) rest ≡ replicate (suc (length bs - length rest - 1)) 0 ++ rest
unfolding pad_left
pad_left-short bs rest short =
    let e : length bs - length rest ≡ suc (length bs - length rest - 1) = ground arith in
    rw short (ap (λ k. replicate k 0 ++ rest) e)

pad_left-full : (len : ℕ) (rest : List ℕ) → ltb (length rest) len ≡ false → pad_left len rest ≡ rest
unfolding pad_left
pad_left-full len rest full = rw full refl

to_bytes-from_bytes : (bs : List ℕ) → IsBytes bs → NoZeroFirst bs → to_bytes (from_bytes bs) ≡ bs
to_bytes-from_bytes bs h first =
    let padded = pad_left-to_bytes-from_bytes bs h in
    elim (Bool-cases (ltb (length (to_bytes (from_bytes bs))) (length bs))) [
      | inl short ↦
          let e = pad_left-short bs (to_bytes (from_bytes bs)) short in
          absurd (first (ap (λ xs. get_elem? xs 0) (sym padded ∙ e)))
      | inr full ↦ sym (pad_left-full (length bs) (to_bytes (from_bytes bs)) full) ∙ padded
    ]

-- Where an optional attribute is absent the encoding is zero, and its lowest bit says so.
pub decode_attribute-encode_optional :
    (v : ℕ) (value : Option (List ℕ))
    → 3 ≤ v
    → ((str : List ℕ) → value ≡ some str → IsBytes str × NoZeroFirst str)
    → decode_attribute (encode_optional v value) v ≡ value
unfolding decode_attribute encode_optional encode_attribute
decode_attribute-encode_optional v none h proper = ground arith
decode_attribute-encode_optional v (some str) h proper =
    let new : leb 3 v ≡ true = ground arith in
    let odd : (from_bytes str * 2 + 1) % 2 ≡ 1 = omega arith in
    let half : (from_bytes str * 2 + 1) / 2 ≡ from_bytes str = omega arith in
    let (isb, first) = proper str refl in
    rw new (rw (odd, half) (ap some (to_bytes-from_bytes str isb first)))

module _ (attrs : List (Option ℕ)) (i : ℕ) (v : Option ℕ) where
  -- One step of the loop.
  written : Bool → List (Option ℕ)
  written skipped = if skipped then attrs else set attrs (suc i) v

  length-written : (skipped : Bool) → length (written skipped) ≡ length attrs
  unfolding written
  length-written true = refl
  length-written false = length-set attrs (suc i) v

  get_elem?-written :
      (skipped : Bool) (j : ℕ) → j ≤ i → get_elem? (written skipped) j ≡ get_elem? attrs j
  unfolding written
  get_elem?-written true j h = refl
  get_elem?-written false j h = get_elem?-set attrs (suc i) j v ∙ ground arith

module _ (meta : MetadataAttribute) (attributes : List (List ℕ × List ℕ)) where
  -- What lies before the current index stays.
  pub get_elem?-fill_attributes_below :
      (types : List AttributeType) (i j : ℕ) (attrs : List (Option ℕ))
      → j ≤ i
      → get_elem? (fill_attributes meta attributes i types attrs) j ≡ get_elem? attrs j
  unfolding fill_attributes written
  get_elem?-fill_attributes_below [] i j attrs h = refl
  get_elem?-fill_attributes_below (at ∷ types) i j attrs h =
      let v = some (encode_optional (version meta) (lookup at.id attributes)) in
      get_elem?-fill_attributes_below types (suc i) j (written attrs i v (is_skipped at))
        (omega arith)
      ∙ get_elem?-written attrs i v (is_skipped at) j h

  pub get_elem?-fill_attributes :
      (types : List AttributeType) (i k : ℕ) (attrs : List (Option ℕ)) (at : AttributeType)
      → i + length types < length attrs
      → get_elem? types k ≡ some at
      → is_skipped at ≡ false
      → get_elem? (fill_attributes meta attributes i types attrs) (suc (i + k))
        ≡ some (some (encode_optional (version meta) (lookup at.id attributes)))
  unfolding fill_attributes written
  get_elem?-fill_attributes [] i k attrs at inside e read = cc
  get_elem?-fill_attributes (t ∷ types) i zero attrs at inside e read =
      let same : t ≡ at = cc in
      let v = some (encode_optional (version meta) (lookup t.id attributes)) in
      let unskipped : is_skipped t ≡ false = ap is_skipped same ∙ read in
      let now : get_elem? (written attrs i v (is_skipped t)) (suc i) ≡ some v =
        rw unskipped (get_elem?-set attrs (suc i) (suc i) v ∙ ground arith) in
      let j : suc (i + 0) ≡ suc i = omega arith in
      rw j (
        get_elem?-fill_attributes_below types (suc i) (suc i) (written attrs i v (is_skipped t))
          (omega arith)
        ∙ (now
            ∙ ap (λ t. some (some (encode_optional (version meta) (lookup t.id attributes)))) same))
  get_elem?-fill_attributes (t ∷ types) i (suc k) attrs at inside e read =
      let v = some (encode_optional (version meta) (lookup t.id attributes)) in
      let j : suc (i + suc k) ≡ suc (suc i + k) = omega arith in
      rw j (
        get_elem?-fill_attributes types (suc i) k (written attrs i v (is_skipped t)) at
          (omega (arith, length-written attrs i v (is_skipped t))) e read)
