-- ===== src/Metadata/Fields.antt =====
-- The fields of the metadata attribute are independent cells: what `setField` writes is what `field`
-- reads, and the other fields keep their bytes.
use irmago.Prelude.{
  ℕ, ◌+◌, ◌-◌, ◌≤◌, ◌≡◌, ap, ◌∙◌, ◌⊎◌, List, ltb, leb, ◌&&◌, if◌then◌else◌, some, get_elem?, arith,
}
use irmago.Prelude.Index.{list_ext}
use irmago.Prelude.Outcome.{ok}
use irmago.Bytes.{pad_left}
use irmago.Metadata.{MetadataField, MetadataAttribute, bytes, field, set_field}
use irmago.Metadata.Slices.{
  IsMetadata, Fits, padded, length-bytes, bytes-set_field, get_elem?-set_field_loop,
  get_elem?-field, get_elem?-pad_left,
}

-- Two fields share no byte.
abbrev pub Disjoint : MetadataField → MetadataField → Type 0
Disjoint f g = (f.offset + f.len ≤ g.offset) ⊎ (g.offset + g.len ≤ f.offset)

module _ (f : MetadataField) (value : List ℕ) (attr : MetadataAttribute) (fits : Fits f value)
    (h : IsMetadata attr) where
  written : MetadataAttribute
  written = (bytes-set_field f value attr fits h).0

  get_elem?-written :
      (j : ℕ)
      → get_elem? (bytes written) j ≡ (
          if leb f.offset j && ltb j (f.len + f.offset)
          then some (padded f value (j - f.offset))
          else get_elem? (bytes attr) j)
  unfolding written
  get_elem?-written j =
      let (attr', _, _, e) = bytes-set_field f value attr fits h in
      ap (λ bs. get_elem? bs j) e
      ∙ get_elem?-set_field_loop f.len 0 f value (bytes attr) j
          (omega (arith, length-bytes attr h, fits.inside))
      ∙ ground arith

  field-written_self : field written f ≡ pad_left f.len value
  field-written_self = list_ext _ _ λ k.
      get_elem?-field written f k
      ∙ rw (get_elem?-written (f.offset + k), get_elem?-pad_left f value k fits.short)
          (let e : f.offset + k - f.offset ≡ k = omega arith in rw e (ground arith))

  field-written_other : (g : MetadataField) → Disjoint f g → field written g ≡ field attr g
  field-written_other g apart = list_ext _ _ λ k.
      get_elem?-field written g k
      ∙ rw (get_elem?-written (g.offset + k), get_elem?-field attr g k) (ground arith)

-- A value that fits is written without a panic, the attribute keeps its 24 bytes, the field then reads
-- as the value padded to its length, and every field that shares no byte with it reads as before.
pub field-set_field :
    (f : MetadataField) (value : List ℕ) (attr : MetadataAttribute)
    → Fits f value
    → IsMetadata attr
    → (attr' : MetadataAttribute) × (set_field f value attr ≡ ok attr')
      × IsMetadata attr'
      × (field attr' f ≡ pad_left f.len value)
      × ((g : MetadataField) → Disjoint f g → field attr' g ≡ field attr g)
unfolding written
field-set_field f value attr fits h =
    let (attr', e, small, _) = bytes-set_field f value attr fits h in
    (
      attr',
      e,
      small,
      field-written_self f value attr fits h,
      field-written_other f value attr fits h,
    )
