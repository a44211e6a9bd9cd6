-- ===== src/Metadata/Examples.antt =====
-- The theorems on the metadata attribute at concrete attributes, and tests of its operations.
use irmago.Prelude.{ℕ, ◌*◌, ◌+◌, ◌^◌, ◌≤◌, ◌<◌, ◌≡◌, refl, some, [], ◌∷◌, arith}
use irmago.Prelude.Outcome.{ok, err}
use irmago.Bytes.{to_bytes, pad_left}
use irmago.Metadata.{
  MetadataField, MetadataAttribute, cannot_set_expired_date, key_counter_field, bytes, field,
  set_field, version, signing_date, key_counter, set_key_counter, validity_duration,
  set_expiry_date, expiry, expiry_factor,
}
use irmago.Metadata.Slices.{IsMetadata}
use irmago.Metadata.Fields.{Disjoint, field-set_field}
use irmago.Metadata.Dates.{
  key_counter-set_key_counter, key_counter_wraps, expiry-set_expiry_date, set_expiry_date_early,
}

-- Version 3, signed in week 2600, valid for 26 weeks, key 2.
abbrev sample : MetadataAttribute
sample = 3 * 256 ^ 23 + 2600 * 256 ^ 20 + 26 * 256 ^ 18 + 2 * 256 ^ 16 + 77

abbrev half_year : ℕ → ℕ
half_year t = t + 15768000

sample_fields :
    (version sample ≡ 3)
    × (signing_date sample ≡ 1572480000)
    × (validity_duration sample ≡ 26)
    × (key_counter sample ≡ 2)
unfolding version signing_date validity_duration key_counter bytes pad_left to_bytes
sample_fields = (refl, refl, refl, refl)

field-set_field_example :
    (attr' : MetadataAttribute) × (set_field key_counter_field (9 ∷ []) sample ≡ ok attr')
    × IsMetadata attr'
    × (field attr' key_counter_field ≡ pad_left 2 (9 ∷ []))
    × ((g : MetadataField) → Disjoint key_counter_field g → field attr' g ≡ field sample g)
field-set_field_example =
    field-set_field key_counter_field (9 ∷ []) sample
      (record { short = omega arith; inside = omega arith; valued = omega arith }) (omega arith)

key_counter-set_key_counter_example :
    (attr' : MetadataAttribute) × (set_key_counter 513 sample ≡ ok attr')
    × IsMetadata attr'
    × (key_counter attr' ≡ 513)
    × (version attr' ≡ version sample)
    × (signing_date attr' ≡ signing_date sample)
    × (validity_duration attr' ≡ validity_duration sample)
key_counter-set_key_counter_example =
    key_counter-set_key_counter 513 sample (omega arith) (omega arith)

key_counter_wraps_example :
    (attr' : MetadataAttribute) × (set_key_counter 65536 sample ≡ ok attr')
    × (key_counter attr' ≡ 0)
key_counter_wraps_example = key_counter_wraps sample (omega arith)

expiry-set_expiry_date_example :
    (attr' : MetadataAttribute) × (set_expiry_date half_year (some 1600000000) sample ≡ ok attr')
    × IsMetadata attr'
    × (signing_date attr' ≡ signing_date sample)
    × (expiry attr' ≤ 1600000000)
    × (1600000000 < expiry attr' + expiry_factor)
expiry-set_expiry_date_example =
    let e : signing_date sample ≡ 1572480000 = sample_fields.1 in
    expiry-set_expiry_date half_year 1600000000 sample (omega (arith, e)) (omega (arith, e))
      (omega arith)

set_expiry_date_early_example :
    set_expiry_date half_year (some 5) sample ≡ err cannot_set_expired_date
set_expiry_date_early_example =
    set_expiry_date_early half_year 5 sample (omega (arith, sample_fields.1))
