-- ===== src/Metadata/Dates.antt =====
-- The typed setters and getters of attributes.go, and the dates that they encode.
use irmago.Prelude.{
  ℕ, ◌+◌, ◌-◌, ◌*◌, ◌/◌, ◌%◌, ◌^◌, ◌≤◌, ◌<◌, ◌≡◌, ap, ◌∙◌, Option, some, [], ◌∷◌, ltb, arith, false,
  drop, or_else, lt→ltb,
}
use irmago.Prelude.Outcome.{Outcome, ok, err, ◌>>=◌}
use irmago.Bytes.{pad_left}
use irmago.Metadata.{
  MetadataField, MetadataAttribute, MetadataError, cannot_set_expired_date, metadata_length, field,
  set_field, at, short_to_byte, uint16, version_field, signing_date_field, validity_field,
  key_counter_field, version, signing_date, key_counter, set_key_counter, validity_duration,
  set_validity_duration, set_expiry_date, expiry, expiry_factor,
}
use irmago.Metadata.Slices.{IsMetadata}
use irmago.Metadata.Fields.{Disjoint, field-set_field}

-- What a setter of a 16-bit field did: field f holds x in its last two bytes.
abbrev Stored :
    MetadataField → ℕ → MetadataAttribute → Outcome MetadataError MetadataAttribute → Type 0
Stored f x attr r =
    (attr' : MetadataAttribute) × (r ≡ ok attr')
    × IsMetadata attr'
    × (field attr' f ≡ pad_left f.len ((x / 256) ∷ (x % 256) ∷ []))
    × ((g : MetadataField) → Disjoint f g → field attr' g ≡ field attr g)

short_to_byte-lt : (x : ℕ) → x < 2 ^ 16 → short_to_byte x ≡ ok ((x / 256) ∷ (x % 256) ∷ [])
unfolding short_to_byte
short_to_byte-lt x h = let e : x % 65536 ≡ x = omega arith in rw e (ground arith)

set_short :
    (f : MetadataField) (x : ℕ) (attr : MetadataAttribute)
    → 2 ≤ f.len
    → f.offset + f.len ≤ metadata_length
    → x < 2 ^ 16
    → IsMetadata attr
    → Stored f x attr (short_to_byte x >>= λ value. set_field f value attr)
set_short f x attr long inside small h =
    rw (short_to_byte-lt x small)
      (field-set_field f _ attr (record { short = long; inside = inside; valued = omega arith }) h)

abbrev Same : MetadataField → MetadataAttribute → MetadataAttribute → Type 0
Same f a b = field a f ≡ field b f

abbrev Holds : MetadataField → ℕ → MetadataAttribute → Type 0
Holds f x attr = field attr f ≡ pad_left f.len ((x / 256) ∷ (x % 256) ∷ [])

version-cong : (a b : MetadataAttribute) → Same version_field a b → version a ≡ version b
unfolding version
version-cong a b e = ap (λ bs. at bs 0) e

key_counter-cong :
    (a b : MetadataAttribute) → Same key_counter_field a b → key_counter a ≡ key_counter b
unfolding key_counter
key_counter-cong a b e = ap uint16 e

validity_duration-cong :
    (a b : MetadataAttribute) → Same validity_field a b → validity_duration a ≡ validity_duration b
unfolding validity_duration
validity_duration-cong a b e = ap uint16 e

signing_date-cong :
    (a b : MetadataAttribute) → Same signing_date_field a b → signing_date a ≡ signing_date b
unfolding signing_date
signing_date-cong a b e = ap (λ bs. uint16 (drop 1 bs) * expiry_factor) e

key_counter_read :
    (attr : MetadataAttribute) (x : ℕ) → Holds key_counter_field x attr → key_counter attr ≡ x
unfolding key_counter pad_left
key_counter_read attr x e = ap uint16 e ∙ omega arith

validity_duration_read :
    (attr : MetadataAttribute) (x : ℕ) → Holds validity_field x attr → validity_duration attr ≡ x
unfolding validity_duration pad_left
validity_duration_read attr x e = ap uint16 e ∙ omega arith

signing_date_read :
    (attr : MetadataAttribute) (x : ℕ)
    → Holds signing_date_field x attr
    → signing_date attr ≡ x * expiry_factor
unfolding signing_date pad_left
signing_date_read attr x e = ap (λ bs. uint16 (drop 1 bs) * expiry_factor) e ∙ omega arith

-- A key counter below 2 ^ 16 is stored without a panic and read back; the version, the signing date
-- and the validity stay as they were.
pub key_counter-set_key_counter :
    (i : ℕ) (attr : MetadataAttribute)
    → i < 2 ^ 16
    → IsMetadata attr
    → (attr' : MetadataAttribute) × (set_key_counter i attr ≡ ok attr')
      × IsMetadata attr'
      × (key_counter attr' ≡ i)
      × (version attr' ≡ version attr)
      × (signing_date attr' ≡ signing_date attr)
      × (validity_duration attr' ≡ validity_duration attr)
key_counter-set_key_counter i attr small h =
    let (attr', e, m, self, other) =
      set_short key_counter_field i attr (omega arith) (omega arith) small h in
    (
      attr',
      unfold set_key_counter in e,
      m,
      key_counter_read attr' i self,
      version-cong attr' attr (other version_field (omega arith)),
      signing_date-cong attr' attr (other signing_date_field (omega arith)),
      validity_duration-cong attr' attr (other validity_field (omega arith)),
    )

-- A counter of exactly 2 ^ 16 passes the overflow test of shortToByte and is stored as 0, whatever the
-- attribute held.
pub key_counter_wraps :
    (attr : MetadataAttribute)
    → IsMetadata attr
    → (attr' : MetadataAttribute) × (set_key_counter 65536 attr ≡ ok attr')
      × (key_counter attr' ≡ 0)
key_counter_wraps attr h =
    let (attr', e, _, read, _, _, _) = key_counter-set_key_counter 0 attr (omega arith) h in
    (attr', unfold set_key_counter short_to_byte in e, read)

set_expiry_date_ok :
    (add_half_year : ℕ → ℕ) (timestamp : Option ℕ) (attr : MetadataAttribute)
    → let t = or_else timestamp (add_half_year (signing_date attr)) in
      signing_date attr ≤ t
      → (t - signing_date attr) / expiry_factor < 2 ^ 16
      → IsMetadata attr
      → Stored validity_field
          ((t - signing_date attr) / expiry_factor)
          attr
          (set_expiry_date add_half_year timestamp attr)
unfolding set_expiry_date set_validity_duration
set_expiry_date_ok add_half_year timestamp attr after small h =
    let q : ltb (or_else timestamp (add_half_year (signing_date attr))) (signing_date attr)
        ≡ false =
      ground arith in
    rw q (set_short validity_field _ attr (omega arith) (omega arith) small h)

-- setExpiryDate with a timestamp t that is not before the signing date, and less than 2 ^ 16 weeks
-- after it, keeps the signing date and sets an expiry in the week up to t: Expiry() <= t < Expiry() + one week.
pub expiry-set_expiry_date :
    (add_half_year : ℕ → ℕ) (t : ℕ) (attr : MetadataAttribute)
    → signing_date attr ≤ t
    → t < signing_date attr + 2 ^ 16 * expiry_factor
    → IsMetadata attr
    → (attr' : MetadataAttribute) × (set_expiry_date add_half_year (some t) attr ≡ ok attr')
      × IsMetadata attr'
      × (signing_date attr' ≡ signing_date attr)
      × (expiry attr' ≤ t)
      × (t < expiry attr' + expiry_factor)
expiry-set_expiry_date add_half_year t attr after small h =
    let (attr', e, m, self, other) =
      set_expiry_date_ok add_half_year (some t) attr after (omega arith) h in
    let date = signing_date-cong attr' attr (other signing_date_field (omega arith)) in
    let weeks = validity_duration_read attr' _ self in
    (
      attr',
      e,
      m,
      date,
      unfold expiry in omega (arith, date, weeks),
      unfold expiry in omega (arith, date, weeks),
    )

-- A timestamp before the signing date is refused with an error.
pub set_expiry_date_early :
    (add_half_year : ℕ → ℕ) (t : ℕ) (attr : MetadataAttribute)
    → t < signing_date attr
    → set_expiry_date add_half_year (some t) attr ≡ err cannot_set_expired_date
unfolding set_expiry_date
set_expiry_date_early add_half_year t attr early = rw (lt→ltb _ _ early)
