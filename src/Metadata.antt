-- ===== src/Metadata.antt =====
-- The metadata attribute of attributes.go: 24 bytes in one big integer, which hold the version, the
-- signing date, the validity, the key counter and the hash of the credential type. Times are Unix
-- seconds from 1970 on. The cache of the public key is not modelled.
pub mod Slices
pub mod Fields
pub mod Dates
mod Examples
use irmago.Prelude.{
  ℕ, zero, suc, ◌+◌, ◌-◌, ◌*◌, ◌/◌, ◌%◌, ◌^◌, Bool, Option, none, some, List, [], ◌∷◌, ltb,
  if◌then◌else◌, length, get_elem?, take, drop, not, or_else,
}
use irmago.Prelude.Index.{set}
use irmago.Prelude.Outcome.{Outcome, ok, err, panic, ◌>>=◌, ◌>>◌, ensure}
use irmago.Bytes.{to_bytes, from_bytes, pad_left}

-- metadataField
pub record MetadataField : Type 0 where
  pub len : ℕ
  pub offset : ℕ

abbrev pub version_field : MetadataField
version_field = record { len = 1; offset = 0 }

abbrev pub signing_date_field : MetadataField
signing_date_field = record { len = 3; offset = 1 }

abbrev pub validity_field : MetadataField
validity_field = record { len = 2; offset = 4 }

abbrev pub key_counter_field : MetadataField
key_counter_field = record { len = 2; offset = 6 }

abbrev pub credential_id : MetadataField
credential_id = record { len = 16; offset = 8 }

-- One week, in seconds.
abbrev pub expiry_factor : ℕ
expiry_factor = 604800

abbrev pub metadata_length : ℕ
metadata_length = 24

-- MetadataAttribute, of which the integer is modelled.
abbrev pub MetadataAttribute : Type 0
MetadataAttribute = ℕ

pub data MetadataError : Type 0 where
  cannot_set_expired_date : MetadataError

-- Bytes
unfoldable pub bytes : MetadataAttribute → List ℕ
bytes attr = pad_left metadata_length (to_bytes attr)

-- The element at an index, which the callers have checked to be in range.
abbrev pub at : List ℕ → ℕ → ℕ
at bs i = or_else (get_elem? bs i) 0

-- field
unfoldable pub field : MetadataAttribute → MetadataField → List ℕ
field attr f = take f.len (drop f.offset (bytes attr))

-- The loop of setField, for the `n` indices from `i` on.
unfoldable pub set_field_loop : ℕ → ℕ → MetadataField → List ℕ → List ℕ → List ℕ
set_field_loop zero i f value bs = bs
set_field_loop (suc n) i f value bs =
    let startindex = f.len - length value in
    set_field_loop n (suc i) f value
      (set bs (i + f.offset) (if ltb i startindex then 0 else at value (i - startindex)))

-- setField
unfoldable pub set_field :
    MetadataField → List ℕ → MetadataAttribute → Outcome MetadataError MetadataAttribute
unfolding set_field_loop
set_field f value attr =
    if ltb f.len (length value)
    then panic
    else ok (from_bytes (set_field_loop f.len 0 f value (bytes attr)))

-- shortToByte: the test lets 2 ^ 16 itself pass, and the conversion to uint16 then wraps.
unfoldable pub short_to_byte : ℕ → Outcome MetadataError (List ℕ)
short_to_byte x =
    if ltb (2 ^ 16) x then panic else (let y = x % 2 ^ 16 in ok ((y / 256) ∷ (y % 256) ∷ []))

-- binary.BigEndian.Uint16
unfoldable pub uint16 : List ℕ → ℕ
uint16 bs = at bs 0 * 256 + at bs 1

-- Version
unfoldable pub version : MetadataAttribute → ℕ
unfolding field
version attr = at (field attr version_field) 0

-- SigningDate: the field is one byte too long.
unfoldable pub signing_date : MetadataAttribute → ℕ
unfolding field uint16
signing_date attr = uint16 (drop 1 (field attr signing_date_field)) * expiry_factor

unfoldable pub set_signing_date : ℕ → MetadataAttribute → Outcome MetadataError MetadataAttribute
set_signing_date issued_at attr = do
  value ← short_to_byte (issued_at / expiry_factor)
  set_field signing_date_field value attr

unfoldable pub key_counter : MetadataAttribute → ℕ
unfolding field uint16
key_counter attr = uint16 (field attr key_counter_field)

unfoldable pub set_key_counter : ℕ → MetadataAttribute → Outcome MetadataError MetadataAttribute
set_key_counter i attr = do value ← short_to_byte i; set_field key_counter_field value attr

unfoldable pub validity_duration : MetadataAttribute → ℕ
unfolding field uint16
validity_duration attr = uint16 (field attr validity_field)

unfoldable pub set_validity_duration :
    ℕ → MetadataAttribute → Outcome MetadataError MetadataAttribute
set_validity_duration weeks attr = do
  value ← short_to_byte weeks
  set_field validity_field value attr

-- `AddDate(0, 6, 0)` of Go's calendar is a parameter of what sets a default validity.
module _ (add_half_year : ℕ → ℕ) where
  -- setExpiryDate
  unfoldable pub set_expiry_date :
      Option ℕ → MetadataAttribute → Outcome MetadataError MetadataAttribute
  set_expiry_date timestamp attr = do
    let signing = signing_date attr
    let expiry = or_else timestamp (add_half_year signing)
    ensure (not (ltb expiry signing)) cannot_set_expired_date
    set_validity_duration ((expiry - signing) / expiry_factor) attr

  -- setDefaultValidityDuration drops the error.
  unfoldable pub set_default_validity_duration :
      MetadataAttribute → Outcome MetadataError MetadataAttribute
  unfolding set_expiry_date
  set_default_validity_duration attr = elim (set_expiry_date none attr) [
    | ok attr' ↦ ok attr'
    | err e ↦ ok attr
    | panic ↦ panic
  ]

  -- NewMetadataAttribute, at the time `now`.
  unfoldable pub new_metadata_attribute : ℕ → ℕ → Outcome MetadataError MetadataAttribute
  unfolding set_default_validity_duration
  new_metadata_attribute v now = do
    versioned ← set_field version_field (v ∷ []) 0
    signed ← set_signing_date now versioned
    counted ← set_key_counter 0 signed
    set_default_validity_duration counted

-- CredentialTypeHash
unfoldable pub credential_type_hash : MetadataAttribute → List ℕ
unfolding field
credential_type_hash attr = field attr credential_id

-- setCredentialTypeIdentifier, given the SHA-256 hash of the identifier.
unfoldable pub set_credential_type_identifier :
    (List ℕ → List ℕ) → List ℕ → MetadataAttribute → Outcome MetadataError MetadataAttribute
set_credential_type_identifier sha256 id attr = set_field credential_id (take 16 (sha256 id)) attr

-- Expiry
unfoldable pub expiry : MetadataAttribute → ℕ
unfolding signing_date validity_duration
expiry attr = signing_date attr + validity_duration attr * expiry_factor

-- IsValidOn
unfoldable pub is_valid_on : MetadataAttribute → ℕ → Bool
unfolding expiry
is_valid_on attr t = ltb t (expiry attr)

-- FloorToEpochBoundary
unfoldable pub floor_to_epoch_boundary : ℕ → ℕ
floor_to_epoch_boundary t = t / expiry_factor * expiry_factor
