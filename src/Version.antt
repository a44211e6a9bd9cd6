-- ===== src/Version.antt =====
-- `ProtocolVersion` of messages.go: the version comparisons. Go's `int` components are numbers,
-- since the server's own versions and those that a client may send sensibly are not negative.
pub mod Order
use irmago.Prelude.{ℕ, Bool, true, false, ◌&&◌, ◌||◌, ltb, ◌==◌, nat_eq, if◌then◌else◌}

pub record ProtocolVersion : Type 0 where
  pub major : ℕ
  pub minor : ℕ

-- NewVersion
abbrev pub new_version : ℕ → ℕ → ProtocolVersion
new_version major minor = record { major = major; minor = minor }

unfoldable pub below : ProtocolVersion → ℕ → ℕ → Bool
below v major minor = if ltb v.major major then true else v.major == major && ltb v.minor minor

unfoldable pub below_version : ProtocolVersion → ProtocolVersion → Bool
unfolding below
below_version v other = below v other.major other.minor

unfoldable pub above : ProtocolVersion → ℕ → ℕ → Bool
above v major minor = if ltb major v.major then true else v.major == major && ltb minor v.minor

unfoldable pub above_version : ProtocolVersion → ProtocolVersion → Bool
unfolding above
above_version v other = above v other.major other.minor

-- GetMetadataVersion: version 2 of the metadata attribute knows no optional attributes.
unfoldable pub get_metadata_version : ProtocolVersion → ℕ
unfolding below
get_metadata_version v = if below v 2 3 then 0x02 else 0x03
