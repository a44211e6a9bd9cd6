-- ===== src/Version/Order.antt =====
-- The comparisons of messages.go are the lexicographic order on versions.
use irmago.Prelude.{◌≤◌, ◌<◌, ◌≡◌, ◌↔◌, ◌⊎◌, ◌≢◌, true, false, arith}
use irmago.Version.{ProtocolVersion, below_version, above_version}

-- v ≤ w.
abbrev pub AtMost : ProtocolVersion → ProtocolVersion → Type 0
AtMost v w = (v.major < w.major) ⊎ ((v.major ≡ w.major) × (v.minor ≤ w.minor))

pub above_version-false : (v w : ProtocolVersion) → (above_version v w ≡ false) ↔ AtMost v w
unfolding above_version
above_version-false v w = (ground arith, ground arith)

pub below_version-false : (v w : ProtocolVersion) → (below_version v w ≡ false) ↔ AtMost w v
unfolding below_version
below_version-false v w = (ground arith, ground arith)

-- `AboveVersion` is `BelowVersion` with its arguments swapped.
pub above_version-swap : (v w : ProtocolVersion) → above_version v w ≡ below_version w v
unfolding above_version below_version
above_version-swap v w = ground arith

-- Exactly one of below, equal and above holds of two versions.
pub trichotomy :
    (v w : ProtocolVersion)
    → ((below_version v w ≡ true) × (above_version v w ≡ false) × (v ≢ w))
      ⊎ ((v ≡ w) × (below_version v w ≡ false) × (above_version v w ≡ false))
      ⊎ ((above_version v w ≡ true) × (below_version v w ≡ false) × (v ≢ w))
unfolding above_version below_version
trichotomy v w = grind arith

pub AtMost-refl : (v : ProtocolVersion) → AtMost v v
AtMost-refl v = ground arith

pub above_version-true : (v w : ProtocolVersion) → above_version v w ≡ true → AtMost w v
unfolding above_version
above_version-true v w h = ground arith

pub AtMost-trans : (u v w : ProtocolVersion) → AtMost u v → AtMost v w → AtMost u w
AtMost-trans u v w h k = ground arith
