-- ===== src/Bytes.antt =====
-- Big integers as byte slices: `Bytes` and `SetBytes` of math/big, with an integer as a number, and
-- the left padding that attributes.go and usersecrets.go do on top of them.
pub mod Fixed
use irmago.Prelude.{
  ℕ, zero, suc, ◌+◌, ◌-◌, ◌*◌, ◌/◌, ◌%◌, ◌<◌, List, [], ◌∷◌, ◌++◌, ltb, ◌==◌, nat_eq, if◌then◌else◌,
  length, replicate, All,
}

-- A Go `byte` is below 256.
abbrev pub IsByte : ℕ → Type 0
IsByte b = b < 256

abbrev pub IsBytes : List ℕ → Type 0
IsBytes = All IsByte

-- The minimal big-endian bytes of n, in at most `fuel` bytes; n itself is always enough.
unfoldable pub to_bytes_fuel : ℕ → ℕ → List ℕ
to_bytes_fuel zero n = []
to_bytes_fuel (suc fuel) n =
    let rest = to_bytes_fuel fuel (n / 256) in if n == 0 then [] else rest ++ (n % 256) ∷ []

-- (*big.Int).Bytes
unfoldable pub to_bytes : ℕ → List ℕ
unfolding to_bytes_fuel
to_bytes n = to_bytes_fuel n n

unfoldable pub from_bytes_acc : ℕ → List ℕ → ℕ
from_bytes_acc acc [] = acc
from_bytes_acc acc (b ∷ bs) = from_bytes_acc (acc * 256 + b) bs

-- (*big.Int).SetBytes
unfoldable pub from_bytes : List ℕ → ℕ
unfolding from_bytes_acc
from_bytes bs = from_bytes_acc 0 bs

-- Zeros on the left up to `len` bytes; longer slices stay.
unfoldable pub pad_left : ℕ → List ℕ → List ℕ
pad_left len bs = if ltb (length bs) len then replicate (len - length bs) 0 ++ bs else bs
