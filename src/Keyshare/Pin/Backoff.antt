-- ===== src/Keyshare/Pin/Backoff.antt =====
-- How many pins can be tried in a period, for the statements of
-- server/keyshare/keyshareserver/postgresdb.go.
use native.Mathlib.Nat.{pow-suc, pow-le-pow_right}
use irmago.Prelude.{
  ℕ, zero, suc, ◌+◌, ◌-◌, ◌*◌, ◌^◌, ◌≤◌, ◌<◌, ◌≡◌, refl, ap, subst, leb→le, inl, inr, ◌↔◌, true,
  false, List, [], ◌∷◌, leb, arith, Bool-cases, All,
}
use irmago.Keyshare.Pin.{PinRow, backoff, bump, reserve_row, allowed_tries, fresh_pin}

-- The seconds that the first n tries take together, without the last wait.
waited : ℕ → ℕ
waited zero = 0
waited (suc n) = waited n + backoff n

backoff-doubles : (k : ℕ) → backoff (suc (suc k)) ≡ 60 * 2 ^ k
unfolding backoff
backoff-doubles k =
    let less : suc (suc k) - 2 ≡ k = omega arith in ground (arith, ap (λ e. 60 * 2 ^ e) less)

waited-geometric : (k : ℕ) → waited (suc (suc (suc k))) + 60 ≡ 120 * 2 ^ k
unfolding waited
waited-geometric zero = unfold backoff in refl
waited-geometric (suc k) = omega (arith, waited-geometric k, pow-suc 2 k, backoff-doubles (suc k))

-- After n tries between `from` and `until`, the last of which blocks.
abbrev Tried : ℕ → ℕ → ℕ → PinRow → Type 0
Tried from until zero row = row.pin_counter ≡ 0
Tried from until (suc n) row =
    (row.pin_counter ≡ suc n)
    × (from + waited (suc n) ≤ row.pin_block_date)
    × (row.pin_block_date ≤ until + backoff n)

Tried-bound :
    (from until k : ℕ) (row : PinRow)
    → from ≤ until
    → Tried from until (suc (suc (suc k))) row
    → 60 * 2 ^ k ≤ (until - from) + 60
Tried-bound from until k row le (c, lo, hi) = omega (arith, waited-geometric k, backoff-doubles k)

Tried-bump :
    (from until now n : ℕ) (row : PinRow)
    → from ≤ now
    → now ≤ until
    → row.pin_block_date ≤ now
    → Tried from until n row
    → Tried from until (suc n) (bump now row)
unfolding bump waited
Tried-bump from until now zero row lo hi passed c = rw c (refl, omega arith, omega arith)
Tried-bump from until now (suc n) row lo hi passed (c, start, end) =
    rw c (refl, omega arith, omega arith)

allowed_tries-passed :
    (now later : ℕ) (row : PinRow) (times : List (ℕ × ℕ))
    → leb row.pin_block_date now ≡ true
    → allowed_tries ((now, later) ∷ times) row ≡ suc (allowed_tries times (bump now row))
unfolding allowed_tries
allowed_tries-passed now later row times h = rw h refl

allowed_tries-blocked :
    (now later : ℕ) (row : PinRow) (times : List (ℕ × ℕ))
    → leb row.pin_block_date now ≡ false
    → allowed_tries ((now, later) ∷ times) row ≡ allowed_tries times row
unfolding allowed_tries
allowed_tries-blocked now later row times h = rw h refl

allowed_tries-Tried :
    (from until n k : ℕ) (row : PinRow) (times : List (ℕ × ℕ))
    → from ≤ until
    → All (λ t. (from ≤ t.0) × (t.0 ≤ until)) times
    → Tried from until n row
    → n + allowed_tries times row ≡ suc (suc (suc k))
    → 60 * 2 ^ k ≤ (until - from) + 60
allowed_tries-Tried from until n k row [] le all tried e =
    let none_left : allowed_tries [] row ≡ 0 = unfold allowed_tries in refl in
    let same : n ≡ suc (suc (suc k)) = omega arith in
    Tried-bound from until k row le (subst (λ m. Tried from until m row) same tried)
allowed_tries-Tried from until n k row ((now, later) ∷ times) le ((lo, hi), all) tried e =
    elim (Bool-cases (leb row.pin_block_date now)) [
      | inl passed ↦
          allowed_tries-Tried from until (suc n) k (bump now row) times le all
            (Tried-bump from until now n row lo hi (leb→le _ _ passed) tried)
            (omega (arith, allowed_tries-passed now later row times passed))
      | inr blocked ↦
          allowed_tries-Tried from until n k row times le all tried
            (omega (arith, allowed_tries-blocked now later row times blocked))
    ]

-- Of any tries within a period, without a right pin in between, at most three are allowed if it is short: for
-- 3 + k of them the period lasts at least 60 * (2 ^ k - 1) seconds.
pub allowed_tries-waits :
    (from until k : ℕ) (times : List (ℕ × ℕ))
    → from ≤ until
    → All (λ t. (from ≤ t.0) × (t.0 ≤ until)) times
    → allowed_tries times fresh_pin ≡ 3 + k
    → 60 * 2 ^ k ≤ (until - from) + 60
allowed_tries-waits from until k times le all e =
    allowed_tries-Tried from until 0 k fresh_pin times le all refl (omega arith)

backoff_iff : (c : ℕ) → (0 < backoff c) ↔ (2 ≤ c)
unfolding backoff
backoff_iff c =
    let some_power : 2 ^ 0 ≤ 2 ^ (c - 2) = pow-le-pow_right (omega arith) {i = 0} (omega arith) in
    ground arith

-- A try that is allowed leaves no more tries exactly when it makes the user wait, at the same moment.
pub reserve_row-wait :
    (now : ℕ) (row : PinRow)
    → (reserve_row now now row).1.allowed ≡ true
    → ((reserve_row now now row).1.tries ≡ 0) ↔ (0 < (reserve_row now now row).1.wait)
unfolding reserve_row
reserve_row-wait now row h = elim (Bool-cases (leb row.pin_block_date now)) [
  | inl passed ↦ rw passed (ground (arith, backoff_iff row.pin_counter))
  | inr blocked ↦ ground arith
]
