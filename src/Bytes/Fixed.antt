-- ===== src/Bytes/Fixed.antt =====
-- Byte slices of a fixed width stand for the numbers below 256 ^ width, one to one.
use native.Mathlib.Nat.{pow-suc}
use mathlib.Core.List.{append_assoc, append-nil}
use irmago.Prelude.{
  ℕ, zero, suc, ◌+◌, ◌-◌, ◌*◌, ◌/◌, ◌%◌, ◌^◌, ◌≤◌, ◌<◌, ◌≡◌, refl, sym, ap, ◌∙◌, inl, inr, List, [],
  ◌∷◌, ◌++◌, ltb, length, length-append, replicate, arith, Bool-cases, ◌==◌, nat_eq, nat_beq_iff,
  ◌≢◌,
}
use irmago.Prelude.Index.{snoc_induction}
use irmago.Bytes.{IsByte, IsBytes, to_bytes_fuel, to_bytes, from_bytes_acc, from_bytes, pad_left}

-- The last k bytes of n, big-endian.
unfoldable pub fixed : ℕ → ℕ → List ℕ
fixed zero n = []
fixed (suc k) n = fixed k (n / 256) ++ (n % 256) ∷ []

pub length-fixed : (k n : ℕ) → length (fixed k n) ≡ k
unfolding fixed
length-fixed zero n = refl
length-fixed (suc k) n =
    omega (arith, length-append (fixed k (n / 256)) ((n % 256) ∷ []), length-fixed k (n / 256))

All-snoc : (xs : List ℕ) (x : ℕ) → IsBytes (xs ++ x ∷ []) → IsBytes xs × IsByte x
All-snoc [] x h = (tt, h.0)
All-snoc (y ∷ xs) x h = let r = All-snoc xs x h.1 in ((h.0, r.0), r.1)

IsBytes-snoc : (xs : List ℕ) (x : ℕ) → IsBytes xs → IsByte x → IsBytes (xs ++ x ∷ [])
IsBytes-snoc [] x h k = (k, tt)
IsBytes-snoc (y ∷ xs) x h k = (h.0, IsBytes-snoc xs x h.1 k)

pub fixed-IsBytes : (k n : ℕ) → IsBytes (fixed k n)
unfolding fixed
fixed-IsBytes zero n = tt
fixed-IsBytes (suc k) n =
    IsBytes-snoc (fixed k (n / 256)) (n % 256) (fixed-IsBytes k (n / 256)) (omega arith)

from_bytes_acc-snoc :
    (acc : ℕ) (xs : List ℕ) (b : ℕ)
    → from_bytes_acc acc (xs ++ b ∷ []) ≡ from_bytes_acc acc xs * 256 + b
unfolding from_bytes_acc
from_bytes_acc-snoc acc [] b = refl
from_bytes_acc-snoc acc (x ∷ xs) b = from_bytes_acc-snoc (acc * 256 + x) xs b

pub from_bytes-snoc : (xs : List ℕ) (b : ℕ) → from_bytes (xs ++ b ∷ []) ≡ from_bytes xs * 256 + b
unfolding from_bytes
from_bytes-snoc xs b = from_bytes_acc-snoc 0 xs b

length-snoc : (xs : List ℕ) (b : ℕ) → length (xs ++ b ∷ []) ≡ suc (length xs)
length-snoc xs b = omega (arith, length-append xs (b ∷ []))

-- Reading the bytes of a slice back gives the slice, at its own width.
pub fixed-from_bytes : (bs : List ℕ) → IsBytes bs → fixed (length bs) (from_bytes bs) ≡ bs
unfolding fixed
fixed-from_bytes =
    snoc_induction (λ bs. IsBytes bs → fixed (length bs) (from_bytes bs) ≡ bs) (λ _. refl)
      λ xs b ih h.
        let (hx, hb) = All-snoc xs b h in
        let d : (from_bytes xs * 256 + b) / 256 ≡ from_bytes xs = omega arith in
        let m : (from_bytes xs * 256 + b) % 256 ≡ b = omega arith in
        rw (length-snoc xs b, from_bytes-snoc xs b) (rw (d, m) (rw (ih hx)))

pub from_bytes-lt : (bs : List ℕ) → IsBytes bs → from_bytes bs < 256 ^ length bs
from_bytes-lt =
    snoc_induction (λ bs. IsBytes bs → from_bytes bs < 256 ^ length bs)
      (λ _. unfold from_bytes in omega arith)
      λ xs b ih h.
        let (hx, hb) = All-snoc xs b h in
        rw (length-snoc xs b, from_bytes-snoc xs b, pow-suc) (omega (arith, ih hx))

replicate-snoc : (k a : ℕ) → replicate k a ++ a ∷ [] ≡ a ∷ replicate k a
replicate-snoc zero a = refl
replicate-snoc (suc k) a = ap (◌∷◌ a) (replicate-snoc k a)

fixed-zero : (k : ℕ) → fixed k 0 ≡ replicate k 0
unfolding fixed
fixed-zero zero = refl
fixed-zero (suc k) = rw (fixed-zero k) (replicate-snoc k 0)

-- `bs` is n at some width, with its leading zeros left out.
abbrev Trimmed : ℕ → ℕ → List ℕ → Type 0
Trimmed k n bs = (length bs ≤ k) × (fixed k n ≡ replicate (k - length bs) 0 ++ bs)

Trimmed-zero : (k : ℕ) → Trimmed k 0 []
Trimmed-zero k = (
  omega arith,
  fixed-zero k ∙ sym (append-nil (replicate (k - 0) 0) ∙ ap (λ j. replicate j 0) (omega arith)),
)

Trimmed-snoc :
    (k n : ℕ) (bs : List ℕ) → Trimmed k (n / 256) bs → Trimmed (suc k) n (bs ++ (n % 256) ∷ [])
unfolding fixed
Trimmed-snoc k n bs (l, e) = (
  omega (arith, length-snoc bs (n % 256)),
  let w : suc k - suc (length bs) ≡ k - length bs = omega arith in
      rw (length-snoc bs (n % 256), e, w) (append_assoc _ bs _),
)

div-lt : (k n : ℕ) → n < 256 ^ suc k → n / 256 < 256 ^ k
div-lt k n h = let e : 256 ^ suc k ≡ 256 ^ k * 256 = pow-suc 256 k in omega (arith, e)

to_bytes_fuel-Trimmed : (k f n : ℕ) → n ≤ f → n < 256 ^ k → Trimmed k n (to_bytes_fuel f n)
unfolding to_bytes_fuel
to_bytes_fuel-Trimmed k zero n le lt = let e : n ≡ 0 = omega arith in rw e (Trimmed-zero k)
to_bytes_fuel-Trimmed zero (suc f) n le lt = let e : n ≡ 0 = omega arith in rw e (Trimmed-zero 0)
to_bytes_fuel-Trimmed (suc k) (suc f) n le lt = elim (Bool-cases (n == 0)) [
  | inl z ↦ let e : n ≡ 0 = (nat_beq_iff n 0).0 z in rw e (Trimmed-zero (suc k))
  | inr nz ↦
      let pos : n ≢ 0 = λ e. ground arith in
      rw nz (Trimmed-snoc k n _ (to_bytes_fuel-Trimmed k f (n / 256) (omega arith) (div-lt k n lt)))
]

pub pad_left-to_bytes : (k n : ℕ) → n < 256 ^ k → pad_left k (to_bytes n) ≡ fixed k n
unfolding pad_left to_bytes
pad_left-to_bytes k n h =
    let (l, e) = to_bytes_fuel-Trimmed k n n (omega arith) h in
    elim (Bool-cases (ltb (length (to_bytes_fuel n n)) k)) [
      | inl short ↦ rw short (sym e)
      | inr full ↦
          let z : k - length (to_bytes_fuel n n) ≡ 0 = ground arith in
          rw full (sym (e ∙ ap (λ j. replicate j 0 ++ to_bytes_fuel n n) z))
    ]

-- A full slice of k bytes survives the trip through an integer.
pub pad_left-to_bytes-from_bytes :
    (bs : List ℕ) → IsBytes bs → pad_left (length bs) (to_bytes (from_bytes bs)) ≡ bs
pad_left-to_bytes-from_bytes bs h =
    pad_left-to_bytes (length bs) (from_bytes bs) (from_bytes-lt bs h) ∙ fixed-from_bytes bs h

from_bytes-to_bytes_fuel : (f n : ℕ) → n ≤ f → from_bytes (to_bytes_fuel f n) ≡ n
unfolding from_bytes to_bytes_fuel
from_bytes-to_bytes_fuel zero n h = omega arith
from_bytes-to_bytes_fuel (suc f) n h = elim (Bool-cases (n == 0)) [
  | inl z ↦ rw z (sym ((nat_beq_iff n 0).0 z))
  | inr nz ↦
      let pos : n ≢ 0 = λ e. ground arith in
      rw (nz, from_bytes_acc-snoc 0 (to_bytes_fuel f (n / 256)) (n % 256))
        (omega (arith, from_bytes-to_bytes_fuel f (n / 256) (omega arith)))
]

pub from_bytes-to_bytes : (n : ℕ) → from_bytes (to_bytes n) ≡ n
unfolding to_bytes
from_bytes-to_bytes n = from_bytes-to_bytes_fuel n n (omega arith)
