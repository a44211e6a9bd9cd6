-- ===== src/Metadata/Slices.antt =====
-- What the loop of `setField` in attributes.go does to each byte.
use irmago.Prelude.{
  ℕ, zero, suc, ◌+◌, ◌-◌, ◌^◌, ◌≤◌, ◌<◌, ◌≡◌, refl, ap, ◌∙◌, subst, inl, inr, ◌&&◌, Option, none,
  some, List, [], ◌∷◌, ◌++◌, ltb, leb, nat_beq, if◌then◌else◌, length, get_elem?, drop, replicate,
  length-replicate, arith, Bool-cases,
}
use irmago.Prelude.Index.{set, length-set, get_elem?-set, get_elem?-drop, get_elem?-take}
use irmago.Prelude.Outcome.{ok}
use irmago.Bytes.{IsByte, IsBytes, from_bytes, to_bytes, pad_left}
use irmago.Bytes.Fixed.{
  length-fixed, fixed-IsBytes, from_bytes-lt, pad_left-to_bytes, pad_left-to_bytes-from_bytes,
}
use irmago.Metadata.{
  MetadataField, MetadataAttribute, metadata_length, bytes, at, field, set_field_loop, set_field,
}

-- The integer has at most 24 bytes.
abbrev pub IsMetadata : MetadataAttribute → Type 0
IsMetadata attr = attr < 256 ^ 24

-- The value fits in the field, and the field in the attribute.
pub record Fits (f : MetadataField) (value : List ℕ) : Type 0 where
  pub short : length value ≤ f.len
  pub inside : f.offset + f.len ≤ metadata_length
  pub valued : IsBytes value

-- Byte k of a value that is pushed to the right within its field.
abbrev pub padded : MetadataField → List ℕ → ℕ → ℕ
padded f value k = if ltb k (f.len - length value) then 0 else at value (k - (f.len - length value))

at-IsByte : (bs : List ℕ) (i : ℕ) → IsBytes bs → IsByte (at bs i)
at-IsByte [] i h = omega arith
at-IsByte (b ∷ bs) zero h = h.0
at-IsByte (b ∷ bs) (suc i) h = at-IsByte bs i h.1

padded-IsByte :
    (f : MetadataField) (value : List ℕ) (k : ℕ) → IsBytes value → IsByte (padded f value k)
padded-IsByte f value k h = ground (arith, at-IsByte value (k - (f.len - length value)) h)

set-IsBytes : (bs : List ℕ) (i b : ℕ) → IsBytes bs → IsByte b → IsBytes (set bs i b)
unfolding set
set-IsBytes [] i b h k = tt
set-IsBytes (x ∷ bs) zero b h k = (k, h.1)
set-IsBytes (x ∷ bs) (suc i) b h k = (h.0, set-IsBytes bs i b h.1 k)

set_field_loop-IsBytes :
    (n i : ℕ) (f : MetadataField) (value bs : List ℕ)
    → IsBytes value
    → IsBytes bs
    → IsBytes (set_field_loop n i f value bs)
unfolding set_field_loop
set_field_loop-IsBytes zero i f value bs v h = h
set_field_loop-IsBytes (suc n) i f value bs v h =
    set_field_loop-IsBytes n (suc i) f value _ v
      (set-IsBytes bs (i + f.offset) (padded f value i) h (padded-IsByte f value i v))

pub length-set_field_loop :
    (n i : ℕ) (f : MetadataField) (value bs : List ℕ)
    → length (set_field_loop n i f value bs) ≡ length bs
unfolding set_field_loop
length-set_field_loop zero i f value bs = refl
length-set_field_loop (suc n) i f value bs =
    length-set_field_loop n (suc i) f value _ ∙ length-set bs (i + f.offset) (padded f value i)

loop_step :
    (p : ℕ → ℕ) (n i o j : ℕ) (bs : List ℕ) (x : Option ℕ)
    → i + suc n + o ≤ length bs
    → (if leb (suc i + o) j && ltb j (suc i + n + o)
        then some (p (j - o))
        else (if nat_beq (i + o) j && ltb j (length bs) then some (p i) else x))
      ≡ (if leb (i + o) j && ltb j (i + suc n + o) then some (p (j - o)) else x)
loop_step p n i o j bs x h =
    let e : (i + o ≡ j) → p (j - o) ≡ p i = λ q. ap p (omega arith) in ground (arith, e)

-- Inside the part of the field that the loop visits stands the value, outside it nothing changes.
pub get_elem?-set_field_loop :
    (n i : ℕ) (f : MetadataField) (value bs : List ℕ) (j : ℕ)
    → i + n + f.offset ≤ length bs
    → get_elem? (set_field_loop n i f value bs) j ≡ (
        if leb (i + f.offset) j && ltb j (i + n + f.offset)
        then some (padded f value (j - f.offset))
        else get_elem? bs j)
unfolding set_field_loop
get_elem?-set_field_loop zero i f value bs j h = ground arith
get_elem?-set_field_loop (suc n) i f value bs j h =
    let ih =
      get_elem?-set_field_loop n (suc i) f value (set bs (i + f.offset) (padded f value i)) j
        (omega (arith, length-set bs (i + f.offset) (padded f value i))) in
    ih
    ∙ ap
        (λ x.
          if leb (suc i + f.offset) j && ltb j (suc i + n + f.offset)
          then some (padded f value (j - f.offset))
          else x)
        (get_elem?-set bs (i + f.offset) j (padded f value i))
    ∙ loop_step (padded f value) n i f.offset j bs (get_elem? bs j) h

pub length-bytes :
    (attr : MetadataAttribute) → IsMetadata attr → length (bytes attr) ≡ metadata_length
unfolding bytes
length-bytes attr h = ap length (pad_left-to_bytes 24 attr h) ∙ length-fixed 24 attr

bytes-IsBytes : (attr : MetadataAttribute) → IsMetadata attr → IsBytes (bytes attr)
unfolding bytes
bytes-IsBytes attr h = rw (pad_left-to_bytes 24 attr h) (fixed-IsBytes 24 attr)

-- A slice of 24 bytes is read back from the integer that it stands for.
bytes-from_bytes :
    (bs : List ℕ)
    → IsBytes bs
    → length bs ≡ metadata_length
    → (bytes (from_bytes bs) ≡ bs) × IsMetadata (from_bytes bs)
unfolding bytes
bytes-from_bytes bs h l = (
  subst (λ n. pad_left n (to_bytes (from_bytes bs)) ≡ bs) l (pad_left-to_bytes-from_bytes bs h),
  subst (λ n. from_bytes bs < 256 ^ n) l (from_bytes-lt bs h),
)

-- A value that fits is written, and the integer keeps its width.
pub bytes-set_field :
    (f : MetadataField) (value : List ℕ) (attr : MetadataAttribute)
    → Fits f value
    → IsMetadata attr
    → (attr' : MetadataAttribute) × (set_field f value attr ≡ ok attr')
      × IsMetadata attr'
      × (bytes attr' ≡ set_field_loop f.len 0 f value (bytes attr))
unfolding set_field
bytes-set_field f value attr fits h =
    let l : length (set_field_loop f.len 0 f value (bytes attr)) ≡ metadata_length =
      length-set_field_loop f.len 0 f value (bytes attr) ∙ length-bytes attr h in
    let b =
      bytes-from_bytes _
        (set_field_loop-IsBytes f.len 0 f value (bytes attr) fits.valued (bytes-IsBytes attr h))
        l in
    (from_bytes (set_field_loop f.len 0 f value (bytes attr)), ground (arith, fits.short), b.1, b.0)

pub get_elem?-field :
    (attr : MetadataAttribute) (g : MetadataField) (k : ℕ)
    → get_elem? (field attr g) k
      ≡ (if ltb k g.len then get_elem? (bytes attr) (g.offset + k) else none)
unfolding field
get_elem?-field attr g k =
    get_elem?-take g.len (drop g.offset (bytes attr)) k
    ∙ ap (λ x. if ltb k g.len then x else none) (get_elem?-drop g.offset (bytes attr) k)

get_elem?-replicate : (n k a : ℕ) → get_elem? (replicate n a) k ≡ (if ltb k n then some a else none)
get_elem?-replicate zero k a = ground arith
get_elem?-replicate (suc n) zero a = ground arith
get_elem?-replicate (suc n) (suc k) a = ground (arith, get_elem?-replicate n k a)

get_elem?-at :
    (bs : List ℕ) (k : ℕ) → get_elem? bs k ≡ (if ltb k (length bs) then some (at bs k) else none)
get_elem?-at [] k = ground arith
get_elem?-at (b ∷ bs) zero = ground arith
get_elem?-at (b ∷ bs) (suc k) = ground (arith, get_elem?-at bs k)

get_elem?-append :
    (xs ys : List ℕ) (k : ℕ)
    → get_elem? (xs ++ ys) k
      ≡ (if ltb k (length xs) then get_elem? xs k else get_elem? ys (k - length xs))
get_elem?-append [] ys k = let e : k - 0 ≡ k = omega arith in rw e (ground arith)
get_elem?-append (x ∷ xs) ys zero = ground arith
get_elem?-append (x ∷ xs) ys (suc k) =
    let e : suc k - suc (length xs) ≡ k - length xs = omega arith in
    rw e (ground (arith, get_elem?-append xs ys k))

-- A value that was padded to the length of its field, byte by byte.
pub get_elem?-pad_left :
    (f : MetadataField) (value : List ℕ) (k : ℕ)
    → length value ≤ f.len
    → get_elem? (pad_left f.len value) k ≡ (if ltb k f.len then some (padded f value k) else none)
unfolding pad_left
get_elem?-pad_left f value k h = elim (Bool-cases (ltb (length value) f.len)) [
  | inl short ↦
      let m = f.len - length value in
      rw short (
        get_elem?-append (replicate m 0) value k
        ∙ rw (length-replicate {A = ℕ} m 0, get_elem?-replicate m k 0, get_elem?-at value (k - m))
            (ground arith))
  | inr full ↦
      let e : f.len - length value ≡ 0 = ground arith in
      let z : k - 0 ≡ k = omega arith in rw (full, get_elem?-at value k, e) (rw z (ground arith))
]
