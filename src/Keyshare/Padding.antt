-- ===== src/Keyshare/Padding.antt =====
-- What the constant-size fields of internal/keysharecore/usersecrets.go keep, and what the encryption of the
-- secrets gives back.
use irmago.Prelude.{
  ℕ, suc, zero, ◌-◌, ◌^◌, ◌≤◌, ◌<◌, ◌≡◌, refl, sym, ap, ◌∙◌, ◌↔◌, false, some, List, ◌++◌, String,
  nat_eq, ltb, length, length-append, length-replicate, take-append, drop-append, take, drop,
  replicate, arith,
}
use irmago.Prelude.Map.{lookup}
use irmago.Prelude.Outcome.{ok, ◌>>=◌, >>=-eq-ok, if-eq-ok, ensure_iff}
use irmago.Bytes.{IsBytes, to_bytes, from_bytes, from_bytes_acc, pad_left}
use irmago.Bytes.Fixed.{fixed-from_bytes, from_bytes-to_bytes}
use irmago.Identifier.{identifier_eq, bytes_beq_iff}
use irmago.Keyshare.Secrets.{
  UnencryptedUserSecrets, MarshaledUserSecrets, UserSecrets, Cipher, pad_bytes, set_pin, verify_pin,
  marshal, unmarshal, put_uint32, uint32, encrypt_user_secrets, decrypt_user_secrets, invalid_pin,
  pin_too_long, pad_too_long,
}

-- A slice that fits is padded as pad_left does.
pad_bytes-pad_left :
    (src : List ℕ) (len : ℕ) → length src ≤ len → pad_bytes src len ≡ ok (pad_left len src)
unfolding pad_bytes pad_left
pad_bytes-pad_left src len h = ground arith

from_bytes_acc-zeros :
    (k : ℕ) (bs : List ℕ) → from_bytes_acc 0 (replicate k 0 ++ bs) ≡ from_bytes_acc 0 bs
unfolding from_bytes_acc
from_bytes_acc-zeros zero bs = refl
from_bytes_acc-zeros (suc k) bs = from_bytes_acc-zeros k bs

from_bytes-pad_left : (len : ℕ) (bs : List ℕ) → from_bytes (pad_left len bs) ≡ from_bytes bs
unfolding from_bytes pad_left
from_bytes-pad_left len bs = ground (arith, from_bytes_acc-zeros (len - length bs) bs)

zeros-IsBytes : (k : ℕ) (bs : List ℕ) → IsBytes bs → IsBytes (replicate k 0 ++ bs)
zeros-IsBytes zero bs h = h
zeros-IsBytes (suc k) bs h = (omega arith, zeros-IsBytes k bs h)

pad_left-IsBytes : (len : ℕ) (bs : List ℕ) → IsBytes bs → IsBytes (pad_left len bs)
unfolding pad_left
pad_left-IsBytes len bs h = ground (arith, zeros-IsBytes (len - length bs) bs h)

length-pad_left : (len : ℕ) (bs : List ℕ) → length bs ≤ len → length (pad_left len bs) ≡ len
unfolding pad_left
length-pad_left len bs h = ground (
  arith,
  length-append (replicate (len - length bs) 0) bs,
  length-replicate {A = ℕ} (len - length bs) 0,
)

-- Padded to one length, slices are equal exactly when they are the same number.
pad_left_iff :
    (len : ℕ) (xs ys : List ℕ)
    → IsBytes xs
    → IsBytes ys
    → length xs ≤ len
    → length ys ≤ len
    → (pad_left len xs ≡ pad_left len ys) ↔ (from_bytes xs ≡ from_bytes ys)
pad_left_iff len xs ys hx hy lx ly = (
  λ e. sym (from_bytes-pad_left len xs) ∙ (ap from_bytes e ∙ from_bytes-pad_left len ys),
  λ e.
      let fx = fixed-from_bytes (pad_left len xs) (pad_left-IsBytes len xs hx) in
      let fy = fixed-from_bytes (pad_left len ys) (pad_left-IsBytes len ys hy) in
      let same : from_bytes (pad_left len xs) ≡ from_bytes (pad_left len ys) =
        from_bytes-pad_left len xs ∙ (e ∙ sym (from_bytes-pad_left len ys)) in
      sym fx ∙ (rw (length-pad_left len xs lx, length-pad_left len ys ly, same) refl ∙ fy),
)

-- What setPin stores.
set_pin-eq-ok :
    (p : List ℕ) (s t : UnencryptedUserSecrets)
    → set_pin p s ≡ ok t
    → (length p ≤ 64) × (t ≡ record s { pin = pad_left 64 p })
unfolding set_pin
set_pin-eq-ok p s t h =
    let (fits, padded) =
      if-eq-ok (ltb 64 (length p)) pin_too_long
        (pad_bytes p 64 >>= λ padded. ok (record s { pin = padded })) h in
    let le : length p ≤ 64 = ground arith in (le, cc (sym padded, pad_bytes-pad_left p 64 le))

-- A pin that was set is accepted exactly when it is the same number in base 256: leading zero bytes are lost.
pub verify_pin-set_pin :
    (p q : List ℕ) (s t : UnencryptedUserSecrets)
    → IsBytes p
    → IsBytes q
    → length q ≤ 64
    → set_pin p s ≡ ok t
    → (verify_pin q t ≡ ok tt) ↔ (from_bytes p ≡ from_bytes q)
unfolding verify_pin
verify_pin-set_pin p q s t hp hq lq h =
    let (lp, e) = set_pin-eq-ok p s t h in
    let pads = pad_left_iff 64 p q hp hq lp lq in
    let beq = bytes_beq_iff (pad_left 64 p) (pad_left 64 q) in
    rw (pad_bytes-pad_left q 64 lq, e)
      (
        λ h. pads.0 (beq.0 ((ensure_iff _ invalid_pin).0 h)),
        λ h. (ensure_iff _ invalid_pin).1 (beq.1 (pads.1 h)),
      )

put_uint32-uint32 : (n : ℕ) (rest : List ℕ) → n < 2 ^ 32 → uint32 (put_uint32 n ++ rest) ≡ some n
unfolding put_uint32 uint32
put_uint32-uint32 n rest h = ap some (omega arith)

pad_bytes-eq-ok :
    (src : List ℕ) (len : ℕ) (padded : List ℕ)
    → pad_bytes src len ≡ ok padded
    → from_bytes padded ≡ from_bytes src
unfolding pad_bytes
pad_bytes-eq-ok src len padded h =
    let fits : length src ≤ len =
      ground (arith, if-eq-ok (ltb len (length src)) pad_too_long _ h) in
    let same : padded ≡ pad_left len src = cc (h, pad_bytes-pad_left src len fits) in
    rw same (from_bytes-pad_left len src)

unmarshal-marshal :
    (s : UnencryptedUserSecrets) (raw : MarshaledUserSecrets)
    → marshal s ≡ ok raw
    → unmarshal raw ≡ s
unfolding marshal unmarshal
unmarshal-marshal s raw h =
    let (secret, padded, e) =
      >>=-eq-ok (pad_bytes (to_bytes s.keyshare_secret) 64)
        (λ secret.
          ok (record {
            pin = s.pin;
            keyshare_secret = secret;
            id = s.id;
            public_key = s.public_key;
          }))
        h in
    let same : from_bytes secret ≡ s.keyshare_secret =
      pad_bytes-eq-ok (to_bytes s.keyshare_secret) 64 secret padded
      ∙ from_bytes-to_bytes s.keyshare_secret in
    cc (sym e, same)

-- The three parts of a ciphertext are read back.
decrypt-parts :
    (cipher : Cipher) (keys : List (ℕ × String)) (key : String) (key_id : ℕ)
    (secrets nonce sealed bts : List ℕ) (raw : MarshaledUserSecrets)
    → uint32 secrets ≡ some key_id
    → lookup key_id keys ≡ some key
    → ltb (length secrets) 16 ≡ false
    → take 12 (drop 4 secrets) ≡ nonce
    → drop 16 secrets ≡ sealed
    → cipher.unseal key nonce sealed ≡ some bts
    → cipher.decode bts ≡ some raw
    → decrypt_user_secrets cipher keys secrets ≡ ok (unmarshal raw)
unfolding decrypt_user_secrets
decrypt-parts cipher keys key key_id secrets nonce sealed bts raw id known long t d unsealed
      decoded =
    rw (id, known, long, t, d, unsealed, decoded) refl

decrypt-sealed :
    (cipher : Cipher) (keys : List (ℕ × String)) (key : String) (key_id : ℕ)
    (nonce sealed bts : List ℕ) (raw : MarshaledUserSecrets)
    → key_id < 2 ^ 32
    → lookup key_id keys ≡ some key
    → length nonce ≡ 12
    → cipher.unseal key nonce sealed ≡ some bts
    → cipher.decode bts ≡ some raw
    → decrypt_user_secrets cipher keys (put_uint32 key_id ++ nonce ++ sealed) ≡ ok (unmarshal raw)
unfolding put_uint32
decrypt-sealed cipher keys key key_id nonce sealed bts raw bound known len unsealed decoded =
    decrypt-parts cipher keys key key_id (put_uint32 key_id ++ nonce ++ sealed) nonce sealed bts raw
      (put_uint32-uint32 key_id (nonce ++ sealed) bound) known
      (ground (arith, length-append nonce sealed)) (take-append nonce sealed 12 len)
      (drop-append nonce sealed 12 len) unsealed decoded

-- Secrets that were encrypted under the current key are decrypted to what they were, if CBOR and AES-GCM give
-- back what they were given.
pub decrypt_user_secrets-encrypt_user_secrets :
    (cipher : Cipher) (keys : List (ℕ × String)) (key : String) (key_id : ℕ) (nonce : List ℕ)
    (s : UnencryptedUserSecrets) (secrets : UserSecrets)
    → ((raw : MarshaledUserSecrets) → cipher.decode (cipher.encode raw) ≡ some raw)
    → ((k : String) (n m : List ℕ) → cipher.unseal k n (cipher.seal k n m) ≡ some m)
    → key_id < 2 ^ 32
    → lookup key_id keys ≡ some key
    → length nonce ≡ 12
    → encrypt_user_secrets cipher key key_id nonce s ≡ ok secrets
    → decrypt_user_secrets cipher keys secrets ≡ ok s
unfolding encrypt_user_secrets
decrypt_user_secrets-encrypt_user_secrets cipher keys key key_id nonce s secrets dec unseal bound
      known len h =
    let (raw, marshalled, e) =
      >>=-eq-ok (marshal s)
        (λ raw. ok (put_uint32 key_id ++ nonce ++ cipher.seal key nonce (cipher.encode raw))) h in
    let same : secrets ≡ put_uint32 key_id ++ nonce ++ cipher.seal key nonce (cipher.encode raw) =
      cc e in
    rw same (
      decrypt-sealed cipher keys key key_id nonce _ (cipher.encode raw) raw bound known len
        (unseal key nonce (cipher.encode raw)) (dec raw)
      ∙ ap ok (unmarshal-marshal s raw marshalled))
