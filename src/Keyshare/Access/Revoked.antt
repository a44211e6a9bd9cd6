-- ===== src/Keyshare/Access/Revoked.antt =====
-- A change of pin ends the access that was given before, by the operations of
-- internal/keysharecore/operations.go.
use irmago.Prelude.{ℕ, ◌<◌, ◌^◌, ◌≡◌, ◌≢◌, sym, ap, ◌∙◌, some, List, String, length, arith, nat_eq}
use irmago.Prelude.Map.{lookup}
use irmago.Prelude.Outcome.{ok, ◌>>=◌, >>=-eq-ok}
use irmago.Keyshare.Secrets.{
  Result, UnencryptedUserSecrets, MarshaledUserSecrets, UserSecrets, Cipher, pad_bytes, set_pin,
  set_id, verify_pin, encrypt_user_secrets,
}
use irmago.Keyshare.Core.{Core, Library, ChangePinClaims}
use irmago.Keyshare.Operations.{decrypt, with_public_key, verify_access, reencrypt, change_pin}
use irmago.Keyshare.Padding.{decrypt_user_secrets-encrypt_user_secrets}
use irmago.Keyshare.Access.{verify_access-id, verify_access-eq-ok}

-- CBOR and AES-GCM give back what they were given.
pub record Reversible (cipher : Cipher) : Type 0 where
  pub decode-encode : (raw : MarshaledUserSecrets) → cipher.decode (cipher.encode raw) ≡ some raw
  pub unseal-seal : (k : String) (n m : List ℕ) → cipher.unseal k n (cipher.seal k n m) ≡ some m

-- The current key of the core is one of its keys, under an identifier of 32 bits.
pub record HasKey (c : Core) : Type 0 where
  pub bounded : c.decryption_key_id < 2 ^ 32
  pub known : lookup c.decryption_key_id c.decryption_keys ≡ some c.decryption_key

set_id-eq-ok :
    (id : List ℕ) (s t : UnencryptedUserSecrets) → length id ≡ 32 → set_id id s ≡ ok t → t.id ≡ id
unfolding set_id
set_id-eq-ok id s t len h =
    let (padded, p, e) = >>=-eq-ok (pad_bytes id 32) (λ padded. ok (record s { id = padded })) h in
    let full : pad_bytes id 32 ≡ ok id = unfold pad_bytes in ground (arith, len) in
    let same : padded ≡ id = cc (sym p ∙ full) in
    let fields : record s { id = padded } ≡ t = cc e in sym (ap (λ x. x.id) fields) ∙ same

module _ (lib : Library) where
  reencrypt-id :
      (drawn_id nonce pin : List ℕ) (c : Core) (s : UnencryptedUserSecrets) (secrets : UserSecrets)
      → Reversible lib.cipher
      → HasKey c
      → length drawn_id ≡ 32
      → length nonce ≡ 12
      → reencrypt lib drawn_id nonce pin c s ≡ ok secrets
      → (t : UnencryptedUserSecrets) × (decrypt lib c secrets ≡ ok t) × (t.id ≡ drawn_id)
  unfolding reencrypt decrypt
  reencrypt-id drawn_id nonce pin c s secrets reversible key len len' h =
      let seal : UnencryptedUserSecrets → Result UserSecrets =
        encrypt_user_secrets lib.cipher c.decryption_key c.decryption_key_id nonce in
      let (u, pinned, h1) = >>=-eq-ok (set_pin pin s) (λ u. set_id drawn_id u >>= seal) h in
      let (t, named, h2) = >>=-eq-ok (set_id drawn_id u) seal h1 in
      (
        t,
        decrypt_user_secrets-encrypt_user_secrets lib.cipher c.decryption_keys c.decryption_key
            c.decryption_key_id nonce t secrets reversible.decode-encode reversible.unseal-seal
            key.bounded key.known len' h2,
        set_id-eq-ok drawn_id u t len named,
      )

  change_pin-reencrypt :
      (now : ℕ) (drawn_id nonce : List ℕ) (secrets secrets' : UserSecrets) (jwt : String) (c : Core)
      → change_pin lib now drawn_id nonce secrets jwt c ≡ ok secrets'
      → (s : UnencryptedUserSecrets) × (pin : List ℕ) × (reencrypt lib drawn_id nonce pin c s
          ≡ ok secrets')
  unfolding change_pin
  change_pin-reencrypt now drawn_id nonce secrets secrets' jwt c h =
      let write : UnencryptedUserSecrets → ChangePinClaims → Result UserSecrets = λ s claims.
        verify_pin claims.old_pin s >>= λ _. reencrypt lib drawn_id nonce claims.new_pin c s in
      let claims_of : UnencryptedUserSecrets → Result ChangePinClaims =
        λ s. with_public_key lib s (λ pk. lib.parse_change_pin pk now jwt) in
      let (s, decrypted, h1) = >>=-eq-ok (decrypt lib c secrets) (λ s. claims_of s >>= write s) h in
      let (claims, parsed, h2) = >>=-eq-ok (claims_of s) (write s) h1 in
      let (u, right, h3) =
        >>=-eq-ok (verify_pin claims.old_pin s)
          (λ _. reencrypt lib drawn_id nonce claims.new_pin c s) h2 in
      (s, claims.new_pin, h3)

  -- No access token that is accepted with the secrets before a change of pin is accepted with those after it,
  -- if the identifier that is drawn is not the one before, and CBOR and AES-GCM give back what they were given.
  pub verify_access-change_pin :
      (now later : ℕ) (drawn_id nonce : List ℕ) (secrets secrets' : UserSecrets)
      (jwt token : String) (c : Core) (s s' : UnencryptedUserSecrets)
      → Reversible lib.cipher
      → HasKey c
      → length drawn_id ≡ 32
      → length nonce ≡ 12
      → change_pin lib now drawn_id nonce secrets jwt c ≡ ok secrets'
      → verify_access lib later secrets token c ≡ ok s
      → s.id ≢ drawn_id
      → verify_access lib later secrets' token c ≢ ok s'
  verify_access-change_pin now later drawn_id nonce secrets secrets' jwt token c s s' reversible key
        len len' h before fresh after =
      let (u, pin, h1) = change_pin-reencrypt now drawn_id nonce secrets secrets' jwt c h in
      let (t, decrypted, id) =
        reencrypt-id drawn_id nonce pin c u secrets' reversible key len len' h1 in
      let (_, decrypted') = verify_access-eq-ok lib later secrets' token c s' after in
      let same : t ≡ s' = cc (sym decrypted ∙ decrypted') in
      fresh (
        verify_access-id lib later secrets secrets' token c s s' before after
        ∙ (sym (ap (λ x. x.id) same) ∙ id))
