-- ===== src/Keyshare/Blocked.antt =====
-- Users that server/keyshare/keyshareserver/server.go and postgresdb.go have blocked after wrong pins.
use irmago.Prelude.{
  ℕ, ◌-◌, ◌<◌, ◌≡◌, refl, false, none, some, List, String, ◌∷◌, nat_eq, leb, arith,
}
use irmago.Prelude.Map.{lookup}
use irmago.Prelude.Outcome.{Outcome, ok}
use irmago.Keyshare.Secrets.{UserSecrets}
use irmago.Keyshare.Pin.{PinTry, reserve_row}
use irmago.Keyshare.Users.{User, pin_check_refused, KeyshareError}
use irmago.Keyshare.Users.Postgres.{Tables, UserRow, postgres_db, reserve_pin_try, add_log}
use irmago.Keyshare.Handler.{Server, Handler}
use irmago.Keyshare.Core.{Library}
use irmago.Keyshare.Verify.{
  Draw, PinStatus, error, reserve_pin_check, if_allowed, Unverified, AuthResponse, verify_auth,
  update_pin, update_pin_legacy, register_public_key,
}

-- The row of a user that is blocked at this time.
pub record IsBlocked (now : ℕ) (id : ℕ) (t : Tables) (row : UserRow) : Type 0 where
  pub found : lookup id t.users ≡ some row
  pub registered : (secrets : UserSecrets) × (row.coredata ≡ some secrets)
  pub later_date : now < row.pin.pin_block_date

reserve_pin_try-IsBlocked :
    (now later : ℕ) (user : User) (t : Tables) (row : UserRow)
    → IsBlocked now user.id t row
    → reserve_pin_try now later user t
      ≡ ok (t, record { allowed = false; tries = 0; wait = row.pin.pin_block_date - later })
unfolding reserve_pin_try reserve_row
reserve_pin_try-IsBlocked now later user t row blocked =
    let (secrets, there) = blocked.registered in
    let early : leb row.pin.pin_block_date now ≡ false = ground (arith, blocked.later_date) in
    rw (blocked.found, there, early) refl

-- The server and the status after a refusal: the seconds to wait, and a line in the log.
abbrev pub refusal :
    Draw → User → UserRow → Server Tables → Server Tables × Outcome KeyshareError PinStatus
refusal d user row s = (
  record s {
    db = record (s.db) {
      log_entry_records =
          record { time = d.now; event = pin_check_refused; param = none; user_id = user.id }
          ∷ s.db.log_entry_records;
    };
  },
  ok (error (row.pin.pin_block_date - d.later)),
)

module _ (lib : Library) (unverified : Unverified) where
  if_allowed-IsBlocked :
      (d : Draw) (user : User) (check : PinTry → Handler Tables PinStatus) (s : Server Tables)
      (row : UserRow)
      → IsBlocked d.now user.id s.db row
      → if_allowed lib postgres_db unverified d user check s ≡ refusal d user row s
  unfolding if_allowed reserve_pin_check
  if_allowed-IsBlocked d user check s row blocked =
      rw (reserve_pin_try-IsBlocked d.now d.later user s.db row blocked) (unfold add_log in refl)

  -- While a user is blocked, nothing that she sends is checked against her pin, the right pin neither: an
  -- authentication, both changes of pin and the registration of a public key are answered with the seconds
  -- to wait. The core, the sessions and the users stay, and the refusal is logged.
  pub pin_checks-IsBlocked :
      (d : Draw) (user : User) (s : Server Tables) (row : UserRow)
      → IsBlocked d.now user.id s.db row
      → ((msg : AuthResponse)
          → verify_auth lib postgres_db unverified d user msg s ≡ refusal d user row s)
        × ((jwt : String)
            → update_pin lib postgres_db unverified d user jwt s ≡ refusal d user row s)
        × ((old_pin new_pin : List ℕ)
            → update_pin_legacy lib postgres_db unverified d user old_pin new_pin s
              ≡ refusal d user row s)
        × ((pin pk : List ℕ)
            → register_public_key lib postgres_db unverified d user pin pk s ≡ refusal d user row s)
  unfolding verify_auth update_pin update_pin_legacy register_public_key
  pin_checks-IsBlocked d user s row blocked = (
    λ msg. if_allowed-IsBlocked d user _ s row blocked,
    λ jwt. if_allowed-IsBlocked d user _ s row blocked,
    λ old_pin new_pin. if_allowed-IsBlocked d user _ s row blocked,
    λ pin pk. if_allowed-IsBlocked d user _ s row blocked,
  )
