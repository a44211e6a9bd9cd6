-- ===== src/Keyshare/Examples/Tries.antt =====
-- Pins that are tried.
use irmago.Prelude.{
  ℕ, ◌+◌, ◌-◌, ◌*◌, ◌^◌, ◌≤◌, ◌<◌, ◌≡◌, ◌↔◌, refl, true, none, some, List, [], ◌∷◌, ◌++◌, nat_eq,
  string_eq, replicate, arith, All,
}
use irmago.Prelude.Map.{lookup}
use irmago.Prelude.Outcome.{ok}
use irmago.Bytes.{from_bytes}
use irmago.Keyshare.Secrets.{UnencryptedUserSecrets, verify_pin, set_pin, pad_bytes}
use irmago.Keyshare.Padding.{verify_pin-set_pin}
use irmago.Keyshare.Pin.{PinRow, reserve_row, allowed_tries, fresh_pin}
use irmago.Keyshare.Pin.Backoff.{allowed_tries-waits, reserve_row-wait}
use irmago.Keyshare.Store.{Session, new_memory_session_store, get}
use irmago.Keyshare.Store.Refinement.{
  Operation, adds, flushes, perform_all, promised_all, perform_all-get,
}
use irmago.Keyshare.Users.Postgres.{Tables, UserRow, postgres_db}
use irmago.Keyshare.Handler.{Server}
use irmago.Keyshare.Verify.{Unverified, error}
use irmago.Keyshare.Blocked.{IsBlocked, refusal, pin_checks-IsBlocked}
use irmago.Keyshare.Verify.{
  Draw, AuthResponse, verify_auth, update_pin, update_pin_legacy, register_public_key,
}
use irmago.Keyshare.Users.{User}
use irmago.Prelude.{String}
use irmago.Keyshare.Examples.World.{lib, core, key_id}

abbrev blank : UnencryptedUserSecrets
blank = record { pin = []; keyshare_secret = 0; id = []; public_key = none }

abbrev with_pin : UnencryptedUserSecrets
with_pin = record {
  pin = replicate 63 0 ++ 49 ∷ [];
  keyshare_secret = 0;
  id = [];
  public_key = none;
}

set_pin_run : set_pin (49 ∷ []) blank ≡ ok with_pin
unfolding set_pin pad_bytes
set_pin_run = refl

verify_pin-set_pin_example :
    (verify_pin (0 ∷ 49 ∷ []) with_pin ≡ ok tt) ↔ (from_bytes (49 ∷ []) ≡ from_bytes (0 ∷ 49 ∷ []))
verify_pin-set_pin_example =
    verify_pin-set_pin (49 ∷ []) (0 ∷ 49 ∷ []) blank with_pin (omega arith, tt)
      (omega arith, (omega arith, tt)) (omega arith) set_pin_run

-- Seven tries within three minutes, of which the last ones have to wait.
abbrev times : List (ℕ × ℕ)
times = (10, 10) ∷ (11, 11) ∷ (12, 12) ∷ (13, 13) ∷ (72, 72) ∷ (80, 80) ∷ (190, 190) ∷ []

times_allowed : allowed_tries times fresh_pin ≡ 3 + 1
unfolding allowed_tries
times_allowed = refl

within : All (λ t. (10 ≤ t.0) × (t.0 ≤ 190)) times
within = omega arith

allowed_tries-waits_example : 60 * 2 ^ 1 ≤ (190 - 10) + 60
allowed_tries-waits_example = allowed_tries-waits 10 190 1 times (omega arith) within times_allowed

abbrev third_row : PinRow
third_row = record { pin_counter = 2; pin_block_date = 12 }

third_allowed : (reserve_row 12 12 third_row).1.allowed ≡ true
unfolding reserve_row
third_allowed = refl

reserve_row-wait_example :
    ((reserve_row 12 12 third_row).1.tries ≡ 0) ↔ (0 < (reserve_row 12 12 third_row).1.wait)
reserve_row-wait_example = reserve_row-wait 12 third_row third_allowed

abbrev session : ℕ → Session
session commit_id = record { key_id = key_id; commit_id = commit_id; hw = ""; expiry = 0 }

abbrev operations : List Operation
operations =
    adds 0 "user" (session 1)
    ∷ adds 5 "user" (session 2)
    ∷ adds 5 "other" (session 3)
    ∷ flushes 12
    ∷ []

perform_all-get_example :
    get "user" (perform_all operations (new_memory_session_store 10))
    ≡ promised_all 10 operations (λ _. none) "user"
perform_all-get_example = perform_all-get operations 10 "user"

abbrev row : UserRow
row = record {
  username = "user";
  language = "en";
  coredata = some [];
  last_seen = 0;
  pin = record { pin_counter = 4; pin_block_date = 200 };
  delete_on = none;
}

abbrev server : Server Tables
server = record {
  core = core;
  store = record { sessions = []; session_lifetime = 10 };
  db = record {
    users = (7, row) ∷ [];
    next_id = 8;
    log_entry_records = [];
    email_verification_tokens = [];
  };
}

abbrev unverified : Unverified
unverified = record {
  auth_request_username = λ jwt. some "user";
  auth_response_username = λ jwt. some "user";
  change_pin_username = λ jwt. some "user";
  key_registration = λ jwt. none;
}

row_found : lookup 7 server.db.users ≡ some row
unfolding lookup
row_found = refl

abbrev blocked_draw : Draw
blocked_draw = record { now = 150; later = 151; id = []; nonce = [] }

abbrev blocked_user : User
blocked_user = record { username = "user"; language = "en"; secrets = []; id = 7 }

row-IsBlocked : IsBlocked 150 7 server.db row
row-IsBlocked = record { found = row_found; registered = ([], refl); later_date = omega arith }

pin_checks-IsBlocked_example :
    ((msg : AuthResponse)
      → verify_auth lib postgres_db unverified blocked_draw blocked_user msg server
        ≡ refusal blocked_draw blocked_user row server)
    × ((jwt : String)
        → update_pin lib postgres_db unverified blocked_draw blocked_user jwt server
          ≡ refusal blocked_draw blocked_user row server)
    × ((old_pin new_pin : List ℕ)
        → update_pin_legacy lib postgres_db unverified blocked_draw blocked_user old_pin new_pin
            server
          ≡ refusal blocked_draw blocked_user row server)
    × ((pin pk : List ℕ)
        → register_public_key lib postgres_db unverified blocked_draw blocked_user pin pk server
          ≡ refusal blocked_draw blocked_user row server)
pin_checks-IsBlocked_example =
    pin_checks-IsBlocked lib unverified blocked_draw blocked_user server row row-IsBlocked

-- The seconds until 200.
refusal_wait : (refusal blocked_draw blocked_user row server).1 ≡ ok (error 49)
refusal_wait = refl
