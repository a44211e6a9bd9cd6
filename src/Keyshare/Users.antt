-- ===== src/Keyshare/Users.antt =====
-- The database of the keyshare server: the interface of server/keyshare/keyshareserver/db.go.
pub mod Postgres
pub mod Memory
use irmago.Prelude.{
  ℕ, suc, ◌+◌, ◌-◌, ◌*◌, ◌&&◌, Bool, true, false, Option, none, some, List, [], ◌∷◌, String, ◌==◌,
  nat_eq, string_eq, ltb, leb, is_some, if_some, if◌then◌else◌, length,
}
use irmago.Prelude.Map.{lookup, insert}
use irmago.Prelude.Outcome.{Outcome, ok, err, panic, ◌>>=◌, or_err}
use irmago.Keyshare.Secrets.{CoreError, UserSecrets}
use irmago.Keyshare.Pin.{PinRow, PinTry, fresh_pin, reserve_row}

-- The errors of the server: those of the core, and its own.
pub data KeyshareError : Type 0 where
  core_error : CoreError → KeyshareError
  user_not_found db_failed invalid_email invalid_email_domain no_network : KeyshareError
  user_already_exists too_many_tokens missing_commitment anonymous : KeyshareError

abbrev pub Result : Type 0 → Type 0
Result A = Outcome KeyshareError A

-- User
pub record User : Type 0 where
  pub username : String
  pub language : String
  pub secrets : UserSecrets
  pub id : ℕ

-- eventType
pub data EventType : Type 0 where
  pin_check_refused pin_check_success pin_check_failed pin_check_blocked irma_session : EventType

-- DB: `now` is the clock in seconds, and `later` the clock after the statement.
pub record Db (S : Type 0) : Type 0 where
  pub add_user : ℕ → User → S → Result (S × User)
  pub user : String → S → Result User
  pub update_user : User → S → Result S
  pub reserve_pin_try : ℕ → ℕ → User → S → Result (S × PinTry)
  pub reset_pin_tries : User → S → Result S
  pub set_seen : ℕ → User → S → Result S
  pub add_log : ℕ → User → EventType → Option ℕ → S → Result S
  pub add_email_verification : ℕ → User → String → String → ℕ → S → Result S
