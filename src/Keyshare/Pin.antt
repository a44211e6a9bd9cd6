-- ===== src/Keyshare/Pin.antt =====
-- The pin tries of server/keyshare/keyshareserver/postgresdb.go: the columns pin_counter and pin_block_date of
-- a user, and the statements that reserve a try and reset them. The clock is in seconds.
pub mod Backoff
use irmago.Prelude.{
  ℕ, suc, ◌+◌, ◌-◌, ◌*◌, ◌^◌, Bool, true, false, List, [], ◌∷◌, ltb, leb, if◌then◌else◌,
}

-- maxPinTries and backoffStart
abbrev pub max_pin_tries : ℕ
max_pin_tries = 3

abbrev pub backoff_start : ℕ
backoff_start = 60

pub record PinRow : Type 0 where
  pub pin_counter : ℕ
  pub pin_block_date : ℕ

abbrev pub fresh_pin : PinRow
fresh_pin = record { pin_counter = 0; pin_block_date = 0 }

-- What reservePinTry answers.
pub record PinTry : Type 0 where
  pub allowed : Bool
  pub tries : ℕ
  pub wait : ℕ

-- The seconds that a try blocks the next one for, by the tries before it.
unfoldable pub backoff : ℕ → ℕ
backoff counter =
    if ltb counter (max_pin_tries - 1)
    then 0
    else backoff_start * 2 ^ (counter - (max_pin_tries - 1))

-- The row after a try at `now`.
unfoldable pub bump : ℕ → PinRow → PinRow
unfolding backoff
bump now row = record {
  pin_counter = suc row.pin_counter;
  pin_block_date = now + backoff row.pin_counter;
}

-- reservePinTry on the row of a user that exists: `now` is the time of the statement and `later` that of the
-- answer.
unfoldable pub reserve_row : ℕ → ℕ → PinRow → PinRow × PinTry
unfolding bump
reserve_row now later row =
    if leb row.pin_block_date now
    then (
      bump now row,
      record {
        allowed = true;
        tries = max_pin_tries - suc row.pin_counter;
        wait = (now + backoff row.pin_counter) - later;
      },
    )
    else (row, record { allowed = false; tries = 0; wait = row.pin_block_date - later })

-- The tries that are allowed among those at the given times, if no pin was right in between.
unfoldable pub allowed_tries : List (ℕ × ℕ) → PinRow → ℕ
unfolding reserve_row
allowed_tries [] row = 0
allowed_tries ((now, later) ∷ times) row =
    let (row', answer) = reserve_row now later row in
    let rest = allowed_tries times row' in if answer.allowed then suc rest else rest
