-- ===== src/Keyshare/Users/Postgres.antt =====
-- postgresDB of server/keyshare/keyshareserver/postgresdb.go: the tables of the database and what the
-- statements do to them. A connection that fails is not modelled.
use irmago.Prelude.{
  ℕ, suc, ◌+◌, ◌-◌, ◌*◌, ◌&&◌, Option, none, some, List, [], ◌∷◌, String, ◌==◌, nat_eq, string_eq,
  ltb, leb, is_some, if◌then◌else◌,
}
use irmago.Prelude.Map.{lookup, insert}
use irmago.Prelude.Outcome.{ok, err, ◌>>=◌, or_err}
use irmago.Keyshare.Secrets.{UserSecrets}
use irmago.Keyshare.Pin.{PinRow, PinTry, fresh_pin, reserve_row}
use irmago.Keyshare.Users.{User, EventType, Db, Result, user_not_found, db_failed, too_many_tokens}

-- A row of irma.users; `coredata` is null once the user has deleted her account.
pub record UserRow : Type 0 where
  pub username : String
  pub language : String
  pub coredata : Option UserSecrets
  pub last_seen : ℕ
  pub pin : PinRow
  pub delete_on : Option ℕ

pub record LogEntry : Type 0 where
  pub time : ℕ
  pub event : EventType
  pub param : Option ℕ
  pub user_id : ℕ

pub record EmailToken : Type 0 where
  pub token : String
  pub email : String
  pub user_id : ℕ
  pub expiry : ℕ

pub record Tables : Type 0 where
  pub users : List (ℕ × UserRow)
  pub next_id : ℕ
  pub log_entry_records : List LogEntry
  pub email_verification_tokens : List EmailToken

-- The row of a username, of which there is at most one: the column has a unique index.
unfoldable pub row_named : String → List (ℕ × UserRow) → Option (ℕ × UserRow)
row_named username [] = none
row_named username ((id, row) ∷ rows) =
    if row.username == username then some (id, row) else row_named username rows

-- AddUser: the statement fails on the unique index.
unfoldable pub add_user : ℕ → User → Tables → Result (Tables × User)
unfolding row_named
add_user now user t =
    if is_some (row_named user.username t.users)
    then err db_failed
    else ok (
      record t {
        users =
            insert t.next_id
              (record {
                username = user.username;
                language = user.language;
                coredata = some user.secrets;
                last_seen = now;
                pin = fresh_pin;
                delete_on = none;
              })
              t.users;
        next_id = suc t.next_id;
      },
      record user { id = t.next_id },
    )

-- user: rows without core data are not found.
unfoldable pub user : String → Tables → Result User
unfolding row_named
user username t = or_err (row_named username t.users) user_not_found >>= λ (id, row).
    or_err row.coredata user_not_found >>= λ secrets.
    ok (record { username = row.username; language = row.language; secrets = secrets; id = id })

-- An update of the row with this identifier, that has to be there.
unfoldable pub update_row : ℕ → (UserRow → UserRow) → Tables → Result Tables
update_row id change t = or_err (lookup id t.users) user_not_found >>= λ row.
    ok (record t { users = insert id (change row) t.users })

-- updateUser: the username does not change, and no other row has it.
unfoldable pub update_user : User → Tables → Result Tables
unfolding update_row
update_user user t =
    update_row user.id
      (λ row. record row {
        username = user.username;
        language = user.language;
        coredata = some user.secrets;
      })
      t

-- The row is written back only if the try is allowed.
reserve_in : ℕ → ℕ → ℕ → UserRow → Tables → Result (Tables × PinTry)
reserve_in now later id row t =
    if is_some row.coredata
    then (let (pin, answer) = reserve_row now later row.pin in
        ok (
          (if answer.allowed
              then record t { users = insert id (record row { pin = pin }) t.users }
              else t),
          answer,
        ))
    else err user_not_found

-- reservePinTry
unfoldable pub reserve_pin_try : ℕ → ℕ → User → Tables → Result (Tables × PinTry)
unfolding reserve_in
reserve_pin_try now later user t =
    or_err (lookup user.id t.users) user_not_found >>= λ row. reserve_in now later user.id row t

-- resetPinTries
unfoldable pub reset_pin_tries : User → Tables → Result Tables
unfolding update_row
reset_pin_tries user t = update_row user.id (λ row. record row { pin = fresh_pin }) t

-- setSeen
unfoldable pub set_seen : ℕ → User → Tables → Result Tables
unfolding update_row
set_seen now user t =
    update_row user.id
      (λ row. record row {
        last_seen = now;
        delete_on = if is_some row.coredata then none else row.delete_on;
      })
      t

-- addLog
unfoldable pub add_log : ℕ → User → EventType → Option ℕ → Tables → Result Tables
add_log now user event param t = ok (record t {
  log_entry_records =
      record { time = now; event = event; param = param; user_id = user.id } ∷ t.log_entry_records;
})

-- The tokens for an address that expire after the given time.
unfoldable pub unhandled_tokens : String → ℕ → List EmailToken → ℕ
unhandled_tokens email after [] = 0
unhandled_tokens email after (token ∷ tokens) =
    let rest = unhandled_tokens email after tokens in
    if token.email == email && ltb after token.expiry then suc rest else rest

-- addEmailVerification: the validity is in hours, and tokens of the last hour count.
unfoldable pub add_email_verification : ℕ → User → String → String → ℕ → Tables → Result Tables
unfolding unhandled_tokens
add_email_verification now user email token validity t =
    let expiry = now + validity * 3600 in
    if leb 3 (unhandled_tokens email (expiry - 3600) t.email_verification_tokens)
    then err too_many_tokens
    else ok (record t {
      email_verification_tokens =
          record { token = token; email = email; user_id = user.id; expiry = expiry }
          ∷ t.email_verification_tokens;
    })

-- postgresDB as a DB
abbrev pub postgres_db : Db Tables
postgres_db = record {
  add_user = add_user;
  user = user;
  update_user = update_user;
  reserve_pin_try = reserve_pin_try;
  reset_pin_tries = reset_pin_tries;
  set_seen = set_seen;
  add_log = add_log;
  add_email_verification = add_email_verification;
}
