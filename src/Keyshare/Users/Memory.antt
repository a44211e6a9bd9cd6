-- ===== src/Keyshare/Users/Memory.antt =====
-- memoryDB of server/keyshare/keyshareserver/memorydb.go.
use irmago.Prelude.{ℕ, true, List, String, nat_eq, string_eq, is_some, if◌then◌else◌}
use irmago.Prelude.Map.{lookup, insert}
use irmago.Prelude.Outcome.{ok, err, ◌>>=◌, or_err}
use irmago.Keyshare.Secrets.{UserSecrets}
use irmago.Keyshare.Pin.{PinTry}
use irmago.Keyshare.Users.{User, Db, Result, user_not_found, user_already_exists}

-- memoryDB
abbrev pub MemoryDb : Type 0
MemoryDb = List (String × UserSecrets)

-- AddUser
unfoldable pub add_user : ℕ → User → MemoryDb → Result (MemoryDb × User)
add_user now user db =
    if is_some (lookup user.username db)
    then err user_already_exists
    else ok (insert user.username user.secrets db, user)

-- user
unfoldable pub user : String → MemoryDb → Result User
user username db = or_err (lookup username db) user_not_found >>= λ secrets.
    ok (record { username = username; language = ""; secrets = secrets; id = 0 })

-- updateUser
unfoldable pub update_user : User → MemoryDb → Result MemoryDb
update_user user db = or_err (lookup user.username db) user_not_found >>= λ _.
    ok (insert user.username user.secrets db)

-- reservePinTry, which always allows one
unfoldable pub reserve_pin_try : ℕ → ℕ → User → MemoryDb → Result (MemoryDb × PinTry)
reserve_pin_try now later user db = ok (db, record { allowed = true; tries = 1; wait = 0 })

-- memoryDB as a DB: the other operations do nothing.
abbrev pub memory_db : Db MemoryDb
memory_db = record {
  add_user = add_user;
  user = user;
  update_user = update_user;
  reserve_pin_try = reserve_pin_try;
  reset_pin_tries = λ user db. ok db;
  set_seen = λ now user db. ok db;
  add_log = λ now user event param db. ok db;
  add_email_verification = λ now user email token validity db. ok db;
}
