-- ===== src/Keyshare/Handler.antt =====
-- The state of the keyshare server of server/keyshare/keyshareserver/server.go, the steps its handlers are
-- made of, and what they answer: WriteError of server/keyshare/errors.go.
use irmago.Prelude.{Option, none, some}
use irmago.Prelude.Outcome.{Outcome, ok, err, panic}
use irmago.Keyshare.Secrets.{
  CoreError, pin_too_long, invalid_challenge, invalid_jwt, key_not_found,
  challenge_response_required, wrong_challenge,
}
use irmago.Keyshare.Core.{Core}
use irmago.Keyshare.Store.{SessionStore}
use irmago.Keyshare.Users.{
  KeyshareError, core_error, user_not_found, invalid_email, invalid_email_domain, Result,
}

-- Server: the core, the sessions and the database.
pub record Server (S : Type 0) : Type 0 where
  pub core : Core
  pub store : SessionStore
  pub db : S

abbrev pub Handler : Type 0 → Type 0 → Type 0
Handler S A = Server S → Server S × Result A

abbrev proceed : {S A B : Type 0} → Server S × Result A → (A → Handler S B) → Server S × Result B
proceed (s, ok a) next = next a s
proceed (s, err e) next = (s, err e)
proceed (s, panic) next = (s, panic)

infixl 5 ◌>>?◌
abbrev pub ◌>>?◌ : {S A B : Type 0} → Handler S A → (A → Handler S B) → Handler S B
(m >>? next) s = proceed (m s) next

-- Go on with the result of a step, whatever it is.
abbrev pub attempt : {S A B : Type 0} → Handler S A → (Result A → Handler S B) → Handler S B
attempt m next s = let (s', result) = m s in next result s'

-- A step that does not change the server.
abbrev pub give : {S A : Type 0} → Result A → Handler S A
give result s = (s, result)

-- The error of a step that is logged and forgotten.
abbrev forget : {A : Type 0} → Result A → Result (Unit {0})
forget (ok a) = ok tt
forget (err e) = ok tt
forget panic = panic

abbrev pub ignoring : {S A : Type 0} → Handler S A → Handler S (Unit {0})
ignoring m = attempt m (λ result. give (forget result))

abbrev pub from_core : {A : Type 0} → Outcome CoreError A → Result A
from_core (ok a) = ok a
from_core (err e) = err (core_error e)
from_core panic = panic

-- An operation of the core.
abbrev pub on_core : {S A : Type 0} → (Core → Core × Outcome CoreError A) → Handler S A
on_core operation s =
    let (core, result) = operation s.core in (record s { core = core }, from_core result)

-- An operation of the core that only reads it.
abbrev pub in_core : {S A : Type 0} → (Core → Outcome CoreError A) → Handler S A
in_core operation s = (s, from_core (operation s.core))

abbrev written : {S A : Type 0} → Server S → Result (S × A) → Server S × Result A
written s (ok (db, a)) = (record s { db = db }, ok a)
written s (err e) = (s, err e)
written s panic = (s, panic)

-- An operation of the database, which stays when the operation fails.
abbrev pub on_db : {S A : Type 0} → (S → Result (S × A)) → Handler S A
on_db operation s = written s (operation s.db)

abbrev executed : {S : Type 0} → Server S → Result S → Server S × Result (Unit {0})
executed s (ok db) = (record s { db = db }, ok tt)
executed s (err e) = (s, err e)
executed s panic = (s, panic)

abbrev pub exec_db : {S : Type 0} → (S → Result S) → Handler S (Unit {0})
exec_db operation s = executed s (operation s.db)

-- The errors that the handlers answer with, of server/errors.go.
pub data RemoteError : Type 0 where
  user_not_registered internal invalid_request unexpected_request too_many_requests unknown :
      RemoteError

-- An answer; a panic is recovered by RecoverMiddleware.
pub data Reply (A : Type 0) : Type 0 where
  refused : RemoteError → Reply A
  replied : A → Reply A
  recovered : Reply A

-- WriteError, for the errors of the core
core_remote_error : CoreError → RemoteError
core_remote_error pin_too_long = invalid_request
core_remote_error invalid_challenge = invalid_request
core_remote_error invalid_jwt = invalid_request
core_remote_error key_not_found = invalid_request
core_remote_error challenge_response_required = unexpected_request
core_remote_error wrong_challenge = unexpected_request
core_remote_error _ = internal

-- WriteError
unfoldable pub write_error : KeyshareError → RemoteError
unfolding core_remote_error
write_error user_not_found = user_not_registered
write_error invalid_email = invalid_request
write_error invalid_email_domain = invalid_request
write_error (core_error e) = core_remote_error e
write_error _ = internal

abbrev pub answer : {A : Type 0} → (KeyshareError → RemoteError) → Result A → Reply A
answer explain (ok a) = replied a
answer explain (err e) = refused (explain e)
answer explain panic = recovered

-- A handler of a body that was parsed, or not.
abbrev pub serve :
    {S A B : Type 0}
    → Option B
    → (KeyshareError → RemoteError)
    → (B → Handler S A)
    → Server S
    → Server S × Reply A
serve none explain handler s = (s, refused invalid_request)
serve (some body) explain handler s =
    let (s', result) = handler body s in (s', answer explain result)
