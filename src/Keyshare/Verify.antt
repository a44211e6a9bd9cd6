-- ===== src/Keyshare/Verify.antt =====
-- Authentication with a pin in server/keyshare/keyshareserver/server.go and legacy.go: /users/verify_start,
-- /users/verify/pin, /users/verify/pin_challengeresponse, /users/change/pin and /users/register_publickey.
use irmago.Prelude.{
  ℕ, Bool, not, Option, none, some, List, String, ◌==◌, nat_eq, string_eq, if◌then◌else◌,
}
use irmago.Prelude.Outcome.{Outcome, ok, err, panic, or_err}
use irmago.Keyshare.Secrets.{CoreError, invalid_pin, UserSecrets}
use irmago.Keyshare.Core.{Library}
use irmago.Keyshare.Operations.{
  generate_challenge, validate_auth, validate_auth_legacy, change_pin, change_pin_legacy,
  set_user_public_key,
}
use irmago.Keyshare.Pin.{PinTry}
use irmago.Keyshare.Users.{
  Db, User, core_error, anonymous, pin_check_refused, pin_check_success, pin_check_failed,
  pin_check_blocked, Result,
}
use irmago.Keyshare.Handler.{
  Server, Handler, ◌>>?◌, attempt, give, ignoring, on_core, in_core, on_db, exec_db, Reply, refused,
  invalid_request, write_error, serve,
}

-- KeysharePinStatus: its status and its message, with what the message is the text of.
pub data PinStatus : Type 0 where
  error : ℕ → PinStatus
  failure : ℕ → PinStatus
  success : String → PinStatus

-- KeyshareAuthResponse: a JWT, or the legacy fields.
pub record AuthResponse : Type 0 where
  pub auth_response_jwt : String
  pub username : String
  pub pin : List ℕ

-- KeyshareChangePin
pub record ChangePin : Type 0 where
  pub change_pin_jwt : String
  pub username : String
  pub old_pin : List ℕ
  pub new_pin : List ℕ

-- KeyshareKeyRegistrationClaims, with the key that the token was verified with.
pub record KeyRegistration : Type 0 where
  pub username : String
  pub pin : List ℕ
  pub public_key : List ℕ

-- The usernames in tokens that are not verified yet, and the claims of a key registration.
pub record Unverified : Type 0 where
  pub auth_request_username : String → Option String
  pub auth_response_username : String → Option String
  pub change_pin_username : String → Option String
  pub key_registration : String → Option KeyRegistration

-- What is drawn during a request.
pub record Draw : Type 0 where
  pub now : ℕ
  pub later : ℕ
  pub id : List ℕ
  pub nonce : List ℕ

-- After a wrong pin, without a log.
unfoldable pub wrong_pin : PinTry → PinStatus
wrong_pin t = if t.tries == 0 then error t.wait else failure t.tries

module _ {S : Type 0} (lib : Library) (db : Db S) (unverified : Unverified) where
  refuse_pin_try : ℕ → User → PinTry → Handler S PinTry
  refuse_pin_try now user t =
      if t.allowed
      then give (ok t)
      else exec_db (db.add_log now user pin_check_refused none) >>? λ _. give (ok t)

  -- reservePinCheck
  unfoldable pub reserve_pin_check : Draw → User → Handler S PinTry
  unfolding refuse_pin_try
  reserve_pin_check d user =
      on_db (db.reserve_pin_try d.now d.later user) >>? refuse_pin_try d.now user

  -- A pin check: nothing more is done if it is not allowed.
  unfoldable pub if_allowed : Draw → User → (PinTry → Handler S PinStatus) → Handler S PinStatus
  unfolding reserve_pin_check
  if_allowed d user check =
      reserve_pin_check d user >>? λ t. if t.allowed then check t else give (ok (error t.wait))

  -- The end of verifyAuth.
  unfoldable pub verified : ℕ → User → PinTry → Result String → Handler S PinStatus
  verified now user t (ok jwt) = ignoring (exec_db (db.reset_pin_tries user)) >>? λ _.
      ignoring (exec_db (db.set_seen now user)) >>? λ _.
      exec_db (db.add_log now user pin_check_success none) >>? λ _. give (ok (success jwt))
  verified now user t (err (core_error invalid_pin)) =
      exec_db (db.add_log now user pin_check_failed (some t.tries)) >>? λ _.
      if t.tries == 0
      then (exec_db (db.add_log now user pin_check_blocked (some t.wait)) >>? λ _.
          give (ok (error t.wait)))
      else give (ok (failure t.tries))
  verified now user t (err e) = give (err e)
  verified now user t panic = give panic

  validate : ℕ → User → AuthResponse → Handler S String
  validate now user msg =
      if msg.auth_response_jwt == ""
      then in_core (validate_auth_legacy lib now user.secrets msg.pin)
      else on_core (validate_auth lib now user.secrets msg.auth_response_jwt)

  -- verifyAuth
  unfoldable pub verify_auth : Draw → User → AuthResponse → Handler S PinStatus
  unfolding if_allowed validate verified
  verify_auth d user msg =
      if_allowed d user (λ t. attempt (validate d.now user msg) (verified d.now user t))

  -- The end of updatePin, updatePinLegacy and registerPublicKey: new secrets are written.
  unfoldable pub updated : User → PinTry → Result (String × UserSecrets) → Handler S PinStatus
  unfolding wrong_pin
  updated user t (ok (jwt, secrets)) = ignoring (exec_db (db.reset_pin_tries user)) >>? λ _.
      exec_db (db.update_user (record user { secrets = secrets })) >>? λ _. give (ok (success jwt))
  updated user t (err (core_error invalid_pin)) = give (ok (wrong_pin t))
  updated user t (err e) = give (err e)
  updated user t panic = give panic

  without_jwt : Outcome CoreError UserSecrets → Outcome CoreError (String × UserSecrets)
  without_jwt (ok secrets) = ok ("", secrets)
  without_jwt (err e) = err e
  without_jwt panic = panic

  -- updatePin
  unfoldable pub update_pin : Draw → User → String → Handler S PinStatus
  unfolding if_allowed updated without_jwt
  update_pin d user jwt = if_allowed d user (λ t.
      attempt (in_core (λ c. without_jwt (change_pin lib d.now d.id d.nonce user.secrets jwt c)))
        (updated user t))

  -- updatePinLegacy
  unfoldable pub update_pin_legacy : Draw → User → List ℕ → List ℕ → Handler S PinStatus
  unfolding if_allowed updated without_jwt
  update_pin_legacy d user old_pin new_pin = if_allowed d user (λ t.
      attempt
        (in_core
          (λ c. without_jwt (change_pin_legacy lib d.id d.nonce user.secrets old_pin new_pin c)))
        (updated user t))

  -- registerPublicKey
  unfoldable pub register_public_key : Draw → User → List ℕ → List ℕ → Handler S PinStatus
  unfolding if_allowed updated
  register_public_key d user pin pk = if_allowed d user (λ t.
      attempt (in_core (set_user_public_key lib d.now d.nonce user.secrets pin pk))
        (updated user t))

  fetch_user : String → Handler S User
  fetch_user username s = (s, db.user username s.db)

  -- The username in a token.
  username_in : Option String → Handler S String
  username_in o = give (or_err o anonymous)

  -- handleVerifyStart
  unfoldable pub handle_verify_start :
      ℕ → List ℕ → Option String → Server S → Server S × Reply (List ℕ)
  unfolding fetch_user username_in
  handle_verify_start now challenge body = serve body write_error (λ jwt.
      username_in (unverified.auth_request_username jwt) >>? λ username.
      fetch_user username >>? λ user.
      on_core (generate_challenge lib now challenge user.secrets jwt))

  -- The user and the pin check of a request.
  check_user : Draw → AuthResponse → String → Handler S PinStatus
  unfolding fetch_user verify_auth
  check_user d msg username = fetch_user username >>? λ user. verify_auth d user msg

  -- handleVerify, at the path of the challenge-response protocol or at the other one.
  unfoldable pub handle_verify :
      Draw → Bool → Option AuthResponse → Server S → Server S × Reply PinStatus
  unfolding check_user username_in
  handle_verify d at_challenge_response none s = (s, refused invalid_request)
  handle_verify d at_challenge_response (some msg) s =
      if msg.auth_response_jwt == ""
      then (if at_challenge_response
          then (s, refused invalid_request)
          else serve (some msg) write_error (λ msg. check_user d msg msg.username) s)
      else (if not at_challenge_response
          then (s, refused invalid_request)
          else serve (some msg) write_error
              (λ msg.
                username_in (unverified.auth_response_username msg.auth_response_jwt)
                >>? check_user d msg)
              s)

  -- handleChangePinLegacy
  unfoldable pub handle_change_pin_legacy : Draw → ChangePin → Server S → Server S × Reply PinStatus
  unfolding fetch_user update_pin_legacy
  handle_change_pin_legacy d msg =
      serve (some msg) write_error (λ msg.
        fetch_user msg.username >>? λ user. update_pin_legacy d user msg.old_pin msg.new_pin)

  -- handleChangePin: a token without claims is a bad request.
  unfoldable pub handle_change_pin : Draw → Option ChangePin → Server S → Server S × Reply PinStatus
  unfolding fetch_user update_pin handle_change_pin_legacy
  handle_change_pin d none s = (s, refused invalid_request)
  handle_change_pin d (some msg) s =
      if msg.change_pin_jwt == ""
      then handle_change_pin_legacy d msg s
      else serve (unverified.change_pin_username msg.change_pin_jwt) write_error
          (λ username. fetch_user username >>? λ user. update_pin d user msg.change_pin_jwt) s

  registration_of : Option String → Option KeyRegistration
  registration_of none = none
  registration_of (some jwt) = unverified.key_registration jwt

  -- handleRegisterPublicKey
  unfoldable pub handle_register_public_key :
      Draw → Option String → Server S → Server S × Reply PinStatus
  unfolding fetch_user register_public_key registration_of
  handle_register_public_key d body = serve (registration_of body) write_error (λ claims.
      fetch_user claims.username >>? λ user.
      register_public_key d user claims.pin claims.public_key)
