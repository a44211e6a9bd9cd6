-- ===== src/Keyshare/Register.antt =====
-- Registration in server/keyshare/keyshareserver/server.go: /client/register, and the renewal of a keyshare
-- attribute. Mail, the mail records of a domain, and the IRMA server that issues the attribute are parameters.
use irmago.Prelude.{
  ℕ, Bool, not, ◌||◌, Option, none, some, List, String, ◌==◌, string_eq, is_some, if◌then◌else◌,
}
use irmago.Prelude.Int.{ℤ}
use irmago.Prelude.Outcome.{ok, err, ensure, or_err, ◌>>=◌}
use irmago.Keyshare.Core.{Library}
use irmago.Keyshare.Operations.{new_user_secrets}
use irmago.Keyshare.Users.{
  Db, User, KeyshareError, anonymous, invalid_email, too_many_tokens, Result,
}
use irmago.Keyshare.Handler.{
  Server, Handler, ◌>>?◌, give, in_core, on_db, exec_db, Reply, RemoteError, too_many_requests,
  write_error, serve,
}

-- KeyshareEnrollmentData
pub record EnrollmentData : Type 0 where
  pub pin : List ℕ
  pub email : Option String
  pub language : String
  pub public_key : Option (List ℕ)

-- KeyshareEnrollment
pub record Enrollment : Type 0 where
  pub enrollment_jwt : String
  pub data_without_jwt : EnrollmentData

-- What registration uses of other programs and of the configuration.
pub record Environment : Type 0 where
  pub enrollment_claims : String → Option (EnrollmentData × List ℕ)
  pub email_server : String
  pub email_token_validity : ℕ
  pub has_mx_record : String → Bool
  pub sends_email : String → String → Bool
  pub start_issuance : String → Option String

-- What is drawn during a registration.
pub record RegisterDraw : Type 0 where
  pub now : ℕ
  pub username : String
  pub secret : ℤ
  pub id : List ℕ
  pub nonce : List ℕ
  pub token : String

-- parseLegacyRegistrationMessage
unfoldable pub parse_legacy_registration_message :
    EnrollmentData → Result (EnrollmentData × Option (List ℕ))
parse_legacy_registration_message d =
    ensure (not (is_some d.public_key)) anonymous >>= λ _. ok (d, none)

signed_registration : Option (EnrollmentData × List ℕ) → Result (EnrollmentData × Option (List ℕ))
signed_registration none = err anonymous
signed_registration (some (d, pk)) = ok (d, some pk)

-- The mail address to write to, if there is one.
unfoldable pub address : Environment → EnrollmentData → Option String
address env d = elim d.email [
  | none ↦ none
  | some email ↦ if email == "" || env.email_server == "" then none else some email
]

-- handleRegister
unfoldable pub register_error : KeyshareError → RemoteError
register_error too_many_tokens = too_many_requests
register_error e = write_error e

module _ {S : Type 0} (lib : Library) (db : Db S) (env : Environment) where
  -- parseRegistrationMessage
  unfoldable pub parse_registration_message : Enrollment → Result (EnrollmentData × Option (List ℕ))
  unfolding parse_legacy_registration_message signed_registration
  parse_registration_message msg =
      if msg.enrollment_jwt == ""
      then parse_legacy_registration_message msg.data_without_jwt
      else signed_registration (env.enrollment_claims msg.enrollment_jwt)

  -- sendRegistrationEmail
  unfoldable pub send_registration_email :
      RegisterDraw → User → Option String → Handler S (Unit {0})
  send_registration_email d user none = give (ok tt)
  send_registration_email d user (some email) =
      give (ensure (env.has_mx_record email) invalid_email) >>? λ _.
      exec_db (db.add_email_verification d.now user email d.token env.email_token_validity) >>? λ _.
      give (ensure (env.sends_email email d.token) anonymous)

  -- register: the account stays when a later step fails.
  unfoldable pub register : RegisterDraw → Enrollment → Handler S String
  unfolding parse_registration_message send_registration_email address
  register d msg = give (parse_registration_message msg) >>? λ (enrollment, pk).
      in_core (new_user_secrets lib d.secret d.id d.nonce enrollment.pin pk) >>? λ secrets.
      on_db (
        db.add_user d.now (record {
          username = d.username;
          language = enrollment.language;
          secrets = secrets;
          id = 0;
        }))
      >>? λ user. send_registration_email d user (address env enrollment) >>? λ _.
          give (or_err (env.start_issuance d.username) anonymous)

  -- handleRegister
  unfoldable pub handle_register :
      RegisterDraw → Option Enrollment → Server S → Server S × Reply String
  unfolding register register_error
  handle_register d body = serve body register_error (register d)
