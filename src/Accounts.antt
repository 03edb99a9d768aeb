-- ===== src/Accounts.antt =====
-- apps/api/src/auth/auth.service.ts: accounts, sessions and the reset of passwords, over the tables
-- `app_user` and `password_reset_token` of packages/database/src/schema.ts. Hashes, signatures, the
-- parsing of addresses and lower case are parameters; what is drawn (a salted hash, a random token, the
-- clock, a new identifier) is an argument.
pub mod Resets
pub mod Sessions
use gist_agent.Base.{
  ℕ, ◌+◌, String, Option, none, some, Bool, true, false, not, ◌&&◌, ◌||◌, List, [], ◌∷◌, ◌++◌, ◌==◌,
  ltb, str_eq, if◌then◌else◌, is_none, is_some, any, first_where, update_where, Result, ok, err,
  ◌>>=◌,
}
use gist_agent.Base.Text.{trim, units, cons, concat}
use Prim.Native.Char.{Char, code}
use Prim.Native.String

-- `app_user`.
pub record Account : Type 0 where
  pub id : ℕ
  pub email : String
  pub password_hash : String
  pub name : String
  pub created_at : ℕ

-- `password_reset_token`.
pub record ResetToken : Type 0 where
  pub id : ℕ
  pub user_id : ℕ
  pub token : String
  pub expires_at : ℕ
  pub used_at : Option ℕ

pub record Tables : Type 0 where
  pub accounts : List Account
  pub tokens : List ResetToken

-- `User`.
pub record User : Type 0 where
  pub id : ℕ
  pub email : String
  pub name : String
  pub created_at : ℕ

-- What a session token says.
pub record Claims : Type 0 where
  pub sub : ℕ
  pub email : String
  pub credentials_version : String

pub data AuthFault : Type 0 where
  email_taken unauthorized bad_request unique_violation configuration_missing : AuthFault

pub record Services : Type 0 where
  pub sha256 : String → String
  pub password_matches : (password hash : String) → Bool
  -- `jwt.sign` adds the time and the end of the session, seven days later, to the claims.
  pub sign : (now : ℕ) → Claims → String
  pub lower : String → String

abbrev pub user_of : Account → User
user_of a = record { id = a.id; email = a.email; name = a.name; created_at = a.created_at }

-- `email.toLowerCase().trim()`.
unfoldable pub normal_email : Services → String → String
unfolding trim
normal_email c email = trim (c.lower email)

-- `email.split('@')[0]`.
unfoldable pub local_part : String → String
local_part String.[] = ""
local_part (String.◌∷◌ ch s) = let rest = local_part s in if code ch == 64 then "" else cons ch rest

unfoldable pub name_for : String → String → String
unfolding trim local_part
name_for name email = if str_eq name "" then trim (local_part email) else trim name

abbrev pub by_email : String → List Account → Option Account
by_email email = first_where (λ a. str_eq a.email email)

abbrev pub by_id : ℕ → List Account → Option Account
by_id id = first_where (λ a. a.id == id)

unfoldable pub claims_of : Services → User → String → Claims
claims_of c u hash = record { sub = u.id; email = u.email; credentials_version = c.sha256 hash }

-- What `findById` makes of the row.
unfoldable pub found_user : Services → Option String → Option Account → Result AuthFault User
found_user c version none = err unauthorized
found_user c none (some a) = ok (user_of a)
found_user c (some v) (some a) =
    if str_eq v (c.sha256 a.password_hash) then ok (user_of a) else err unauthorized

-- `findById`.
unfoldable pub find_by_id : Services → ℕ → Option String → Tables → Result AuthFault User
unfolding found_user
find_by_id c id version db = found_user c version (by_id id db.accounts)

-- `INSERT INTO app_user`: the key and the email are unique.
unfoldable pub insert_account : Account → Tables → Result AuthFault Tables
insert_account a db =
    if is_some (by_id a.id db.accounts) || is_some (by_email a.email db.accounts)
    then err unique_violation
    else ok (record { accounts = db.accounts ++ a ∷ []; tokens = db.tokens })

abbrev pub Session : Type 0
Session = User × String

-- `register`; the new row's identifier and time, and the salted hash of the password, are drawn.
unfoldable pub register :
    Services
    → (id now : ℕ) → (hash : String) → (email name : String) → Tables
    → Result AuthFault (Session × Tables)
unfolding normal_email name_for insert_account find_by_id claims_of
register c id now hash email name db =
    if is_some (by_email (normal_email c email) db.accounts)
    then err email_taken
    else insert_account
        (record {
          id = id;
          email = normal_email c email;
          password_hash = hash;
          name = name_for name email;
          created_at = now;
        })
        db
      >>= λ added. find_by_id c id none added >>= λ user.
          ok ((user, c.sign now (claims_of c user hash)), added)

unfoldable pub login_as : Services → (now : ℕ) → String → Option Account → Result AuthFault Session
unfolding claims_of
login_as c now password none = err unauthorized
login_as c now password (some a) =
    if c.password_matches password a.password_hash
    then ok (user_of a, c.sign now (claims_of c (user_of a) a.password_hash))
    else err unauthorized

-- `login`; the clock is drawn.
unfoldable pub login :
    Services → (now : ℕ) → (email password : String) → Tables → Result AuthFault Session
unfolding normal_email login_as
login c now email password db =
    login_as c now password (by_email (normal_email c email) db.accounts)

-- The URL of the page: `new URL(...)` gives its protocol and origin, or throws.
pub record Address : Type 0 where
  pub protocol : String
  pub origin : String

pub record Mail : Type 0 where
  pub to : String
  pub url : String

pub record Site : Type 0 where
  pub is_production : Bool
  pub app_origin : String
  pub parse_url : String → Option Address

abbrev pub base_of : Site → Option String → String
base_of site none = if str_eq site.app_origin "" then "http://localhost:5173" else site.app_origin
base_of site (some origin) =
    if str_eq site.app_origin ""
    then (if str_eq origin "" then "http://localhost:5173" else origin)
    else site.app_origin

unfoldable pub mail_to : String → String → Option Address → Result AuthFault (Option Mail)
mail_to email token none = err bad_request
mail_to email token (some address) =
    if not (str_eq address.protocol "http:" || str_eq address.protocol "https:")
    then err bad_request
    else ok (
        some (record {
          to = email;
          url = concat address.origin (concat "/reset-password?token=" token);
        }))

unfoldable pub reset_mail : Site → Option String → String → String → Result AuthFault (Option Mail)
unfolding mail_to
reset_mail site origin email token =
    if site.is_production && str_eq site.app_origin ""
    then err configuration_missing
    else mail_to email token (site.parse_url (base_of site origin))

-- `requestReset`: the row is inserted by itself, before the address is checked. What it returns, or
-- throws, and the tables; `none` where nobody has the email.
unfoldable pub request_reset :
    Services
    → Site
    → (id now : ℕ) → (token : String) → (email : String) → Option String
    → Tables
    → Result AuthFault (Option Mail) × Tables
unfolding normal_email reset_mail
request_reset c site id now token email origin db =
    elim (by_email (normal_email c email) db.accounts) [
      | none ↦ (ok none, db)
      | some a ↦ (
        reset_mail site origin (normal_email c email) token,
        record {
          accounts = db.accounts;
          tokens =
              db.tokens
              ++ record {
                id = id;
                user_id = a.id;
                token = c.sha256 token;
                expires_at = now + 900000;
                used_at = none;
              }
                ∷ [];
        },
      )
    ]

-- The row of a token: the column is unique.
abbrev pub token_at : String → List ResetToken → Option ResetToken
token_at token = first_where (λ r. str_eq r.token token)

abbrev pub with_hash : String → Account → Account
with_hash hash a = record {
  id = a.id;
  email = a.email;
  password_hash = hash;
  name = a.name;
  created_at = a.created_at;
}

abbrev pub use_token : ℕ → ResetToken → ResetToken
use_token now r = record {
  id = r.id;
  user_id = r.user_id;
  token = r.token;
  expires_at = r.expires_at;
  used_at = some now;
}

unfoldable pub reset_with :
    (now : ℕ) → (hash : String) → Option ResetToken → Tables → Result AuthFault Tables
reset_with now hash none db = err bad_request
reset_with now hash (some r) db =
    if not (ltb now r.expires_at) || is_some r.used_at
    then err bad_request
    else ok (record {
      accounts = update_where (λ a. a.id == r.user_id) (with_hash hash) db.accounts;
      tokens =
          update_where (λ x. x.user_id == r.user_id && is_none x.used_at) (use_token now) db.tokens;
    })

-- `resetPassword`.
unfoldable pub reset_password :
    Services
    → (now : ℕ) → (hash : String) → (token password : String) → Tables
    → Result AuthFault Tables
unfolding trim units reset_with
reset_password c now hash token password db =
    if str_eq (trim token) "" || ltb (units password) 6
    then err bad_request
    else reset_with now hash (token_at (c.sha256 token) db.tokens) db
