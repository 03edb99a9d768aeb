-- ===== src/Tests/Logins.antt =====
-- The theorems on accounts at concrete rows: one account, with two reset tokens.
use gist_agent.Base.{if◌then◌else◌, ltb, ℕ, String, none, some, [], ◌∷◌, str_eq, ok, err, ◌≡◌, refl}
use gist_agent.Base.Text.{concat, trim, trim_start, trim_end, is_space, units}
use gist_agent.Accounts.{
  Account, ResetToken, Tables, Services, Session, unauthorized, normal_email, name_for, local_part,
  insert_account, found_user, find_by_id, claims_of, register, login, reset_with, reset_password,
  user_of,
}
use gist_agent.Accounts.Resets.{reset_password-once, reset_password-sessions}
use gist_agent.Accounts.Sessions.{register-login}

abbrev services : Services
services = record {
  sha256 = λ s. concat "h" s;
  password_matches = λ p h. str_eq (concat "b" p) h;
  sign = λ now c. if ltb now 50 then c.email else "later";
  lower = λ s. s;
}

abbrev ann : Account
ann = record { id = 1; email = "a@b.c"; password_hash = "bold"; name = "a"; created_at = 5 }

abbrev sent : ℕ → String → ResetToken
sent id token = record { id = id; user_id = 1; token = token; expires_at = 100; used_at = none }

abbrev before : Tables
before = record { accounts = ann ∷ []; tokens = sent 1 "hone" ∷ sent 2 "htwo" ∷ [] }

abbrev after : Tables
after = record {
  accounts = record ann { password_hash = "bnew" } ∷ [];
  tokens =
      record (sent 1 "hone") { used_at = some 50 }
      ∷ record (sent 2 "htwo") { used_at = some 50 }
      ∷ [];
}

resets : reset_password services 50 "bnew" "one" "secret" before ≡ ok after
unfolding reset_password reset_with trim trim_start trim_end is_space units
resets = refl

reset_password-once_example :
    ¬ (reset_password services 60 "bthird" "two" "secret" after ≡ ok after)
reset_password-once_example =
    reset_password-once services 50 "bnew" "one" "secret" before after resets "two" refl 60 "bthird"
      "secret" after

reset_password-sessions_example :
    (find_by_id services 1 (some "hbold") after ≡ err unauthorized)
    × (find_by_id services 1 (some "hbnew") after ≡ ok (user_of ann))
reset_password-sessions_example =
    reset_password-sessions services 50 "bnew" "one" "secret" before after resets ann refl refl refl

abbrev nobody : Tables
nobody = record { accounts = []; tokens = [] }

abbrev session : Session
session = (user_of ann, "a@b.c")

abbrev registered : Tables
registered = record { accounts = ann ∷ []; tokens = [] }

registers : register services 1 5 "bold" " a@b.c" "" nobody ≡ ok (session, registered)
unfolding register normal_email name_for local_part insert_account find_by_id found_user claims_of
    trim trim_start trim_end is_space
registers = refl

same_email : normal_email services "a@b.c " ≡ normal_email services " a@b.c"
unfolding normal_email trim trim_start trim_end is_space
same_email = refl

register-login_example :
    (login services 90 "a@b.c " "old" registered ≡ ok (user_of ann, "later"))
    × ◌≡◌ {A = String} "a@b.c" "a@b.c"
    × (find_by_id services 1 (some "hbold") registered ≡ ok (user_of ann))
unfolding normal_email trim trim_start trim_end is_space
register-login_example =
    register-login services 1 5 "bold" " a@b.c" "" nobody session registered registers 90 "a@b.c "
      "old" same_email refl
