-- ===== src/Accounts/Sessions.antt =====
-- apps/api/src/auth/auth.service.ts: an account that is registered, and its first login.
use gist_agent.Base.{
  ℕ, String, Option, none, some, true, false, ◌||◌, List, [], ◌∷◌, ◌++◌, ◌==◌, ==_refl, eq_refl,
  str_eq, is_some, ok, >>=-eq-ok, ok-injective, passes, ◌≡◌, refl, sym, ap, subst, ◌∙◌, arith,
}
use gist_agent.Accounts.{
  Account, Claims, Tables, Services, Session, email_taken, unique_violation, by_id, by_email,
  user_of, normal_email, name_for, found_user, find_by_id, insert_account, claims_of, register,
  login, login_as,
}

by_email-append :
    (email : String) (rows : List Account) (a : Account)
    → by_email email rows ≡ none
    → str_eq a.email email ≡ true
    → by_email email (rows ++ a ∷ []) ≡ some a
by_email-append email [] a h e = rw e refl
by_email-append email (x ∷ xs) a h e = ground (arith, by_email-append email xs a)

by_id-append :
    (id : ℕ) (rows : List Account) (a : Account)
    → by_id id rows ≡ none
    → (a.id == id) ≡ true
    → by_id id (rows ++ a ∷ []) ≡ some a
by_id-append id [] a h e = rw e refl
by_id-append id (x ∷ xs) a h e = ground (arith, by_id-append id xs a)

is_none_of : {A : Type 0} (o : Option A) → is_some o ≡ false → o ≡ none
is_none_of none h = refl
is_none_of (some a) h = cc

abbrev new_account : Services → ℕ → ℕ → String → String → String → Account
new_account c id now hash email name = record {
  id = id;
  email = normal_email c email;
  password_hash = hash;
  name = name_for name email;
  created_at = now;
}

-- What the tokens of a new account sign.
abbrev pub new_claims : Services → ℕ → String → String → Claims
new_claims c id hash email = record {
  sub = id;
  email = normal_email c email;
  credentials_version = c.sha256 hash;
}

-- Who registers can log in, whatever the case of the email's letters and the space around it, as far as
-- the normal form is the same: after a registration, a login with that email and the password whose hash
-- was stored gives the same user. Both tokens sign, each with the time at which it is made, the new
-- identifier, the normal form of the email and the version of the stored hash, and a request with that
-- version is the user's.
pub register-login :
    (c : Services) (id now : ℕ) (hash email name : String) (db : Tables) (session : Session)
    (t : Tables)
    → register c id now hash email name db ≡ ok (session, t)
    → (later : ℕ) (again password : String) → normal_email c again ≡ normal_email c email
    → c.password_matches password hash ≡ true
    → (login c later again password t ≡ ok (session.0, c.sign later (new_claims c id hash email)))
      × (session.1 ≡ c.sign now (new_claims c id hash email))
      × (find_by_id c id (some (new_claims c id hash email).credentials_version) t ≡ ok session.0)
unfolding register login login_as find_by_id found_user insert_account claims_of
register-login c id now hash email name db session t h later again password same matches =
    let a = new_account c id now hash email name in
    let (free, h1) =
      passes (is_some (by_email (normal_email c email) db.accounts)) email_taken _ h in
    let (added, h2, h3) = >>=-eq-ok (insert_account a db) _ h1 in
    let (new, h4) =
      passes (is_some (by_id a.id db.accounts) || is_some (by_email a.email db.accounts))
        unique_violation (ok (record { accounts = db.accounts ++ a ∷ []; tokens = db.tokens }))
        h2 in
    let (user, h5, h6) = >>=-eq-ok (find_by_id c id none added) _ h3 in
    let rows : added.accounts ≡ db.accounts ++ a ∷ [] =
      sym (ap (λ x. x.accounts) (ok-injective h4)) in
    let mine : by_id id added.accounts ≡ some a =
      ap (by_id id) rows
      ∙ by_id-append id db.accounts a (is_none_of _ (ground arith)) (==_refl id) in
    let found : by_email (normal_email c again) added.accounts ≡ some a =
      ap (λ e. by_email e added.accounts) same
      ∙ ap (by_email (normal_email c email)) rows
      ∙ by_email-append (normal_email c email) db.accounts a (is_none_of _ free)
          (eq_refl (normal_email c email)) in
    let is_user : user_of a ≡ user = ok-injective (sym (ap (found_user c none) mine) ∙ h5) in
    subst
      (λ x.
        (login c later again password x.1 ≡ ok (x.0.0, c.sign later (new_claims c id hash email)))
        × (x.0.1 ≡ c.sign now (new_claims c id hash email))
        × (find_by_id c id (some (c.sha256 hash)) x.1 ≡ ok x.0.0))
      (ok-injective h6)
      (
        ap (login_as c later password) found
            ∙ rw matches (ap (λ u. ok (u, c.sign later (new_claims c id hash email))) is_user),
        sym (ap (λ u. c.sign now (claims_of c u hash)) is_user),
        ap (found_user c (some (c.sha256 hash))) mine
            ∙ rw (eq_refl (c.sha256 hash)) (ap ok is_user),
      )
