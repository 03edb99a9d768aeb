-- ===== src/Accounts/Resets.antt =====
-- apps/api/src/auth/auth.service.ts: what a reset of a password does to tokens and sessions.
use gist_agent.Base.{
  ℕ, String, Option, none, some, true, false, not, ◌&&◌, ◌||◌, ◌==◌, ==_refl, ==_iff, eq_refl, ltb,
  str_eq, if◌then◌else◌, is_none, is_some, first_where-update_where, update_where, Option-cases,
  inl, inr, ok, err, ok-injective, passes, ◌≡◌, refl, sym, ap, subst, ◌∙◌, arith,
}
use gist_agent.Base.Text.{trim, units}
use gist_agent.Accounts.{
  Account, ResetToken, Tables, Services, bad_request, unauthorized, by_id, found_user, find_by_id,
  token_at, with_hash, use_token, reset_with, reset_password, user_of,
}

-- A reset that succeeds had a token that was there, and these tables are what it leaves.
record ResetBy (now : ℕ) (hash key : String) (db t : Tables) : Type 0 where
  row : ResetToken
  found : token_at key db.tokens ≡ some row
  accounts : t.accounts ≡ update_where (λ a. a.id == row.user_id) (with_hash hash) db.accounts
  tokens :
      t.tokens
      ≡ update_where (λ x. x.user_id == row.user_id && is_none x.used_at) (use_token now) db.tokens

reset_with-ResetBy :
    (now : ℕ) (hash key : String) (db : Tables) (o : Option ResetToken) {t : Tables}
    → token_at key db.tokens ≡ o
    → reset_with now hash o db ≡ ok t
    → ResetBy now hash key db t
unfolding reset_with
reset_with-ResetBy now hash key db none e h = cc
reset_with-ResetBy now hash key db (some r) e h =
    let (valid, q) = passes (not (ltb now r.expires_at) || is_some r.used_at) bad_request _ h in
    subst (λ x. ResetBy now hash key db x) (ok-injective q)
      (record { row = r; found = e; accounts = refl; tokens = refl })

reset_password-ResetBy :
    (c : Services) (now : ℕ) (hash token password : String) (db : Tables) {t : Tables}
    → reset_password c now hash token password db ≡ ok t
    → ResetBy now hash (c.sha256 token) db t
unfolding reset_password
reset_password-ResetBy c now hash token password db h =
    let (given, q) = passes (str_eq (trim token) "" || ltb (units password) 6) bad_request _ h in
    reset_with-ResetBy now hash (c.sha256 token) db _ refl q

-- The user whose token this is.
abbrev pub owner_in : Option ResetToken → Option ℕ
owner_in none = none
owner_in (some r) = some r.user_id

abbrev pub owner_of : Services → String → Tables → Option ℕ
owner_of c token db = owner_in (token_at (c.sha256 token) db.tokens)

used_fails :
    (now : ℕ) (hash : String) (r : ResetToken) (db : Tables) {t : Tables}
    → is_some r.used_at ≡ true
    → reset_with now hash (some r) db ≡ ok t
    → ⊥
unfolding reset_with
used_fails now hash r db u h =
    let (valid, q) = passes (not (ltb now r.expires_at) || is_some r.used_at) bad_request _ h in
    absurd (ground arith)

is_used :
    (now : ℕ) (x : ResetToken) (user : ℕ)
    → x.user_id ≡ user
    → is_some (if x.user_id == user && is_none x.used_at then use_token now x else x).used_at ≡ true
is_used now x user e =
    let same : (x.user_id == user) ≡ true = (==_iff x.user_id user).1 e in
    elim (Option-cases x.used_at) [ inl n ↦ rw (same, n) refl | inr (k, n) ↦ rw (same, n) refl ]

-- A reset uses up every token of its user: after it, no reset with that token or with another one that
-- the user had been sent succeeds, whenever it comes and whatever the new password.
pub reset_password-once :
    (c : Services) (now : ℕ) (hash token password : String) (db t : Tables)
    → reset_password c now hash token password db ≡ ok t
    → (other : String) → owner_of c other db ≡ owner_of c token db
    → (later : ℕ) (hash' password' : String) (v : Tables)
    → ¬ (reset_password c later hash' other password' t ≡ ok v)
unfolding reset_password
reset_password-once c now hash token password db t h other same later hash' password' v k =
    let r = reset_password-ResetBy c now hash token password db h in
    let (given, q) = passes (str_eq (trim other) "" || ltb (units password') 6) bad_request _ k in
    elim (Option-cases (token_at (c.sha256 other) db.tokens)) [
      | inl n ↦
          let clash : none ≡ some (r.row).user_id =
            sym (ap owner_in n) ∙ same ∙ ap owner_in r.found in
          absurd cc
      | inr (x, n) ↦
          let owners : some x.user_id ≡ some (r.row).user_id =
            sym (ap owner_in n) ∙ same ∙ ap owner_in r.found in
          let theirs : x.user_id ≡ (r.row).user_id = cc in
          let now_row =
            if x.user_id == (r.row).user_id && is_none x.used_at then use_token now x else x in
          let moved : token_at (c.sha256 other) t.tokens ≡ some now_row =
            ap (token_at (c.sha256 other)) r.tokens
            ∙ first_where-update_where (λ y. str_eq y.token (c.sha256 other))
                (λ y. y.user_id == (r.row).user_id && is_none y.used_at) (use_token now) (λ y. refl)
                db.tokens n in
          used_fails later hash' now_row t (is_used now x (r.row).user_id theirs)
            (subst (λ o. reset_with later hash' o t ≡ ok v) moved q)
    ]

-- After a reset, a session that was opened with the old password is refused, and one that is opened
-- with the new one is accepted: where the user has an account and the hashes of the two stored hashes
-- differ, for the user to whom the token was sent.
pub reset_password-sessions :
    (c : Services) (now : ℕ) (hash token password : String) (db t : Tables)
    → reset_password c now hash token password db ≡ ok t
    → (a : Account) → owner_of c token db ≡ some a.id
    → by_id a.id db.accounts ≡ some a
    → str_eq (c.sha256 a.password_hash) (c.sha256 hash) ≡ false
    → (find_by_id c a.id (some (c.sha256 a.password_hash)) t ≡ err unauthorized)
      × (find_by_id c a.id (some (c.sha256 hash)) t ≡ ok (user_of a))
unfolding find_by_id found_user
reset_password-sessions c now hash token password db t h a owns found differ =
    let r = reset_password-ResetBy c now hash token password db h in
    let owners : some (r.row).user_id ≡ some a.id = sym (ap owner_in r.found) ∙ owns in
    let theirs : (r.row).user_id ≡ a.id = cc in
    let moved : by_id a.id t.accounts ≡ some (with_hash hash a) =
      ap (by_id a.id) r.accounts
      ∙ first_where-update_where (λ x. x.id == a.id) (λ x. x.id == (r.row).user_id) (with_hash hash)
          (λ x. refl) db.accounts found
      ∙ rw (theirs, ==_refl a.id) refl in
    (rw (moved, find_by_id, differ) refl, rw (moved, find_by_id, eq_refl (c.sha256 hash)) refl)
