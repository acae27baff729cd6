-- ===== src/Sessions.antt =====
-- services/session_service.py: browser sessions and the password reset, over the tables of
-- models/auth.py.
-- Argon2id and SHA-256 are parameters; the clock and the drawn tokens are arguments. A token is its
-- identifier and its length.
pub mod Tables
pub mod Access
pub mod Reset
mod Tests
use scrap_monitoring_backend.Base.{
  ℕ, zero, suc, ◌+◌, ◌-◌, ◌*◌, ◌/◌, ◌%◌, ◌≤◌, ◌<◌, min, max, ◌≡◌, refl, sym, ap, ◌∙◌, ◌≢◌, ◌↔◌, ◌⊎◌,
  inl, inr, Bool, true, false, not, ◌&&◌, ◌||◌, Option, none, some, List, [], ◌∷◌, ◌++◌, map, arith,
  ltb, leb, ◌==◌, if◌then◌else◌, ltb→lt, lt→ltb, leb→le, le→leb, ==_iff, ==_refl, Bool-cases,
  Option-cases, is_some, opt_eq, opt_eq→eq, bool_eq, Time, seconds, Ident, percent, length, take,
  drop, keep_if, find_first, any_of, All, length-append, length-drop, length-take, All-append,
  All-drop, Result, ok, err, ◌>>=◌, ◌>>◌, raise_if, is_ok, Returns, Returns-map,
}
use scrap_monitoring_backend.Base.Dict.{
  Dict, lookup, insert, erase, lookup-insert, lookup-insert_self, lookup-erase, Distinct,
  erase_absent, insert_absent, insert-Distinct, erase-Distinct,
}

pub data UserRole : Type 0 where
  administrator viewer : UserRole

-- A row of `auth_users`, apart from its key, the username.
pub record AuthUser : Type 0 where
  pub display_name : Ident
  pub role : UserRole
  pub password_hash : Ident
  pub is_active : Bool
  pub credential_version : ℕ

-- A row of `auth_sessions`, apart from its key, the token's hash.
pub record AuthSession : Type 0 where
  pub username : Ident
  pub credential_version : ℕ
  pub csrf_token : Ident
  pub expires_at : Time

pub record AuthStore : Type 0 where
  pub users : Dict AuthUser
  pub sessions : Dict AuthSession

pub record User : Type 0 where
  pub id : Ident
  pub display_name : Ident
  pub role : UserRole

pub record Session : Type 0 where
  pub user : User
  pub expires_at : Time
  pub csrf_token : Ident

pub record AuthenticatedUser : Type 0 where
  pub user : User
  pub credential_version : ℕ
  pub password_hash : Ident

pub record Token : Type 0 where
  pub id : Ident
  pub characters : ℕ

pub data AuthError : Type 0 where
  invalid_username_or_password password_length duplicate_token : AuthError

abbrev pub user_schema : Ident → AuthUser → User
user_schema username row = record {
  id = username;
  display_name = row.display_name;
  role = row.role;
}

-- `validate_new_password`, on the password's length.
abbrev pub valid_new_password : ℕ → Bool
valid_new_password characters = leb 12 characters && leb characters 1024

abbrev pub lifetime : Bool → ℕ
lifetime persistent = if persistent then seconds (30 * 24 * 3600) else seconds (24 * 3600)

-- `delete(AuthSession).where(expires_at <= now)`
unfoldable pub delete_expired : Time → Dict AuthSession → Dict AuthSession
delete_expired now [] = []
delete_expired now ((k, s) ∷ d) =
    if leb s.expires_at now then delete_expired now d else (k, s) ∷ delete_expired now d

-- `delete(AuthSession).where(username == ...)`
unfoldable pub delete_of_user : Ident → Dict AuthSession → Dict AuthSession
delete_of_user username [] = []
delete_of_user username ((k, s) ∷ d) =
    if s.username == username then delete_of_user username d else (k, s) ∷ delete_of_user username d

module _ (verify : Ident → Ident → Bool) (hash : Ident → Ident) where
  -- `_verify`: without a stored hash the work is done against a dummy, and fails.
  abbrev pub verify_password : Option Ident → Ident → Bool
  verify_password none password = false
  verify_password (some encoded) password = verify encoded password

  abbrev pub authenticate_row : Ident → Ident → Option AuthUser → Option AuthenticatedUser
  authenticate_row username password none = none
  authenticate_row username password (some row) =
      if verify_password (some row.password_hash) password && row.is_active
      then some (record {
        user = user_schema username row;
        credential_version = row.credential_version;
        password_hash = row.password_hash;
      })
      else none

  unfoldable pub authenticate : Ident → Ident → AuthStore → Option AuthenticatedUser
  authenticate username password st = authenticate_row username password (lookup username st.users)

  -- The update of `reset_password`.
  abbrev pub reset_row : Ident → AuthUser → AuthUser
  reset_row password row = record row {
    password_hash = hash password;
    credential_version = row.credential_version + 1;
  }

  abbrev pub reset_found : Ident → Ident → Option AuthUser → AuthStore → Bool × AuthStore
  reset_found username password none st = (false, st)
  reset_found username password (some row) st = (
    true,
    record {
      users = insert username (reset_row password row) st.users;
      sessions = delete_of_user username st.sessions;
    },
  )

  unfoldable pub reset_password :
      Ident → Ident → ℕ → AuthStore → Result AuthError (Bool × AuthStore)
  reset_password username password characters st =
      if valid_new_password characters
      then ok (reset_found username password (lookup username st.users) st)
      else err password_length

module _ (token_digest : Ident → Ident) where
  -- The account as it was when the password was checked.
  abbrev pub is_current : AuthenticatedUser → AuthUser → Bool
  is_current user row =
      row.is_active
      && row.credential_version == user.credential_version
      && row.password_hash == user.password_hash

  abbrev pub new_session : AuthenticatedUser → AuthUser → Bool → Time → Ident → AuthSession
  new_session user row persistent now csrf = record {
    username = user.user.id;
    credential_version = row.credential_version;
    csrf_token = csrf;
    expires_at = now + lifetime persistent;
  }

  -- A token whose hash is taken breaks the primary key, and the transaction is rolled back.
  abbrev pub create_found :
      AuthenticatedUser
      → Bool
      → Time
      → Token
      → Ident
      → Option AuthUser
      → AuthStore
      → Result AuthError Session × AuthStore
  create_found user persistent now token csrf none st = (err invalid_username_or_password, st)
  create_found user persistent now token csrf (some row) st =
      let sessions = delete_expired now st.sessions in
      let key = token_digest token.id in
      if is_current user row
      then (if is_some (lookup key sessions) then (err duplicate_token, st) else (
        ok (record {
          user = user_schema user.user.id row;
          expires_at = now + lifetime persistent;
          csrf_token = csrf;
        }),
        record st { sessions = insert key (new_session user row persistent now csrf) sessions },
      ))
      else (err invalid_username_or_password, st)

  unfoldable pub create_session :
      AuthenticatedUser
      → Bool
      → Time
      → Token
      → Ident
      → AuthStore
      → Result AuthError Session × AuthStore
  create_session user persistent now token csrf st =
      create_found user persistent now token csrf (lookup user.user.id st.users) st

  -- The joined rows that `get_session` selects.
  abbrev pub joined : Time → AuthSession → Option AuthUser → Option Session
  joined now s none = none
  joined now s (some u) =
      if ltb now s.expires_at && u.is_active && s.credential_version == u.credential_version
      then some (record {
        user = user_schema s.username u;
        expires_at = s.expires_at;
        csrf_token = s.csrf_token;
      })
      else none

  abbrev pub session_of : Time → Option AuthSession → (Ident → Option AuthUser) → Option Session
  session_of now none users = none
  session_of now (some s) users = joined now s (users s.username)

  unfoldable pub get_session : Token → Time → AuthStore → Option Session
  get_session token now st =
      if leb 1 token.characters && leb token.characters 128
      then session_of now (lookup (token_digest token.id) st.sessions) (λ u. lookup u st.users)
      else none

  unfoldable pub delete_session : Token → AuthStore → AuthStore
  delete_session token st = record st { sessions = erase (token_digest token.id) st.sessions }
