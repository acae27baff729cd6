-- ===== src/Sessions/Reset.antt =====
-- What a password reset takes away (`reset_password` of services/session_service.py).
use scrap_monitoring_backend.Base.{
  ℕ, ◌≡◌, refl, sym, ap, ◌∙◌, inl, inr, Bool, true, false, ◌&&◌, Option, none, some, arith, leb,
  ◌==◌, if◌then◌else◌, Bool-cases, Time, Ident, Result, ok, err,
}
use scrap_monitoring_backend.Base.Dict.{
  Dict, lookup, insert, lookup-insert, lookup-insert_self, Distinct,
}
use scrap_monitoring_backend.Sessions.{
  AuthUser, AuthSession, AuthStore, Session, AuthenticatedUser, Token, AuthError,
  invalid_username_or_password, password_length, valid_new_password, delete_of_user,
  authenticate_row, authenticate, reset_row, reset_found, reset_password, is_current, create_found,
  create_session, joined, session_of, get_session,
}
use scrap_monitoring_backend.Sessions.Tables.{of_others, lookup-delete_of_user}

-- A session of anybody else.
abbrev pub not_of : Ident → Option Session → Option Session
not_of username none = none
not_of username (some s) = if s.user.id == username then none else some s

module _ (verify : Ident → Ident → Bool) (hash token_digest : Ident → Ident) where
  -- What `reset_password` answered: the account is unknown and nothing changed, or it was reset, and
  -- its tokens open nothing, the others open what they did, and a login checked before the reset is
  -- refused.
  abbrev pub Revokes : Ident → AuthStore → Result AuthError (Bool × AuthStore) → Type 0
  Revokes username st (err e) = e ≡ password_length
  Revokes username st (ok (false, st')) = (lookup username st.users ≡ none) × (st' ≡ st)
  Revokes username st (ok (true, st')) =
      ((token : Token) (now : Time)
        → get_session token_digest token now st'
          ≡ not_of username (get_session token_digest token now st))
      × ((password : Ident) (user : AuthenticatedUser) (persistent : Bool) (now : Time)
            (token : Token) (csrf : Ident)
          → authenticate verify hash username password st ≡ some user
          → create_session token_digest user persistent now token csrf st'
            ≡ (err invalid_username_or_password, st'))

  joined-not_of :
      (username : Ident) (now : Time) (s : AuthSession) (o : Option AuthUser)
      → not_of username (joined token_digest now s o)
        ≡ (if s.username == username then none else joined token_digest now s o)
  joined-not_of username now s none = ground arith
  joined-not_of username now s (some u) = ground arith

  session_of-reset :
      (username : Ident) (row : AuthUser) (now : Time) (o : Option AuthSession)
      (users : Dict AuthUser)
      → session_of token_digest now
          (of_others username o)
          (λ u. lookup u (insert username row users))
        ≡ not_of username (session_of token_digest now o (λ u. lookup u users))
  session_of-reset username row now none users = refl
  session_of-reset username row now (some s) users =
      rw (joined-not_of username now s (lookup s.username users))
        (elim (Bool-cases (s.username == username)) [
          | inl mine ↦ rw mine refl
          | inr theirs ↦
              (let differs : (username == s.username) ≡ false = ground (arith, theirs) in
                rw theirs (
                  ap (joined token_digest now s)
                    (lookup-insert s.username username row users ∙ rw differs refl)))
        ])

  get_session-reset :
      (username : Ident) (row : AuthUser) (token : Token) (now : Time) (st : AuthStore)
      → Distinct st.sessions
      → get_session token_digest token now (record {
        users = insert username row st.users;
        sessions = delete_of_user username st.sessions;
      })
        ≡ not_of username (get_session token_digest token now st)
  unfolding get_session
  get_session-reset username row token now st h =
      rw (lookup-delete_of_user (token_digest token.id) username st.sessions h)
        (elim (Bool-cases (leb 1 token.characters && leb token.characters 128)) [
          | inl sent ↦ rw sent (
              session_of-reset username row now (lookup (token_digest token.id) st.sessions)
                st.users)
          | inr odd ↦ rw odd refl
        ])

  login :
      (username password : Ident) (row : AuthUser) (user : AuthenticatedUser)
      → authenticate_row verify hash username password (some row) ≡ some user
      → (user.user.id ≡ username) × (user.credential_version ≡ row.credential_version)
  login username password row user a = ground (arith, a)

  create_found-stale :
      (user : AuthenticatedUser) (persistent : Bool) (now : Time) (token : Token) (csrf : Ident)
      (row : AuthUser) (st : AuthStore)
      → is_current token_digest user row ≡ false
      → create_found token_digest user persistent now token csrf (some row) st
        ≡ (err invalid_username_or_password, st)
  create_found-stale user persistent now token csrf row st stale = rw stale refl

  stale_login :
      (username password new_password : Ident) (user : AuthenticatedUser) (persistent : Bool)
      (now : Time) (token : Token) (csrf : Ident) (row : AuthUser) (st : AuthStore)
      → authenticate_row verify hash username password (some row) ≡ some user
      → lookup username st.users ≡ some (reset_row verify hash new_password row)
      → create_session token_digest user persistent now token csrf st
        ≡ (err invalid_username_or_password, st)
  unfolding create_session
  stale_login username password new_password user persistent now token csrf row st a there =
      let (same, version) = login username password row user a in
      let row' = reset_row verify hash new_password row in
      let stale : is_current token_digest user row' ≡ false = ground (arith, version) in
      ap (λ o. create_found token_digest user persistent now token csrf o st)
        (ap (λ u. lookup u st.users) same ∙ there)
      ∙ create_found-stale user persistent now token csrf row' st stale

  reset_found-Revokes :
      (username new_password : Ident) (o : Option AuthUser) (st : AuthStore)
      → Distinct st.sessions
      → lookup username st.users ≡ o
      → Revokes username st (ok (reset_found verify hash username new_password o st))
  unfolding authenticate
  reset_found-Revokes username new_password none st h e = (e, refl)
  reset_found-Revokes username new_password (some row) st h e =
      let row' = reset_row verify hash new_password row in
      (
        λ token now. get_session-reset username row' token now st h,
        λ password user persistent now token csrf a.
            stale_login username password new_password user persistent now token csrf row _
              (ap (authenticate_row verify hash username password) (sym e) ∙ a)
              (lookup-insert_self username row' st.users),
      )

  -- In a store whose token hashes are distinct, a password reset refuses a password for its length,
  -- finds no account and changes nothing, or leaves every token with what it opened, the account's
  -- own sessions aside, and refuses a login whose password was checked before it.
  pub reset_password-Revokes :
      (username new_password : Ident) (characters : ℕ) (st : AuthStore)
      → Distinct st.sessions
      → Revokes username st (reset_password verify hash username new_password characters st)
  unfolding reset_password
  reset_password-Revokes username new_password characters st h =
      elim (Bool-cases (valid_new_password characters)) [
        | inl valid ↦
            rw valid
              (reset_found-Revokes username new_password (lookup username st.users) st h refl)
        | inr odd ↦ rw odd refl
      ]
