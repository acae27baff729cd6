-- ===== src/Sessions/Access.antt =====
-- Who holds a session, through login, logout and a password reset (services/session_service.py).
use scrap_monitoring_backend.Base.{
  ◌+◌, ◌≤◌, ◌≡◌, refl, ap, ◌∙◌, ◌≢◌, inl, inr, Bool, true, false, ◌&&◌, Option, none, some, arith,
  ltb, leb, ◌==◌, if◌then◌else◌, ==_refl, Bool-cases, Option-cases, is_some, Time, Ident, Result,
  ok, err,
}
use scrap_monitoring_backend.Base.Dict.{
  Dict, lookup, insert, lookup-insert, lookup-insert_self, lookup-erase, Distinct,
}
use scrap_monitoring_backend.Sessions.{
  joined, AuthUser, AuthSession, AuthStore, Session, AuthenticatedUser, Token, AuthError,
  user_schema, lifetime, delete_expired, is_current, new_session, create_found, create_session,
  session_of, get_session, delete_session,
}
use scrap_monitoring_backend.Sessions.Tables.{unexpired, lookup-delete_expired}

module _ (token_digest : Ident → Ident) where
  abbrev pub is_sent : Token → Bool
  is_sent token = leb 1 token.characters && leb token.characters 128

  -- What `create_session` answered: an error that changes nothing, or a session that its token opens
  -- until it expires, while the other tokens open what they opened before.
  abbrev pub Opens :
      AuthStore → Bool → Time → Token → Time → Token → Result AuthError Session × AuthStore → Type 0
  Opens st persistent now token later other (err e, st') = st' ≡ st
  Opens st persistent now token later other (ok s, st') =
      (get_session token_digest token later st'
        ≡ (if ltb later (now + lifetime persistent) then some s else none))
      × (token_digest token.id ≢ token_digest other.id
          → get_session token_digest other later st' ≡ get_session token_digest other later st)

  session_of-unexpired :
      (now later : Time) (o : Option AuthSession) (users : Ident → Option AuthUser)
      → now ≤ later
      → session_of token_digest later (unexpired now o) users
        ≡ session_of token_digest later o users
  session_of-unexpired now later none users h = refl
  session_of-unexpired now later (some s) users h =
      ground (arith, h, Option-cases (users s.username))

  session_of-new :
      (user : AuthenticatedUser) (row : AuthUser) (persistent : Bool) (now later : Time)
      (csrf : Ident) (st : AuthStore)
      → lookup user.user.id st.users ≡ some row
      → row.is_active ≡ true
      → session_of token_digest later
          (some (new_session token_digest user row persistent now csrf))
          (λ u. lookup u st.users)
        ≡ (if ltb later (now + lifetime persistent)
            then some (record {
              user = user_schema user.user.id row;
              expires_at = now + lifetime persistent;
              csrf_token = csrf;
            })
            else none)
  session_of-new user row persistent now later csrf st there active =
      rw
        (ap (joined token_digest later (new_session token_digest user row persistent now csrf))
          there)
        (ground (arith, active))

  get_new :
      (token : Token) (later : Time) (users : Dict AuthUser) (s : AuthSession)
      (sessions : Dict AuthSession)
      → is_sent token ≡ true
      → get_session token_digest token later
          (record { users = users; sessions = insert (token_digest token.id) s sessions })
        ≡ session_of token_digest later (some s) (λ u. lookup u users)
  unfolding get_session
  get_new token later users s sessions sent =
      rw (sent, lookup-insert_self (token_digest token.id) s sessions) refl

  get_kept :
      (token other : Token) (now later : Time) (s : AuthSession) (st : AuthStore)
      → Distinct st.sessions
      → now ≤ later
      → token_digest token.id ≢ token_digest other.id
      → get_session token_digest other later (record {
        users = st.users;
        sessions = insert (token_digest token.id) s (delete_expired now st.sessions);
      })
        ≡ get_session token_digest other later st
  unfolding get_session
  get_kept token other now later s st h after apart =
      let k = token_digest other.id in
      let differs : (token_digest token.id == k) ≡ false = ground (arith, apart) in
      rw
        (
          lookup-insert k (token_digest token.id) s (delete_expired now st.sessions),
          differs,
          lookup-delete_expired k now st.sessions h,
          session_of-unexpired now later (lookup k st.sessions) (λ u. lookup u st.users) after,
        )
        refl

  create_found-Opens :
      (user : AuthenticatedUser) (persistent : Bool) (now later : Time) (token other : Token)
      (csrf : Ident) (o : Option AuthUser) (st : AuthStore)
      → lookup user.user.id st.users ≡ o
      → Distinct st.sessions
      → is_sent token ≡ true
      → now ≤ later
      → Opens st persistent now token later other
          (create_found token_digest user persistent now token csrf o st)
  create_found-Opens user persistent now later token other csrf none st there h sent after = refl
  create_found-Opens user persistent now later token other csrf (some row) st there h sent after =
      let key = token_digest token.id in
      let sessions = delete_expired now st.sessions in
      elim (Bool-cases (is_current token_digest user row)) [
        | inr stale ↦ rw stale refl
        | inl current ↦ elim (Bool-cases (is_some (lookup key sessions))) [
          | inl taken ↦ rw (current, taken) refl
          | inr free ↦
              rw (current, free)
                (
                  get_new token later st.users _ sessions sent
                      ∙ session_of-new user row persistent now later csrf st there
                          (ground (arith, current)),
                  λ apart. get_kept token other now later _ st h after apart,
                )
        ]
      ]

  -- In a store whose token hashes are distinct, a login with a token that the server accepts either
  -- changes nothing and answers an error, or answers a session that this token opens until the
  -- session's lifetime has passed; at later instants every token with another hash opens what it
  -- opened before, although expired rows are deleted.
  pub create_session-Opens :
      (user : AuthenticatedUser) (persistent : Bool) (now later : Time) (token other : Token)
      (csrf : Ident) (st : AuthStore)
      → Distinct st.sessions
      → is_sent token ≡ true
      → now ≤ later
      → Opens st persistent now token later other
          (create_session token_digest user persistent now token csrf st)
  unfolding create_session
  create_session-Opens user persistent now later token other csrf st h sent after =
      create_found-Opens user persistent now later token other csrf (lookup user.user.id st.users)
        st refl h sent after

  -- After a logout the token opens nothing, and one with another hash what it opened before.
  pub delete_session-get_session :
      (token other : Token) (now : Time) (st : AuthStore)
      → (get_session token_digest token now (delete_session token_digest token st) ≡ none)
        × (token_digest token.id ≢ token_digest other.id
            → get_session token_digest other now (delete_session token_digest token st)
              ≡ get_session token_digest other now st)
  unfolding get_session delete_session
  delete_session-get_session token other now st =
      let key = token_digest token.id in
      let k = token_digest other.id in
      (
        rw (lookup-erase key key st.sessions, ==_refl key)
            (elim (Bool-cases (is_sent token)) [ inl sent ↦ rw sent refl | inr odd ↦ rw odd refl ]),
        λ apart.
            (let differs : (key == k) ≡ false = ground (arith, apart) in
              rw (lookup-erase k key st.sessions, differs) refl),
      )
