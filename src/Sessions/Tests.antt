-- ===== src/Sessions/Tests.antt =====
-- Runs of the model of services/session_service.py at concrete inputs.
use scrap_monitoring_backend.Base.{
  ◌≡◌, refl, ◌≢◌, true, false, none, [], ◌∷◌, arith, ◌==◌, seconds, Ident,
}
use scrap_monitoring_backend.Base.Dict.{lookup, Distinct}
use scrap_monitoring_backend.Sessions.{
  viewer, AuthStore, AuthenticatedUser, Token, reset_password, create_session, get_session,
  delete_session,
}
use scrap_monitoring_backend.Sessions.Access.{
  Opens, create_session-Opens, delete_session-get_session,
}
use scrap_monitoring_backend.Sessions.Reset.{Revokes, reset_password-Revokes}

abbrev store : AuthStore
store = record {
  users =
      (
        1,
        record {
          display_name = 10;
          role = viewer;
          password_hash = 100;
          is_active = true;
          credential_version = 1;
        },
      )
      ∷ [];
  sessions =
      (5, record { username = 1; credential_version = 1; csrf_token = 6; expires_at = seconds 50 })
      ∷ [];
}

abbrev user : AuthenticatedUser
user = record {
  user = record { id = 1; display_name = 10; role = viewer };
  credential_version = 1;
  password_hash = 100;
}

abbrev token : Token
token = record { id = 7; characters = 43 }

abbrev other : Token
other = record { id = 5; characters = 43 }

abbrev same : Ident → Ident
same t = t

store-Distinct : Distinct store.sessions
unfolding lookup
store-Distinct = (refl, tt)

create_session-Opens_example :
    Opens same store false
      (seconds 20)
      token
      (seconds 30)
      other
      (create_session same user false (seconds 20) token 8 store)
create_session-Opens_example =
    create_session-Opens same user false (seconds 20) (seconds 30) token other 8 store
      store-Distinct refl (ground arith)

delete_session-get_session_example :
    (get_session same token (seconds 30) (delete_session same token store) ≡ none)
    × (same token.id ≢ same other.id
        → get_session same other (seconds 30) (delete_session same token store)
          ≡ get_session same other (seconds 30) store)
delete_session-get_session_example = delete_session-get_session same token other (seconds 30) store

reset_password-Revokes_example :
    Revokes ◌==◌ same same 1 store (reset_password ◌==◌ same 1 9 12 store)
reset_password-Revokes_example = reset_password-Revokes ◌==◌ same same 1 9 12 store store-Distinct
