-- ===== src/Sessions/Tables.antt =====
-- Deletions in the sessions' table of services/session_service.py.
use scrap_monitoring_backend.Base.{
  ◌≡◌, refl, Option, none, some, [], ◌∷◌, arith, leb, ◌==◌, if◌then◌else◌, Time, Ident,
}
use scrap_monitoring_backend.Base.Dict.{Dict, lookup, Distinct}
use scrap_monitoring_backend.Sessions.{AuthSession, delete_expired, delete_of_user}

abbrev pub unexpired : Time → Option AuthSession → Option AuthSession
unexpired now none = none
unexpired now (some s) = if leb s.expires_at now then none else some s

abbrev pub of_others : Ident → Option AuthSession → Option AuthSession
of_others username none = none
of_others username (some s) = if s.username == username then none else some s

absent-delete_expired :
    (k : Ident) (now : Time) (d : Dict AuthSession)
    → lookup k d ≡ none
    → lookup k (delete_expired now d) ≡ none
unfolding lookup delete_expired
absent-delete_expired k now [] e = refl
absent-delete_expired k now ((j, s) ∷ d) e = ground (arith, absent-delete_expired k now d)

pub lookup-delete_expired :
    (k : Ident) (now : Time) (d : Dict AuthSession)
    → Distinct d
    → lookup k (delete_expired now d) ≡ unexpired now (lookup k d)
unfolding lookup delete_expired
lookup-delete_expired k now [] h = refl
lookup-delete_expired k now ((j, s) ∷ d) h =
    ground (arith, lookup-delete_expired k now d h.1, absent-delete_expired j now d h.0)

absent-delete_of_user :
    (k username : Ident) (d : Dict AuthSession)
    → lookup k d ≡ none
    → lookup k (delete_of_user username d) ≡ none
unfolding lookup delete_of_user
absent-delete_of_user k username [] e = refl
absent-delete_of_user k username ((j, s) ∷ d) e = ground (arith, absent-delete_of_user k username d)

pub lookup-delete_of_user :
    (k username : Ident) (d : Dict AuthSession)
    → Distinct d
    → lookup k (delete_of_user username d) ≡ of_others username (lookup k d)
unfolding lookup delete_of_user
lookup-delete_of_user k username [] h = refl
lookup-delete_of_user k username ((j, s) ∷ d) h =
    ground (arith, lookup-delete_of_user k username d h.1, absent-delete_of_user j username d h.0)

pub delete_expired-Distinct :
    (now : Time) (d : Dict AuthSession) → Distinct d → Distinct (delete_expired now d)
unfolding delete_expired
delete_expired-Distinct now [] h = tt
delete_expired-Distinct now ((j, s) ∷ d) h =
    ground (arith, delete_expired-Distinct now d h.1, absent-delete_expired j now d h.0)

pub delete_of_user-Distinct :
    (username : Ident) (d : Dict AuthSession) → Distinct d → Distinct (delete_of_user username d)
unfolding delete_of_user
delete_of_user-Distinct username [] h = tt
delete_of_user-Distinct username ((j, s) ∷ d) h =
    ground (arith, delete_of_user-Distinct username d h.1, absent-delete_of_user j username d h.0)
