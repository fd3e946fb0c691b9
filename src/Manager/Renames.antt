-- ===== src/Manager/Renames.antt =====
-- relay/internal/session/manager.go: `Rename` against the map of sessions.
use httpssh.Base.{◌≡◌, ◌≢◌, sym, ap, Text, insert, lookup-insert_self, lookup-insert_ne}
use httpssh.Session.{Session, Error, info}
use httpssh.Manager.{ok, err, Manager, get, or_not_found, rename, rename_found}

-- The manager with this session under this id.
abbrev pub with_session : Manager → Text → Session → Manager
with_session m id s = record m { by_id = insert id s m.by_id }

pub rename_at :
    (m : Manager) (id title : Text) (s : Session)
    → get m id ≡ ok s
    → let s' : Session = record s { title = title } in
      rename m id title ≡ (with_session m id s', ok (info s'))
unfolding rename rename_found
rename_at m id title s h = ap (rename_found m id title) h

pub rename_missing :
    (m : Manager) (id title : Text) {e : Error} → get m id ≡ err e → rename m id title ≡ (m, err e)
unfolding rename rename_found
rename_missing m id title h = ap (rename_found m id title) h

pub get-with_session : (m : Manager) (id : Text) (s : Session) → get (with_session m id s) id ≡ ok s
unfolding get or_not_found
get-with_session m id s = ap or_not_found (lookup-insert_self id s m.by_id)

pub get-with_session_ne :
    (m : Manager) (id k : Text) (s : Session) → k ≢ id → get (with_session m id s) k ≡ get m k
unfolding get
get-with_session_ne m id k s ne =
    ap or_not_found (lookup-insert_ne id k s m.by_id (λ e. ne (sym e)))
