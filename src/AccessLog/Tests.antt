-- ===== src/AccessLog/Tests.antt =====
-- relay/internal/server/access_log.go and relay/internal/server/recovery.go: a handler that panics
-- behind its answer.
use httpssh.Base.{refl, List, [], ◌∷◌, false, codes}
use httpssh.AccessLog.{WriterCall, write_header, write_body, panics, serve_logged}
use httpssh.AccessLog.Recorded.{IsLogged, serve_logged-IsLogged}

abbrev writes : List WriterCall
writes = write_header 404 ∷ write_body 12 ∷ write_header 500 ∷ []

serve_logged-IsLogged_example :
    IsLogged
      (codes "GET")
      (codes "/")
      writes
      (panics false)
      (serve_logged (codes "GET") (codes "/") writes (panics false))
serve_logged-IsLogged_example =
    serve_logged-IsLogged (codes "GET") (codes "/") writes (panics false) (refl, (refl, tt))
