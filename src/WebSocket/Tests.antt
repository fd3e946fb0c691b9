-- ===== src/WebSocket/Tests.antt =====
-- relay/internal/server/websocket.go: concrete connections.
use httpssh.Base.{false, codes}
use httpssh.Manager.{get}
use httpssh.WebSocket.{upgraded, ws_subprotocol, connect}
use httpssh.WebSocket.Connection.{IsConnected, connect-IsConnected}
use httpssh.Fixtures.{id_a, manager_a}

connect-IsConnected_example :
    IsConnected manager_a id_a false
      (codes "host")
      70
      (get manager_a id_a)
      (upgraded ws_subprotocol)
      (connect manager_a id_a (upgraded ws_subprotocol) false (codes "host") 70)
connect-IsConnected_example =
    connect-IsConnected manager_a id_a (upgraded ws_subprotocol) false (codes "host") 70
