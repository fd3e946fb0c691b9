-- ===== src/Handler/Tests.antt =====
-- relay/internal/server/server.go: a request for the sessions as it arrives.
use httpssh.Base.{[], Text, codes}
use httpssh.Server.{no_body}
use httpssh.Handler.{HttpRequest, handler}
use httpssh.Handler.Access.{IsHandled, handler-IsHandled}
use httpssh.Fixtures.{lan_bearer, relay_host, manager_a}

abbrev kill_a : HttpRequest
kill_a = record {
  method = codes "DELETE";
  path = codes "/api/sessions/a1";
  authorization = [];
  query = λ name. [];
  create_body = no_body;
  rename_body = no_body;
}

abbrev as_it_is : Text → Text
as_it_is path = path

handler-IsHandled_example :
    IsHandled lan_bearer manager_a kill_a (handler as_it_is lan_bearer relay_host manager_a kill_a)
handler-IsHandled_example = handler-IsHandled as_it_is lan_bearer relay_host manager_a kill_a
