-- ===== src/Pages/Serve.antt =====
-- app/main.py: the pages, `security_headers`, `unhandled_exception_handler`, and how a request goes
-- through them.
use keekars_pi_vpn.Base.{
  ℕ, Bool, true, false, not, ◌&&◌, [], if◌then◌else◌, Result, ok, err, pure, ◌>>=◌,
}
use keekars_pi_vpn.Base.Text.{Text, codes, text_eq, starts_with}
use keekars_pi_vpn.Base.Dict.{Dict, insert}
use keekars_pi_vpn.Pages.Response.{
  User, Session, Response, json, Raised, other_exception, Visit, Handler, redirect, error_page,
}
use keekars_pi_vpn.Pages.Auth.{Sso, SsoError, current_user, login, callback, logout}

pub data Method : Type 0 where
  get other : Method

-- What a request can come to; `api` is one of the other routers' routes, by its path, with a body that
-- the framework can read, and `outside` is anything else: the framework's own pages, the static files, a
-- path without a route, or a body that cannot be read.
pub data Route : Type 0 where
  dashboard network_page routing_page wireguard_page : Route
  login_route callback_route logout_route : Route
  api outside : Method → Text → Route

abbrev pub is_outside : Route → Bool
is_outside (outside m path) = true
is_outside _ = false

unfoldable pub method_of : Route → Method
method_of (api m path) = m
method_of (outside m path) = m
method_of _ = get

unfoldable pub path_of : Route → Text
path_of dashboard = codes "/"
path_of network_page = codes "/network"
path_of routing_page = codes "/routing"
path_of wireguard_page = codes "/wireguard"
path_of login_route = codes "/auth/login"
path_of callback_route = codes "/auth/callback"
path_of logout_route = codes "/auth/logout"
path_of (api m path) = path
path_of (outside m path) = path

-- `security_headers`, after `call_next`
unfoldable pub security_headers : Response → Response
security_headers r = record r {
  headers = insert (codes "referrer-policy") (codes "no-referrer") (
      insert (codes "strict-transport-security") (codes "max-age=63072000; includeSubDomains") (
        insert (codes "content-security-policy") (codes "default-src 'self'; img-src 'self' data:")
          (insert (codes "x-content-type-options") (codes "nosniff")
            (insert (codes "x-frame-options") (codes "DENY") r.headers))));
}

abbrev is_get : Method → Bool
is_get get = true
is_get other = false

unfoldable pub unhandled_exception_handler : Method → Text → Response
unfolding error_page
unhandled_exception_handler method path =
    if is_get method && not (text_eq path (codes "/")) && not (starts_with (codes "/auth/") path)
    then redirect (codes "/")
    else if is_get method
    then error_page 500 (codes "Something went wrong") (codes "The page couldn't be loaded.")
        (codes "/") (codes "Try again") []
    else record {
      status = 500;
      headers = [];
      body = json (codes "{\"detail\":\"Internal error\"}");
    }

abbrev rendered : Result SsoError Response → Result Raised Response
rendered (ok r) = ok r
rendered (err e) = err other_exception

-- The framework: what it makes of a handler's end, given the middleware `security_headers`, the answer
-- of the handler of exceptions, and the session before and after. It answers with a response and the
-- session that the browser has then.
pub record Framework : Type 0 where
  pub exception_response : ℕ → Dict Text → Response
  pub handle :
      (Response → Response)
      → Response
      → Session
      → Result Raised Response
      → Session
      → Response × Session

-- The other routers' handlers, the answers of the framework to all else, and which paths are the other
-- routers'.
pub record Routers (World : Type 0) : Type 0 where
  pub handler : Text → User → Handler World Response
  pub own : Method → Text → Handler World Response
  pub reaches : Text → Bool

module _ {World : Type 0} (sso : Sso World) (routers : Routers World) where
  -- A page of the signed-in user
  unfoldable pub page : Text → Handler World Response
  page name = do
    user ← current_user
    r ← (λ v. let (r, v') = sso.render name user v in (rendered r, v'))
    pure r

  -- The handler of each route; the other routers ask for the user first, and the framework does
  -- not.
  unfoldable pub run_route : Route → Handler World Response
  run_route dashboard = page (codes "dashboard.html")
  run_route network_page = page (codes "network.html")
  run_route routing_page = page (codes "routing.html")
  run_route wireguard_page = page (codes "wireguard.html")
  run_route login_route = login sso
  run_route callback_route = callback sso
  run_route logout_route = logout sso
  run_route (outside m path) = routers.own m path
  run_route (api m path) = do user ← current_user; routers.handler path user

  -- A request, from the browser's session to the response and the browser's new session
  unfoldable pub serve : Framework → Route → Visit World → Response × Visit World
  serve framework route v =
      let (r, v') = run_route route v in
      let (response, session) =
        framework.handle security_headers
          (unhandled_exception_handler (method_of route) (path_of route)) v.session r v'.session in
      (response, record v' { session = session })
