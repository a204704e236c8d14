-- ===== src/Pages/Browser.antt =====
-- A browser that follows redirects inside the application, and what the framework, the sign-in library
-- and the other routers document.
use keekars_pi_vpn.Base.{
  ℕ, zero, suc, ◌≡◌, ◌⊎◌, Bool, false, Option, none, some, if◌then◌else◌, Result, ok, err,
}
use keekars_pi_vpn.Base.Text.{Text, codes, text_eq, starts_with}
use keekars_pi_vpn.Base.Dict.{Dict, lookup}
use keekars_pi_vpn.Pages.Response.{
  User, Session, Response, Raised, http_exception, other_exception, Visit, location,
}
use keekars_pi_vpn.Pages.Auth.{Sso}
use keekars_pi_vpn.Pages.Serve.{
  Route, dashboard, network_page, routing_page, wireguard_page, login_route, callback_route,
  logout_route, api, outside, is_outside, Method, Routers, get, path_of, Framework, serve,
}

abbrev pub local_text : Option Text → Option Text
local_text none = none
local_text (some t) = if starts_with (codes "/") t then some t else none

-- The path on this server that a response redirects to
abbrev pub target_in : Dict Text → Option Text
target_in headers = local_text (lookup location headers)

abbrev pub target : Response → Option Text
target r = target_in r.headers

-- The route that answers to a path
unfoldable pub route_of : (Text → Bool) → Text → Route
route_of reaches path =
    if text_eq path (path_of dashboard)
    then dashboard
    else if text_eq path (path_of network_page)
    then network_page
    else if text_eq path (path_of routing_page)
    then routing_page
    else if text_eq path (path_of wireguard_page)
    then wireguard_page
    else if text_eq path (path_of login_route)
    then login_route
    else if text_eq path (path_of callback_route)
    then callback_route
    else if text_eq path (path_of logout_route)
    then logout_route
    else if reaches path
    then api get path
    else outside get path

-- Starlette: the middleware sees what a handler returns and what `HTTPException` becomes, and the new
-- session goes out with it. Any other exception passes the middleware, and the session is not sent.
pub record IsFramework (f : Framework) : Type 0 where
  pub sends :
      (s : Response → Response) (h : Response) (before after : Session) (r : Response)
      → f.handle s h before (ok r) after ≡ (s r, after)
  pub answers :
      (s : Response → Response) (h : Response) (before after : Session) (status : ℕ)
      (headers : Dict Text)
      → f.handle s h before (err (http_exception status headers)) after
        ≡ (s (f.exception_response status headers), after)
  pub catches :
      (s : Response → Response) (h : Response) (before after : Session)
      → f.handle s h before (err other_exception) after ≡ (h, before)
  pub location_kept :
      (status : ℕ) (headers : Dict Text)
      → lookup location (f.exception_response status headers).headers ≡ lookup location headers

-- authlib: its calls leave "user" alone, and its addresses are on the sign-in server. A template makes a
-- response without a redirect.
pub record IsSso {World : Type 0} (sso : Sso World) : Type 0 where
  pub redirects_away :
      (v : Visit World) (r : Response) → (sso.authorize_redirect v).0 ≡ ok r → target r ≡ none
  pub ends_away :
      (v : Visit World) (t : Text)
      → (sso.load_server_metadata v).0 ≡ ok (some t)
      → starts_with (codes "/") t ≡ false
  pub renders :
      (name : Text) (user : User) (v : Visit World) (r : Response)
      → (sso.render name user v).0 ≡ ok r
      → target r ≡ none
  pub redirect_keeps_user :
      (v : Visit World) → (sso.authorize_redirect v).1.session.user ≡ v.session.user
  pub token_keeps_user :
      (v : Visit World) → (sso.authorize_access_token v).1.session.user ≡ v.session.user
  pub metadata_keeps_user :
      (v : Visit World) → (sso.load_server_metadata v).1.session.user ≡ v.session.user
  pub render_keeps_user :
      (name : Text) (user : User) (v : Visit World)
      → (sso.render name user v).1.session.user ≡ v.session.user

abbrev pub NoTarget : Result Raised Response → Type 0
NoTarget (ok r) = target r ≡ none
NoTarget (err (http_exception status headers)) = target_in headers ≡ none
NoTarget (err other_exception) = Unit

-- There is no redirect on this server, or one to a path that has a route.
abbrev pub LeadsIn : (Text → Bool) → Option Text → Type 0
LeadsIn reaches o =
    (o ≡ none) ⊎ ((path : Text) × (o ≡ some path) × (is_outside (route_of reaches path) ≡ false))

abbrev pub Leads : (Text → Bool) → Result Raised Response → Type 0
Leads reaches (ok r) = LeadsIn reaches (target r)
Leads reaches (err (http_exception status headers)) = LeadsIn reaches (target_in headers)
Leads reaches (err other_exception) = Unit

-- The other routers neither redirect nor touch the session. The framework itself redirects a path
-- without a route to one that has it, with a slash more or less, and does not touch the session.
pub record IsRouters {World : Type 0} (routers : Routers World) : Type 0 where
  pub stays :
      (path : Text) (user : User) (v : Visit World) → NoTarget (routers.handler path user v).0
  pub keeps_user :
      (path : Text) (user : User) (v : Visit World)
      → (routers.handler path user v).1.session.user ≡ v.session.user
  pub own_leads :
      (m : Method) (path : Text) (v : Visit World) → Leads routers.reaches (routers.own m path v).0
  pub own_keeps_user :
      (m : Method) (path : Text) (v : Visit World)
      → (routers.own m path v).1.session.user ≡ v.session.user

abbrev pub later : {World : Type 0} → (World → World) → Visit World → Visit World
later meanwhile v = record v { world = meanwhile v.world }

abbrev pub followed : Option Text → Response → (Text → Option Response) → Option Response
followed none response next = some response
followed (some path) response next = next path

module _ {World : Type 0} (sso : Sso World) (routers : Routers World) (framework : Framework)
    (meanwhile : World → World) where
  -- Follows redirects for at most `fuel` requests; `meanwhile` is what happens between two of them.
  unfoldable pub browse : ℕ → Route → Visit World → Option Response
  browse zero route v = none
  browse (suc fuel) route v =
      let (response, v') = serve sso routers framework route v in
      followed (target response) response
        (λ path. browse fuel (route_of routers.reaches path) (later meanwhile v'))
