-- ===== src/Pages/ServeLaws.antt =====
-- What `serve` makes of each end of a handler, and where the fixed responses lead.
use keekars_pi_vpn.Base.{
  ℕ, ◌≡◌, refl, ◌∙◌, ◌⊎◌, inl, inr, false, Option, none, some, [], ◌∷◌, ok, err, continue, not,
  ◌&&◌, arith, Bool-cases,
}
use keekars_pi_vpn.Base.Text.{Text, codes, text_eq, starts_with, text_operations}
use keekars_pi_vpn.Base.Dict.{Dict, lookup, lookup-insert}
use keekars_pi_vpn.Pages.Response.{
  User, Response, http_exception, other_exception, Visit, Handler, location, redirect, error_page,
}
use keekars_pi_vpn.Pages.Auth.{
  Sso, current_user, login_unreachable, signed_out_locally, user_or_login,
}
use keekars_pi_vpn.Pages.Serve.{
  Route, dashboard, network_page, routing_page, wireguard_page, login_route, callback_route,
  logout_route, api, outside, is_outside, Routers, get, path_of, method_of, Method, other,
  Framework, serve, run_route, page, security_headers, unhandled_exception_handler,
}
use keekars_pi_vpn.Pages.Browser.{local_text, target, target_in, IsFramework}

pub target-security_headers : (r : Response) → target (security_headers r) ≡ target r
unfolding security_headers lookup text_operations
target-security_headers r = simp (lookup-insert)

-- Once the user is known, a request goes on.
pub signed_in_lem :
    {World A : Type 0} (o : Option User) (u : User) (f : User → Handler World A) (v : Visit World)
    → o ≡ some u
    → continue (user_or_login o) f v ≡ f u v
signed_in_lem o u f v h = rw h refl

-- Where the fixed responses lead
pub target-login_unreachable : target login_unreachable ≡ none
unfolding login_unreachable error_page text_operations lookup
target-login_unreachable = refl

pub target-signed_out_locally : target signed_out_locally ≡ none
unfolding signed_out_locally error_page text_operations lookup
target-signed_out_locally = refl

pub target-redirect : (url : Text) → target (redirect url) ≡ local_text (some url)
unfolding redirect text_operations lookup
target-redirect url = refl

pub caught_at_login : target (unhandled_exception_handler get (codes "/auth/login")) ≡ none
unfolding unhandled_exception_handler error_page text_operations lookup
caught_at_login = refl

pub caught_at_logout : target (unhandled_exception_handler get (codes "/auth/logout")) ≡ none
unfolding unhandled_exception_handler error_page text_operations lookup
caught_at_logout = refl

pub caught_at_root : target (unhandled_exception_handler get (codes "/")) ≡ none
unfolding unhandled_exception_handler error_page text_operations lookup
caught_at_root = refl

pub caught_anywhere :
    (m : Method) (path : Text)
    → (target (unhandled_exception_handler m path) ≡ none)
      ⊎ (target (unhandled_exception_handler m path) ≡ some (codes "/"))
unfolding unhandled_exception_handler error_page redirect text_operations lookup
caught_anywhere other path = inl refl
caught_anywhere get path =
    elim (Bool-cases (not (text_eq path (codes "/")) && not (starts_with (codes "/auth/") path))) [
      | inl e ↦ inr (rw e refl)
      | inr e ↦ inl (rw e refl)
    ]

module _ {World : Type 0} (sso : Sso World) (routers : Routers World) (framework : Framework)
    (f : IsFramework framework) where
  abbrev served : Route → Visit World → Response × Visit World
  served = serve sso routers framework

  pub serve_ok :
      (route : Route) (v v' : Visit World) (r : Response)
      → run_route sso routers route v ≡ (ok r, v')
      → served route v ≡ (security_headers r, v')
  unfolding serve
  serve_ok route v v' r h = rw (h, f.sends security_headers _ v.session v'.session r) refl

  pub serve_raised :
      (route : Route) (v v' : Visit World) (status : ℕ) (headers : Dict Text)
      → run_route sso routers route v ≡ (err (http_exception status headers), v')
      → served route v ≡ (security_headers (framework.exception_response status headers), v')
  unfolding serve
  serve_raised route v v' status headers h =
      rw
        (
          h,
          f.answers security_headers (unhandled_exception_handler (method_of route) (path_of route))
              v.session v'.session status headers,
        )
        refl

  pub serve_caught :
      (route : Route) (v v' : Visit World)
      → run_route sso routers route v ≡ (err other_exception, v')
      → served route v ≡ (
        unhandled_exception_handler (method_of route) (path_of route),
        record v' { session = v.session },
      )
  unfolding serve
  serve_caught route v v' h =
      rw
        (
          h,
          f.catches security_headers (unhandled_exception_handler (method_of route) (path_of route))
              v.session v'.session,
        )
        refl

  pub target_ok :
      (route : Route) (v v' : Visit World) (r : Response)
      → run_route sso routers route v ≡ (ok r, v')
      → target (served route v).0 ≡ target r
  target_ok route v v' r h = rw (serve_ok route v v' r h) (target-security_headers r)

  pub target_raised :
      (route : Route) (v v' : Visit World) (status : ℕ) (headers : Dict Text)
      → run_route sso routers route v ≡ (err (http_exception status headers), v')
      → target (served route v).0 ≡ target_in headers
  target_raised route v v' status headers h = rw (serve_raised route v v' status headers h) (
      target-security_headers (framework.exception_response status headers)
      ∙ rw (f.location_kept status headers) refl)

  pub target_caught :
      (route : Route) (v v' : Visit World)
      → run_route sso routers route v ≡ (err other_exception, v')
      → target (served route v).0
        ≡ target (unhandled_exception_handler (method_of route) (path_of route))
  target_caught route v v' h = rw (serve_caught route v v' h) refl

  -- A request of a browser without a user, to a page or to a route of the other routers, whose
  -- path does not begin with `/auth/`, is answered with the redirect to `/auth/login` and changes
  -- nothing. A request that comes to none of the application's routes, or whose body the framework
  -- cannot read, is not among these.
  pub serve_signed_out :
      (route : Route) (v : Visit World)
      → is_outside route ≡ false
      → starts_with (codes "/auth/") (path_of route) ≡ false
      → v.session.user ≡ none
      → serve sso routers framework route v ≡ (
        security_headers (framework.exception_response 303 ((location, codes "/auth/login") ∷ [])),
        v,
      )
  unfolding run_route page current_user path_of starts_with
  serve_signed_out dashboard v o p h = serve_raised dashboard v v 303 _ (rw h refl)
  serve_signed_out network_page v o p h = serve_raised network_page v v 303 _ (rw h refl)
  serve_signed_out routing_page v o p h = serve_raised routing_page v v 303 _ (rw h refl)
  serve_signed_out wireguard_page v o p h = serve_raised wireguard_page v v 303 _ (rw h refl)
  serve_signed_out login_route v o p h = ground (arith, p)
  serve_signed_out callback_route v o p h = ground (arith, p)
  serve_signed_out logout_route v o p h = ground (arith, p)
  serve_signed_out (outside m path) v o p h = ground (arith, o)
  serve_signed_out (api m path) v o p h = serve_raised (api m path) v v 303 _ (rw h refl)
