-- ===== src/Pages/Examples.antt =====
-- A given sign-in service and framework, and the theorems on app/main.py and app/auth.py at them.
use keekars_pi_vpn.Base.{
  inl, true, ℕ, ◌≡◌, refl, sym, ap, Bool, false, Option, none, some, [], ◌∷◌, Result, ok, err,
}
use keekars_pi_vpn.Base.Text.{Text, codes, starts_with, text_operations}
use keekars_pi_vpn.Base.Dict.{Dict, lookup}
use keekars_pi_vpn.Pages.Response.{
  User, Session, Response, empty, template, json, Raised, http_exception, other_exception, Visit,
  location,
}
use keekars_pi_vpn.Pages.Auth.{Sso, SsoError, callback, user_of_claims}
use keekars_pi_vpn.Pages.Serve.{
  Routers, network_page, callback_route, path_of, Framework, serve, run_route, security_headers,
}
use keekars_pi_vpn.Pages.Browser.{target, IsFramework, IsSso, IsRouters, browse}
use keekars_pi_vpn.Pages.ServeLaws.{serve_signed_out}
use keekars_pi_vpn.Pages.Redirects.{redirects_end}
use keekars_pi_vpn.Pages.History.{IsSignedIn, fresh, sent}
use keekars_pi_vpn.Pages.SignedIn.{user-IsSignedIn}

abbrev away : Text → Response
away url = record { status = 302; headers = (location, url) ∷ []; body = empty }

abbrev sso : Sso (Unit {0})
sso = record {
  authorize_redirect = λ v. (ok (away (codes "https://sso.keekar.au/authorize")), v);
  authorize_access_token =
      λ v. (ok (some (record { sub = some (codes "alice"); email = none; name = none })), v);
  load_server_metadata = λ v. (ok (some (codes "https://sso.keekar.au/end")), v);
  render = λ name user v.
      (ok (record { status = 200; headers = []; body = template name (some user) }), v);
}

abbrev empty_answer : Response
empty_answer = record { status = 200; headers = []; body = json (codes "{}") }

abbrev routers : Routers (Unit {0})
routers = record {
  handler = λ path user v. (ok empty_answer, v);
  own = λ m path v. (ok empty_answer, v);
  reaches = λ path. true;
}

abbrev exception_response : ℕ → Dict Text → Response
exception_response status headers = record { status = status; headers = headers; body = empty }

abbrev handled :
    (Response → Response)
    → Response
    → Session
    → Result Raised Response
    → Session
    → Response × Session
handled s h before (ok r) after = (s r, after)
handled s h before (err (http_exception status headers)) after =
    (s (exception_response status headers), after)
handled s h before (err other_exception) after = (h, before)

abbrev framework : Framework
framework = record { exception_response = exception_response; handle = handled }

framework-IsFramework : IsFramework framework
framework-IsFramework = record {
  sends = λ s h before after r. refl;
  answers = λ s h before after status headers. refl;
  catches = λ s h before after. refl;
  location_kept = λ status headers. refl;
}

abbrev target_or : Result SsoError Response → Option Text
target_or (ok r) = target r
target_or (err e) = none

abbrev is_local : Result SsoError (Option Text) → Bool
is_local (ok (some t)) = starts_with (codes "/") t
is_local _ = false

sso-IsSso : IsSso sso
unfolding lookup text_operations
sso-IsSso = record {
  redirects_away = λ v r e. sym (ap target_or e);
  ends_away = λ v t e. sym (ap is_local e);
  renders = λ name user v r e. sym (ap target_or e);
  redirect_keeps_user = λ v. refl;
  token_keeps_user = λ v. refl;
  metadata_keeps_user = λ v. refl;
  render_keeps_user = λ name user v. refl;
}

routers-IsRouters : IsRouters routers
unfolding lookup
routers-IsRouters = record {
  stays = λ path user v. refl;
  keeps_user = λ path user v. refl;
  own_leads = λ m path v. inl refl;
  own_keeps_user = λ m path v. refl;
}

abbrev new_session : Session
new_session = record { user = none; sign_in = [] }

abbrev visit : Visit (Unit {0})
visit = record { session = new_session; world = tt }

redirects_end_example :
    (r : Response) × ((browse sso routers framework (λ w. w) 2 network_page visit ≡ some r)
      × (target r ≡ none))
redirects_end_example =
    redirects_end sso routers framework (λ w. w) framework-IsFramework sso-IsSso routers-IsRouters
      network_page visit

not_auth : starts_with (codes "/auth/") (path_of network_page) ≡ false
unfolding starts_with path_of
not_auth = refl

serve_signed_out_example :
    serve sso routers framework network_page visit
    ≡ (security_headers (exception_response 303 ((location, codes "/auth/login") ∷ [])), visit)
serve_signed_out_example =
    serve_signed_out sso routers framework framework-IsFramework network_page visit refl not_auth
      refl

abbrev alice : User
alice = record { sub = codes "alice"; email = none; name = none }

alice_there : (serve sso routers framework callback_route visit).1.session.user ≡ some alice
unfolding serve run_route callback user_of_claims
alice_there = refl

user-IsSignedIn_example : IsSignedIn sso alice ((visit, callback_route) ∷ [])
user-IsSignedIn_example =
    user-IsSignedIn sso routers framework framework-IsFramework sso-IsSso routers-IsRouters alice
      (sent fresh callback_route tt) alice_there
