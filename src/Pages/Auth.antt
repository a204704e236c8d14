-- ===== src/Pages/Auth.antt =====
-- app/auth.py: `login`, `callback`, `logout` and `current_user`.
use keekars_pi_vpn.Base.{Option, none, some, [], ◌∷◌, if◌then◌else◌, is_nil, Result, ok, err}
use keekars_pi_vpn.Base.Text.{Text, codes}
use keekars_pi_vpn.Pages.Response.{
  User, Response, Raised, http_exception, other_exception, Visit, Handler, location, redirect,
  error_page,
}

-- How a call of the sign-in library fails: in one of the ways of `_IDP_UNREACHABLE`, or another.
pub data SsoError : Type 0 where
  idp_unreachable other_error : SsoError

-- The claims of a token that the source reads; a missing one is `none`.
pub record Claims : Type 0 where
  pub sub : Option Text
  pub email : Option Text
  pub name : Option Text

-- A call of the sign-in library, which may change the session
abbrev pub SsoCall : Type 0 → Type 0 → Type 0
SsoCall World A = Visit World → Result SsoError A × Visit World

-- authlib's client, and the rendering of a template: what `authorize_redirect` answers with, the
-- "userinfo" of a token, and the "end_session_endpoint" of the server's metadata.
pub record Sso (World : Type 0) : Type 0 where
  pub authorize_redirect : SsoCall World Response
  pub authorize_access_token : SsoCall World (Option Claims)
  pub load_server_metadata : SsoCall World (Option Text)
  pub render : Text → User → SsoCall World Response

abbrev pub login_path : Text
login_path = codes "/auth/login"

unfoldable pub login_unreachable : Response
unfolding error_page
login_unreachable =
    error_page 503 (codes "Sign-in service unreachable")
      (codes
        "This device can't reach the sign-in service right now (often a DNS problem on the network). It usually recovers within a few minutes.")
      login_path (codes "Try again") ((codes "retry-after", codes "30") ∷ [])

unfoldable pub signed_out_locally : Response
unfolding error_page
signed_out_locally =
    error_page 200 (codes "Signed out")
      (codes
        "You're signed out of this device. The sign-in service couldn't be reached to end that session too.")
      login_path (codes "Sign in again") []

abbrev or_page : Response → Result SsoError Response → Result Raised Response
or_page page (ok r) = ok r
or_page page (err idp_unreachable) = ok page
or_page page (err other_error) = err other_exception

abbrev pub login_failed : Raised
login_failed = http_exception 401 []

-- `claims["sub"]`, which must be there and not empty
abbrev pub user_with : Option Text → Claims → Result Raised User
user_with none c = err login_failed
user_with (some sub) c =
    if is_nil sub
    then err login_failed
    else ok (record { sub = sub; email = c.email; name = c.name })

unfoldable pub user_of_claims : Option Claims → Result Raised User
user_of_claims none = err login_failed
user_of_claims (some c) = user_with c.sub c

-- Any exception of the exchange is a failed login.
abbrev pub user_of_token : Result SsoError (Option Claims) → Result Raised User
user_of_token (err e) = err login_failed
user_of_token (ok claims) = user_of_claims claims

abbrev pub signed_in : {World : Type 0} → Visit World → User → Visit World
signed_in v user = record v { session = record v.session { user = some user } }

abbrev pub sign_in_as :
    {World : Type 0} → Result Raised User → Visit World → Result Raised Response × Visit World
sign_in_as (err e) v = (err e, v)
sign_in_as (ok user) v = (ok (redirect (codes "/")), signed_in v user)

-- Where the browser goes after `logout`
unfoldable pub logout_target : Option Text → Response
logout_target none = redirect login_path
logout_target (some endpoint) = if is_nil endpoint then redirect login_path else redirect endpoint

abbrev pub logout_answer : Result SsoError (Option Text) → Result Raised Response
logout_answer (ok endpoint) = ok (logout_target endpoint)
logout_answer (err idp_unreachable) = ok signed_out_locally
logout_answer (err other_error) = err other_exception

unfoldable pub cleared : {World : Type 0} → Visit World → Visit World
cleared v = record v { session = record { user = none; sign_in = [] } }

abbrev pub user_or_login : Option User → Result Raised User
user_or_login none = err (http_exception 303 ((location, login_path) ∷ []))
user_or_login (some user) = ok user

unfoldable pub current_user : {World : Type 0} → Handler World User
current_user v = (user_or_login v.session.user, v)

module _ {World : Type 0} (sso : Sso World) where
  unfoldable pub login : Handler World Response
  unfolding login_unreachable
  login v = let (r, v') = sso.authorize_redirect v in (or_page login_unreachable r, v')

  unfoldable pub callback : Handler World Response
  unfolding user_of_claims
  callback v = let (r, v') = sso.authorize_access_token v in sign_in_as (user_of_token r) v'

  unfoldable pub logout : Handler World Response
  unfolding logout_target cleared
  logout v = let (r, v') = sso.load_server_metadata (cleared v) in (logout_answer r, v')
