-- ===== src/Pages/Response.antt =====
-- Responses of the web application, and what a request's handler works on.
use keekars_pi_vpn.Base.{ℕ, Option, [], ◌∷◌, Act}
use keekars_pi_vpn.Base.Text.{Text, codes}
use keekars_pi_vpn.Base.Dict.{Dict}

-- `request.session["user"]`
pub record User : Type 0 where
  pub sub : Text
  pub email : Option Text
  pub name : Option Text

-- The session cookie's dictionary: the user, and what the sign-in library keeps in it.
pub record Session : Type 0 where
  pub user : Option User
  pub sign_in : Dict Text

pub data Body : Type 0 where
  empty : Body
  json : Text → Body
  template : Text → Option User → Body
  error_template : Text → Text → Text → Text → Body

-- Names of headers are in lower case.
pub record Response : Type 0 where
  pub status : ℕ
  pub headers : Dict Text
  pub body : Body

-- What a handler raises: an `HTTPException` with its headers, or any other exception.
pub data Raised : Type 0 where
  http_exception : ℕ → Dict Text → Raised
  other_exception : Raised

-- A request of a browser, on the way: its session, and everything else
pub record Visit (World : Type 0) : Type 0 where
  pub session : Session
  pub world : World

abbrev pub Handler : Type 0 → Type 0 → Type 0
Handler World A = Act Raised (Visit World) A

abbrev pub location : Text
location = codes "location"

-- `RedirectResponse(url=url)`
unfoldable pub redirect : Text → Response
redirect url = record { status = 307; headers = (location, url) ∷ []; body = empty }

-- app/templating.py: `error_page`
unfoldable pub error_page : ℕ → Text → Text → Text → Text → Dict Text → Response
error_page status title message href text headers = record {
  status = status;
  headers = headers;
  body = error_template title message href text;
}
