-- ===== src/Pages/History.antt =====
-- The requests that a browser has sent, the session that it has then, and who is signed in by them.
use keekars_pi_vpn.Base.{◌≡◌, Bool, true, false, none, List, [], ◌∷◌, Result, ok, err}
use keekars_pi_vpn.Pages.Response.{User, Session, Visit}
use keekars_pi_vpn.Pages.Auth.{Sso, SsoError, idp_unreachable, other_error, cleared}
use keekars_pi_vpn.Pages.AuthLaws.{IsConfirmed}
use keekars_pi_vpn.Pages.Serve.{Routers, Route, callback_route, logout_route, Framework, serve}

-- A request that a browser has sent: its session and the world then, and the route
abbrev pub Sent : Type 0 → Type 0
Sent World = Visit World × Route

abbrev pub is_answered : {A : Type 0} → Result SsoError A → Bool
is_answered (ok a) = true
is_answered (err idp_unreachable) = true
is_answered (err other_error) = false

module _ {World : Type 0} (sso : Sso World) (routers : Routers World) (framework : Framework) where
  -- The session that a browser has after the requests that it has sent, the last one first
  pub data Reachable : Session → List (Sent World) → Type 0 where
    fresh : Reachable (record { user = none; sign_in = [] }) []
    sent :
        {session : Session} {past : List (Sent World)}
        → Reachable session past
        → (route : Route) (w : World)
        → Reachable
            (serve sso routers framework route (record { session = session; world = w })).1.session
            ((record { session = session; world = w }, route) ∷ past)

module _ {World : Type 0} (sso : Sso World) where
  -- A sign-out that `logout` answers itself, with a redirect or a page
  unfoldable pub signs_out : Sent World → Bool
  signs_out (v, logout_route) = is_answered (sso.load_server_metadata (cleared v)).0
  signs_out (v, _) = false

  -- The sign-in service has confirmed the user on a callback, and no sign-out has been answered since.
  pub data IsSignedIn (user : User) : List (Sent World) → Type 0 where
    confirmed :
        {past : List (Sent World)} (v : Visit World)
        → IsConfirmed (sso.authorize_access_token v).0 user
        → IsSignedIn user ((v, callback_route) ∷ past)
    still :
        {past : List (Sent World)} (request : Sent World)
        → signs_out request ≡ false
        → IsSignedIn user past
        → IsSignedIn user (request ∷ past)
