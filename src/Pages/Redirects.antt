-- ===== src/Pages/Redirects.antt =====
-- The redirects of app/main.py and app/auth.py end.
use keekars_pi_vpn.Base.{
  ℕ, suc, false, arith, if◌then◌else◌, ◌≡◌, refl, ◌∙◌, inl, inr, none, some, [], ◌∷◌, is_nil,
  Result, ok, err, Bool-cases, Option-cases,
}
use keekars_pi_vpn.Base.Text.{Text, codes, starts_with, text_operations}
use keekars_pi_vpn.Base.Dict.{lookup}
use keekars_pi_vpn.Pages.Response.{
  User, Response, Raised, http_exception, other_exception, Visit, location, redirect,
}
use keekars_pi_vpn.Pages.Auth.{
  signed_in, Sso, SsoError, idp_unreachable, other_error, login, logout, current_user,
  login_unreachable, signed_out_locally, logout_target, cleared,
}
use keekars_pi_vpn.Pages.AuthLaws.{Result-cases, callback_cases}
use keekars_pi_vpn.Pages.Serve.{
  Route, dashboard, network_page, routing_page, wireguard_page, login_route, callback_route,
  logout_route, api, outside, is_outside, Routers, path_of, method_of, Method, Framework, serve,
  run_route, page,
}
use keekars_pi_vpn.Pages.Browser.{
  target, route_of, LeadsIn, Leads, IsFramework, IsSso, IsRouters, NoTarget, later, browse,
}
use keekars_pi_vpn.Pages.ServeLaws.{
  signed_in_lem, target-login_unreachable, target-signed_out_locally, target-redirect,
  caught_at_login, caught_at_logout, caught_at_root, caught_anywhere, serve_ok, serve_caught,
  target_ok, target_raised, target_caught,
}

module _ {World : Type 0} (sso : Sso World) (routers : Routers World) (framework : Framework)
    (meanwhile : World → World) (f : IsFramework framework) (s : IsSso sso)
    (a : IsRouters routers) where
  abbrev Ends : ℕ → Route → Visit World → Type 0
  Ends fuel route v =
      (r : Response) × ((browse sso routers framework meanwhile fuel route v ≡ some r)
        × (target r ≡ none))

  stop-Ends :
      (fuel : ℕ) (route : Route) (v : Visit World)
      → target (serve sso routers framework route v).0 ≡ none
      → Ends (suc fuel) route v
  unfolding browse
  stop-Ends fuel route v h = ((serve sso routers framework route v).0, (rw h refl, h))

  hop-Ends :
      (fuel : ℕ) (route : Route) (v : Visit World) (path : Text)
      → target (serve sso routers framework route v).0 ≡ some path
      → Ends fuel
          (route_of routers.reaches path)
          (later meanwhile (serve sso routers framework route v).1)
      → Ends (suc fuel) route v
  unfolding browse
  hop-Ends fuel route v path h (r, (e, q)) = (r, (rw h e, q))

  -- The sign-in page ends.
  login_target : (v : Visit World) → target (serve sso routers framework login_route v).0 ≡ none
  unfolding login run_route path_of method_of
  login_target v =
      let v' = (sso.authorize_redirect v).1 in
      elim (Result-cases (sso.authorize_redirect v).0) [
        | inl (r, e) ↦
            target_ok sso routers framework f login_route v v' r (rw e refl)
            ∙ s.redirects_away v r e
        | inr (idp_unreachable, e) ↦
            target_ok sso routers framework f login_route v v' login_unreachable (rw e refl)
            ∙ target-login_unreachable
        | inr (other_error, e) ↦
            target_caught sso routers framework f login_route v v' (rw e refl) ∙ caught_at_login
      ]

  page_out :
      (name : Text) (v : Visit World)
      → v.session.user ≡ none
      → page sso routers name v
        ≡ (err (http_exception 303 ((location, codes "/auth/login") ∷ [])), v)
  unfolding page current_user
  page_out name v h = rw h refl

  page_ok :
      (name : Text) (u : User) (v : Visit World) (r : Response)
      → v.session.user ≡ some u
      → (sso.render name u v).0 ≡ ok r
      → page sso routers name v ≡ (ok r, (sso.render name u v).1)
  unfolding page current_user
  page_ok name u v r h e = signed_in_lem v.session.user u _ v h ∙ rw e refl

  page_failed :
      (name : Text) (u : User) (v : Visit World) (x : SsoError)
      → v.session.user ≡ some u
      → (sso.render name u v).0 ≡ err x
      → page sso routers name v ≡ (err other_exception, (sso.render name u v).1)
  unfolding page current_user
  page_failed name u v x h e = signed_in_lem v.session.user u _ v h ∙ rw e refl

  dashboard_target :
      (u : User) (v : Visit World)
      → v.session.user ≡ some u
      → target (serve sso routers framework dashboard v).0 ≡ none
  unfolding run_route path_of method_of
  dashboard_target u v h =
      let name = codes "dashboard.html" in
      let v' = (sso.render name u v).1 in
      elim (Result-cases (sso.render name u v).0) [
        | inl (r, e) ↦
            target_ok sso routers framework f dashboard v v' r (page_ok name u v r h e)
            ∙ s.renders name u v r e
        | inr (x, e) ↦
            target_caught sso routers framework f dashboard v v' (page_failed name u v x h e)
            ∙ caught_at_root
      ]

  -- A request that is sent to the sign-in page, or back to the dashboard of a signed-in user
  to_login-Ends :
      (route : Route) (v : Visit World)
      → target (serve sso routers framework route v).0 ≡ some (codes "/auth/login")
      → Ends 2 route v
  unfolding route_of path_of text_operations
  to_login-Ends route v h =
      hop-Ends 1 route v (codes "/auth/login") h (stop-Ends 0 login_route _ (login_target _))

  to_dashboard-Ends :
      (route : Route) (v : Visit World) (u : User)
      → target (serve sso routers framework route v).0 ≡ some (codes "/")
      → (serve sso routers framework route v).1.session.user ≡ some u
      → Ends 2 route v
  unfolding route_of path_of text_operations
  to_dashboard-Ends route v u h k =
      hop-Ends 1 route v (codes "/") h (stop-Ends 0 dashboard _ (dashboard_target u _ k))

  caught-Ends :
      (route : Route) (v v' : Visit World) (u : User)
      → run_route sso routers route v ≡ (err other_exception, v')
      → v.session.user ≡ some u
      → Ends 2 route v
  caught-Ends route v v' u runs h = elim (caught_anywhere (method_of route) (path_of route)) [
    | inl e ↦ stop-Ends 1 route v (target_caught sso routers framework f route v v' runs ∙ e)
    | inr e ↦
        to_dashboard-Ends route v u (target_caught sso routers framework f route v v' runs ∙ e)
          (rw (serve_caught sso routers framework f route v v' runs) h)
  ]

  page-Ends :
      (route : Route) (name : Text) (v : Visit World)
      → run_route sso routers route v ≡ page sso routers name v
      → Ends 2 route v
  unfolding lookup text_operations
  page-Ends route name v runs = elim (Option-cases v.session.user) [
    | inl out ↦
        to_login-Ends route v
          (target_raised sso routers framework f route v v 303 _ (runs ∙ page_out name v out))
    | inr (u, h) ↦
        let v' = (sso.render name u v).1 in
        elim (Result-cases (sso.render name u v).0) [
          | inl (r, e) ↦ stop-Ends 1 route v (
              target_ok sso routers framework f route v v' r (runs ∙ page_ok name u v r h e)
              ∙ s.renders name u v r e)
          | inr (x, e) ↦ caught-Ends route v v' u (runs ∙ page_failed name u v x h e) h
        ]
  ]

  callback-Ends : (v : Visit World) → Ends 2 callback_route v
  unfolding run_route starts_with lookup
  callback-Ends v = elim (callback_cases sso v) [
    | inl (user, (c, e)) ↦
        to_dashboard-Ends callback_route v user
          (target_ok sso routers framework f callback_route v
              (signed_in (sso.authorize_access_token v).1 user) (redirect (codes "/")) e
            ∙ target-redirect (codes "/"))
          (rw
            (serve_ok sso routers framework f callback_route v
              (signed_in (sso.authorize_access_token v).1 user) (redirect (codes "/")) e)
            refl)
    | inr e ↦ stop-Ends 1 callback_route v (
        target_raised sso routers framework f callback_route v (sso.authorize_access_token v).1 401
          [] e)
  ]

  logout-Ends : (v : Visit World) → Ends 2 logout_route v
  unfolding logout run_route logout_target path_of method_of starts_with
  logout-Ends v =
      let v' = (sso.load_server_metadata (cleared v)).1 in
      elim (Result-cases (sso.load_server_metadata (cleared v)).0) [
        | inl (none, e) ↦ to_login-Ends logout_route v (
            target_ok sso routers framework f logout_route v v' (redirect (codes "/auth/login"))
              (rw e refl)
            ∙ target-redirect (codes "/auth/login"))
        | inl (some endpoint, e) ↦ elim (Bool-cases (is_nil endpoint)) [
          | inl n ↦ to_login-Ends logout_route v (
              target_ok sso routers framework f logout_route v v' (redirect (codes "/auth/login"))
                (rw (e, n) refl)
              ∙ target-redirect (codes "/auth/login"))
          | inr n ↦ stop-Ends 1 logout_route v (
              target_ok sso routers framework f logout_route v v' (redirect endpoint)
                (rw (e, n) refl)
              ∙ (target-redirect endpoint ∙ rw (s.ends_away (cleared v) endpoint e) refl))
        ]
        | inr (idp_unreachable, e) ↦ stop-Ends 1 logout_route v (
            target_ok sso routers framework f logout_route v v' signed_out_locally (rw e refl)
            ∙ target-signed_out_locally)
        | inr (other_error, e) ↦
            stop-Ends 1 logout_route v (
              target_caught sso routers framework f logout_route v v' (rw e refl)
              ∙ caught_at_logout)
      ]

  answered-Ends :
      (m : Method) (path : Text) (v v' : Visit World) (u : User) (r : Result Raised Response)
      → run_route sso routers (api m path) v ≡ (r, v')
      → NoTarget r
      → v.session.user ≡ some u
      → Ends 2 (api m path) v
  answered-Ends m path v v' u (ok r) runs n h =
      stop-Ends 1 (api m path) v (target_ok sso routers framework f (api m path) v v' r runs ∙ n)
  answered-Ends m path v v' u (err (http_exception status headers)) runs n h =
      stop-Ends 1 (api m path) v
        (target_raised sso routers framework f (api m path) v v' status headers runs ∙ n)
  answered-Ends m path v v' u (err other_exception) runs n h =
      caught-Ends (api m path) v v' u runs h

  api-Ends : (m : Method) (path : Text) (v : Visit World) → Ends 2 (api m path) v
  unfolding run_route current_user text_operations lookup
  api-Ends m path v = elim (Option-cases v.session.user) [
    | inl out ↦ to_login-Ends (api m path) v (
        target_raised sso routers framework f (api m path) v v 303
          ((location, codes "/auth/login") ∷ []) (rw out refl))
    | inr (u, h) ↦
        let (r, v') = routers.handler path u v in
        answered-Ends m path v v' u r (signed_in_lem v.session.user u (routers.handler path) v h)
          (a.stays path u v) h
  ]

  ours-Ends : (route : Route) (v : Visit World) → is_outside route ≡ false → Ends 2 route v
  unfolding run_route
  ours-Ends dashboard v o = page-Ends dashboard (codes "dashboard.html") v refl
  ours-Ends network_page v o = page-Ends network_page (codes "network.html") v refl
  ours-Ends routing_page v o = page-Ends routing_page (codes "routing.html") v refl
  ours-Ends wireguard_page v o = page-Ends wireguard_page (codes "wireguard.html") v refl
  ours-Ends login_route v o = stop-Ends 1 login_route v (login_target v)
  ours-Ends callback_route v o = callback-Ends v
  ours-Ends logout_route v o = logout-Ends v
  ours-Ends (api m path) v o = api-Ends m path v
  ours-Ends (outside m path) v o = ground (arith, o)

  led-Ends :
      (route : Route) (v : Visit World)
      → LeadsIn routers.reaches (target (serve sso routers framework route v).0)
      → Ends 3 route v
  led-Ends route v (inl n) = stop-Ends 2 route v n
  led-Ends route v (inr (path, e, ours)) =
      hop-Ends 2 route v path e (ours-Ends (route_of routers.reaches path) _ ours)

  own-Ends :
      (m : Method) (path : Text) (v v' : Visit World) (r : Result Raised Response)
      → run_route sso routers (outside m path) v ≡ (r, v')
      → Leads routers.reaches r
      → Ends 3 (outside m path) v
  unfolding route_of path_of method_of text_operations
  own-Ends m path v v' (ok r) runs n =
      led-Ends (outside m path) v
        (rw (target_ok sso routers framework f (outside m path) v v' r runs) n)
  own-Ends m path v v' (err (http_exception status headers)) runs n =
      led-Ends (outside m path) v
        (rw (target_raised sso routers framework f (outside m path) v v' status headers runs) n)
  own-Ends m path v v' (err other_exception) runs n =
      let caught = target_caught sso routers framework f (outside m path) v v' runs in
      led-Ends (outside m path) v (elim (caught_anywhere m path) [
        | inl e ↦ inl (caught ∙ e)
        | inr e ↦ inr (codes "/", caught ∙ e, refl)
      ])

  -- The most requests that it takes
  abbrev at_most : Route → ℕ
  at_most route = if is_outside route then 3 else 2

  -- From any route and in any session, a browser that follows redirects within the application
  -- comes to a response that does not redirect there, in at most two requests, whatever fails on
  -- the way and whatever happens between the requests, and in at most three from a request that
  -- comes to none of the application's routes. It is assumed that the addresses of the sign-in
  -- service are not paths of the application, that templates and the other routers do not
  -- redirect, and that the framework itself redirects to the application's routes only.
  pub redirects_end : (route : Route) (v : Visit World) → Ends (at_most route) route v
  unfolding run_route
  redirects_end (outside m path) v =
      own-Ends m path v (routers.own m path v).1 (routers.own m path v).0 refl
        (a.own_leads m path v)
  redirects_end dashboard v = ours-Ends dashboard v refl
  redirects_end network_page v = ours-Ends network_page v refl
  redirects_end routing_page v = ours-Ends routing_page v refl
  redirects_end wireguard_page v = ours-Ends wireguard_page v refl
  redirects_end login_route v = ours-Ends login_route v refl
  redirects_end callback_route v = ours-Ends callback_route v refl
  redirects_end logout_route v = ours-Ends logout_route v refl
  redirects_end (api m path) v = ours-Ends (api m path) v refl
