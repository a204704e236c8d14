-- ===== src/Pages/SignedIn.antt =====
-- Who is signed in: the session of a browser over the requests that it has sent.
use mathlib.Core.Path.{subst}
use keekars_pi_vpn.Base.{
  ◌≡◌, refl, sym, ◌∙◌, ap, inl, inr, true, false, Option, none, some, List, ◌∷◌, Result, ok, err,
  continue, Bool-cases, arith,
}
use keekars_pi_vpn.Base.Text.{Text, codes}
use keekars_pi_vpn.Pages.Response.{
  User, Session, Response, Raised, http_exception, other_exception, Visit, Handler, redirect,
}
use keekars_pi_vpn.Pages.Auth.{
  Sso, idp_unreachable, other_error, login, logout, logout_target, signed_out_locally, cleared,
  current_user, user_or_login,
}
use keekars_pi_vpn.Pages.AuthLaws.{Result-cases, IsConfirmed, callback_cases}
use keekars_pi_vpn.Pages.Serve.{
  Route, dashboard, network_page, routing_page, wireguard_page, login_route, callback_route,
  logout_route, api, outside, Routers, Framework, serve, run_route, page,
}
use keekars_pi_vpn.Pages.Browser.{IsFramework, IsSso, IsRouters}
use keekars_pi_vpn.Pages.ServeLaws.{serve_ok, serve_raised, serve_caught}
use keekars_pi_vpn.Pages.History.{
  Sent, is_answered, signs_out, Reachable, fresh, sent, IsSignedIn, confirmed, still,
}

none-not-some : {A : Type 0} {u : User} → none ≡ some u → A
none-not-some h = ground (arith, h)

false-not-true : {A : Type 0} → false ≡ true → A
false-not-true h = ground (arith, h)

abbrev user_or : User → Option User → User
user_or u none = u
user_or u (some w) = w

some_inj : {u w : User} → some u ≡ some w → u ≡ w
some_inj {u = u} h = ap (user_or u) h

module _ {World : Type 0} (sso : Sso World) (routers : Routers World) (framework : Framework)
    (f : IsFramework framework) (s : IsSso sso) (a : IsRouters routers) where
  abbrev user_after : Route → Visit World → Option User
  user_after route v = (serve sso routers framework route v).1.session.user

  abbrev next_user : Response × Visit World → Option User
  next_user x = x.1.session.user

  -- A handler that keeps the user, however it ends
  kept_end :
      (route : Route) (v v' : Visit World) (r : Result Raised Response)
      → run_route sso routers route v ≡ (r, v')
      → v'.session.user ≡ v.session.user
      → user_after route v ≡ v.session.user
  kept_end route v v' (ok r) e k =
      ap next_user (serve_ok sso routers framework f route v v' r e) ∙ k
  kept_end route v v' (err (http_exception n hs)) e k =
      ap next_user (serve_raised sso routers framework f route v v' n hs e) ∙ k
  kept_end route v v' (err other_exception) e k =
      ap next_user (serve_caught sso routers framework f route v v' e)

  kept :
      (route : Route) (v : Visit World)
      → (run_route sso routers route v).1.session.user ≡ v.session.user
      → user_after route v ≡ v.session.user
  kept route v k =
      kept_end route v (run_route sso routers route v).1 (run_route sso routers route v).0 refl k

  asked_user :
      (g : User → Handler World Response) (o : Option User) (v : Visit World)
      → ((u : User) → (g u v).1.session.user ≡ v.session.user)
      → (continue (user_or_login o) g v).1.session.user ≡ v.session.user
  asked_user g none v h = refl
  asked_user g (some u) v h = h u

  page_keeps :
      (name : Text) (v : Visit World) → (page sso routers name v).1.session.user ≡ v.session.user
  unfolding page current_user
  page_keeps name v = asked_user _ v.session.user v (λ u.
      elim (Result-cases (sso.render name u v).0) [
        | inl (r, e) ↦ rw e (s.render_keeps_user name u v)
        | inr (x, e) ↦ rw e (s.render_keeps_user name u v)
      ])

  logout_out :
      (v : Visit World)
      → is_answered (sso.load_server_metadata (cleared v)).0 ≡ true
      → user_after logout_route v ≡ none
  unfolding run_route logout logout_target cleared
  logout_out v h =
      let v' = (sso.load_server_metadata (cleared v)).1 in
      elim (Result-cases (sso.load_server_metadata (cleared v)).0) [
        | inl (t, e) ↦
            ap next_user
              (serve_ok sso routers framework f logout_route v v' (logout_target t) (rw e refl))
            ∙ s.metadata_keeps_user (cleared v)
        | inr (idp_unreachable, e) ↦
            ap next_user
              (serve_ok sso routers framework f logout_route v v' signed_out_locally (rw e refl))
            ∙ s.metadata_keeps_user (cleared v)
        | inr (other_error, e) ↦ false-not-true (rw e at h)
      ]

  logout_failed :
      (v : Visit World)
      → is_answered (sso.load_server_metadata (cleared v)).0 ≡ false
      → user_after logout_route v ≡ v.session.user
  unfolding run_route logout
  logout_failed v h =
      let v' = (sso.load_server_metadata (cleared v)).1 in
      elim (Result-cases (sso.load_server_metadata (cleared v)).0) [
        | inl (t, e) ↦ false-not-true (sym (rw e at h))
        | inr (idp_unreachable, e) ↦ false-not-true (sym (rw e at h))
        | inr (other_error, e) ↦
            ap next_user (serve_caught sso routers framework f logout_route v v' (rw e refl))
      ]

  -- One request
  keeps-IsSignedIn :
      (route : Route) (v : Visit World) (past : List (Sent World)) (u : User)
      → signs_out sso (v, route) ≡ false
      → user_after route v ≡ v.session.user
      → (v.session.user ≡ some u → IsSignedIn sso u past)
      → user_after route v ≡ some u
      → IsSignedIn sso u ((v, route) ∷ past)
  keeps-IsSignedIn route v past u still_in same before after =
      still (v, route) still_in (before (sym same ∙ after))

  callback-IsSignedIn :
      (v : Visit World) (past : List (Sent World)) (u : User)
      → (v.session.user ≡ some u → IsSignedIn sso u past)
      → user_after callback_route v ≡ some u
      → IsSignedIn sso u ((v, callback_route) ∷ past)
  unfolding run_route signs_out
  callback-IsSignedIn v past u before after = elim (callback_cases sso v) [
    | inl (user, (c, e)) ↦
        let answered : user_after callback_route v ≡ some user =
          ap next_user
            (serve_ok sso routers framework f callback_route v _ (redirect (codes "/")) e) in
        confirmed v (
          subst (λ x. IsConfirmed (sso.authorize_access_token v).0 x)
            (some_inj (sym answered ∙ after)) c)
    | inr e ↦
        keeps-IsSignedIn callback_route v past u refl
          (kept callback_route v (ap (λ x. x.1.session.user) e ∙ s.token_keeps_user v)) before after
  ]

  logout-IsSignedIn :
      (v : Visit World) (past : List (Sent World)) (u : User)
      → (v.session.user ≡ some u → IsSignedIn sso u past)
      → user_after logout_route v ≡ some u
      → IsSignedIn sso u ((v, logout_route) ∷ past)
  unfolding run_route logout signs_out
  logout-IsSignedIn v past u before after =
      elim (Bool-cases (is_answered (sso.load_server_metadata (cleared v)).0)) [
        | inl out ↦ none-not-some (sym (logout_out v out) ∙ after)
        | inr failed ↦
            keeps-IsSignedIn logout_route v past u failed (logout_failed v failed) before after
      ]

  step-IsSignedIn :
      (route : Route) (v : Visit World) (past : List (Sent World)) (u : User)
      → (v.session.user ≡ some u → IsSignedIn sso u past)
      → user_after route v ≡ some u
      → IsSignedIn sso u ((v, route) ∷ past)
  unfolding run_route signs_out login current_user
  step-IsSignedIn dashboard v past u =
      keeps-IsSignedIn dashboard v past u refl
        (kept dashboard v (page_keeps (codes "dashboard.html") v))
  step-IsSignedIn network_page v past u =
      keeps-IsSignedIn network_page v past u refl
        (kept network_page v (page_keeps (codes "network.html") v))
  step-IsSignedIn routing_page v past u =
      keeps-IsSignedIn routing_page v past u refl
        (kept routing_page v (page_keeps (codes "routing.html") v))
  step-IsSignedIn wireguard_page v past u =
      keeps-IsSignedIn wireguard_page v past u refl
        (kept wireguard_page v (page_keeps (codes "wireguard.html") v))
  step-IsSignedIn login_route v past u =
      keeps-IsSignedIn login_route v past u refl (kept login_route v (s.redirect_keeps_user v))
  step-IsSignedIn callback_route v past u = callback-IsSignedIn v past u
  step-IsSignedIn logout_route v past u = logout-IsSignedIn v past u
  step-IsSignedIn (outside m path) v past u =
      keeps-IsSignedIn (outside m path) v past u refl
        (kept (outside m path) v (a.own_keeps_user m path v))
  step-IsSignedIn (api m path) v past u = keeps-IsSignedIn (api m path) v past u refl (
      kept (api m path) v
        (asked_user (routers.handler path) v.session.user v (λ x. a.keeps_user path x v)))

  -- Whatever requests a browser has sent, from an empty session on: if its session has a user,
  -- then one of the requests was a `/auth/callback` on which the sign-in library gave claims with
  -- that user's "sub", which is not empty, and no later request was a `/auth/logout` that `logout`
  -- itself answered, with a redirect or a page. It is assumed that the library's calls, the
  -- framework's own pages and the other routers leave "user" alone, and that the session is sent
  -- with every answer but that of the handler of other exceptions.
  pub user-IsSignedIn :
      {session : Session} {past : List (Sent World)} (user : User)
      → Reachable sso routers framework session past
      → session.user ≡ some user
      → IsSignedIn sso user past
  user-IsSignedIn user fresh h = none-not-some h
  user-IsSignedIn user (sent {session = session} {past = past} r route w) h =
      step-IsSignedIn route (record { session = session; world = w }) past user
        (user-IsSignedIn user r) h
