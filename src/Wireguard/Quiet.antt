-- ===== src/Wireguard/Quiet.antt =====
-- The metadata file over the operations of app/wg_helper_client.py.
use keekars_pi_vpn.Base.{
  ℕ, ◌≡◌, refl, ◌∙◌, Option, List, Result, ok, err, continue, ◌>>=◌, Bool-cases, inl, inr,
}
use keekars_pi_vpn.Base.Text.{Text}
use keekars_pi_vpn.Base.Dict.{Dict}
use keekars_pi_vpn.Helper.Request.{Json}
use keekars_pi_vpn.WebApp.{HttpError, Site, App, Req}
use keekars_pi_vpn.HelperClient

abbrev pub IsQuiet : {World A : Type 0} → Req World A → Type 0
IsQuiet {World} m = (a : App World) → (m a).1.metadata ≡ a.metadata

module _ {World A B : Type 0} where
  continue-IsQuiet :
      (r : Result HttpError A) (f : A → Req World B) (a : App World)
      → ((x : A) → IsQuiet (f x))
      → (continue r f a).1.metadata ≡ a.metadata
  continue-IsQuiet (ok x) f a quiet = quiet x a
  continue-IsQuiet (err e) f a quiet = refl

  pub bind-IsQuiet :
      (m : Req World A) (f : A → Req World B)
      → IsQuiet m
      → ((x : A) → IsQuiet (f x))
      → IsQuiet {World = World} {A = B} (m >>= f)
  bind-IsQuiet m f qm qf a = continue-IsQuiet (m a).0 f (m a).1 qf ∙ qm a

module _ {World : Type 0} (site : Site World) where
  pub call-IsQuiet : (cmd : Text) (params : Dict Json) → IsQuiet (HelperClient.call site cmd params)
  unfolding HelperClient.call
  call-IsQuiet cmd params a = elim (Bool-cases (site.reachable a.host.outside)) [
    | inl e ↦ rw e refl
    | inr e ↦ rw e refl
  ]

  pub genkey-IsQuiet : IsQuiet (HelperClient.genkey site)
  unfolding HelperClient.genkey
  genkey-IsQuiet = bind-IsQuiet _ _ (call-IsQuiet _ _) (λ p a. refl)

  pub create_tunnel-IsQuiet :
      (name address : Text) (port : ℕ) (key : Text)
      → IsQuiet (HelperClient.create_tunnel site name address port key)
  unfolding HelperClient.create_tunnel
  create_tunnel-IsQuiet name address port key = bind-IsQuiet _ _ (call-IsQuiet _ _) (λ p a. refl)

  pub delete_tunnel-IsQuiet : (name : Text) → IsQuiet (HelperClient.delete_tunnel site name)
  unfolding HelperClient.delete_tunnel
  delete_tunnel-IsQuiet name = bind-IsQuiet _ _ (call-IsQuiet _ _) (λ p a. refl)

  pub add_peer-IsQuiet :
      (name key : Text) (ips : List Text) (psk : Option Text) (keepalive : Option ℕ)
      → IsQuiet (HelperClient.add_peer site name key ips psk keepalive)
  unfolding HelperClient.add_peer
  add_peer-IsQuiet name key ips psk keepalive = bind-IsQuiet _ _ (call-IsQuiet _ _) (λ p a. refl)

  pub remove_peer-IsQuiet : (name key : Text) → IsQuiet (HelperClient.remove_peer site name key)
  unfolding HelperClient.remove_peer
  remove_peer-IsQuiet name key = bind-IsQuiet _ _ (call-IsQuiet _ _) (λ p a. refl)

  pub tunnel_status-IsQuiet : (name : Option Text) → IsQuiet (HelperClient.tunnel_status site name)
  unfolding HelperClient.tunnel_status
  tunnel_status-IsQuiet name = bind-IsQuiet _ _ (call-IsQuiet _ _) (λ p a. refl)

  pub set_tunnel_state-IsQuiet :
      (name action : Text) → IsQuiet (HelperClient.set_tunnel_state site name action)
  unfolding HelperClient.set_tunnel_state
  set_tunnel_state-IsQuiet name action = bind-IsQuiet _ _ (call-IsQuiet _ _) (λ p a. refl)
