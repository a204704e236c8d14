-- ===== src/Wireguard/Register.antt =====
-- The part of `create_peer` from `add_peer` on.
use keekars_pi_vpn.Base.{◌≡◌, refl, Option, [], ◌∷◌, Result, ok, err, continue}
use keekars_pi_vpn.Base.Text.{Text}
use keekars_pi_vpn.Base.Dict.{Dict, insert}
use keekars_pi_vpn.WebApp.{HttpError, TunnelMeta, Site, App, Req}
use keekars_pi_vpn.HelperClient
use keekars_pi_vpn.Wireguard.Metadata.{save_metadata}
use keekars_pi_vpn.Wireguard.Peers.{
  PeerCreate, Download, register_peer, with_peer, new_peer, new_id,
}

module _ {World A B : Type 0} where
  continue-state :
      (r : Result HttpError A) (f g : A → Req World B) (a : App World)
      → ((x : A) (b : App World) → (f x b).1 ≡ (g x b).1)
      → (continue r f a).1 ≡ (continue r g a).1
  continue-state (ok x) f g a same = same x a
  continue-state (err e) f g a same = refl

module _ {World : Type 0} (site : Site World) (user : Option Text) (name : Text)
    (payload : PeerCreate) (d : Dict TunnelMeta) (t : TunnelMeta) (server_public_key address : Text)
    (psk : Option Text) where
  -- What `create_peer` leaves behind from `add_peer` on, in the daemon's files, the metadata and
  -- outside, does not depend on the new peer's private key, whatever the outcome.
  pub register_peer_private :
      (public_key private_key other : Text) (a : App World)
      → (register_peer site user name payload d t server_public_key address
          (record { private_key = private_key; public_key = public_key })
          psk
          a).1
        ≡ (register_peer site user name payload d t server_public_key address
            (record { private_key = other; public_key = public_key })
            psk
            a).1
  unfolding register_peer
  register_peer_private public_key private_key other a =
      continue-state {B = Download}
        (HelperClient.add_peer site name public_key (address ∷ []) psk payload.keepalive a).0 _ _ _
        (λ _ b. continue-state {B = Download} (new_id site b).0 _ _ _ (λ id c.
          continue-state {B = Download}
            (save_metadata site
              (insert name
                (with_peer t (
                  new_peer id payload address
                    (record { private_key = private_key; public_key = public_key }) user))
                d)
              c).0
            _ _ _ (λ _ e. refl)))
