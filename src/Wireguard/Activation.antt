-- ===== src/Wireguard/Activation.antt =====
-- The overlap check of `set_tunnel_state`.
use mathlib.Core.List.{Memᴰ}
use keekars_pi_vpn.Base.{◌≡◌, Result, false, Option, none, some, List, [], ◌∷◌, ok, err, is_nil}
use keekars_pi_vpn.Base.Text.{Text}
use keekars_pi_vpn.Ip.{Interface, AnyInterface, v4, AnyNetwork, any_network, ip_interface}
use keekars_pi_vpn.Helper.Conf.Info.{Mode, client, server, ConfInfo}
use keekars_pi_vpn.WebApp.{HttpError, unhandled}
use keekars_pi_vpn.HelperClient

-- The tunnel's configuration routes the IPv4 interface's network: a client's allowed address is read as
-- that interface, or a server's own address is.
pub data Routes : Mode → ConfInfo → Interface → Type 0 where
  allowed :
      {info : ConfInfo} {i : Interface} (text : Text)
      → Memᴰ text info.configured_allowed_ips
      → ip_interface text ≡ some (v4 i)
      → Routes client info i
  own_address :
      {info : ConfInfo} {i : Interface} (text : Text)
      → info.configured_address ≡ some text
      → is_nil text ≡ false
      → ip_interface text ≡ some (v4 i)
      → Routes server info i

abbrev networks_from : Option AnyInterface → Result HttpError (List AnyNetwork)
networks_from none = err unhandled
networks_from (some i) = ok (any_network i ∷ [])
