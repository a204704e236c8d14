-- ===== src/Wireguard/ActivationExamples.antt =====
-- A run of `set_tunnel_state` on the given site, and the theorem at it.
use keekars_pi_vpn.Base.{List, false, none, some, [], ◌∷◌}
use keekars_pi_vpn.Base.Text.{Text, codes}
use keekars_pi_vpn.Ip.{Interface}
use keekars_pi_vpn.Helper.Conf.Info.{server}
use keekars_pi_vpn.Helper.Status.{TunnelInfo}
use keekars_pi_vpn.WebApp.{Site}
use keekars_pi_vpn.HelperClient
use keekars_pi_vpn.Wireguard.Tunnels.{TunnelState}
use keekars_pi_vpn.Wireguard.SoundExamples.{site}

-- A device that is in the tunnel's network already
abbrev inside : Site (Unit {0})
inside = record site {
  net_if_addrs = λ _.
      (
        codes "wlan0",
        record { family = 2; address = codes "10.8.0.5"; netmask = some (codes "255.255.255.0") }
            ∷ [],
      )
      ∷ [];
}

abbrev wg0 : TunnelInfo
wg0 = record {
  name = codes "wg0";
  active = false;
  listen_port = none;
  public_key = none;
  peers = [];
  conf = record {
    mode = server;
    configured_address = some (codes "10.8.0.1/24");
    configured_endpoint = none;
    configured_allowed_ips = [];
  };
}

abbrev activation : TunnelState
activation = record { action = codes "activate"; force = false }

abbrev server_interface : Interface
server_interface = record { ip = 168296449; prefixlen = 24 }
