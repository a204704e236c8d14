-- ===== src/Routing/Examples.antt =====
-- Runs of app/routing.py on a given machine, which takes every route.
use keekars_pi_vpn.Base.{◌≡◌, refl, true, none, some, [], ◌∷◌, ok, err}
use keekars_pi_vpn.Base.Text.{codes, text_operations}
use keekars_pi_vpn.WebApp.{http, unknown_interface}
use keekars_pi_vpn.Routing.{
  RouteRequest, Netlink, add_route, check_interface, iface_index, run_route_command,
}

abbrev kernel : Netlink (Unit {0})
kernel = record {
  interfaces = λ _. codes "eth0" ∷ [];
  link_lookup = λ _ _. 2 ∷ [];
  get_links = λ _ _. some (codes "eth0") ∷ [];
  get_routes = λ _ _. [];
  route = λ c w. (true, w);
}

abbrev lan_route : RouteRequest
lan_route = record {
  destination = record { network_address = 167772160; prefixlen = 8 };
  gateway = some 3232235777;
  interface = codes "eth0";
  table = none;
}

lan_route_added : (add_route kernel lan_route tt).0 ≡ ok tt
unfolding add_route check_interface iface_index run_route_command text_operations
lan_route_added = refl

other_interface :
    (add_route kernel (record lan_route { interface = codes "eth1" }) tt).0
    ≡ err (http 404 unknown_interface)
unfolding add_route check_interface iface_index run_route_command text_operations
other_interface = refl
