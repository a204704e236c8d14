-- ===== src/Network/Configure.antt =====
-- app/network.py: `configure_interface`, with `NetworkConfigRequest` of app/models.py.
use keekars_pi_vpn.Base.{
  ℕ, Option, none, some, List, [], ◌∷◌, ◌++◌, map, if◌then◌else◌, pure, raise, ◌>>◌,
}
use keekars_pi_vpn.Base.Text.{Text, codes, join}
use keekars_pi_vpn.Ip.{Interface, print_interface, print_v4}
use keekars_pi_vpn.WebApp.{http, unknown_interface}
use keekars_pi_vpn.Network.Nmcli.{Device, WorldReq, run_nmcli, existing_interface}

pub data InterfaceMethod : Type 0 where
  dhcp static : InterfaceMethod

-- A valid request; addresses are numbers below 2 ^ 32.
pub record NetworkConfig : Type 0 where
  pub interface : Text
  pub method : InterfaceMethod
  pub address : Option Interface
  pub gateway : Option ℕ
  pub dns : Option (List ℕ)

-- `str(payload.address)`
unfoldable pub address_text : Option Interface → Text
address_text none = codes "None"
address_text (some i) = print_interface i

unfoldable pub conn_name : Text → Text
conn_name interface = codes "pi-config-ui-" ++ interface

abbrev pub modify : Text → List Text → List Text
modify conn settings = codes "con" ∷ codes "mod" ∷ conn ∷ settings

abbrev pub bring_up : Text → List Text
bring_up conn = codes "con" ∷ codes "up" ∷ conn ∷ []

abbrev pub method_property : Text
method_property = codes "ipv4.method"

abbrev pub addresses_property : Text
addresses_property = codes "ipv4.addresses"

abbrev pub gateway_property : Text
gateway_property = codes "ipv4.gateway"

abbrev pub dns_property : Text
dns_property = codes "ipv4.dns"

-- `",".join(str(d) for d in payload.dns)`
unfoldable pub dns_text : List ℕ → Text
dns_text servers = join (codes ",") (map print_v4 servers)

module _ {World : Type 0} (device : Device World) where
  unfoldable pub set_gateway : Text → Option ℕ → WorldReq World (Unit {0})
  set_gateway conn none = pure tt
  set_gateway conn (some g) = do
    run_nmcli device (modify conn (gateway_property ∷ print_v4 g ∷ []))
    pure tt

  abbrev set_some_dns : Text → List ℕ → WorldReq World (Unit {0})
  set_some_dns conn [] = pure tt
  set_some_dns conn (d ∷ ds) = do
    run_nmcli device (modify conn (dns_property ∷ dns_text (d ∷ ds) ∷ []))
    pure tt

  unfoldable pub set_dns : Text → Option (List ℕ) → WorldReq World (Unit {0})
  set_dns conn none = pure tt
  set_dns conn (some servers) = set_some_dns conn servers

  unfoldable pub set_method : Text → NetworkConfig → InterfaceMethod → WorldReq World (Unit {0})
  set_method conn payload dhcp = do
    run_nmcli device (modify conn (method_property ∷ codes "auto" ∷ []))
    pure tt
  set_method conn payload static = do
    run_nmcli device (
        modify conn (
          method_property
          ∷ codes "manual"
          ∷ addresses_property
          ∷ address_text payload.address
          ∷ []))
    set_gateway conn payload.gateway
    set_dns conn payload.dns

  -- The route after its check of the interface
  unfoldable pub configure_known : NetworkConfig → WorldReq World (Unit {0})
  configure_known payload = do
    set_method (conn_name payload.interface) payload payload.method
    run_nmcli device (bring_up (conn_name payload.interface))
    pure tt

  unfoldable pub configure_interface : NetworkConfig → WorldReq World (Unit {0})
  configure_interface payload w =
      let known = configure_known payload w in
      if existing_interface device payload.interface w
      then known
      else raise (http 404 unknown_interface) w
