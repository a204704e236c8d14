-- ===== src/Wireguard/Subnets.antt =====
-- `_overlapping_local_subnets`
use keekars_pi_vpn.Base.{not, Option, none, some, List, [], ◌∷◌, ◌++◌, ◌==◌, if◌then◌else◌, is_nil}
use keekars_pi_vpn.Base.Text.{Text, codes}
use keekars_pi_vpn.Base.Dict.{Dict}
use keekars_pi_vpn.Ip.{
  AnyInterface, AnyNetwork, ip_interface, any_network, overlaps_any, print_any_network,
}
use keekars_pi_vpn.WebApp.{IfAddr}

-- `f"{candidate} overlaps {iface_name} ({local_net})"`
unfoldable pub conflict_text : Text → AnyNetwork → AnyNetwork → Text
conflict_text iface candidate local =
    print_any_network candidate
    ++ (codes " overlaps " ++ (iface ++ (codes " (" ++ (print_any_network local ++ codes ")"))))

abbrev pub read_network : Option AnyInterface → Option AnyNetwork
read_network none = none
read_network (some i) = some (any_network i)

abbrev pub masked_network : Text → Option Text → Option AnyNetwork
masked_network address none = none
masked_network address (some netmask) =
    if is_nil netmask then none else read_network (ip_interface (address ++ (b'/' ∷ netmask)))

-- The network of an address, if it has a netmask and both can be read.
unfoldable pub local_network : IfAddr → Option AnyNetwork
local_network a = if not (a.family == 2) then none else masked_network a.address a.netmask

-- The loop over the candidates
unfoldable pub conflicts_with : Text → AnyNetwork → List AnyNetwork → List Text
conflicts_with iface local [] = []
conflicts_with iface local (candidate ∷ cs) =
    let rest = conflicts_with iface local cs in
    if overlaps_any candidate local then conflict_text iface candidate local ∷ rest else rest

-- The loop over the addresses of an interface
unfoldable pub address_conflicts : Text → List IfAddr → List AnyNetwork → List Text
address_conflicts iface [] candidates = []
address_conflicts iface (a ∷ addrs) candidates = elim (local_network a) [
  | none ↦ address_conflicts iface addrs candidates
  | some local ↦ conflicts_with iface local candidates ++ address_conflicts iface addrs candidates
]

unfoldable pub overlapping_local_subnets : Dict (List IfAddr) → List AnyNetwork → List Text
overlapping_local_subnets [] candidates = []
overlapping_local_subnets ((iface, addrs) ∷ rest) candidates =
    address_conflicts iface addrs candidates ++ overlapping_local_subnets rest candidates
