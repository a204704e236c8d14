-- ===== src/Routing.antt =====
-- app/routing.py: the routes of the kernel's tables, with `RouteRequest` and `RouteDeleteRequest` of
-- app/models.py.
use keekars_pi_vpn.Base.{
  ℕ, Bool, Option, none, some, List, [], ◌∷◌, ◌==◌, if◌then◌else◌, any, Act, Result, ok, err, pure,
  raise, lift, get, ◌>>=◌, ◌>>◌,
}
use keekars_pi_vpn.Base.Text.{Text, codes, text_eq}
use keekars_pi_vpn.Ip.{Network, print_v4}
use keekars_pi_vpn.WebApp.{HttpError, http, unknown_interface, route_not_added, route_not_removed}
mod Examples

pub record RouteRequest : Type 0 where
  pub destination : Network
  pub gateway : Option ℕ
  pub interface : Text
  pub table : Option ℕ

pub record RouteDeleteRequest : Type 0 where
  pub destination : Network
  pub interface : Text
  pub table : Option ℕ

-- A route of the kernel: the attributes that the source reads.
pub record KernelRoute : Type 0 where
  pub oif : Option ℕ
  pub dst : Option Text
  pub dst_len : Option ℕ
  pub gateway : Option Text

-- A command on the kernel's tables
pub data Verb : Type 0 where
  add del : Verb

pub record RouteCommand : Type 0 where
  pub verb : Verb
  pub dst : Text
  pub dst_len : ℕ
  pub gateway : Option Text
  pub oif : ℕ
  pub table : ℕ

-- pyroute2's `IPRoute`, and the interfaces that psutil reports. `route` answers whether the kernel took
-- the command, a NetlinkError being `false`; `get_links` gives the names of the links.
pub record Netlink (World : Type 0) : Type 0 where
  pub interfaces : World → List Text
  pub link_lookup : Text → World → List ℕ
  pub get_links : ℕ → World → List (Option Text)
  pub get_routes : ℕ → World → List KernelRoute
  pub route : RouteCommand → World → Bool × World

-- One route of the answer
pub record RouteEntry : Type 0 where
  pub destination : Text
  pub dst_len : Option ℕ
  pub gateway : Option Text
  pub interface : Option Text
  pub table : ℕ

abbrev default_table : ℕ
default_table = 254

-- `payload.table or _DEFAULT_TABLE`
unfoldable pub table_or_default : Option ℕ → ℕ
table_or_default none = default_table
table_or_default (some t) = if t == 0 then default_table else t

abbrev text_or_default : Option Text → Text
text_or_default none = codes "default"
text_or_default (some t) = t

abbrev first_name : List (Option Text) → Option Text
first_name [] = none
first_name (name ∷ _) = name

abbrev pub index_or_404 : List ℕ → Result HttpError ℕ
index_or_404 [] = err (http 404 unknown_interface)
index_or_404 (idx ∷ _) = ok idx

abbrev pub print_gateway : Option ℕ → Option Text
print_gateway none = none
print_gateway (some g) = some (print_v4 g)

-- `_add_route_sync` and `_del_route_sync`
unfoldable pub add_command : RouteRequest → ℕ → RouteCommand
unfolding table_or_default
add_command payload idx = record {
  verb = add;
  dst = print_v4 payload.destination.network_address;
  dst_len = payload.destination.prefixlen;
  gateway = print_gateway payload.gateway;
  oif = idx;
  table = table_or_default payload.table;
}

unfoldable pub del_command : RouteDeleteRequest → ℕ → RouteCommand
unfolding table_or_default
del_command payload idx = record {
  verb = del;
  dst = print_v4 payload.destination.network_address;
  dst_len = payload.destination.prefixlen;
  gateway = none;
  oif = idx;
  table = table_or_default payload.table;
}

module _ {World : Type 0} (netlink : Netlink World) where
  abbrev Req : Type 0 → Type 0
  Req A = Act HttpError World A

  unfoldable pub interface_of : Option ℕ → World → Option Text
  interface_of none w = none
  interface_of (some oif) w = first_name (netlink.get_links oif w)

  unfoldable pub route_entries : ℕ → World → List KernelRoute → List RouteEntry
  unfolding interface_of
  route_entries table w [] = []
  route_entries table w (r ∷ rs) =
      record {
        destination = text_or_default r.dst;
        dst_len = r.dst_len;
        gateway = r.gateway;
        interface = interface_of r.oif w;
        table = table;
      }
      ∷ route_entries table w rs

  unfoldable pub list_routes : ℕ → Req (List RouteEntry)
  unfolding route_entries
  list_routes table w = (ok (route_entries table w (netlink.get_routes table w)), w)

  -- `_existing_interfaces`, as a check that raises
  unfoldable pub check_interface : Text → Req (Unit {0})
  check_interface name w =
      if any (λ i. text_eq i name) (netlink.interfaces w)
      then (ok tt, w)
      else (err (http 404 unknown_interface), w)

  unfoldable pub iface_index : Text → Req ℕ
  iface_index name w = (index_or_404 (netlink.link_lookup name w), w)

  -- A command, with what a NetlinkError becomes
  unfoldable pub run_route_command : HttpError → RouteCommand → Req (Unit {0})
  run_route_command refused command w =
      let (taken, w') = netlink.route command w in if taken then (ok tt, w') else (err refused, w')

  unfoldable pub add_route : RouteRequest → Req (Unit {0})
  add_route payload = do
    check_interface payload.interface
    idx ← iface_index payload.interface
    run_route_command (http 400 route_not_added) (add_command payload idx)

  unfoldable pub delete_route : RouteDeleteRequest → Req (Unit {0})
  delete_route payload = do
    check_interface payload.interface
    idx ← iface_index payload.interface
    run_route_command (http 400 route_not_removed) (del_command payload idx)
