-- ===== src/Network/Nmcli.antt =====
-- app/network.py: `_run_nmcli`, and what the routes read of the interfaces.
use keekars_pi_vpn.Base.{
  ℕ, Bool, false, Option, none, some, List, ◌==◌, if◌then◌else◌, [], ◌∷◌, Act, pure, raise, ok,
}
use keekars_pi_vpn.Base.Text.{Text}
use keekars_pi_vpn.Base.Dict.{Dict, has_key, lookup}
use keekars_pi_vpn.WebApp.{HttpError, http, unhandled, network_operation_failed}

-- The end of a process: its code, and its decoded output
pub record Finished : Type 0 where
  pub returncode : ℕ
  pub stdout : Text

-- What the routes run and read: `nmcli` with its arguments, and the two reports of `psutil`.
-- A program that is not there is `none`.
pub record Device (World : Type 0) : Type 0 where
  pub nmcli : List Text → World → Option Finished × World
  pub net_if_addrs : World → Dict (List Text)
  pub net_if_stats : World → Dict Bool

-- A request whose state is the world
abbrev pub WorldReq : Type 0 → Type 0 → Type 0
WorldReq World A = Act HttpError World A

abbrev pub finished : {World : Type 0} → Option Finished → WorldReq World Text
finished none = raise unhandled
finished (some f) =
    if f.returncode == 0 then pure f.stdout else raise (http 502 network_operation_failed)

module _ {World : Type 0} (device : Device World) where
  unfoldable pub run_nmcli : List Text → WorldReq World Text
  run_nmcli args w = let (f, w') = device.nmcli args w in finished f w'

  -- `_existing_interfaces`, as the question whether it has the name
  unfoldable pub existing_interface : Text → World → Bool
  existing_interface name w = has_key name (device.net_if_addrs w)

-- One interface of `list_interfaces`
pub record InterfaceEntry : Type 0 where
  pub name : Text
  pub is_up : Bool
  pub addresses : List Text

abbrev up_or_false : Option Bool → Bool
up_or_false none = false
up_or_false (some b) = b

unfoldable pub interface_entries : Dict Bool → Dict (List Text) → List InterfaceEntry
interface_entries stats [] = []
interface_entries stats ((name, addresses) ∷ rest) =
    record { name = name; is_up = up_or_false (lookup name stats); addresses = addresses }
    ∷ interface_entries stats rest

unfoldable pub list_interfaces :
    {World : Type 0} → Device World → WorldReq World (List InterfaceEntry)
unfolding interface_entries
list_interfaces device w =
    (ok (interface_entries (device.net_if_stats w) (device.net_if_addrs w)), w)
