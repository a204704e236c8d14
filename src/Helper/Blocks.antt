-- ===== src/Helper/Blocks.antt =====
-- The pure parts of the commands: what they check, the text that they write into a tunnel's file,
-- and the arguments that they give to `wg` and `systemctl`.
use keekars_pi_vpn.Base.{
  String, Bool, true, false, Option, none, some, List, [], ◌∷◌, ◌++◌, if◌then◌else◌, ok, err,
}
use keekars_pi_vpn.Base.Text.{Text, codes, newline, contains, text_eq}
use keekars_pi_vpn.Ip.{AnyInterface, print_any_interface}
use keekars_pi_vpn.Helper.Request.{Json, null, str, is_int_in, print_int, is_true_int}
use keekars_pi_vpn.Helper.Validate.{
  Reason, rejected, invalid_address, invalid_action, Checked, validate_wg_key,
}

-- `ipaddress.ip_interface(req.get("address", ""))`
abbrev pub checked_address : Option AnyInterface → Checked AnyInterface
checked_address none = err (rejected invalid_address)
checked_address (some i) = ok i

abbrev pub require : Bool → Reason → Checked (Unit {0})
require true r = ok tt
require false r = err (rejected r)

-- A key that is `None`, or valid.
unfoldable pub validate_optional_key : Text → Json → Checked (Option Text)
validate_optional_key field null = ok none
validate_optional_key field v = elim (validate_wg_key field v) [
  | ok k ↦ ok (some k)
  | err e ↦ err e
]

unfoldable pub is_keepalive : Json → Bool
is_keepalive null = true
is_keepalive v = is_int_in 0 3600 v

abbrev pub line : String → Text → Text
line key value = codes key ++ (value ++ newline ∷ [])

-- The new file of `cmd_create_tunnel`
unfoldable pub interface_block : Text → AnyInterface → Json → Text
interface_block private_key address listen_port =
    codes "[Interface]\n"
    ++ (line "PrivateKey = " private_key
        ++ (line "Address = " (print_any_interface address)
            ++ line "ListenPort = " (print_int listen_port)))

abbrev pub psk_line : Option Text → Text
psk_line none = []
psk_line (some psk) = line "PresharedKey = " psk

-- The block that `cmd_add_peer` appends
unfoldable pub peer_block : Text → Option Text → Text → Json → Text
peer_block public_key psk allowed_ips keepalive =
    codes "[Peer]\n"
    ++ (line "PublicKey = " public_key
        ++ (psk_line psk
            ++ (line "AllowedIPs = " allowed_ips
                ++ (if is_true_int keepalive
                    then line "PersistentKeepalive = " (print_int keepalive)
                    else []))))

-- `f"PublicKey = {public_key}" in block`
unfoldable pub names_key : Text → Text → Bool
names_key public_key block = contains (codes "PublicKey = " ++ public_key) block

unfoldable pub unit_name : Text → Text
unit_name name = codes "wg-quick@" ++ name

unfoldable pub set_args : Text → Text → Text → Json → List Text
set_args tunnel public_key allowed_ips keepalive =
    codes "wg"
    ∷ codes "set"
    ∷ tunnel
    ∷ codes "peer"
    ∷ public_key
    ∷ codes "allowed-ips"
    ∷ allowed_ips
    ∷ (if is_true_int keepalive
        then codes "persistent-keepalive" ∷ print_int keepalive ∷ []
        else [])

-- What "activate", "disconnect" and "deactivate" run.
pub data Action : Type 0 where
  activate deactivate disconnect : Action

unfoldable pub parse_action : Json → Checked Action
parse_action (str t) =
    if text_eq t (codes "activate")
    then ok activate
    else if text_eq t (codes "deactivate")
    then ok deactivate
    else if text_eq t (codes "disconnect")
    then ok disconnect
    else err (rejected invalid_action)
parse_action _ = err (rejected invalid_action)

unfoldable pub systemctl_args : Action → Text → List Text
unfolding unit_name
systemctl_args activate name =
    codes "systemctl" ∷ codes "enable" ∷ codes "--now" ∷ unit_name name ∷ []
systemctl_args disconnect name = codes "systemctl" ∷ codes "stop" ∷ unit_name name ∷ []
systemctl_args deactivate name =
    codes "systemctl" ∷ codes "disable" ∷ codes "--now" ∷ unit_name name ∷ []

unfoldable pub remove_args : Text → Text → List Text
remove_args tunnel public_key =
    codes "wg" ∷ codes "set" ∷ tunnel ∷ codes "peer" ∷ public_key ∷ codes "remove" ∷ []
