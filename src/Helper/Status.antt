-- ===== src/Helper/Status.antt =====
-- `cmd_tunnel_status`: what `wg show all dump` and `systemctl is-active` say, beside what the files say.
use keekars_pi_vpn.Base.{
  ℕ, Bool, true, not, ◌&&◌, Option, none, some, List, [], ◌∷◌, ◌++◌, ◌==◌, if◌then◌else◌, filter,
  all, is_nil, Result, ok, err, pure, lift, ◌>>=◌,
}
use keekars_pi_vpn.Base.Text.{
  Text, codes, text_eq, strip, split, splitlines, is_digit, value_from, sorted, strip_suffix,
}
use keekars_pi_vpn.Base.Dict.{Dict, lookup, insert, keys}
use keekars_pi_vpn.Helper.Conf.Info.{ConfInfo, server, parse_conf_info}
use keekars_pi_vpn.Helper.Request.{Json, Request, null, get}
use keekars_pi_vpn.Helper.Validate.{Failure, rejected, crashed, validate_tunnel_name}
use keekars_pi_vpn.Helper.Blocks.{unit_name}
use keekars_pi_vpn.Helper.Host.{Outcome, Tools, Cmd, read_conf, run}

pub record LivePeer : Type 0 where
  pub public_key : Text
  pub endpoint : Option Text
  pub allowed_ips : Text
  pub latest_handshake : ℕ
  pub rx_bytes : ℕ
  pub tx_bytes : ℕ

-- The entry of one interface in `live`
pub record LiveEntry : Type 0 where
  pub public_key : Option Text
  pub listen_port : Option Text
  pub peers : List LivePeer

pub record TunnelInfo : Type 0 where
  pub name : Text
  pub active : Bool
  pub listen_port : Option Text
  pub public_key : Option Text
  pub peers : List LivePeer
  pub conf : ConfInfo

abbrev no_entry : LiveEntry
no_entry = record { public_key = none; listen_port = none; peers = [] }

-- `int(col) if col.isdigit() else 0`
unfoldable pub int_or_zero : Text → ℕ
int_or_zero t = if not (is_nil t) && all is_digit t then value_from 0 t else 0

-- What the columns behind the interface's name add to its entry: four are the interface's line, and
-- eight a peer's. Any other line adds nothing.
unfoldable pub add_columns : List Text → LiveEntry → LiveEntry
add_columns (private_key ∷ public_key ∷ listen_port ∷ fwmark ∷ []) e = record e {
  public_key = some public_key;
  listen_port = some listen_port;
}
add_columns
      (public_key ∷ preshared_key ∷ endpoint ∷ allowed_ips ∷ handshake ∷ rx ∷ tx ∷ keepalive ∷ [])
      e =
    record e {
      peers =
          e.peers
          ++ record {
            public_key = public_key;
            endpoint = if text_eq endpoint (codes "(none)") then none else some endpoint;
            allowed_ips = allowed_ips;
            latest_handshake = int_or_zero handshake;
            rx_bytes = int_or_zero rx;
            tx_bytes = int_or_zero tx;
          }
            ∷ [];
    }
add_columns _ e = e

abbrev pub entry_of : Option LiveEntry → LiveEntry
entry_of none = no_entry
entry_of (some e) = e

unfoldable pub add_line : List Text → Dict LiveEntry → Dict LiveEntry
add_line [] live = live
add_line (iface ∷ cols) live =
    if is_nil iface
    then live
    else insert iface (add_columns cols (entry_of (lookup iface live))) live

unfoldable pub parse_dump : List Text → Dict LiveEntry → Dict LiveEntry
parse_dump [] live = live
parse_dump (line ∷ lines) live = parse_dump lines (add_line (split 9 line) live)

-- The names of the files `*.conf`, without that suffix
unfoldable pub conf_names : List Text → List Text
conf_names [] = []
conf_names (file ∷ files) = elim (strip_suffix (codes ".conf") file) [
  | none ↦ conf_names files
  | some name ↦ (if is_nil name then file else name) ∷ conf_names files
]

-- `n == name` for a name that is given
abbrev pub wanted : Option Text → Text → Bool
wanted none n = true
wanted (some name) n = text_eq n name

-- The optional name of the request
unfoldable pub requested_name : Json → Result Failure (Option Text)
requested_name null = ok none
requested_name v = elim (validate_tunnel_name v) [ ok t ↦ ok (some t) | err e ↦ err e ]

abbrev pub dump_entries : Outcome → Dict LiveEntry
dump_entries o = if o.returncode == 0 then parse_dump (splitlines o.stdout) [] else []

abbrev default_info : ConfInfo
default_info = record {
  mode = server;
  configured_address = none;
  configured_endpoint = none;
  configured_allowed_ips = [];
}

-- `except HelperError`
unfoldable pub info_or_default : Result Failure Text → Result Failure ConfInfo
info_or_default (ok content) = ok (parse_conf_info content)
info_or_default (err (rejected r)) = ok default_info
info_or_default (err crashed) = err crashed

abbrev pub tunnel_info : Text → Bool → LiveEntry → ConfInfo → TunnelInfo
tunnel_info name active e info = record {
  name = name;
  active = active;
  listen_port = e.listen_port;
  public_key = e.public_key;
  peers = e.peers;
  conf = info;
}

module _ {World : Type 0} (tools : Tools World) where
  unfoldable pub one_status : Dict LiveEntry → Text → Cmd World TunnelInfo
  one_status live name = do
    o ← run tools (codes "systemctl" ∷ codes "is-active" ∷ unit_name name ∷ []) none
    info ← (λ h. (info_or_default (read_conf name h).0, h))
    let active = text_eq (strip o.stdout) (codes "active")
    pure (tunnel_info name active (entry_of (lookup name live)) info)

  unfoldable pub all_status : Dict LiveEntry → List Text → Cmd World (List TunnelInfo)
  all_status live [] = pure []
  all_status live (name ∷ names) = do
    t ← one_status live name
    ts ← all_status live names
    pure (t ∷ ts)

  unfoldable pub cmd_tunnel_status : Request → Cmd World (List TunnelInfo)
  cmd_tunnel_status req = do
    name ← lift (requested_name (get (codes "name") req))
    files ← (λ h. (ok (keys h.conf_files), h))
    let names = filter (wanted name) (sorted (conf_names files))
    o ← run tools (codes "wg" ∷ codes "show" ∷ codes "all" ∷ codes "dump" ∷ []) none
    all_status (dump_entries o) names
