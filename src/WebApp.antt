-- ===== src/WebApp.antt =====
-- The state of the web application, where it runs, and how a request of it fails.
use keekars_pi_vpn.Base.{ℕ, Bool, Option, List, Act}
use keekars_pi_vpn.Base.Text.{Text}
use keekars_pi_vpn.Base.Dict.{Dict}
use keekars_pi_vpn.Helper.Host.{Tools, Host}

-- What an `HTTPException` tells the user.
pub data Detail : Type 0 where
  helper_unavailable operation_failed unknown_tunnel unknown_peer tunnel_inactive no_free_address :
      Detail
  network_operation_failed unknown_interface route_not_added route_not_removed : Detail
  system_action_failed login_failed : Detail
  overlapping : List Text → Detail

-- How a request fails: by an `HTTPException`, or by any other exception, which becomes a 500.
pub data HttpError : Type 0 where
  http : ℕ → Detail → HttpError
  unhandled : HttpError

pub record Peer : Type 0 where
  pub id : Text
  pub description : Text
  pub tunnel_address : Text
  pub allowed_ips : List Text
  pub public_key : Text
  pub created_by : Option Text

pub record TunnelMeta : Type 0 where
  pub address : Text
  pub endpoint : Option Text
  pub listen_port : ℕ
  pub peers : List Peer

-- The file peers.json: not there, not to be read as JSON, or with the tunnels that it lists.
pub data MetadataFile : Type 0 where
  absent unreadable : MetadataFile
  holds : Dict TunnelMeta → MetadataFile

-- An address of an interface, as `psutil` reports it.
pub record IfAddr : Type 0 where
  pub family : ℕ
  pub address : Text
  pub netmask : Option Text

-- Where the application runs: the daemon's tools, the socket, the uids, and what `psutil`, `uuid4` and
-- the disk give. `saves` says whether the metadata file can be written.
pub record Site (World : Type 0) : Type 0 where
  pub tools : Tools World
  pub reachable : World → Bool
  pub allowed_uid : Option ℕ
  pub own_uid : ℕ
  pub net_if_addrs : World → Dict (List IfAddr)
  pub uuid4 : World → Text × World
  pub saves : World → Bool

pub record App (World : Type 0) : Type 0 where
  pub host : Host World
  pub metadata : MetadataFile

abbrev pub Req : Type 0 → Type 0 → Type 0
Req World A = Act HttpError (App World) A
