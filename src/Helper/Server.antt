-- ===== src/Helper/Server.antt =====
-- `DISPATCH` and `handle_client`: one connection of the daemon, from the caller's credentials and the
-- line that it sent to the response. The reading and writing of JSON is in the types of the two ends.
use keekars_pi_vpn.Base.{
  ℕ, Bool, false, Option, none, some, List, ◌≡◌, ◌≢◌, refl, ◌==◌, if◌then◌else◌, Result, ok, err,
  pure, ◌>>=◌, arith, ◌⊎◌, inl, inr, Bool-cases,
}
use keekars_pi_vpn.Base.Text.{Text, codes, text_eq}
use keekars_pi_vpn.Helper.Request.{Json, Request, str, arr, obj, get}
use keekars_pi_vpn.Helper.Validate.{Failure, Reason, rejected, crashed}
use keekars_pi_vpn.Helper.Host.{Tools, Host, Cmd}
use keekars_pi_vpn.Helper.Commands.{
  Keypair, cmd_genkey, cmd_create_tunnel, cmd_delete_tunnel, cmd_add_peer, cmd_remove_peer,
  cmd_set_tunnel_state,
}
use keekars_pi_vpn.Helper.Status.{TunnelInfo, cmd_tunnel_status}

-- What `readline` and `json.loads` give: nothing, a line that is no JSON, a value that is no object,
-- or an object.
pub data Line : Type 0 where
  end_of_file not_json : Line
  not_object : Json → Line
  request : Request → Line

-- The "result" of a response
pub data Payload : Type 0 where
  nothing : Payload
  keypair : Keypair → Payload
  tunnels : List TunnelInfo → Payload

pub data Response : Type 0 where
  success : Payload → Response
  invalid_request unknown_command internal_error : Response
  refused : Reason → Response

pub data Command : Type 0 where
  genkey create_tunnel delete_tunnel add_peer remove_peer tunnel_status set_tunnel_state : Command

-- `DISPATCH.get(cmd)`, for a text
unfoldable pub command_named : Text → Option Command
command_named t =
    if text_eq t (codes "genkey")
    then some genkey
    else if text_eq t (codes "create_tunnel")
    then some create_tunnel
    else if text_eq t (codes "delete_tunnel")
    then some delete_tunnel
    else if text_eq t (codes "add_peer")
    then some add_peer
    else if text_eq t (codes "remove_peer")
    then some remove_peer
    else if text_eq t (codes "tunnel_status")
    then some tunnel_status
    else if text_eq t (codes "set_tunnel_state")
    then some set_tunnel_state
    else none

-- A list or an object is no key of a dictionary: the lookup raises.
pub data Lookup : Type 0 where
  unhashable unknown : Lookup
  found : Command → Lookup

abbrev lookup_of : Option Command → Lookup
lookup_of none = unknown
lookup_of (some c) = found c

unfoldable pub dispatch : Json → Lookup
dispatch (str t) = lookup_of (command_named t)
dispatch (arr _) = unhashable
dispatch (obj _) = unhashable
dispatch _ = unknown

unfoldable pub response_to : Result Failure Payload → Response
response_to (ok p) = success p
response_to (err (rejected r)) = refused r
response_to (err crashed) = internal_error

module _ {World : Type 0} (tools : Tools World) where
  unfoldable pub handler : Command → Request → Cmd World Payload
  handler genkey req = do k ← cmd_genkey tools; pure (keypair k)
  handler create_tunnel req = do _ ← cmd_create_tunnel tools req; pure nothing
  handler delete_tunnel req = do _ ← cmd_delete_tunnel tools req; pure nothing
  handler add_peer req = do _ ← cmd_add_peer tools req; pure nothing
  handler remove_peer req = do _ ← cmd_remove_peer tools req; pure nothing
  handler tunnel_status req = do ts ← cmd_tunnel_status tools req; pure (tunnels ts)
  handler set_tunnel_state req = do _ ← cmd_set_tunnel_state tools req; pure nothing

  unfoldable pub respond : Lookup → Request → Host World → Option Response × Host World
  respond unhashable req h = (none, h)
  respond unknown req h = (some unknown_command, h)
  respond (found c) req h = let (r, h') = handler c req h in (some (response_to r), h')

  unfoldable pub handle_line : Line → Host World → Option Response × Host World
  handle_line end_of_file h = (none, h)
  handle_line not_json h = (some invalid_request, h)
  handle_line (not_object _) h = (none, h)
  handle_line (request req) h = respond (dispatch (get (codes "cmd") req)) req h

  abbrev admitted : Option ℕ → ℕ → Bool
  admitted none peer_uid = false
  admitted (some uid) peer_uid = peer_uid == uid

  -- The two numbers are the uid of the user `pi-config-ui`, if there is that user, and the caller's.
  unfoldable pub handle_client : Option ℕ → ℕ → Line → Host World → Option Response × Host World
  handle_client allowed_uid peer_uid line h =
      if admitted allowed_uid peer_uid then handle_line line h else (none, h)

  -- Whatever is sent, and whoever sends it: either the caller is the user `pi-config-ui` and the
  -- line is handled, or the caller is another, gets no response, and nothing changes.
  pub handle_client_access :
      (allowed_uid : Option ℕ) (peer_uid : ℕ) (line : Line) (h : Host World)
      → (allowed_uid ≡ some peer_uid)
          × (handle_client allowed_uid peer_uid line h ≡ handle_line line h)
        ⊎ (allowed_uid ≢ some peer_uid) × (handle_client allowed_uid peer_uid line h ≡ (none, h))
  unfolding handle_client
  handle_client_access none peer_uid line h = inr (λ e. cc, refl)
  handle_client_access (some uid) peer_uid line h = elim (Bool-cases (peer_uid == uid)) [
    | inl e ↦ inl (ground arith, ground arith)
    | inr e ↦ inr (λ same. ground arith, ground arith)
  ]
