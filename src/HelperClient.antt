-- ===== src/HelperClient.antt =====
-- app/wg_helper_client.py: the application's end of the daemon's socket.
use keekars_pi_vpn.Base.{
  ℕ, Option, none, some, List, [], ◌∷◌, if◌then◌else◌, Result, ok, err, pure, ◌>>=◌,
}
use keekars_pi_vpn.Base.Text.{Text, codes}
use keekars_pi_vpn.Base.Dict.{Dict}
use keekars_pi_vpn.Helper.Request.{Json, Items, null, int, str, arr, nil, item}
use keekars_pi_vpn.Helper.Commands.{Keypair}
use keekars_pi_vpn.Helper.Status.{TunnelInfo}
use keekars_pi_vpn.Helper.Server.{
  request, Payload, keypair, tunnels, Response, success, handle_client,
}
use keekars_pi_vpn.WebApp.{
  HttpError, http, unhandled, helper_unavailable, operation_failed, Site, Req,
}

-- No line, and a response that is not "ok", both give the generic error.
abbrev pub answer : Option Response → Result HttpError Payload
answer (some (success p)) = ok p
answer _ = err (http 502 operation_failed)

unfoldable pub strings : List Text → Items
strings [] = nil
strings (t ∷ ts) = item (str t) (strings ts)

abbrev pub text_or_null : Option Text → Json
text_or_null none = null
text_or_null (some t) = str t

abbrev pub int_or_null : Option ℕ → Json
int_or_null none = null
int_or_null (some n) = int n

-- `response["private_key"]` raises where the result has no such key.
abbrev as_keypair : Payload → Result HttpError Keypair
as_keypair (keypair k) = ok k
as_keypair _ = err unhandled

-- `result.get("tunnels", [])`
abbrev as_tunnels : Payload → List TunnelInfo
as_tunnels (tunnels ts) = ts
as_tunnels _ = []

module _ {World : Type 0} (site : Site World) where
  -- `_call`
  unfoldable pub call : Text → Dict Json → Req World Payload
  call cmd params a =
      if site.reachable a.host.outside
      then (let (r, h) =
            handle_client site.tools site.allowed_uid site.own_uid
              (request ((codes "cmd", str cmd) ∷ params)) a.host in
          (answer r, record a { host = h }))
      else (err (http 502 helper_unavailable), a)

  unfoldable pub genkey : Req World Keypair
  genkey = do p ← call (codes "genkey") []; (λ a. (as_keypair p, a))

  unfoldable pub create_tunnel : Text → Text → ℕ → Text → Req World (Unit {0})
  create_tunnel name address listen_port private_key = do
    _ ← call (codes "create_tunnel") (
        (codes "name", str name)
        ∷ (codes "address", str address)
        ∷ (codes "listen_port", int listen_port)
        ∷ (codes "private_key", str private_key)
        ∷ [])
    pure tt

  unfoldable pub delete_tunnel : Text → Req World (Unit {0})
  delete_tunnel name = do _ ← call (codes "delete_tunnel") ((codes "name", str name) ∷ []); pure tt

  unfoldable pub add_peer : Text → Text → List Text → Option Text → Option ℕ → Req World (Unit {0})
  unfolding strings
  add_peer tunnel public_key allowed_ips preshared_key keepalive = do
    _ ← call (codes "add_peer") (
        (codes "tunnel", str tunnel)
        ∷ (codes "public_key", str public_key)
        ∷ (codes "allowed_ips", arr (strings allowed_ips))
        ∷ (codes "preshared_key", text_or_null preshared_key)
        ∷ (codes "keepalive", int_or_null keepalive)
        ∷ [])
    pure tt

  unfoldable pub remove_peer : Text → Text → Req World (Unit {0})
  remove_peer tunnel public_key = do
    _ ←
        call (codes "remove_peer")
          ((codes "tunnel", str tunnel) ∷ (codes "public_key", str public_key) ∷ [])
    pure tt

  unfoldable pub tunnel_status : Option Text → Req World (List TunnelInfo)
  tunnel_status name = do
    p ← call (codes "tunnel_status") ((codes "name", text_or_null name) ∷ [])
    pure (as_tunnels p)

  unfoldable pub set_tunnel_state : Text → Text → Req World (Unit {0})
  set_tunnel_state name action = do
    _ ←
        call (codes "set_tunnel_state")
          ((codes "name", str name) ∷ (codes "action", str action) ∷ [])
    pure tt
