-- ===== src/Wireguard/Concurrent.antt =====
-- Several requests of app/wireguard.py at once: a route as a task, which other requests may interrupt
-- between any two of its steps; asyncio does so at an `await` only.
use keekars_pi_vpn.Base.{
  List, [], ◌∷◌, ◌++◌, Option, some, Bool, true, false, not, ◌&&◌, find, filter, Result, ok, err,
  pure, continue, ◌>>=◌, ◌≡◌, refl, ◌∙◌,
}
use keekars_pi_vpn.Base.Text.{Text, codes, text_eq}
use keekars_pi_vpn.Base.Dict.{Dict, lookup, insert, remove}
use keekars_pi_vpn.Ip.{IsInterface, network, net4, print_interface}
use keekars_pi_vpn.Helper.Commands.{Keypair}
use keekars_pi_vpn.WebApp.{HttpError, TunnelMeta, Site, App, Req}
use keekars_pi_vpn.HelperClient
use keekars_pi_vpn.Wireguard.Metadata.{load_metadata, save_metadata}
use keekars_pi_vpn.Wireguard.Allocate.{allocate_peer_address}
use keekars_pi_vpn.Wireguard.Tunnels.{
  TunnelCreate, TunnelState, new_tunnel, create_tunnel, delete_tunnel, set_tunnel_state, unless,
  check_overlap, check_activation, first_tunnel,
}
use keekars_pi_vpn.Wireguard.Peers.{
  PeerCreate, Download, download, create_peer, delete_peer, register_peer, make_psk, new_id,
  with_peer, new_peer, known_tunnel, server_key, found_peer,
}
pub mod Steps
pub mod Same
mod Examples

-- A coroutine: it has ended, or it has a next step on the state, after which it goes on by what the step
-- has seen.
pub data Task (World A : Type 0) : Type 0 where
  returns : Result HttpError A → Task World A
  acts : (App World → App World) → (App World → Task World A) → Task World A

module _ {World : Type 0} where
  abbrev pub act : {A : Type 0} → Req World A → Task World A
  act m = acts (λ a. (m a).1) (λ a. returns (m a).0)

  unfoldable pub then : {A B : Type 0} → Task World A → (A → Task World B) → Task World B
  then (returns (ok x)) f = f x
  then (returns (err e)) f = returns (err e)
  then (acts g k) f = acts g (λ a. then (k a) f)

  -- The task without any other
  unfoldable pub run_alone : {A : Type 0} → Task World A → Req World A
  run_alone (returns r) a = (r, a)
  run_alone (acts g k) a = run_alone (k a) (g a)

module _ {World : Type 0} (site : Site World) where
  unfoldable pub create_tunnel_task : TunnelCreate → Task World Text
  create_tunnel_task payload =
      then
        (act (unless site payload.force (check_overlap site (net4 (network payload.address) ∷ []))))
        λ _. then (act (HelperClient.genkey site)) λ keys.
          then
            (act (
              HelperClient.create_tunnel site payload.name (print_interface payload.address)
                payload.listen_port keys.private_key))
            λ _. then (act load_metadata) λ metadata.
              then (act (save_metadata site (insert payload.name (new_tunnel payload) metadata)))
                λ _. returns (ok keys.public_key)

  unfoldable pub delete_tunnel_task : Text → Task World (Unit {0})
  delete_tunnel_task name =
      then (act (HelperClient.delete_tunnel site name))
        λ _. then (act load_metadata) λ metadata. act (save_metadata site (remove name metadata))

  unfoldable pub set_tunnel_state_task : Text → TunnelState → Task World (Unit {0})
  set_tunnel_state_task name payload =
      then (act (HelperClient.tunnel_status site (some name))) λ live.
        then (returns (first_tunnel live)) λ t.
          then
            (act (
              unless site (not (text_eq payload.action (codes "activate") && not payload.force))
                (check_activation site t)))
            λ _. act (HelperClient.set_tunnel_state site name payload.action)

  unfoldable pub register_peer_task :
      Option Text
      → Text
      → PeerCreate
      → Dict TunnelMeta
      → TunnelMeta
      → Text
      → Text
      → Keypair
      → Option Text
      → Task World Download
  register_peer_task user name payload metadata t server_public_key address keys psk =
      then
        (act (HelperClient.add_peer site name keys.public_key (address ∷ []) psk payload.keepalive))
        λ _. then (act (new_id site)) λ id.
          then
            (act (
              save_metadata site
                (insert name (with_peer t (new_peer id payload address keys user)) metadata)))
            λ _. returns (ok (download payload keys address server_public_key psk t))

  unfoldable pub create_peer_task : Option Text → Text → PeerCreate → Task World Download
  unfolding register_peer_task
  create_peer_task user name payload = then (act load_metadata) λ metadata.
      then (returns (known_tunnel (lookup name metadata))) λ t.
        then (act (HelperClient.tunnel_status site (some name))) λ live.
          then (returns (server_key live)) λ server_public_key.
            then (returns (allocate_peer_address t)) λ address.
              then (act (HelperClient.genkey site)) λ keys.
                then (act (make_psk site payload.preshared_key)) λ psk.
                  register_peer_task user name payload metadata t server_public_key address keys psk

  unfoldable pub delete_peer_task : Text → Text → Task World (Unit {0})
  delete_peer_task name peer_id = then (act load_metadata) λ metadata.
      then (returns (known_tunnel (lookup name metadata))) λ t.
        then (returns (found_peer (find (λ p. text_eq p.id peer_id) t.peers))) λ peer.
          then (act (HelperClient.remove_peer site name peer.public_key)) λ _. act (
            save_metadata site (
              insert name (record t { peers = filter (λ p. not (text_eq p.id peer_id)) t.peers })
                metadata))

-- The requests that change something, with a valid IPv4 interface for a new tunnel; the user is the one
-- that has signed in.
pub data Call : Type 0 where
  creating_tunnel : (payload : TunnelCreate) → IsInterface payload.address → Call
  deleting_tunnel : Text → Call
  setting_state : Text → TunnelState → Call
  creating_peer : Option Text → Text → PeerCreate → Call
  deleting_peer : Text → Text → Call

module _ {World : Type 0} (site : Site World) where
  abbrev forget : {A : Type 0} → Task World A → Task World (Unit {0})
  forget t = then t (λ _. returns (ok tt))

  abbrev forget_req : {A : Type 0} → Req World A → Req World (Unit {0})
  forget_req m = m >>= λ _. pure tt

  -- The task of a request, and its route; their answers do not matter here.
  unfoldable pub task_of : Call → Task World (Unit {0})
  task_of (creating_tunnel payload wf) = forget (create_tunnel_task site payload)
  task_of (deleting_tunnel name) = forget (delete_tunnel_task site name)
  task_of (setting_state name payload) = forget (set_tunnel_state_task site name payload)
  task_of (creating_peer user name payload) = forget (create_peer_task site user name payload)
  task_of (deleting_peer name peer_id) = forget (delete_peer_task site name peer_id)

  unfoldable pub route_of : Call → Req World (Unit {0})
  route_of (creating_tunnel payload wf) = forget_req (create_tunnel site payload)
  route_of (deleting_tunnel name) = forget_req (delete_tunnel site name)
  route_of (setting_state name payload) = forget_req (set_tunnel_state site name payload)
  route_of (creating_peer user name payload) = forget_req (create_peer site user name payload)
  route_of (deleting_peer name peer_id) = forget_req (delete_peer site name peer_id)

  -- The tasks that are on their way, and the state. A request may come at any time, and any task may
  -- make the next step.
  pub data Reached (first : App World) : List (Task World (Unit {0})) → App World → Type 0 where
    start : Reached first [] first
    comes :
        {tasks : List (Task World (Unit {0}))} {a : App World}
        → Reached first tasks a
        → (c : Call) → Reached first (task_of c ∷ tasks) a
    goes_on :
        (before after : List (Task World (Unit {0}))) (a : App World) (g : App World → App World)
        (k : App World → Task World (Unit {0}))
        → Reached first (before ++ acts g k ∷ after) a
        → Reached first (before ++ k a ∷ after) (g a)
