-- ===== src/Wireguard/Concurrent/Examples.antt =====
-- Two requests that are interleaved: `delete_tunnel` runs whole between two steps of `delete_peer`.
use keekars_pi_vpn.Base.{find, [], ◌∷◌, ◌≡◌, refl}
use keekars_pi_vpn.Base.Text.{codes, text_operations}
use keekars_pi_vpn.Base.Dict.{lookup, insert, remove}
use keekars_pi_vpn.Wireguard.Metadata.{save_metadata, load_metadata, tunnels_in}
use keekars_pi_vpn.HelperClient
use keekars_pi_vpn.Helper.Server.{
  handle_client, handle_line, respond, dispatch, command_named, response_to, handler,
}
use keekars_pi_vpn.Helper.Commands.{helper_operations}
use keekars_pi_vpn.WebApp.{App, holds}
use keekars_pi_vpn.Wireguard.Sound.{IsSound}
use keekars_pi_vpn.Wireguard.SoundExamples.{site, app, app-IsSound, tunnel}
use keekars_pi_vpn.Wireguard.Concurrent.{
  Task, returns, acts, then, delete_tunnel_task, delete_peer_task, deleting_tunnel, deleting_peer,
  task_of, Reached, start, comes, goes_on,
}
use keekars_pi_vpn.Wireguard.Concurrent.Steps.{reached-IsSound}

abbrev next_task : Task (Unit {0}) (Unit {0}) → App (Unit {0}) → Task (Unit {0}) (Unit {0})
next_task (returns r) a = returns r
next_task (acts g k) a = k a

abbrev next_app : Task (Unit {0}) (Unit {0}) → App (Unit {0}) → App (Unit {0})
next_app (returns r) a = a
next_app (acts g k) a = g a

abbrev peer_task : Task (Unit {0}) (Unit {0})
peer_task = task_of site (deleting_peer (codes "wg0") (codes "id-1"))

abbrev tunnel_task : Task (Unit {0}) (Unit {0})
tunnel_task = task_of site (deleting_tunnel (codes "wg0"))

abbrev after_load : App (Unit {0})
after_load = next_app peer_task app

abbrev loaded : Task (Unit {0}) (Unit {0})
loaded = next_task peer_task app

abbrev after_removal : App (Unit {0})
after_removal = next_app loaded after_load

abbrev removed : Task (Unit {0}) (Unit {0})
removed = next_task loaded after_load

-- `delete_tunnel` is the second task: the daemon's answer, the metadata, and the save.
abbrev tunnel_gone : App (Unit {0})
tunnel_gone = next_app tunnel_task after_removal

abbrev told : Task (Unit {0}) (Unit {0})
told = next_task tunnel_task after_removal

abbrev tunnel_read : App (Unit {0})
tunnel_read = next_app told tunnel_gone

abbrev read : Task (Unit {0}) (Unit {0})
read = next_task told tunnel_gone

abbrev tunnel_saved : App (Unit {0})
tunnel_saved = next_app read tunnel_read

abbrev tunnel_done : Task (Unit {0}) (Unit {0})
tunnel_done = next_task read tunnel_read

-- Then `delete_peer` saves what it has read.
abbrev peer_saved : App (Unit {0})
peer_saved = next_app removed tunnel_saved

abbrev peer_done : Task (Unit {0}) (Unit {0})
peer_done = next_task removed tunnel_saved

-- `delete_peer` has read the metadata and has removed the peer from the daemon's files.
reached_removal : Reached site app (removed ∷ tunnel_task ∷ []) after_removal
unfolding task_of delete_peer_task then load_metadata tunnels_in lookup find text_operations
reached_removal = goes_on [] (tunnel_task ∷ []) after_load _ _ (
    goes_on [] (tunnel_task ∷ []) app _ _ (
      comes (comes start (deleting_tunnel (codes "wg0")))
        (deleting_peer (codes "wg0") (codes "id-1"))))

reached_tunnel : Reached site app (removed ∷ tunnel_done ∷ []) tunnel_saved
unfolding task_of delete_tunnel_task delete_peer_task then load_metadata tunnels_in lookup find
    text_operations HelperClient.delete_tunnel HelperClient.call handle_client handle_line respond
    dispatch command_named response_to handler helper_operations
reached_tunnel = goes_on (removed ∷ []) [] tunnel_read _ _ (
    goes_on (removed ∷ []) [] tunnel_gone _ _
      (goes_on (removed ∷ []) [] after_removal _ _ reached_removal))

reached_both : Reached site app (peer_done ∷ tunnel_done ∷ []) peer_saved
unfolding task_of delete_tunnel_task delete_peer_task then load_metadata tunnels_in lookup find
    text_operations HelperClient.delete_tunnel HelperClient.call handle_client handle_line respond
    dispatch command_named response_to handler helper_operations HelperClient.remove_peer
reached_both = goes_on [] (tunnel_done ∷ []) tunnel_saved _ _ reached_tunnel

-- The tunnel had no entry any more, and has one again.
tunnel_without_entry : tunnel_saved.metadata ≡ holds []
unfolding task_of delete_tunnel_task delete_peer_task then load_metadata tunnels_in lookup find
    text_operations HelperClient.delete_tunnel HelperClient.call handle_client handle_line respond
    dispatch command_named response_to handler helper_operations save_metadata remove
    HelperClient.remove_peer
tunnel_without_entry = refl

tunnel_again : peer_saved.metadata ≡ holds ((codes "wg0", record tunnel { peers = [] }) ∷ [])
unfolding task_of delete_tunnel_task delete_peer_task then load_metadata tunnels_in lookup find
    text_operations HelperClient.delete_tunnel HelperClient.call handle_client handle_line respond
    dispatch command_named response_to handler helper_operations HelperClient.remove_peer
    save_metadata insert
tunnel_again = refl

reached-IsSound_example : IsSound peer_saved
reached-IsSound_example =
    reached-IsSound site app (peer_done ∷ tunnel_done ∷ []) peer_saved app-IsSound reached_both
