-- ===== src/Wireguard/Concurrent/Steps.antt =====
-- The metadata file under any interleaving of requests.
use keekars_pi_vpn.Base.{
  ◌≡◌, refl, Option, some, List, [], true, false, ◌∷◌, ◌++◌, Bool, not, find, filter, Result, ok,
  err, All, lift,
}
use keekars_pi_vpn.Base.Text.{Text, text_eq}
use keekars_pi_vpn.Base.Dict.{Dict, lookup, insert, remove}
use keekars_pi_vpn.Ip.{IsInterface}
use keekars_pi_vpn.Helper.Commands.{Keypair}
use keekars_pi_vpn.WebApp.{HttpError, TunnelMeta, Site, App, Req}
use keekars_pi_vpn.HelperClient
use keekars_pi_vpn.Wireguard.Metadata.{load_metadata, save_metadata}
use keekars_pi_vpn.Wireguard.Allocate.{allocate_peer_address}
use keekars_pi_vpn.Wireguard.Fits.{IsTunnel, allocate_peer_address-IsTunnel, remove-IsTunnel}
use keekars_pi_vpn.Helper.Status.{TunnelInfo}
use keekars_pi_vpn.Wireguard.Tunnels.{
  candidates_of, TunnelCreate, TunnelState, new_tunnel, unless, check_overlap, check_activation,
  first_tunnel,
}
use keekars_pi_vpn.Wireguard.Peers.{PeerCreate, known_tunnel, server_key, found_peer}
use keekars_pi_vpn.Wireguard.Quiet.{
  IsQuiet, bind-IsQuiet, genkey-IsQuiet, create_tunnel-IsQuiet, delete_tunnel-IsQuiet,
  add_peer-IsQuiet, remove_peer-IsQuiet, tunnel_status-IsQuiet, set_tunnel_state-IsQuiet,
}
use keekars_pi_vpn.Wireguard.Sound.{
  AllTunnels, IsSound, KeepsSound, insert-AllTunnels, remove-AllTunnels,
}
use keekars_pi_vpn.Wireguard.Invariant.{
  known-lookup, new_tunnel-IsTunnel, save-KeepsSound, unless-IsQuiet, make_psk-IsQuiet,
  new_id-IsQuiet,
}
use keekars_pi_vpn.Wireguard.Concurrent.{
  Task, returns, acts, act, then, create_tunnel_task, delete_tunnel_task, set_tunnel_state_task,
  register_peer_task, create_peer_task, delete_peer_task, Call, creating_tunnel, deleting_tunnel,
  setting_state, creating_peer, deleting_peer, task_of, Reached, start, comes, goes_on,
}

abbrev Holds : {A : Type 0} → (A → Type 0) → Result HttpError A → Type 0
Holds P (ok x) = P x
Holds P (err e) = Unit

result-Holds :
    {A : Type 0} (P : A → Type 0) (r : Result HttpError A) → ((x : A) → r ≡ ok x → P x) → Holds P r
result-Holds P (ok x) h = h x refl
result-Holds P (err e) h = tt

module _ {World : Type 0} where
  -- Whatever the others do, as long as the metadata is sound between the steps: each step leaves it
  -- sound, and what the task returns has the property.
  abbrev Yields : {A : Type 0} → (A → Type 0) → Task World A → Type 0
  Yields P (returns r) = Holds P r
  Yields P (acts g k) = (a : App World) → IsSound a → IsSound (g a) × Yields P (k a)

  abbrev Keeps : {A : Type 0} → Task World A → Type 0
  Keeps t = Yields (λ x. Unit {0}) t

module _ {World A B : Type 0} where
  then-Yields :
      (P : A → Type 0) (Q : B → Type 0) (t : Task World A) (f : A → Task World B)
      → Yields P t
      → ((x : A) → P x → Yields Q (f x))
      → Yields Q (then t f)
  unfolding then
  then-Yields P Q (returns (ok x)) f h next = next x h
  then-Yields P Q (returns (err e)) f h next = tt
  then-Yields P Q (acts g k) f h next = λ a s. ((h a s).0, then-Yields P Q (k a) f (h a s).1 next)

  after_result :
      (r : Result HttpError A) (f : A → Task World B)
      → ((x : A) → r ≡ ok x → Keeps (f x))
      → Keeps (then (returns r) f)
  after_result r f next =
      then-Yields (λ x. r ≡ ok x) _ (returns r) f (result-Holds _ r (λ x e. e)) next

  after_keeping :
      (m : Req World A) (f : A → Task World B)
      → KeepsSound m
      → ((x : A) → Keeps (f x))
      → Keeps (then (act m) f)
  after_keeping m f keeps next =
      then-Yields (λ x. Unit) _ (act m) f (λ a s. (keeps a s, result-Holds _ (m a).0 (λ x e. tt)))
        (λ x _. next x)

  after_quiet_step :
      (m : Req World A) (f : A → Task World B)
      → IsQuiet m
      → ((x : A) → Keeps (f x))
      → Keeps (then (act m) f)
  after_quiet_step m f quiet next = after_keeping m f (λ a s. rw (quiet a) s) next

after_load_step :
    {World B : Type 0} (f : Dict TunnelMeta → Task World B)
    → ((d : Dict TunnelMeta) → AllTunnels d → Keeps (f d))
    → Keeps (then (act load_metadata) f)
unfolding load_metadata
after_load_step f next = then-Yields AllTunnels _ (act load_metadata) f (λ a s. (s, s)) next

last_step : {World A : Type 0} (m : Req World A) → KeepsSound m → Keeps (act m)
last_step m keeps a s = (keeps a s, result-Holds _ (m a).0 (λ x e. tt))

module _ {World : Type 0} (site : Site World) where
  create_tunnel_task-Keeps :
      (payload : TunnelCreate)
      → IsInterface payload.address
      → Keeps (create_tunnel_task site payload)
  unfolding create_tunnel_task
  create_tunnel_task-Keeps payload wf =
      after_quiet_step _ _ (unless-IsQuiet site payload.force _) (λ _.
        after_quiet_step _ _ (genkey-IsQuiet site) (λ keys.
          after_quiet_step _ _ (create_tunnel-IsQuiet site _ _ _ _) (λ _.
            after_load_step _ (λ d all.
              after_keeping _ _
                (save-KeepsSound site _ (
                  insert-AllTunnels payload.name (new_tunnel payload) d
                    (new_tunnel-IsTunnel payload wf) all))
                (λ _. tt)))))

  delete_tunnel_task-Keeps : (name : Text) → Keeps (delete_tunnel_task site name)
  unfolding delete_tunnel_task
  delete_tunnel_task-Keeps name = after_quiet_step _ _ (delete_tunnel-IsQuiet site name) (λ _.
      after_load_step _ (λ d all.
        last_step (save_metadata site (remove name d))
          (save-KeepsSound site (remove name d) (remove-AllTunnels name d all))))

  activation-IsQuiet :
      (skip : Bool) (t : TunnelInfo) → IsQuiet (unless site skip (check_activation site t))
  unfolding unless check_activation check_overlap
  activation-IsQuiet true t = λ a. refl
  activation-IsQuiet false t =
      bind-IsQuiet (lift (candidates_of t.conf.mode t.conf)) _ (λ a. refl) (λ cs a. refl)

  set_tunnel_state_task-Keeps :
      (name : Text) (payload : TunnelState) → Keeps (set_tunnel_state_task site name payload)
  unfolding set_tunnel_state_task
  set_tunnel_state_task-Keeps name payload =
      after_quiet_step _ _ (tunnel_status-IsQuiet site (some name)) (λ live.
        after_result (first_tunnel live) _ (λ t _.
          after_quiet_step _ _ (activation-IsQuiet _ t) (λ _.
            last_step (HelperClient.set_tunnel_state site name payload.action)
              (λ a s. rw (set_tunnel_state-IsQuiet site name payload.action a) s))))

  register_peer_task-Keeps :
      (user : Option Text) (name : Text) (payload : PeerCreate) (d : Dict TunnelMeta)
      (t : TunnelMeta) (server_public_key address : Text) (keys : Keypair) (psk : Option Text)
      → AllTunnels d
      → IsTunnel t
      → allocate_peer_address t ≡ ok address
      → Keeps (register_peer_task site user name payload d t server_public_key address keys psk)
  unfolding register_peer_task
  register_peer_task-Keeps user name payload d t server_public_key address keys psk all wf given =
      after_quiet_step _ _ (add_peer-IsQuiet site _ _ _ _ _) (λ _.
        after_quiet_step _ _ (new_id-IsQuiet site) (λ id.
          after_keeping _ _
            (save-KeepsSound site _ (
              insert-AllTunnels name _ d (allocate_peer_address-IsTunnel t address _ wf given refl)
                all))
            (λ _. tt)))

  create_peer_task-Keeps :
      (user : Option Text) (name : Text) (payload : PeerCreate)
      → Keeps (create_peer_task site user name payload)
  unfolding create_peer_task
  create_peer_task-Keeps user name payload = after_load_step _ (λ d all.
      after_result (known_tunnel (lookup name d)) _ (λ t known.
        after_quiet_step _ _ (tunnel_status-IsQuiet site _) (λ live.
          after_result (server_key live) _ (λ server_public_key _.
            after_result (allocate_peer_address t) _ (λ address given.
              after_quiet_step _ _ (genkey-IsQuiet site) (λ keys.
                after_quiet_step _ _ (make_psk-IsQuiet site _) (λ psk.
                  register_peer_task-Keeps user name payload d t server_public_key address keys psk
                    all (all name t (known-lookup (lookup name d) t known)) given)))))))

  delete_peer_task-Keeps : (name peer_id : Text) → Keeps (delete_peer_task site name peer_id)
  unfolding delete_peer_task
  delete_peer_task-Keeps name peer_id = after_load_step _ (λ d all.
      after_result (known_tunnel (lookup name d)) _ (λ t known.
        after_result (found_peer (find (λ p. text_eq p.id peer_id) t.peers)) _ (λ peer _.
          after_quiet_step _ _ (remove_peer-IsQuiet site name peer.public_key) (λ _.
            last_step
              (save_metadata site (
                insert name (record t { peers = filter (λ p. not (text_eq p.id peer_id)) t.peers })
                  d))
              (save-KeepsSound site _ (
                insert-AllTunnels name _ d
                  (remove-IsTunnel t (λ p. not (text_eq p.id peer_id))
                    (all name t (known-lookup (lookup name d) t known)))
                  all))))))

  forget-Keeps : {A : Type 0} (t : Task World A) → Keeps t → Keeps (then t (λ _. returns (ok tt)))
  forget-Keeps t keeps = then-Yields (λ x. Unit) _ t _ keeps (λ _ _. tt)

  task_of-Keeps : (c : Call) → Keeps (task_of site c)
  unfolding task_of
  task_of-Keeps (creating_tunnel payload wf) = forget-Keeps _ (create_tunnel_task-Keeps payload wf)
  task_of-Keeps (deleting_tunnel name) = forget-Keeps _ (delete_tunnel_task-Keeps name)
  task_of-Keeps (setting_state name payload) =
      forget-Keeps _ (set_tunnel_state_task-Keeps name payload)
  task_of-Keeps (creating_peer user name payload) =
      forget-Keeps _ (create_peer_task-Keeps user name payload)
  task_of-Keeps (deleting_peer name peer_id) = forget-Keeps _ (delete_peer_task-Keeps name peer_id)

  abbrev SoundState : List (Task World (Unit {0})) → App World → Type 0
  SoundState tasks a = IsSound a × All (λ t. Keeps t) tasks

  middle_task :
      (before after : List (Task World (Unit {0}))) (t : Task World (Unit {0}))
      → All (λ t. Keeps t) (before ++ t ∷ after)
      → Keeps t
  middle_task [] after t h = h.0
  middle_task (b ∷ before) after t h = middle_task before after t h.1

  replace_task :
      (before after : List (Task World (Unit {0}))) (t u : Task World (Unit {0}))
      → All (λ t. Keeps t) (before ++ t ∷ after)
      → Keeps u
      → All (λ t. Keeps t) (before ++ u ∷ after)
  replace_task [] after t u h k = (k, h.1)
  replace_task (b ∷ before) after t u h k = (h.0, replace_task before after t u h.1 k)

  reached-SoundState :
      (first : App World) (tasks : List (Task World (Unit {0}))) (a : App World)
      → IsSound first
      → Reached site first tasks a
      → SoundState tasks a
  reached-SoundState first _ _ s start = (s, tt)
  reached-SoundState first _ a s (comes r c) =
      let h = reached-SoundState first _ a s r in (h.0, (task_of-Keeps c, h.1))
  reached-SoundState first _ _ s (goes_on before after a g k r) =
      let h = reached-SoundState first _ a s r in
      let step = middle_task before after (acts g k) h.1 a h.0 in
      (step.0, replace_task before after (acts g k) (k a) h.1 step.1)

  -- However `create_tunnel` for valid IPv4 addresses, `delete_tunnel`, `set_tunnel_state`,
  -- `create_peer` and `delete_peer` are interleaved, any number of each and whether they succeed
  -- or fail, between any two of their steps the metadata is sound if it was so at the start: no
  -- two peers of a tunnel have one address there.
  pub reached-IsSound :
      (first : App World) (tasks : List (Task World (Unit {0}))) (a : App World)
      → IsSound first
      → Reached site first tasks a
      → IsSound a
  reached-IsSound first tasks a s r = (reached-SoundState first tasks a s r).0
