-- ===== src/Wireguard/Concurrent/Same.antt =====
-- A task that no other interrupts is its route.
use keekars_pi_vpn.Base.{◌≡◌, refl, ◌∙◌, ap, Option, Result, ok, err, lift, pure, continue, ◌>>=◌}
use keekars_pi_vpn.Base.Text.{Text}
use keekars_pi_vpn.WebApp.{HttpError, Site, App, Req}
use keekars_pi_vpn.Wireguard.Tunnels.{
  TunnelCreate, TunnelState, create_tunnel, delete_tunnel, set_tunnel_state,
}
use keekars_pi_vpn.Wireguard.Peers.{PeerCreate, create_peer, delete_peer, register_peer}
use keekars_pi_vpn.Wireguard.Concurrent.{
  Task, returns, acts, act, then, run_alone, create_tunnel_task, delete_tunnel_task,
  set_tunnel_state_task, register_peer_task, create_peer_task, delete_peer_task, Call,
  creating_tunnel, deleting_tunnel, setting_state, creating_peer, deleting_peer, task_of, route_of,
}

module _ {World : Type 0} where
  abbrev Runs : {A : Type 0} → Task World A → Req World A → Type 0
  Runs t m = (a : App World) → run_alone t a ≡ m a

  run_then :
      {A B : Type 0} (t : Task World A) (f : A → Task World B) (a : App World)
      → run_alone (then t f) a ≡ continue (run_alone t a).0 (λ x. run_alone (f x)) (run_alone t a).1
  unfolding then run_alone
  run_then (returns (ok x)) f a = refl
  run_then (returns (err e)) f a = refl
  run_then (acts g k) f a = run_then (k a) f (g a)

  continue_same :
      {A B : Type 0} (r : Result HttpError A) (f g : A → Req World B) (a : App World)
      → ((x : A) (b : App World) → f x b ≡ g x b)
      → continue r f a ≡ continue r g a
  continue_same (ok x) f g a h = h x a
  continue_same (err e) f g a h = refl

  then-Runs :
      {A B : Type 0} (t : Task World A) (f : A → Task World B) (m : Req World A)
      (g : A → Req World B)
      → Runs t m
      → ((x : A) → Runs (f x) (g x))
      → Runs (then t f) (m >>= g)
  then-Runs t f m g h k a =
      run_then t f a
      ∙ (continue_same (run_alone t a).0 (λ x. run_alone (f x)) g (run_alone t a).1 k
          ∙ ap (λ r. continue r.0 g r.1) (h a))

  act-Runs : {A : Type 0} (m : Req World A) → Runs (act m) m
  unfolding run_alone
  act-Runs m a = refl

  returns-Runs : {A : Type 0} (r : Result HttpError A) → Runs (returns r) (lift r)
  unfolding run_alone
  returns-Runs r a = refl

module _ {World : Type 0} (site : Site World) where
  create_peer_alone :
      (user : Option Text) (name : Text) (payload : PeerCreate)
      → Runs (create_peer_task site user name payload) (create_peer site user name payload)
  unfolding create_peer_task create_peer register_peer_task register_peer
  create_peer_alone user name payload = then-Runs _ _ _ _ (act-Runs _) (λ metadata.
      then-Runs _ _ _ _ (returns-Runs _) (λ t. then-Runs _ _ _ _ (act-Runs _) (λ live.
        then-Runs _ _ _ _ (returns-Runs _) (λ server_public_key.
          then-Runs _ _ _ _ (returns-Runs _) (λ address. then-Runs _ _ _ _ (act-Runs _) (λ keys.
            then-Runs _ _ _ _ (act-Runs _) (λ psk. then-Runs _ _ _ _ (act-Runs _) (λ _.
              then-Runs _ _ _ _ (act-Runs _)
                (λ id. then-Runs _ _ _ _ (act-Runs _) (λ _. returns-Runs _))))))))))

  create_tunnel_alone :
      (payload : TunnelCreate) → Runs (create_tunnel_task site payload) (create_tunnel site payload)
  unfolding create_tunnel_task create_tunnel
  create_tunnel_alone payload = then-Runs _ _ _ _ (act-Runs _) (λ _.
      then-Runs _ _ _ _ (act-Runs _) (λ keys. then-Runs _ _ _ _ (act-Runs _) (λ _.
        then-Runs _ _ _ _ (act-Runs _)
          (λ metadata. then-Runs _ _ _ _ (act-Runs _) (λ _. returns-Runs _)))))

  delete_tunnel_alone :
      (name : Text) → Runs (delete_tunnel_task site name) (delete_tunnel site name)
  unfolding delete_tunnel_task delete_tunnel
  delete_tunnel_alone name =
      then-Runs _ _ _ _ (act-Runs _) (λ _. then-Runs _ _ _ _ (act-Runs _) (λ metadata. act-Runs _))

  set_tunnel_state_alone :
      (name : Text) (payload : TunnelState)
      → Runs (set_tunnel_state_task site name payload) (set_tunnel_state site name payload)
  unfolding set_tunnel_state_task set_tunnel_state
  set_tunnel_state_alone name payload = then-Runs _ _ _ _ (act-Runs _) (λ live.
      then-Runs _ _ _ _ (returns-Runs _) (λ t. then-Runs _ _ _ _ (act-Runs _) (λ _. act-Runs _)))

  delete_peer_alone :
      (name peer_id : Text)
      → Runs (delete_peer_task site name peer_id) (delete_peer site name peer_id)
  unfolding delete_peer_task delete_peer
  delete_peer_alone name peer_id = then-Runs _ _ _ _ (act-Runs _) (λ metadata.
      then-Runs _ _ _ _ (returns-Runs _) (λ t.
        then-Runs _ _ _ _ (returns-Runs _)
          (λ peer. then-Runs _ _ _ _ (act-Runs _) (λ _. act-Runs _))))

  forget-Runs :
      {A : Type 0} (t : Task World A) (m : Req World A)
      → Runs t m
      → Runs (then t (λ _. returns (ok tt))) (m >>= λ _. pure tt)
  forget-Runs t m h = then-Runs t _ m _ h (λ _. returns-Runs (ok tt))

  -- A request's task whose steps no other request interrupts ends as the route does, in its result
  -- but for the value that it returns, and in the state.
  task_of-route_of : (c : Call) (a : App World) → run_alone (task_of site c) a ≡ route_of site c a
  unfolding task_of route_of
  task_of-route_of (creating_tunnel payload wf) = forget-Runs _ _ (create_tunnel_alone payload)
  task_of-route_of (deleting_tunnel name) = forget-Runs _ _ (delete_tunnel_alone name)
  task_of-route_of (setting_state name payload) =
      forget-Runs _ _ (set_tunnel_state_alone name payload)
  task_of-route_of (creating_peer user name payload) =
      forget-Runs _ _ (create_peer_alone user name payload)
  task_of-route_of (deleting_peer name peer_id) = forget-Runs _ _ (delete_peer_alone name peer_id)
