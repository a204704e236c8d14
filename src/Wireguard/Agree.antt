-- ===== src/Wireguard/Agree.antt =====
-- The daemon's files and the metadata file after `create_tunnel` and `delete_tunnel`.
use keekars_pi_vpn.Base.{
  ℕ, ◌≡◌, refl, some, [], ◌∷◌, arith, Result, ok, err, Bool-cases, inl, inr, after_success,
}
use keekars_pi_vpn.Base.Text.{Text, codes, text_operations}
use keekars_pi_vpn.Base.Dict.{Dict, lookup, insert, lookup-insert_self}
use keekars_pi_vpn.Ip.{
  Interface, v4, net4, network, IsInterface, AnyInterface, print_interface, ip_interface,
}
use keekars_pi_vpn.Ip.Print.{parse-print_interface}
use keekars_pi_vpn.Helper.Request.{Json, Request, str, int, get, ip_interface_of}
use keekars_pi_vpn.Helper.Validate.{Failure, rejected, crashed}
use keekars_pi_vpn.Helper.Blocks.{interface_block, checked_address}
use keekars_pi_vpn.Helper.Host.{Host, conf_file}
use keekars_pi_vpn.Helper.Made.{valid_name_same, valid_key_same, cmd_create_tunnel-made}
use keekars_pi_vpn.Helper.Commands.{cmd_create_tunnel}
use keekars_pi_vpn.Helper.Server.{
  Payload, Command, found, response_to, handler, respond, dispatch, command_named, handle_line,
  handle_client, handle_client_access, request,
}
use keekars_pi_vpn.Helper.Server
use keekars_pi_vpn.WebApp.{Site, App, TunnelMeta, holds}
use keekars_pi_vpn.HelperClient
use keekars_pi_vpn.Wireguard.Metadata.{tunnels_in, load_metadata, save_metadata}
use keekars_pi_vpn.Wireguard.Tunnels.{
  TunnelCreate, new_tunnel, create_tunnel, unless, check_overlap,
}

answer-success :
    (r : Result Failure Payload) (p : Payload)
    → HelperClient.answer (some (response_to r)) ≡ ok p
    → r ≡ ok p
unfolding response_to
answer-success (ok q) p h = ground (arith, h)
answer-success (err (rejected why)) p h = ground arith
answer-success (err crashed) p h = ground arith

-- The daemon's file of the tunnel, and its entry in the metadata
abbrev IsMade : {World : Type 0} → TunnelCreate → App World → Type 0
IsMade payload b =
    (private_key : Text) × (lookup (conf_file payload.name) b.host.conf_files
      ≡ some (interface_block private_key (v4 payload.address) (int payload.listen_port)))
    × (lookup payload.name (tunnels_in b.metadata) ≡ some (new_tunnel payload))

module _ {World : Type 0} (site : Site World) where
  -- What a call of the daemon that succeeds leaves is what the command leaves, which has succeeded.
  pub call_lem :
      (P : App World → Type 0) (cmd : Text) (params : Dict Json) (c : Command) (a : App World)
      (p : Payload)
      → dispatch (str cmd) ≡ found c
      → ((handler site.tools c ((codes "cmd", str cmd) ∷ params) a.host).0 ≡ ok p
          → P (record a {
            host = (handler site.tools c ((codes "cmd", str cmd) ∷ params) a.host).1;
          }))
      → (HelperClient.call site cmd params a).0 ≡ ok p
      → P (HelperClient.call site cmd params a).1
  unfolding HelperClient.call handle_line respond get lookup text_operations
  call_lem P cmd params c a p named next h = elim (Bool-cases (site.reachable a.host.outside)) [
    | inr down ↦ let bad = rw down at h in ground (arith, bad)
    | inl up ↦
        elim (handle_client_access site.tools site.allowed_uid site.own_uid
          (request ((codes "cmd", str cmd) ∷ params)) a.host) [
            | inl e ↦ rw (up, e.1, named) (next (answer-success _ p (rw (up, e.1, named) at h)))
            | inr e ↦ let bad = rw (up, e.1) at h in ground (arith, bad)
          ]
  ]

  create_named : dispatch (str (codes "create_tunnel")) ≡ found Server.create_tunnel
  unfolding dispatch command_named text_operations
  create_named = refl

  abbrev create_params : Text → Text → ℕ → Text → Dict Json
  create_params name address port key =
      (codes "name", str name)
      ∷ (codes "address", str address)
      ∷ (codes "listen_port", int port)
      ∷ (codes "private_key", str key)
      ∷ []

  abbrev create_request : Text → Text → ℕ → Text → Request
  create_request name address port key =
      (codes "cmd", str (codes "create_tunnel")) ∷ create_params name address port key

  printed_address :
      (i : Interface) (x : AnyInterface)
      → IsInterface i
      → checked_address (ip_interface_of (str (print_interface i))) ≡ ok x
      → x ≡ v4 i
  unfolding ip_interface_of ip_interface
  printed_address i x wf h = let e = rw (parse-print_interface i wf) at h in ground (arith, e)

  handler_made :
      (name key : Text) (i : Interface) (port : ℕ) (h : Host World) (p : Payload)
      → IsInterface i
      → (handler site.tools Server.create_tunnel
          (create_request name (print_interface i) port key)
          h).0
        ≡ ok p
      → lookup
          (conf_file name)
          (handler site.tools Server.create_tunnel
            (create_request name (print_interface i) port key)
            h).1.conf_files
        ≡ some (interface_block key (v4 i) (int port))
  unfolding handler get lookup text_operations
  handler_made name key i port h p wf done =
      let req = create_request name (print_interface i) port key in
      let P : Host World → Type 0 =
        λ g. lookup (conf_file name) g.conf_files ≡ some (interface_block key (v4 i) (int port)) in
      after_success P (cmd_create_tunnel site.tools req h).0 _
        (cmd_create_tunnel site.tools req h).1 p
        (λ _ made _.
          cmd_create_tunnel-made site.tools req name key (v4 i) h (λ x. valid_name_same name x)
            (λ x. valid_key_same (codes "private_key") key x) (λ x. printed_address i x wf) made)
        done

  client_made :
      (name key : Text) (i : Interface) (port : ℕ) (a : App World)
      → IsInterface i
      → (HelperClient.create_tunnel site name (print_interface i) port key a).0 ≡ ok tt
      → lookup
          (conf_file name)
          (HelperClient.create_tunnel site name (print_interface i) port key a).1.host.conf_files
        ≡ some (interface_block key (v4 i) (int port))
  unfolding HelperClient.create_tunnel
  client_made name key i port a wf done =
      let params = create_params name (print_interface i) port key in
      let sent = HelperClient.call site (codes "create_tunnel") params a in
      let P : App World → Type 0 = λ b.
        lookup (conf_file name) b.host.conf_files ≡ some (interface_block key (v4 i) (int port)) in
      after_success P sent.0 _ sent.1 tt
        (λ p called _.
          call_lem P (codes "create_tunnel") params Server.create_tunnel a p create_named
            (handler_made name key i port a.host p wf) called)
        done

  pub save_lem :
      (d : Dict TunnelMeta) (a : App World)
      → (save_metadata site d a).0 ≡ ok tt
      → (save_metadata site d a).1 ≡ record a { metadata = holds d }
  unfolding save_metadata
  save_lem d a h = elim (Bool-cases (site.saves a.host.outside)) [
    | inl e ↦ rw e refl
    | inr e ↦ let bad = rw e at h in ground (arith, bad)
  ]

  saved-IsMade :
      (payload : TunnelCreate) (private_key : Text) (d : Dict TunnelMeta) (a : App World)
      → lookup (conf_file payload.name) a.host.conf_files
        ≡ some (interface_block private_key (v4 payload.address) (int payload.listen_port))
      → (save_metadata site (insert payload.name (new_tunnel payload) d) a).0 ≡ ok tt
      → IsMade payload (save_metadata site (insert payload.name (new_tunnel payload) d) a).1
  unfolding tunnels_in
  saved-IsMade payload private_key d a made saved =
      rw (save_lem (insert payload.name (new_tunnel payload) d) a saved)
        (private_key, made, lookup-insert_self payload.name (new_tunnel payload) d)

  -- Where `create_tunnel` for an IPv4 address succeeds, the daemon's file of the tunnel holds the
  -- address and the port of the request, and the metadata has an entry with the same address and
  -- port and no peers.
  pub create_tunnel_agrees :
      (payload : TunnelCreate) (public_key : Text) (a : App World)
      → IsInterface payload.address
      → (create_tunnel site payload a).0 ≡ ok public_key
      → IsMade payload (create_tunnel site payload a).1
  unfolding create_tunnel load_metadata
  create_tunnel_agrees payload public_key a wf done =
      let P : App World → Type 0 = IsMade payload in
      let checked =
        unless site payload.force (check_overlap site (net4 (network payload.address) ∷ [])) a in
      after_success P checked.0 _ checked.1 public_key
        (λ _ _.
          let keys = HelperClient.genkey site checked.1 in
          after_success P keys.0 _ keys.1 public_key (λ k _.
            let created =
              HelperClient.create_tunnel site payload.name (print_interface payload.address)
                payload.listen_port k.private_key keys.1 in
            after_success P created.0 _ created.1 public_key (λ _ is_created.
              let d = tunnels_in created.1.metadata in
              let saved =
                save_metadata site (insert payload.name (new_tunnel payload) d) created.1 in
              after_success P saved.0 _ saved.1 public_key (λ _ is_saved _.
                saved-IsMade payload k.private_key d created.1
                  (client_made payload.name k.private_key payload.address payload.listen_port keys.1
                    wf is_created)
                  is_saved))))
        done
