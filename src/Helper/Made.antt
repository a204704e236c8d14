-- ===== src/Helper/Made.antt =====
-- `cmd_create_tunnel` where it succeeds, whatever the request.
use keekars_pi_vpn.Base.{not, some, ◌≡◌, arith, ok, Bool-cases, inl, inr, after_success}
use keekars_pi_vpn.Base.Text.{Text, codes}
use keekars_pi_vpn.Base.Dict.{lookup, lookup-insert_self}
use keekars_pi_vpn.Ip.{AnyInterface}
use keekars_pi_vpn.Helper.Request.{Json, str, Request, get, is_int_in, ip_interface_of}
use keekars_pi_vpn.Helper.Validate.{
  invalid_listen_port, tunnel_exists, validate_tunnel_name, validate_wg_key,
}
use keekars_pi_vpn.Helper.Blocks.{interface_block, checked_address, require}
use keekars_pi_vpn.Helper.Host.{
  Tools, Host, Disk, not_opened, cut, not_renamed, stored, conf_file, conf_exists, create_conf,
  put_new_conf,
}
use keekars_pi_vpn.Helper.Commands.{cmd_create_tunnel}

pub valid_name_same : (t name : Text) → validate_tunnel_name (str t) ≡ ok name → name ≡ t
unfolding validate_tunnel_name
valid_name_same t name h = ground (arith, h)

pub valid_key_same : (field t key : Text) → validate_wg_key field (str t) ≡ ok key → key ≡ t
unfolding validate_wg_key
valid_key_same field t key h = ground (arith, h)

module _ {World : Type 0} (tools : Tools World) where
  put_new_conf-made :
      (name text : Text) (disk : Disk) (h : Host World)
      → (put_new_conf name text disk h).0 ≡ ok tt
      → lookup (conf_file name) (put_new_conf name text disk h).1.conf_files ≡ some text
  unfolding put_new_conf
  put_new_conf-made name text not_opened h e = ground arith
  put_new_conf-made name text (cut _) h e = ground arith
  put_new_conf-made name text not_renamed h e = lookup-insert_self _ text h.conf_files
  put_new_conf-made name text stored h e = lookup-insert_self _ text h.conf_files

  create_conf-made :
      (name text : Text) (h : Host World)
      → (create_conf tools name text h).0 ≡ ok tt
      → lookup (conf_file name) (create_conf tools name text h).1.conf_files ≡ some text
  unfolding create_conf
  create_conf-made name text h e = elim (Bool-cases (conf_exists name h)) [
    | inl there ↦ let bad = rw there at e in ground (arith, bad)
    | inr free ↦ rw free (put_new_conf-made name text _ h (rw free at e))
  ]

  made_as :
      (n name k key : Text) (i address : AnyInterface) (port : Json) (h : Host World)
      → n ≡ name
      → k ≡ key
      → i ≡ address
      → (create_conf tools n (interface_block k i port) h).0 ≡ ok tt
      → lookup (conf_file name) (create_conf tools n (interface_block k i port) h).1.conf_files
        ≡ some (interface_block key address port)
  made_as n name k key i address port h same_name same_key same_address e =
      rw (← same_name, ← same_key, ← same_address) (create_conf-made n _ h e)

  -- Where `cmd_create_tunnel` succeeds, the file that it made holds what it has checked.
  pub cmd_create_tunnel-made :
      (req : Request) (name key : Text) (address : AnyInterface) (h : Host World)
      → ((x : Text) → validate_tunnel_name (get (codes "name") req) ≡ ok x → x ≡ name)
      → ((x : Text)
          → validate_wg_key (codes "private_key") (get (codes "private_key") req) ≡ ok x
          → x ≡ key)
      → ((x : AnyInterface)
          → checked_address (ip_interface_of (get (codes "address") req)) ≡ ok x
          → x ≡ address)
      → (cmd_create_tunnel tools req h).0 ≡ ok tt
      → lookup (conf_file name) (cmd_create_tunnel tools req h).1.conf_files
        ≡ some (interface_block key address (get (codes "listen_port") req))
  unfolding cmd_create_tunnel
  cmd_create_tunnel-made req name key address h same_name same_key same_address =
      let port = get (codes "listen_port") req in
      let P : Host World → Type 0 =
        λ g. lookup (conf_file name) g.conf_files ≡ some (interface_block key address port) in
      after_success P (validate_tunnel_name (get (codes "name") req)) _ h tt (λ n is_name.
        after_success P (validate_wg_key (codes "private_key") (get (codes "private_key") req)) _ h
          tt
          (λ k is_key.
            after_success P (checked_address (ip_interface_of (get (codes "address") req))) _ h tt
              (λ i is_address.
                after_success P (require (is_int_in 1024 65535 port) invalid_listen_port) _ h tt
                  (λ _ _.
                    after_success P (require (not (conf_exists n h)) tunnel_exists) _ h tt (λ _ _ e.
                      made_as n name k key i address port h (same_name n is_name)
                        (same_key k is_key) (same_address i is_address) e)))))
