-- ===== src/Helper/Create.antt =====
-- `cmd_create_tunnel`: the file that it makes, and the files that it leaves alone.
use keekars_pi_vpn.Base.{true, false, none, some, ◌++◌, ◌≡◌, arith, ok, Bool-cases, inl, inr}
use keekars_pi_vpn.Base.Text.{Text, codes, text_eq, text_eq_iff}
use keekars_pi_vpn.Base.Dict.{
  lookup, insert, lookup-insert, lookup-remove, has_key-lookup, has_key_of_lookup,
}
use keekars_pi_vpn.Ip.{AnyInterface}
use keekars_pi_vpn.Helper.Request.{Json, Request, get, is_int_in, ip_interface_of}
use keekars_pi_vpn.Helper.Validate.{validate_tunnel_name, validate_wg_key}
use keekars_pi_vpn.Helper.Blocks.{interface_block}
use keekars_pi_vpn.Helper.Host.{
  Tools, Host, Disk, not_opened, cut, stored, conf_file, conf_exists, create_conf, put_new_conf,
  wireguard_dir,
}
use keekars_pi_vpn.Helper.Commands.{cmd_create_tunnel}

-- A request that `cmd_create_tunnel` accepts, and the values that it validates to.
pub record IsCreateRequest (req : Request) (name private_key : Text) (address : AnyInterface)
    (listen_port : Json) : Type 0 where
  pub name_ok : validate_tunnel_name (get (codes "name") req) ≡ ok name
  pub key_ok :
      validate_wg_key (codes "private_key") (get (codes "private_key") req) ≡ ok private_key
  pub address_ok : ip_interface_of (get (codes "address") req) ≡ some address
  pub port_is : get (codes "listen_port") req ≡ listen_port
  pub port_ok : is_int_in 1024 65535 listen_port ≡ true

module _ {World : Type 0} (tools : Tools World) where
  -- An accepted `cmd_create_tunnel` for a name that has no file yet makes the file, if the disk
  -- takes it, and changes nothing else.
  pub create_tunnel_file :
      (req : Request) (name private_key : Text) (address : AnyInterface) (listen_port : Json)
      (h : Host World)
      → IsCreateRequest req name private_key address listen_port
      → lookup (conf_file name) h.conf_files ≡ none
      → tools.write
          (wireguard_dir ++ conf_file name)
          (interface_block private_key address listen_port)
          h.outside
        ≡ stored
      → cmd_create_tunnel tools req h ≡ (
        ok tt,
        record h {
          conf_files =
              insert
                (conf_file name)
                (interface_block private_key address listen_port)
                h.conf_files;
        },
      )
  unfolding cmd_create_tunnel create_conf put_new_conf
  create_tunnel_file req name key address port h v new disk =
      let free : conf_exists name h ≡ false =
        unfold conf_exists in has_key-lookup (conf_file name) h.conf_files new in
      rw (v.name_ok, v.key_ok, v.address_ok, v.port_is) (rw v.port_ok (rw free (rw (free, disk))))

  put_new_conf-keeps :
      (name text : Text) (disk : Disk) (h : Host World) (file content : Text)
      → text_eq (conf_file name) file ≡ false
      → lookup file h.conf_files ≡ some content
      → lookup file (put_new_conf name text disk h).1.conf_files ≡ some content
  unfolding put_new_conf
  put_new_conf-keeps name text not_opened h file content ne found = found
  put_new_conf-keeps name text (cut _) h file content ne found = rw (lookup-remove, ne) found
  put_new_conf-keeps name text _ h file content ne found = rw (lookup-insert, ne) found

  other_file :
      (name : Text) (h : Host World) (file content : Text)
      → conf_exists name h ≡ false
      → lookup file h.conf_files ≡ some content
      → text_eq (conf_file name) file ≡ false
  unfolding conf_exists
  other_file name h file content free found = elim (Bool-cases (text_eq (conf_file name) file)) [
    | inl e ↦
        let there = has_key_of_lookup file h.conf_files found in
        absurd (ground (arith, rw (← (text_eq_iff _ _).0 e) at there))
    | inr e ↦ e
  ]

  create_conf-keeps :
      (name text : Text) (h : Host World) (file content : Text)
      → lookup file h.conf_files ≡ some content
      → lookup file (create_conf tools name text h).1.conf_files ≡ some content
  unfolding create_conf
  create_conf-keeps name text h file content found = elim (Bool-cases (conf_exists name h)) [
    | inl there ↦ rw there found
    | inr free ↦ rw free (
        put_new_conf-keeps name text _ h file content (other_file name h file content free found)
          found)
  ]

  -- Whatever the request and whatever the disk does, a file that is there stays as it is when
  -- `cmd_create_tunnel` has run.
  pub create_tunnel_keeps_files :
      (req : Request) (h : Host World) (file content : Text)
      → lookup file h.conf_files ≡ some content
      → lookup file (cmd_create_tunnel tools req h).1.conf_files ≡ some content
  unfolding cmd_create_tunnel
  create_tunnel_keeps_files req h file content found = grind (arith, create_conf-keeps)
