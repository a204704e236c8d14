-- ===== src/Helper/Secrets.antt =====
-- The secret file of `cmd_add_peer`, and the atomic writing of a tunnel's file.
use keekars_pi_vpn.Base.{
  any, false, not, Option, none, some, List, ◌++◌, ◌≡◌, refl, ap, ◌∙◌, ◌⊎◌, inl, inr, if◌then◌else◌,
  arith, Result, ok, err, pure, lift, continue, ◌>>=◌, Bool-cases,
}
use keekars_pi_vpn.Base.Text.{Text, codes, text_eq}
use keekars_pi_vpn.Base.Dict.{lookup, has_key, lookup-insert, lookup-remove, lookup-insert_self}
use keekars_pi_vpn.Helper.Request.{Request, get}
use keekars_pi_vpn.Helper.Validate.{
  Failure, crashed, invalid_keepalive, peer_exists, validate_tunnel_name, validate_wg_key,
  validate_allowed_ips,
}
use keekars_pi_vpn.Helper.Conf.{split_conf}
use keekars_pi_vpn.Helper.Blocks.{require, names_key, is_keepalive, validate_optional_key}
use keekars_pi_vpn.Helper.Host.{
  Tools, Host, Cmd, Disk, not_opened, cut, not_renamed, stored, conf_file, put_conf, write_conf,
  put_secret, put_in_run_dir, run, read_conf,
}
use keekars_pi_vpn.Helper.Files.{lookup-remove_tmp}
use keekars_pi_vpn.Helper.Commands.{cmd_add_peer, when_up, apply_peer, with_psk_file, run_checked}

module _ {World : Type 0} (tools : Tools World) where
  run_files-run_checked :
      (what : Text) (args : List Text) (input : Option Text) (h : Host World)
      → (run_checked tools what args input h).1.run_files ≡ h.run_files
  unfolding run_checked run
  run_files-run_checked what args input h = ground arith

  run_files-write_conf :
      (tunnel content : Text) (h : Host World)
      → (write_conf tools tunnel content h).1.run_files ≡ h.run_files
  unfolding write_conf put_conf
  run_files-write_conf tunnel content h = ground arith

  put_in_run_dir-other :
      (file content : Text) (disk : Disk) (h : Host World) (other : Text)
      → text_eq file other ≡ false
      → lookup other (put_in_run_dir tools file content disk h).1.run_files
        ≡ lookup other h.run_files
  unfolding put_in_run_dir
  put_in_run_dir-other file content not_opened h other ne = refl
  put_in_run_dir-other file content (cut part) h other ne = rw (lookup-insert, ne)
  put_in_run_dir-other file content _ h other ne = rw (lookup-insert, ne)

  put_secret-other :
      (file content : Text) (h : Host World) (other : Text)
      → text_eq file other ≡ false
      → lookup other (put_secret tools file content h).1.run_files ≡ lookup other h.run_files
  unfolding put_secret
  put_secret-other file content h other ne = elim (Bool-cases (has_key file h.run_files)) [
    | inl there ↦ rw there
    | inr free ↦ rw free (put_in_run_dir-other file content _ h other ne)
  ]

  continue-run_files :
      (r : Result Failure (Unit {0})) (act : Cmd World (Unit {0})) (k : Host World)
      → ((l : Host World) → (act l).1.run_files ≡ l.run_files)
      → (continue r (λ _. act) k).1.run_files ≡ k.run_files
  continue-run_files (ok _) act k keep = keep k
  continue-run_files (err e) act k keep = refl

  -- `with_psk_file` removes its file at the end, whatever happens before.
  with_psk_file-lookup :
      (psk : Text) (use_args : List Text → Cmd World (Unit {0})) (h : Host World) (other : Text)
      → ((args : List Text) (k : Host World) → (use_args args k).1.run_files ≡ k.run_files)
      → lookup other (with_psk_file tools psk use_args h).1.run_files
        ≡ (if text_eq (tools.psk_file h.outside) other then none else lookup other h.run_files)
  unfolding with_psk_file
  with_psk_file-lookup psk use_args h other keep =
      rw lookup-remove (elim (Bool-cases (text_eq (tools.psk_file h.outside) other)) [
        | inl e ↦ rw e
        | inr e ↦ rw e (
            ap (lookup other) (continue-run_files _ (use_args _) _ (keep _))
            ∙ put_secret-other _ _ h other e)
      ])

  -- An action after which the socket's folder has no file that it had not before.
  record LeavesNone {A : Type 0} (m : Cmd World A) : Type 0 where
    at :
        (h : Host World) (file text : Text)
        → lookup file (m h).1.run_files ≡ some text
        → lookup file h.run_files ≡ some text

  same-LeavesNone :
      {A : Type 0} (m : Cmd World A)
      → ((h : Host World) → (m h).1.run_files ≡ h.run_files)
      → LeavesNone m
  same-LeavesNone m same = record { at = λ h file text e. rw (same h) at e }

  lift-LeavesNone : {A : Type 0} (r : Result Failure A) → LeavesNone (lift r)
  lift-LeavesNone r = record { at = λ h file text e. e }

  continue-LeavesNone :
      {A B : Type 0} (r : Result Failure A) (f : A → Cmd World B)
      → ((a : A) → LeavesNone (f a))
      → LeavesNone (λ h. continue r f h)
  continue-LeavesNone (ok a) f kf = record { at = (kf a).at }
  continue-LeavesNone (err e) f kf = record { at = λ h file text e. e }

  bind-LeavesNone :
      {A B : Type 0} (m : Cmd World A) (f : A → Cmd World B)
      → LeavesNone m
      → ((a : A) → LeavesNone (f a))
      → LeavesNone (m >>= f)
  bind-LeavesNone m f km kf = record {
    at = λ h file text e.
        km.at h file text ((continue-LeavesNone (m h).0 f kf).at (m h).1 file text e);
  }

  read_conf-LeavesNone : (name : Text) → LeavesNone (read_conf {World = World} name)
  unfolding read_conf
  read_conf-LeavesNone name = record { at = λ h file text e. e }

  live-run_files :
      (args : List Text) (h : Host World)
      → ((run_checked tools (codes "wg set") args none >>= λ o. pure tt) h).1.run_files
        ≡ h.run_files
  live-run_files args h = ground (arith, run_files-run_checked (codes "wg set") args none h)

  apply_peer-LeavesNone :
      (psk : Option Text) (args : List Text) → LeavesNone (apply_peer tools psk args)
  unfolding apply_peer
  apply_peer-LeavesNone none args = same-LeavesNone _ (live-run_files args)
  apply_peer-LeavesNone (some psk) args = record {
    at = λ h file text e. ground (
      arith,
      with_psk_file-lookup psk
          (λ more. run_checked tools (codes "wg set") (args ++ more) none >>= λ o. pure tt) h file
          (λ more k. live-run_files (args ++ more) k),
      e,
    );
  }

  when_up-LeavesNone :
      (tunnel : Text) (act : Cmd World (Unit {0}))
      → LeavesNone act
      → LeavesNone (when_up tools tunnel act)
  unfolding when_up
  when_up-LeavesNone tunnel act k = record {
    at = λ h file text e. elim (Bool-cases (tools.interface_up tunnel h.outside)) [
      | inl up ↦ k.at h file text (rw up at e)
      | inr down ↦ rw down at e
    ];
  }

  add_peer-LeavesNone : (req : Request) → LeavesNone (cmd_add_peer tools req)
  unfolding cmd_add_peer
  add_peer-LeavesNone req =
      continue-LeavesNone (validate_tunnel_name (get (codes "tunnel") req)) _ λ tunnel.
        continue-LeavesNone (validate_wg_key (codes "public_key") (get (codes "public_key") req)) _
          λ key. continue-LeavesNone (validate_allowed_ips (get (codes "allowed_ips") req)) _ λ ips.
            continue-LeavesNone
              (validate_optional_key (codes "preshared_key") (get (codes "preshared_key") req)) _
              λ psk.
                continue-LeavesNone
                  (require (is_keepalive (get (codes "keepalive") req)) invalid_keepalive) _
                  λ _. bind-LeavesNone (read_conf tunnel) _ (read_conf-LeavesNone tunnel) λ content.
                    continue-LeavesNone
                      (require (not (any (names_key key) (split_conf content).1)) peer_exists) _
                      λ _.
                        bind-LeavesNone (write_conf tools tunnel _) _
                          (same-LeavesNone _ (run_files-write_conf tunnel _))
                          λ _. when_up-LeavesNone tunnel _ (apply_peer-LeavesNone psk _)

  -- Whatever the request and however it ends, `cmd_add_peer` leaves no file in the socket's folder
  -- that was not there before: the preshared key's file is gone.
  pub add_peer_no_secret :
      (req : Request) (h : Host World) (file text : Text)
      → lookup file (cmd_add_peer tools req h).1.run_files ≡ some text
      → lookup file h.run_files ≡ some text
  add_peer_no_secret req = (add_peer-LeavesNone req).at

  put_conf_cases :
      (tunnel content : Text) (disk : Disk) (h : Host World)
      → ((put_conf tunnel content disk h).0 ≡ ok tt)
          × (lookup (conf_file tunnel) (put_conf tunnel content disk h).1.conf_files ≡ some content)
        ⊎ ((put_conf tunnel content disk h).0 ≡ err crashed)
          × ((name : Text)
              → lookup (conf_file name) (put_conf tunnel content disk h).1.conf_files
                ≡ lookup (conf_file name) h.conf_files)
  unfolding put_conf
  put_conf_cases tunnel content not_opened h = inr (refl, λ name. refl)
  put_conf_cases tunnel content (cut _) h = inr (refl, λ name. lookup-remove_tmp _ tunnel name)
  put_conf_cases tunnel content not_renamed h = inr (refl, λ name. lookup-remove_tmp _ tunnel name)
  put_conf_cases tunnel content stored h = inl (refl, lookup-insert_self _ _ _)

  -- However far the disk comes, `_write_conf` either puts the whole text into the tunnel's file,
  -- or raises and leaves the files of all tunnels as they were.
  pub write_conf_atomic :
      (tunnel content : Text) (h : Host World)
      → ((write_conf tools tunnel content h).0 ≡ ok tt)
          × (lookup (conf_file tunnel) (write_conf tools tunnel content h).1.conf_files
              ≡ some content)
        ⊎ ((write_conf tools tunnel content h).0 ≡ err crashed)
          × ((name : Text)
              → lookup (conf_file name) (write_conf tools tunnel content h).1.conf_files
                ≡ lookup (conf_file name) h.conf_files)
  unfolding write_conf
  write_conf_atomic tunnel content h = put_conf_cases tunnel content _ h
