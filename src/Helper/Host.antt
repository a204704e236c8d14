-- ===== src/Helper/Host.antt =====
-- The machine that the daemon works on: the files that it keeps, and what it reaches by `wg`,
-- `systemctl` and the kernel. Those are not the source's, so they are the parameter `Tools`.
use keekars_pi_vpn.Base.{
  ℕ, Bool, Option, none, some, List, ◌++◌, if◌then◌else◌, Result, ok, err, Act,
}
use keekars_pi_vpn.Base.Text.{Text, codes, universal_newlines}
use keekars_pi_vpn.Base.Dict.{Dict, lookup, has_key, insert, remove}
use keekars_pi_vpn.Helper.Validate.{Failure, rejected, crashed, tunnel_not_found}

-- How a subprocess ended.
pub record Outcome : Type 0 where
  pub returncode : ℕ
  pub stdout : Text
  pub stderr : Text

-- How far the writing of a file came: `os.open` failed, the writing stopped after some text, the
-- renaming failed, or all is done.
pub data Disk : Type 0 where
  not_opened : Disk
  cut : Text → Disk
  not_renamed : Disk
  stored : Disk

-- `World` is the state of everything outside. A program that cannot be started has no outcome.
pub record Tools (World : Type 0) : Type 0 where
  pub run : List Text → Option Text → World → Option Outcome × World
  pub interface_up : Text → World → Bool
  pub write : Text → Text → World → Disk
  pub psk_file : World → Text

pub record Host (World : Type 0) : Type 0 where
  pub conf_files : Dict Text
  pub run_files : Dict Text
  pub outside : World

abbrev pub Cmd : Type 0 → Type 0 → Type 0
Cmd World A = Act Failure (Host World) A

-- The name of `_tunnel_conf_path(name)` in /etc/wireguard
unfoldable pub conf_file : Text → Text
conf_file name = name ++ codes ".conf"

-- Its `with_suffix(".conf.tmp")`
unfoldable pub tmp_file : Text → Text
tmp_file name = conf_file name ++ codes ".tmp"

abbrev pub wireguard_dir : Text
wireguard_dir = codes "/etc/wireguard/"

abbrev found : Option Text → Result Failure Text
found none = err (rejected tunnel_not_found)
found (some content) = ok (universal_newlines content)

abbrev started : Option Outcome → Result Failure Outcome
started none = err crashed
started (some o) = ok o

abbrev pub secret_dir : Text
secret_dir = codes "/run/pi-wg-helperd/"

module _ {World : Type 0} where
  unfoldable pub conf_exists : Text → Host World → Bool
  conf_exists name h = has_key (conf_file name) h.conf_files

  -- `_read_conf`
  unfoldable pub read_conf : Text → Cmd World Text
  read_conf name h = (found (lookup (conf_file name) h.conf_files), h)

  -- `path.unlink(missing_ok=True)`
  unfoldable pub unlink_conf : Text → Cmd World (Unit {0})
  unlink_conf file h = (ok tt, record h { conf_files = remove file h.conf_files })

  -- `_write_conf`: into a file beside it, which then takes its place; on a failure that file goes.
  unfoldable pub put_conf : Text → Text → Disk → Host World → Result Failure (Unit {0}) × Host World
  put_conf name content not_opened h = (err crashed, h)
  put_conf name content (cut _) h =
      (err crashed, record h { conf_files = remove (tmp_file name) h.conf_files })
  put_conf name content not_renamed h =
      (err crashed, record h { conf_files = remove (tmp_file name) h.conf_files })
  put_conf name content stored h = (
    ok tt,
    record h { conf_files = insert (conf_file name) content (remove (tmp_file name) h.conf_files) },
  )

  -- Writing a new file, opened with `O_EXCL`; on a failure the file goes. Nothing is renamed.
  unfoldable pub put_new_conf :
      Text → Text → Disk → Host World → Result Failure (Unit {0}) × Host World
  put_new_conf name content not_opened h = (err crashed, h)
  put_new_conf name content (cut _) h =
      (err crashed, record h { conf_files = remove (conf_file name) h.conf_files })
  put_new_conf name content not_renamed h =
      (ok tt, record h { conf_files = insert (conf_file name) content h.conf_files })
  put_new_conf name content stored h =
      (ok tt, record h { conf_files = insert (conf_file name) content h.conf_files })

module _ {World : Type 0} (tools : Tools World) where
  unfoldable pub write_conf : Text → Text → Cmd World (Unit {0})
  unfolding put_conf
  write_conf name content h =
      put_conf name content (tools.write (wireguard_dir ++ (tmp_file name)) content h.outside) h

  unfoldable pub create_conf : Text → Text → Cmd World (Unit {0})
  unfolding put_new_conf
  create_conf name content h =
      if conf_exists name h
      then (err crashed, h)
      else put_new_conf name content
          (tools.write (wireguard_dir ++ conf_file name) content h.outside) h

  -- `_run`
  unfoldable pub run : List Text → Option Text → Cmd World Outcome
  run args input h =
      let (o, w) = tools.run args input h.outside in (started o, record h { outside = w })

  unfoldable pub put_in_run_dir :
      Text → Text → Disk → Host World → Result Failure (Unit {0}) × Host World
  put_in_run_dir file content not_opened h = (err crashed, h)
  put_in_run_dir file content (cut part) h =
      (err crashed, record h { run_files = insert file part h.run_files })
  put_in_run_dir file content not_renamed h =
      (ok tt, record h { run_files = insert file content h.run_files })
  put_in_run_dir file content stored h =
      (ok tt, record h { run_files = insert file content h.run_files })

  -- A new file in the socket's folder, opened with `O_EXCL`; nothing is renamed.
  unfoldable pub put_secret : Text → Text → Cmd World (Unit {0})
  unfolding put_in_run_dir
  put_secret file content h =
      if has_key file h.run_files
      then (err crashed, h)
      else put_in_run_dir file content (tools.write (secret_dir ++ file) content h.outside) h
