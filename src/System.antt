-- ===== src/System.antt =====
-- app/system.py: `reboot` and `shutdown`.
use keekars_pi_vpn.Base.{
  ℕ, Option, none, some, List, [], ◌∷◌, ◌==◌, if◌then◌else◌, Act, pure, raise,
}
use keekars_pi_vpn.Base.Text.{Text, codes}
use keekars_pi_vpn.WebApp.{HttpError, http, unhandled, system_action_failed}

-- `systemctl` with its arguments, and the code that it ends with; `none` where it cannot be started
pub record Systemctl (World : Type 0) : Type 0 where
  pub run : List Text → World → Option ℕ × World

module _ {World : Type 0} (systemctl : Systemctl World) where
  abbrev ended : Option ℕ → Act HttpError World (Unit {0})
  ended none = raise unhandled
  ended (some returncode) =
      if returncode == 0 then pure tt else raise (http 502 system_action_failed)

  unfoldable pub run_systemctl : List Text → Act HttpError World (Unit {0})
  run_systemctl args w = let (code, w') = systemctl.run args w in ended code w'

  unfoldable pub reboot : Act HttpError World (Unit {0})
  reboot = run_systemctl (codes "reboot" ∷ [])

  unfoldable pub shutdown : Act HttpError World (Unit {0})
  shutdown = run_systemctl (codes "poweroff" ∷ [])
