-- ===== src/Network/Profile.antt =====
-- A profile of NetworkManager, what nmcli documents of it, and the settings that a request of
-- app/network.py asks for.
use keekars_pi_vpn.Base.{ℕ, ◌≡◌, ◌⊎◌, Option, none, some, List, [], ◌∷◌, ◌++◌, Result, ok, err}
use keekars_pi_vpn.Base.Text.{Text, codes}
use keekars_pi_vpn.Base.Dict.{Dict, insert}
use keekars_pi_vpn.Ip.{print_v4}
use keekars_pi_vpn.WebApp.{HttpError}
use keekars_pi_vpn.Network.Nmcli.{Finished, Device}
use keekars_pi_vpn.Network.Configure.{
  NetworkConfig, InterfaceMethod, dhcp, static, address_text, modify, bring_up, method_property,
  addresses_property, gateway_property, dns_property, dns_text,
}

-- A change of one property of a profile, and its new value
abbrev pub Setting : Type 0
Setting = Text × Text

abbrev pub setting_args : List Setting → List Text
setting_args [] = []
setting_args ((property, value) ∷ ss) = property ∷ value ∷ setting_args ss

abbrev pub apply_settings : List Setting → Dict Text → Dict Text
apply_settings [] p = p
apply_settings ((property, value) ∷ ss) p = apply_settings ss (insert property value p)

-- One command changes a profile by a list of settings.
abbrev pub apply_steps : List (List Setting) → Dict Text → Dict Text
apply_steps [] p = p
apply_steps (s ∷ ss) p = apply_steps ss (apply_settings s p)

abbrev pub Succeeded : Option Finished → Type 0
Succeeded none = ⊥
Succeeded (some f) = f.returncode ≡ 0

-- What a command with `modify` does: all of its settings, or it fails and does none.
abbrev pub IsAtomic : Option Finished → List Setting → Dict Text → Dict Text → Type 0
IsAtomic result settings before after =
    (Succeeded result × (after ≡ apply_settings settings before))
    ⊎ ((¬ Succeeded result) × (after ≡ before))

-- What nmcli documents of `con mod` and `con up`, where `profile` gives the properties of a profile.
pub record IsNetworkManager {World : Type 0} (device : Device World)
    (profile : Text → World → Dict Text) : Type 0 where
  pub modifies :
      (conn : Text) (settings : List Setting) (w : World)
      → IsAtomic
          (device.nmcli (modify conn (setting_args settings)) w).0
          settings
          (profile conn w)
          (profile conn (device.nmcli (modify conn (setting_args settings)) w).1)
  pub activates :
      (conn : Text) (w : World) → profile conn (device.nmcli (bring_up conn) w).1 ≡ profile conn w

-- How a request ends, and what it has done to the profile: all its steps, or a first part of them.
abbrev pub IsOk : {A : Type 0} → Result HttpError A → Type 0
IsOk (ok a) = Unit
IsOk (err e) = ⊥

abbrev pub IsReached :
    {A : Type 0} → Result HttpError A → List (List Setting) → Dict Text → Dict Text → Type 0
IsReached r steps before after =
    (IsOk r × (after ≡ apply_steps steps before))
    ⊎ ((¬ IsOk r)
        × ((done : List (List Setting)) × ((rest : List (List Setting)) × ((steps ≡ done ++ rest)
                × (after ≡ apply_steps done before)))))

unfoldable pub gateway_steps : Option ℕ → List (List Setting)
gateway_steps none = []
gateway_steps (some g) = ((gateway_property, print_v4 g) ∷ []) ∷ []

unfoldable pub dns_steps : Option (List ℕ) → List (List Setting)
dns_steps none = []
dns_steps (some []) = []
dns_steps (some (d ∷ ds)) = ((dns_property, dns_text (d ∷ ds)) ∷ []) ∷ []

unfoldable pub method_steps : NetworkConfig → InterfaceMethod → List (List Setting)
unfolding gateway_steps dns_steps
method_steps payload dhcp = ((method_property, codes "auto") ∷ []) ∷ []
method_steps payload static =
    ((method_property, codes "manual") ∷ (addresses_property, address_text payload.address) ∷ [])
    ∷ (gateway_steps payload.gateway ++ dns_steps payload.dns)

-- The settings that a request asks for, one list for each command
unfoldable pub asked_steps : NetworkConfig → List (List Setting)
unfolding method_steps
asked_steps payload = method_steps payload payload.method
