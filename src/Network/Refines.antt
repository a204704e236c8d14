-- ===== src/Network/Refines.antt =====
-- What `configure_interface` does to a profile of NetworkManager.
use keekars_pi_vpn.Base.{
  append_nil, append_assoc, ℕ, ◌==◌, ==_iff, arith, ◌≡◌, ◌⊎◌, inl, inr, refl, sym, ◌∙◌, ap, true,
  false, Option, none, some, List, [], ◌∷◌, ◌++◌, Result, ok, err, ◌>>=◌, pure, continue,
  Bool-cases,
}
use keekars_pi_vpn.Base.Text.{Text, codes}
use keekars_pi_vpn.Base.Dict.{Dict}
use keekars_pi_vpn.Ip.{print_v4}
use keekars_pi_vpn.WebApp.{HttpError, http, unknown_interface}
use keekars_pi_vpn.Network.Nmcli.{
  Finished, Device, WorldReq, finished, run_nmcli, existing_interface,
}
use keekars_pi_vpn.Network.Configure.{
  NetworkConfig, InterfaceMethod, dhcp, static, address_text, conn_name, modify, bring_up,
  method_property, addresses_property, gateway_property, dns_property, dns_text, set_gateway,
  set_dns, set_method, configure_known, configure_interface,
}
use keekars_pi_vpn.Network.Profile.{
  Setting, setting_args, apply_settings, apply_steps, IsAtomic, IsNetworkManager, IsReached,
  gateway_steps, dns_steps, method_steps, asked_steps,
}

apply_steps-append :
    (ss ts : List (List Setting)) (p : Dict Text)
    → apply_steps (ss ++ ts) p ≡ apply_steps ts (apply_steps ss p)
apply_steps-append [] ts p = refl
apply_steps-append (s ∷ ss) ts p = apply_steps-append ss ts (apply_settings s p)

module _ {World : Type 0} (device : Device World) (profile : Text → World → Dict Text)
    (nm : IsNetworkManager device profile) where
  abbrev Reaches : {A : Type 0} → Text → WorldReq World A → List (List Setting) → Type 0
  Reaches conn m steps =
      (w : World) → IsReached (m w).0 steps (profile conn w) (profile conn (m w).1)

  pure-Reaches : {A : Type 0} (conn : Text) (a : A) → Reaches conn (pure a) []
  pure-Reaches conn a w = inl (tt, refl)

  continue-Reaches :
      {A B : Type 0} (conn : Text) (r : Result HttpError A) (f : A → WorldReq World B)
      (ss ts : List (List Setting)) (w w' : World)
      → IsReached r ss (profile conn w) (profile conn w')
      → ((a : A) → Reaches conn (f a) ts)
      → IsReached (continue r f w').0 (ss ++ ts) (profile conn w) (profile conn (continue r f w').1)
  continue-Reaches conn (ok a) f ss ts w w' h k = elim h [
    | inl (_, after) ↦ elim (k a w') [
      | inl (o, e) ↦
          inl (o, e ∙ (ap (apply_steps ts) after ∙ sym (apply_steps-append ss ts (profile conn w))))
      | inr (n, (done, (rest, (parts, e)))) ↦ inr (
        n,
        (
          ss ++ done,
          (
            rest,
            (
              ap (λ l. ss ++ l) parts ∙ sym (append_assoc ss done rest),
              e ∙ (ap (apply_steps done) after ∙ sym (apply_steps-append ss done (profile conn w))),
            ),
          ),
        ),
      )
    ]
    | inr (n, _) ↦ elim (n tt) [ ]
  ]
  continue-Reaches conn (err e) f ss ts w w' h k = elim h [
    | inl (o, _) ↦ elim o [ ]
    | inr (n, (done, (rest, (parts, e)))) ↦
        inr (n, (done, (rest ++ ts, (ap (λ l. l ++ ts) parts ∙ append_assoc done rest ts, e))))
  ]

  bind-Reaches :
      {A B : Type 0} (conn : Text) (m : WorldReq World A) (f : A → WorldReq World B)
      (ss ts : List (List Setting))
      → Reaches conn m ss
      → ((a : A) → Reaches conn (f a) ts)
      → Reaches conn (m >>= f) (ss ++ ts)
  bind-Reaches conn m f ss ts h k w = continue-Reaches conn (m w).0 f ss ts w (m w).1 (h w) k

  finished-Reaches :
      (conn : Text) (f : Option Finished) (settings : List Setting) (w w' : World)
      → IsAtomic f settings (profile conn w) (profile conn w')
      → IsReached
          (finished f w').0
          (settings ∷ [])
          (profile conn w)
          (profile conn (finished f w').1)
  finished-Reaches conn none settings w w' h = elim h [
    | inl (o, _) ↦ elim o [ ]
    | inr (_, e) ↦ inr (λ o. o, ([], (settings ∷ [], (refl, e))))
  ]
  finished-Reaches conn (some f) settings w w' h = elim (Bool-cases (f.returncode == 0)) [
    | inl z ↦ rw z (elim h [
      | inl (_, e) ↦ inl (tt, e)
      | inr (n, _) ↦ elim (n ((==_iff f.returncode 0).0 z)) [ ]
    ])
    | inr z ↦ rw z (elim h [
      | inl (o, _) ↦ ground (arith, z, o)
      | inr (_, e) ↦ inr (λ o. o, ([], (settings ∷ [], (refl, e))))
    ])
  ]

  modify-Reaches :
      (conn : Text) (settings : List Setting)
      → Reaches conn (run_nmcli device (modify conn (setting_args settings))) (settings ∷ [])
  unfolding run_nmcli
  modify-Reaches conn settings w =
      let (f, w') = device.nmcli (modify conn (setting_args settings)) w in
      finished-Reaches conn f settings w w' (nm.modifies conn settings w)

  quiet-Reaches :
      (conn : Text) (f : Option Finished) (w w' : World)
      → profile conn w' ≡ profile conn w
      → IsReached (finished f w').0 [] (profile conn w) (profile conn (finished f w').1)
  quiet-Reaches conn none w w' h = inr (λ o. o, ([], ([], (refl, h))))
  quiet-Reaches conn (some f) w w' h = elim (Bool-cases (f.returncode == 0)) [
    | inl z ↦ rw z (inl (tt, h))
    | inr z ↦ rw z (inr (λ o. o, ([], ([], (refl, h)))))
  ]

  bring_up-Reaches : (conn : Text) → Reaches conn (run_nmcli device (bring_up conn)) []
  unfolding run_nmcli
  bring_up-Reaches conn w =
      let (f, w') = device.nmcli (bring_up conn) w in
      quiet-Reaches conn f w w' (nm.activates conn w)

  set_gateway-Reaches :
      (conn : Text) (g : Option ℕ) → Reaches conn (set_gateway device conn g) (gateway_steps g)
  unfolding set_gateway gateway_steps
  set_gateway-Reaches conn none = pure-Reaches conn tt
  set_gateway-Reaches conn (some g) =
      bind-Reaches conn _ _ (((gateway_property, print_v4 g) ∷ []) ∷ []) []
        (modify-Reaches conn ((gateway_property, print_v4 g) ∷ [])) (λ _. pure-Reaches conn tt)

  set_dns-Reaches :
      (conn : Text) (d : Option (List ℕ)) → Reaches conn (set_dns device conn d) (dns_steps d)
  unfolding set_dns dns_steps
  set_dns-Reaches conn none = pure-Reaches conn tt
  set_dns-Reaches conn (some []) = pure-Reaches conn tt
  set_dns-Reaches conn (some (d ∷ ds)) =
      bind-Reaches conn _ _ (((dns_property, dns_text (d ∷ ds)) ∷ []) ∷ []) []
        (modify-Reaches conn ((dns_property, dns_text (d ∷ ds)) ∷ [])) (λ _. pure-Reaches conn tt)

  set_method-Reaches :
      (conn : Text) (payload : NetworkConfig) (m : InterfaceMethod)
      → Reaches conn (set_method device conn payload m) (method_steps payload m)
  unfolding set_method method_steps
  set_method-Reaches conn payload dhcp =
      bind-Reaches conn _ _ (((method_property, codes "auto") ∷ []) ∷ []) []
        (modify-Reaches conn ((method_property, codes "auto") ∷ [])) (λ _. pure-Reaches conn tt)
  set_method-Reaches conn payload static =
      let manual : List Setting =
        (method_property, codes "manual")
        ∷ (addresses_property, address_text payload.address)
        ∷ [] in
      bind-Reaches conn _ _ (manual ∷ []) (gateway_steps payload.gateway ++ dns_steps payload.dns)
        (modify-Reaches conn manual)
        (λ _.
          bind-Reaches conn _ _ (gateway_steps payload.gateway) (dns_steps payload.dns)
            (set_gateway-Reaches conn payload.gateway) (λ _. set_dns-Reaches conn payload.dns))

  configure_known-Reaches :
      (payload : NetworkConfig)
      → Reaches
          (conn_name payload.interface)
          (configure_known device payload)
          (asked_steps payload ++ [])
  unfolding configure_known asked_steps
  configure_known-Reaches payload =
      let conn = conn_name payload.interface in
      bind-Reaches conn _ _ (method_steps payload payload.method) []
        (set_method-Reaches conn payload payload.method)
        (λ _. bind-Reaches conn _ _ [] [] (bring_up-Reaches conn) (λ _. pure-Reaches conn tt))

  -- Of `configure_interface`: for an interface that is not there, status 404 and nothing done; or
  -- else it succeeds and the interface's profile is changed by all settings that the request asks
  -- for, in their order; or it fails and the profile is changed by a first part of them. It is
  -- assumed that `nmcli con mod` does all its settings or fails and does none, and that `con up`
  -- changes no profile.
  pub configure_interface-refines :
      (payload : NetworkConfig) (w : World)
      → ((existing_interface device payload.interface w ≡ false)
          × (configure_interface device payload w ≡ (err (http 404 unknown_interface), w)))
        ⊎ ((existing_interface device payload.interface w ≡ true)
            × IsReached
                (configure_interface device payload w).0
                (asked_steps payload)
                (profile (conn_name payload.interface) w)
                (profile (conn_name payload.interface) (configure_interface device payload w).1))
  unfolding configure_interface
  configure_interface-refines payload w =
      elim (Bool-cases (existing_interface device payload.interface w)) [
        | inl known ↦ inr (
          known,
          rw known (rw (append_nil (asked_steps payload)) at (configure_known-Reaches payload w)),
        )
        | inr unknown ↦ inl (unknown, rw unknown refl)
      ]
