-- ===== src/Wireguard/Sound.antt =====
-- What sound metadata is, and rules for the steps of a route.
use keekars_pi_vpn.Base.{
  Bool, true, false, ◌≡◌, refl, sym, ◌∙◌, Option, none, some, Result, ok, err, lift, continue,
  ◌>>=◌, arith, if◌then◌else◌,
}
use keekars_pi_vpn.Base.Text.{Text, text_eq}
use keekars_pi_vpn.Base.Dict.{Dict, lookup, insert, remove, lookup-insert, lookup-remove}
use keekars_pi_vpn.WebApp.{HttpError, TunnelMeta, App, Req}
use keekars_pi_vpn.Wireguard.Metadata.{tunnels_in, load_metadata}
use keekars_pi_vpn.Wireguard.Fits.{IsTunnel}
use keekars_pi_vpn.Wireguard.Quiet.{IsQuiet}

-- Every tunnel of the metadata has an IPv4 address, and its peers' addresses lie in its network and
-- differ from its own and from each other.
abbrev pub AllTunnels : Dict TunnelMeta → Type 0
AllTunnels d = (name : Text) (t : TunnelMeta) → lookup name d ≡ some t → IsTunnel t

abbrev pub IsSound : {World : Type 0} → App World → Type 0
IsSound a = AllTunnels (tunnels_in a.metadata)

abbrev pub KeepsSound : {World A : Type 0} → Req World A → Type 0
KeepsSound {World} m = (a : App World) → IsSound a → IsSound (m a).1

some_inj : (t u : TunnelMeta) → some t ≡ some u → t ≡ u
some_inj t u e = cc e

insert_cases :
    (same : Bool) (t : TunnelMeta) (o : Option TunnelMeta) (u : TunnelMeta)
    → IsTunnel t
    → (o ≡ some u → IsTunnel u)
    → (if same then some t else o) ≡ some u
    → IsTunnel u
insert_cases true t o u wf all e = rw (← some_inj t u e) wf
insert_cases false t o u wf all e = all e

remove_cases :
    (same : Bool) (o : Option TunnelMeta) (u : TunnelMeta)
    → (if same then none else o) ≡ some u
    → o ≡ some u
remove_cases same o u e = ground arith

pub insert-AllTunnels :
    (name : Text) (t : TunnelMeta) (d : Dict TunnelMeta)
    → IsTunnel t
    → AllTunnels d
    → AllTunnels (insert name t d)
insert-AllTunnels name t d wf all other u e =
    let found = sym (lookup-insert name other t d) ∙ e in
    insert_cases (text_eq name other) t (lookup other d) u wf (all other u) found

pub remove-AllTunnels :
    (name : Text) (d : Dict TunnelMeta) → AllTunnels d → AllTunnels (remove name d)
remove-AllTunnels name d all other u e =
    let found = sym (lookup-remove name other d) ∙ e in
    all other u (remove_cases (text_eq name other) (lookup other d) u found)

module _ {World A B : Type 0} where
  pub continue-KeepsSound :
      (r : Result HttpError A) (f : A → Req World B) (a : App World)
      → IsSound a
      → ((x : A) → r ≡ ok x → IsSound (f x a).1)
      → IsSound (continue r f a).1
  continue-KeepsSound (ok x) f a s next = next x refl
  continue-KeepsSound (err e) f a s next = s

  -- After an action that leaves the metadata as it is
  pub after_quiet :
      (m : Req World A) (f : A → Req World B)
      → IsQuiet m
      → ((x : A) → KeepsSound (f x))
      → KeepsSound {World = World} {A = B} (m >>= f)
  after_quiet m f quiet next a s =
      let kept : IsSound (m a).1 = rw (quiet a) s in
      continue-KeepsSound (m a).0 f (m a).1 kept (λ x e. next x (m a).1 kept)

  pub after_lift :
      (r : Result HttpError A) (f : A → Req World B)
      → ((x : A) → r ≡ ok x → KeepsSound (f x))
      → KeepsSound {World = World} {A = B} (lift r >>= f)
  after_lift r f next a s = continue-KeepsSound r f a s (λ x e. next x e a s)

pub after_load :
    {World B : Type 0} (f : Dict TunnelMeta → Req World B)
    → ((d : Dict TunnelMeta) → AllTunnels d → KeepsSound (f d))
    → KeepsSound {World = World} {A = B} (load_metadata >>= f)
unfolding load_metadata
after_load f next a s = next (tunnels_in a.metadata) s a s
