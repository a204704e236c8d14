-- ===== src/Helper/Injection.antt =====
-- The text that `cmd_add_peer` appends, as `_split_conf` reads it.
use mathlib.Core.List.{append_assoc, append-nil}
use keekars_pi_vpn.Base.{
  ℕ, zero, suc, Bool, true, false, Option, none, some, [], ◌∷◌, ◌++◌, ◌≡◌, refl, ap, ◌∙◌,
  if◌then◌else◌, arith, elem,
}
use keekars_pi_vpn.Base.Text.{
  Text, codes, newline, starts_with, decimal, all_digits-decimal, elem-digits, text_operations,
}
use keekars_pi_vpn.Helper.Conf.{peer_mark, split_conf}
use keekars_pi_vpn.Helper.Conf.Rebuild.{IsPart, IsBlock}
use keekars_pi_vpn.Helper.Request.{Json, int, bool, print_int, is_true_int}
use keekars_pi_vpn.Helper.Validate.{drop_final_newline, matches_wg_key, is_key_from}
use keekars_pi_vpn.Helper.Blocks.{line, psk_line, peer_block}

-- No newline, but perhaps one at the end.
abbrev pub IsOneLine : Text → Type 0
IsOneLine t = elem newline (drop_final_newline t) ≡ false

-- A part that may stand behind a newline.
abbrev pub IsQuiet : Text → Type 0
IsQuiet t = IsPart t × (starts_with peer_mark t ≡ false)

mark_behind_newline : (t : Text) → starts_with peer_mark (newline ∷ t) ≡ false
unfolding starts_with
mark_behind_newline t = refl

pub newline-IsPart : (rest : Text) → IsQuiet rest → IsPart (newline ∷ rest)
unfolding split_conf
newline-IsPart rest h = ground arith

pub append-IsPart : (s rest : Text) → elem newline s ≡ false → IsPart rest → IsPart (s ++ rest)
unfolding split_conf elem
append-IsPart [] rest h k = k
append-IsPart (c ∷ s) rest h k = ground (arith, append-IsPart s rest)

value-IsPart : (v rest : Text) → IsOneLine v → IsQuiet rest → IsPart (v ++ newline ∷ rest)
unfolding split_conf elem drop_final_newline
value-IsPart [] rest h k = newline-IsPart rest k
value-IsPart (c ∷ []) rest h k =
    ground (arith, newline-IsPart rest k, newline-IsPart (newline ∷ rest), mark_behind_newline rest)
value-IsPart (c ∷ d ∷ v) rest h k = ground (arith, value-IsPart (d ∷ v) rest)

pub line-IsQuiet :
    (k v rest : Text)
    → elem newline k ≡ false
    → ((t : Text) → starts_with peer_mark (k ++ t) ≡ false)
    → IsOneLine v
    → IsQuiet rest
    → IsQuiet ((k ++ (v ++ newline ∷ [])) ++ rest)
line-IsQuiet k v rest h other one quiet =
    let regroup : (k ++ (v ++ newline ∷ [])) ++ rest ≡ k ++ (v ++ newline ∷ rest) =
      append_assoc k (v ++ newline ∷ []) rest
      ∙ ap (λ t. k ++ t) (append_assoc v (newline ∷ []) rest) in
    rw regroup (append-IsPart k (v ++ newline ∷ rest) h (value-IsPart v rest one quiet), other _)

pub no_newline-IsOneLine : (t : Text) → elem newline t ≡ false → IsOneLine t
unfolding elem drop_final_newline
no_newline-IsOneLine [] h = refl
no_newline-IsOneLine (c ∷ t) h = ground (arith, no_newline-IsOneLine t)

is_key_from-no_newline : (n : ℕ) (t : Text) → is_key_from n t ≡ true → elem newline t ≡ false
unfolding is_key_from elem
is_key_from-no_newline zero (c ∷ e ∷ []) h = ground arith
is_key_from-no_newline zero (c ∷ e ∷ f ∷ t) h = ground arith
is_key_from-no_newline zero (c ∷ []) h = ground arith
is_key_from-no_newline zero [] h = ground arith
is_key_from-no_newline (suc n) [] h = ground arith
is_key_from-no_newline (suc n) (c ∷ t) h = ground (arith, is_key_from-no_newline n t)

pub key-IsOneLine : (t : Text) → matches_wg_key t ≡ true → IsOneLine t
unfolding matches_wg_key
key-IsOneLine t h = is_key_from-no_newline 42 (drop_final_newline t) h

pub print_int-IsOneLine : (v : Json) → IsOneLine (print_int v)
unfolding print_int text_operations drop_final_newline
print_int-IsOneLine (int n) =
    no_newline-IsOneLine (decimal n) (elem-digits newline (decimal n) refl (all_digits-decimal n))
print_int-IsOneLine (bool true) = refl
print_int-IsOneLine (bool false) = refl
print_int-IsOneLine _ = refl

abbrev pub IsKeyLine : Option Text → Type 0
IsKeyLine none = Unit
IsKeyLine (some psk) = IsOneLine psk

pub []-IsQuiet : IsQuiet []
unfolding split_conf starts_with
[]-IsQuiet = (refl, refl)

keepalive-IsQuiet :
    (keepalive : Json) (b : Bool)
    → IsQuiet (if b then line "PersistentKeepalive = " (print_int keepalive) else [])
unfolding elem starts_with
keepalive-IsQuiet keepalive false = []-IsQuiet
keepalive-IsQuiet keepalive true = rw append-nil at (
    line-IsQuiet (codes "PersistentKeepalive = ") (print_int keepalive) [] refl (λ t. refl)
      (print_int-IsOneLine keepalive) []-IsQuiet)

psk-IsQuiet :
    (psk : Option Text) (rest : Text)
    → IsKeyLine psk
    → IsQuiet rest
    → IsQuiet (psk_line psk ++ rest)
unfolding elem starts_with
psk-IsQuiet none rest h q = q
psk-IsQuiet (some psk) rest h q =
    line-IsQuiet (codes "PresharedKey = ") psk rest refl (λ t. refl) h q

-- The block that `cmd_add_peer` appends is one block to `_split_conf`, if the key and the
-- preshared key have no newline but perhaps at the end, and the allowed addresses none either.
pub peer_block-IsBlock :
    (public_key : Text) (psk : Option Text) (allowed_ips : Text) (keepalive : Json)
    → IsOneLine public_key
    → IsKeyLine psk
    → IsOneLine allowed_ips
    → IsBlock (peer_block public_key psk allowed_ips keepalive)
unfolding peer_block elem starts_with
peer_block-IsBlock public_key psk allowed_ips keepalive hk hp ha =
    let last = keepalive-IsQuiet keepalive (is_true_int keepalive) in
    let ips = line-IsQuiet (codes "AllowedIPs = ") allowed_ips _ refl (λ t. refl) ha last in
    let keys =
      line-IsQuiet (codes "PublicKey = ") public_key _ refl (λ t. refl) hk
        (psk-IsQuiet psk _ hp ips) in
    (append-IsPart (codes "[Peer]") (newline ∷ _) refl (newline-IsPart _ keys), refl)
