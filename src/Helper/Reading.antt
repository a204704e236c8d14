-- ===== src/Helper/Reading.antt =====
-- What `_read_conf` reads back of a file, and carriage returns.
use keekars_pi_vpn.Base.{
  ℕ, zero, suc, Bool, true, false, Option, none, some, List, [], ◌∷◌, ◌++◌, ◌≡◌, refl, ap, ok,
  arith, elem, All, Option-cases, inl, inr, if◌then◌else◌,
}
use keekars_pi_vpn.Base.Text.{
  Text, codes, newline, rstrip_newlines, decimal, all_digits-decimal, elem-digits, elem-append,
  text_operations, universal_newlines, universal_newlines-no_return, universal_newlines_same,
}
use keekars_pi_vpn.Base.Dict.{Dict, lookup, lookup-insert_self}
use keekars_pi_vpn.Helper.Conf.{split_conf, line_end, rebuild_blocks, rebuild_conf}
use keekars_pi_vpn.Helper.Request.{Json, int, bool, str, print_int, is_true_int}
use keekars_pi_vpn.Helper.Validate.{
  drop_final_newline, is_key_from, matches_wg_key, validate_wg_key,
}
use keekars_pi_vpn.Helper.Blocks.{validate_optional_key, line, psk_line, peer_block}
use keekars_pi_vpn.Helper.Host.{Host, conf_file, read_conf}
use keekars_pi_vpn.Helper.Files.{replaced}

-- No carriage return
abbrev pub NoReturn : Text → Type 0
NoReturn t = elem 13 t ≡ false

append-NoReturn : (s t : Text) → NoReturn s → NoReturn t → NoReturn (s ++ t)
append-NoReturn s t h k = rw (elem-append 13 s t) (ground (arith, h, k))

pub split_conf-NoReturn :
    (t : Text) → NoReturn t → NoReturn (split_conf t).0 × All NoReturn (split_conf t).1
unfolding split_conf elem
split_conf-NoReturn [] h = (refl, tt)
split_conf-NoReturn (c ∷ t) h = ground (arith, split_conf-NoReturn t)

rstrip-NoReturn : (t : Text) → NoReturn t → NoReturn (rstrip_newlines t)
unfolding rstrip_newlines elem
rstrip-NoReturn [] h = refl
rstrip-NoReturn (c ∷ t) h = ground (arith, rstrip-NoReturn t)

line_end-NoReturn : (t : Text) → NoReturn t → NoReturn (line_end t)
unfolding elem
line_end-NoReturn t h =
    append-NoReturn (rstrip_newlines t) (newline ∷ []) (rstrip-NoReturn t h) refl

rebuild_blocks-NoReturn : (bs : List Text) → All NoReturn bs → NoReturn (rebuild_blocks bs)
unfolding rebuild_blocks elem
rebuild_blocks-NoReturn [] h = refl
rebuild_blocks-NoReturn (b ∷ bs) h =
    append-NoReturn (line_end b) (rebuild_blocks bs) (line_end-NoReturn b h.0)
      (rebuild_blocks-NoReturn bs h.1)

pub rebuild_conf-NoReturn :
    (header : Text) (bs : List Text)
    → NoReturn header
    → All NoReturn bs
    → NoReturn (rebuild_conf header bs)
unfolding rebuild_conf
rebuild_conf-NoReturn header bs h k =
    append-NoReturn (line_end header) (rebuild_blocks bs) (line_end-NoReturn header h)
      (rebuild_blocks-NoReturn bs k)

is_key_from-NoReturn : (n : ℕ) (t : Text) → is_key_from n t ≡ true → NoReturn t
unfolding is_key_from elem
is_key_from-NoReturn zero (c ∷ e ∷ []) h = ground arith
is_key_from-NoReturn zero (c ∷ e ∷ f ∷ t) h = ground arith
is_key_from-NoReturn zero (c ∷ []) h = ground arith
is_key_from-NoReturn zero [] h = ground arith
is_key_from-NoReturn (suc n) [] h = ground arith
is_key_from-NoReturn (suc n) (c ∷ t) h = ground (arith, is_key_from-NoReturn n t)

before_drop-NoReturn : (t : Text) → NoReturn (drop_final_newline t) → NoReturn t
unfolding elem drop_final_newline
before_drop-NoReturn [] h = refl
before_drop-NoReturn (c ∷ []) h = ground arith
before_drop-NoReturn (c ∷ d ∷ t) h = ground (arith, before_drop-NoReturn (d ∷ t))

validate_key_lem : (t : Text) → matches_wg_key t ≡ true → NoReturn t
unfolding matches_wg_key
validate_key_lem t h = before_drop-NoReturn t (is_key_from-NoReturn 42 (drop_final_newline t) h)

pub validate_wg_key-NoReturn :
    (field : Text) (v : Json) {t : Text} → validate_wg_key field v ≡ ok t → NoReturn t
unfolding validate_wg_key
validate_wg_key-NoReturn field (str s) {t} h = ground (arith, validate_key_lem t)
validate_wg_key-NoReturn field _ h = cc

abbrev pub NoReturnIn : Option Text → Type 0
NoReturnIn none = Unit
NoReturnIn (some t) = NoReturn t

pub validate_optional_key-NoReturn :
    (field : Text) (v : Json) {psk : Option Text}
    → validate_optional_key field v ≡ ok psk
    → NoReturnIn psk
unfolding validate_optional_key validate_wg_key
validate_optional_key-NoReturn field v {psk = none} h = tt
validate_optional_key-NoReturn field (str s) {psk = some t} h = ground (arith, validate_key_lem t)
validate_optional_key-NoReturn field _ {psk = some t} h = cc

line-NoReturn : (k v : Text) → NoReturn k → NoReturn v → NoReturn (k ++ (v ++ newline ∷ []))
unfolding elem
line-NoReturn k v h e =
    append-NoReturn k (v ++ newline ∷ []) h (append-NoReturn v (newline ∷ []) e refl)

print_int-NoReturn : (v : Json) → NoReturn (print_int v)
unfolding print_int text_operations
print_int-NoReturn (int n) = elem-digits 13 (decimal n) refl (all_digits-decimal n)
print_int-NoReturn (bool true) = refl
print_int-NoReturn (bool false) = refl
print_int-NoReturn _ = refl

psk_line-NoReturn : (psk : Option Text) → NoReturnIn psk → NoReturn (psk_line psk)
unfolding elem
psk_line-NoReturn none h = refl
psk_line-NoReturn (some t) h = line-NoReturn (codes "PresharedKey = ") t refl h

keepalive-NoReturn :
    (keepalive : Json) (b : Bool)
    → NoReturn (if b then line "PersistentKeepalive = " (print_int keepalive) else [])
unfolding elem
keepalive-NoReturn keepalive false = refl
keepalive-NoReturn keepalive true =
    line-NoReturn (codes "PersistentKeepalive = ") (print_int keepalive) refl
      (print_int-NoReturn keepalive)

pub peer_block-NoReturn :
    (public_key : Text) (psk : Option Text) (allowed_ips : Text) (keepalive : Json)
    → NoReturn public_key
    → NoReturnIn psk
    → NoReturn allowed_ips
    → NoReturn (peer_block public_key psk allowed_ips keepalive)
unfolding peer_block elem
peer_block-NoReturn public_key psk allowed_ips keepalive hk hp ha =
    let last =
      if is_true_int keepalive then line "PersistentKeepalive = " (print_int keepalive) else [] in
    let ips = line "AllowedIPs = " allowed_ips in
    let key = line "PublicKey = " public_key in
    append-NoReturn (codes "[Peer]\n") (key ++ (psk_line psk ++ (ips ++ last))) refl (
      append-NoReturn key (psk_line psk ++ (ips ++ last))
        (line-NoReturn (codes "PublicKey = ") public_key refl hk)
        (append-NoReturn (psk_line psk) (ips ++ last) (psk_line-NoReturn psk hp) (
          append-NoReturn ips last (line-NoReturn (codes "AllowedIPs = ") allowed_ips refl ha)
            (keepalive-NoReturn keepalive (is_true_int keepalive)))))

pub read_conf-NoReturn :
    {World : Type 0} (tunnel : Text) (h : Host World) (content : Text)
    → (read_conf tunnel h).0 ≡ ok content
    → NoReturn content
unfolding read_conf
read_conf-NoReturn tunnel h content e =
    elim (Option-cases (lookup (conf_file tunnel) h.conf_files)) [
      | inl n ↦ let bad = rw n at e in ground (arith, bad)
      | inr (t, k) ↦
          let read = rw k at e in
          let same : universal_newlines t ≡ content = ground (arith, read) in
          rw (← same) (universal_newlines-no_return t)
    ]

-- A file without a carriage return is read as it stands.
pub read-replaced :
    {World : Type 0} (tunnel text : Text) (files : Dict Text) (h : Host World)
    → h.conf_files ≡ replaced files tunnel text
    → NoReturn text
    → (read_conf tunnel h).0 ≡ ok text
unfolding read_conf
read-replaced tunnel text files h e n =
    rw (e, lookup-insert_self) (ap ok (universal_newlines_same text n))
