-- ===== src/Helper/ReadBack.antt =====
-- `_parse_conf_info` on a file that `cmd_create_tunnel` made.
use mathlib.Core.List.{append_assoc, append-nil}
use keekars_pi_vpn.Base.{
  ℕ, true, false, not, none, some, [], ◌∷◌, ◌++◌, ◌≡◌, refl, ap, ◌∙◌, arith, elem, all, all-append,
  is_nil-append_left, is_nil, head?,
}
use keekars_pi_vpn.Base.Text.{
  Text, codes, newline, starts_with, strip_prefix, is_space, lstrip, rstrip, is_digit, decimal,
  decimal-ne_nil, all_digits-decimal, text_operations,
}
use keekars_pi_vpn.Ip.{AnyInterface, Interface, v4, print_any_interface, print_interface, print_v4}
use keekars_pi_vpn.Helper.Conf.Rebuild.{IsPart}
use keekars_pi_vpn.Helper.Conf.Info.{
  server, line_of, value_behind, match_line, find_lines, search_line, parse_conf_info,
}
use keekars_pi_vpn.Helper.Request.{Json, print_int}
use keekars_pi_vpn.Helper.Blocks.{line, interface_block}
use keekars_pi_vpn.Helper.Injection.{
  line-IsQuiet, newline-IsPart, append-IsPart, print_int-IsOneLine, no_newline-IsOneLine,
  []-IsQuiet,
}

-- A line with no match is passed over.
find_lines-in_line :
    (key l rest : Text)
    → elem newline l ≡ false
    → find_lines key false 0 (l ++ newline ∷ rest) ≡ find_lines key true 0 rest
unfolding find_lines elem
find_lines-in_line key [] rest h = refl
find_lines-in_line key (c ∷ l) rest h = ground (arith, find_lines-in_line key l rest)

find_lines-other :
    (key : Text) (c : ℕ) (l rest : Text)
    → elem newline (c ∷ l) ≡ false
    → match_line key (c ∷ (l ++ newline ∷ rest)) ≡ none
    → find_lines key true 0 (c ∷ (l ++ newline ∷ rest)) ≡ find_lines key true 0 rest
unfolding find_lines elem
find_lines-other key c l rest h m = ground (arith, find_lines-in_line key l rest)

find_lines-match :
    (key : Text) (c : ℕ) (t : Text) {value rest : Text}
    → match_line key (c ∷ t) ≡ some (value, rest)
    → head? (find_lines key true 0 (c ∷ t)) ≡ some value
unfolding find_lines
find_lines-match key c t {value} {rest} m = ground arith

-- A value with no white space
abbrev IsWord : Text → Type 0
IsWord t = all (λ c. not (is_space c)) t ≡ true

line_of-append :
    (l rest : Text) → elem newline l ≡ false → line_of (l ++ newline ∷ rest) ≡ (l, newline ∷ rest)
unfolding line_of elem
line_of-append [] rest h = refl
line_of-append (c ∷ l) rest h = ground (arith, line_of-append l rest)

rstrip_word : (t : Text) → IsWord t → rstrip t ≡ t
unfolding rstrip all
rstrip_word [] h = refl
rstrip_word (c ∷ t) h = ground (arith, rstrip_word t)

word-no_newline : (t : Text) → IsWord t → elem newline t ≡ false
unfolding all elem is_space
word-no_newline [] h = refl
word-no_newline (c ∷ t) h = ground (arith, word-no_newline t)

abbrev address_key : Text
address_key = codes "Address"

is_space-space : is_space b' ' ≡ true
unfolding is_space
is_space-space = refl

is_space-equals : is_space b'=' ≡ false
unfolding is_space elem
is_space-equals = refl

is_space-A : is_space b'A' ≡ false
unfolding is_space elem
is_space-A = refl

word-head : (c : ℕ) (cs : Text) → IsWord (c ∷ cs) → is_space c ≡ false
unfolding all
word-head c cs word = ground arith

match-address :
    (c : ℕ) (cs rest : Text)
    → IsWord (c ∷ cs)
    → match_line address_key (codes "Address = " ++ ((c ∷ cs) ++ newline ∷ rest))
      ≡ some (c ∷ cs, newline ∷ rest)
unfolding match_line value_behind strip_prefix lstrip
match-address c cs rest word = rw (
  is_space-A,
  is_space-space,
  is_space-equals,
  is_space-space,
  word-head c cs word,
  line_of-append (c ∷ cs) rest (word-no_newline (c ∷ cs) word),
  rstrip_word (c ∷ cs) word,
)

-- The address line, behind two lines that are none.
search-address :
    (private_key : Text) (c : ℕ) (cs rest : Text)
    → elem newline private_key ≡ false
    → IsWord (c ∷ cs)
    → search_line address_key (
        codes "[Interface]\n"
        ++ (line "PrivateKey = " private_key ++ (line "Address = " (c ∷ cs) ++ rest)))
      ≡ some (c ∷ cs)
unfolding search_line match_line text_operations
search-address private_key c cs rest one word =
    let address_line : line "Address = " (c ∷ cs) ++ rest
        ≡ codes "Address = " ++ ((c ∷ cs) ++ newline ∷ rest) =
      ap (λ t. codes "Address = " ++ t) (append_assoc (c ∷ cs) (newline ∷ []) rest) in
    let after_key = codes "Address = " ++ ((c ∷ cs) ++ newline ∷ rest) in
    let key_line : line "PrivateKey = " private_key ++ (line "Address = " (c ∷ cs) ++ rest)
        ≡ b'P' ∷ ((codes "rivateKey = " ++ private_key) ++ newline ∷ after_key) =
      ap (λ t. codes "PrivateKey = " ++ t)
        (append_assoc private_key (newline ∷ []) (line "Address = " (c ∷ cs) ++ rest)
          ∙ ap (λ t. private_key ++ newline ∷ t) address_line) in
    ap head? (
      find_lines-other address_key b'[' (codes "Interface]") _ refl refl
      ∙ ap (find_lines address_key true 0) key_line
      ∙ find_lines-other address_key b'P' (codes "rivateKey = " ++ private_key) after_key one refl)
    ∙ find_lines-match address_key b'A' _ (match-address c cs rest word)

interface_block-IsPart :
    (private_key : Text) (address : AnyInterface) (listen_port : Json)
    → elem newline private_key ≡ false
    → IsWord (print_any_interface address)
    → IsPart (interface_block private_key address listen_port)
unfolding interface_block elem starts_with
interface_block-IsPart private_key address port one word =
    let last = rw append-nil at (
      line-IsQuiet (codes "ListenPort = ") (print_int port) [] refl (λ t. refl)
        (print_int-IsOneLine port) []-IsQuiet) in
    let addr =
      line-IsQuiet (codes "Address = ") (print_any_interface address) _ refl (λ t. refl)
        (no_newline-IsOneLine _ (word-no_newline _ word)) last in
    let keys =
      line-IsQuiet (codes "PrivateKey = ") private_key _ refl (λ t. refl)
        (no_newline-IsOneLine _ one) addr in
    append-IsPart (codes "[Interface]") (newline ∷ _) refl (newline-IsPart _ keys)

-- What is read back from a file as `cmd_create_tunnel` writes it.
read_back :
    (private_key : Text) (address : AnyInterface) (listen_port : Json) (c : ℕ) (cs : Text)
    → print_any_interface address ≡ c ∷ cs
    → elem newline private_key ≡ false
    → IsWord (c ∷ cs)
    → parse_conf_info (interface_block private_key address listen_port) ≡ record {
      mode = server;
      configured_address = some (c ∷ cs);
      configured_endpoint = none;
      configured_allowed_ips = [];
    }
unfolding parse_conf_info
read_back private_key address port c cs begins one word =
    rw (interface_block-IsPart private_key address port one (rw begins word))
      (unfold interface_block in rw begins (rw (search-address private_key c cs _ one word)))

digits-IsWord : (t : Text) → all is_digit t ≡ true → IsWord t
unfolding all is_digit is_space elem
digits-IsWord [] h = refl
digits-IsWord (c ∷ t) h = ground (arith, digits-IsWord t)

decimal-IsWord : (n : ℕ) → IsWord (decimal n)
decimal-IsWord n = digits-IsWord (decimal n) (all_digits-decimal n)

print_interface-IsWord : (i : Interface) → IsWord (print_interface i)
unfolding print_interface print_v4 all
print_interface-IsWord i = simp (all-append, decimal-IsWord, all) (unfold is_space elem in refl)

print_interface-ne_nil : (i : Interface) → is_nil (print_interface i) ≡ false
unfolding print_interface print_v4
print_interface-ne_nil i = is_nil-append_left _ _ (is_nil-append_left _ _ (decimal-ne_nil _))

-- What `_parse_conf_info` reads from a file that `cmd_create_tunnel` wrote, for an IPv4 address
-- and a key with no newline: a server tunnel with that address and with no peers.
pub parse_conf_info-interface_block :
    (private_key : Text) (i : Interface) (listen_port : Json)
    → elem newline private_key ≡ false
    → parse_conf_info (interface_block private_key (v4 i) listen_port) ≡ record {
      mode = server;
      configured_address = some (print_interface i);
      configured_endpoint = none;
      configured_allowed_ips = [];
    }
parse_conf_info-interface_block private_key i listen_port one =
    go (print_interface i) refl (print_interface-IsWord i) (print_interface-ne_nil i)
  where
    go :
        (t : Text)
        → print_interface i ≡ t
        → IsWord t
        → is_nil t ≡ false
        → parse_conf_info (interface_block private_key (v4 i) listen_port) ≡ record {
          mode = server;
          configured_address = some t;
          configured_endpoint = none;
          configured_allowed_ips = [];
        }
    go [] e word n = cc
    go (c ∷ cs) e word n =
        read_back private_key (v4 i) listen_port c cs (unfold print_any_interface in e) one word
