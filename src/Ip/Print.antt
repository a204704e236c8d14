-- ===== src/Ip/Print.antt =====
-- `IPv4Interface` on the texts that `str` prints.
use keekars_pi_vpn.Base.{
  ℕ, zero, suc, ◌/◌, ◌%◌, ◌^◌, ◌≤◌, ◌<◌, ◌≡◌, refl, ap, Bool, true, false, ◌&&◌, Option, none, some,
  [], ◌∷◌, arith, ◌==◌, ==_iff, elem, ◌+◌, Bool-cases, inl, inr,
}
use keekars_pi_vpn.Base.Text.{
  text_operations, decimal, split, all_digits-decimal, split-append, split_whole, elem-digits,
  elem-append,
}
use keekars_pi_vpn.Ip.V4.{
  Interface, IsInterface, parse_octet, parse_v4, prefix_v4, parse_interface, print_v4,
  print_interface,
}

-- The test passes on `count` numbers, from `first` on.
passes : (ℕ → Bool) → ℕ → ℕ → Bool
passes test first zero = true
passes test first (suc count) = test first && passes test (first + 1) count

passes-at :
    (test : ℕ → Bool) (first count k : ℕ)
    → passes test first count ≡ true
    → first ≤ k
    → k < first + count
    → test k ≡ true
unfolding passes
passes-at test first zero k all_pass lo hi = absurd (omega arith)
passes-at test first (suc count) k all_pass lo hi = elim (Bool-cases (k == first)) [
  | inl same ↦ rw ((==_iff k first).0 same) (ground arith)
  | inr other ↦ passes-at test (first + 1) count k (ground arith) (ground arith) (omega arith)
]

abbrev reads_as : ℕ → Option ℕ → Bool
reads_as n none = false
reads_as n (some m) = m == n

reads_as_eq : (n : ℕ) (o : Option ℕ) → reads_as n o ≡ true → o ≡ some n
reads_as_eq n none h = cc
reads_as_eq n (some m) h = ground arith

octet_table : passes (λ n. reads_as n (parse_octet (decimal n))) 0 256 ≡ true
unfolding passes parse_octet text_operations
octet_table = refl

octet-decimal : (n : ℕ) → n < 256 → parse_octet (decimal n) ≡ some n
octet-decimal n h = reads_as_eq n _ (passes-at _ 0 256 n octet_table (omega arith) (omega arith))

prefix_table : passes (λ n. reads_as n (prefix_v4 (decimal n))) 0 33 ≡ true
unfolding passes prefix_v4 text_operations
prefix_table = refl

prefix-decimal : (n : ℕ) → n ≤ 32 → prefix_v4 (decimal n) ≡ some n
prefix-decimal n h = reads_as_eq n _ (passes-at _ 0 33 n prefix_table (omega arith) (omega arith))

no_dot : (n : ℕ) → elem b'.' (decimal n) ≡ false
no_dot n = elem-digits b'.' (decimal n) (unfold text_operations in refl) (all_digits-decimal n)

pub no_slash-decimal : (n : ℕ) → elem b'/' (decimal n) ≡ false
no_slash-decimal n =
    elem-digits b'/' (decimal n) (unfold text_operations in refl) (all_digits-decimal n)

split-print_v4 :
    (ip : ℕ)
    → split b'.' (print_v4 ip)
      ≡ decimal (ip / 256 / 256 / 256)
        ∷ decimal (ip / 256 / 256 % 256)
        ∷ decimal (ip / 256 % 256)
        ∷ decimal (ip % 256)
        ∷ []
unfolding print_v4
split-print_v4 ip = rw (split-append b'.' _ _ (no_dot (ip / 256 / 256 / 256))) (
    rw (split-append b'.' _ _ (no_dot (ip / 256 / 256 % 256))) (
      rw (split-append b'.' _ _ (no_dot (ip / 256 % 256)))
        (rw (split_whole b'.' _ (no_dot (ip % 256))))))

pub parse-print_v4 : (ip : ℕ) → ip < 2 ^ 32 → parse_v4 (print_v4 ip) ≡ some ip
unfolding parse_v4
parse-print_v4 ip h = rw (split-print_v4 ip) (
    rw
      (
        octet-decimal (ip / 256 / 256 / 256) (omega arith),
        octet-decimal (ip / 256 / 256 % 256) (omega arith),
        octet-decimal (ip / 256 % 256) (omega arith),
        octet-decimal (ip % 256) (omega arith),
      )
      (ap some (omega arith)))

no_slash-print_v4 : (ip : ℕ) → elem b'/' (print_v4 ip) ≡ false
unfolding print_v4 elem
no_slash-print_v4 ip = simp (elem-append, no_slash-decimal, elem)

split-print_interface :
    (i : Interface) → split b'/' (print_interface i) ≡ print_v4 i.ip ∷ decimal i.prefixlen ∷ []
unfolding print_interface
split-print_interface i =
    rw (split-append b'/' _ _ (no_slash-print_v4 i.ip))
      (rw (split_whole b'/' _ (no_slash-decimal i.prefixlen)))

-- Whatever interface `str` prints, `IPv4Interface` reads back, the host bits included.
pub parse-print_interface :
    (i : Interface) → IsInterface i → parse_interface (print_interface i) ≡ some i
unfolding parse_interface
parse-print_interface i wf =
    rw (split-print_interface i)
      (rw (parse-print_v4 i.ip wf.ip_bound, prefix-decimal i.prefixlen wf.prefixlen_bound))
