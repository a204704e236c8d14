-- ===== src/Ip/Overlap.antt =====
-- What the four tests of `overlaps` decide.
use native.Mathlib.Nat.{
  pow-suc, one-le-pow, div-div-eq-div-mul, mul-div_cancel, mul-add-div_right, div-eq_of_lt,
  mul_assoc, add-zero,
}
use keekars_pi_vpn.Base.{
  ℕ, zero, suc, ◌+◌, ◌-◌, ◌*◌, ◌/◌, ◌^◌, ◌≤◌, ◌<◌, ◌≡◌, sym, ap, ◌∙◌, ◌↔◌, inl, inr, true, false,
  arith, ==_iff, leb, Bool-cases,
}
use keekars_pi_vpn.Ip.V4.{
  Network, block_size, mask, network_of, broadcast_address, has_address, overlaps,
}

-- A network as `ipaddress` builds it: the host bits of its address are clear.
pub record IsNetwork (n : Network) : Type 0 where
  pub prefixlen_bound : n.prefixlen ≤ 32
  pub aligned : mask (block_size n.prefixlen) n.network_address ≡ n.network_address

pub block_size_pos : (p : ℕ) → 0 < block_size p
block_size_pos p = one-le-pow (32 - p) 2 (omega arith)

pow-add : (a b : ℕ) → 2 ^ (a + b) ≡ 2 ^ a * 2 ^ b
pow-add a zero = rw add-zero (omega arith)
pow-add a (suc b) =
    let e : a + suc b ≡ suc (a + b) = omega arith in
    rw (e, pow-suc 2 (a + b), pow-suc 2 b, pow-add a b) (mul_assoc (2 ^ a) (2 ^ b) 2)

-- A shorter prefix makes blocks that are a multiple of those of a longer one.
pub block_size-split : (p q : ℕ) → p ≤ q → q ≤ 32 → block_size p ≡ block_size q * 2 ^ (q - p)
block_size-split p q h k =
    let e : 32 - p ≡ (32 - q) + (q - p) = omega arith in rw e (pow-add (32 - q) (q - p))

module _ (s : ℕ) (pos : 0 < s) where
  mask_div : (x : ℕ) → mask s x / s ≡ x / s
  unfolding mask
  mask_div x = mul-div_cancel (x / s) pos

  mask-mask : (m x : ℕ) → mask (s * m) (mask s x) ≡ mask (s * m) x
  mask-mask m x =
      let inner : mask s x / (s * m) ≡ x / (s * m) =
        sym (div-div-eq-div-mul (mask s x) s m)
        ∙ ap (λ t. t / m) (mask_div x)
        ∙ div-div-eq-div-mul x s m in
      unfold mask in ap (λ t. t * (s * m)) inner

  pub mask_idem : (x : ℕ) → mask s (mask s x) ≡ mask s x
  mask_idem x = let e = mask_div x in unfold mask in ap (λ t. t * s) e

  mask-last : (x : ℕ) → mask s (mask s x + (s - 1)) ≡ mask s x
  unfolding mask
  mask-last x =
      ap (λ t. t * s)
        (mul-add-div_right pos (x / s) (s - 1)
          ∙ rw (div-eq_of_lt {n = s - 1} {m = s} (omega arith)) (omega arith))

pub network_of-IsNetwork : (ip p : ℕ) → p ≤ 32 → IsNetwork (network_of ip p)
unfolding network_of
network_of-IsNetwork ip p h = record {
  prefixlen_bound = h;
  aligned = mask_idem (block_size p) (block_size_pos p) ip;
}

module _ (a : Network) (wf : IsNetwork a) where
  has-network_address : has_address a a.network_address ≡ true
  unfolding has_address
  has-network_address = (==_iff _ _).1 wf.aligned

  has-broadcast_address : has_address a (broadcast_address a) ≡ true
  unfolding has_address broadcast_address
  has-broadcast_address =
      let last =
        mask-last (block_size a.prefixlen) (block_size_pos a.prefixlen) a.network_address in
      (==_iff _ _).1 (rw wf.aligned at last)

-- The network with the longer prefix lies in the other one, if they share an address.
has-network_address_of :
    (a b : Network) (x : ℕ)
    → IsNetwork a
    → IsNetwork b
    → a.prefixlen ≤ b.prefixlen
    → has_address a x ≡ true
    → has_address b x ≡ true
    → has_address a b.network_address ≡ true
has-network_address_of a b x wa wb h ha hb =
    let m = 2 ^ (b.prefixlen - a.prefixlen) in
    let sb = block_size b.prefixlen in
    let split = block_size-split a.prefixlen b.prefixlen h wb.prefixlen_bound in
    let in_a : mask (block_size a.prefixlen) x ≡ a.network_address =
      unfold has_address in (==_iff _ _).0 ha in
    let in_b : mask sb x ≡ b.network_address = unfold has_address in (==_iff _ _).0 hb in
    let same : mask (block_size a.prefixlen) b.network_address ≡ a.network_address =
      ap (λ s. mask s b.network_address) split
      ∙ ap (λ t. mask (sb * m) t) (sym in_b)
      ∙ mask-mask sb (block_size_pos b.prefixlen) m x
      ∙ ap (λ s. mask s x) (sym split)
      ∙ in_a in
    unfold has_address in (==_iff _ _).1 same

no_overlap :
    (a b : Network)
    → has_address b a.network_address ≡ false
    → has_address b (broadcast_address a) ≡ false
    → has_address a b.network_address ≡ false
    → has_address a (broadcast_address b) ≡ false
    → overlaps a b ≡ true
    → ⊥
unfolding overlaps
no_overlap a b h i j k o = ground arith

by_first : (a b : Network) → has_address b a.network_address ≡ true → overlaps a b ≡ true
unfolding overlaps
by_first a b h = ground arith

by_third : (a b : Network) → has_address a b.network_address ≡ true → overlaps a b ≡ true
unfolding overlaps
by_third a b h = ground arith

-- `overlaps` is true exactly when the two networks have an address in common.
pub overlaps_iff :
    (a b : Network)
    → IsNetwork a
    → IsNetwork b
    → (overlaps a b ≡ true) ↔ ((x : ℕ) × (has_address a x ≡ true) × (has_address b x ≡ true))
overlaps_iff a b wa wb = (shared, λ (x, ha, hb). found x ha hb)
  where
    shared : overlaps a b ≡ true → (x : ℕ) × (has_address a x ≡ true) × (has_address b x ≡ true)
    shared h = elim (Bool-cases (has_address b a.network_address)) [
      | inl e ↦ (a.network_address, has-network_address a wa, e)
      | inr n ↦ elim (Bool-cases (has_address b (broadcast_address a))) [
        | inl e ↦ (broadcast_address a, has-broadcast_address a wa, e)
        | inr n' ↦ elim (Bool-cases (has_address a b.network_address)) [
          | inl e ↦ (b.network_address, e, has-network_address b wb)
          | inr n'' ↦ elim (Bool-cases (has_address a (broadcast_address b))) [
            | inl e ↦ (broadcast_address b, e, has-broadcast_address b wb)
            | inr n''' ↦ absurd (no_overlap a b n n' n'' n''' h)
          ]
        ]
      ]
    ]

    found : (x : ℕ) → has_address a x ≡ true → has_address b x ≡ true → overlaps a b ≡ true
    found x ha hb = elim (Bool-cases (leb a.prefixlen b.prefixlen)) [
      | inl le ↦ by_third a b (has-network_address_of a b x wa wb (ground arith) ha hb)
      | inr gt ↦ by_first a b (has-network_address_of b a x wb wa (ground arith) hb ha)
    ]
