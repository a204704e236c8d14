-- ===== src/Helper/Names.antt =====
-- `TUNNEL_NAME_PATTERN` and `_validate_tunnel_name`.
use keekars_pi_vpn.Base.{
  ℕ, true, false, [], ◌∷◌, ◌++◌, ◌≡◌, refl, ◌↔◌, ◌⊎◌, inl, inr, ◌==◌, ==_iff, arith, elem, all, ok,
  Bool-cases,
}
use keekars_pi_vpn.Base.Text.{Text, newline, elem-append}
use keekars_pi_vpn.Helper.Request.{Json, str}
use keekars_pi_vpn.Helper.Validate.{
  drop_final_newline, is_tunnel_name, is_name_char, matches_tunnel_name, validate_tunnel_name,
}

drop-append_newline : (w : Text) → drop_final_newline (w ++ newline ∷ []) ≡ w
unfolding drop_final_newline
drop-append_newline [] = refl
drop-append_newline (c ∷ []) = ground arith
drop-append_newline (c ∷ d ∷ w) = ground (arith, drop-append_newline (d ∷ w))

drop_cases : (t : Text) → (drop_final_newline t ≡ t) ⊎ (t ≡ drop_final_newline t ++ newline ∷ [])
unfolding drop_final_newline
drop_cases [] = inl refl
drop_cases (c ∷ []) = ground arith
drop_cases (c ∷ d ∷ t) = ground (arith, drop_cases (d ∷ t))

no_newline-drop : (t : Text) → elem newline t ≡ false → drop_final_newline t ≡ t
unfolding drop_final_newline elem
no_newline-drop [] h = refl
no_newline-drop (c ∷ t) h = ground (arith, no_newline-drop t)

-- A character that is no name character stands in no name.
elem-name :
    (c : ℕ) (t : Text) → is_name_char c ≡ false → all is_name_char t ≡ true → elem c t ≡ false
unfolding elem all
elem-name c [] n h = refl
elem-name c (x ∷ t) n h = elim (Bool-cases (c == x)) [
  | inl e ↦ let n' : is_name_char x ≡ false = rw ((==_iff c x).0 e) at n in ground (arith, n')
  | inr e ↦ rw e (elem-name c t n (ground arith))
]

is_tunnel_name-chars : (t : Text) → is_tunnel_name t ≡ true → all is_name_char t ≡ true
unfolding is_tunnel_name
is_tunnel_name-chars t h = ground arith

-- The tunnel-name pattern accepts exactly the names of 1 to 15 letters, digits, `_` and `-`, and
-- each of them with one newline behind it.
pub matches_tunnel_name_iff :
    (t : Text)
    → (matches_tunnel_name t ≡ true) ↔ (
        (is_tunnel_name t ≡ true)
        ⊎ ((w : Text) × (t ≡ w ++ newline ∷ []) × (is_tunnel_name w ≡ true)))
unfolding matches_tunnel_name
matches_tunnel_name_iff t = (split_match, accepts)
  where
    split_match :
        is_tunnel_name (drop_final_newline t) ≡ true
        → (is_tunnel_name t ≡ true)
          ⊎ ((w : Text) × (t ≡ w ++ newline ∷ []) × (is_tunnel_name w ≡ true))
    split_match h = elim (drop_cases t) [
      | inl e ↦ inl (rw e at h)
      | inr e ↦ inr (drop_final_newline t, e, h)
    ]

    accepts :
        (is_tunnel_name t ≡ true)
          ⊎ ((w : Text) × (t ≡ w ++ newline ∷ []) × (is_tunnel_name w ≡ true))
        → is_tunnel_name (drop_final_newline t) ≡ true
    accepts (inl h) =
        rw
          (no_newline-drop t
            (elem-name newline t (unfold is_name_char in refl) (is_tunnel_name-chars t h)))
          h
    accepts (inr (w, e, h)) = rw (e, drop-append_newline w) h

absent :
    (c : ℕ) (t : Text)
    → is_name_char c ≡ false
    → elem c (newline ∷ []) ≡ false
    → matches_tunnel_name t ≡ true
    → elem c t ≡ false
absent c t n nl h = elim ((matches_tunnel_name_iff t).0 h) [
  | inl k ↦ elem-name c t n (is_tunnel_name-chars t k)
  | inr (w, e, k) ↦
      rw (e, elem-append c w (newline ∷ []), elem-name c w n (is_tunnel_name-chars w k)) nl
]

validate_tunnel_name-matches :
    (v : Json) (t : Text) → validate_tunnel_name v ≡ ok t → matches_tunnel_name t ≡ true
unfolding validate_tunnel_name
validate_tunnel_name-matches (str s) t h = ground arith
validate_tunnel_name-matches _ t h = cc

-- An accepted name holds no slash and no dot, so the tunnel's file lies in the folder itself.
validate_tunnel_name-in_dir :
    (v : Json) (t : Text)
    → validate_tunnel_name v ≡ ok t
    → (elem b'/' t ≡ false) × (elem b'.' t ≡ false)
unfolding is_name_char elem
validate_tunnel_name-in_dir v t h =
    let m = validate_tunnel_name-matches v t h in
    (absent b'/' t refl refl m, absent b'.' t refl refl m)
