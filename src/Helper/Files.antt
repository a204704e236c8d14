-- ===== src/Helper/Files.antt =====
-- The names of the tunnels' files and of their temporary files.
use mathlib.Core.List.{append_cancel_right, append_assoc}
use keekars_pi_vpn.Base.{
  ℕ, false, [], ◌∷◌, ◌++◌, ◌≡◌, ◌≢◌, refl, sym, ap, ◌∙◌, arith, Bool-cases, inl, inr,
}
use keekars_pi_vpn.Base.Text.{Text, codes, text_eq, text_eq_iff}
use keekars_pi_vpn.Base.Dict.{Dict, lookup, insert, remove, lookup-insert, lookup-remove}
use keekars_pi_vpn.Helper.Host.{conf_file, tmp_file}

last_or : ℕ → Text → ℕ
last_or d [] = d
last_or d (c ∷ cs) = last_or c cs

last_or-append : (d : ℕ) (s : Text) (c x y z w : ℕ) → last_or d (s ++ x ∷ y ∷ z ∷ w ∷ c ∷ []) ≡ c
unfolding last_or
last_or-append d [] c x y z w = refl
last_or-append d (a ∷ s) c x y z w = last_or-append a s c x y z w

last_or-conf_file : (name : Text) → last_or 0 (conf_file name) ≡ b'f'
unfolding conf_file
last_or-conf_file name = last_or-append 0 name b'f' b'.' b'c' b'o' b'n'

last_or-tmp_file : (name : Text) → last_or 0 (tmp_file name) ≡ b'p'
unfolding tmp_file conf_file
last_or-tmp_file name =
    ap (last_or 0) (append_assoc name (codes ".conf") (codes ".tmp"))
    ∙ ap (last_or 0) (sym (append_assoc name (codes ".con") (codes "f.tmp")))
    ∙ last_or-append 0 (name ++ codes ".con") b'p' b'f' b'.' b't' b'm'

tmp-ne-conf : (a b : Text) → text_eq (tmp_file a) (conf_file b) ≡ false
tmp-ne-conf a b = elim (Bool-cases (text_eq (tmp_file a) (conf_file b))) [
  | inl e ↦
      let same : last_or 0 (tmp_file a) ≡ last_or 0 (conf_file b) =
        ap (last_or 0) ((text_eq_iff _ _).0 e) in
      absurd (ground (arith, same, last_or-tmp_file a, last_or-conf_file b))
  | inr e ↦ e
]

conf_file-injective : (a b : Text) → conf_file a ≡ conf_file b → a ≡ b
unfolding conf_file
conf_file-injective a b h = append_cancel_right a b (codes ".conf") h

conf-ne-conf : (a b : Text) → a ≢ b → text_eq (conf_file a) (conf_file b) ≡ false
conf-ne-conf a b h = elim (Bool-cases (text_eq (conf_file a) (conf_file b))) [
  | inl e ↦ absurd (h (conf_file-injective a b ((text_eq_iff _ _).0 e)))
  | inr e ↦ e
]

-- Replacing a tunnel's file by a temporary one changes that file and no other tunnel's.
module _ (files : Dict Text) (tunnel content : Text) where
  abbrev pub replaced : Dict Text
  replaced = insert (conf_file tunnel) content (remove (tmp_file tunnel) files)

  pub lookup-replaced_ne :
      (other : Text)
      → tunnel ≢ other
      → lookup (conf_file other) replaced ≡ lookup (conf_file other) files
  lookup-replaced_ne other h =
      simp (lookup-insert, lookup-remove, conf-ne-conf tunnel other h, tmp-ne-conf tunnel other)

pub lookup-remove_tmp :
    (files : Dict Text) (tunnel other : Text)
    → lookup (conf_file other) (remove (tmp_file tunnel) files) ≡ lookup (conf_file other) files
lookup-remove_tmp files tunnel other = simp (lookup-remove, tmp-ne-conf tunnel other)
