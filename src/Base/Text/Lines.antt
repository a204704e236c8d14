-- ===== src/Base/Text/Lines.antt =====
-- `text.splitlines()`, what a file opened as text reads, and the order of texts with `sorted`.
use Prim.Native.Nat.{ℕ}
use mathlib.Core.Path.{◌≡◌, refl, ap}
use mathlib.Core.Logic.{inl, inr}
use native.Mathlib.Omega.{arith}
use mathlib.Core.Bool.{Bool, true, false, ◌&&◌, ◌||◌}
use mathlib.Core.List.{List, [], ◌∷◌}
use keekars_pi_vpn.Base.Tests.{Bool-cases, ltb, leb, ◌==◌, if◌then◌else◌}
use keekars_pi_vpn.Base.Lists.{elem}
use keekars_pi_vpn.Base.Text.Defs.{Text, add_to_head}

-- The characters that end a line.
unfoldable pub is_line_break : ℕ → Bool
is_line_break c =
    (leb 10 c && leb c 13) || (leb 28 c && leb c 30) || elem c (0x85 ∷ 0x2028 ∷ 0x2029 ∷ [])

abbrev begins_with_lf : Text → Bool
begins_with_lf [] = false
begins_with_lf (c ∷ cs) = c == 10

-- A carriage return and a line feed are one break; no line follows a last break.
unfoldable pub splitlines : Text → List Text
unfolding is_line_break
splitlines [] = []
splitlines (c ∷ cs) =
    let rest = splitlines cs in
    if c == 13 && begins_with_lf cs
    then rest
    else if is_line_break c
    then [] ∷ rest
    else add_to_head c rest

-- What a file that is opened as text reads: a carriage return, with a line feed behind it or without, is
-- a newline.
unfoldable pub universal_newlines : Text → Text
universal_newlines [] = []
universal_newlines (c ∷ cs) =
    let rest = universal_newlines cs in
    if c == 13 then (if begins_with_lf cs then rest else 10 ∷ rest) else c ∷ rest

pub universal_newlines-no_return : (t : Text) → elem 13 (universal_newlines t) ≡ false
unfolding universal_newlines elem
universal_newlines-no_return [] = refl
universal_newlines-no_return (c ∷ t) = ground (arith, universal_newlines-no_return t)

pub universal_newlines_same : (t : Text) → elem 13 t ≡ false → universal_newlines t ≡ t
unfolding universal_newlines elem
universal_newlines_same [] h = refl
universal_newlines_same (c ∷ t) h = elim (Bool-cases (c == 13)) [
  | inl e ↦ ground arith
  | inr e ↦ rw e (ap (λ l. c ∷ l) (universal_newlines_same t (ground arith)))
]

-- `s < t` on texts
unfoldable pub text_ltb : Text → Text → Bool
text_ltb [] [] = false
text_ltb [] (y ∷ t) = true
text_ltb (x ∷ s) [] = false
text_ltb (x ∷ s) (y ∷ t) = ltb x y || (x == y && text_ltb s t)

insert_text : Text → List Text → List Text
unfolding text_ltb
insert_text t [] = t ∷ []
insert_text t (u ∷ us) =
    let rest = insert_text t us in if text_ltb u t then u ∷ rest else t ∷ u ∷ us

-- `sorted(texts)`
unfoldable pub sorted : List Text → List Text
unfolding insert_text
sorted [] = []
sorted (t ∷ ts) = insert_text t (sorted ts)
