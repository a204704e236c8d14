-- ===== src/Base/Text/Laws.antt =====
-- Laws of the operations on text.
use Prim.Native.Nat.{ℕ}
use mathlib.Core.Path.{◌≡◌, refl, ◌∙◌}
use mathlib.Core.Logic.{◌↔◌}
use mathlib.Core.Bool.{true, false, ◌||◌}
use mathlib.Core.List.{[], ◌∷◌, ◌++◌}
use native.Mathlib.Omega.{arith}
use keekars_pi_vpn.Base.Lists.{elem, all}
use keekars_pi_vpn.Base.Text.Defs.{
  Text, newline, text_eq, starts_with, contains, rstrip_newlines, split, is_digit,
}

pub text_eq_iff : (s t : Text) → (text_eq s t ≡ true) ↔ (s ≡ t)
unfolding text_eq
text_eq_iff [] [] = (λ _. refl, λ _. refl)
text_eq_iff (x ∷ s) (y ∷ t) = ground (arith, text_eq_iff s t)
text_eq_iff _ _ = ground arith

pub text_eq_refl : (s : Text) → text_eq s s ≡ true
text_eq_refl s = (text_eq_iff s s).1 refl

pub starts_with-append : (p t : Text) → starts_with p (p ++ t) ≡ true
unfolding starts_with
starts_with-append [] t = refl
starts_with-append (x ∷ p) t = ground (arith, starts_with-append p t)

-- A prefix without the character `sep` is found before `sep` or not at all.
pub starts_with-append_sep :
    (p t : Text) (sep : ℕ) (rest : Text)
    → elem sep p ≡ false
    → starts_with p (t ++ sep ∷ rest) ≡ starts_with p t
unfolding starts_with elem
starts_with-append_sep [] t sep rest h = refl
starts_with-append_sep (x ∷ p) [] sep rest h = ground arith
starts_with-append_sep (x ∷ p) (y ∷ t) sep rest h =
    ground (arith, starts_with-append_sep p t sep rest)

pub contains_self :
    (needle before after : Text) → contains needle (before ++ (needle ++ after)) ≡ true
unfolding contains
contains_self [] [] [] = refl
contains_self [] [] (c ∷ after) = refl
contains_self (n ∷ needle) [] after = ground (arith, starts_with-append needle after)
contains_self needle (c ∷ before) after = ground (arith, contains_self needle before after)

pub elem-append : (c : ℕ) (s t : Text) → elem c (s ++ t) ≡ (elem c s || elem c t)
unfolding elem
elem-append c [] t = refl
elem-append c (x ∷ s) t = ground (arith, elem-append c s t)

-- Trailing newlines go once: a text without them, and one newline, is a fixed point.
pub rstrip_newlines-append :
    (t : Text) → rstrip_newlines (rstrip_newlines t ++ newline ∷ []) ≡ rstrip_newlines t
unfolding rstrip_newlines
rstrip_newlines-append [] = refl
rstrip_newlines-append (c ∷ t) = ground (arith, rstrip_newlines-append t)

pub split-append :
    (sep : ℕ) (t rest : Text)
    → elem sep t ≡ false
    → split sep (t ++ sep ∷ rest) ≡ t ∷ split sep rest
unfolding split elem
split-append sep [] rest h = ground arith
split-append sep (c ∷ t) rest h = ground (arith, split-append sep t rest)

pub split_whole : (sep : ℕ) (t : Text) → elem sep t ≡ false → split sep t ≡ t ∷ []
unfolding split elem
split_whole sep [] h = refl
split_whole sep (c ∷ t) h = ground (arith, split_whole sep t)

pub elem-digits : (c : ℕ) (t : Text) → is_digit c ≡ false → all is_digit t ≡ true → elem c t ≡ false
unfolding elem all is_digit
elem-digits c [] n h = refl
elem-digits c (x ∷ t) n h = ground (arith, elem-digits c t)

pub starts_with-rstrip_newlines :
    (p t : Text) → elem newline p ≡ false → starts_with p (rstrip_newlines t) ≡ starts_with p t
unfolding starts_with rstrip_newlines elem
starts_with-rstrip_newlines [] t h = refl
starts_with-rstrip_newlines (x ∷ p) [] h = refl
starts_with-rstrip_newlines (x ∷ p) (c ∷ t) h = ground (arith, starts_with-rstrip_newlines p t)

contains-rstrip_newlines :
    (x : ℕ) (p t : Text)
    → elem newline (x ∷ p) ≡ false
    → contains (x ∷ p) (rstrip_newlines t) ≡ contains (x ∷ p) t
unfolding contains rstrip_newlines elem
contains-rstrip_newlines x p [] h = refl
contains-rstrip_newlines x p (c ∷ t) h =
    ground (arith, contains-rstrip_newlines x p t, starts_with-rstrip_newlines p t)

contains-append_newline :
    (x : ℕ) (p t : Text)
    → elem newline (x ∷ p) ≡ false
    → contains (x ∷ p) (t ++ newline ∷ []) ≡ contains (x ∷ p) t
unfolding contains elem
contains-append_newline x p [] h = ground arith
contains-append_newline x p (c ∷ t) h =
    ground (arith, contains-append_newline x p t, starts_with-append_sep p t newline [])

-- Trailing newlines do not matter to a text that has none.
pub contains-line_end :
    (x : ℕ) (p t : Text)
    → elem newline (x ∷ p) ≡ false
    → contains (x ∷ p) (rstrip_newlines t ++ newline ∷ []) ≡ contains (x ∷ p) t
contains-line_end x p t h =
    contains-append_newline x p (rstrip_newlines t) h ∙ contains-rstrip_newlines x p t h
