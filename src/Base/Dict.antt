-- ===== src/Base/Dict.antt =====
-- Python's `dict` with texts for keys, in insertion order; a directory of files is one too.
use keekars_pi_vpn.Base.Tests.{if◌then◌else◌}
use keekars_pi_vpn.Base.Text.{Text, text_eq, text_eq_iff, text_eq_refl}
use mathlib.Core.Bool.{Bool, true, false}
use mathlib.Core.List.{List, [], ◌∷◌}
use mathlib.Core.Option.{Option, none, some}
use mathlib.Core.Path.{◌≡◌, refl}
use native.Mathlib.Omega.{arith}

abbrev pub Dict : Type 0 → Type 0
Dict V = List (Text × V)

module _ {V : Type 0} where
  -- `d.get(key)`
  unfoldable pub lookup : Text → Dict V → Option V
  lookup k [] = none
  lookup k ((j, v) ∷ d) = let rest = lookup k d in if text_eq j k then some v else rest

  -- `key in d`
  unfoldable pub has_key : Text → Dict V → Bool
  has_key k [] = false
  has_key k ((j, v) ∷ d) = if text_eq j k then true else has_key k d

  -- `d[key] = value`
  unfoldable pub insert : Text → V → Dict V → Dict V
  insert k v [] = (k, v) ∷ []
  insert k v ((j, w) ∷ d) =
      let rest = insert k v d in if text_eq j k then (j, v) ∷ d else (j, w) ∷ rest

  -- `d.pop(key, None)`; every entry of the key goes.
  unfoldable pub remove : Text → Dict V → Dict V
  remove k [] = []
  remove k ((j, v) ∷ d) = let rest = remove k d in if text_eq j k then rest else (j, v) ∷ rest

  -- `list(d)`
  unfoldable pub keys : Dict V → List Text
  keys [] = []
  keys ((j, v) ∷ d) = j ∷ keys d

  pub lookup-insert :
      (k j : Text) (v : V) (d : Dict V)
      → lookup j (insert k v d) ≡ (if text_eq k j then some v else lookup j d)
  unfolding lookup insert
  lookup-insert k j v [] = refl
  lookup-insert k j v ((i, w) ∷ d) = ground (
    arith,
    text_eq_iff k j,
    text_eq_iff i k,
    text_eq_iff i j,
    lookup-insert k j v d,
    text_eq_refl k,
    text_eq_refl i,
  )

  pub lookup-remove :
      (k j : Text) (d : Dict V) → lookup j (remove k d) ≡ (if text_eq k j then none else lookup j d)
  unfolding lookup remove
  lookup-remove k j [] = ground arith
  lookup-remove k j ((i, w) ∷ d) =
      ground (arith, text_eq_iff k j, text_eq_iff i k, text_eq_iff i j, lookup-remove k j d)

  pub lookup-insert_self : (k : Text) (v : V) (d : Dict V) → lookup k (insert k v d) ≡ some v
  lookup-insert_self k v d = simp (lookup-insert, text_eq_refl)

  pub lookup-remove_self : (k : Text) (d : Dict V) → lookup k (remove k d) ≡ none
  lookup-remove_self k d = simp (lookup-remove, text_eq_refl)

  pub has_key-lookup : (k : Text) (d : Dict V) → lookup k d ≡ none → has_key k d ≡ false
  unfolding has_key lookup
  has_key-lookup k [] h = refl
  has_key-lookup k ((j, v) ∷ d) h = ground (arith, has_key-lookup k d)

  pub has_key_of_lookup : (k : Text) (d : Dict V) {v : V} → lookup k d ≡ some v → has_key k d ≡ true
  unfolding has_key lookup
  has_key_of_lookup k [] {v = w} h = ground arith
  has_key_of_lookup k ((j, v) ∷ d) {v = w} h = ground (arith, has_key_of_lookup k d {v = w})
