-- ===== src/Base/Dicts.antt =====
-- Python's `dict` with text keys, in insertion order: an association list without repeated keys.
use mathlib.Core.Path.{◌≡◌, refl, ◌∙◌}
use mathlib.Core.List.{List, [], ◌∷◌, map}
use mathlib.Core.Option.{Option, none, some}
use native.Mathlib.Omega.{arith}
use cyberlab_kali.Base.Tests.{if◌then◌else◌}
use cyberlab_kali.Base.Strings.{Text, text_eq, text_eq_iff, text_eq_refl}

abbrev pub Dict {ℓ} : Type ℓ → Type ℓ
Dict V = List (Text × V)

module _ {ℓ} {V : Type ℓ} where
  -- `d.get(k)`
  unfoldable pub lookup : Text → Dict V → Option V
  lookup k [] = none
  lookup k ((j, v) ∷ d) = if text_eq j k then some v else lookup k d

  -- `d[k] = v`
  unfoldable pub insert : Text → V → Dict V → Dict V
  insert k v [] = (k, v) ∷ []
  insert k v ((j, w) ∷ d) = if text_eq j k then (j, v) ∷ d else (j, w) ∷ insert k v d

  -- `{**d, **e}`
  unfoldable pub merge : Dict V → Dict V → Dict V
  merge d [] = d
  merge d ((k, v) ∷ e) = merge (insert k v d) e

  -- `set(d)`
  abbrev pub keys : Dict V → List Text
  keys d = map (λ entry. entry.0) d

  pub lookup-insert :
      (key asked : Text) (new : V) (d : Dict V)
      → lookup asked (insert key new d) ≡ (if text_eq key asked then some new else lookup asked d)
  unfolding lookup insert
  lookup-insert key asked new [] = refl
  lookup-insert key asked new ((i, old) ∷ rest) =
      let ih = lookup-insert key asked new rest in
      ground (
        arith,
        text_eq_iff i asked,
        text_eq_iff i key,
        text_eq_iff key asked,
        text_eq_refl asked,
        ih,
      )

  pub lookup-insert_self : (k : Text) (v : V) (d : Dict V) → lookup k (insert k v d) ≡ some v
  lookup-insert_self k v d = lookup-insert k k v d ∙ ground (arith, text_eq_refl k)
