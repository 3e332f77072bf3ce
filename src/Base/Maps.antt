-- ===== src/Base/Maps.antt =====
-- Python's `dict` over any keys with an equality test: an association list in the order in which the
-- keys were first set.
use mathlib.Core.Path.{◌≡◌, refl, ◌∙◌, sym, subst}
use mathlib.Core.Logic.{◌↔◌, inl, inr}
use mathlib.Core.List.{List, [], ◌∷◌, ◌++◌}
use mathlib.Core.Bool.{Bool, true, false}
use mathlib.Core.Option.{Option, none, some}
use native.Mathlib.Omega.{arith}
use cyberlab_kali.Base.Tests.{if◌then◌else◌, Bool-cases}
use cyberlab_kali.Base.Lists.{All}
use cyberlab_kali.Base.Strings.{Text, text_eq, text_eq_iff}

-- `a == b` on keys.
pub record Key {ℓ} (K : Type ℓ) : Type ℓ where
  pub same : K → K → Bool
  pub same_iff : (a b : K) → (same a b ≡ true) ↔ (a ≡ b)

abbrev pub Map {ℓ κ} : Type ℓ → Type κ → Type (ℓ ⊔ κ)
Map K V = List (K × V)

-- `[y for x in xs for y in f(x)]`
abbrev pub flat_map {ℓ κ} : {A : Type ℓ} {B : Type κ} → (A → List B) → List A → List B
flat_map f [] = []
flat_map f (x ∷ xs) = f x ++ flat_map f xs

pub flat_map-none {ℓ κ} :
    {A : Type ℓ} {B : Type κ} (f : A → List B) (xs : List A)
    → All (λ x. f x ≡ []) xs
    → flat_map f xs ≡ []
flat_map-none f [] h = refl
flat_map-none f (x ∷ xs) h = rw (h.0) (flat_map-none f xs h.1)

module _ {ℓ} {K : Type ℓ} ⦃key : Key K⦄ where
  pub same_refl : (k : K) → key.same k k ≡ true
  same_refl k = (key.same_iff k k).1 refl

  same_sym : (j k : K) → key.same j k ≡ false → key.same k j ≡ false
  same_sym j k h = elim (Bool-cases (key.same k j)) [
    | inr e ↦ e
    | inl e ↦ absurd (ground (arith, (key.same_iff j k).1 (sym ((key.same_iff k j).0 e))))
  ]

module _ {ℓ κ} {K : Type ℓ} {V : Type κ} ⦃key : Key K⦄ where
  -- `d.get(k)`
  abbrev pub get : K → Map K V → Option V
  get k [] = none
  get k ((j, v) ∷ d) = if key.same j k then some v else get k d

  -- `d[k] = v`
  unfoldable pub set : K → V → Map K V → Map K V
  set k v [] = (k, v) ∷ []
  set k v ((j, w) ∷ d) = if key.same j k then (j, v) ∷ d else (j, w) ∷ set k v d

  -- No entry has the key.
  abbrev pub IsAbsent : K → Map K V → Type 0
  IsAbsent k d = All (λ e. key.same e.0 k ≡ false) d

  -- No key stands in two entries.
  abbrev pub IsMap : Map K V → Type 0
  IsMap [] = Unit
  IsMap ((k, v) ∷ d) = IsAbsent k d × IsMap d

  set-IsAbsent :
      (j k : K) (v : V) (d : Map K V) → key.same k j ≡ false → IsAbsent j d → IsAbsent j (set k v d)
  unfolding set
  set-IsAbsent j k v [] h a = (h, tt)
  set-IsAbsent j k v ((i, w) ∷ d) h a = elim (Bool-cases (key.same i k)) [
    | inl e ↦ rw e (a.0, a.1)
    | inr e ↦ rw e (a.0, set-IsAbsent j k v d h a.1)
  ]

  pub set-IsMap : (k : K) (v : V) (d : Map K V) → IsMap d → IsMap (set k v d)
  unfolding set
  set-IsMap k v [] h = (tt, tt)
  set-IsMap k v ((j, w) ∷ d) h = elim (Bool-cases (key.same j k)) [
    | inl e ↦ rw e (h.0, h.1)
    | inr e ↦ rw e (set-IsAbsent j k v d (same_sym j k e) h.0, set-IsMap k v d h.1)
  ]

  -- Every entry of a map is what `get` finds under its key.
  get-cons :
      (k : K) (v : V) (d e : Map K V)
      → IsAbsent k e
      → All (λ entry. get entry.0 d ≡ some entry.1) e
      → All (λ entry. get entry.0 ((k, v) ∷ d) ≡ some entry.1) e
  get-cons k v d [] a h = tt
  get-cons k v d ((j, w) ∷ e) a h = (rw (same_sym j k a.0) h.0, get-cons k v d e a.1 h.1)

  pub get-entries : (d : Map K V) → IsMap d → All (λ entry. get entry.0 d ≡ some entry.1) d
  get-entries [] h = tt
  get-entries ((k, v) ∷ d) h = (rw (same_refl k) refl, get-cons k v d d h.0 (get-entries d h.1))

  pub get-absent : (k : K) (d : Map K V) → IsAbsent k d → get k d ≡ none
  get-absent k [] h = refl
  get-absent k ((j, v) ∷ d) h = rw (h.0) (get-absent k d h.1)

module _ {ℓ κ} {K : Type ℓ} {V : Type κ} ⦃key : Key K⦄ where
  pub get-set :
      (k asked : K) (v : V) (d : Map K V)
      → get asked (set k v d) ≡ (if key.same k asked then some v else get asked d)
  unfolding set
  get-set k asked v [] = refl
  get-set k asked v ((j, w) ∷ d) = elim (Bool-cases (key.same j k)) [
    | inl e ↦
        let same : j ≡ k = (key.same_iff j k).0 e in
        rw (e, same)
          (elim (Bool-cases (key.same k asked)) [ inl f ↦ rw f refl | inr f ↦ rw f refl ])
    | inr e ↦ elim (Bool-cases (key.same j asked)) [
      | inr f ↦ rw (e, f) (get-set k asked v d)
      | inl f ↦
          let same : j ≡ asked = (key.same_iff j asked).0 f in
          let other : key.same k asked ≡ false =
            subst (λ x. key.same k x ≡ false) same (same_sym j k e) in
          rw (e, f, other) refl
    ]
  ]

  -- `{**d, **e}`, where the writes of `e` follow in its order.
  unfoldable pub set_all : Map K V → Map K V → Map K V
  set_all d [] = d
  set_all d ((k, v) ∷ e) = set_all (set k v d) e

  pub set_all-IsMap : (d e : Map K V) → IsMap d → IsMap (set_all d e)
  unfolding set_all
  set_all-IsMap d [] h = h
  set_all-IsMap d ((k, v) ∷ e) h = set_all-IsMap (set k v d) e (set-IsMap k v d h)

  pub get-set_all_absent :
      (asked : K) (d e : Map K V) → IsAbsent asked e → get asked (set_all d e) ≡ get asked d
  unfolding set_all
  get-set_all_absent asked d [] a = refl
  get-set_all_absent asked d ((k, v) ∷ e) a =
      get-set_all_absent asked (set k v d) e a.1 ∙ (get-set k asked v d ∙ rw (a.0) refl)

instance abbrev pub text_key : Key Text
text_key = record { same = text_eq; same_iff = text_eq_iff }
