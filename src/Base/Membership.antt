-- ===== src/Base/Membership.antt =====
-- Which elements occur in a list, and what holds of all of those that a comprehension gives.
use mathlib.Core.Path.{◌≡◌, refl, sym, ap, subst}
use mathlib.Core.Logic.{◌⊎◌, inl, inr}
use mathlib.Core.List.{List, [], ◌∷◌, ◌++◌, map}
use mathlib.Core.Bool.{Bool, true}
use cyberlab_kali.Base.Tests.{Bool-cases}
use cyberlab_kali.Base.Lists.{All, All-append, keep}
use cyberlab_kali.Base.Maps.{flat_map}

abbrev pub Occurs : {A : Type 0} → A → List A → Type 0
Occurs a [] = ⊥
Occurs a (x ∷ xs) = (x ≡ a) ⊎ Occurs a xs

module _ {A : Type 0} where
  All-weaken : (P Q : A → Type 0) (xs : List A) → ((x : A) → P x → Q x) → All P xs → All Q xs
  All-weaken P Q [] f h = tt
  All-weaken P Q (x ∷ xs) f h = (f x h.0, All-weaken P Q xs f h.1)

  pub All-Occurs : (xs : List A) → All (λ x. Occurs x xs) xs
  All-Occurs [] = tt
  All-Occurs (x ∷ xs) = (
    inl refl,
    All-weaken (λ y. Occurs y xs) (λ y. Occurs y (x ∷ xs)) xs (λ y o. inr o) (All-Occurs xs),
  )

  pub Occurs-left : (a : A) (xs ys : List A) → Occurs a xs → Occurs a (xs ++ ys)
  Occurs-left a [] ys o = elim o [ ]
  Occurs-left a (x ∷ xs) ys (inl e) = inl e
  Occurs-left a (x ∷ xs) ys (inr o) = inr (Occurs-left a xs ys o)

  pub Occurs-right : (a : A) (xs ys : List A) → Occurs a ys → Occurs a (xs ++ ys)
  Occurs-right a [] ys o = o
  Occurs-right a (x ∷ xs) ys o = inr (Occurs-right a xs ys o)

  pub Occurs-keep :
      (test : A → Bool) (a : A) (xs : List A)
      → test a ≡ true
      → Occurs a xs
      → Occurs a (keep test xs)
  Occurs-keep test a [] t o = elim o [ ]
  Occurs-keep test a (x ∷ xs) t (inl e) =
      let here : test x ≡ true = subst (λ y. test y ≡ true) (sym e) t in rw here (inl e)
  Occurs-keep test a (x ∷ xs) t (inr o) = elim (Bool-cases (test x)) [
    | inl e ↦ rw e (inr (Occurs-keep test a xs t o))
    | inr e ↦ rw e (Occurs-keep test a xs t o)
  ]

module _ {A B : Type 0} where
  pub Occurs-map : (f : A → B) (a : A) (xs : List A) → Occurs a xs → Occurs (f a) (map f xs)
  Occurs-map f a [] o = elim o [ ]
  Occurs-map f a (x ∷ xs) (inl e) = inl (ap f e)
  Occurs-map f a (x ∷ xs) (inr o) = inr (Occurs-map f a xs o)

  pub Occurs-flat_map :
      (f : A → List B) (a : A) (b : B) (xs : List A)
      → Occurs b (f a)
      → Occurs a xs
      → Occurs b (flat_map f xs)
  Occurs-flat_map f a b [] h o = elim o [ ]
  Occurs-flat_map f a b (x ∷ xs) h (inl e) =
      Occurs-left b (f x) (flat_map f xs) (subst (λ y. Occurs b (f y)) (sym e) h)
  Occurs-flat_map f a b (x ∷ xs) h (inr o) =
      Occurs-right b (f x) (flat_map f xs) (Occurs-flat_map f a b xs h o)

  pub map-All :
      (P : B → Type 0) (f : A → B) (xs : List A) → All (λ x. P (f x)) xs → All P (map f xs)
  map-All P f [] h = tt
  map-All P f (x ∷ xs) h = (h.0, map-All P f xs h.1)

  pub flat_map-All :
      (P : B → Type 0) (f : A → List B) (xs : List A)
      → All (λ x. All P (f x)) xs
      → All P (flat_map f xs)
  flat_map-All P f [] h = tt
  flat_map-All P f (x ∷ xs) h = All-append P (f x) (flat_map f xs) h.0 (flat_map-All P f xs h.1)
