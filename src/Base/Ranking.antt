-- ===== src/Base/Ranking.antt =====
-- `sorted(rows, key=...)` by a number, where equal keys stay in their order.
use Prim.Native.Nat.{ℕ, zero, suc, ◌≤◌}
use mathlib.Core.Logic.{inl, inr}
use mathlib.Core.List.{List, [], ◌∷◌}
use native.Mathlib.Omega.{arith}
use cyberlab_kali.Base.Tests.{if◌then◌else◌, leb, Bool-cases}
use cyberlab_kali.Base.Lists.{All, take}
use cyberlab_kali.Base.Queries.{take-All}

module _ {ℓ} {A : Type ℓ} (key : A → ℕ) where
  unfoldable pub insert_asc : A → List A → List A
  insert_asc x [] = x ∷ []
  insert_asc x (y ∷ ys) =
      let rest = insert_asc x ys in if leb (key x) (key y) then x ∷ y ∷ ys else y ∷ rest

  unfoldable pub sort_asc : List A → List A
  unfolding insert_asc
  sort_asc [] = []
  sort_asc (x ∷ xs) = insert_asc x (sort_asc xs)

  abbrev pub IsAscending : List A → Type 0
  IsAscending [] = Unit
  IsAscending (x ∷ xs) = All (λ y. key x ≤ key y) xs × IsAscending xs

  insert_asc-All : (P : A → Type 0) (x : A) (xs : List A) → P x → All P xs → All P (insert_asc x xs)
  unfolding insert_asc
  insert_asc-All P x [] p all = (p, tt)
  insert_asc-All P x (y ∷ ys) p all = elim (Bool-cases (leb (key x) (key y))) [
    | inl e ↦ rw e (p, all)
    | inr e ↦ rw e (all.0, insert_asc-All P x ys p all.1)
  ]

  pub sort_asc-All : (P : A → Type 0) (xs : List A) → All P xs → All P (sort_asc xs)
  unfolding sort_asc
  sort_asc-All P [] all = tt
  sort_asc-All P (x ∷ xs) all = insert_asc-All P x (sort_asc xs) all.0 (sort_asc-All P xs all.1)

  above : (a b : ℕ) (xs : List A) → a ≤ b → All (λ y. b ≤ key y) xs → All (λ y. a ≤ key y) xs
  above a b [] h all = tt
  above a b (x ∷ xs) h all = (omega (arith, all.0), above a b xs h all.1)

  insert_asc-IsAscending : (x : A) (xs : List A) → IsAscending xs → IsAscending (insert_asc x xs)
  unfolding insert_asc
  insert_asc-IsAscending x [] h = (tt, tt)
  insert_asc-IsAscending x (y ∷ ys) h = elim (Bool-cases (leb (key x) (key y))) [
    | inl e ↦ rw e ((ground arith, above (key x) (key y) ys (ground arith) h.0), h)
    | inr e ↦ rw e (
      insert_asc-All (λ z. key y ≤ key z) x ys (ground arith) h.0,
      insert_asc-IsAscending x ys h.1,
    )
  ]

  pub sort_asc-IsAscending : (xs : List A) → IsAscending (sort_asc xs)
  unfolding sort_asc
  sort_asc-IsAscending [] = tt
  sort_asc-IsAscending (x ∷ xs) = insert_asc-IsAscending x (sort_asc xs) (sort_asc-IsAscending xs)

  pub take-IsAscending : (n : ℕ) (xs : List A) → IsAscending xs → IsAscending (take n xs)
  take-IsAscending zero xs h = tt
  take-IsAscending (suc n) [] h = tt
  take-IsAscending (suc n) (x ∷ xs) h =
      (take-All (λ y. key x ≤ key y) n xs h.0, take-IsAscending n xs h.1)
