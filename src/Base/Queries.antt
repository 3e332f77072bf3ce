-- ===== src/Base/Queries.antt =====
-- `select(...)`: the rows of a table whose keys were given out by a counter, and `order_by`.
use Prim.Native.Nat.{ℕ, zero, suc, ◌≤◌, ◌<◌}
use mathlib.Core.Path.{◌≡◌, refl, subst, ◌∙◌}
use mathlib.Core.List.{List, [], ◌∷◌, ◌++◌}
use mathlib.Core.Bool.{Bool, true, ◌&&◌}
use mathlib.Core.Option.{Option, none, some}
use native.Mathlib.Omega.{arith}
use cyberlab_kali.Base.Tests.{if◌then◌else◌, leb, ◌==◌, Bool-cases, Option-cases}
use cyberlab_kali.Base.Tables.{Table}
use cyberlab_kali.Base.Lists.{All, All-append, keep, take, find, any, any-append}
use mathlib.Core.Logic.{inl, inr}

module _ {ℓ} {A : Type ℓ} where
  -- The row under the last key, if there is one, after the others.
  unfoldable pub add_row : Option A → List A → List A
  add_row none rows = rows
  add_row (some row) rows = rows ++ row ∷ []

  -- The rows under the keys below `bound`, in the order of their keys.
  unfoldable pub scan : Table A → ℕ → List A
  unfolding add_row
  scan table zero = []
  scan table (suc k) = add_row (table k) (scan table k)

  scan_row :
      (P : A → Type 0) (row : Option A) (rows : List A)
      → ((a : A) → row ≡ some a → P a)
      → All P rows
      → All P (add_row row rows)
  unfolding add_row
  scan_row P none rows h all = all
  scan_row P (some a) rows h all = All-append P rows (a ∷ []) all (h a refl, tt)

  -- What holds of every stored row holds of each row that a query returns.
  pub scan-All :
      (P : A → Type 0) (table : Table A) (bound : ℕ)
      → ((k : ℕ) (row : A) → table k ≡ some row → P row)
      → All P (scan table bound)
  unfolding scan
  scan-All P table zero h = tt
  scan-All P table (suc k) h = scan_row P (table k) (scan table k) (h k) (scan-All P table k h)

  -- `order_by(key.desc())`, where equal keys stay in their order.
  unfoldable pub insert_desc : (A → ℕ) → A → List A → List A
  insert_desc key x [] = x ∷ []
  insert_desc key x (y ∷ ys) =
      let rest = insert_desc key x ys in if leb (key y) (key x) then x ∷ y ∷ ys else y ∷ rest

  unfoldable pub sort_desc : (A → ℕ) → List A → List A
  unfolding insert_desc
  sort_desc key [] = []
  sort_desc key (x ∷ xs) = insert_desc key x (sort_desc key xs)

  insert_desc-All :
      (P : A → Type 0) (key : A → ℕ) (x : A) (xs : List A)
      → P x
      → All P xs
      → All P (insert_desc key x xs)
  unfolding insert_desc
  insert_desc-All P key x [] p all = (p, tt)
  insert_desc-All P key x (y ∷ ys) p all = elim (Bool-cases (leb (key y) (key x))) [
    | inl e ↦ rw e (p, all)
    | inr e ↦ rw e (all.0, insert_desc-All P key x ys p all.1)
  ]

  pub sort_desc-All :
      (P : A → Type 0) (key : A → ℕ) (xs : List A) → All P xs → All P (sort_desc key xs)
  unfolding sort_desc
  sort_desc-All P key [] all = tt
  sort_desc-All P key (x ∷ xs) all =
      insert_desc-All P key x (sort_desc key xs) all.0 (sort_desc-All P key xs all.1)

  pub keep-All : (test : A → Bool) (xs : List A) → All (λ x. test x ≡ true) (keep test xs)
  keep-All test [] = tt
  keep-All test (x ∷ xs) = elim (Bool-cases (test x)) [
    | inl e ↦ rw e (e, keep-All test xs)
    | inr e ↦ rw e (keep-All test xs)
  ]

  pub All-map : (P Q : A → Type 0) (xs : List A) → ((x : A) → P x → Q x) → All P xs → All Q xs
  All-map P Q [] f all = tt
  All-map P Q (x ∷ xs) f all = (f x all.0, All-map P Q xs f all.1)

  pub keep-All_both :
      (P : A → Type 0) (test : A → Bool) (xs : List A)
      → All P xs
      → All (λ x. P x × (test x ≡ true)) (keep test xs)
  keep-All_both P test [] all = tt
  keep-All_both P test (x ∷ xs) all = elim (Bool-cases (test x)) [
    | inl e ↦ rw e ((all.0, e), keep-All_both P test xs all.1)
    | inr e ↦ rw e (keep-All_both P test xs all.1)
  ]

  pub keep-back :
      (P : A → Type 0) (test : A → Bool) (xs : List A)
      → All P (keep test xs)
      → All (λ x. test x ≡ true → P x) xs
  keep-back P test [] = λ h. tt
  keep-back P test (x ∷ xs) = elim (Bool-cases (test x)) [
    | inl e ↦ rw e (λ h. (λ t. h.0, keep-back P test xs h.1))
    | inr e ↦ rw e (λ h. (λ t. absurd (ground arith), keep-back P test xs h))
  ]

  pub take-All : (P : A → Type 0) (n : ℕ) (xs : List A) → All P xs → All P (take n xs)
  take-All P zero xs all = tt
  take-All P (suc n) [] all = tt
  take-All P (suc n) (x ∷ xs) all = (all.0, take-All P n xs all.1)

-- The first row of a descending list that passes a test, within a limit, is the greatest that does.
module _ {ℓ} {A : Type ℓ} (key : A → ℕ) where
  abbrev pub IsDescending : List A → Type 0
  IsDescending [] = Unit
  IsDescending (x ∷ xs) = All (λ y. key y ≤ key x) xs × IsDescending xs

  below : (a b : ℕ) (xs : List A) → a ≤ b → All (λ y. key y ≤ a) xs → All (λ y. key y ≤ b) xs
  below a b [] h all = tt
  below a b (x ∷ xs) h all = (omega (arith, all.0), below a b xs h all.1)

  insert_desc-IsDescending :
      (x : A) (xs : List A) → IsDescending xs → IsDescending (insert_desc key x xs)
  unfolding insert_desc
  insert_desc-IsDescending x [] h = (tt, tt)
  insert_desc-IsDescending x (y ∷ ys) h = elim (Bool-cases (leb (key y) (key x))) [
    | inl e ↦ rw e ((ground arith, below (key y) (key x) ys (ground arith) h.0), h)
    | inr e ↦ rw e (
      insert_desc-All (λ z. key z ≤ key y) key x ys (ground arith) h.0,
      insert_desc-IsDescending x ys h.1,
    )
  ]

  pub sort_desc-IsDescending : (xs : List A) → IsDescending (sort_desc key xs)
  unfolding sort_desc
  sort_desc-IsDescending [] = tt
  sort_desc-IsDescending (x ∷ xs) =
      insert_desc-IsDescending x (sort_desc key xs) (sort_desc-IsDescending xs)

  insert_desc-back :
      (P : A → Type 0) (x : A) (xs : List A) → All P (insert_desc key x xs) → P x × All P xs
  unfolding insert_desc
  insert_desc-back P x [] = λ h. (h.0, tt)
  insert_desc-back P x (y ∷ ys) = elim (Bool-cases (leb (key y) (key x))) [
    | inl e ↦ rw e (λ h. h)
    | inr e ↦ rw e (λ h. let later = insert_desc-back P x ys h.1 in (later.0, (h.0, later.1)))
  ]

  pub sort_desc-back : (P : A → Type 0) (xs : List A) → All P (sort_desc key xs) → All P xs
  unfolding sort_desc
  sort_desc-back P [] h = tt
  sort_desc-back P (x ∷ xs) h =
      let parts = insert_desc-back P x (sort_desc key xs) h in
      (parts.0, sort_desc-back P xs parts.1)

  under :
      (p : A → Bool) (b : ℕ) (xs : List A)
      → All (λ y. key y ≤ b) xs
      → All (λ y. p y ≡ true → key y ≤ b) xs
  under p b [] all = tt
  under p b (x ∷ xs) all = (λ h. all.0, under p b xs all.1)

  pub find-greatest :
      (p : A → Bool) (n : ℕ) (xs : List A) (c : A)
      → IsDescending xs
      → find p (take n xs) ≡ some c
      → All (λ y. p y ≡ true → key y ≤ key c) xs
  find-greatest p n [] c h = λ found. tt
  find-greatest p zero (x ∷ xs) c h = λ found. absurd (ground arith)
  find-greatest p (suc n) (x ∷ xs) c h = elim (Bool-cases (p x)) [
    | inl e ↦ λ found.
        let same : x ≡ c = ground arith in
        subst (λ z. All (λ y. p y ≡ true → key y ≤ key z) (x ∷ xs)) same
          (λ t. omega arith, under p (key x) xs h.0)
    | inr e ↦ λ found. (λ t. absurd (ground arith), find-greatest p n xs c h.1 (ground arith))
  ]

module _ {ℓ} {A : Type ℓ} where
  pub scan-any :
      (p : A → Bool) (table : Table A) (bound k : ℕ) (row : A)
      → table k ≡ some row
      → k < bound
      → p row ≡ true
      → any p (scan table bound) ≡ true
  unfolding scan add_row
  scan-any p table zero k row e h t = absurd (omega arith)
  scan-any p table (suc b) k row e h t = elim (Bool-cases (k == b)) [
    | inl s ↦
        let same : k ≡ b = ground arith in
        let here : table b ≡ some row = subst (λ x. table x ≡ some row) same e in
        rw here (any-append p (scan table b) (row ∷ []) ∙ ground arith)
    | inr s ↦
        let before = scan-any p table b k row e (ground arith) t in
        elim (Option-cases (table b)) [
          | inl n ↦ rw n before
          | inr (last, n) ↦ rw n (any-append p (scan table b) (last ∷ []) ∙ ground arith)
        ]
  ]

  pub any-keep :
      (p test : A → Bool) (xs : List A)
      → any (λ x. test x && p x) xs ≡ true
      → any p (keep test xs) ≡ true
  any-keep p test [] h = absurd (ground arith)
  any-keep p test (x ∷ xs) h = ground (arith, any-keep p test xs)
