-- ===== src/Base/Sorting.antt =====
-- `sorted(set(xs))` on texts: the order of `str`, and an insertion that drops what is there already.
use mathlib.Core.Path.{◌≡◌, refl, sym, ◌∙◌}
use mathlib.Core.List.{List, [], ◌∷◌}
use mathlib.Core.Logic.{inl, inr}
use mathlib.Core.Bool.{Bool, true, false, ◌&&◌, ◌||◌}
use native.Mathlib.Omega.{arith}
use cyberlab_kali.Base.Tests.{◌==◌, ltb, if◌then◌else◌, Bool-cases}
use cyberlab_kali.Base.Strings.{Text, text_eq, text_eq_iff, text_eq_refl, text_eq→eq, elem}

-- `a < b` on `str`
unfoldable pub text_ltb : Text → Text → Bool
text_ltb s [] = false
text_ltb [] (b ∷ t) = true
text_ltb (a ∷ s) (b ∷ t) = ltb a b || (a == b && text_ltb s t)

unfoldable pub insert_sorted : Text → List Text → List Text
insert_sorted x [] = x ∷ []
insert_sorted x (y ∷ ys) =
    let rest = insert_sorted x ys in
    if text_eq x y then y ∷ ys else if text_ltb x y then x ∷ y ∷ ys else y ∷ rest

unfoldable pub sorted_set : List Text → List Text
unfolding insert_sorted
sorted_set [] = []
sorted_set (x ∷ xs) = insert_sorted x (sorted_set xs)

-- Every text is smaller than the next one, so none occurs twice.
unfoldable pub is_increasing : List Text → Bool
is_increasing [] = true
is_increasing (x ∷ []) = true
is_increasing (x ∷ y ∷ ys) = text_ltb x y && is_increasing (y ∷ ys)

text_ltb_total : (s t : Text) → text_eq s t ≡ false → text_ltb s t ≡ false → text_ltb t s ≡ true
unfolding text_ltb text_eq
text_ltb_total [] [] e h = ground arith
text_ltb_total [] (b ∷ t) e h = ground arith
text_ltb_total (a ∷ s) [] e h = refl
text_ltb_total (a ∷ s) (b ∷ t) e h = ground (arith, text_ltb_total s t)

elem-insert_sorted :
    (x y : Text) (ys : List Text) → elem x (insert_sorted y ys) ≡ (text_eq x y || elem x ys)
unfolding insert_sorted elem
elem-insert_sorted x y [] = ground arith
elem-insert_sorted x y (z ∷ zs) = elim (Bool-cases (text_eq y z)) [
  | inl e ↦ let same : y ≡ z = text_eq→eq y z e in ground arith
  | inr e ↦ ground (arith, elem-insert_sorted x y zs)
]

-- Sorting a set keeps its elements.
pub elem-sorted_set : (x : Text) (xs : List Text) → elem x (sorted_set xs) ≡ elem x xs
unfolding sorted_set elem
elem-sorted_set x [] = refl
elem-sorted_set x (y ∷ ys) =
    ground (arith, elem-insert_sorted x y (sorted_set ys), elem-sorted_set x ys)

insert_sorted-increasing :
    (x : Text) (ys : List Text)
    → is_increasing ys ≡ true
    → is_increasing (insert_sorted x ys) ≡ true
unfolding insert_sorted is_increasing
insert_sorted-increasing x [] h = refl
insert_sorted-increasing x (y ∷ []) h = ground (arith, text_ltb_total x y)
insert_sorted-increasing x (y ∷ z ∷ zs) h =
    ground (arith, text_ltb_total x y, text_ltb_total x z, insert_sorted-increasing x (z ∷ zs))

pub sorted_set-increasing : (xs : List Text) → is_increasing (sorted_set xs) ≡ true
unfolding sorted_set is_increasing
sorted_set-increasing [] = refl
sorted_set-increasing (x ∷ xs) =
    insert_sorted-increasing x (sorted_set xs) (sorted_set-increasing xs)

text_ltb_irrefl : (s : Text) → text_ltb s s ≡ false
unfolding text_ltb
text_ltb_irrefl [] = refl
text_ltb_irrefl (a ∷ s) = ground (arith, text_ltb_irrefl s)

text_ltb_trans : (s t u : Text) → text_ltb s t ≡ true → text_ltb t u ≡ true → text_ltb s u ≡ true
unfolding text_ltb
text_ltb_trans s [] u h k = absurd (ground arith)
text_ltb_trans s (b ∷ t) [] h k = absurd (ground arith)
text_ltb_trans [] (b ∷ t) (c ∷ u) h k = refl
text_ltb_trans (a ∷ s) (b ∷ t) (c ∷ u) h k = ground (arith, text_ltb_trans s t u)

tail_increasing :
    (x : Text) (xs : List Text) → is_increasing (x ∷ xs) ≡ true → is_increasing xs ≡ true
unfolding is_increasing
tail_increasing x [] h = refl
tail_increasing x (y ∷ ys) h = ground arith

-- The first text of an increasing list is smaller than the others.
head_smallest :
    (x y : Text) (xs : List Text)
    → is_increasing (x ∷ xs) ≡ true
    → elem y xs ≡ true
    → text_ltb x y ≡ true
unfolding is_increasing elem
head_smallest x y [] h k = absurd (ground arith)
head_smallest x y (z ∷ zs) h k = elim (Bool-cases (text_eq y z)) [
  | inl e ↦ let same : y ≡ z = text_eq→eq y z e in ground arith
  | inr e ↦ text_ltb_trans x z y (ground arith) (head_smallest z y zs (ground arith) (ground arith))
]

head_absent : (x : Text) (xs : List Text) → is_increasing (x ∷ xs) ≡ true → elem x xs ≡ false
head_absent x xs h = elim (Bool-cases (elem x xs)) [
  | inl e ↦ absurd (ground (arith, head_smallest x x xs h e, text_ltb_irrefl x))
  | inr e ↦ e
]

-- Two increasing lists with the same elements begin alike.
heads_agree :
    (x y : Text) (xs ys : List Text)
    → is_increasing (x ∷ xs) ≡ true
    → is_increasing (y ∷ ys) ≡ true
    → ((z : Text) → elem z (x ∷ xs) ≡ elem z (y ∷ ys))
    → text_eq x y ≡ true
unfolding elem
heads_agree x y xs ys h k same = elim (Bool-cases (text_eq x y)) [
  | inl e ↦ e
  | inr e ↦
      let flipped : text_eq y x ≡ false = ground (arith, text_eq_iff x y, text_eq_iff y x) in
      let there : elem x ys ≡ true = ground (arith, same x, text_eq_refl x) in
      let here : elem y xs ≡ true = ground (arith, same y, text_eq_refl y) in
      let down = head_smallest y x ys k there in
      let up = head_smallest x y xs h here in
      absurd (ground (arith, text_ltb_trans x y x up down, text_ltb_irrefl x))
]

-- Two increasing lists with the same elements are the same list.
increasing_unique :
    (xs ys : List Text)
    → is_increasing xs ≡ true
    → is_increasing ys ≡ true
    → ((x : Text) → elem x xs ≡ elem x ys)
    → xs ≡ ys
unfolding elem
increasing_unique [] [] h k same = refl
increasing_unique [] (y ∷ ys) h k same = absurd (ground (arith, same y, text_eq_refl y))
increasing_unique (x ∷ xs) [] h k same = absurd (ground (arith, same x, text_eq_refl x))
increasing_unique (x ∷ xs) (y ∷ ys) h k same = elim (Bool-cases (text_eq x y)) [
  | inl e ↦
      let one : x ≡ y = text_eq→eq x y e in
      let absent = head_absent x xs h in
      let absent' = head_absent y ys k in
      let rest : xs ≡ ys =
        increasing_unique xs ys (tail_increasing x xs h) (tail_increasing y ys k) (λ z.
          elim (Bool-cases (text_eq z x)) [
            | inl f ↦ let z_x : z ≡ x = text_eq→eq z x f in ground (arith, same z)
            | inr f ↦ ground (arith, same z)
          ]) in
      ground arith
  | inr e ↦ absurd (ground (arith, heads_agree x y xs ys h k same))
]

-- The order and the number of the elements do not matter to `sorted(set(...))`.
pub sorted_set-canonical :
    (xs ys : List Text) → ((x : Text) → elem x xs ≡ elem x ys) → sorted_set xs ≡ sorted_set ys
sorted_set-canonical xs ys same =
    increasing_unique (sorted_set xs) (sorted_set ys) (sorted_set-increasing xs)
      (sorted_set-increasing ys) (λ x. elem-sorted_set x xs ∙ same x ∙ sym (elem-sorted_set x ys))
