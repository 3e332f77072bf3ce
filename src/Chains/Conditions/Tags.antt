-- ===== src/Chains/Conditions/Tags.antt =====
-- The tags that are made from the detected technologies have the form that nuclei's definition asks.
use cyberlab_kali.Base.{
  ℕ, suc, ◌≡◌, ◌≤◌, refl, subst, zero, not, ◌==◌, Bool, true, false, ◌&&◌, ◌||◌, some, List, [],
  ◌∷◌, Text, elem, all, keep, take, length, length-take, all-append, arith, Bool-cases, inl, inr,
}
use cyberlab_kali.Models.Result.{ParsedResult}
use cyberlab_kali.Chains.Conditions.{
  is_empty, is_tag_char, clean_names, first_occurrences, join_tags, technologies_from_whatweb,
  technology_tags_for_nuclei,
}

-- [a-z0-9,\-]: a character of the pattern for `tags` in backend/app/tools/definitions/nuclei.yaml.
abbrev pub is_tags_char : ℕ → Bool
is_tags_char c = is_tag_char c || c == b','

-- A name that is made of tag characters, and not empty.
abbrev is_tag : Text → Bool
is_tag s = not (is_empty s) && all is_tag_char s

keep-all : (p : ℕ → Bool) (s : Text) → all p (keep p s) ≡ true
keep-all p [] = refl
keep-all p (c ∷ s) = ground (arith, keep-all p s)

clean_names-all :
    (lower : Text → Text) (names : List Text) → all is_tag (clean_names lower names) ≡ true
unfolding clean_names
clean_names-all lower [] = refl
clean_names-all lower (x ∷ xs) =
    ground (arith, keep-all is_tag_char (lower x), clean_names-all lower xs)

first_occurrences-all :
    (p : Text → Bool) (seen xs : List Text)
    → all p xs ≡ true
    → all p (first_occurrences seen xs) ≡ true
unfolding first_occurrences
first_occurrences-all p seen [] h = refl
first_occurrences-all p seen (x ∷ xs) h =
    ground (arith, first_occurrences-all p seen xs, first_occurrences-all p (x ∷ seen) xs)

all-weaken : (s : Text) → all is_tag_char s ≡ true → all is_tags_char s ≡ true
all-weaken [] h = refl
all-weaken (c ∷ s) h = ground (arith, all-weaken s)

join_tags-all : (xs : List Text) → all is_tag xs ≡ true → all is_tags_char (join_tags xs) ≡ true
unfolding join_tags
join_tags-all [] h = refl
join_tags-all (x ∷ []) h = ground (arith, all-weaken x)
join_tags-all (x ∷ y ∷ ys) h = ground (
  arith,
  all-weaken x,
  all-append is_tags_char x (b',' ∷ join_tags (y ∷ ys)),
  join_tags-all (y ∷ ys),
)

join_tags-nonempty :
    (x : Text) (xs : List Text) → is_empty x ≡ false → is_empty (join_tags (x ∷ xs)) ≡ false
unfolding join_tags
join_tags-nonempty [] xs h = absurd (ground arith)
join_tags-nonempty (c ∷ s) [] h = refl
join_tags-nonempty (c ∷ s) (y ∷ ys) h = refl

take-all : (p : ℕ → Bool) (n : ℕ) (s : Text) → all p s ≡ true → all p (take n s) ≡ true
take-all p zero s h = refl
take-all p (suc n) [] h = refl
take-all p (suc n) (c ∷ s) h = ground (arith, take-all p n s)

take-nonempty : (n : ℕ) (s : Text) → is_empty s ≡ false → is_empty (take (suc n) s) ≡ false
take-nonempty n [] h = absurd (ground arith)
take-nonempty n (c ∷ s) h = refl

first_nonempty :
    (xs : List Text)
    → is_empty xs ≡ false
    → all is_tag xs ≡ true
    → is_empty (join_tags (first_occurrences [] xs)) ≡ false
unfolding first_occurrences elem
first_nonempty [] h t = absurd (ground arith)
first_nonempty (x ∷ xs) h t = join_tags-nonempty x (first_occurrences (x ∷ []) xs) (ground arith)

-- The tags that are derived from a whatweb result have between 1 and 128 characters, each a small
-- letter, a digit, a comma or a dash, as the definition of nuclei asks.
pub technology_tags-IsTags :
    (lower : Text → Text) (result : ParsedResult) (tags : Text)
    → technology_tags_for_nuclei lower result ≡ some tags
    → (is_empty tags ≡ false) × (length tags ≤ 128) × (all is_tags_char tags ≡ true)
unfolding technology_tags_for_nuclei
technology_tags-IsTags lower result tags h =
    let cleaned = clean_names lower (technologies_from_whatweb result) in
    let clean = clean_names-all lower (technologies_from_whatweb result) in
    let joined = join_tags (first_occurrences [] cleaned) in
    elim (Bool-cases (is_empty cleaned)) [
      | inl e ↦ absurd (ground arith)
      | inr e ↦
          let same : take 128 joined ≡ tags = ground arith in
          subst (λ t. (is_empty t ≡ false) × (length t ≤ 128) × (all is_tags_char t ≡ true)) same
            (
              take-nonempty 127 joined (first_nonempty cleaned e clean),
              length-take 128 joined,
              take-all is_tags_char 128 joined (
                  join_tags-all (first_occurrences [] cleaned)
                    (first_occurrences-all is_tag [] cleaned clean)),
            )
    ]
