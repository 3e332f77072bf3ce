-- ===== src/Tools/Patterns/Safety.antt =====
-- What the patterns guarantee of the texts that they match.
use cyberlab_kali.Base.{
  ℕ, ◌≡◌, refl, ◌∙◌, Bool, true, false, [], ◌∷◌, ◌++◌, Text, codes, any, all, any-append, arith,
  starts_with, ◌==◌, &&-eq-true,
}
use cyberlab_kali.Tools.Patterns.{
  unsafe_char, unsafe_search, is_alnum, is_digit, is_host_char, drop_newline, before_slash,
  from_slash, starts_alnum, host_match, suffix_match, target_pattern,
}

alnum-safe : (c : ℕ) → is_alnum c ≡ true → unsafe_char c ≡ false
unfolding is_alnum unsafe_char
alnum-safe c h = ground arith

host_char-safe : (c : ℕ) → is_host_char c ≡ true → unsafe_char c ≡ false
unfolding is_host_char unsafe_char
host_char-safe c h = ground (arith, alnum-safe c)

digit-safe : (c : ℕ) → is_digit c ≡ true → unsafe_char c ≡ false
unfolding is_digit unsafe_char
digit-safe c h = ground arith

-- Where every character is of a class without unsafe ones, none is unsafe.
any-false_of_all :
    (p : ℕ → Bool)
    → ((c : ℕ) → p c ≡ true → unsafe_char c ≡ false)
    → (s : Text) → all p s ≡ true
    → any unsafe_char s ≡ false
any-false_of_all p safe [] h = refl
any-false_of_all p safe (c ∷ s) h =
    let (now, later) = &&-eq-true (p c) (all p s) h in
    ground (arith, safe c now, any-false_of_all p safe s later)

before_append_from : (s : Text) → before_slash s ++ from_slash s ≡ s
unfolding before_slash from_slash
before_append_from [] = refl
before_append_from (c ∷ s) = ground (arith, before_append_from s)

suffix_match-safe : (s : Text) → suffix_match s ≡ true → any unsafe_char s ≡ false
unfolding suffix_match unsafe_char
suffix_match-safe [] h = refl
suffix_match-safe (c ∷ s) h = ground (arith, any-false_of_all is_digit digit-safe s)

host_match-safe : (s : Text) → host_match s ≡ true → any unsafe_char s ≡ false
unfolding host_match
host_match-safe s h = any-false_of_all is_host_char host_char-safe s (ground arith)

-- A matched target holds no unsafe character, but for a newline at its end.
pub target_pattern-safe :
    (s : Text) → target_pattern s ≡ true → unsafe_search (drop_newline s) ≡ false
unfolding target_pattern unsafe_search
target_pattern-safe s h =
    let line = drop_newline s in
    let (host, suffix) =
      &&-eq-true (host_match (before_slash line)) (suffix_match (from_slash line)) h in
    rw (← before_append_from line) (
      any-append unsafe_char (before_slash line) (from_slash line)
      ∙ ground (
        arith,
        host_match-safe (before_slash line) host,
        suffix_match-safe (from_slash line) suffix,
      ))

alnum-ne-dash : (c : ℕ) → is_alnum c ≡ true → (c == b'-') ≡ false
unfolding is_alnum
alnum-ne-dash c h = ground arith

-- A matched target cannot be read as a flag.
pub target_pattern-no_dash :
    (s : Text) → target_pattern s ≡ true → starts_with s (codes "-") ≡ false
unfolding target_pattern drop_newline before_slash host_match starts_alnum starts_with
target_pattern-no_dash [] h = refl
target_pattern-no_dash (c ∷ []) h = ground (arith, alnum-ne-dash c)
target_pattern-no_dash (c ∷ d ∷ s) h = ground (arith, alnum-ne-dash c)

drop_newline-snoc : (s : Text) → drop_newline (s ++ 10 ∷ []) ≡ s
unfolding drop_newline
drop_newline-snoc [] = refl
drop_newline-snoc (c ∷ []) = refl
drop_newline-snoc (c ∷ d ∷ s) = ground (arith, drop_newline-snoc (d ∷ s))

any-snoc_newline : (s : Text) → any unsafe_char (s ++ 10 ∷ []) ≡ true
unfolding unsafe_char
any-snoc_newline s = any-append unsafe_char s (10 ∷ []) ∙ ground arith

-- A target that matches still matches with a newline behind it, an unsafe character.
pub target_pattern-newline :
    (s : Text)
    → drop_newline s ≡ s
    → target_pattern s ≡ true
    → (target_pattern (s ++ 10 ∷ []) ≡ true) × (unsafe_search (s ++ 10 ∷ []) ≡ true)
unfolding target_pattern unsafe_search
target_pattern-newline s e h = (rw (drop_newline-snoc s) (rw e at h), any-snoc_newline s)
