-- ===== src/Targets/Inference.antt =====
-- What `infer_default_authorization` can answer, and on which strings.
use cyberlab_kali.Base.{
  ℕ, zero, suc, ◌≡◌, ◌≢◌, refl, Text, codes, starts_with, elem, Bool, true, false, Option, none,
  some, List, [], ◌∷◌, ◌++◌, arith, ◌⊎◌, inl, inr, Bool-cases, text_eq_iff, ◌∙◌, subst, all, not,
  ◌==◌, all-append,
}
use mathlib.Core.List.{Memᴰ}
use cyberlab_kali.Targets.{
  local, authorized, split, first, last, local_hosts, stripped, infer_default_authorization,
  infer_from, candidates, split_from,
}

split_from-cons : (sep : Text) (skip : ℕ) (segment s : Text) → split_from sep skip segment s ≢ []
unfolding split_from
split_from-cons sep skip segment [] = λ e. cc
split_from-cons sep (suc skip) segment (c ∷ s) = split_from-cons sep skip segment s
split_from-cons sep zero segment (c ∷ s) = elim (Bool-cases (starts_with (c ∷ s) sep)) [
  | inl e ↦ rw (e, split_from) (λ h. cc)
  | inr e ↦ rw (e, split_from) (split_from-cons sep zero (segment ++ c ∷ []) s)
]

last-cons : (x : Text) (xs : List Text) → xs ≢ [] → last (x ∷ xs) ≡ last xs
last-cons x [] h = absurd (h refl)
last-cons x (y ∷ xs) h = refl

abbrev scheme_mark : Text
scheme_mark = codes "://"

abbrev pub marked : Text → Text
marked host = b':' ∷ b'/' ∷ b'/' ∷ host

-- While a separator is passed over, what is passed over are its slashes.
abbrev IsSkipping : ℕ → Text → Type 0
IsSkipping zero s = Unit {0}
IsSkipping (suc k) s = (r : Text) × (s ≡ b'/' ∷ r) × IsSkipping k r

starts_with-IsSkipping :
    (c : ℕ) (s : Text) → starts_with (c ∷ s) scheme_mark ≡ true → IsSkipping 2 s
unfolding starts_with
starts_with-IsSkipping c [] h = absurd (ground arith)
starts_with-IsSkipping c (a ∷ []) h = absurd (ground arith)
starts_with-IsSkipping c (a ∷ b ∷ r) h = (b ∷ r, ground arith, (r, ground arith, tt))

last-split_mark :
    (host : Text) (skip : ℕ) (segment p : Text)
    → IsSkipping skip (p ++ marked host)
    → last (split_from scheme_mark skip segment (p ++ marked host))
      ≡ last (split_from scheme_mark zero [] host)
unfolding split_from starts_with
last-split_mark host zero segment [] h =
    last-cons segment _ (split_from-cons scheme_mark zero [] host)
last-split_mark host (suc k) segment [] h = ground arith
last-split_mark host (suc k) segment (c ∷ p) (r, e, h) =
    last-split_mark host k segment p
      (let same : r ≡ p ++ marked host = cc in subst (IsSkipping k) same h)
last-split_mark host zero segment (c ∷ p) h =
    elim (Bool-cases (starts_with (c ∷ p ++ marked host) scheme_mark)) [
      | inl e ↦
          rw (e, split_from)
            (last-cons segment _ (split_from-cons scheme_mark 2 [] (p ++ marked host))
              ∙ last-split_mark host 2 [] p (starts_with-IsSkipping c (p ++ marked host) e))
      | inr e ↦ rw (e, split_from) (last-split_mark host zero (segment ++ c ∷ []) p tt)
    ]

-- Whatever stands before it, a `://` hides all of it: only the text behind the last one counts.
pub stripped-mark : (p host : Text) → stripped (p ++ marked host) ≡ stripped host
unfolding stripped
stripped-mark p host = rw (last-split_mark host zero [] p tt)

-- An argument that is missing, or a text in which `://` and more text follow `p`.
abbrev pub prefixed : Text → Option Text → Option Text
prefixed p none = none
prefixed p (some host) = some (p ++ marked host)

abbrev no_colon : Text → Bool
no_colon s = all (λ c. not (c == b':')) s

starts_with-colon :
    (c : ℕ) (s : Text) → starts_with (c ∷ s) (codes ":") ≡ false → (c == b':') ≡ false
unfolding starts_with
starts_with-colon c s h = ground arith

no_colon-split :
    (segment s : Text)
    → no_colon segment ≡ true
    → no_colon (first (split_from (codes ":") zero segment s)) ≡ true
unfolding split_from
no_colon-split segment [] h = h
no_colon-split segment (c ∷ s) h = elim (Bool-cases (starts_with (c ∷ s) (codes ":"))) [
  | inl e ↦ rw (e, split_from) h
  | inr e ↦
      rw (e, split_from)
        (no_colon-split (segment ++ c ∷ []) s (
          all-append (λ x. not (x == b':')) segment (c ∷ [])
          ∙ ground (arith, starts_with-colon c s)))
]

no_colon-stripped : (s : Text) → no_colon (stripped s) ≡ true
unfolding stripped
no_colon-stripped s =
    no_colon-split [] (first (split (codes "/") (last (split (codes "://") s)))) refl

-- The hosts that are taken for local: of `_LOCAL_HOSTS`, all but the IPv6 address.
abbrev pub IsLocalHost : Text → Type 0
IsLocalHost s = (s ≡ codes "localhost") ⊎ (s ≡ codes "127.0.0.1")

elem-local_hosts : (s : Text) → no_colon s ≡ true → elem s local_hosts ≡ true → IsLocalHost s
unfolding elem
elem-local_hosts s c h = ground (
  arith,
  text_eq_iff s (codes "localhost"),
  text_eq_iff s (codes "127.0.0.1"),
  text_eq_iff s (codes "::1"),
)

infer_from-local :
    (cs : List Text) → infer_from cs ≡ local → (c : Text) × Memᴰ c cs × IsLocalHost (stripped c)
unfolding infer_from
infer_from-local [] h = absurd (ground arith)
infer_from-local (c ∷ cs) h = elim (Bool-cases (elem (stripped c) local_hosts)) [
  | inl e ↦ (c, Memᴰ.head refl, elem-local_hosts (stripped c) (no_colon-stripped c) e)
  | inr e ↦ let (d, m, host) = infer_from-local cs (ground arith) in (d, Memᴰ.tail m, host)
]

infer_from-ne-authorized : (cs : List Text) → infer_from cs ≢ authorized
unfolding infer_from
infer_from-ne-authorized [] = λ e. cc
infer_from-ne-authorized (c ∷ cs) = ground (arith, infer_from-ne-authorized cs)

-- When the default is LOCAL, one of the strings given has `localhost` or `127.0.0.1` for its host
-- part: the entry `::1` of the table of local hosts never matches.
pub infer-local :
    (hostname ip_address url : Option Text)
    → infer_default_authorization hostname ip_address url ≡ local
    → (c : Text) × Memᴰ c (candidates (hostname ∷ ip_address ∷ url ∷ [])) × IsLocalHost (stripped c)
unfolding infer_default_authorization
infer-local hostname ip_address url h =
    infer_from-local (candidates (hostname ∷ ip_address ∷ url ∷ [])) h

-- The default is never AUTHORIZED: only a human sets that status.
pub infer-ne-authorized :
    (hostname ip_address url : Option Text)
    → infer_default_authorization hostname ip_address url ≢ authorized
unfolding infer_default_authorization
infer-ne-authorized hostname ip_address url =
    infer_from-ne-authorized (candidates (hostname ∷ ip_address ∷ url ∷ []))
