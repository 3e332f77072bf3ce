-- ===== src/Targets.antt =====
-- backend/app/targets/authorization.py, with the enumeration and the part of the Asset row that it
-- reads (backend/app/models/asset.py).
pub mod Inference
use cyberlab_kali.Base.{
  ℕ, zero, suc, ◌-◌, Text, codes, text_eq, starts_with, elem, length, Bool, true, false, ◌&&◌, ◌||◌,
  Option, none, some, List, [], ◌∷◌, ◌++◌, if◌then◌else◌,
}

pub data AuthorizationStatus : Type 0 where
  lab authorized local unknown : AuthorizationStatus

pub data AssetCriticality : Type 0 where
  low medium high critical : AssetCriticality

-- The columns of an Asset row that authorization, job creation, the risk score and job completion
-- use.
pub record Asset : Type 0 where
  pub id : ℕ
  pub project_id : ℕ
  pub name : Text
  pub hostname : Option Text
  pub ip_address : Option Text
  pub url : Option Text
  pub criticality : AssetCriticality
  pub authorization_status : AuthorizationStatus
  pub first_seen : Option ℕ
  pub last_seen : Option ℕ
  pub technologies : List Text

-- `a or b`, on texts: what is missing or empty is passed over.
abbrev or_text : Option Text → Text → Text
or_text none d = d
or_text (some []) d = d
or_text (some (c ∷ s)) d = c ∷ s

-- `Asset.address`
unfoldable pub address : Asset → Text
address a = or_text a.url (or_text a.hostname (or_text a.ip_address a.name))

-- `s.split(sep)`. `skip` counts the characters of a separator that are still to be passed over, and
-- `segment` is what has been read since the last separator.
split_from : (sep : Text) (skip : ℕ) (segment : Text) → Text → List Text
split_from sep skip segment [] = segment ∷ []
split_from sep (suc skip) segment (c ∷ s) = split_from sep skip segment s
split_from sep zero segment (c ∷ s) = elim (starts_with (c ∷ s) sep) [
  | true ↦ segment ∷ split_from sep (length sep - 1) [] s
  | false ↦ split_from sep zero (segment ++ c ∷ []) s
]

unfoldable pub split : (sep : Text) → Text → List Text
unfolding split_from
split sep s = split_from sep zero [] s

-- `xs[0]` and `xs[-1]`, on the result of a `split`, which is never empty.
abbrev pub first : List Text → Text
first [] = []
first (x ∷ xs) = x

abbrev pub last : List Text → Text
last [] = []
last (x ∷ []) = x
last (x ∷ y ∷ xs) = last (y ∷ xs)

-- `candidate.split("://")[-1].split("/")[0].split(":")[0]`
unfoldable pub stripped : Text → Text
unfolding split
stripped candidate =
    first (split (codes ":") (first (split (codes "/") (last (split (codes "://") candidate)))))

-- `_LOCAL_HOSTS`
abbrev pub local_hosts : List Text
local_hosts = codes "localhost" ∷ codes "127.0.0.1" ∷ codes "::1" ∷ []

-- `re.compile(r"^cyberlab-(lab-|kali$)").match`; `$` also matches before a newline at the end.
unfoldable pub lab_hostname : Text → Bool
lab_hostname s =
    starts_with s (codes "cyberlab-lab-")
    || text_eq s (codes "cyberlab-kali")
    || text_eq s (codes "cyberlab-kali" ++ 10 ∷ [])

-- `[c for c in (...) if c]`: what is missing or empty is left out.
unfoldable pub candidates : List (Option Text) → List Text
candidates [] = []
candidates (none ∷ rest) = candidates rest
candidates (some [] ∷ rest) = candidates rest
candidates (some (c ∷ s) ∷ rest) = (c ∷ s) ∷ candidates rest

-- The `for` loop over the candidates.
infer_from : List Text → AuthorizationStatus
infer_from [] = unknown
infer_from (candidate ∷ rest) =
    if elem (stripped candidate) local_hosts
    then local
    else if lab_hostname (stripped candidate)
    then lab
    else infer_from rest

unfoldable pub infer_default_authorization :
    (hostname ip_address url : Option Text) → AuthorizationStatus
unfolding infer_from candidates
infer_default_authorization hostname ip_address url =
    infer_from (candidates (hostname ∷ ip_address ∷ url ∷ []))

unfoldable pub is_status_executable : AuthorizationStatus → Bool
is_status_executable lab = true
is_status_executable authorized = true
is_status_executable local = true
is_status_executable unknown = false

unfoldable pub is_executable : Asset → Bool
unfolding is_status_executable
is_executable target = is_status_executable target.authorization_status
