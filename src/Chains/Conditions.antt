-- ===== src/Chains/Conditions.antt =====
-- backend/app/chains/conditions.py: whether a chain goes on to its next step, and the tags that a
-- nuclei step is given. `lower` is `str.lower`.
pub mod Tags
use cyberlab_kali.Base.{
  ℕ, suc, ◌==◌, ltb, leb, if◌then◌else◌, Bool, true, false, not, ◌&&◌, ◌||◌, Option, none, some,
  List, [], ◌∷◌, ◌++◌, Text, codes, text_eq, elem, any, keep, take, map, Dict, lookup, keys,
  or_else, sorted_set,
}
use cyberlab_kali.Models.Result.{Port, Host, WebResult, NucleiFinding, ParsedResult}
use cyberlab_kali.Models.Chain.{
  ChainConditionType, always, port_open, technology_detected, min_severity, ConditionParams,
}

-- `_SEVERITY_RANK`
abbrev severity_rank : Dict ℕ
severity_rank =
    (codes "info", 0)
    ∷ (codes "low", 1)
    ∷ (codes "medium", 2)
    ∷ (codes "high", 3)
    ∷ (codes "critical", 4)
    ∷ []

abbrev pub is_empty {ℓ} : {A : Type ℓ} → List A → Bool
is_empty [] = true
is_empty (_ ∷ _) = false

-- The names of every plugin of every result, in order: what `names.update` adds up.
plugin_names : List WebResult → List Text
plugin_names [] = []
plugin_names (r ∷ rs) = keys r.plugins ++ plugin_names rs

-- backend/app/assets/activity.py
unfoldable pub technologies_from_whatweb : ParsedResult → List Text
unfolding plugin_names
technologies_from_whatweb result = sorted_set (plugin_names result.web_results)

-- `port.get("port") in wanted_ports`
abbrev is_wanted : List ℕ → Option ℕ → Bool
is_wanted wanted none = false
is_wanted wanted (some p) = any (λ q. q == p) wanted

abbrev is_open_wanted : List ℕ → Port → Bool
is_open_wanted wanted port = text_eq port.state (codes "open") && is_wanted wanted port.port

-- `_port_open`
abbrev is_port_open : ParsedResult → ConditionParams → Bool
is_port_open result params =
    if is_empty params.ports
    then false
    else any (λ host. any (is_open_wanted params.ports) host.ports) result.hosts

-- `_technology_detected`
abbrev is_technology_detected : ParsedResult → Bool
is_technology_detected result = not (is_empty (technologies_from_whatweb result))

abbrev reaches : ℕ → Option ℕ → Bool
reaches threshold none = false
reaches threshold (some rank) = leb threshold rank

-- `params.get("min_severity", "")`
abbrev text_or_empty : Option Text → Text
text_or_empty none = []
text_or_empty (some s) = s

module _ (lower : Text → Text) where
  abbrev rank_of : Text → Option ℕ
  rank_of severity = lookup (lower severity) severity_rank

  -- `_min_severity_reached`
  abbrev is_min_severity_reached : ParsedResult → ConditionParams → Bool
  is_min_severity_reached result params = elim (rank_of (text_or_empty params.severity)) [
    | none ↦ false
    | some threshold ↦ any (λ finding. reaches threshold (rank_of finding.severity)) result.findings
  ]

  unfoldable pub evaluate_condition :
      ChainConditionType → ConditionParams → Option ParsedResult → Bool
  evaluate_condition always params previous_result = true
  evaluate_condition _ params none = false
  evaluate_condition port_open params (some result) = is_port_open result params
  evaluate_condition technology_detected params (some result) = is_technology_detected result
  evaluate_condition min_severity params (some result) = is_min_severity_reached result params

-- What `_NUCLEI_TAG_CHAR_RE` leaves in place: [a-z0-9\-]
abbrev pub is_tag_char : ℕ → Bool
is_tag_char c = leb b'a' c && leb c b'z' || leb b'0' c && leb c b'9' || c == b'-'

-- The loop over the names: what is left of each one, unless nothing is.
clean_names : (lower : Text → Text) → List Text → List Text
clean_names lower [] = []
clean_names lower (name ∷ names) =
    let rest = clean_names lower names in
    let sanitized = keep is_tag_char (lower name) in
    if is_empty sanitized then rest else sanitized ∷ rest

-- `dict.fromkeys(names)`: each name where it first occurs.
first_occurrences : (seen : List Text) → List Text → List Text
first_occurrences seen [] = []
first_occurrences seen (x ∷ xs) =
    let rest = first_occurrences seen xs in
    let after = first_occurrences (x ∷ seen) xs in if elem x seen then rest else x ∷ after

-- `",".join(names)`
join_tags : List Text → Text
join_tags [] = []
join_tags (x ∷ []) = x
join_tags (x ∷ y ∷ ys) = x ++ b',' ∷ join_tags (y ∷ ys)

unfoldable pub technology_tags_for_nuclei : (lower : Text → Text) → ParsedResult → Option Text
unfolding clean_names first_occurrences join_tags technologies_from_whatweb
technology_tags_for_nuclei lower previous_result =
    let cleaned = clean_names lower (technologies_from_whatweb previous_result) in
    if is_empty cleaned then none else some (take 128 (join_tags (first_occurrences [] cleaned)))
