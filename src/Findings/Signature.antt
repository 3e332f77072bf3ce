-- ===== src/Findings/Signature.antt =====
-- backend/app/findings/signature.py: what identifies a finding.
pub mod Identity
use cyberlab_kali.Base.{
  ℕ, if◌then◌else◌, Bool, true, false, ◌&&◌, ◌||◌, Option, none, some, List, [], ◌∷◌, ◌++◌, map,
  Text, codes, text_eq, starts_with, sorted_set,
}
use cyberlab_kali.Tools.Schema.{pos}
use cyberlab_kali.Tools.Registry.{str}
use cyberlab_kali.Models.Finding.{Evidence, empty, filled}

-- `urllib.parse.urlparse(...)`: the scheme, and the property `port`, where `none` is the
-- `ValueError` that it raises on a port that is no number up to 65535.
pub record Address : Type 0 where
  pub scheme : Text
  pub port : Option (Option ℕ)

-- The code outside the repository: Unicode's tables behind `lower`, `upper` and `\s`, `urlparse`,
-- where `none` is a `ValueError`, hashlib's SHA-256, and the text of a UUID.
pub record TextTools : Type 0 where
  pub lower : Text → Text
  pub upper : Text → Text
  pub is_space : ℕ → Bool
  pub urlparse : Text → Option Address
  pub sha256 : Text → Text
  pub uuid_str : ℕ → Text

-- The text without the white space before it.
strip_left : (ℕ → Bool) → Text → Text
strip_left is_space [] = []
strip_left is_space (c ∷ s) = let rest = strip_left is_space s in if is_space c then rest else c ∷ s

abbrev is_nil : Text → Bool
is_nil [] = true
is_nil (_ ∷ _) = false

-- The text without the white space behind it.
strip_right : (ℕ → Bool) → Text → Text
strip_right is_space [] = []
strip_right is_space (c ∷ s) =
    let rest = strip_right is_space s in if is_nil rest && is_space c then [] else c ∷ rest

-- `_WHITESPACE_RUN.sub(" ", s)`; `inside` tells that the run before was written already.
collapse : (ℕ → Bool) → (inside : Bool) → Text → Text
collapse is_space inside [] = []
collapse is_space inside (c ∷ s) =
    let space = collapse is_space true s in
    let other = collapse is_space false s in
    if is_space c then if inside then space else b' ' ∷ space else c ∷ other

unfoldable pub normalize_title : TextTools → Text → Text
unfolding strip_left strip_right collapse
normalize_title tools title =
    collapse tools.is_space false
      (tools.lower (strip_right tools.is_space (strip_left tools.is_space title)))

-- `p in s`, on texts
contains : Text → Text → Bool
contains [] p = starts_with [] p
contains (c ∷ s) p = starts_with (c ∷ s) p || contains s p

abbrev evidence_port : Evidence → Option ℕ
evidence_port empty = none
evidence_port (filled port protocol rest) = port

-- `protocol or None`
abbrev known : Option Text → Option Text
known none = none
known (some []) = none
known (some (c ∷ s)) = some (c ∷ s)

abbrev evidence_protocol : Evidence → Option Text
evidence_protocol empty = none
evidence_protocol (filled port protocol rest) = known protocol

-- The default port of a scheme.
abbrev default_port : Text → Option ℕ
default_port scheme =
    if text_eq scheme (codes "https")
    then some 443
    else if text_eq scheme (codes "http")
    then some 80
    else none

abbrev with_protocol : Option ℕ → Option Text → Option ℕ × Option Text
with_protocol none protocol = (none, none)
with_protocol (some port) protocol = (some port, protocol)

-- From `urlparse` on.
abbrev port_of_target : TextTools → Text → Option (Option ℕ × Option Text)
port_of_target tools candidate = elim (tools.urlparse candidate) [
  | none ↦ some (none, none)
  | some parsed ↦ elim parsed.port [
    | none ↦ none
    | some (some port) ↦ some (some port, some (codes "tcp"))
    | some none ↦ some (with_protocol (default_port parsed.scheme) (some (codes "tcp")))
  ]
]

-- `none` is the `ValueError` of `parsed.port`, which stands outside the `try`.
unfoldable pub extract_port_protocol :
    TextTools → (source_tool target : Text) → Evidence → Option (Option ℕ × Option Text)
unfolding contains
extract_port_protocol tools source_tool target evidence =
    if text_eq source_tool (codes "nmap") || text_eq source_tool (codes "masscan")
    then some (with_protocol (evidence_port evidence) (evidence_protocol evidence))
    else if is_nil target
    then some (none, none)
    else port_of_target tools
        (if contains target (codes "://") then target else codes "//" ++ target)

-- `separator.join(parts)`
unfoldable pub join : (separator : ℕ) → List Text → Text
join separator [] = []
join separator (x ∷ []) = x
join separator (x ∷ y ∷ ys) = x ++ separator ∷ join separator (y ∷ ys)

abbrev port_text : Option ℕ → Text
port_text none = []
port_text (some port) = str (pos port)

abbrev protocol_text : Option Text → Text
protocol_text none = []
protocol_text (some s) = s

-- The parts of the key.
abbrev pub key_parts :
    TextTools
    → (asset_id : ℕ) → (cve_ids : List Text) → (normalized_title : Text) → Option ℕ
    → Option Text
    → List Text
key_parts tools asset_id [] normalized_title port protocol =
    codes "generic"
    ∷ tools.uuid_str asset_id
    ∷ normalized_title
    ∷ port_text port
    ∷ protocol_text protocol
    ∷ []
key_parts tools asset_id (c ∷ cs) normalized_title port protocol =
    codes "cve" ∷ tools.uuid_str asset_id ∷ join b',' (sorted_set (map tools.upper (c ∷ cs))) ∷ []

unfoldable pub finding_signature :
    TextTools
    → (asset_id : Option ℕ) → (cve_ids : List Text) → (normalized_title : Text) → (port : Option ℕ)
    → (protocol : Option Text) → Option Text
unfolding join
finding_signature tools none cve_ids normalized_title port protocol = none
finding_signature tools (some asset_id) cve_ids normalized_title port protocol =
    some
      (tools.sha256 (join b'|' (key_parts tools asset_id cve_ids normalized_title port protocol)))
