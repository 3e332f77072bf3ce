-- ===== src/Diff/Ports.antt =====
-- backend/app/diff/engine.py: `_change`, `_nmap_port_map` and `diff_nmap`.
use cyberlab_kali.Base.{
  ℕ, ◌≡◌, ◌↔◌, ◌==◌, ==_iff, if◌then◌else◌, Bool, true, false, ◌&&◌, Option, none, some, List, [],
  ◌∷◌, ◌++◌, Text, codes, text_eq, text_eq_refl, text_eq→eq, Key, Map, flat_map, get, set, arith,
  &&-eq-true,
}
use cyberlab_kali.Models.Result.{Port, Host, ParsedResult}
use cyberlab_kali.Models.Finding.{Severity}
use cyberlab_kali.Models.Change.{
  ChangeType, port_opened, port_closed, service_changed, ChangeField, ChangeMetadata, at_port,
  Change,
}

-- The key of a port: its protocol and its number.
pub record PortKey : Type 0 where
  pub protocol : Text
  pub number : ℕ

abbrev pub same_port : PortKey → PortKey → Bool
same_port a b = a.number == b.number && text_eq a.protocol b.protocol

pub same_port_iff : (a b : PortKey) → (same_port a b ≡ true) ↔ (a ≡ b)
same_port_iff a b = (
  λ h.
      let parts = &&-eq-true (a.number == b.number) (text_eq a.protocol b.protocol) h in
      let numbers : a.number ≡ b.number = (==_iff a.number b.number).0 parts.0 in
      let protocols : a.protocol ≡ b.protocol = text_eq→eq a.protocol b.protocol parts.1 in
      ground arith,
  λ h. let here : same_port a a ≡ true = ground (arith, text_eq_refl a.protocol) in ground arith,
)

instance abbrev pub port_key : Key PortKey
port_key = record { same = same_port; same_iff = same_port_iff }

-- `_change(...)`
abbrev pub change :
    ChangeType → Severity → ChangeField → (old new : Option Text) → ChangeMetadata → Change
change change_type severity field old new metadata = record {
  change_type = change_type;
  severity = severity;
  field = field;
  old_value = old;
  new_value = new;
  metadata = metadata;
}

-- One port of one host: it is left out where its number is not one.
unfoldable pub add_port : Port → Map PortKey Port → Map PortKey Port
add_port port ports = elim port.port [
  | none ↦ ports
  | some number ↦ set (record { protocol = port.protocol; number = number }) port ports
]

unfoldable pub add_ports : List Port → Map PortKey Port → Map PortKey Port
add_ports [] ports = ports
add_ports (port ∷ rest) ports = add_ports rest (add_port port ports)

unfoldable pub add_hosts : List Host → Map PortKey Port → Map PortKey Port
add_hosts [] ports = ports
add_hosts (host ∷ rest) ports = add_hosts rest (add_ports host.ports ports)

-- `_nmap_port_map`
unfoldable pub nmap_port_map : ParsedResult → Map PortKey Port
nmap_port_map parsed = add_hosts parsed.hosts []

abbrev pub is_open : Port → Bool
is_open port = text_eq port.state (codes "open")

-- `ports.get(key, {}).get("state") == "open"`
abbrev pub is_open_found : Option Port → Bool
is_open_found none = false
is_open_found (some port) = is_open port

abbrev pub is_open_in : Map PortKey Port → PortKey → Bool
is_open_in ports key = is_open_found (get key ports)

-- `a == b`, where either may be `None`.
abbrev pub same_text : Option Text → Option Text → Bool
same_text none none = true
same_text (some a) (some b) = text_eq a b
same_text _ _ = false

-- `value or default`
abbrev pub text_or : Option Text → Text → Text
text_or none default = default
text_or (some []) default = default
text_or (some (c ∷ s)) default = c ∷ s

-- `s or None`
abbrev pub text_or_none : Text → Option Text
text_or_none [] = none
text_or_none (c ∷ s) = some (c ∷ s)

-- `filter(None, [value]) + rest`
abbrev pub add_word : Option Text → List Text → List Text
add_word none rest = rest
add_word (some []) rest = rest
add_word (some (c ∷ s)) rest = (c ∷ s) ∷ rest

-- `separator.join(words)`
unfoldable pub join : Text → List Text → Text
join separator [] = []
join separator (word ∷ []) = word
join separator (word ∷ next ∷ rest) = word ++ (separator ++ join separator (next ∷ rest))

unfoldable pub describe : Port → Text
describe port =
    join (codes " ") (add_word port.service (add_word port.product (add_word port.version [])))

abbrev pub same_service : Port → Port → Bool
same_service a b =
    same_text a.service b.service
    && (same_text a.product b.product && same_text a.version b.version)

abbrev pub port_change : ChangeType → Severity → PortKey → (old new : Option Text) → Change
port_change kind severity key old new =
    change kind severity (ChangeField.port key.number key.protocol) old new
      (at_port key.number key.protocol)

-- The body of the first loop, by what stood under the key before.
unfoldable pub compare_port : Option Port → PortKey → Port → List Change
unfolding describe
compare_port none key port =
    if is_open port
    then port_change port_opened Severity.medium key none
        (some (text_or port.service (codes "open")))
      ∷ []
    else []
compare_port (some old) key port =
    if is_open port
    then if is_open old
      then if same_service old port
        then []
        else port_change service_changed Severity.medium key (text_or_none (describe old))
            (text_or_none (describe port))
          ∷ []
      else port_change port_opened Severity.medium key none
          (some (text_or port.service (codes "open")))
        ∷ []
    else []

-- The body of the second loop.
unfoldable pub closed_port : Map PortKey Port → PortKey × Port → List Change
closed_port new_ports (key, old) =
    if is_open old
    then if is_open_in new_ports key
      then []
      else port_change port_closed Severity.low key (some (text_or old.service (codes "open"))) none
        ∷ []
    else []

unfoldable pub open_port : Map PortKey Port → PortKey × Port → List Change
unfolding compare_port
open_port old_ports (key, port) = compare_port (get key old_ports) key port

unfoldable pub diff_nmap : (old new : ParsedResult) → List Change
diff_nmap old new =
    let old_ports = nmap_port_map old in
    let new_ports = nmap_port_map new in
    flat_map (open_port old_ports) new_ports ++ flat_map (closed_port new_ports) old_ports
