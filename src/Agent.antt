-- ===== src/Agent.antt =====
-- kali/agent/main.py: the server in the Kali container that runs a tool. What the operating system
-- does is an argument: `which` finds an executable, and a process ends in one of four ways.
pub mod Safety
use cyberlab_kali.Base.{
  ℕ, suc, ◌+◌, ◌==◌, ltb, leb, if◌then◌else◌, Bool, true, false, not, ◌&&◌, ◌||◌, any, Option, none,
  some, is_some, List, [], ◌∷◌, ◌++◌, length, take, map, Text, codes, text_eq, Map, text_key, get,
  set, set_all, Result, ok, err, ◌>>=◌, ◌>>◌,
}
use cyberlab_kali.Targets.{split}
use cyberlab_kali.Tools.Schema.{ℤ, pos, negsuc}
use cyberlab_kali.Tools.Patterns.{unsafe_search}

abbrev same_name : Text → Text × Text
same_name name = (name, name)

-- The entries of the dictionary literal, in its order.
abbrev pub candidate_entries : Map Text Text
candidate_entries =
    map same_name (
      codes "nmap"
      ∷ codes "masscan"
      ∷ codes "arp-scan"
      ∷ codes "netdiscover"
      ∷ codes "dig"
      ∷ codes "host"
      ∷ codes "nslookup"
      ∷ codes "traceroute"
      ∷ codes "whois"
      ∷ codes "nc"
      ∷ codes "whatweb"
      ∷ codes "wafw00f"
      ∷ codes "gobuster"
      ∷ codes "ffuf"
      ∷ codes "nikto"
      ∷ codes "nuclei"
      ∷ codes "sqlmap"
      ∷ codes "sslscan"
      ∷ codes "testssl"
      ∷ codes "enum4linux"
      ∷ codes "smbclient"
      ∷ codes "rpcclient"
      ∷ codes "ldapsearch"
      ∷ codes "searchsploit"
      ∷ [])
    ++ ((codes "theharvester", codes "theHarvester")
        ∷ map same_name (
            codes "amass"
            ∷ codes "subfinder"
            ∷ codes "dnsrecon"
            ∷ codes "curl"
            ∷ codes "wget"
            ∷ codes "openssl"
            ∷ []))

unfoldable pub candidate_tools : Map Text Text
candidate_tools = set_all [] candidate_entries

-- `s.strip()`, with Unicode's white space as an argument.
unfoldable pub strip_left : (ℕ → Bool) → Text → Text
strip_left is_space [] = []
strip_left is_space (c ∷ s) = let rest = strip_left is_space s in if is_space c then rest else c ∷ s

unfoldable pub strip_right : (ℕ → Bool) → Text → Text
strip_right is_space [] = []
strip_right is_space (c ∷ s) =
    let rest = strip_right is_space s in
    elim rest [ [] ↦ if is_space c then [] else c ∷ [] | d ∷ t ↦ c ∷ d ∷ t ]

unfoldable pub strip : (ℕ → Bool) → Text → Text
unfolding strip_left strip_right
strip is_space s = strip_right is_space (strip_left is_space s)

-- `entry.partition(":")`, where `none` has no separator.
unfoldable pub partition : Text → Option (Text × Text)
partition [] = none
partition (c ∷ s) =
    let rest = partition s in
    if c == b':'
    then some ([], s)
    else elim rest [ none ↦ none | some (name, executable) ↦ some (c ∷ name, executable) ]

abbrev pub is_empty : Text → Bool
is_empty [] = true
is_empty (c ∷ s) = false

unfoldable pub add_named :
    (existing : Map Text Text) → (name executable : Text) → Map Text Text → Map Text Text
add_named existing name executable extra =
    if is_empty name || is_empty executable
    then extra
    else if is_some (get name existing)
    then extra
    else set name executable extra

-- What follows the partition of one entry.
unfoldable pub add_parts :
    (ℕ → Bool) → (existing : Map Text Text) → Option (Text × Text) → Map Text Text → Map Text Text
unfolding add_named strip
add_parts is_space existing none extra = extra
add_parts is_space existing (some (name, executable)) extra =
    add_named existing (strip is_space name) (strip is_space executable) extra

unfoldable pub add_entries :
    (ℕ → Bool) → (existing : Map Text Text) → List Text → Map Text Text → Map Text Text
unfolding add_parts partition
add_entries is_space existing [] extra = extra
add_entries is_space existing (entry ∷ rest) extra =
    add_entries is_space existing rest
      (add_parts is_space existing (partition (strip is_space entry)) extra)

-- `_parse_extra_tools`
unfoldable pub parse_extra_tools : (ℕ → Bool) → (raw : Text) → Map Text Text → Map Text Text
unfolding add_entries
parse_extra_tools is_space raw existing = add_entries is_space existing (split (codes ",") raw) []

unfoldable pub add_path : Text → Option Text → Map Text Text → Map Text Text
add_path name none tools = tools
add_path name (some path) tools = if is_empty path then tools else set name path tools

-- The loop that fills `ALLOWED_TOOLS`.
unfoldable pub resolve_all :
    (which : Text → Option Text) → Map Text Text → Map Text Text → Map Text Text
unfolding add_path
resolve_all which [] tools = tools
resolve_all which ((name, executable) ∷ rest) tools =
    resolve_all which rest (add_path name (which executable) tools)

unfoldable pub allowed_tools : (Text → Option Text) → (ℕ → Bool) → (raw : Text) → Map Text Text
unfolding resolve_all parse_extra_tools
allowed_tools which is_space raw =
    resolve_all which (set_all candidate_tools (parse_extra_tools is_space raw candidate_tools)) []

pub record ExecRequest : Type 0 where
  pub tool : Text
  pub args : List Text
  pub timeout : ℕ

-- The bounds that the fields of the request declare; a request outside them is answered by 422.
abbrev pub is_valid_request : ExecRequest → Bool
is_valid_request request =
    leb (length request.args) 32 && (leb 1 request.timeout && leb request.timeout 300)

pub data HttpError : Type 0 where
  unprocessable unauthorized unknown_tool invalid_length unsafe_characters : HttpError
  internal_error : HttpError

unfoldable pub validate_args : List Text → Result HttpError (Unit {0})
validate_args [] = ok tt
validate_args (arg ∷ rest) =
    let later = validate_args rest in
    if is_empty arg || ltb 256 (length arg)
    then err invalid_length
    else if unsafe_search arg
    then err unsafe_characters
    else later

abbrev pub same_token : Option Text → Text → Bool
same_token none token = false
same_token (some given) token = text_eq given token

unfoldable pub require_auth : (agent_token : Text) → Option Text → Result HttpError (Unit {0})
require_auth agent_token given =
    if is_empty agent_token || not (same_token given agent_token) then err unauthorized else ok tt

pub record Command : Type 0 where
  pub executable : Text
  pub args : List Text
  pub timeout : ℕ

-- How `subprocess.run` ends: the process exits, it is killed at the timeout with what it wrote so
-- far, or it cannot be started. Bytes are read as text first (`errors="replace"`).
pub data Ended : Type 0 where
  exited : ℤ → (stdout stderr : Text) → Ended
  timed_out : (stdout stderr : Option Text) → Ended
  os_error : Ended

pub record ExecResponse : Type 0 where
  pub exit_code : ℤ
  pub stdout : Text
  pub stderr : Text
  pub was_killed : Bool

-- `_to_text`
abbrev pub to_text : Option Text → Text
to_text none = []
to_text (some s) = s

unfoldable pub response_of : Ended → Result HttpError ExecResponse
response_of (exited code stdout stderr) =
    ok (record { exit_code = code; stdout = stdout; stderr = stderr; was_killed = false })
response_of (timed_out stdout stderr) = ok (record {
  exit_code = negsuc 0;
  stdout = to_text stdout;
  stderr = to_text stderr ++ (10 ∷ codes "[cyberlab] process killed after timeout");
  was_killed = true;
})
response_of os_error = err internal_error

abbrev pub validated : ExecRequest → Result HttpError (Unit {0})
validated request = if is_valid_request request then ok tt else err unprocessable

abbrev pub command_with : ExecRequest → Option Text → Result HttpError Command
command_with request none = err unknown_tool
command_with request (some executable) = validate_args request.args >>= λ _.
    ok (record { executable = executable; args = request.args; timeout = request.timeout })

-- The command that a request comes to, or its refusal.
unfoldable pub command_of :
    (agent_token : Text)
    → (allowed : Map Text Text) → ExecRequest
    → Option Text
    → Result HttpError Command
command_of agent_token allowed request given = validated request >>= λ _.
    require_auth agent_token given >>= λ _. command_with request (get request.tool allowed)

unfoldable pub started :
    (run : Command → Ended)
    → Result HttpError Command
    → List Command × Result HttpError ExecResponse
unfolding response_of
started run (err e) = ([], err e)
started run (ok command) = (command ∷ [], response_of (run command))

-- `exec_tool`: the processes that were started, and the answer.
unfoldable pub exec_tool :
    (run : Command → Ended)
    → (agent_token : Text) → (allowed : Map Text Text) → ExecRequest
    → Option Text
    → List Command × Result HttpError ExecResponse
unfolding command_of started
exec_tool run agent_token allowed request given =
    started run (command_of agent_token allowed request given)
