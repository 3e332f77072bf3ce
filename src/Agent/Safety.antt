-- ===== src/Agent/Safety.antt =====
-- Which processes the agent starts, and which executables an operator's setting can reach.
use cyberlab_kali.Base.{
  ℕ, ◌≡◌, ◌≤◌, ◌∙◌, sym, ap, refl, inl, inr, subst, Bool, false, Bool-cases, Option, none, some,
  Option-cases, List, [], ◌∷◌, length, Text, text_eq, text_eq_iff, text_eq_refl, text_eq→eq, Map,
  text_key, IsMap, IsAbsent, get, set, set_all, get-set, set_all-IsMap, get-set_all_absent, All, ok,
  err, ◌>>=◌, >>=-eq-ok, ◌||◌, ◌⊎◌, arith, if◌then◌else◌, codes,
}
use cyberlab_kali.Tools.Patterns.{unsafe_search}
use cyberlab_kali.Targets.{split}
use cyberlab_kali.Jobs.Execute.Outcome.{Result-cases}
use cyberlab_kali.Agent.{
  candidate_entries, candidate_tools, strip, partition, is_empty, add_named, add_parts, add_entries,
  parse_extra_tools, add_path, resolve_all, allowed_tools, ExecRequest, HttpError, validate_args,
  validated, command_with, started, require_auth, Command, Ended, command_of, exec_tool,
}

-- An argument that a process may be given.
abbrev pub IsSafeArg : Text → Type 0
IsSafeArg arg = (is_empty arg ≡ false) × (length arg ≤ 256) × (unsafe_search arg ≡ false)

pub record IsAllowed (agent_token : Text) (allowed : Map Text Text) (request : ExecRequest)
    (given : Option Text) (command : Command) : Type 0 where
  pub token : (given ≡ some agent_token) × (is_empty agent_token ≡ false)
  pub executable : get request.tool allowed ≡ some command.executable
  pub args : (command.args ≡ request.args) × All IsSafeArg request.args × (length request.args ≤ 32)
  pub timeout :
      (command.timeout ≡ request.timeout) × (1 ≤ request.timeout) × (request.timeout ≤ 300)

validate_args-IsSafe :
    (args : List Text) (u : Unit {0}) → validate_args args ≡ ok u → All IsSafeArg args
unfolding validate_args
validate_args-IsSafe [] u h = tt
validate_args-IsSafe (arg ∷ rest) u h = (ground arith, validate_args-IsSafe rest u (ground arith))

command_with-IsAllowed :
    (request : ExecRequest) (found : Option Text) (command : Command)
    → command_with request found ≡ ok command
    → (found ≡ some command.executable)
      × (command.args ≡ request.args)
      × (command.timeout ≡ request.timeout)
      × All IsSafeArg request.args
command_with-IsAllowed request none command h = absurd (ground arith)
command_with-IsAllowed request (some executable) command h =
    let made : Command = record {
      executable = executable;
      args = request.args;
      timeout = request.timeout;
    } in
    let (u, valid, returned) = >>=-eq-ok (validate_args request.args) (λ u. ok made) h in
    let same : made ≡ command = ground arith in
    (
      ap (λ c. some c.executable) same,
      ap (λ c. c.args) (sym same),
      ap (λ c. c.timeout) (sym same),
      validate_args-IsSafe request.args u valid,
    )

require_auth-token :
    (agent_token : Text) (given : Option Text) (u : Unit {0})
    → require_auth agent_token given ≡ ok u
    → (given ≡ some agent_token) × (is_empty agent_token ≡ false)
unfolding require_auth
require_auth-token agent_token none u h = absurd (ground arith)
require_auth-token agent_token (some token) u h = ground (arith, text_eq_iff token agent_token)

command_of-IsAllowed :
    (agent_token : Text) (allowed : Map Text Text) (request : ExecRequest) (given : Option Text)
    (command : Command)
    → command_of agent_token allowed request given ≡ ok command
    → IsAllowed agent_token allowed request given command
unfolding command_of
command_of-IsAllowed agent_token allowed request given command h =
    let (u, valid, authorized) =
      >>=-eq-ok (validated request)
        (λ u.
          require_auth agent_token given >>= λ _. command_with request (get request.tool allowed))
        h in
    let (v, token, found) =
      >>=-eq-ok (require_auth agent_token given)
        (λ v. command_with request (get request.tool allowed)) authorized in
    let parts = command_with-IsAllowed request (get request.tool allowed) command found in
    record {
      token = require_auth-token agent_token given v token;
      executable = parts.0;
      args = (parts.1, parts.3, ground arith);
      timeout = (parts.2, ground arith, ground arith);
    }

-- A call of exec_tool starts no process and answers with an error, or starts one: then the token
-- was given and is not empty, the executable is the one that the name of the tool resolved to at
-- startup, and the arguments are the ones of the request, at most 32, none empty, longer than 256
-- characters or with a character that a shell reads, under the timeout of the request, between 1
-- and 300 seconds.
pub exec_tool-IsAllowed :
    (run : Command → Ended) (agent_token : Text) (allowed : Map Text Text) (request : ExecRequest)
    (given : Option Text)
    → ((e : HttpError) × (exec_tool run agent_token allowed request given ≡ ([], err e)))
      ⊎ ((command : Command) × ((exec_tool run agent_token allowed request given).0 ≡ command ∷ [])
          × IsAllowed agent_token allowed request given command)
unfolding exec_tool
exec_tool-IsAllowed run agent_token allowed request given =
    elim (Result-cases (command_of agent_token allowed request given)) [
      | inl (e, h) ↦ inl (e, rw (h, started) refl)
      | inr (command, h) ↦ inr (
        command,
        rw (h, started) refl,
        command_of-IsAllowed agent_token allowed request given command h,
      )
    ]

-- Extra entries never stand under a name that exists already.
abbrev IsNew : (existing extra : Map Text Text) → Type 0
IsNew existing extra = All (λ e. get e.0 existing ≡ none) extra

set-IsNew :
    (existing : Map Text Text) (name executable : Text) (extra : Map Text Text)
    → get name existing ≡ none
    → IsNew existing extra
    → IsNew existing (set name executable extra)
unfolding set
set-IsNew existing name executable [] h all = (h, tt)
set-IsNew existing name executable ((j, w) ∷ d) h all = elim (Bool-cases (text_eq j name)) [
  | inl e ↦ rw e all
  | inr e ↦ rw e (all.0, set-IsNew existing name executable d h all.1)
]

add_named-IsNew :
    (existing : Map Text Text) (name executable : Text) (extra : Map Text Text)
    → IsNew existing extra
    → IsNew existing (add_named existing name executable extra)
unfolding add_named
add_named-IsNew existing name executable extra h =
    elim (Bool-cases (is_empty name || is_empty executable)) [
      | inl e ↦ rw e h
      | inr e ↦ elim (Option-cases (get name existing)) [
        | inl f ↦ rw (e, f) (set-IsNew existing name executable extra f h)
        | inr (v, f) ↦ rw (e, f) h
      ]
    ]

add_parts-IsNew :
    (is_space : ℕ → Bool) (existing : Map Text Text) (parts : Option (Text × Text))
    (extra : Map Text Text)
    → IsNew existing extra
    → IsNew existing (add_parts is_space existing parts extra)
unfolding add_parts
add_parts-IsNew is_space existing none extra h = h
add_parts-IsNew is_space existing (some (name, executable)) extra h =
    add_named-IsNew existing (strip is_space name) (strip is_space executable) extra h

add_entries-IsNew :
    (is_space : ℕ → Bool) (existing : Map Text Text) (entries : List Text) (extra : Map Text Text)
    → IsNew existing extra
    → IsNew existing (add_entries is_space existing entries extra)
unfolding add_entries
add_entries-IsNew is_space existing [] extra h = h
add_entries-IsNew is_space existing (entry ∷ rest) extra h =
    add_entries-IsNew is_space existing rest
      (add_parts is_space existing (partition (strip is_space entry)) extra)
      (add_parts-IsNew is_space existing (partition (strip is_space entry)) extra h)

new-IsAbsent :
    (existing extra : Map Text Text) (name executable : Text)
    → get name existing ≡ some executable
    → IsNew existing extra
    → IsAbsent name extra
new-IsAbsent existing [] name executable h all = tt
new-IsAbsent existing ((j, v) ∷ d) name executable h all =
    (ground (arith, all.0, text_eq_iff j name), new-IsAbsent existing d name executable h all.1)

add_path-absent :
    (name : Text) (path : Option Text) (asked : Text) (tools : Map Text Text)
    → text_eq name asked ≡ false
    → get asked (add_path name path tools) ≡ get asked tools
unfolding add_path
add_path-absent name none asked tools h = refl
add_path-absent name (some path) asked tools h = elim (Bool-cases (is_empty path)) [
  | inl e ↦ rw e refl
  | inr e ↦ rw e (get-set name asked path tools ∙ rw h refl)
]

-- The path under which an executable is found, if it is one.
abbrev pub path_of : Option Text → Option Text
path_of none = none
path_of (some path) = if is_empty path then none else some path

add_path-here :
    (name : Text) (path : Option Text) (tools : Map Text Text)
    → get name tools ≡ none
    → get name (add_path name path tools) ≡ path_of path
unfolding add_path
add_path-here name none tools h = h
add_path-here name (some path) tools h = elim (Bool-cases (is_empty path)) [
  | inl e ↦ rw e h
  | inr e ↦ rw e (get-set name name path tools ∙ rw (text_eq_refl name) refl)
]

candidate_tools-IsMap : IsMap candidate_tools
unfolding candidate_tools
candidate_tools-IsMap = set_all-IsMap [] candidate_entries tt

parse_extra_tools-IsNew :
    (is_space : ℕ → Bool) (existing : Map Text Text) (raw : Text)
    → IsNew existing (parse_extra_tools is_space raw existing)
unfolding parse_extra_tools
parse_extra_tools-IsNew is_space existing raw =
    add_entries-IsNew is_space existing (split (codes ",") raw) [] tt

module _ (which : Text → Option Text) where
  resolve_all-absent :
      (d tools : Map Text Text) (asked : Text)
      → IsAbsent asked d
      → get asked (resolve_all which d tools) ≡ get asked tools
  unfolding resolve_all
  resolve_all-absent [] tools asked h = refl
  resolve_all-absent ((name, executable) ∷ d) tools asked h =
      resolve_all-absent d (add_path name (which executable) tools) asked h.1
      ∙ add_path-absent name (which executable) asked tools h.0

  resolve_all-get :
      (d tools : Map Text Text) (asked executable : Text)
      → IsMap d
      → get asked tools ≡ none
      → get asked d ≡ some executable
      → get asked (resolve_all which d tools) ≡ path_of (which executable)
  unfolding resolve_all
  resolve_all-get [] tools asked executable h n g = absurd (ground arith)
  resolve_all-get ((name, first) ∷ d) tools asked executable h n g =
      elim (Bool-cases (text_eq name asked)) [
        | inr e ↦
            resolve_all-get d (add_path name (which first) tools) asked executable h.1
              (add_path-absent name (which first) asked tools e ∙ n) (ground arith)
        | inl e ↦
            let same : name ≡ asked = text_eq→eq name asked e in
            let value : first ≡ executable = ground arith in
            resolve_all-absent d (add_path name (which first) tools) asked
              (subst (λ x. IsAbsent x d) same h.0)
            ∙ rw (same, value) (add_path-here asked (which executable) tools n)
      ]

  -- Whatever EXTRA_ALLOWED_TOOLS holds, the name of a curated tool is allowed with the path at which
  -- the curated executable was found, and is not allowed if none was.
  pub allowed_tools-curated :
      (is_space : ℕ → Bool) (raw name executable : Text)
      → get name candidate_tools ≡ some executable
      → get name (allowed_tools which is_space raw) ≡ path_of (which executable)
  unfolding allowed_tools
  allowed_tools-curated is_space raw name executable h =
      let extra = parse_extra_tools is_space raw candidate_tools in
      let new = parse_extra_tools-IsNew is_space candidate_tools raw in
      let curated = candidate_tools-IsMap in
      resolve_all-get (set_all candidate_tools extra) [] name executable
        (set_all-IsMap candidate_tools extra curated) refl
        (get-set_all_absent name candidate_tools extra
            (new-IsAbsent candidate_tools extra name executable h new)
          ∙ h)
