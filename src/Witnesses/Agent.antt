-- ===== src/Witnesses/Agent.antt =====
-- kali/agent/main.py at one request, and at a setting that names a curated tool again.
use cyberlab_kali.Base.{
  ◌≡◌, ◌⊎◌, refl, false, Option, some, [], ◌∷◌, ◌++◌, Text, codes, text_eq, Map, text_key, get, set,
  set_all, length, err,
}
use cyberlab_kali.Tools.Schema.{pos}
use cyberlab_kali.Tools.Patterns.{unsafe_search}
use cyberlab_kali.Agent.{
  candidate_tools, allowed_tools, ExecRequest, HttpError, Command, Ended, exited, command_of,
  validate_args, require_auth, exec_tool,
}
use cyberlab_kali.Agent.Safety.{IsAllowed, exec_tool-IsAllowed, path_of, allowed_tools-curated}

abbrev request : ExecRequest
request = record { tool = codes "nmap"; args = codes "-F" ∷ codes "10.0.0.5" ∷ []; timeout = 60 }

abbrev allowed : Map Text Text
allowed = (codes "nmap", codes "/usr/bin/nmap") ∷ []

abbrev run : Command → Ended
run command = exited (pos 0) [] []

starts_one : length (exec_tool run (codes "s3cret") allowed request (some (codes "s3cret"))).0 ≡ 1
unfolding exec_tool command_of require_auth validate_args unsafe_search text_eq
starts_one = refl

exec_tool-IsAllowed_example :
    ((e : HttpError) × (exec_tool run (codes "s3cret") allowed request (some (codes "s3cret"))
        ≡ ([], err e)))
    ⊎ ((command : Command) × ((exec_tool run
            (codes "s3cret")
            allowed
            request
            (some (codes "s3cret"))).0
          ≡ command ∷ [])
        × IsAllowed (codes "s3cret") allowed request (some (codes "s3cret")) command)
exec_tool-IsAllowed_example =
    exec_tool-IsAllowed run (codes "s3cret") allowed request (some (codes "s3cret"))

-- Every executable is found in one folder.
abbrev which : Text → Option Text
which name = some (codes "/bin/" ++ name)

harvester : get (codes "theharvester") candidate_tools ≡ some (codes "theHarvester")
unfolding candidate_tools set_all set text_eq
harvester = refl

allowed_tools-curated_example :
    get (codes "theharvester") (allowed_tools which (λ c. false) (codes "theharvester:sh,mine:sh"))
    ≡ path_of (which (codes "theHarvester"))
allowed_tools-curated_example =
    allowed_tools-curated which (λ c. false) (codes "theharvester:sh,mine:sh")
      (codes "theharvester") (codes "theHarvester") harvester
