-- ===== src/Diff/Engine.antt =====
-- backend/app/diff/engine.py: the table of comparisons, by the name of the tool.
use cyberlab_kali.Base.{if◌then◌else◌, Bool, ◌||◌, List, [], Text, codes, text_eq}
use cyberlab_kali.Models.Result.{ParsedResult}
use cyberlab_kali.Models.Change.{Change}
use cyberlab_kali.Diff.Ports.{diff_nmap}
use cyberlab_kali.Diff.Web.{diff_whatweb, diff_sslscan, diff_gobuster}

-- `tool in SUPPORTED_TOOLS`
unfoldable pub is_supported : Text → Bool
is_supported tool =
    text_eq tool (codes "nmap")
    || (text_eq tool (codes "whatweb")
        || (text_eq tool (codes "sslscan") || text_eq tool (codes "gobuster")))

-- A missing result reads as one without entries.
unfoldable pub diff_results : Text → (old new : ParsedResult) → List Change
diff_results tool old new =
    if text_eq tool (codes "nmap")
    then diff_nmap old new
    else if text_eq tool (codes "whatweb")
    then diff_whatweb old new
    else if text_eq tool (codes "sslscan")
    then diff_sslscan old new
    else if text_eq tool (codes "gobuster")
    then diff_gobuster old new
    else []
