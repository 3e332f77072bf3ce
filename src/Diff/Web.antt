-- ===== src/Diff/Web.antt =====
-- backend/app/diff/engine.py: `diff_whatweb`, `diff_sslscan` and `diff_gobuster`.
use cyberlab_kali.Base.{
  ℕ, ◌==◌, if◌then◌else◌, is_some, Option, none, some, List, [], ◌∷◌, ◌++◌, Text, codes, text_eq,
  Map, text_key, flat_map, get, set,
}
use cyberlab_kali.Tools.Schema.{pos}
use cyberlab_kali.Tools.Registry.{str}
use cyberlab_kali.Models.Result.{
  PluginValue, listed, single, PluginData, detail, other, WebResult, Certificate, SslTarget,
  PathResult, ParsedResult,
}
use cyberlab_kali.Models.Finding.{Severity}
use cyberlab_kali.Models.Change.{
  ChangeType, technology_added, technology_removed, technology_changed, certificate_changed,
  http_changed, ChangeField, technology, subject, not_valid_after, path, http_status, nothing,
  at_endpoint, Change,
}
use cyberlab_kali.Diff.Ports.{change, same_text, join}

-- The part of the summary that one entry of the plugin's object adds, if it counts as true.
unfoldable pub add_part : Option PluginValue → List Text → List Text
add_part none parts = parts
add_part (some (listed [])) parts = parts
add_part (some (listed (value ∷ values))) parts = join (codes ",") (value ∷ values) ∷ parts
add_part (some (single [])) parts = parts
add_part (some (single (c ∷ s))) parts = (c ∷ s) ∷ parts

unfoldable pub summary_of : List Text → Text
summary_of [] = codes "detected"
summary_of (part ∷ parts) = join (codes " ") (part ∷ parts)

-- `_summarize_plugin`
unfoldable pub summarize_plugin : PluginData → Text
unfolding add_part summary_of
summarize_plugin (detail version string os) =
    summary_of (add_part version (add_part string (add_part os [])))
summarize_plugin (other value) = value

unfoldable pub add_plugins : List (Text × PluginData) → Map Text Text → Map Text Text
unfolding summarize_plugin
add_plugins [] plugins = plugins
add_plugins ((name, plugin) ∷ rest) plugins =
    add_plugins rest (set name (summarize_plugin plugin) plugins)

unfoldable pub add_results : List WebResult → Map Text Text → Map Text Text
add_results [] plugins = plugins
add_results (result ∷ rest) plugins = add_results rest (add_plugins result.plugins plugins)

-- `_whatweb_plugin_map`
unfoldable pub whatweb_plugin_map : ParsedResult → Map Text Text
whatweb_plugin_map parsed = add_results parsed.web_results []

unfoldable pub status_of : List WebResult → Option ℕ
status_of [] = none
status_of (result ∷ rest) = result.http_status

-- `_whatweb_http_status`
unfoldable pub whatweb_http_status : ParsedResult → Option ℕ
unfolding status_of
whatweb_http_status parsed = status_of parsed.web_results

abbrev pub technology_change : ChangeType → Text → (old new : Option Text) → Change
technology_change kind name old new = change kind Severity.info (technology name) old new nothing

unfoldable pub compare_plugin : Option Text → Text → Text → List Change
compare_plugin none name summary = technology_change technology_added name none (some summary) ∷ []
compare_plugin (some old) name summary =
    if text_eq old summary
    then []
    else technology_change technology_changed name (some old) (some summary) ∷ []

unfoldable pub new_plugin : Map Text Text → Text × Text → List Change
unfolding compare_plugin
new_plugin old_plugins (name, summary) = compare_plugin (get name old_plugins) name summary

unfoldable pub removed_plugin : Map Text Text → Text × Text → List Change
removed_plugin new_plugins (name, summary) =
    if is_some (get name new_plugins)
    then []
    else technology_change technology_removed name (some summary) none ∷ []

unfoldable pub compare_status : (old new : Option ℕ) → List Change
compare_status (some old) (some new) =
    if old == new
    then []
    else change http_changed Severity.info http_status (some (str (pos old))) (some (str (pos new)))
        nothing
      ∷ []
compare_status _ _ = []

unfoldable pub diff_whatweb : (old new : ParsedResult) → List Change
diff_whatweb old new =
    let old_plugins = whatweb_plugin_map old in
    let new_plugins = whatweb_plugin_map new in
    flat_map (new_plugin old_plugins) new_plugins
    ++ (flat_map (removed_plugin new_plugins) old_plugins
        ++ compare_status (whatweb_http_status old) (whatweb_http_status new))

-- `target.get("host") or "?"`
unfoldable pub host_or_mark : Option Text → Text
host_or_mark none = codes "?"
host_or_mark (some []) = codes "?"
host_or_mark (some (c ∷ s)) = c ∷ s

unfoldable pub add_certificate :
    Option Text → Option Certificate → Map Text Certificate → Map Text Certificate
unfolding host_or_mark
add_certificate host none certs = certs
add_certificate host (some cert) certs = set (host_or_mark host) cert certs

unfoldable pub add_certificates : List SslTarget → Map Text Certificate → Map Text Certificate
unfolding add_certificate
add_certificates [] certs = certs
add_certificates (target ∷ rest) certs =
    add_certificates rest (add_certificate target.host target.certificate certs)

-- `_sslscan_certificates`
unfoldable pub sslscan_certificates : ParsedResult → Map Text Certificate
sslscan_certificates parsed = add_certificates parsed.ssl_targets []

abbrev pub compare_field : ChangeField → (old new : Option Text) → List Change
compare_field field old new =
    if same_text old new
    then []
    else change certificate_changed Severity.medium field old new nothing ∷ []

unfoldable pub compare_certificate : Option Certificate → Text → Certificate → List Change
compare_certificate none host cert = []
compare_certificate (some old) host cert =
    compare_field (subject host) old.subject cert.subject
    ++ compare_field (not_valid_after host) old.not_valid_after cert.not_valid_after

unfoldable pub new_certificate : Map Text Certificate → Text × Certificate → List Change
unfolding compare_certificate
new_certificate old_certs (host, cert) = compare_certificate (get host old_certs) host cert

unfoldable pub diff_sslscan : (old new : ParsedResult) → List Change
diff_sslscan old new =
    flat_map (new_certificate (sslscan_certificates old)) (sslscan_certificates new)

unfoldable pub add_path : Option Text → PathResult → Map Text PathResult → Map Text PathResult
add_path none result paths = paths
add_path (some name) result paths = set name result paths

-- `{r["path"]: r for r in ... if "path" in r}`
unfoldable pub path_map : List PathResult → Map Text PathResult → Map Text PathResult
unfolding add_path
path_map [] paths = paths
path_map (result ∷ rest) paths = path_map rest (add_path result.path result paths)

-- `f"HTTP {result.get('status')}"`
unfoldable pub http_text : Option ℕ → Text
http_text none = codes "HTTP None"
http_text (some status) = codes "HTTP " ++ str (pos status)

unfoldable pub new_path : Map Text PathResult → Text × PathResult → List Change
unfolding http_text
new_path old_paths (name, result) =
    if is_some (get name old_paths)
    then []
    else change ChangeType.other Severity.info (path name) none (some (http_text result.status))
        (at_endpoint name)
      ∷ []

unfoldable pub removed_path : Map Text PathResult → Text × PathResult → List Change
removed_path new_paths (name, result) =
    if is_some (get name new_paths)
    then []
    else change ChangeType.other Severity.info (path name) (some (codes "present")) none
        (at_endpoint name)
      ∷ []

unfoldable pub diff_gobuster : (old new : ParsedResult) → List Change
diff_gobuster old new =
    let old_paths = path_map old.paths [] in
    let new_paths = path_map new.paths [] in
    flat_map (new_path old_paths) new_paths ++ flat_map (removed_path new_paths) old_paths
