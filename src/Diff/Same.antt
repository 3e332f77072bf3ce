-- ===== src/Diff/Same.antt =====
-- Two equal results differ in nothing.
use cyberlab_kali.Base.{
  ℕ, ◌≡◌, refl, ==_refl, true, Option, none, some, List, [], ◌∷◌, Text, text_eq_refl, Map, IsMap,
  text_key, flat_map, get, set, set-IsMap, get-entries, All, arith,
}
use cyberlab_kali.Models.Result.{
  Port, Host, WebResult, PluginData, Certificate, SslTarget, PathResult, ParsedResult,
}
use cyberlab_kali.Diff.Ports.{
  PortKey, port_key, add_port, add_ports, add_hosts, nmap_port_map, same_text, compare_port,
  open_port, closed_port, diff_nmap,
}
use cyberlab_kali.Diff.Web.{
  summarize_plugin, add_plugins, add_results, whatweb_plugin_map, new_plugin, removed_plugin,
  whatweb_http_status, compare_status, diff_whatweb, host_or_mark, add_certificate,
  add_certificates, add_path, sslscan_certificates, new_certificate, diff_sslscan, path_map,
  new_path, removed_path, diff_gobuster,
}
use cyberlab_kali.Diff.Engine.{diff_results}

same_text_refl : (o : Option Text) → same_text o o ≡ true
same_text_refl none = refl
same_text_refl (some s) = text_eq_refl s

-- The maps that are built have each key once.
add_port-IsMap : (port : Port) (d : Map PortKey Port) → IsMap d → IsMap (add_port port d)
unfolding add_port
add_port-IsMap port d h =
    elim port.port
      as (λ number. IsMap (elim number [
        | none ↦ d
        | some number ↦ set (record { protocol = port.protocol; number = number }) port d
      ])) [
        | none ↦ h
        | some number ↦ set-IsMap (record { protocol = port.protocol; number = number }) port d h
      ]

add_ports-IsMap : (ports : List Port) (d : Map PortKey Port) → IsMap d → IsMap (add_ports ports d)
unfolding add_ports
add_ports-IsMap [] d h = h
add_ports-IsMap (port ∷ rest) d h = add_ports-IsMap rest (add_port port d) (add_port-IsMap port d h)

add_hosts-IsMap : (hosts : List Host) (d : Map PortKey Port) → IsMap d → IsMap (add_hosts hosts d)
unfolding add_hosts
add_hosts-IsMap [] d h = h
add_hosts-IsMap (host ∷ rest) d h =
    add_hosts-IsMap rest (add_ports host.ports d) (add_ports-IsMap host.ports d h)

pub nmap_port_map-IsMap : (parsed : ParsedResult) → IsMap (nmap_port_map parsed)
unfolding nmap_port_map
nmap_port_map-IsMap parsed = add_hosts-IsMap parsed.hosts [] tt

add_plugins-IsMap :
    (plugins : List (Text × PluginData)) (d : Map Text Text)
    → IsMap d
    → IsMap (add_plugins plugins d)
unfolding add_plugins
add_plugins-IsMap [] d h = h
add_plugins-IsMap ((name, plugin) ∷ rest) d h =
    add_plugins-IsMap rest (set name (summarize_plugin plugin) d)
      (set-IsMap name (summarize_plugin plugin) d h)

add_results-IsMap :
    (results : List WebResult) (d : Map Text Text) → IsMap d → IsMap (add_results results d)
unfolding add_results
add_results-IsMap [] d h = h
add_results-IsMap (result ∷ rest) d h =
    add_results-IsMap rest (add_plugins result.plugins d) (add_plugins-IsMap result.plugins d h)

add_certificate-IsMap :
    (host : Option Text) (found : Option Certificate) (d : Map Text Certificate)
    → IsMap d
    → IsMap (add_certificate host found d)
unfolding add_certificate
add_certificate-IsMap host none d h = h
add_certificate-IsMap host (some cert) d h = set-IsMap (host_or_mark host) cert d h

add_certificates-IsMap :
    (targets : List SslTarget) (d : Map Text Certificate)
    → IsMap d
    → IsMap (add_certificates targets d)
unfolding add_certificates
add_certificates-IsMap [] d h = h
add_certificates-IsMap (target ∷ rest) d h =
    add_certificates-IsMap rest (add_certificate target.host target.certificate d)
      (add_certificate-IsMap target.host target.certificate d h)

add_path-IsMap :
    (name : Option Text) (result : PathResult) (d : Map Text PathResult)
    → IsMap d
    → IsMap (add_path name result d)
unfolding add_path
add_path-IsMap none result d h = h
add_path-IsMap (some name) result d h = set-IsMap name result d h

path_map-IsMap :
    (results : List PathResult) (d : Map Text PathResult) → IsMap d → IsMap (path_map results d)
unfolding path_map
path_map-IsMap [] d h = h
path_map-IsMap (result ∷ rest) d h =
    path_map-IsMap rest (add_path result.path result d) (add_path-IsMap result.path result d h)

-- A body of a loop that has nothing to say of an entry which the other map has too.
quiet {ℓ κ} :
    {K : Type ℓ} {V : Type κ} {B : Type 0} (lookup : K → Option V) (f : K × V → List B)
    → ((k : K) (v : V) → lookup k ≡ some v → f (k, v) ≡ [])
    → (d : List (K × V)) → All (λ e. lookup e.0 ≡ some e.1) d
    → flat_map f d ≡ []
quiet lookup f h [] all = refl
quiet lookup f h ((k, v) ∷ d) all = rw (h k v all.0) (quiet lookup f h d all.1)

compare_port_same : (key : PortKey) (port : Port) → compare_port (some port) key port ≡ []
unfolding compare_port
compare_port_same key port =
    ground
      (arith, same_text_refl port.service, same_text_refl port.product, same_text_refl port.version)

diff_nmap-same : (r : ParsedResult) → diff_nmap r r ≡ []
unfolding diff_nmap
diff_nmap-same r =
    let d = nmap_port_map r in
    let entries = get-entries d (nmap_port_map-IsMap r) in
    let opened =
      quiet (λ k. get k d) (open_port d) (λ k v e. unfold open_port in rw e (compare_port_same k v))
        d entries in
    let closed =
      quiet (λ k. get k d) (closed_port d) (λ k v e. unfold closed_port in ground (arith, e)) d
        entries in
    rw (opened, closed) refl

compare_status_same : (status : Option ℕ) → compare_status status status ≡ []
unfolding compare_status
compare_status_same none = refl
compare_status_same (some n) = ground (arith, ==_refl n)

diff_whatweb-same : (r : ParsedResult) → diff_whatweb r r ≡ []
unfolding diff_whatweb
diff_whatweb-same r =
    let d = whatweb_plugin_map r in
    let entries =
      get-entries d (unfold whatweb_plugin_map in add_results-IsMap r.web_results [] tt) in
    let added =
      quiet (λ k. get k d) (new_plugin d)
        (λ k v e. unfold new_plugin in ground (arith, e, text_eq_refl v)) d entries in
    let removed =
      quiet (λ k. get k d) (removed_plugin d) (λ k v e. unfold removed_plugin in ground (arith, e))
        d entries in
    rw (added, removed, compare_status_same (whatweb_http_status r)) refl

diff_sslscan-same : (r : ParsedResult) → diff_sslscan r r ≡ []
unfolding diff_sslscan
diff_sslscan-same r =
    let d = sslscan_certificates r in
    let entries =
      get-entries d (unfold sslscan_certificates in add_certificates-IsMap r.ssl_targets [] tt) in
    quiet (λ k. get k d) (new_certificate d)
      (λ k v e.
        unfold new_certificate in
        ground (arith, e, same_text_refl v.subject, same_text_refl v.not_valid_after))
      d entries

diff_gobuster-same : (r : ParsedResult) → diff_gobuster r r ≡ []
unfolding diff_gobuster
diff_gobuster-same r =
    let d = path_map r.paths [] in
    let entries = get-entries d (path_map-IsMap r.paths [] tt) in
    let added =
      quiet (λ k. get k d) (new_path d) (λ k v e. unfold new_path in ground (arith, e)) d entries in
    let removed =
      quiet (λ k. get k d) (removed_path d) (λ k v e. unfold removed_path in ground (arith, e)) d
        entries in
    rw (added, removed) refl

-- A result of any tool, compared with itself, shows no change.
pub diff_results-same : (tool : Text) (r : ParsedResult) → diff_results tool r r ≡ []
unfolding diff_results
diff_results-same tool r =
    ground (arith, diff_nmap-same r, diff_whatweb-same r, diff_sslscan-same r, diff_gobuster-same r)
