-- ===== src/Findings/Signature/Identity.antt =====
-- When two observations are of the same finding.
use cyberlab_kali.Base.{
  ℕ, ◌≡◌, refl, ap, Option, none, some, List, [], ◌∷◌, map, Text, codes, elem, sorted_set-canonical,
}
use cyberlab_kali.Findings.Signature.{TextTools, join, finding_signature}

-- Two observations on one asset that name CVE ids, the same ones up to case, order and repetition,
-- have the same signature, whatever their titles, ports and protocols.
pub finding_signature-same_cves :
    (tools : TextTools) (asset_id : Option ℕ) (c d : Text) (cs ds : List Text) (title title' : Text)
    (port port' : Option ℕ) (protocol protocol' : Option Text)
    → ((x : Text) → elem x (map tools.upper (c ∷ cs)) ≡ elem x (map tools.upper (d ∷ ds)))
    → finding_signature tools asset_id (c ∷ cs) title port protocol
      ≡ finding_signature tools asset_id (d ∷ ds) title' port' protocol'
unfolding finding_signature
finding_signature-same_cves tools none c d cs ds title title' port port' protocol protocol' same =
    refl
finding_signature-same_cves tools (some asset) c d cs ds title title' port port' protocol protocol'
      same =
    ap
      (λ ids.
        some (tools.sha256 (join b'|' (codes "cve" ∷ tools.uuid_str asset ∷ join b',' ids ∷ []))))
      (sorted_set-canonical (map tools.upper (c ∷ cs)) (map tools.upper (d ∷ ds)) same)
