-- ===== src/Witnesses/Targets.antt =====
-- backend/app/targets/authorization.py on concrete strings.
use cyberlab_kali.Base.{◌≡◌, refl, none, some, codes, text_eq, starts_with, elem}
use cyberlab_kali.Targets.{local, lab, unknown, stripped, lab_hostname, infer_default_authorization}

program : Unit {0}
unfolding infer_default_authorization stripped lab_hostname starts_with text_eq elem
program = tt

infer_url : infer_default_authorization none none (some (codes "http://localhost:8080/x")) ≡ local
unfolding program
infer_url = refl

infer_container : infer_default_authorization (some (codes "cyberlab-lab-dvwa")) none none ≡ lab
unfolding program
infer_container = refl

-- The IPv6 address of the local host is not recognised.
infer_ipv6 : infer_default_authorization none (some (codes "::1")) none ≡ unknown
unfolding program
infer_ipv6 = refl

infer_loopback : infer_default_authorization none (some (codes "127.0.0.1")) none ≡ local
unfolding program
infer_loopback = refl
