-- ===== src/Diff/Replay.antt =====
-- The changes between two nmap results as a log: replaying it on the old state gives the new one.
use cyberlab_kali.Base.{
  ◌≡◌, refl, inl, inr, subst, if◌then◌else◌, Bool, true, false, Bool-cases, Option, none, some,
  Option-cases, List, [], ◌∷◌, ◌++◌, same_refl, Map, IsMap, IsAbsent, flat_map, get, arith,
}
use cyberlab_kali.Models.Result.{Port, ParsedResult}
use cyberlab_kali.Models.Change.{port_opened, port_closed, ChangeMetadata, at_port, Change}
use cyberlab_kali.Diff.Ports.{
  PortKey, port_key, same_port, same_port_iff, nmap_port_map, is_open, is_open_found, is_open_in,
  compare_port, open_port, closed_port, diff_nmap,
}
use cyberlab_kali.Diff.Same.{nmap_port_map-IsMap}

-- Whether a change names the port in its metadata.
unfoldable pub names_port : PortKey → ChangeMetadata → Bool
names_port key (at_port number protocol) =
    same_port (record { protocol = protocol; number = number }) key
names_port key _ = false

-- What a reader of one change knows of the port, who knew before whether it was open.
unfoldable pub apply_change : PortKey → Change → Bool → Bool
unfolding names_port
apply_change key c known = elim c.change_type [
  | port_opened ↦ if names_port key c.metadata then true else known
  | port_closed ↦ if names_port key c.metadata then false else known
  | _ ↦ known
]

unfoldable pub replay : PortKey → List Change → Bool → Bool
replay key [] known = known
replay key (c ∷ rest) known = replay key rest (apply_change key c known)

replay-append :
    (key : PortKey) (front back : List Change) (known : Bool)
    → replay key (front ++ back) known ≡ replay key back (replay key front known)
unfolding replay
replay-append key [] back known = refl
replay-append key (c ∷ front) back known = replay-append key front back (apply_change key c known)

-- What a loop over a map says of one port is what it says of the entry of that port.
module _ (key : PortKey) (f : PortKey × Port → List Change)
    (elsewhere : (k : PortKey) (port : Port) (known : Bool)
      → same_port k key ≡ false
      → replay key (f (k, port)) known ≡ known) where
  replay-absent :
      (d : Map PortKey Port) (known : Bool)
      → IsAbsent key d
      → replay key (flat_map f d) known ≡ known
  unfolding replay
  replay-absent [] known h = refl
  replay-absent ((k, port) ∷ d) known h =
      rw (replay-append key (f (k, port)) (flat_map f d) known, elsewhere k port known h.0)
        (replay-absent d known h.1)

  replay-flat_map :
      (d : Map PortKey Port) (known : Bool)
      → IsMap d
      → replay key (flat_map f d) known
        ≡ elim (get key d) [ none ↦ known | some port ↦ replay key (f (key, port)) known ]
  unfolding replay
  replay-flat_map [] known h = refl
  replay-flat_map ((k, port) ∷ d) known h = elim (Bool-cases (same_port k key)) [
    | inr e ↦
        rw (replay-append key (f (k, port)) (flat_map f d) known, elsewhere k port known e, e)
          (replay-flat_map d known h.1)
    | inl e ↦
        let same : k ≡ key = (same_port_iff k key).0 e in
        rw (replay-append key (f (k, port)) (flat_map f d) known, e)
          (rw
            (
              replay-absent d (replay key (f (k, port)) known) (subst (λ x. IsAbsent x d) same h.0),
              same,
            )
            refl)
  ]

closed_elsewhere :
    (new_ports : Map PortKey Port) (key k : PortKey) (port : Port) (known : Bool)
    → same_port k key ≡ false
    → replay key (closed_port new_ports (k, port)) known ≡ known
unfolding closed_port replay apply_change
closed_elsewhere new_ports key k port known h = ground arith

compare_elsewhere :
    (old : Option Port) (key k : PortKey) (port : Port) (known : Bool)
    → same_port k key ≡ false
    → replay key (compare_port old k port) known ≡ known
unfolding compare_port replay apply_change
compare_elsewhere none key k port known h = ground arith
compare_elsewhere (some old) key k port known h = ground arith

compare_here :
    (old : Option Port) (key : PortKey) (port : Port)
    → replay key (compare_port old key port) (is_open_found old)
      ≡ (if is_open port then true else is_open_found old)
unfolding compare_port replay apply_change
compare_here none key port = ground (arith, same_refl key)
compare_here (some old) key port = ground (arith, same_refl key)

closed_here :
    (new_ports : Map PortKey Port) (key : PortKey) (port : Port) (known : Bool)
    → replay key (closed_port new_ports (key, port)) known
      ≡ (if is_open port then (if is_open_in new_ports key then known else false) else known)
unfolding closed_port replay apply_change
closed_here new_ports key port known = ground (arith, same_refl key)

-- The first loop adds the ports that are open now, the second takes those that are not.
first_loop :
    (before after : Map PortKey Port) (key : PortKey)
    → IsMap after
    → replay key (flat_map (open_port before) after) (is_open_in before key)
      ≡ (if is_open_in after key then true else is_open_in before key)
unfolding open_port
first_loop before after key h =
    let known = is_open_in before key in
    let loop =
      replay-flat_map key (open_port before)
        (λ k port b e. compare_elsewhere (get k before) key k port b e) after known h in
    elim (Option-cases (get key after)) [
      | inl e ↦ rw loop (rw e refl)
      | inr (port, e) ↦ rw loop (rw e (compare_here (get key before) key port))
    ]

second_loop :
    (before after : Map PortKey Port) (key : PortKey) (known : Bool)
    → IsMap before
    → replay key (flat_map (closed_port after) before) known
      ≡ (if is_open_in before key then (if is_open_in after key then known else false) else known)
second_loop before after key known h =
    let loop =
      replay-flat_map key (closed_port after) (closed_elsewhere after key) before known h in
    elim (Option-cases (get key before)) [
      | inl e ↦ rw loop (rw e refl)
      | inr (port, e) ↦ rw loop (rw e (closed_here after key port known))
    ]

-- The opened and closed ports among the changes that diff_nmap returns, replayed on what was open
-- in the old result, give for each port whether it is open in the new one.
pub replay-diff_nmap :
    (old new : ParsedResult) (key : PortKey)
    → replay key (diff_nmap old new) (is_open_in (nmap_port_map old) key)
      ≡ is_open_in (nmap_port_map new) key
unfolding diff_nmap
replay-diff_nmap old new key =
    let before = nmap_port_map old in
    let after = nmap_port_map new in
    let known = is_open_in before key in
    rw
      (
        replay-append key (flat_map (open_port before) after) (flat_map (closed_port after) before)
            known,
        first_loop before after key (nmap_port_map-IsMap new),
        second_loop before after key (if is_open_in after key then true else known)
            (nmap_port_map-IsMap old),
      )
      (elim (Bool-cases known) [
        | inl e ↦ elim (Bool-cases (is_open_in after key)) [
          | inl a ↦ rw (e, a) refl
          | inr a ↦ rw (e, a) refl
        ]
        | inr e ↦ elim (Bool-cases (is_open_in after key)) [
          | inl a ↦ rw (e, a) refl
          | inr a ↦ rw (e, a) refl
        ]
      ])
