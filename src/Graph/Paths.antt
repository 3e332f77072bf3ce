-- ===== src/Graph/Paths.antt =====
-- What find_paths_between returns: routes of the graph, the shortest ones first.
use cyberlab_kali.Base.{
  ℕ, zero, suc, ◌≤◌, ◌≡◌, ◌⊎◌, ◌∙◌, inl, inr, refl, sym, ap, subst, ◌==◌, true, Bool-cases, find,
  some, List, [], ◌∷◌, ◌++◌, map, length, take, length-take, length-map, take-All, keep,
  keep-All_both, All, All-map, Occurs, map-All, sort_asc, sort_asc-All, sort_asc-IsAscending,
  take-IsAscending, IsAscending, ok, arith,
}
use cyberlab_kali.Jobs.Execute.Outcome.{Result-cases}
use cyberlab_kali.Graph.{
  Node, GraphEdge, Hop, Row, same_node, forward, backward, bidirectional_edges, first_rows, rounds,
  enumerate_paths, Route, Response, add_found, ordered_edges, next_node, node_sequence, route_of,
  build_paths_response, is_valid_query, matching, find_paths_between,
}
use cyberlab_kali.Graph.Walks.{
  Walks, IsTrail, IsWalk, edges_of, same_node→eq, same_node_refl, first_rows-IsWalk, rounds-IsWalk,
  rounds_complete,
}

take_all {ℓ} : {A : Type ℓ} (n : ℕ) (xs : List A) → length xs ≤ n → take n xs ≡ xs
take_all zero [] h = refl
take_all zero (x ∷ xs) h = absurd (omega arith)
take_all (suc n) [] h = refl
take_all (suc n) (x ∷ xs) h = ap (λ ys. x ∷ ys) (take_all n xs (omega arith))

-- All rounds of the query, before the limit on its rows.
abbrev pub all_rounds : List GraphEdge → Node → ℕ → List Row
all_rounds edges seed max =
    rounds max max (bidirectional_edges edges) (first_rows seed (bidirectional_edges edges))

enumerate_paths-IsWalk :
    (edges : List GraphEdge) (seed : Node) (max : ℕ)
    → 1 ≤ max
    → All (IsWalk (bidirectional_edges edges) seed max) (enumerate_paths edges seed max)
unfolding enumerate_paths
enumerate_paths-IsWalk edges seed max b =
    let hops = bidirectional_edges edges in
    take-All (IsWalk hops seed max) 2000 (all_rounds edges seed max)
      (rounds-IsWalk hops seed max max (first_rows seed hops) (first_rows-IsWalk hops seed max b))

-- Where the query gives at most 2000 rows, its rows are exactly the walks from the seed, along edges in
-- either direction, of at most the given number of hops, that enter no node twice: each row is such
-- a walk, and each such walk is a row.
pub enumerate_paths-exact :
    (edges : List GraphEdge) (seed : Node) (max : ℕ)
    → 1 ≤ max
    → length (all_rounds edges seed max) ≤ 2000
    → All (IsWalk (bidirectional_edges edges) seed max) (enumerate_paths edges seed max)
      × ((first : Hop)
          → (rest : List Hop) → (target : Node)
          → IsTrail (bidirectional_edges edges) seed first rest target
          → length (first ∷ rest) ≤ max
          → (row : Row) × Occurs row (enumerate_paths edges seed max)
            × (row.last ≡ target)
            × (row.path_edge_ids ≡ edges_of (first ∷ rest)))
unfolding enumerate_paths
enumerate_paths-exact edges seed max b few = (
  enumerate_paths-IsWalk edges seed max b,
  λ first rest target trail short.
      subst
        (λ rows.
          (row : Row) × Occurs row rows
          × (row.last ≡ target)
          × (row.path_edge_ids ≡ edges_of (first ∷ rest)))
        (sym (take_all 2000 (all_rounds edges seed max) few))
        (rounds_complete (bidirectional_edges edges) seed max first rest target trail short),
)

-- Each edge is the one that its id finds.
abbrev pub IsKeyed : List GraphEdge → Type 0
IsKeyed edges = (e : GraphEdge) → Occurs e edges → find (λ x. x.id == e.id) edges ≡ some e

-- A route from the seed to the target: its nodes are those of a walk of the graph.
pub record IsRoute (edges : List GraphEdge) (seed target : Node) (max : ℕ) (route : Route)
    : Type 0 where
  pub first : Hop
  pub rest : List Hop
  pub trail : IsTrail (bidirectional_edges edges) seed first rest target
  pub nodes : route.nodes ≡ seed ∷ map (λ h. h.after) (first ∷ rest)
  pub hops : route.hops ≡ length (first ∷ rest)
  pub bounded : route.hops ≤ max

map-Occurs :
    (f : GraphEdge → Hop) (h : Hop) (edges : List GraphEdge)
    → Occurs h (map f edges)
    → (e : GraphEdge) × Occurs e edges × (f e ≡ h)
map-Occurs f h [] o = elim o [ ]
map-Occurs f h (e ∷ edges) (inl same) = (e, inl refl, same)
map-Occurs f h (e ∷ edges) (inr o) =
    let (d, there, same) = map-Occurs f h edges o in (d, inr there, same)

append-Occurs : (h : Hop) (xs ys : List Hop) → Occurs h (xs ++ ys) → Occurs h xs ⊎ Occurs h ys
append-Occurs h [] ys o = inr o
append-Occurs h (x ∷ xs) ys (inl e) = inl (inl e)
append-Occurs h (x ∷ xs) ys (inr o) = elim (append-Occurs h xs ys o) [
  | inl l ↦ inl (inr l)
  | inr r ↦ inr r
]

next_forward : (e : GraphEdge) → next_node e.source_node e ≡ e.target_node
next_forward e = rw (same_node_refl e.source_node) refl

next_backward : (e : GraphEdge) → next_node e.target_node e ≡ e.source_node
next_backward e = elim (Bool-cases (same_node e.target_node e.source_node)) [
  | inr d ↦ rw d refl
  | inl s ↦ rw s (same_node→eq e.target_node e.source_node s)
]

module _ (edges : List GraphEdge) (keyed : IsKeyed edges) where
  -- The edge of a hop, and the node to which the walk over it leads.
  hop_edge :
      (h : Hop)
      → Occurs h (bidirectional_edges edges)
      → (e : GraphEdge) × (find (λ x. x.id == h.edge) edges ≡ some e)
        × (next_node h.before e ≡ h.after)
  unfolding bidirectional_edges
  hop_edge h o = elim (append-Occurs h (map forward edges) (map backward edges) o) [
    | inl f ↦
        let (e, there, same) = map-Occurs forward h edges f in
        (
          e,
          subst (λ g. find (λ x. x.id == g.edge) edges ≡ some e) same (keyed e there),
          subst (λ g. next_node g.before e ≡ g.after) same (next_forward e),
        )
    | inr b ↦
        let (e, there, same) = map-Occurs backward h edges b in
        (
          e,
          subst (λ g. find (λ x. x.id == g.edge) edges ≡ some e) same (keyed e there),
          subst (λ g. next_node g.before e ≡ g.after) same (next_backward e),
        )
  ]

  node_sequence-trail :
      (n target : Node) (trail : List Hop)
      → Walks n trail target
      → All (λ h. Occurs h (bidirectional_edges edges)) trail
      → node_sequence n (ordered_edges edges (edges_of trail)) ≡ map (λ h. h.after) trail
  unfolding node_sequence ordered_edges add_found
  node_sequence-trail n target [] w s = refl
  node_sequence-trail n target (h ∷ rest) w s =
      let (e, found, next) = hop_edge h s.0 in
      let step : next_node n e ≡ h.after = subst (λ m. next_node m e ≡ h.after) w.0 next in
      rw (found, add_found)
        (rw step (ap (λ ns. h.after ∷ ns) (node_sequence-trail h.after target rest w.1 s.1)))

  row-IsRoute :
      (seed target : Node) (max : ℕ) (row : Row)
      → IsWalk (bidirectional_edges edges) seed max row × (same_node row.last target ≡ true)
      → IsRoute edges seed target max (route_of edges seed row)
  row-IsRoute seed target max row (w, e) = record {
    first = w.first;
    rest = w.rest;
    trail =
        subst (IsTrail (bidirectional_edges edges) seed w.first w.rest)
          (same_node→eq row.last target e) w.trail;
    nodes =
        ap (λ ns. seed ∷ ns)
          (ap (λ ids. node_sequence seed (ordered_edges edges ids)) w.path
            ∙ node_sequence-trail seed row.last (w.first ∷ w.rest) (w.trail.begins, w.trail.walk)
                (w.trail.stored.0, w.trail.stored.1));
    hops = w.hop;
    bounded = w.bounded;
  }

  -- The rows that match, each as a route.
  matching-IsRoute :
      (seed target : Node) (max : ℕ)
      → 1 ≤ max
      → All
          (λ row. IsRoute edges seed target max (route_of edges seed row))
          (matching edges seed target max)
  matching-IsRoute seed target max b = elim (Bool-cases (same_node seed target)) [
    | inl e ↦ rw e tt
    | inr e ↦ rw e (
        All-map
          (λ row.
            IsWalk (bidirectional_edges edges) seed max row × (same_node row.last target ≡ true))
          (λ row. IsRoute edges seed target max (route_of edges seed row))
          (keep (λ row. same_node row.last target) (enumerate_paths edges seed max))
          (row-IsRoute seed target max)
          (keep-All_both (IsWalk (bidirectional_edges edges) seed max)
            (λ row. same_node row.last target) (enumerate_paths edges seed max)
            (enumerate_paths-IsWalk edges seed max b)))
  ]

routes_asc :
    (edges : List GraphEdge) (seed : Node) (rows : List Row)
    → IsAscending (λ row. row.hop) rows
    → IsAscending (λ route. route.hops) (map (route_of edges seed) rows)
routes_asc edges seed [] h = tt
routes_asc edges seed (row ∷ rows) h = (
  map-All (λ route. row.hop ≤ route.hops) (route_of edges seed) rows h.0,
  routes_asc edges seed rows h.1,
)

-- What is returned: at most 20 routes from the seed to the target, the shortest ones first.
pub record IsAnswer (edges : List GraphEdge) (seed target : Node) (max : ℕ) (response : Response)
    : Type 0 where
  pub few : length response.paths ≤ 20
  pub shortest_first : IsAscending (λ route. route.hops) response.paths
  pub routes : All (IsRoute edges seed target max) response.paths
  pub within : (1 ≤ max) × (max ≤ 4)

response-IsAnswer :
    (edges : List GraphEdge) (seed target : Node) (max : ℕ)
    → IsKeyed edges
    → 1 ≤ max
    → max ≤ 4
    → IsAnswer edges seed target max
        (build_paths_response edges seed (matching edges seed target max))
unfolding build_paths_response
response-IsAnswer edges seed target max keyed low high =
    let rows = matching edges seed target max in
    let kept = take 20 (sort_asc (λ row. row.hop) rows) in
    record {
      few = omega (
        arith,
        length-map (route_of edges seed) kept,
        length-take 20 (sort_asc (λ row. row.hop) rows),
      );
      shortest_first = routes_asc edges seed kept (
          take-IsAscending (λ row. row.hop) 20 (sort_asc (λ row. row.hop) rows)
            (sort_asc-IsAscending (λ row. row.hop) rows));
      routes = map-All (IsRoute edges seed target max) (route_of edges seed) kept (
          take-All (λ row. IsRoute edges seed target max (route_of edges seed row)) 20
            (sort_asc (λ row. row.hop) rows)
            (sort_asc-All (λ row. row.hop)
              (λ row. IsRoute edges seed target max (route_of edges seed row)) rows
              (matching-IsRoute edges keyed seed target max low)));
      within = (low, high);
    }

valid_bounds :
    (seed target : Node) (max : ℕ) (u : Unit {0})
    → is_valid_query seed target max ≡ ok u
    → (1 ≤ max) × (max ≤ 4)
valid_bounds seed target max u h = ground arith

-- Where the ids of the edges are unique, what find_paths_between returns holds at most 20 routes of at
-- most max_hops hops, which is between 1 and 4, the shortest ones first; each is a walk along edges
-- of the graph from the one node to the other that enters no node twice, listed with its nodes in
-- order.
pub find_paths_between-IsAnswer :
    (edges : List GraphEdge) (seed target : Node) (max : ℕ) (response : Response)
    → IsKeyed edges
    → find_paths_between edges seed target max ≡ ok response
    → IsAnswer edges seed target max response
unfolding find_paths_between
find_paths_between-IsAnswer edges seed target max response keyed =
    elim (Result-cases (is_valid_query seed target max)) [
      | inl (e, f) ↦ rw (f, find_paths_between) (λ h. absurd (ground arith))
      | inr (u, f) ↦
          let bounds = valid_bounds seed target max u f in
          rw (f, find_paths_between)
            (λ h.
              let same : build_paths_response edges seed (matching edges seed target max)
                  ≡ response =
                ground arith in
              subst (IsAnswer edges seed target max) same
                (response-IsAnswer edges seed target max keyed bounds.0 bounds.1))
    ]
