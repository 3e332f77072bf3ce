-- ===== src/Graph.antt =====
-- backend/app/graph/queries.py: what is near a node of the security graph, and the paths from it. The
-- recursive query
-- of PostgreSQL is written out: each round of it extends the rows of the round before.
pub mod Walks
pub mod Paths
use cyberlab_kali.Base.{
  ℕ, zero, suc, ◌+◌, ◌==◌, ltb, leb, if◌then◌else◌, Bool, true, false, not, ◌&&◌, ◌||◌, any, find,
  Option, none, some, List, [], ◌∷◌, ◌++◌, map, length, take, Text, codes, text_eq, elem, flat_map,
  keep, sort_asc, Result, ok, err,
}

pub record Node : Type 0 where
  pub kind : Text
  pub id : Text

-- backend/app/models/graph_edge.py, without the columns that only a reader sees.
pub record GraphEdge : Type 0 where
  pub id : ℕ
  pub source_node : Node
  pub target_node : Node
  pub relation : Text

-- A row of `bidirectional_edges`.
pub record Hop : Type 0 where
  pub edge : ℕ
  pub before : Node
  pub after : Node

-- A row of `traversal`.
pub record Row : Type 0 where
  pub last : Node
  pub hop : ℕ
  pub path_edge_ids : List ℕ
  pub visited : List Text

abbrev pub valid_node_types : List Text
valid_node_types =
    codes "ASSET" ∷ codes "FINDING" ∷ codes "CVE" ∷ codes "SERVICE" ∷ codes "TECHNOLOGY" ∷ []

abbrev pub max_attack_path_hops : ℕ
max_attack_path_hops = 4

abbrev pub max_attack_paths : ℕ
max_attack_paths = 20

-- `type || ':' || id`
unfoldable pub key_text : Node → Text
key_text n = n.kind ++ (codes ":" ++ n.id)

abbrev pub same_node : Node → Node → Bool
same_node a b = text_eq a.kind b.kind && text_eq a.id b.id

abbrev pub forward : GraphEdge → Hop
forward e = record { edge = e.id; before = e.source_node; after = e.target_node }

abbrev pub backward : GraphEdge → Hop
backward e = record { edge = e.id; before = e.target_node; after = e.source_node }

unfoldable pub bidirectional_edges : List GraphEdge → List Hop
bidirectional_edges edges = map forward edges ++ map backward edges

-- The first part of the query.
abbrev pub first_row : Node → Hop → Row
first_row seed h = record {
  last = h.after;
  hop = 1;
  path_edge_ids = h.edge ∷ [];
  visited = key_text seed ∷ key_text h.after ∷ [];
}

unfoldable pub first_rows : Node → List Hop → List Row
first_rows seed hops = map (first_row seed) (keep (λ h. same_node h.before seed) hops)

-- The second part of the query, for one row of the round before.
abbrev pub next_row : Row → Hop → Row
next_row t h = record {
  last = h.after;
  hop = t.hop + 1;
  path_edge_ids = t.path_edge_ids ++ (h.edge ∷ []);
  visited = t.visited ++ (key_text h.after ∷ []);
}

abbrev pub extends : (max_depth : ℕ) → Row → Hop → Bool
extends max_depth t h =
    same_node h.before t.last && (ltb t.hop max_depth && not (elem (key_text h.after) t.visited))

unfoldable pub next_rows : (max_depth : ℕ) → List Hop → Row → List Row
next_rows max_depth hops t = map (next_row t) (keep (extends max_depth t) hops)

-- The rounds, of which `fuel` is a bound. A round that adds nothing is the last one.
unfoldable pub rounds : (fuel max_depth : ℕ) → List Hop → List Row → List Row
unfolding next_rows
rounds zero max_depth hops rows = rows
rounds (suc fuel) max_depth hops rows =
    rows ++ rounds fuel max_depth hops (flat_map (next_rows max_depth hops) rows)

-- `_enumerate_paths`, with the limit on its rows in the order of the rounds.
unfoldable pub enumerate_paths : List GraphEdge → Node → (max_hops : ℕ) → List Row
unfolding first_rows rounds bidirectional_edges
enumerate_paths edges seed max_hops =
    let hops = bidirectional_edges edges in
    take 2000 (rounds max_hops max_hops hops (first_rows seed hops))

pub record Route : Type 0 where
  pub hops : ℕ
  pub nodes : List Node
  pub edges : List GraphEdge

pub record Response : Type 0 where
  pub truncated : Bool
  pub paths : List Route

-- `[edges_by_id[eid] for eid in path_edge_ids if eid in edges_by_id]`
unfoldable pub add_found : Option GraphEdge → List GraphEdge → List GraphEdge
add_found none rest = rest
add_found (some e) rest = e ∷ rest

unfoldable pub ordered_edges : List GraphEdge → List ℕ → List GraphEdge
unfolding add_found
ordered_edges edges [] = []
ordered_edges edges (eid ∷ rest) =
    add_found (find (λ e. e.id == eid) edges) (ordered_edges edges rest)

-- The endpoint of the edge that is not the current node.
abbrev pub next_node : Node → GraphEdge → Node
next_node current e = if same_node current e.source_node then e.target_node else e.source_node

unfoldable pub node_sequence : Node → List GraphEdge → List Node
node_sequence current [] = []
node_sequence current (e ∷ rest) = next_node current e ∷ node_sequence (next_node current e) rest

abbrev pub route_of : List GraphEdge → Node → Row → Route
route_of edges seed row = record {
  hops = row.hop;
  nodes = seed ∷ node_sequence seed (ordered_edges edges row.path_edge_ids);
  edges = ordered_edges edges row.path_edge_ids;
}

-- `_build_paths_response`, without the labels of the nodes.
unfoldable pub build_paths_response : List GraphEdge → Node → List Row → Response
unfolding ordered_edges node_sequence
build_paths_response edges seed matching_rows = record {
  truncated = ltb max_attack_paths (length matching_rows);
  paths =
      map (route_of edges seed) (take max_attack_paths (sort_asc (λ row. row.hop) matching_rows));
}

pub data QueryError : Type 0 where
  unknown_node_type invalid_depth : QueryError

abbrev pub is_valid_query : Node → Node → (max_hops : ℕ) → Result QueryError (Unit {0})
is_valid_query seed target max_hops =
    if not (elem seed.kind valid_node_types)
    then err unknown_node_type
    else if not (elem target.kind valid_node_types)
    then err unknown_node_type
    else if ltb max_hops 1 || ltb max_attack_path_hops max_hops
    then err invalid_depth
    else ok tt

abbrev pub matching : List GraphEdge → (seed target : Node) → (max_hops : ℕ) → List Row
matching edges seed target max_hops =
    if same_node seed target
    then []
    else keep (λ row. same_node row.last target) (enumerate_paths edges seed max_hops)

unfoldable pub find_paths_between :
    List GraphEdge → (seed target : Node) → (max_hops : ℕ) → Result QueryError Response
unfolding enumerate_paths build_paths_response
find_paths_between edges seed target max_hops = elim (is_valid_query seed target max_hops) [
  | err e ↦ err e
  | ok u ↦ ok (build_paths_response edges seed (matching edges seed target max_hops))
]

-- Which of the rows end at another asset that is critical; `critical` answers the query on assets.
abbrev pub matching_critical :
    (critical : Text → Bool) → List GraphEdge → (seed : Node) → (max_hops : ℕ) → List Row
matching_critical critical edges seed max_hops =
    keep
      (λ row.
        text_eq row.last.kind (codes "ASSET")
        && (not (same_node row.last seed) && critical row.last.id))
      (enumerate_paths edges seed max_hops)

unfoldable pub find_paths_to_critical_assets :
    (critical : Text → Bool)
    → List GraphEdge
    → (seed : Node) → (max_hops : ℕ) → Result QueryError Response
unfolding enumerate_paths build_paths_response
find_paths_to_critical_assets critical edges seed max_hops =
    elim (is_valid_query seed seed max_hops) [
      | err e ↦ err e
      | ok u ↦ ok (build_paths_response edges seed (matching_critical critical edges seed max_hops))
    ]

-- The edge by which the row was reached.
abbrev pub is_last_edge : ℕ → List ℕ → Bool
is_last_edge id [] = false
is_last_edge id (e ∷ []) = e == id
is_last_edge id (e ∷ f ∷ rest) = is_last_edge id (f ∷ rest)

-- The nodes, of which one may stand in the list more than once, without their labels.
pub record LocalGraph : Type 0 where
  pub nodes : List Node
  pub edges : List GraphEdge

abbrev pub max_graph_depth : ℕ
max_graph_depth = 3

abbrev pub neighbours : List GraphEdge → Node → (depth : ℕ) → List GraphEdge
neighbours edges seed depth =
    let hops = bidirectional_edges edges in
    let rows = rounds depth depth hops (first_rows seed hops) in
    keep (λ e. any (λ row. is_last_edge e.id row.path_edge_ids) rows) edges

abbrev pub graph_of : Node → List GraphEdge → LocalGraph
graph_of seed near = record {
  nodes = seed ∷ flat_map (λ e. e.source_node ∷ e.target_node ∷ []) near;
  edges = near;
}

unfoldable pub local_graph : List GraphEdge → Node → (depth : ℕ) → Result QueryError LocalGraph
unfolding first_rows rounds bidirectional_edges
local_graph edges seed depth =
    if not (elem seed.kind valid_node_types)
    then err unknown_node_type
    else if ltb depth 1 || ltb max_graph_depth depth
    then err invalid_depth
    else ok (graph_of seed (neighbours edges seed depth))
