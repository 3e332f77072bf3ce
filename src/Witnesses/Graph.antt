-- ===== src/Witnesses/Graph.antt =====
-- backend/app/graph/queries.py on an asset, a technology that it uses, and another asset that uses it.
use cyberlab_kali.Base.{
  ℕ, ◌≤◌, ◌≡◌, refl, inl, inr, subst, ◌==◌, find, text_eq, elem, List, [], ◌∷◌, length, codes,
  Occurs, All, some, ok, arith, sort_asc, insert_asc, Bool,
}
use cyberlab_kali.Graph.{
  Node, GraphEdge, Hop, Row, key_text, bidirectional_edges, first_rows, next_rows, rounds,
  enumerate_paths, add_found, ordered_edges, node_sequence, build_paths_response, Response,
  find_paths_between,
}
use cyberlab_kali.Graph.Walks.{IsTrail, IsWalk, edges_of}
use cyberlab_kali.Graph.Paths.{
  all_rounds, enumerate_paths-exact, IsKeyed, IsAnswer, find_paths_between-IsAnswer,
}

graph : Unit {0}
unfolding find_paths_between enumerate_paths rounds next_rows first_rows bidirectional_edges
    key_text text_eq elem build_paths_response ordered_edges add_found node_sequence sort_asc
    insert_asc
graph = tt

abbrev web : Node
web = record { kind = codes "ASSET"; id = codes "1" }

abbrev php : Node
php = record { kind = codes "TECHNOLOGY"; id = codes "php" }

abbrev shop : Node
shop = record { kind = codes "ASSET"; id = codes "2" }

abbrev uses : ℕ → Node → GraphEdge
uses id asset = record {
  id = id;
  source_node = asset;
  target_node = php;
  relation = codes "USES_TECHNOLOGY";
}

abbrev edges : List GraphEdge
edges = uses 1 web ∷ uses 2 shop ∷ []

edges-IsKeyed : IsKeyed edges
edges-IsKeyed e (inl s) = subst (λ x. find (λ y. y.id == x.id) edges ≡ some x) s refl
edges-IsKeyed e (inr (inl s)) = subst (λ x. find (λ y. y.id == x.id) edges ≡ some x) s refl
edges-IsKeyed e (inr (inr o)) = elim o [ ]

abbrev answer : Response
answer = record {
  truncated = Bool.false;
  paths = record { hops = 2; nodes = web ∷ php ∷ shop ∷ []; edges = edges } ∷ [];
}

found : find_paths_between edges web shop 4 ≡ ok answer
unfolding graph
found = refl

find_paths_between-IsAnswer_example : IsAnswer edges web shop 4 answer
find_paths_between-IsAnswer_example =
    find_paths_between-IsAnswer edges web shop 4 answer edges-IsKeyed found

few_rows : length (all_rounds edges web 4) ≤ 2000
unfolding graph
few_rows = omega arith

enumerate_paths-exact_example :
    All (IsWalk (bidirectional_edges edges) web 4) (enumerate_paths edges web 4)
    × ((first : Hop)
        → (rest : List Hop) → (target : Node)
        → IsTrail (bidirectional_edges edges) web first rest target
        → length (first ∷ rest) ≤ 4
        → (row : Row) × Occurs row (enumerate_paths edges web 4)
          × (row.last ≡ target)
          × (row.path_edge_ids ≡ edges_of (first ∷ rest)))
enumerate_paths-exact_example = enumerate_paths-exact edges web 4 (omega arith) few_rows
