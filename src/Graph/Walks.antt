-- ===== src/Graph/Walks.antt =====
-- The rows that the recursive query gives are exactly the walks of bounded length that enter no node
-- twice: each row is one, and each one is a row.
use cyberlab_kali.Base.{
  ℕ, zero, suc, ◌+◌, ◌≤◌, ◌≡◌, ◌∙◌, refl, sym, ap, subst, Bool, true, false, not, ◌&&◌, &&-eq-true,
  List, [], ◌∷◌, ◌++◌, map, length, length-append, Text, text_eq, text_eq→eq, text_eq_refl, elem,
  flat_map, keep, keep-All_both, All, All-append, All-map, Occurs, All-Occurs, Occurs-left,
  Occurs-right, Occurs-keep, Occurs-map, Occurs-flat_map, map-All, flat_map-All, arith,
}
use cyberlab_kali.Graph.{
  Node, Hop, Row, key_text, same_node, first_row, first_rows, next_row, extends, next_rows, rounds,
}

-- A walk from one node to another: each hop starts where the one before ended.
abbrev pub Walks : Node → List Hop → Node → Type 0
Walks n [] m = n ≡ m
Walks n (h ∷ rest) m = (h.before ≡ n) × Walks h.after rest m

-- No hop enters a node that was seen before it.
unfoldable pub is_fresh : List Text → List Hop → Bool
is_fresh seen [] = true
is_fresh seen (h ∷ rest) =
    not (elem (key_text h.after) seen) && is_fresh (seen ++ (key_text h.after ∷ [])) rest

abbrev pub entered : List Hop → List Text
entered trail = map (λ h. key_text h.after) trail

abbrev pub edges_of : List Hop → List ℕ
edges_of trail = map (λ h. h.edge) trail

-- A walk of at least one hop along the edges, which enters no node again; the first hop alone may lead
-- back to the seed.
pub record IsTrail (hops : List Hop) (seed : Node) (first : Hop) (rest : List Hop) (target : Node)
    : Type 0 where
  pub begins : first.before ≡ seed
  pub walk : Walks first.after rest target
  pub stored : Occurs first hops × All (λ h. Occurs h hops) rest
  pub fresh : is_fresh (key_text seed ∷ key_text first.after ∷ []) rest ≡ true

-- The row describes such a walk, of at most `max` hops.
pub record IsWalk (hops : List Hop) (seed : Node) (max : ℕ) (row : Row) : Type 0 where
  pub first : Hop
  pub rest : List Hop
  pub trail : IsTrail hops seed first rest row.last
  pub path : row.path_edge_ids ≡ edges_of (first ∷ rest)
  pub seen : row.visited ≡ key_text seed ∷ entered (first ∷ rest)
  pub hop : row.hop ≡ length (first ∷ rest)
  pub bounded : row.hop ≤ max

pub same_node→eq : (a b : Node) → same_node a b ≡ true → a ≡ b
same_node→eq a b h =
    let parts = &&-eq-true (text_eq a.kind b.kind) (text_eq a.id b.id) h in
    let kinds = text_eq→eq a.kind b.kind parts.0 in
    let ids = text_eq→eq a.id b.id parts.1 in ground (arith, kinds, ids)

pub same_node_refl : (a : Node) → same_node a a ≡ true
same_node_refl a = ground (arith, text_eq_refl a.kind, text_eq_refl a.id)

Walks-snoc :
    (n m : Node) (rest : List Hop) (h : Hop)
    → Walks n rest m
    → h.before ≡ m
    → Walks n (rest ++ (h ∷ [])) h.after
Walks-snoc n m [] h w e = (e ∙ sym w, refl)
Walks-snoc n m (g ∷ rest) h w e = (w.0, Walks-snoc g.after m rest h w.1 e)

append_assoc_one :
    {A : Type 0} (seen : List A) (t : A) (rest : List A)
    → (seen ++ (t ∷ [])) ++ rest ≡ seen ++ (t ∷ rest)
append_assoc_one [] t rest = refl
append_assoc_one (s ∷ seen) t rest = ap (λ xs. s ∷ xs) (append_assoc_one seen t rest)

append_nil : {A : Type 0} (xs : List A) → xs ++ [] ≡ xs
append_nil [] = refl
append_nil (x ∷ xs) = ap (λ ys. x ∷ ys) (append_nil xs)

is_fresh-snoc :
    (seen : List Text) (rest : List Hop) (h : Hop)
    → is_fresh seen rest ≡ true
    → elem (key_text h.after) (seen ++ entered rest) ≡ false
    → is_fresh seen (rest ++ (h ∷ [])) ≡ true
unfolding is_fresh
is_fresh-snoc seen [] h f e =
    let here : elem (key_text h.after) seen ≡ false =
      ap (λ xs. elem (key_text h.after) xs) (sym (append_nil seen)) ∙ e in
    rw here refl
is_fresh-snoc seen (g ∷ rest) h f e =
    let parts =
      &&-eq-true (not (elem (key_text g.after) seen))
        (is_fresh (seen ++ (key_text g.after ∷ [])) rest) f in
    let later = is_fresh-snoc (seen ++ (key_text g.after ∷ [])) rest h parts.1 (
      ap (λ xs. elem (key_text h.after) xs)
        (append_assoc_one seen (key_text g.after) (entered rest))
      ∙ e) in
    rw (parts.0, later) refl

map-append {ℓ} :
    {B : Type ℓ} (f : Hop → B) (xs ys : List Hop) → map f (xs ++ ys) ≡ map f xs ++ map f ys
map-append f [] ys = refl
map-append f (x ∷ xs) ys = ap (λ zs. f x ∷ zs) (map-append f xs ys)

module _ (hops : List Hop) (seed : Node) (max : ℕ) where
  first_row-IsWalk :
      (h : Hop)
      → 1 ≤ max
      → Occurs h hops × (same_node h.before seed ≡ true)
      → IsWalk hops seed max (first_row seed h)
  first_row-IsWalk h b (o, e) = record {
    first = h;
    rest = [];
    trail = record {
      begins = same_node→eq h.before seed e;
      walk = refl;
      stored = (o, tt);
      fresh = unfold is_fresh in refl;
    };
    path = refl;
    seen = refl;
    hop = refl;
    bounded = b;
  }

  pub first_rows-IsWalk : 1 ≤ max → All (IsWalk hops seed max) (first_rows seed hops)
  unfolding first_rows
  first_rows-IsWalk b =
      map-All (IsWalk hops seed max) (first_row seed) (keep (λ h. same_node h.before seed) hops) (
        All-map (λ h. Occurs h hops × (same_node h.before seed ≡ true))
          (λ h. IsWalk hops seed max (first_row seed h)) (keep (λ h. same_node h.before seed) hops)
          (λ h both. first_row-IsWalk h b both)
          (keep-All_both (λ h. Occurs h hops) (λ h. same_node h.before seed) hops
            (All-Occurs hops)))

  next_row-IsWalk :
      (t : Row) (h : Hop)
      → IsWalk hops seed max t
      → Occurs h hops × (extends max t h ≡ true)
      → IsWalk hops seed max (next_row t h)
  next_row-IsWalk t h w (o, e) =
      let from_last : same_node h.before t.last ≡ true = ground arith in
      let below : t.hop + 1 ≤ max = ground arith in
      let new : elem (key_text h.after) t.visited ≡ false = ground arith in
      let trail = w.rest ++ (h ∷ []) in
      record {
        first = w.first;
        rest = trail;
        trail = record {
          begins = w.trail.begins;
          walk =
              Walks-snoc w.first.after t.last w.rest h w.trail.walk
                (same_node→eq h.before t.last from_last);
          stored = (
            w.trail.stored.0,
            All-append (λ g. Occurs g hops) w.rest (h ∷ []) w.trail.stored.1 (o, tt),
          );
          fresh =
              is_fresh-snoc (key_text seed ∷ key_text w.first.after ∷ []) w.rest h w.trail.fresh
                (ap (λ xs. elem (key_text h.after) xs) (sym w.seen) ∙ new);
        };
        path =
            ap (λ xs. xs ++ (h.edge ∷ [])) w.path
            ∙ ap (λ xs. w.first.edge ∷ xs) (sym (map-append (λ g. g.edge) w.rest (h ∷ [])));
        seen =
            ap (λ xs. xs ++ (key_text h.after ∷ [])) w.seen
            ∙ ap (λ xs. key_text seed ∷ key_text w.first.after ∷ xs)
                (sym (map-append (λ g. key_text g.after) w.rest (h ∷ [])));
        hop = omega (arith, w.hop, length-append w.rest (h ∷ []));
        bounded = below;
      }

  next_rows-IsWalk :
      (t : Row) → IsWalk hops seed max t → All (IsWalk hops seed max) (next_rows max hops t)
  unfolding next_rows
  next_rows-IsWalk t w = map-All (IsWalk hops seed max) (next_row t) (keep (extends max t) hops) (
      All-map (λ h. Occurs h hops × (extends max t h ≡ true))
        (λ h. IsWalk hops seed max (next_row t h)) (keep (extends max t) hops)
        (λ h both. next_row-IsWalk t h w both)
        (keep-All_both (λ h. Occurs h hops) (extends max t) hops (All-Occurs hops)))

  pub rounds-IsWalk :
      (fuel : ℕ) (rows : List Row)
      → All (IsWalk hops seed max) rows
      → All (IsWalk hops seed max) (rounds fuel max hops rows)
  unfolding rounds
  rounds-IsWalk zero rows all = all
  rounds-IsWalk (suc fuel) rows all =
      All-append (IsWalk hops seed max) rows
        (rounds fuel max hops (flat_map (next_rows max hops) rows)) all
        (rounds-IsWalk fuel (flat_map (next_rows max hops) rows) (
          flat_map-All (IsWalk hops seed max) (next_rows max hops) rows (
            All-map (IsWalk hops seed max) (λ t. All (IsWalk hops seed max) (next_rows max hops t))
              rows next_rows-IsWalk all)))

  step_extends :
      (t : Row) (h : Hop) (rest : List Hop)
      → h.before ≡ t.last
      → is_fresh t.visited (h ∷ rest) ≡ true
      → t.hop + length (h ∷ rest) ≤ max
      → extends max t h ≡ true
  unfolding is_fresh
  step_extends t h rest e f m =
      let here : same_node h.before t.last ≡ true =
        subst (λ n. same_node n t.last ≡ true) (sym e) (same_node_refl t.last) in
      let new =
        &&-eq-true (not (elem (key_text h.after) t.visited))
          (is_fresh (t.visited ++ (key_text h.after ∷ [])) rest) f in
      rw (here, new.0) (ground arith)

  later_fresh :
      (t : Row) (h : Hop) (rest : List Hop)
      → is_fresh t.visited (h ∷ rest) ≡ true
      → is_fresh (t.visited ++ (key_text h.after ∷ [])) rest ≡ true
  unfolding is_fresh
  later_fresh t h rest f =
      (&&-eq-true (not (elem (key_text h.after) t.visited))
        (is_fresh (t.visited ++ (key_text h.after ∷ [])) rest) f).1

  next_rows-has :
      (t : Row) (h : Hop)
      → Occurs h hops
      → extends max t h ≡ true
      → Occurs (next_row t h) (next_rows max hops t)
  unfolding next_rows
  next_rows-has t h o e =
      Occurs-map (next_row t) h (keep (extends max t) hops) (Occurs-keep (extends max t) h hops e o)

  -- The row of a walk that is continued from a row is in a later round.
  pub rounds-reach :
      (rest : List Hop) (fuel : ℕ) (rows : List Row) (t : Row) (target : Node)
      → Occurs t rows
      → Walks t.last rest target
      → All (λ h. Occurs h hops) rest
      → is_fresh t.visited rest ≡ true
      → length rest ≤ fuel
      → t.hop + length rest ≤ max
      → (row : Row) × Occurs row (rounds fuel max hops rows)
        × (row.last ≡ target)
        × (row.path_edge_ids ≡ t.path_edge_ids ++ edges_of rest)
  unfolding rounds
  rounds-reach [] zero rows t target o w s f b m = (t, o, w, sym (append_nil t.path_edge_ids))
  rounds-reach [] (suc fuel) rows t target o w s f b m =
      (t, Occurs-left t rows _ o, w, sym (append_nil t.path_edge_ids))
  rounds-reach (h ∷ rest) zero rows t target o w s f b m = absurd (omega arith)
  rounds-reach (h ∷ rest) (suc fuel) rows t target o w s f b m =
      let next = flat_map (next_rows max hops) rows in
      let (row, there, end, path) =
        rounds-reach rest fuel next (next_row t h) target
          (Occurs-flat_map (next_rows max hops) t (next_row t h) rows
            (next_rows-has t h s.0 (step_extends t h rest w.0 f m)) o)
          w.1 s.1 (later_fresh t h rest f) (omega (arith, b)) (omega (arith, m)) in
      (
        row,
        Occurs-right row rows (rounds fuel max hops next) there,
        end,
        path ∙ append_assoc_one t.path_edge_ids h.edge (edges_of rest),
      )

  -- Each walk that starts at the seed, of at most `max` hops and with no node entered twice, is a row.
  pub rounds_complete :
      (first : Hop) (rest : List Hop) (target : Node)
      → IsTrail hops seed first rest target
      → length (first ∷ rest) ≤ max
      → (row : Row) × Occurs row (rounds max max hops (first_rows seed hops))
        × (row.last ≡ target)
        × (row.path_edge_ids ≡ edges_of (first ∷ rest))
  unfolding first_rows
  rounds_complete first rest target trail b =
      rounds-reach rest max (first_rows seed hops) (first_row seed first) target
        (Occurs-map (first_row seed) first (keep (λ h. same_node h.before seed) hops) (
          Occurs-keep (λ h. same_node h.before seed) first hops
            (subst (λ n. same_node n seed ≡ true) (sym trail.begins) (same_node_refl seed))
            trail.stored.0))
        trail.walk trail.stored.1 trail.fresh (omega (arith, b)) (omega (arith, b))
