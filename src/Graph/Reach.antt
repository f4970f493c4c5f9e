-- ===== src/Graph/Reach.antt =====
-- `neighbors` of backend/app/engines/graph/client.py finds what is within the depth.
use mathlib.Core.Path.{subst}
use ai_powered_security_inve.Base.{
  ℕ, zero, suc, String, true, false, not, ◌&&◌, ◌||◌, List, [], ◌∷◌, ◌≡◌, ◌⊎◌, ◌↔◌, inl, inr, refl,
  sym, ap, if◌then◌else◌, ◌==◌, any, arith, eq_iff, eq_refl, Bool-cases, &&-true,
}
use ai_powered_security_inve.Base.Dict.{lookup, contains}
use ai_powered_security_inve.Base.Sort.{sort}
use ai_powered_security_inve.Base.Sets.{is_in, any_congr, any-found, is_in-any, any-sort}
use ai_powered_security_inve.Graph.Client.{
  GraphTriple, edges_at, adjacency_from, adjacency, InMemoryGraph, stored, Search, visit_nodes,
  rounds, clamp_depth, neighbors, neighbors_from, text_order, edge_order, no_result,
}
use ai_powered_security_inve.Graph.Adjacency.{
  touches, linked, any-adjacency, contains-adjacency, IsVisit, visit_nodes-IsVisit,
}

-- `b` is at most `d` edges away from `a`.
pub data Within (edges : List GraphTriple) : ℕ → String → String → Type 0 where
  here : (d : ℕ) (a : String) → Within edges d a a
  step :
      (d : ℕ) (a b c : String)
      → linked edges a b ≡ true
      → Within edges d b c
      → Within edges (suc d) a c

module _ (edges : List GraphTriple) where
  abbrev pub round_of : Search → Search
  round_of s = visit_nodes (adjacency_from edges []) s.next (record s { next = [] })

  edges_at-linked :
      (n m : String) → any (touches m) (edges_at n (adjacency_from edges [])) ≡ linked edges n m
  unfolding lookup
  edges_at-linked n m = any-adjacency (touches m) n edges []

  round-IsVisit :
      (m : String) (s : Search)
      → (is_in m (round_of s).seen_nodes
          ≡ (is_in m s.seen_nodes || any (λ n. linked edges n m) s.next))
        × (is_in m (round_of s).next
            ≡ (any (λ n. linked edges n m) s.next && not (is_in m s.seen_nodes)))
  round-IsVisit m s =
      let start : Search = record s { next = [] } in
      let v : IsVisit start (round_of s) m
          (any (λ n. any (touches m) (edges_at n (adjacency_from edges []))) s.next) =
        visit_nodes-IsVisit (adjacency_from edges []) s.next m start in
      let e : any (λ n. any (touches m) (edges_at n (adjacency_from edges []))) s.next
          ≡ any (λ n. linked edges n m) s.next =
        any_congr (λ n. any (touches m) (edges_at n (adjacency_from edges [])))
          (λ n. linked edges n m) s.next (λ n. edges_at-linked n m) in
      (ground (arith, v.seen, e), ground (arith, v.queued, e))

  rounds_at_end :
      (left : ℕ) (s : Search)
      → rounds (adjacency_from edges []) left (record s { next = [] }) ≡ record s { next = [] }
  unfolding rounds visit_nodes
  rounds_at_end zero s = refl
  rounds_at_end (suc left) s = refl

  rounds_done : (left : ℕ) (s : Search) → s.next ≡ [] → rounds (adjacency_from edges []) left s ≡ s
  rounds_done left s e =
      let at_end : Search = record s { next = [] } in
      let same : at_end ≡ s = ap (λ n. record s { next = n }) (sym e) in
      subst (λ z. rounds (adjacency_from edges []) left z ≡ z) same (rounds_at_end left s)

  rounds_step :
      (left : ℕ) (s : Search)
      → rounds (adjacency_from edges []) (suc left) s
        ≡ rounds (adjacency_from edges []) left (round_of s)
  unfolding rounds
  rounds_step left s = unless_done (round_of s).next refl
    where
      unless_done :
          (next : List String)
          → (round_of s).next ≡ next
          → (elim next [
            | [] ↦ round_of s
            | ◌∷◌ _ _ ↦ rounds (adjacency_from edges []) left (round_of s)
          ])
            ≡ rounds (adjacency_from edges []) left (round_of s)
      unless_done [] e = sym (rounds_done left (round_of s) e)
      unless_done (n ∷ ns) e = refl

  -- The neighbours of a node outside the frontier are in the set.
  abbrev IsClosed : Search → Type 0
  IsClosed s =
      (n m : String)
      → is_in n s.seen_nodes ≡ true
      → linked edges n m ≡ true
      → (is_in n s.next || is_in m s.seen_nodes) ≡ true

  round-IsClosed : (s : Search) → IsClosed s → IsClosed (round_of s)
  round-IsClosed s h n m i l =
      let a : is_in n (round_of s).seen_nodes
          ≡ (is_in n s.seen_nodes || any (λ k. linked edges k n) s.next) =
        (round-IsVisit n s).0 in
      let b : is_in m (round_of s).seen_nodes
          ≡ (is_in m s.seen_nodes || any (λ k. linked edges k m) s.next) =
        (round-IsVisit m s).0 in
      let c : (is_in n (round_of s).next
          ≡ (any (λ k. linked edges k n) s.next && not (is_in n s.seen_nodes))) =
        (round-IsVisit n s).1 in
      let d : is_in n s.next ≡ true → any (λ k. linked edges k m) s.next ≡ true =
        λ e. is_in-any (λ k. linked edges k m) n s.next e l in
      elim (Bool-cases (is_in n s.seen_nodes)) [
        | inl t ↦
            let e : (is_in n s.next || is_in m s.seen_nodes) ≡ true = h n m t l in ground (arith, d)
        | inr f ↦ ground arith
      ]

  -- the set only grows
  rounds_grows :
      (left : ℕ) (m : String) (s : Search)
      → is_in m s.seen_nodes ≡ true
      → is_in m (rounds (adjacency_from edges []) left s).seen_nodes ≡ true
  unfolding rounds
  rounds_grows zero m s h = h
  rounds_grows (suc left) m s h =
      rw rounds_step (rounds_grows left m (round_of s) (rw (round-IsVisit m s).0 (rw h refl)))

  -- a neighbour of a node in the set is in the set after a round
  found_next :
      (n m : String) (s : Search)
      → IsClosed s
      → is_in n s.seen_nodes ≡ true
      → linked edges n m ≡ true
      → is_in m (round_of s).seen_nodes ≡ true
  found_next n m s h i l = rw (round-IsVisit m s).0 (elim (Bool-cases (is_in n s.next)) [
    | inl t ↦
        let e : any (λ k. linked edges k m) s.next ≡ true =
          is_in-any (λ k. linked edges k m) n s.next t l in
        ground arith
    | inr f ↦ let e : (is_in n s.next || is_in m s.seen_nodes) ≡ true = h n m i l in ground arith
  ])

  -- what is within the rounds that are left of a node in the set is found
  finds_all :
      (left : ℕ) (n m : String) (s : Search)
      → IsClosed s
      → is_in n s.seen_nodes ≡ true
      → Within edges left n m
      → is_in m (rounds (adjacency_from edges []) left s).seen_nodes ≡ true
  finds_all left n m s h i (here d a) = rounds_grows d a s i
  finds_all left n m s h i (step d a b c l w) =
      rw rounds_step (finds_all d b c (round_of s) (round-IsClosed s h) (found_next a b s h i l) w)

  abbrev Found : ℕ → String → Search → Type 0
  Found left m s =
      (is_in m s.seen_nodes ≡ true)
      ⊎ ((n : String) × (is_in n s.next ≡ true) × Within edges left n m)

  -- a node that is in the set after a round
  visited :
      (left : ℕ) (m : String) (s : Search)
      → is_in m (round_of s).seen_nodes ≡ true
      → Found (suc left) m s
  visited left m s i = elim (Bool-cases (is_in m s.seen_nodes)) [
    | inl t ↦ inl t
    | inr f ↦
        let e : (is_in m s.seen_nodes || any (λ n. linked edges n m) s.next) ≡ true =
          rw⁻¹ (round-IsVisit m s).0 i in
        let (n, j, l) : (n : String) × (is_in n s.next ≡ true) × (linked edges n m ≡ true) =
          any-found (λ n. linked edges n m) s.next (ground arith) in
        inr (n, j, step left n m m l (here left m))
  ]

  -- nothing else is found
  finds_only :
      (left : ℕ) (m : String) (s : Search)
      → is_in m (rounds (adjacency_from edges []) left s).seen_nodes ≡ true
      → Found left m s
  unfolding rounds
  finds_only zero m s h = inl h
  finds_only (suc left) m s h =
      elim (finds_only left m (round_of s)
        (subst (λ r. is_in m r.seen_nodes ≡ true) (rounds_step left s) h)) [
          | inl i ↦ visited left m s i
          | inr (n, i, w) ↦
              let e : (any (λ k. linked edges k n) s.next && not (is_in n s.seen_nodes)) ≡ true =
                rw⁻¹ (round-IsVisit n s).1 i in
              let (k, j, l) : (k : String) × (is_in k s.next ≡ true) × (linked edges k n ≡ true) =
                any-found (λ k. linked edges k n) s.next (ground arith) in
              inr (k, j, step left k n m l w)
        ]

  abbrev start : String → Search
  start node = record { seen_nodes = node ∷ []; seen_edges = []; next = node ∷ [] }

  start-IsClosed : (node : String) → IsClosed (start node)
  start-IsClosed node n m i l = ground arith

  rounds-Within :
      (left : ℕ) (node m : String)
      → (is_in m (rounds (adjacency_from edges []) left (start node)).seen_nodes ≡ true)
        ↔ Within edges left node m
  rounds-Within left node m = (
    λ i. elim (finds_only left m (start node) i) [
      | inl j ↦ subst (λ z. Within edges left node z) (sole node m j) (here left node)
      | inr (n, j, w) ↦ subst (λ z. Within edges left z m) (sym (sole node n j)) w
    ],
    finds_all left node m (start node) (start-IsClosed node) (ground (arith, eq_refl node)),
  )
    where
      sole : (a b : String) → is_in b (a ∷ []) ≡ true → a ≡ b
      sole a b h = (eq_iff a b).0 (ground arith)

  is_in-neighbors :
      (node m : String) (depth : ℕ)
      → is_in m (neighbors_from (adjacency_from edges []) node depth).nodes ≡ (
          any (touches node) edges
          && is_in m (rounds (adjacency_from edges []) (clamp_depth depth) (start node)).seen_nodes)
  unfolding neighbors_from lookup
  is_in-neighbors node m depth =
      let c : contains node (adjacency_from edges []) ≡ any (touches node) edges =
        contains-adjacency node edges [] in
      let found : List String =
        (rounds (adjacency_from edges []) (clamp_depth depth) (start node)).seen_nodes in
      rw c
        (elim (any (touches node) edges)
          as (λ b.
            is_in m
              (if not b then no_result else record {
                nodes = sort text_order found;
                edges =
                    sort edge_order
                      (rounds (adjacency_from edges []) (clamp_depth depth)
                        (start node)).seen_edges;
              }).nodes
            ≡ (b && is_in m found)) [
              | true ↦ any-sort (λ n. n == m) text_order found
              | false ↦ refl
            ])

-- The neighbours of a node of the graph up to a depth are exactly the nodes that are at most so many
-- edges away, the depth taken between 1 and 6; a node that no edge touches has none.
pub neighbors-Within :
    (tenant node m : String) (depth : ℕ) (graph : InMemoryGraph)
    → (is_in m (neighbors tenant node depth graph).nodes ≡ true) ↔ (
        (any (touches node) (stored tenant graph).edges ≡ true)
        × Within (stored tenant graph).edges (clamp_depth depth) node m)
unfolding neighbors adjacency
neighbors-Within tenant node m depth graph =
    let edges : List GraphTriple = (stored tenant graph).edges in
    let e : is_in m (neighbors tenant node depth graph).nodes ≡ (
        any (touches node) edges
        && is_in m
            (rounds (adjacency_from edges []) (clamp_depth depth) (start edges node)).seen_nodes) =
      is_in-neighbors edges node m depth in
    let reached : (is_in m
            (rounds (adjacency_from edges []) (clamp_depth depth) (start edges node)).seen_nodes
          ≡ true)
        ↔ Within edges (clamp_depth depth) node m =
      rounds-Within edges (clamp_depth depth) node m in
    (
      λ i.
          let (a, b) : (any (touches node) edges ≡ true)
              × (is_in m
                    (rounds (adjacency_from edges []) (clamp_depth depth)
                      (start edges node)).seen_nodes
                  ≡ true) =
            &&-true _ _ (rw⁻¹ e i) in
          (a, reached.0 b),
      λ (a, w). rw e (rw a (reached.1 w)),
    )
