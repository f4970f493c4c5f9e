-- ===== src/Graph/Adjacency.antt =====
-- What the adjacency of backend/app/engines/graph/client.py has at a node, and what a round of the
-- search over it visits.
use ai_powered_security_inve.Base.{
  String, Bool, not, ◌&&◌, ◌||◌, List, [], ◌∷◌, ◌++◌, ◌≡◌, ◌==◌, any, arith, eq_iff,
}
use ai_powered_security_inve.Base.Dict.{Dict, contains, lookup-insert}
use ai_powered_security_inve.Base.Sets.{is_in, is_in-add, any-append}
use ai_powered_security_inve.Graph.Client.{
  GraphTriple, add_edge, edges_at, append_at, adjacency_from, Search, visit_end, visit_edge,
  visit_edges, visit_nodes,
}

abbrev pub touches : String → GraphTriple → Bool
touches n t = t.src == n || t.dst == n

-- an edge has both nodes at its ends
abbrev pub linked : List GraphTriple → String → String → Bool
linked edges a b = any (λ t. touches a t && touches b t) edges

any-append_at :
    (p : GraphTriple → Bool) (n k : String) (t : GraphTriple) (adj : Dict (List GraphTriple))
    → any p (edges_at n (append_at k t adj)) ≡ (any p (edges_at n adj) || (k == n && p t))
any-append_at p n k t adj = ground (
  arith,
  eq_iff k n,
  lookup-insert k n (edges_at k adj ++ t ∷ []) adj,
  any-append p (edges_at k adj) (t ∷ []),
)

pub any-adjacency :
    (p : GraphTriple → Bool) (n : String) (edges : List GraphTriple) (adj : Dict (List GraphTriple))
    → any p (edges_at n (adjacency_from edges adj))
      ≡ (any p (edges_at n adj) || any (λ t. touches n t && p t) edges)
unfolding adjacency_from
any-adjacency p n [] adj = ground arith
any-adjacency p n (t ∷ edges) adj = ground (
  arith,
  any-adjacency p n edges (append_at t.dst t (append_at t.src t adj)),
  any-append_at p n t.dst t (append_at t.src t adj),
  any-append_at p n t.src t adj,
)

contains-append_at :
    (n k : String) (t : GraphTriple) (adj : Dict (List GraphTriple))
    → contains n (append_at k t adj) ≡ (contains n adj || k == n)
contains-append_at n k t adj = ground (arith, lookup-insert k n (edges_at k adj ++ t ∷ []) adj)

pub contains-adjacency :
    (n : String) (edges : List GraphTriple) (adj : Dict (List GraphTriple))
    → contains n (adjacency_from edges adj) ≡ (contains n adj || any (touches n) edges)
unfolding adjacency_from
contains-adjacency n [] adj = ground arith
contains-adjacency n (t ∷ edges) adj = ground (
  arith,
  contains-adjacency n edges (append_at t.dst t (append_at t.src t adj)),
  contains-append_at n t.dst t (append_at t.src t adj),
  contains-append_at n t.src t adj,
)

-- a node is in the set after the visit if it was or is one of the ends; it is in the next frontier if it
-- was or is one of the ends and new
pub record IsVisit (s after : Search) (m : String) (is_end : Bool) : Type 0 where
  pub seen : is_in m after.seen_nodes ≡ (is_in m s.seen_nodes || is_end)
  pub queued : is_in m after.next ≡ (is_in m s.next || (is_end && not (is_in m s.seen_nodes)))

visit_end-IsVisit : (end m : String) (s : Search) → IsVisit s (visit_end end s) m (end == m)
visit_end-IsVisit end m s = record {
  seen = ground (arith, eq_iff end m, is_in-add end m s.seen_nodes);
  queued = ground (arith, eq_iff end m, is_in-add end m s.next);
}

IsVisit-trans :
    (a b c : Search) (m : String) (e f : Bool)
    → IsVisit a b m e
    → IsVisit b c m f
    → IsVisit a c m (e || f)
IsVisit-trans a b c m e f v w = record {
  seen = ground (arith, v.seen, w.seen);
  queued = ground (arith, v.seen, v.queued, w.queued);
}

visit_edge-IsVisit :
    (edge : GraphTriple) (m : String) (s : Search)
    → IsVisit s (visit_edge edge s) m (touches m edge)
visit_edge-IsVisit edge m s =
    let start : Search = record s { seen_edges = add_edge edge s.seen_edges } in
    let v : IsVisit start (visit_edge edge s) m (touches m edge) =
      IsVisit-trans start (visit_end edge.src start) (visit_edge edge s) m (edge.src == m)
        (edge.dst == m) (visit_end-IsVisit edge.src m start)
        (visit_end-IsVisit edge.dst m (visit_end edge.src start)) in
    record { seen = v.seen; queued = v.queued }

visit_edges-IsVisit :
    (edges : List GraphTriple) (m : String) (s : Search)
    → IsVisit s (visit_edges edges s) m (any (touches m) edges)
unfolding visit_edges
visit_edges-IsVisit [] m s = record { seen = ground arith; queued = ground arith }
visit_edges-IsVisit (edge ∷ edges) m s =
    IsVisit-trans s (visit_edge edge s) (visit_edges edges (visit_edge edge s)) m (touches m edge)
      (any (touches m) edges) (visit_edge-IsVisit edge m s)
      (visit_edges-IsVisit edges m (visit_edge edge s))

-- a round visits the ends of the edges at the nodes of the frontier
pub visit_nodes-IsVisit :
    (adj : Dict (List GraphTriple)) (frontier : List String) (m : String) (s : Search)
    → IsVisit s
        (visit_nodes adj frontier s)
        m
        (any (λ n. any (touches m) (edges_at n adj)) frontier)
unfolding visit_nodes
visit_nodes-IsVisit adj [] m s = record { seen = ground arith; queued = ground arith }
visit_nodes-IsVisit adj (n ∷ frontier) m s =
    IsVisit-trans s (visit_edges (edges_at n adj) s)
      (visit_nodes adj frontier (visit_edges (edges_at n adj) s)) m
      (any (touches m) (edges_at n adj)) (any (λ k. any (touches m) (edges_at k adj)) frontier)
      (visit_edges-IsVisit (edges_at n adj) m s)
      (visit_nodes-IsVisit adj frontier m (visit_edges (edges_at n adj) s))
