-- ===== src/Graph/Client.antt =====
-- `InMemoryGraph` of backend/app/engines/graph/client.py: the writes, and the neighbours of a node. A set
-- is a list of its elements, in the order in which they were added; a depth below 1 is given as 0.
use Prim.Native.String.{compare}
use Prim.Native.Char.{code}
use text.Mathlib.Text.{is_le}
use ai_powered_security_inve.Base.{
  ℕ, zero, suc, min, max, String, Option, none, some, Bool, not, ◌&&◌, List, [], ◌∷◌, ◌++◌,
  if◌then◌else◌, ◌==◌, any, keep, eqb,
}
use ai_powered_security_inve.Base.Dict.{Dict, lookup, insert, contains}
use ai_powered_security_inve.Base.Sets.{is_in, add}
use ai_powered_security_inve.Base.Sort.{sort}

-- `_MAX_DEPTH`
abbrev pub max_depth : ℕ
max_depth = 6

pub record GraphTriple : Type 0 where
  pub src : String
  pub rel : String
  pub dst : String

pub record GraphResult : Type 0 where
  pub nodes : List String
  pub edges : List GraphTriple

pub record CampaignResult : Type 0 where
  pub seed : String
  pub alerts : List String
  pub related_entities : List String
  pub subgraph : GraphResult

abbrev pub no_result : GraphResult
no_result = record { nodes = []; edges = [] }

-- `self._store`
abbrev pub InMemoryGraph : Type 0
InMemoryGraph = Dict GraphResult

abbrev pub same : GraphTriple → GraphTriple → Bool
same t u = t.src == u.src && t.rel == u.rel && t.dst == u.dst

-- `t in existing`
abbrev pub is_edge : GraphTriple → List GraphTriple → Bool
is_edge t = any (λ u. same u t)

abbrev pub add_edge : GraphTriple → List GraphTriple → List GraphTriple
add_edge t edges = if is_edge t edges then edges else edges ++ t ∷ []

-- the first part of a text before a colon, none where it has no colon
unfoldable pub before_colon : String → Option String
before_colon String.[] = none
before_colon (String.◌∷◌ c s) =
    let rest = before_colon s in
    if eqb (code c) 58 then some "" else elim rest [ none ↦ none | some w ↦ some (String.◌∷◌ c w) ]

abbrev pub type_or_entity : Option String → String
type_or_entity none = "entity"
type_or_entity (some kind) = kind

unfoldable pub node_type : String → String
node_type key = type_or_entity (before_colon key)

-- `_clamp_depth`
abbrev pub clamp_depth : ℕ → ℕ
clamp_depth depth = max 1 (min depth max_depth)

abbrev pub text_order : String → String → Bool
text_order a b = is_le (compare a b)

-- the sort key `(e.src, e.dst, e.rel)`
abbrev pub edge_order : GraphTriple → GraphTriple → Bool
edge_order a b =
    if a.src == b.src
    then if a.dst == b.dst then text_order a.rel b.rel else text_order a.dst b.dst
    else text_order a.src b.src

abbrev pub or_no_result : Option GraphResult → GraphResult
or_no_result none = no_result
or_no_result (some res) = res

-- `self._store.get(tenant, GraphResult())`
unfoldable pub stored : String → InMemoryGraph → GraphResult
stored tenant graph = or_no_result (lookup tenant graph)

-- the loop of `upsert`
unfoldable pub merge : List GraphTriple → GraphResult → GraphResult
merge [] res = res
merge (t ∷ triples) res =
    merge triples (record { nodes = add t.dst (add t.src res.nodes); edges = add_edge t res.edges })

abbrev pub with_sorted_nodes : GraphResult → GraphResult
with_sorted_nodes res = record res { nodes = sort text_order res.nodes }

unfoldable pub upsert : String → List GraphTriple → InMemoryGraph → GraphResult × InMemoryGraph
upsert tenant triples graph =
    let res = with_sorted_nodes (merge triples (stored tenant graph)) in
    (res, insert tenant res graph)

abbrev pub or_none : Option (List GraphTriple) → List GraphTriple
or_none none = []
or_none (some edges) = edges

-- `adj.get(n, [])`
abbrev pub edges_at : String → Dict (List GraphTriple) → List GraphTriple
edges_at n adj = or_none (lookup n adj)

-- `adj.setdefault(n, []).append(t)`
abbrev pub append_at : String → GraphTriple → Dict (List GraphTriple) → Dict (List GraphTriple)
append_at n t adj = insert n (edges_at n adj ++ t ∷ []) adj

-- the loop of `_adjacency`
unfoldable pub adjacency_from : List GraphTriple → Dict (List GraphTriple) → Dict (List GraphTriple)
adjacency_from [] adj = adj
adjacency_from (t ∷ edges) adj = adjacency_from edges (append_at t.dst t (append_at t.src t adj))

unfoldable pub adjacency : String → InMemoryGraph → Dict (List GraphTriple)
adjacency tenant graph = adjacency_from (stored tenant graph).edges []

-- `seen_nodes`, `seen_edges` and `nxt`
pub record Search : Type 0 where
  pub seen_nodes : List String
  pub seen_edges : List GraphTriple
  pub next : List String

abbrev pub visit_end : String → Search → Search
visit_end end s =
    if is_in end s.seen_nodes
    then s
    else record s { seen_nodes = add end s.seen_nodes; next = add end s.next }

abbrev pub visit_edge : GraphTriple → Search → Search
visit_edge edge s =
    visit_end edge.dst (visit_end edge.src (record s { seen_edges = add_edge edge s.seen_edges }))

unfoldable pub visit_edges : List GraphTriple → Search → Search
visit_edges [] s = s
visit_edges (edge ∷ edges) s = visit_edges edges (visit_edge edge s)

module _ (adj : Dict (List GraphTriple)) where
  -- one round over the frontier
  unfoldable pub visit_nodes : List String → Search → Search
  visit_nodes [] s = s
  visit_nodes (n ∷ frontier) s = visit_nodes frontier (visit_edges (edges_at n adj) s)

  -- the rounds that are left
  unfoldable pub rounds : ℕ → Search → Search
  rounds zero s = s
  rounds (suc left) s =
      let after = visit_nodes s.next (record s { next = [] }) in
      let rest = rounds left after in elim after.next [ [] ↦ after | ◌∷◌ _ _ ↦ rest ]

  unfoldable pub neighbors_from : String → ℕ → GraphResult
  neighbors_from node depth =
      let found =
        rounds (clamp_depth depth)
          (record { seen_nodes = node ∷ []; seen_edges = []; next = node ∷ [] }) in
      if not (contains node adj) then no_result else record {
        nodes = sort text_order found.seen_nodes;
        edges = sort edge_order found.seen_edges;
      }

unfoldable pub neighbors : String → String → ℕ → InMemoryGraph → GraphResult
neighbors tenant node depth graph = neighbors_from (adjacency tenant graph) node depth

abbrev pub is_alert : String → Bool
is_alert n = node_type n == "alert"

unfoldable pub campaign : String → String → ℕ → InMemoryGraph → CampaignResult
campaign tenant node depth graph =
    let sub = neighbors tenant node depth graph in
    record {
      seed = node;
      alerts = sort text_order (keep is_alert sub.nodes);
      related_entities =
          sort text_order (keep (λ n. not (n == node) && not (is_alert n)) sub.nodes);
      subgraph = sub;
    }
