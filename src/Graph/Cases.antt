-- ===== src/Graph/Cases.antt =====
-- `_write_graph` of backend/app/agents/loop.py, and how two investigations meet in the graph.
use Prim.Native.String.{◌++◌ as cat}
use mathlib.Core.Path.{subst}
use ai_powered_security_inve.Base.{
  ℕ, suc, ◌-◌, ◌≤◌, String, Bool, true, false, ◌||◌, List, [], ◌∷◌, ◌++◌, map, ◌≡◌, if◌then◌else◌,
  ◌==◌, any, arith, eq_refl, Bool-cases, inl, inr,
}
use ai_powered_security_inve.Base.Sets.{is_in, any-append}
use ai_powered_security_inve.Investigation.State.{EnrichedIoc, ioc_key}
use ai_powered_security_inve.Graph.Client.{
  GraphTriple, InMemoryGraph, same, is_edge, upsert, stored, neighbors, clamp_depth,
}
use ai_powered_security_inve.Graph.Adjacency.{touches, linked}
use ai_powered_security_inve.Graph.Reach.{Within, here, step, neighbors-Within}
use ai_powered_security_inve.Graph.Merge.{is_edge-upsert}

-- what `_write_graph` reads of a package
pub record Case : Type 0 where
  pub source_alert_id : String
  pub iocs : List EnrichedIoc
  pub affected_hosts : List String
  pub affected_users : List String

abbrev pub triple : String → String → String → GraphTriple
triple src rel dst = record { src = src; rel = rel; dst = dst }

abbrev pub alert_node : Case → String
alert_node pkg = cat "alert:" pkg.source_alert_id

abbrev pub contains_triple : Case → EnrichedIoc → GraphTriple
contains_triple pkg e = triple (alert_node pkg) "contains" (ioc_key e.ioc)

unfoldable pub triples_of : Case → List GraphTriple
triples_of pkg =
    map (contains_triple pkg) pkg.iocs
    ++ map (λ h. triple (cat "host:" h) "affected_by" (alert_node pkg)) pkg.affected_hosts
    ++ map (λ u. triple (cat "user:" u) "received" (alert_node pkg)) pkg.affected_users

abbrev pub is_none : {A : Type 0} → List A → Bool
is_none [] = true
is_none (_ ∷ _) = false

-- `_write_graph`
unfoldable pub write_graph : String → Case → InMemoryGraph → InMemoryGraph
write_graph tenant pkg graph =
    if is_none (triples_of pkg) then graph else (upsert tenant (triples_of pkg) graph).1

-- the edges of a tenant after a case was written
is_edge-write_graph :
    (tenant : String) (t : GraphTriple) (pkg : Case) (graph : InMemoryGraph)
    → is_edge t (stored tenant (write_graph tenant pkg graph)).edges
      ≡ (is_edge t (stored tenant graph).edges || is_edge t (triples_of pkg))
unfolding write_graph
is_edge-write_graph tenant t pkg graph = by_cases (triples_of pkg)
  where
    by_cases :
        (triples : List GraphTriple)
        → is_edge t
            (stored tenant
              (if is_none triples then graph else (upsert tenant triples graph).1)).edges
          ≡ (is_edge t (stored tenant graph).edges || is_edge t triples)
    by_cases [] = ground arith
    by_cases (x ∷ xs) = is_edge-upsert tenant t (x ∷ xs) graph

contains-is_edge :
    (pkg : Case) (key : String) (es : List EnrichedIoc)
    → is_in key (map (λ (e : EnrichedIoc). ioc_key e.ioc) es) ≡ true
    → is_edge (triple (alert_node pkg) "contains" key) (map (contains_triple pkg) es) ≡ true
contains-is_edge pkg key [] h = cc
contains-is_edge pkg key (e ∷ es) h =
    ground (arith, contains-is_edge pkg key es, eq_refl (alert_node pkg), eq_refl "contains")

is_edge-triples_of :
    (pkg : Case) (key : String)
    → is_in key (map (λ (e : EnrichedIoc). ioc_key e.ioc) pkg.iocs) ≡ true
    → is_edge (triple (alert_node pkg) "contains" key) (triples_of pkg) ≡ true
unfolding triples_of
is_edge-triples_of pkg key h =
    let t : GraphTriple = triple (alert_node pkg) "contains" key in
    let hosts : List GraphTriple =
      map (λ name. triple (cat "host:" name) "affected_by" (alert_node pkg)) pkg.affected_hosts in
    let users : List GraphTriple =
      map (λ name. triple (cat "user:" name) "received" (alert_node pkg)) pkg.affected_users in
    let contained : List GraphTriple = map (contains_triple pkg) pkg.iocs in
    ground (
      arith,
      any-append (λ u. same u t) (contained ++ hosts) users,
      any-append (λ u. same u t) contained hosts,
      contains-is_edge pkg key pkg.iocs h,
    )

-- an edge links its ends
is_edge-linked :
    (src rel dst : String) (edges : List GraphTriple)
    → is_edge (triple src rel dst) edges ≡ true
    → (linked edges src dst ≡ true)
      × (linked edges dst src ≡ true)
      × (any (touches src) edges ≡ true)
is_edge-linked src rel dst [] h = cc
is_edge-linked src rel dst (u ∷ edges) h = elim (Bool-cases (same u (triple src rel dst))) [
  | inl s ↦
      let a : (u.src == src) ≡ true = ground arith in
      let b : (u.dst == dst) ≡ true = ground arith in (ground arith, ground arith, ground arith)
  | inr f ↦
      let rest : (linked edges src dst ≡ true)
          × (linked edges dst src ≡ true)
          × (any (touches src) edges ≡ true) =
        is_edge-linked src rel dst edges (ground arith) in
      (ground (arith, rest.0), ground (arith, rest.1), ground (arith, rest.2))
]

-- Two investigations of a tenant that have an indicator in common meet in the graph: from the alert of
-- one the neighbours to a depth of two or more have the alert of the other.
pub shared-neighbors :
    (tenant key : String) (first second : Case) (depth : ℕ) (graph : InMemoryGraph)
    → 2 ≤ depth
    → is_in key (map (λ (e : EnrichedIoc). ioc_key e.ioc) first.iocs) ≡ true
    → is_in key (map (λ (e : EnrichedIoc). ioc_key e.ioc) second.iocs) ≡ true
    → is_in
        (alert_node second)
        (neighbors tenant
          (alert_node first)
          depth
          (write_graph tenant second (write_graph tenant first graph))).nodes
      ≡ true
shared-neighbors tenant key first second depth graph d h k =
    let after : InMemoryGraph = write_graph tenant first graph in
    let a : String = alert_node first in
    let b : String = alert_node second in
    let edges : List GraphTriple = (stored tenant (write_graph tenant second after)).edges in
    let one : is_edge (triple a "contains" key) edges ≡ true = ground (
      arith,
      is_edge-write_graph tenant (triple a "contains" key) second after,
      is_edge-write_graph tenant (triple a "contains" key) first graph,
      is_edge-triples_of first key h,
    ) in
    let two : is_edge (triple b "contains" key) edges ≡ true = ground (
      arith,
      is_edge-write_graph tenant (triple b "contains" key) second after,
      is_edge-triples_of second key k,
    ) in
    let rounds_left : ℕ = clamp_depth depth - 2 in
    let clamped : suc (suc rounds_left) ≡ clamp_depth depth = ground arith in
    let path : Within edges (suc (suc rounds_left)) a b =
      step (suc rounds_left) a key b (is_edge-linked a "contains" key edges one).0 (
        step rounds_left key b b (is_edge-linked b "contains" key edges two).1
          (here rounds_left b)) in
    (neighbors-Within tenant a b depth (write_graph tenant second after)).1
      ((is_edge-linked a "contains" key edges one).2, subst (λ n. Within edges n a b) clamped path)
