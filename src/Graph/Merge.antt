-- ===== src/Graph/Merge.antt =====
-- What `upsert` of backend/app/engines/graph/client.py stores.
use mathlib.Core.Path.{subst}
use ai_powered_security_inve.Base.{
  String, true, ◌||◌, List, [], ◌∷◌, ◌≡◌, refl, if◌then◌else◌, ◌==◌, arith, eq_iff, eq_refl,
  Bool-cases, inl, inr,
}
use ai_powered_security_inve.Base.Dict.{lookup-insert}
use ai_powered_security_inve.Base.Sets.{add, any-append}
use ai_powered_security_inve.Graph.Client.{
  GraphTriple, GraphResult, InMemoryGraph, same, is_edge, add_edge, merge, stored, upsert,
  with_sorted_nodes,
}

pub same-≡ : (t u : GraphTriple) → same t u ≡ true → t ≡ u
same-≡ t u h =
    let a : t.src ≡ u.src = ground (arith, eq_iff t.src u.src) in
    let b : t.rel ≡ u.rel = ground (arith, eq_iff t.rel u.rel) in
    let c : t.dst ≡ u.dst = ground (arith, eq_iff t.dst u.dst) in
    λ i. record { src = a i; rel = b i; dst = c i }

is_edge-add_edge :
    (t u : GraphTriple) (edges : List GraphTriple)
    → is_edge t (add_edge u edges) ≡ (is_edge t edges || same u t)
is_edge-add_edge t u edges = elim (Bool-cases (is_edge u edges)) [
  | inr f ↦ ground (arith, any-append (λ e. same e t) edges (u ∷ []))
  | inl e ↦ elim (Bool-cases (same u t)) [
    | inr f ↦ ground arith
    | inl s ↦
        let there : is_edge t edges ≡ true = subst (λ x. is_edge x edges ≡ true) (same-≡ u t s) e in
        ground arith
  ]
]

edges-merge :
    (t : GraphTriple) (triples : List GraphTriple) (res : GraphResult)
    → is_edge t (merge triples res).edges ≡ (is_edge t res.edges || is_edge t triples)
unfolding merge
edges-merge t [] res = ground arith
edges-merge t (u ∷ triples) res = ground (
  arith,
  edges-merge t triples
      (record { nodes = add u.dst (add u.src res.nodes); edges = add_edge u res.edges }),
  is_edge-add_edge t u res.edges,
)

stored-upsert :
    (tenant u : String) (triples : List GraphTriple) (graph : InMemoryGraph)
    → stored u (upsert tenant triples graph).1
      ≡ (if tenant == u then (upsert tenant triples graph).0 else stored u graph)
unfolding stored upsert
stored-upsert tenant u triples graph =
    ground (
      arith,
      lookup-insert tenant u (with_sorted_nodes (merge triples (stored tenant graph))) graph,
    )

-- the edges of a tenant after its upsert
pub is_edge-upsert :
    (tenant : String) (t : GraphTriple) (triples : List GraphTriple) (graph : InMemoryGraph)
    → is_edge t (stored tenant (upsert tenant triples graph).1).edges
      ≡ (is_edge t (stored tenant graph).edges || is_edge t triples)
unfolding upsert
is_edge-upsert tenant t triples graph =
    let own : stored tenant (upsert tenant triples graph).1 ≡ (upsert tenant triples graph).0 =
      rw (stored-upsert tenant tenant triples graph) (rw (eq_refl tenant) refl) in
    rw own (edges-merge t triples (stored tenant graph))
