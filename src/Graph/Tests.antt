-- ===== src/Graph/Tests.antt =====
-- A small graph: an alert that names a domain, which resolves to an address that a host contacted.
use ai_powered_security_inve.Base.{String, true, List, [], ◌∷◌, ◌≡◌, ◌↔◌, refl, any, arith}
use ai_powered_security_inve.Base.Dict.{insert, lookup}
use ai_powered_security_inve.Base.Sort.{sort}
use ai_powered_security_inve.Base.Sets.{is_in}
use ai_powered_security_inve.Graph.Client.{
  GraphTriple, InMemoryGraph, upsert, merge, stored, neighbors, neighbors_from, adjacency,
  adjacency_from, rounds, visit_nodes, visit_edges, clamp_depth, campaign, node_type, before_colon,
}
use ai_powered_security_inve.Graph.Adjacency.{touches}
use ai_powered_security_inve.Graph.Reach.{Within, neighbors-Within}
use ai_powered_security_inve.Graph.Cases.{Case, triple, write_graph, triples_of, shared-neighbors}
use ai_powered_security_inve.Schemas.Common.{malicious}
use ai_powered_security_inve.Investigation.State.{EnrichedIoc, ioc_key}
use ai_powered_security_inve.Base.Text.{lower}

abbrev triples : List GraphTriple
triples =
    triple "alert:1" "names" "domain:x.com"
    ∷ triple "domain:x.com" "resolves" "ip:1.2.3.4"
    ∷ triple "host:ws1" "contacted" "ip:1.2.3.4"
    ∷ []

abbrev graph : InMemoryGraph
unfolding upsert
graph = (upsert "acme" triples []).1

two_steps :
    (neighbors "acme" "alert:1" 2 graph).nodes ≡ "alert:1" ∷ "domain:x.com" ∷ "ip:1.2.3.4" ∷ []
unfolding graph neighbors neighbors_from adjacency adjacency_from rounds visit_nodes visit_edges
    merge stored sort lookup insert
two_steps = refl

alerts_found : (campaign "acme" "ip:1.2.3.4" 2 graph).alerts ≡ "alert:1" ∷ []
unfolding graph campaign node_type before_colon neighbors neighbors_from adjacency adjacency_from
    rounds visit_nodes visit_edges merge stored sort lookup insert
alerts_found = refl

neighbors-Within_example : (is_in "host:ws1" (neighbors "acme" "alert:1" 2 graph).nodes ≡ true) ↔ (
    (any (touches "alert:1") (stored "acme" graph).edges ≡ true)
    × Within (stored "acme" graph).edges (clamp_depth 2) "alert:1" "host:ws1")
neighbors-Within_example = neighbors-Within "acme" "alert:1" "host:ws1" 2 graph

abbrev seen_domain : EnrichedIoc
seen_domain = record {
  ioc = record { ioc_type = "domain"; value = "x.com" };
  verdict = malicious;
  sources = [];
}

abbrev case_of : String → List String → Case
case_of id hosts = record {
  source_alert_id = id;
  iocs = seen_domain ∷ [];
  affected_hosts = hosts;
  affected_users = [];
}

written :
    triples_of (case_of "7" ("ws1" ∷ []))
    ≡ triple "alert:7" "contains" "domain:x.com" ∷ triple "host:ws1" "affected_by" "alert:7" ∷ []
unfolding triples_of ioc_key lower
written = refl

shared-neighbors_example :
    is_in "alert:8"
      (neighbors "acme" "alert:7" 3 (
        write_graph "acme"
          (case_of "8" [])
          (write_graph "acme" (case_of "7" ("ws1" ∷ [])) graph))).nodes
    ≡ true
unfolding ioc_key lower
shared-neighbors_example =
    shared-neighbors "acme" "domain:x.com" (case_of "7" ("ws1" ∷ [])) (case_of "8" []) 3 graph
      (ground arith) refl refl
