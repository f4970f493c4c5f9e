-- ===== src/Graph/Campaigns.antt =====
-- What `campaign` of backend/app/engines/graph/client.py reports of the neighbours of a seed.
use ai_powered_security_inve.Base.{ℕ, String, Bool, not, ◌&&◌, List, ◌≡◌, ◌∙◌, ◌==◌, keep}
use ai_powered_security_inve.Base.Sets.{is_in, any-sort, is_in-keep}
use ai_powered_security_inve.Graph.Client.{InMemoryGraph, neighbors, campaign, is_alert, text_order}

-- The nodes within the depth are parted: the alerts among them, and what is neither an alert nor the
-- seed.
pub campaign_outcome :
    (tenant node m : String) (depth : ℕ) (graph : InMemoryGraph)
    → (is_in m (campaign tenant node depth graph).alerts
        ≡ (is_alert m && is_in m (neighbors tenant node depth graph).nodes))
      × (is_in m (campaign tenant node depth graph).related_entities ≡ (
          (not (m == node) && not (is_alert m))
          && is_in m (neighbors tenant node depth graph).nodes))
unfolding campaign
campaign_outcome tenant node m depth graph =
    let nodes : List String = (neighbors tenant node depth graph).nodes in
    let is_related : String → Bool = λ n. not (n == node) && not (is_alert n) in
    (
      any-sort (λ n. n == m) text_order (keep is_alert nodes) ∙ is_in-keep is_alert m nodes,
      any-sort (λ n. n == m) text_order (keep is_related nodes) ∙ is_in-keep is_related m nodes,
    )
