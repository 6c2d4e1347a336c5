-- ===== src/Talos/PrePull/Records.antt =====
-- The records of a pre-pull: at most one for each node is read, the first.
use tuppr.Prelude.{
  String, Option, none, some, List, [], ◌∷◌, ◌≡◌, refl, inl, inr, str_eq, eq_iff, arith, Bool-cases,
  if◌then◌else◌,
}
use tuppr.Api.Talos.{PrePulledNode}
use tuppr.Talos.PrePull.{upsert_pre_pulled_node}

-- The first record for a node.
abbrev pub record_for : String → List PrePulledNode → Option PrePulledNode
record_for name [] = none
record_for name (r ∷ records) = if str_eq r.node_name name then some r else record_for name records

-- After upsertPrePulledNode the node of the entry has that entry, and every other node has the
-- record that it had.
pub upsert_pre_pulled_node-record_for :
    (name : String) (entry : PrePulledNode) (records : List PrePulledNode)
    → record_for name (upsert_pre_pulled_node records entry)
      ≡ (if str_eq entry.node_name name then some entry else record_for name records)
unfolding upsert_pre_pulled_node
upsert_pre_pulled_node-record_for name entry [] = refl
upsert_pre_pulled_node-record_for name entry (r ∷ records) =
    let ih = upsert_pre_pulled_node-record_for name entry records in
    elim (Bool-cases (str_eq r.node_name entry.node_name)) [
      | inl same ↦ rw same (
          ground (
            arith,
            eq_iff r.node_name entry.node_name,
            eq_iff r.node_name name,
            eq_iff entry.node_name name,
          ))
      | inr other ↦
          rw (other, ih)
            (ground (
              arith,
              eq_iff r.node_name entry.node_name,
              eq_iff r.node_name name,
              eq_iff entry.node_name name,
            ))
    ]
