-- ===== src/Pcap/Topology/Build/Edges.antt =====
-- What an event does to an edge of internal/pcap/topology.go: its ends stay, and it counts one more.
use netobserv_spcg.Common.{
  ℕ, ◌+◌, ◌≡◌, refl, ◌∙◌, String, is_empty, Bool, true, false, List, Bool-cases, inl, inr, ltb,
  length,
}
use netobserv_spcg.Common.Int64.{ℤ, pos, ltb_ℤ}
use netobserv_spcg.Pcap.Frame.{FrameSummary}
use netobserv_spcg.Pcap.Meta.{FlowMeta, Formats}
use netobserv_spcg.Pcap.Topology.{TopologyEdge}
use netobserv_spcg.Pcap.Topology.Build.{
  EdgeAcc, with_frame, with_counters, with_srtt, with_drop_cause, with_drop_counts, with_state,
  with_step, max_steps, update_acc, finish_edge,
}

-- The edges have the same ends and the same count.
pub record IsSame (e f : TopologyEdge) : Type 0 where
  pub from : e.from ≡ f.from
  pub to : e.to ≡ f.to
  pub count : e.count ≡ f.count

same : {e : TopologyEdge} → IsSame e e
same = record { from = refl; to = refl; count = refl }

IsSame-trans : {e f g : TopologyEdge} → IsSame e f → IsSame f g → IsSame e g
IsSame-trans a b = record { from = a.from ∙ b.from; to = a.to ∙ b.to; count = a.count ∙ b.count }

with_srtt-IsSame : (srtt : ℤ) (acc : EdgeAcc) → IsSame (with_srtt srtt acc).edge acc.edge
unfolding with_srtt
with_srtt-IsSame srtt acc = elim (Bool-cases (ltb_ℤ (pos 0) srtt)) [
  | inl t ↦ rw t (record { from = refl; to = refl; count = refl })
  | inr t ↦ rw t same
]

with_drop_cause-IsSame : (drop : String) (e : TopologyEdge) → IsSame (with_drop_cause drop e) e
unfolding with_drop_cause
with_drop_cause-IsSame drop e = elim (Bool-cases (is_empty drop)) [
  | inl t ↦ rw t same
  | inr t ↦ rw t (record { from = refl; to = refl; count = refl })
]

with_drop_counts-IsSame :
    (dropped : Bool) (e : TopologyEdge) → IsSame (with_drop_counts dropped e) e
unfolding with_drop_counts
with_drop_counts-IsSame true e = record { from = refl; to = refl; count = refl }
with_drop_counts-IsSame false e = same

with_state-IsSame : (state : String) (e : TopologyEdge) → IsSame (with_state state e) e
unfolding with_state
with_state-IsSame state e = elim (Bool-cases (is_empty state)) [
  | inl t ↦ rw t same
  | inr t ↦ rw t (record { from = refl; to = refl; count = refl })
]

with_step-IsSame :
    (fs : FrameSummary) (flags : List String) (at : ℕ) (acc : EdgeAcc)
    → IsSame (with_step fs flags at acc).edge acc.edge
unfolding with_step
with_step-IsSame fs flags at acc = elim (Bool-cases (ltb (length acc.steps) max_steps)) [
  | inl t ↦ rw t same
  | inr t ↦ rw t same
]

counted : TopologyEdge → TopologyEdge
counted e = record e { count = e.count + 1 }

with_counters-IsSame :
    (fs : FrameSummary) (counters : ℕ × ℕ) (e : TopologyEdge)
    → IsSame (with_counters counters (with_frame fs e)) (counted e)
unfolding with_counters with_frame counted
with_counters-IsSame fs (bytes, packets) e = record { from = refl; to = refl; count = refl }

-- The edge after an event has the ends that it had, and counts one event more.
pub update_acc-IsSame :
    (fmt : Formats) (fs : FrameSummary) (meta : FlowMeta) (at : ℕ) (counters : ℕ × ℕ)
    (flags : List String) (acc : EdgeAcc)
    → (e : TopologyEdge) × (IsSame (update_acc fmt fs meta at counters flags acc).edge e)
      × (e.from ≡ acc.edge.from)
      × (e.to ≡ acc.edge.to)
      × (e.count ≡ acc.edge.count + 1)
unfolding update_acc counted
update_acc-IsSame fmt fs meta at counters flags acc = (
  counted acc.edge,
  IsSame-trans (with_step-IsSame fs flags at _) (
      IsSame-trans (with_state-IsSame _ _) (
        IsSame-trans (with_drop_counts-IsSame _ _) (
          IsSame-trans (with_drop_cause-IsSame _ _)
            (IsSame-trans (with_srtt-IsSame _ _) (with_counters-IsSame fs counters acc.edge))))),
  refl,
  refl,
  refl,
)

pub finish_edge-IsSame : (acc : EdgeAcc) → IsSame (finish_edge acc) acc.edge
unfolding finish_edge
finish_edge-IsSame acc = record { from = refl; to = refl; count = refl }
