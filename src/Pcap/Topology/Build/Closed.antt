-- ===== src/Pcap/Topology/Build/Closed.antt =====
-- The graph that `BuildFlowTopology` of internal/pcap/topology.go returns: both ends of every edge
-- are among its nodes, and its edges count every flow once.
use mathlib.Core.Option.{some-injective}
use netobserv_spcg.Common.{
  ℕ, ◌+◌, ◌≡◌, refl, sym, ap, ◌∙◌, String, String-discrete, ◌&&◌, List, [], ◌∷◌, Option, some, none,
  map, if◌then◌else◌, ◌>>=◌, Elem-map, map-Elem, sum_by, Bool-cases, inl, inr, arith, bind-eq-some,
}
use netobserv_spcg.Common.Maps.{Map, lookup, insert, lookup-insert_self, lookup-insert_ne}
use netobserv_spcg.Common.Maps.Entries.{
  AllEntries, insert-AllEntries, lookup-Elem, sum_of, sum_of-insert, value_or,
}
use netobserv_spcg.Common.Sort.{Elem-sort_slice, sort_slice-Elem, sort_slice-sum_by}
use netobserv_spcg.Pcap.Frame.{FrameSummary}
use netobserv_spcg.Pcap.Meta.{FlowMeta, Formats, flow_counters}
use netobserv_spcg.Pcap.Session.{TrackedPod, FlowEvent}
use netobserv_spcg.Pcap.Topology.{TopologyNode, TopologyEdge, FlowTopology}
use netobserv_spcg.Pcap.Topology.Limit.Kept.{HasNode, IsClosed}
use netobserv_spcg.Pcap.Topology.Nodes.{resolve_flow_endpoints, is_node}
use netobserv_spcg.Pcap.Topology.Build.{
  EdgeKey, EdgeKey-discrete, EdgeAcc, acc_or_new, Builder, empty_builder, read_frame, read_flags,
  update_acc, add_flow, add_between, add_event, add_events, finish_edge, finish_topology,
  build_flow_topology,
}
use netobserv_spcg.Pcap.Topology.Build.Edges.{update_acc-IsSame, finish_edge-IsSame}
use netobserv_spcg.Pcap.Topology.Build.Returns.{AreReadable, add_events-Returns}

-- A node of the id has been met.
abbrev IsMet : Map String TopologyNode → String → Type 0
IsMet nodes id = (n : TopologyNode) × (lookup String-discrete id nodes ≡ some n)

insert-IsMet :
    (nodes : Map String TopologyNode) (k : String) (n : TopologyNode) (id : String)
    → IsMet nodes id
    → IsMet (insert String-discrete k n nodes) id
insert-IsMet nodes k n id (m, e) = elim (String-discrete k id) [
  | yes q ↦ (n, rw (← q) (lookup-insert_self String-discrete k n nodes))
  | no ne ↦ (m, lookup-insert_ne String-discrete k id n nodes ne ∙ e)
]

-- The edge joins the two nodes of its key, and both have been met.
pub record Joins (nodes : Map String TopologyNode) (k : EdgeKey) (acc : EdgeAcc) : Type 0 where
  pub from : acc.edge.from ≡ k.0
  pub to : acc.edge.to ≡ k.1
  pub met_from : IsMet nodes k.0
  pub met_to : IsMet nodes k.1

pub record IsSound (b : Builder) : Type 0 where
  pub keyed : AllEntries String-discrete (λ id n. n.id ≡ id) b.node_map
  pub joined : AllEntries EdgeKey-discrete (Joins b.node_map) b.edges

acc_or_new-ends :
    (from to proto : String) (o : Option EdgeAcc)
    → ((acc : EdgeAcc) → o ≡ some acc → (acc.edge.from ≡ from) × (acc.edge.to ≡ to))
    → ((acc_or_new from to proto o).edge.from ≡ from) × ((acc_or_new from to proto o).edge.to ≡ to)
acc_or_new-ends from to proto none h = (refl, refl)
acc_or_new-ends from to proto (some acc) h = h acc refl

abbrev count_of : EdgeAcc → ℕ
count_of acc = acc.edge.count

acc_or_new-count :
    (from to proto : String) (o : Option EdgeAcc)
    → count_of (acc_or_new from to proto o) ≡ value_or EdgeKey-discrete count_of 0 o
acc_or_new-count from to proto none = refl
acc_or_new-count from to proto (some acc) = refl

module _ (fmt : Formats) where
  add_flow-IsSound :
      (ev : FlowEvent FlowMeta) (fs : FrameSummary) (counters : ℕ × ℕ) (flags : List String)
      (from to : TopologyNode) (b : Builder)
      → IsSound b
      → IsSound (add_flow fmt ev fs counters flags from to b)
  unfolding add_flow
  add_flow-IsSound ev fs counters flags from to b h =
      let key : EdgeKey = (from.id, to.id) in
      let old = lookup EdgeKey-discrete key b.edges in
      let acc = acc_or_new from.id to.id fs.proto old in
      let nodes1 = insert String-discrete from.id from b.node_map in
      let nodes = insert String-discrete to.id to nodes1 in
      let (e, same, e_from, e_to, _) =
        update_acc-IsSame fmt fs ev.flow_meta ev.time counters flags acc in
      let ends = acc_or_new-ends from.id to.id fs.proto old (λ a q.
        let j = h.joined (key, a) (lookup-Elem EdgeKey-discrete key a b.edges q) in
        (j.from, j.to)) in
      record {
        keyed =
            insert-AllEntries String-discrete (λ id n. n.id ≡ id) to.id to nodes1
              (insert-AllEntries String-discrete (λ id n. n.id ≡ id) from.id from b.node_map h.keyed
                refl)
              refl;
        joined =
            insert-AllEntries EdgeKey-discrete (Joins nodes) key _ b.edges
              (λ x m.
                let j = h.joined x m in
                record {
                  from = j.from;
                  to = j.to;
                  met_from =
                      insert-IsMet nodes1 to.id to _
                        (insert-IsMet b.node_map from.id from _ j.met_from);
                  met_to =
                      insert-IsMet nodes1 to.id to _
                        (insert-IsMet b.node_map from.id from _ j.met_to);
                })
              (record {
                from = same.from ∙ (e_from ∙ ends.0);
                to = same.to ∙ (e_to ∙ ends.1);
                met_from =
                    insert-IsMet nodes1 to.id to from.id
                      (from, lookup-insert_self String-discrete from.id from b.node_map);
                met_to = (to, lookup-insert_self String-discrete to.id to nodes1);
              });
      }

  add_flow-count :
      (ev : FlowEvent FlowMeta) (fs : FrameSummary) (counters : ℕ × ℕ) (flags : List String)
      (from to : TopologyNode) (b : Builder)
      → sum_of EdgeKey-discrete count_of (add_flow fmt ev fs counters flags from to b).edges
        ≡ sum_of EdgeKey-discrete count_of b.edges + 1
  unfolding add_flow
  add_flow-count ev fs counters flags from to b =
      let key : EdgeKey = (from.id, to.id) in
      let old = lookup EdgeKey-discrete key b.edges in
      let acc = acc_or_new from.id to.id fs.proto old in
      let (e, same, _, _, e_count) =
        update_acc-IsSame fmt fs ev.flow_meta ev.time counters flags acc in
      let added =
        sum_of-insert EdgeKey-discrete count_of key
          (update_acc fmt fs ev.flow_meta ev.time counters flags acc) b.edges in
      let before = acc_or_new-count from.id to.id fs.proto old in
      omega (arith, added, before, same.count, e_count)

  -- Whether an event is a flow: both of its ends are known.
  abbrev pub is_flow : Option (TopologyNode × TopologyNode) → ℕ
  is_flow none = 0
  is_flow (some (from, to)) = if is_node from && is_node to then 1 else 0

  abbrev pub count_flows : List TrackedPod → List (FlowEvent FlowMeta) → ℕ
  count_flows tracked [] = 0
  count_flows tracked (ev ∷ events) =
      is_flow (resolve_flow_endpoints fmt ev tracked) + count_flows tracked events

  add_between-IsSound :
      (ev : FlowEvent FlowMeta) (fs : FrameSummary) (b b' : Builder)
      (ends : TopologyNode × TopologyNode)
      → add_between fmt ev fs b ends ≡ some b'
      → IsSound b
      → IsSound b'
        × (sum_of EdgeKey-discrete count_of b'.edges
            ≡ sum_of EdgeKey-discrete count_of b.edges + is_flow (some ends))
  add_between-IsSound ev fs b b' (from, to) e h = elim (Bool-cases (is_node from && is_node to)) [
    | inr skip ↦ let same = some-injective b b' (rw skip at e) in rw (skip, ← same) (h, omega arith)
    | inl flow ↦
        let r : (flow_counters ev.flow_meta ev.frame >>= λ counters.
        read_flags fmt ev fs >>= λ flags. some (add_flow fmt ev fs counters flags from to b))
            ≡ some b' =
          rw flow at e in
        let (counters, _, e1) = bind-eq-some (flow_counters ev.flow_meta ev.frame) _ r in
        let (flags, _, e2) = bind-eq-some (read_flags fmt ev fs) _ e1 in
        let same = some-injective (add_flow fmt ev fs counters flags from to b) b' e2 in
        rw (flow, ← same)
          (
            add_flow-IsSound ev fs counters flags from to b h,
            add_flow-count ev fs counters flags from to b,
          )
  ]

  -- The loop keeps the builder sound, and counts each flow once.
  add_events-IsSound :
      (tracked : List TrackedPod) (events : List (FlowEvent FlowMeta)) (b b' : Builder)
      → add_events fmt tracked events b ≡ some b'
      → IsSound b
      → IsSound b'
        × (sum_of EdgeKey-discrete count_of b'.edges
            ≡ sum_of EdgeKey-discrete count_of b.edges + count_flows tracked events)
  unfolding add_events add_event
  add_events-IsSound tracked [] b b' e h = rw (← some-injective b b' e) (h, omega arith)
  add_events-IsSound tracked (ev ∷ events) b b' e h =
      let (b1, e1, e2) = bind-eq-some (add_event fmt tracked ev b) _ e in
      let (fs, _, e3) = bind-eq-some (read_frame fmt ev) _ e1 in
      let (ends, known, e4) = bind-eq-some (resolve_flow_endpoints fmt ev tracked) _ e3 in
      let (sound, count) = add_between-IsSound ev fs b b1 ends e4 h in
      let (sound', count') = add_events-IsSound tracked events b1 b' e2 sound in
      (sound', rw known (omega (arith, count, count')))

met-HasNode :
    (b : Builder) (id : String)
    → IsSound b
    → IsMet b.node_map id
    → HasNode id (finish_topology b).nodes
unfolding finish_topology
met-HasNode b id h (n, e) =
    let el = lookup-Elem String-discrete id n b.node_map e in
    record {
      node = n;
      inside = sort_slice-Elem _ _ (map-Elem (λ entry. entry.1) b.node_map el);
      same = h.keyed (id, n) el;
    }

finish_topology-IsClosed : (b : Builder) → IsSound b → IsClosed (finish_topology b)
unfolding finish_topology
finish_topology-IsClosed b h e m =
    let (entry, inside, made) =
      Elem-map (λ (x : EdgeKey × EdgeAcc). finish_edge x.1) b.edges (Elem-sort_slice _ _ m) in
    let j = h.joined entry inside in
    let same = finish_edge-IsSame entry.1 in
    let from : e.from ≡ entry.0.0 =
      ap (λ (f : TopologyEdge). f.from) (sym made) ∙ (same.from ∙ j.from) in
    let to : e.to ≡ entry.0.1 = ap (λ (f : TopologyEdge). f.to) (sym made) ∙ (same.to ∙ j.to) in
    (rw from (met-HasNode b entry.0.0 h j.met_from), rw to (met-HasNode b entry.0.1 h j.met_to))

sum_by-finish_edge :
    (accs : Map EdgeKey EdgeAcc)
    → sum_by (λ (e : TopologyEdge). e.count) (map (λ entry. finish_edge entry.1) accs)
      ≡ sum_of EdgeKey-discrete count_of accs
sum_by-finish_edge [] = refl
sum_by-finish_edge ((k, acc) ∷ accs) =
    let same = finish_edge-IsSame acc in omega (arith, same.count, sum_by-finish_edge accs)

sum_by-finish_topology :
    (b : Builder)
    → sum_by (λ (e : TopologyEdge). e.count) (finish_topology b).edges
      ≡ sum_of EdgeKey-discrete count_of b.edges
unfolding finish_topology
sum_by-finish_topology b = sort_slice-sum_by _ _ _ ∙ sum_by-finish_edge b.edges

-- If no event's frame is 4 GiB long or a cut DNS datagram, `BuildFlowTopology` returns a graph in
-- which both ends of every edge are nodes, and the counts of its edges add up to the number of
-- events of which both ends are known.
pub build_flow_topology-IsClosed :
    (fmt : Formats) (events : List (FlowEvent FlowMeta)) (tracked : List TrackedPod)
    → AreReadable fmt events
    → (topo : FlowTopology) × (build_flow_topology fmt events tracked ≡ some topo)
      × IsClosed topo
      × (sum_by (λ e. e.count) topo.edges ≡ count_flows fmt tracked events)
unfolding build_flow_topology
build_flow_topology-IsClosed fmt events tracked ok =
    let (b, e) = add_events-Returns fmt tracked events empty_builder ok in
    let start : IsSound empty_builder = record {
      keyed = λ x m. elim m [ ];
      joined = λ x m. elim m [ ];
    } in
    let (sound, count) = add_events-IsSound fmt tracked events empty_builder b e start in
    (
      finish_topology b,
      rw e refl,
      finish_topology-IsClosed b sound,
      omega (arith, sum_by-finish_topology b, count),
    )
