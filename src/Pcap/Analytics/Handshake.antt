-- ===== src/Pcap/Analytics/Handshake.antt =====
-- `trackTCPFlows` of internal/pcap/analytics.go against the history of segments.
use netobserv_spcg.Common.{
  ◌≡◌, ◌↔◌, refl, sym, ap, ◌∙◌, inl, inr, if_pos, if_neg, Bool, true, false, not, ◌&&◌, ◌||◌, List,
  [], ◌∷◌, Option, some, none, String, String-discrete, str_eq, if◌then◌else◌, arith, Bool-cases,
  str_eq_iff, str_ne,
}
use netobserv_spcg.Common.Maps.{Map, lookup, insert, lookup-insert_self, lookup-insert_ne}
use netobserv_spcg.Pcap.Analytics.{
  TcpFlowTrack, Segment, track_or_new, track_segment, mark_opened, mark_answered,
}

-- The segment is a SYN without ACK on the flow.
abbrev pub opens : String → Segment → Bool
opens x s = str_eq s.key x && (s.syn && not s.ack)

-- The segment is a SYN with ACK on the flow or on its reverse.
abbrev pub answers : String → Segment → Bool
answers x s = (str_eq s.key x || str_eq s.reverse x) && (s.syn && s.ack)

abbrev pub any_of : (Segment → Bool) → List Segment → Bool
any_of p [] = false
any_of p (s ∷ segments) = p s || any_of p segments

-- The tracks after a list of segments.
pub track_all : List Segment → Map String TcpFlowTrack → Map String TcpFlowTrack
track_all [] flows = flows
track_all (s ∷ segments) flows = track_all segments (track_segment s flows)

-- The track of a flow; of one that is not in the map, the new one.
abbrev pub track_of : String → Map String TcpFlowTrack → TcpFlowTrack
track_of x flows = track_or_new (lookup String-discrete x flows)

track_of-insert :
    (k x : String) (f : TcpFlowTrack → TcpFlowTrack) (m : Map String TcpFlowTrack)
    → track_of x (insert String-discrete k (f (track_of k m)) m)
      ≡ (if str_eq k x then f (track_of x m) else track_of x m)
track_of-insert k x f m = elim (Bool-cases (str_eq k x)) [
  | inl same ↦
      let e : k ≡ x = (str_eq_iff k x).0 same in
      rw (same, e, lookup-insert_self String-discrete x (f (track_of x m)) m) refl
  | inr other ↦
      rw (other, lookup-insert_ne String-discrete k x (f (track_of k m)) m (str_ne k x other)) refl
]

-- What a segment does to the track of a flow: `e` and `r` say whether it is on the flow or its reverse.
abbrev stepped : TcpFlowTrack → Bool → Bool → Bool → Bool → TcpFlowTrack
stepped v e r syn ack =
    let opened = if syn && not ack then (if e then record v { syn = true } else v) else v in
    let back = if r then record opened { syn_ack = true } else opened in
    if syn && ack then (if e then record back { syn_ack = true } else back) else opened

stepped_lem :
    (v : TcpFlowTrack) (e r syn ack : Bool)
    → stepped v e r syn ack ≡ record {
      syn = v.syn || (e && (syn && not ack));
      syn_ack = v.syn_ack || ((e || r) && (syn && ack));
    }
stepped_lem v e r syn ack = ground arith

track_of-if :
    (x : String) (b : Bool) (m n : Map String TcpFlowTrack)
    → track_of x (if b then m else n) ≡ (if b then track_of x m else track_of x n)
track_of-if x true m n = refl
track_of-if x false m n = refl

if_same : {A : Type 0} (b : Bool) (a : A) → (if b then a else a) ≡ a
if_same true a = refl
if_same false a = refl

track_of-track_segment :
    (s : Segment) (x : String) (m : Map String TcpFlowTrack)
    → track_of x (track_segment s m) ≡ record {
      syn = (track_of x m).syn || opens x s;
      syn_ack = (track_of x m).syn_ack || answers x s;
    }
unfolding track_segment
track_of-track_segment s x m =
    let v = track_of x m in
    let e = str_eq s.key x in
    let r = str_eq s.reverse x in
    let o = s.syn && not s.ack in
    let known = insert String-discrete s.key (track_of s.key m) m in
    let m1 = if o then mark_opened s.key known else known in
    let m2 = mark_answered s.reverse m1 in
    let e0 : track_of x known ≡ v = track_of-insert s.key x (λ w. w) m ∙ if_same e v in
    let opened = if o then (if e then record v { syn = true } else v) else v in
    let back = if r then record opened { syn_ack = true } else opened in
    let e1 : track_of x m1 ≡ opened =
      track_of-if x o (mark_opened s.key known) known
      ∙ (rw (track_of-insert s.key x (λ w. record w { syn = true }) known, e0) refl) in
    let e2 : track_of x m2 ≡ back =
      track_of-insert s.reverse x (λ w. record w { syn_ack = true }) m1
      ∙ ap (λ (w : TcpFlowTrack). if r then record w { syn_ack = true } else w) e1 in
    let e3 : track_of x (mark_answered s.key m2)
        ≡ (if e then record back { syn_ack = true } else back) =
      track_of-insert s.key x (λ w. record w { syn_ack = true }) m2
      ∙ ap (λ (w : TcpFlowTrack). if e then record w { syn_ack = true } else w) e2 in
    track_of-if x (s.syn && s.ack) (mark_answered s.key m2) m1
    ∙ (rw (e3, e1) (stepped_lem v e r s.syn s.ack))

abbrev with_seen : TcpFlowTrack → Bool → Bool → TcpFlowTrack
with_seen v a b = record { syn = v.syn || a; syn_ack = v.syn_ack || b }

with_seen-false : (v : TcpFlowTrack) → with_seen v false false ≡ v
with_seen-false v = ground arith

with_seen-with_seen :
    (v : TcpFlowTrack) (a b c d : Bool)
    → with_seen (with_seen v a b) c d ≡ with_seen v (a || c) (b || d)
with_seen-with_seen v a b c d = ground arith

track_all-with_seen :
    (segments : List Segment) (x : String) (m : Map String TcpFlowTrack)
    → track_of x (track_all segments m)
      ≡ with_seen (track_of x m) (any_of (opens x) segments) (any_of (answers x) segments)
unfolding track_all
track_all-with_seen [] x m = sym (with_seen-false (track_of x m))
track_all-with_seen (s ∷ segments) x m =
    track_all-with_seen segments x (track_segment s m)
    ∙ (rw (track_of-track_segment s x m) (
        with_seen-with_seen (track_of x m) (opens x s) (answers x s) (any_of (opens x) segments)
          (any_of (answers x) segments)))

-- After any segments, a flow is marked as opened exactly if a SYN without ACK of it was seen, and as
-- answered exactly if a SYN with ACK of it or of its reverse was.
pub track_of-track_all :
    (segments : List Segment) (x : String)
    → track_of x (track_all segments [])
      ≡ record { syn = any_of (opens x) segments; syn_ack = any_of (answers x) segments }
unfolding netobserv_spcg.Common.Maps.lookup
track_of-track_all segments x = track_all-with_seen segments x []
