-- ===== src/Pcap/Session/Window.antt =====
-- The buffers of internal/pcap/session.go are windows on all that was captured.
use mathlib.Core.List.{append_assoc, append-nil, map-append}
use netobserv_spcg.Common.{
  ◌≡◌, refl, sym, String, String-discrete, Bool, true, false, not, ◌&&◌, ◌||◌, str_eq, str_eq_iff,
  str_ne_false, keep, List, [], ◌∷◌, ◌++◌, Option, some, none, Bool-cases, inl, inr, map, ◌≢◌,
}
use netobserv_spcg.Common.Maps.{lookup, insert, lookup-insert_self, lookup-insert_ne}
use netobserv_spcg.Pcap.PcapNg.{FrameRecord}
use netobserv_spcg.Pcap.Session.Last.{IsLast, trim-snoc, trim-IsLast, IsLast-trim}
use netobserv_spcg.Pcap.Session.{
  FlowEvent, PodBuffer, SinkOps, Session, Packet, trim, trim_pod_buffer, pod_key, append_frame,
  append_flow, append_all, or_new, new_session, max_events_per_pod, max_frames_per_pod,
}

abbrev pub frame_of : Packet → FrameRecord
frame_of p = record { payload = p.payload; time = some p.now }

-- The packet is of the pod with this key: its uid, or its name where it came without a uid.
abbrev pub is_of : String → Packet → Bool
is_of key p =
    (str_eq p.pod_uid "" && str_eq p.pod_name key)
    || (not (str_eq p.pod_uid "") && str_eq p.pod_uid key)

-- The packets of one pod, in order.
abbrev pub packets_for : String → List Packet → List Packet
packets_for key = keep (is_of key)

pod_key-is_of :
    (key : String) (p : Packet) → pod_key p.pod_name p.pod_uid ≡ key → is_of key p ≡ true
unfolding pod_key
pod_key-is_of key p e = elim (Bool-cases (str_eq p.pod_uid "")) [
  | inl unnamed ↦
      let same : str_eq p.pod_name key ≡ true = (str_eq_iff p.pod_name key).1 (rw unnamed at e) in
      rw (unnamed, same)
  | inr named ↦
      let same : str_eq p.pod_uid key ≡ true = (str_eq_iff p.pod_uid key).1 (rw named at e) in
      rw (named, same)
]

pod_key-not-is_of :
    (key : String) (p : Packet) → pod_key p.pod_name p.pod_uid ≢ key → is_of key p ≡ false
unfolding pod_key
pod_key-not-is_of key p ne = elim (Bool-cases (str_eq p.pod_uid "")) [
  | inl unnamed ↦
      let other : str_eq p.pod_name key ≡ false = str_ne_false p.pod_name key (rw unnamed at ne) in
      rw (unnamed, other)
  | inr named ↦
      let other : str_eq p.pod_uid key ≡ false = str_ne_false p.pod_uid key (rw named at ne) in
      rw (named, other)
]

module _ {Meta : Type 0} where
  abbrev events_of : Option (PodBuffer Meta) → List (FlowEvent Meta)
  events_of none = []
  events_of (some buf) = buf.events

  abbrev pub frames_of : Option (PodBuffer Meta) → List FrameRecord
  frames_of none = []
  frames_of (some buf) = buf.frames

module _ {Meta Sink : Type 0} (parse : String → Meta) (ops : SinkOps Sink) where
  abbrev event_of : Packet → FlowEvent Meta
  event_of p = record {
    time = p.now;
    capture_pod = p.pod_name;
    capture_pod_uid = p.pod_uid;
    frame = p.payload;
    flow_meta = parse p.flow_meta_json;
    sequence = p.seq;
  }

  -- The session keeps its packets in memory, and the buffer of a key holds the last 1500 events and the
  -- last 400 frames of a history, in order.
  pub record IsWindow (key : String) (h : List Packet) (s : Session Meta Sink) : Type 0 where
    pub in_memory : s.s3_sink ≡ none
    pub events : IsLast 1500 (map event_of h) (events_of (lookup String-discrete key s.pods))
    pub frames : IsLast 400 (map frame_of h) (frames_of (lookup String-discrete key s.pods))

  record IsTrimmed (key : String) (h : List Packet) (s : Session Meta Sink) : Type 0 where
    in_memory : s.s3_sink ≡ none
    events :
        events_of (lookup String-discrete key s.pods) ≡ trim max_events_per_pod (map event_of h)
    frames :
        frames_of (lookup String-discrete key s.pods) ≡ trim max_frames_per_pod (map frame_of h)

  append_flow-pods :
      (s : Session Meta Sink) (p : Packet)
      → s.s3_sink ≡ none
      → (append_flow parse ops s p).pods
        ≡ insert String-discrete
            (pod_key p.pod_name p.pod_uid)
            (append_frame parse ops p (
              or_new p.pod_name p.pod_uid
                (lookup String-discrete (pod_key p.pod_name p.pod_uid) s.pods)))
            s.pods
  unfolding append_flow
  append_flow-pods s p e = rw e

  append_flow-s3_sink :
      (s : Session Meta Sink) (p : Packet)
      → s.s3_sink ≡ none
      → (append_flow parse ops s p).s3_sink ≡ none
  unfolding append_flow
  append_flow-s3_sink s p e = rw e refl

  or_new-events : (n u : String) (o : Option (PodBuffer Meta)) → (or_new n u o).events ≡ events_of o
  or_new-events n u none = refl
  or_new-events n u (some buf) = refl

  or_new-frames : (n u : String) (o : Option (PodBuffer Meta)) → (or_new n u o).frames ≡ frames_of o
  or_new-frames n u none = refl
  or_new-frames n u (some buf) = refl

  append_frame-events :
      (p : Packet) (buf : PodBuffer Meta)
      → (append_frame parse ops p buf).events
        ≡ trim max_events_per_pod (buf.events ++ (event_of p ∷ []))
  unfolding append_frame trim_pod_buffer
  append_frame-events p buf = refl

  append_frame-frames :
      (p : Packet) (buf : PodBuffer Meta)
      → (append_frame parse ops p buf).frames
        ≡ trim max_frames_per_pod (buf.frames ++ (frame_of p ∷ []))
  unfolding append_frame trim_pod_buffer
  append_frame-frames p buf = refl

  append_hit :
      (key : String) (h : List Packet) (s : Session Meta Sink) (p : Packet)
      → pod_key p.pod_name p.pod_uid ≡ key
      → IsTrimmed key h s
      → IsTrimmed key (h ++ (p ∷ [])) (append_flow parse ops s p)
  append_hit key h s p e w = record {
    in_memory = append_flow-s3_sink s p w.in_memory;
    events =
        rw
          (
            append_flow-pods s p w.in_memory,
            e,
            lookup-insert_self,
            append_frame-events,
            or_new-events,
            w.events,
            map-append,
          )
          (trim-snoc max_events_per_pod (map event_of h) (event_of p));
    frames =
        rw
          (
            append_flow-pods s p w.in_memory,
            e,
            lookup-insert_self,
            append_frame-frames,
            or_new-frames,
            w.frames,
            map-append,
          )
          (trim-snoc max_frames_per_pod (map frame_of h) (frame_of p));
  }

  append_miss :
      (key : String) (h : List Packet) (s : Session Meta Sink) (p : Packet)
      → pod_key p.pod_name p.pod_uid ≢ key
      → IsTrimmed key h s
      → IsTrimmed key h (append_flow parse ops s p)
  append_miss key h s p ne w = record {
    in_memory = append_flow-s3_sink s p w.in_memory;
    events =
        rw (append_flow-pods s p w.in_memory, lookup-insert_ne String-discrete _ key _ s.pods ne)
          w.events;
    frames =
        rw (append_flow-pods s p w.in_memory, lookup-insert_ne String-discrete _ key _ s.pods ne)
          w.frames;
  }

  append_all-IsTrimmed :
      (key : String) (ps h : List Packet) (s : Session Meta Sink)
      → IsTrimmed key h s
      → IsTrimmed key (h ++ packets_for key ps) (append_all parse ops s ps)
  unfolding append_all
  append_all-IsTrimmed key [] h s w = rw append-nil w
  append_all-IsTrimmed key (p ∷ ps) h s w =
      elim (String-discrete (pod_key p.pod_name p.pod_uid) key) [
        | yes e ↦
            rw (pod_key-is_of key p e, sym (append_assoc h (p ∷ []) (packets_for key ps)))
              (append_all-IsTrimmed key ps (h ++ (p ∷ [])) (append_flow parse ops s p)
                (append_hit key h s p e w))
        | no ne ↦
            rw (pod_key-not-is_of key p ne) (
              append_all-IsTrimmed key ps h (append_flow parse ops s p)
                (append_miss key h s p ne w))
      ]

  IsWindow-IsTrimmed :
      (key : String) (h : List Packet) (s : Session Meta Sink)
      → IsWindow key h s
      → IsTrimmed key h s
  IsWindow-IsTrimmed key h s w = record {
    in_memory = w.in_memory;
    events = IsLast-trim 1500 _ _ w.events;
    frames = IsLast-trim 400 _ _ w.frames;
  }

  IsTrimmed-IsWindow :
      (key : String) (h : List Packet) (s : Session Meta Sink)
      → IsTrimmed key h s
      → IsWindow key h s
  IsTrimmed-IsWindow key h s w = record {
    in_memory = w.in_memory;
    events = rw w.events (trim-IsLast 1500 (map event_of h));
    frames = rw w.frames (trim-IsLast 400 (map frame_of h));
  }

  -- From a session that keeps its packets in memory and whose buffer of a key holds the last 1500
  -- events and the last 400 frames of a history, in order, after any packets the buffer holds the last
  -- 1500 events and the last 400 frames of the history extended by those of the packets that are of
  -- the pod: that have the key as their uid, or that have no uid and the key as their pod's name.
  pub append_all-IsWindow :
      (key : String) (ps h : List Packet) (s : Session Meta Sink)
      → IsWindow key h s
      → IsWindow key (h ++ packets_for key ps) (append_all parse ops s ps)
  append_all-IsWindow key ps h s w =
      IsTrimmed-IsWindow key (h ++ packets_for key ps) (append_all parse ops s ps)
        (append_all-IsTrimmed key ps h s (IsWindow-IsTrimmed key h s w))

  pub new_session-IsWindow : (key : String) → IsWindow key [] new_session
  unfolding new_session lookup
  new_session-IsWindow key = record {
    in_memory = refl;
    events = ([], refl, refl);
    frames = ([], refl, refl);
  }
