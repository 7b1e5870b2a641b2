-- ===== src/Pcap/Session.antt =====
-- internal/pcap/session.go: the buffers of a capture session. A method holds the session's lock,
-- so it is one step of the session. The S3 uploader and the parser of flow metadata are taken as
-- operations; the clock is an argument.
pub mod Last
pub mod Window
pub mod Export
use netobserv_spcg.Common.{
  ℕ, zero, suc, ◌+◌, ◌-◌, ◌%◌, ◌^◌, String, String-discrete, str_eq, is_empty, Bool, true, false,
  not, ◌&&◌, ◌||◌, List, [], ◌∷◌, ◌++◌, Option, some, none, ltb, ◌==◌, if◌then◌else◌, length, drop,
  ◌>>=◌,
}
use netobserv_spcg.Common.Maps.{Map, lookup, insert}
use netobserv_spcg.Pcap.Bytes.{Bytes}
use netobserv_spcg.Pcap.PcapNg.{FrameRecord, is_pcap_container, encode_pcapng}

abbrev pub max_events_per_pod : ℕ
max_events_per_pod = 1500

abbrev pub max_frames_per_pod : ℕ
max_frames_per_pod = 400

abbrev pub u64_mod : ℕ
u64_mod = 2 ^ 64

pub record FlowEvent (Meta : Type 0) : Type 0 where
  pub time : ℕ
  pub capture_pod : String
  pub capture_pod_uid : String
  pub frame : Bytes
  pub flow_meta : Meta
  pub sequence : ℕ

pub record PodBuffer (Meta : Type 0) : Type 0 where
  pub pod_name : String
  pub pod_uid : String
  pub frames : List FrameRecord
  pub events : List (FlowEvent Meta)
  pub bytes : ℕ

pub record TrackedPod : Type 0 where
  pub namespace : String
  pub name : String
  pub uid : String
  pub owner_kind : String
  pub pod_ip : String
  pub pod_ips : List String

-- The uploader: a write that fails returns nothing, and the bytes uploaded so far are known.
pub record SinkOps (Sink : Type 0) : Type 0 where
  pub write_frame : Sink → Bytes → ℕ → Option Sink
  pub bytes_uploaded : Sink → ℕ

-- `s3Enabled` is the field `Enabled` of `s3info`; `s3info` is present where it is.
pub record Session (Meta Sink : Type 0) : Type 0 where
  pub tracked : List TrackedPod
  pub pods : Map String (PodBuffer Meta)
  pub s3_sink : Option Sink
  pub s3_enabled : Bool
  pub s3_bytes : ℕ
  pub s3_failed : Bool

module _ {Meta Sink : Type 0} where
  -- `NewSession`.
  unfoldable pub new_session : Session Meta Sink
  new_session = record {
    tracked = [];
    pods = [];
    s3_sink = none;
    s3_enabled = false;
    s3_bytes = 0;
    s3_failed = false;
  }

module _ {ℓ} {A : Type ℓ} where
  -- `if len(xs) > max { xs = xs[len(xs)-max:] }`.
  unfoldable pub trim : ℕ → List A → List A
  trim max xs = if ltb max (length xs) then drop (length xs - max) xs else xs

module _ {Meta : Type 0} where
  unfoldable pub trim_events_only : PodBuffer Meta → PodBuffer Meta
  trim_events_only buf = record buf { events = trim max_events_per_pod buf.events }

  unfoldable pub trim_pod_buffer : PodBuffer Meta → PodBuffer Meta
  trim_pod_buffer buf = record buf {
    events = trim max_events_per_pod buf.events;
    frames = trim max_frames_per_pod buf.frames;
  }

  abbrev or_new : String → String → Option (PodBuffer Meta) → PodBuffer Meta
  or_new pod_name pod_uid (some buf) = buf
  or_new pod_name pod_uid none = record {
    pod_name = pod_name;
    pod_uid = pod_uid;
    frames = [];
    events = [];
    bytes = 0;
  }

-- The key of a pod's buffer: its uid, or its name if it has none.
unfoldable pub pod_key : String → String → String
pod_key pod_name pod_uid = if is_empty pod_uid then pod_name else pod_uid

-- The arguments of one call of `AppendFlow`.
pub record Packet : Type 0 where
  pub pod_name : String
  pub pod_uid : String
  pub payload : Bytes
  pub flow_meta_json : String
  pub seq : ℕ
  pub now : ℕ

module _ {Meta Sink : Type 0} (parse_flow_meta : String → Meta) (ops : SinkOps Sink) where
  -- The buffer after a packet that is kept in memory.
  unfoldable pub append_frame : Packet → PodBuffer Meta → PodBuffer Meta
  append_frame p buf =
      let added = trim_pod_buffer (record buf {
        frames = buf.frames ++ (record { payload = p.payload; time = some p.now } ∷ []);
        events =
            buf.events
            ++ (record {
              time = p.now;
              capture_pod = p.pod_name;
              capture_pod_uid = p.pod_uid;
              frame = p.payload;
              flow_meta = parse_flow_meta p.flow_meta_json;
              sequence = p.seq;
            }
                ∷ []);
      }) in
      record added { bytes = (added.bytes + length p.payload) % u64_mod }

  -- The buffer after a packet that was uploaded: the event alone, without its frame.
  unfoldable pub append_event : Packet → PodBuffer Meta → PodBuffer Meta
  append_event p buf =
      let added = trim_events_only (record buf {
        events =
            buf.events
            ++ (record {
              time = p.now;
              capture_pod = p.pod_name;
              capture_pod_uid = p.pod_uid;
              frame = [];
              flow_meta = parse_flow_meta p.flow_meta_json;
              sequence = p.seq;
            }
                ∷ []);
      }) in
      record added { bytes = (added.bytes + length p.payload) % u64_mod }

  -- `AppendFlow` behind the look-up of the buffer: to the uploader if there is one.
  abbrev append_to :
      Packet → String → PodBuffer Meta → Session Meta Sink → Option Sink → Session Meta Sink
  append_to p key buf s none = record s {
    pods = insert String-discrete key (append_frame p buf) s.pods;
  }
  append_to p key buf s (some sink) = elim (ops.write_frame sink p.payload p.now) [
    | none ↦ record s { pods = insert String-discrete key buf s.pods; s3_failed = true }
    | some sink' ↦ record s {
      pods = insert String-discrete key (append_event p buf) s.pods;
      s3_sink = some sink';
      s3_bytes = if s.s3_enabled then ops.bytes_uploaded sink' else s.s3_bytes;
    }
  ]

  unfoldable pub append_flow : Session Meta Sink → Packet → Session Meta Sink
  append_flow s p =
      let key = pod_key p.pod_name p.pod_uid in
      let buf = or_new p.pod_name p.pod_uid (lookup String-discrete key s.pods) in
      append_to p key buf s s.s3_sink

  unfoldable pub append_all : Session Meta Sink → List Packet → Session Meta Sink
  append_all s [] = s
  append_all s (p ∷ ps) = append_all (append_flow s p) ps
