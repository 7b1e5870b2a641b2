-- ===== src/Pcap/Session/Export.antt =====
-- The reads of a capture session in internal/pcap/session.go: counters, listings and exports. An
-- error is `none`; where a function can also panic, the outer `none` is the panic.
pub mod Roundtrip
use Prim.Native.String.{◌++◌ as str_append}
use netobserv_spcg.Common.{
  ℕ, ◌+◌, ◌%◌, String, String-discrete, str_eq, is_empty, Bool, true, false, not, ◌&&◌, ◌||◌, List,
  [], ◌∷◌, ◌++◌, Option, some, none, map, if◌then◌else◌, ◌>>=◌,
}
use netobserv_spcg.Common.Maps.{Map, lookup, is_some}
use netobserv_spcg.Pcap.Bytes.{Bytes}
use netobserv_spcg.Pcap.PcapNg.{FrameRecord, is_pcap_container, encode_pcapng}
use netobserv_spcg.Pcap.Session.{FlowEvent, PodBuffer, TrackedPod, Session, u64_mod}

-- `concatFrameBytes`.
unfoldable pub concat_frame_bytes : List FrameRecord → Bytes
concat_frame_bytes [] = []
concat_frame_bytes (f ∷ frames) = f.payload ++ concat_frame_bytes frames

-- `encodeFrames`; `base` is the clock.
unfoldable pub encode_frames : ℕ → List FrameRecord → Option Bytes
encode_frames base [] = some []
encode_frames base (f ∷ frames) = do
  container ← is_pcap_container (concat_frame_bytes (f ∷ frames))
  some (if container then concat_frame_bytes (f ∷ frames) else encode_pcapng base (f ∷ frames))

-- `trackedNodeIDs` of the session, as the list that `TrackedPodIDList` returns.
unfoldable pub tracked_pod_id_list : List TrackedPod → List String
tracked_pod_id_list [] = []
tracked_pod_id_list (p ∷ tracked) =
    let rest = tracked_pod_id_list tracked in
    if not (is_empty p.namespace) && not (is_empty p.name)
    then str_append p.namespace (str_append "/" p.name) ∷ rest
    else rest

-- The name of the first tracked pod with the uid, or the uid.
unfoldable pub tracked_name : String → List TrackedPod → String
tracked_name pod_uid [] = pod_uid
tracked_name pod_uid (t ∷ tracked) =
    let rest = tracked_name pod_uid tracked in
    if str_eq t.uid pod_uid && not (is_empty t.name) then t.name else rest

module _ {Meta : Type 0} where
  unfoldable pub sum_bytes : Map String (PodBuffer Meta) → ℕ → ℕ
  sum_bytes [] n = n
  sum_bytes ((k, p) ∷ pods) n = sum_bytes pods ((n + p.bytes) % u64_mod)

  unfoldable pub all_events : Map String (PodBuffer Meta) → List (FlowEvent Meta)
  all_events [] = []
  all_events ((k, p) ∷ pods) = p.events ++ all_events pods

  unfoldable pub all_frames : Map String (PodBuffer Meta) → List FrameRecord
  all_frames [] = []
  all_frames ((k, p) ∷ pods) = p.frames ++ all_frames pods

  abbrev pub export_buffer : ℕ → Option (PodBuffer Meta) → Option (Option Bytes)
  export_buffer base none = some none
  export_buffer base (some buf) = do file ← encode_frames base buf.frames; some (some file)

  abbrev export_name_of : String → List TrackedPod → Option (PodBuffer Meta) → String
  export_name_of pod_uid tracked none = tracked_name pod_uid tracked
  export_name_of pod_uid tracked (some buf) =
      if is_empty buf.pod_name then tracked_name pod_uid tracked else buf.pod_name

abbrev pub export_frames : ℕ → List FrameRecord → Option (Option Bytes)
export_frames base [] = some none
export_frames base (f ∷ frames) = do file ← encode_frames base (f ∷ frames); some (some file)

module _ {Meta Sink : Type 0} where
  unfoldable pub set_tracked_pods : List TrackedPod → Session Meta Sink → Session Meta Sink
  set_tracked_pods pods s = record s { tracked = pods }

  unfoldable pub total_bytes : Session Meta Sink → ℕ
  total_bytes s = sum_bytes s.pods 0

  unfoldable pub session_events : Session Meta Sink → List (FlowEvent Meta)
  session_events s = all_events s.pods

  unfoldable pub pod_names : Session Meta Sink → List String
  pod_names s = map (λ entry. entry.1.pod_name) s.pods

  -- The exports are refused while packets go to the uploader.
  abbrev pub is_uploading : Session Meta Sink → Bool
  is_uploading s = is_some s.s3_sink || s.s3_enabled

  -- `ExportPod`.
  unfoldable pub export_pod : ℕ → String → Session Meta Sink → Option (Option Bytes)
  export_pod base pod_uid s =
      if is_uploading s
      then some none
      else export_buffer base (lookup String-discrete pod_uid s.pods)

  -- `PodExportName`.
  unfoldable pub pod_export_name : String → Session Meta Sink → String
  pod_export_name pod_uid s =
      export_name_of pod_uid s.tracked (lookup String-discrete pod_uid s.pods)

  -- `ExportMerged`.
  unfoldable pub export_merged : ℕ → Session Meta Sink → Option (Option Bytes)
  export_merged base s =
      if is_uploading s then some none else export_frames base (all_frames s.pods)
