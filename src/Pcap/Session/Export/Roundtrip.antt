-- ===== src/Pcap/Session/Export/Roundtrip.antt =====
-- A pod's export holds the last frames that were captured from it.
use netobserv_spcg.Common.{
  ℕ, ◌+◌, ◌≡◌, refl, String, String-discrete, false, List, [], ◌∷◌, Option, some, none, map, length,
}
use netobserv_spcg.Common.Maps.{lookup}
use netobserv_spcg.Pcap.Bytes.{Bytes}
use netobserv_spcg.Pcap.PcapNg.{FrameRecord, is_pcap_container, encode_pcapng}
use netobserv_spcg.Pcap.PcapNg.Reader.{read_file}
use netobserv_spcg.Pcap.PcapNg.Roundtrip.{AreWritable, packets_of, read_file-encode_pcapng}
use netobserv_spcg.Pcap.Session.{
  PodBuffer, SinkOps, Session, Packet, append_flow, append_all, new_session,
}
use netobserv_spcg.Pcap.Session.Last.{IsLast, IsLast-unique}
use netobserv_spcg.Pcap.Session.Window.{
  frame_of, frames_of, packets_for, append_all-IsWindow, new_session-IsWindow,
}
use netobserv_spcg.Pcap.Session.Export.{
  concat_frame_bytes, encode_frames, export_buffer, export_pod, is_uploading,
}

export_buffer-encodes :
    {Meta : Type 0} (base : ℕ) (o : Option (PodBuffer Meta)) (f : FrameRecord)
    (frames : List FrameRecord)
    → frames_of o ≡ f ∷ frames
    → is_pcap_container (concat_frame_bytes (f ∷ frames)) ≡ some false
    → export_buffer base o ≡ some (some (encode_pcapng base (f ∷ frames)))
unfolding encode_frames
export_buffer-encodes base none f frames e plain = cc
export_buffer-encodes base (some buf) f frames e plain = rw (e, plain)

module _ {Meta Sink : Type 0} (parse : String → Meta) (ops : SinkOps Sink) where
  append_flow_stays :
      (s : Session Meta Sink) (p : Packet)
      → is_uploading s ≡ false
      → s.s3_sink ≡ none
      → (is_uploading (append_flow parse ops s p) ≡ false)
        × ((append_flow parse ops s p).s3_sink ≡ none)
  unfolding append_flow
  append_flow_stays s p idle e =
      let enabled : s.s3_enabled ≡ false = rw e at idle in rw e (enabled, refl)

  append_all_stays :
      (s : Session Meta Sink) (ps : List Packet)
      → is_uploading s ≡ false
      → s.s3_sink ≡ none
      → is_uploading (append_all parse ops s ps) ≡ false
  unfolding append_all
  append_all_stays s [] idle e = idle
  append_all_stays s (p ∷ ps) idle e =
      let next = append_flow_stays s p idle e in
      append_all_stays (append_flow parse ops s p) ps next.0 next.1

  new_session_idle :
      (is_uploading (new_session {Meta = Meta} {Sink = Sink}) ≡ false)
      × ((new_session {Meta = Meta} {Sink = Sink}).s3_sink ≡ none)
  unfolding new_session
  new_session_idle = (refl, refl)

  -- After any packets of a session without an uploader: if the last 400 of the frames of the packets
  -- of a pod are `f` and `frames`, if they fit the format's fields and their bytes do not begin like a
  -- capture file themselves, then the export of the pod is a PCAP-NG file from which a reader gets back
  -- these frames in order, each with the time of its arrival, and the empty ones left out.
  pub export_pod-append_all :
      (base : ℕ) (key : String) (ps : List Packet) (f : FrameRecord) (frames : List FrameRecord)
      → IsLast 400 (map frame_of (packets_for key ps)) (f ∷ frames)
      → is_pcap_container (concat_frame_bytes (f ∷ frames)) ≡ some false
      → AreWritable base 0 (f ∷ frames)
      → (file : Bytes) × (export_pod base key (append_all parse ops new_session ps)
          ≡ some (some file))
        × (read_file (length (f ∷ frames) + 2) file ≡ some (packets_of base 0 (f ∷ frames)))
  unfolding export_pod
  export_pod-append_all base key ps f frames kept plain fits =
      let s = append_all parse ops new_session ps in
      let w =
        append_all-IsWindow parse ops key ps [] new_session (new_session-IsWindow parse ops key) in
      let idle : is_uploading s ≡ false =
        append_all_stays new_session ps new_session_idle.0 new_session_idle.1 in
      (
        encode_pcapng base (f ∷ frames),
        rw idle (
            export_buffer-encodes base (lookup String-discrete key s.pods) f frames
              (IsLast-unique 400 _ _ _ w.frames kept) plain),
        read_file-encode_pcapng base f frames fits,
      )
