-- ===== src/Tests/Packets.antt =====
-- internal/pcap on concrete frames, files and packets.
use netobserv_spcg.Common.{
  ℕ, ◌+◌, ◌≡◌, ◌↔◌, refl, String, Bool, true, false, List, [], ◌∷◌, ◌++◌, Option, some, none,
  replicate, length, Returns, arith,
}
use netobserv_spcg.Pcap.Bytes.{Bytes}
use netobserv_spcg.Pcap.Frame.{
  ethernet_payload, parse_dns_query, icmp_identifier, parse_tcp_flags, summarize_payload,
}
use netobserv_spcg.Pcap.Frame.Dns.{encode_labels, parse_dns_query-encode_labels}
use netobserv_spcg.Pcap.Frame.Panic.{IsCutDatagram, summarize_payload-eq-none_iff}
use netobserv_spcg.Pcap.Frame.Safety.{
  ethernet_payload-Returns, parse_dns_query-Returns, icmp_identifier-Returns,
}
use netobserv_spcg.Pcap.PcapNg.{FrameRecord, encode_pcapng, is_pcap_container}
use netobserv_spcg.Pcap.PcapNg.Reader.{read_file}
use netobserv_spcg.Pcap.PcapNg.Roundtrip.{packets_of, read_file-encode_pcapng}
use netobserv_spcg.Pcap.Session.Export.{concat_frame_bytes, export_pod}
use netobserv_spcg.Pcap.Session.Export.Roundtrip.{export_pod-append_all}
use netobserv_spcg.Pcap.Session.{SinkOps, Packet, new_session, append_all}
use netobserv_spcg.Pcap.Session.Window.{
  IsWindow, packets_for, append_all-IsWindow, new_session-IsWindow,
}

abbrev zeros : ℕ → Bytes
zeros n = replicate {A = ℕ} n 0

-- An IPv4 UDP datagram from port 5353 to port 53 that ends after 4 bytes of its UDP header.
abbrev cut_datagram : Bytes
cut_datagram = zeros 12 ++ (8 ∷ 0 ∷ 69 ∷ zeros 8 ++ (17 ∷ zeros 10 ++ (20 ∷ 233 ∷ 0 ∷ 53 ∷ [])))

cut_datagram_panics : summarize_payload cut_datagram ≡ none
unfolding summarize_payload netobserv_spcg.Common.slice netobserv_spcg.Pcap.Bytes.be_uint16
    netobserv_spcg.Pcap.Frame.hex16 netobserv_spcg.Common.slice_from
    netobserv_spcg.Pcap.Frame.ip_header netobserv_spcg.Pcap.Frame.transport_fields
    netobserv_spcg.Pcap.Frame.be16
cut_datagram_panics = refl

summarize_payload-eq-none_iff_example :
    (summarize_payload cut_datagram ≡ none) ↔ IsCutDatagram cut_datagram
summarize_payload-eq-none_iff_example = summarize_payload-eq-none_iff cut_datagram

-- "go.dev" as labels.
abbrev go_dev : List Bytes
go_dev = (103 ∷ 111 ∷ []) ∷ (100 ∷ 101 ∷ 118 ∷ []) ∷ []

parse_dns_query-encode_labels_example :
    parse_dns_query (zeros 12 ++ (encode_labels go_dev ++ (0 ∷ 1 ∷ 0 ∷ 1 ∷ [])))
    ≡ some (103 ∷ 111 ∷ 46 ∷ 100 ∷ 101 ∷ 118 ∷ [])
parse_dns_query-encode_labels_example =
    parse_dns_query-encode_labels (zeros 12) go_dev (0 ∷ 1 ∷ 0 ∷ 1 ∷ []) refl
      (omega arith, omega arith, (omega arith, omega arith, tt))

parse_dns_query-Returns_example : Returns (parse_dns_query (zeros 12 ++ (63 ∷ 1 ∷ [])))
parse_dns_query-Returns_example = parse_dns_query-Returns (zeros 12 ++ (63 ∷ 1 ∷ []))

ethernet_payload-Returns_example : Returns (ethernet_payload (zeros 20))
ethernet_payload-Returns_example = ethernet_payload-Returns (zeros 20) (omega arith)

icmp_identifier-Returns_example : Returns (icmp_identifier (zeros 12 ++ (8 ∷ 0 ∷ 79 ∷ zeros 30)))
icmp_identifier-Returns_example =
    icmp_identifier-Returns (zeros 12 ++ (8 ∷ 0 ∷ 79 ∷ zeros 30)) (omega arith)

abbrev ping : FrameRecord
ping = record { payload = 1 ∷ 2 ∷ 3 ∷ 4 ∷ 5 ∷ []; time = some 1700 }

abbrev untimed : FrameRecord
untimed = record { payload = 9 ∷ []; time = none }

read_file-encode_pcapng_example :
    read_file 4 (encode_pcapng 1000 (ping ∷ untimed ∷ []))
    ≡ some (packets_of 1000 0 (ping ∷ untimed ∷ []))
read_file-encode_pcapng_example =
    read_file-encode_pcapng 1000 ping (untimed ∷ [])
      (omega arith, omega arith, (omega arith, omega arith, tt))

-- An uploader that is never asked.
abbrev no_upload : SinkOps (Unit {0})
no_upload = record { write_frame = λ _ _ _. none; bytes_uploaded = λ _. 0 }

abbrev same_text : String → String
same_text s = s

abbrev packet : String → ℕ → Packet
packet uid seq = record {
  pod_name = "web";
  pod_uid = uid;
  payload = seq ∷ [];
  flow_meta_json = "";
  seq = seq;
  now = seq;
}

abbrev arrivals : List Packet
arrivals = packet "u1" 1 ∷ packet "u2" 2 ∷ packet "u1" 3 ∷ packet "" 4 ∷ []

abbrev kept_1 : FrameRecord
kept_1 = record { payload = 1 ∷ []; time = some 1 }

abbrev kept_3 : FrameRecord
kept_3 = record { payload = 3 ∷ []; time = some 3 }

append_all-IsWindow_example :
    IsWindow same_text no_upload "u1"
      ([] ++ packets_for "u1" arrivals)
      (append_all same_text no_upload new_session arrivals)
append_all-IsWindow_example =
    append_all-IsWindow same_text no_upload "u1" arrivals [] new_session
      (new_session-IsWindow same_text no_upload "u1")

export_pod-append_all_example :
    (file : Bytes) × (export_pod 0 "u1" (append_all same_text no_upload new_session arrivals)
      ≡ some (some file))
    × (read_file 4 file ≡ some (packets_of 0 0 (kept_1 ∷ kept_3 ∷ [])))
unfolding concat_frame_bytes is_pcap_container
export_pod-append_all_example =
    export_pod-append_all same_text no_upload 0 "u1" arrivals kept_1 (kept_3 ∷ []) ([], refl, refl)
      refl (omega arith, omega arith, (omega arith, omega arith, tt))
