-- ===== src/Pcap/PcapNg.antt =====
-- internal/pcap/pcapng.go: the PCAP-NG writer. A write to the buffer appends bytes; a frame's
-- time is in microseconds since the epoch, `none` for Go's zero time.
pub mod Reader
pub mod Roundtrip
use netobserv_spcg.Common.{
  ℕ, zero, suc, ◌+◌, ◌-◌, ◌/◌, ◌%◌, ◌^◌, Bool, true, false, ◌||◌, List, [], ◌∷◌, ◌++◌, Option, some,
  none, ltb, ◌==◌, if◌then◌else◌, length, replicate, ◌>>=◌,
}
use netobserv_spcg.Pcap.Bytes.{Bytes, u16_mod, u32_mod, le_uint32}

-- `binary.Write(buf, binary.LittleEndian, uint16(v))`.
unfoldable pub put_uint16 : ℕ → Bytes
put_uint16 v = v % 256 ∷ v / 256 % 256 ∷ []

-- `binary.Write(buf, binary.LittleEndian, uint32(v))`.
unfoldable pub put_uint32 : ℕ → Bytes
put_uint32 v = v % 256 ∷ v / 2 ^ 8 % 256 ∷ v / 2 ^ 16 % 256 ∷ v / 2 ^ 24 % 256 ∷ []

abbrev pub block_type_shb : ℕ
block_type_shb = 0x0a0d0d0a

abbrev pub block_type_idb : ℕ
block_type_idb = 1

abbrev pub block_type_epb : ℕ
block_type_epb = 6

abbrev pub link_type_ethernet : ℕ
link_type_ethernet = 1

abbrev pub snap_len : ℕ
snap_len = 65535

pub record FrameRecord : Type 0 where
  pub payload : Bytes
  pub time : Option ℕ

unfoldable pub is_pcap_container : Bytes → Option Bool
is_pcap_container b = if ltb (length b) 4 then some false else (do
  magic ← le_uint32 b
  some (magic == block_type_shb || (magic == 0xa1b2c3d4 || magic == 0xd4c3b2a1)))

unfoldable pub pad4 : ℕ → ℕ
pad4 n = (4 - n % 4) % 4

unfoldable pub write_block : ℕ → Bytes → Bytes
write_block block_type body =
    let total = (12 + length body) % u32_mod in
    put_uint32 block_type ++ (put_uint32 total ++ (body ++ put_uint32 total))

-- The body of the section header: byte-order magic, version 1.0, section length -1, no options.
unfoldable pub shb_body : Bytes
shb_body =
    put_uint32 0x1a2b3c4d
    ++ (put_uint16 1 ++ (put_uint16 0 ++ (replicate 8 255 ++ (put_uint16 0 ++ put_uint16 0))))

unfoldable pub write_shb : Bytes
write_shb = write_block block_type_shb shb_body

unfoldable pub idb_body : Bytes
idb_body =
    put_uint16 link_type_ethernet
    ++ (put_uint16 0 ++ (put_uint32 snap_len ++ (put_uint16 0 ++ put_uint16 0)))

unfoldable pub write_idb : Bytes
write_idb = write_block block_type_idb idb_body

unfoldable pub epb_body : Bytes → ℕ → Bytes
epb_body packet us =
    let captured = length packet % u32_mod in
    put_uint32 0
    ++ (put_uint32 (us / u32_mod % u32_mod)
        ++ (put_uint32 (us % u32_mod)
            ++ (put_uint32 captured
                ++ (put_uint32 captured
                    ++ (packet
                        ++ (replicate (pad4 (length packet)) 0
                            ++ (put_uint16 0 ++ put_uint16 0)))))))

unfoldable pub write_epb : Bytes → ℕ → Bytes
write_epb packet us = write_block block_type_epb (epb_body packet us)

-- `if ts.IsZero() { ts = base.Add(i µs) }`.
abbrev pub frame_time : ℕ → ℕ → Option ℕ → ℕ
frame_time base i none = base + i
frame_time base i (some us) = us

-- The loop over the frames; an empty frame is skipped.
unfoldable pub write_frames : ℕ → ℕ → List FrameRecord → Bytes
write_frames base i [] = []
write_frames base i (fr ∷ frames) =
    if length fr.payload == 0
    then write_frames base (suc i) frames
    else write_epb fr.payload (frame_time base i fr.time) ++ write_frames base (suc i) frames

-- `EncodePCAPng`; `base` is `time.Now()`.
unfoldable pub encode_pcapng : ℕ → List FrameRecord → Bytes
encode_pcapng base [] = []
encode_pcapng base (fr ∷ frames) = write_shb ++ (write_idb ++ write_frames base 0 (fr ∷ frames))
