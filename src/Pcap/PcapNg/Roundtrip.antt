-- ===== src/Pcap/PcapNg/Roundtrip.antt =====
-- What internal/pcap/pcapng.go writes is read back: every non-empty frame, in order, with its
-- time.
use mathlib.Core.List.{append_assoc}
use netobserv_spcg.Common.{
  ℕ, zero, suc, ◌+◌, ◌-◌, ◌*◌, ◌/◌, ◌%◌, ◌≤◌, ◌<◌, ◌≡◌, inl, inr, refl, ap, true, List, [], ◌∷◌,
  ◌++◌, Option, none, some, leb, le→leb, ◌==◌, if◌then◌else◌, length, replicate, length-append,
  length-replicate, take-length-append, drop-length-append, Bool-cases, arith,
}
use netobserv_spcg.Pcap.Bytes.{Bytes, u32_mod}
use netobserv_spcg.Pcap.PcapNg.{
  put_uint16, put_uint32, FrameRecord, pad4, write_block, shb_body, write_shb, idb_body, write_idb,
  epb_body, write_epb, frame_time, write_frames, encode_pcapng,
}
use netobserv_spcg.Pcap.PcapNg.Reader.{
  get_uint32, get_uint16, get_bytes, fill, ends_options, is_section_header, is_ethernet_interface,
  read_block, read_blocks, read_packet, read_packets, read_sections, read_file,
}

get-put_uint32 :
    (v : ℕ) (rest : Bytes) → v < u32_mod → get_uint32 (put_uint32 v ++ rest) ≡ some (v, rest)
unfolding get_uint32 put_uint32
get-put_uint32 v rest h = ap (λ (x : ℕ). some (x, rest)) (omega arith)

get_bytes-append : (xs ys : Bytes) → get_bytes (length xs) (xs ++ ys) ≡ some (xs, ys)
unfolding get_bytes
get_bytes-append xs ys =
    let size = length-append xs ys in
    rw
      (le→leb (length xs) (length (xs ++ ys)) (omega arith), take-length-append, drop-length-append)

-- A block whose body is padded to 32 bits is read back.
read-write_block :
    (block_type : ℕ) (body rest : Bytes)
    → block_type < u32_mod
    → 12 + length body < u32_mod
    → length body % 4 ≡ 0
    → read_block (write_block block_type body ++ rest) ≡ some (block_type, body, rest)
unfolding read_block write_block
read-write_block block_type body rest small fits padded =
    let total : (12 + length body) % u32_mod ≡ 12 + length body = omega arith in
    let n : 12 + length body - 12 ≡ length body = omega arith in
    let t1 : leb 12 (12 + length body) ≡ true = le→leb _ _ (omega arith) in
    let t2 : ((12 + length body) % 4 == 0) ≡ true = ground arith in
    let t3 : (12 + length body == 12 + length body) ≡ true = ground arith in
    rw (
      total,
      append_assoc (put_uint32 block_type),
      get-put_uint32 block_type _ small,
      append_assoc (put_uint32 (12 + length body)),
      get-put_uint32 (12 + length body) _ fits,
      n,
      append_assoc body,
      get_bytes-append body,
      get-put_uint32 (12 + length body) rest fits,
      t1,
      t2,
      t3,
    )

get_bytes-fill :
    (n : ℕ) (rest : Bytes)
    → get_bytes (fill n) (replicate (pad4 n) 0 ++ rest) ≡ some (replicate (pad4 n) 0, rest)
unfolding pad4
get_bytes-fill n rest =
    let same : fill n ≡ length (replicate {A = ℕ} (pad4 n) 0) =
      omega (arith, length-replicate {A = ℕ} (pad4 n) 0) in
    rw same (get_bytes-append (replicate (pad4 n) 0) rest)

no_options_end : ends_options (put_uint16 0 ++ put_uint16 0) ≡ some true
unfolding ends_options get_uint16 put_uint16
no_options_end = refl

shb_body-is_section_header : is_section_header shb_body ≡ some true
unfolding is_section_header shb_body ends_options get_uint16 get_uint32 put_uint16 put_uint32
shb_body-is_section_header = refl

idb_body-is_ethernet_interface : is_ethernet_interface idb_body ≡ some true
unfolding is_ethernet_interface idb_body ends_options get_uint16 get_uint32 put_uint16 put_uint32
idb_body-is_ethernet_interface = refl

-- The data of an enhanced packet block is read back, and its lengths, padding and options are found
-- in order.
read_packet-epb_body :
    (packet : Bytes) (us : ℕ)
    → length packet < u32_mod
    → us < u32_mod * u32_mod
    → read_packet (epb_body packet us) ≡ some (us, packet)
unfolding read_packet epb_body
read_packet-epb_body packet us fits range =
    let captured : length packet % u32_mod ≡ length packet = omega arith in
    let time : us / u32_mod % u32_mod * u32_mod + us % u32_mod ≡ us = omega arith in
    let whole : (length packet == length packet) ≡ true = ground arith in
    rw (
      captured,
      get-put_uint32 0 _ (omega arith),
      get-put_uint32 (us / u32_mod % u32_mod) _ (omega arith),
      get-put_uint32 (us % u32_mod) _ (omega arith),
      get-put_uint32 (length packet) _ fits,
      get-put_uint32 (length packet) _ fits,
      get_bytes-append packet,
      get_bytes-fill (length packet),
      no_options_end,
      whole,
      time,
    )

length-epb_body :
    (packet : Bytes) (us : ℕ)
    → (length (epb_body packet us) % 4 ≡ 0) × (length (epb_body packet us) ≤ length packet + 27)
unfolding epb_body put_uint32 put_uint16 pad4
length-epb_body packet us =
    let zeros : ℕ = (4 - length packet % 4) % 4 in
    let options : Bytes = 0 % 256 ∷ 0 / 256 % 256 ∷ 0 % 256 ∷ 0 / 256 % 256 ∷ [] in
    let n0 = length-replicate {A = ℕ} zeros 0 in
    let n1 = length-append (replicate {A = ℕ} zeros 0) options in
    let n2 = length-append packet (replicate {A = ℕ} zeros 0 ++ options) in
    (omega arith, omega arith)

-- The time that a frame has in the file: that of its arrival, or for a frame without one the time at
-- which the file is written and a microsecond for each frame before it.
abbrev pub arrival : ℕ → ℕ → Option ℕ → ℕ
arrival now i none = now + i
arrival now i (some us) = us

frame_time-arrival : (base i : ℕ) (time : Option ℕ) → frame_time base i time ≡ arrival base i time
frame_time-arrival base i none = refl
frame_time-arrival base i (some us) = refl

-- Frames that fit in a block (their length and padding do not overflow 32 bits), with times that
-- fit in 64 bits.
abbrev pub AreWritable : ℕ → ℕ → List FrameRecord → Type 0
AreWritable base i [] = Unit
AreWritable base i (fr ∷ frames) =
    (length fr.payload + 40 < u32_mod)
    × (arrival base i fr.time < u32_mod * u32_mod)
    × AreWritable base (suc i) frames

-- The packets that a file has to hold: the non-empty frames with their times.
pub packets_of : ℕ → ℕ → List FrameRecord → List (ℕ × Bytes)
packets_of base i [] = []
packets_of base i (fr ∷ frames) =
    if length fr.payload == 0
    then packets_of base (suc i) frames
    else (arrival base i fr.time, fr.payload) ∷ packets_of base (suc i) frames

blocks_of : List (ℕ × Bytes) → List (ℕ × Bytes)
blocks_of [] = []
blocks_of ((us, packet) ∷ ps) = (6, epb_body packet us) ∷ blocks_of ps

read_blocks-cons :
    (fuel block_type : ℕ) (b body rest : Bytes) {blocks : List (ℕ × Bytes)}
    → 0 < length b
    → read_block b ≡ some (block_type, body, rest)
    → read_blocks fuel rest ≡ some blocks
    → read_blocks (suc fuel) b ≡ some ((block_type, body) ∷ blocks)
unfolding read_blocks
read_blocks-cons fuel block_type [] body rest pos e h = elim pos [ ]
read_blocks-cons fuel block_type (x ∷ b) body rest pos e h = rw (e, h)

length-write_block-pos :
    (block_type : ℕ) (body rest : Bytes) → 0 < length (write_block block_type body ++ rest)
unfolding write_block put_uint32
length-write_block-pos block_type body rest = omega arith

read_blocks-step :
    (fuel block_type : ℕ) (body rest : Bytes) {blocks : List (ℕ × Bytes)}
    → block_type < u32_mod
    → 12 + length body < u32_mod
    → length body % 4 ≡ 0
    → read_blocks fuel rest ≡ some blocks
    → read_blocks (suc fuel) (write_block block_type body ++ rest)
      ≡ some ((block_type, body) ∷ blocks)
read_blocks-step fuel block_type body rest small fits padded h =
    read_blocks-cons fuel block_type (write_block block_type body ++ rest) body rest
      (length-write_block-pos block_type body rest)
      (read-write_block block_type body rest small fits padded) h

read_blocks-write_frames :
    (fuel base i : ℕ) (frames : List FrameRecord)
    → AreWritable base i frames
    → length frames ≤ fuel
    → read_blocks fuel (write_frames base i frames) ≡ some (blocks_of (packets_of base i frames))
unfolding write_frames packets_of blocks_of read_blocks write_epb
read_blocks-write_frames zero base i [] v h = refl
read_blocks-write_frames (suc fuel) base i [] v h = refl
read_blocks-write_frames zero base i (fr ∷ frames) v h = absurd (omega arith)
read_blocks-write_frames (suc fuel) base i (fr ∷ frames) (fits, range, v) h =
    elim (Bool-cases (length fr.payload == 0)) [
      | inl e ↦ rw e (read_blocks-write_frames (suc fuel) base (suc i) frames v (omega arith))
      | inr e ↦
          rw (e, frame_time-arrival base i fr.time)
            (more_blocks (read_blocks-write_frames fuel base (suc i) frames v (omega arith)))
    ]
  where
    body : Bytes
    body = epb_body fr.payload (arrival base i fr.time)

    more_blocks :
        read_blocks fuel (write_frames base (suc i) frames)
          ≡ some (blocks_of (packets_of base (suc i) frames))
        → read_blocks
            (suc fuel)
            (write_epb fr.payload (arrival base i fr.time) ++ write_frames base (suc i) frames)
          ≡ some ((6, body) ∷ blocks_of (packets_of base (suc i) frames))
    more_blocks ih =
        let (padded, bound) = length-epb_body fr.payload (arrival base i fr.time) in
        read_blocks-step fuel 6 body (write_frames base (suc i) frames) (omega arith) (omega arith)
          padded ih

read_packets-blocks_of :
    (base i : ℕ) (frames : List FrameRecord)
    → AreWritable base i frames
    → read_packets (blocks_of (packets_of base i frames)) ≡ some (packets_of base i frames)
unfolding packets_of blocks_of read_packets
read_packets-blocks_of base i [] v = refl
read_packets-blocks_of base i (fr ∷ frames) (fits, range, v) =
    let ih = read_packets-blocks_of base (suc i) frames v in
    elim (Bool-cases (length fr.payload == 0)) [
      | inl e ↦ rw e ih
      | inr e ↦
          rw (e, read_packet-epb_body fr.payload (arrival base i fr.time) (omega arith) range, ih)
    ]

sections_read :
    (fuel base : ℕ) (frames : List FrameRecord)
    → length frames ≤ fuel
    → AreWritable base 0 frames
    → read_blocks (suc (suc fuel)) (write_shb ++ (write_idb ++ write_frames base 0 frames))
      ≡ some ((0x0a0d0d0a, shb_body) ∷ (1, idb_body) ∷ blocks_of (packets_of base 0 frames))
unfolding write_shb write_idb shb_body idb_body put_uint16 put_uint32
sections_read fuel base frames enough v =
    read_blocks-step (suc fuel) 0x0a0d0d0a shb_body (write_idb ++ write_frames base 0 frames)
      (omega arith) (omega arith) refl
      (read_blocks-step fuel 1 idb_body (write_frames base 0 frames) (omega arith) (omega arith)
        refl (read_blocks-write_frames fuel base 0 frames v enough))

-- The file that `EncodePCAPng` writes for one frame or more is read back by a reader that accepts only
-- a little-endian section header of version 1.0 with an unspecified length, one Ethernet interface with
-- a snap length of 65535, and whole packets of it, each block with its length at both ends, its padding
-- to 32 bits and the end of its options: the packets read are exactly the non-empty frames, in order,
-- each with the time of its arrival or, without one, the time of writing and a microsecond for each
-- frame before it, if the frames' lengths and times fit the format's 32- and 64-bit fields.
pub read_file-encode_pcapng :
    (base : ℕ) (fr : FrameRecord) (frames : List FrameRecord)
    → AreWritable base 0 (fr ∷ frames)
    → read_file (length (fr ∷ frames) + 2) (encode_pcapng base (fr ∷ frames))
      ≡ some (packets_of base 0 (fr ∷ frames))
unfolding read_file encode_pcapng read_sections
read_file-encode_pcapng base fr frames v =
    let n = length (fr ∷ frames) in
    let e : n + 2 ≡ suc (suc n) = omega arith in
    rw
      (
        e,
        sections_read n base (fr ∷ frames) (omega arith) v,
        shb_body-is_section_header,
        idb_body-is_ethernet_interface,
      )
      (read_packets-blocks_of base 0 (fr ∷ frames) v)
