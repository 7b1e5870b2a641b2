-- ===== src/Pcap/PcapNg/Reader.antt =====
-- A reader of the PCAP-NG format, written from the format and not from the writer: what
-- internal/pcap/pcapng.go has to produce.
use netobserv_spcg.Common.{
  ℕ, zero, suc, Bool, ◌+◌, ◌-◌, ◌*◌, ◌/◌, ◌%◌, ◌^◌, ◌&&◌, List, [], ◌∷◌, Option, some, none, leb,
  ◌==◌, if◌then◌else◌, length, take, drop, ◌>>=◌,
}
use netobserv_spcg.Pcap.Bytes.{Bytes, u32_mod}

unfoldable pub get_uint32 : Bytes → Option (ℕ × Bytes)
get_uint32 (b0 ∷ b1 ∷ b2 ∷ b3 ∷ rest) = some (b0 + b1 * 2 ^ 8 + b2 * 2 ^ 16 + b3 * 2 ^ 24, rest)
get_uint32 _ = none

unfoldable pub get_uint16 : Bytes → Option (ℕ × Bytes)
get_uint16 (b0 ∷ b1 ∷ rest) = some (b0 + b1 * 2 ^ 8, rest)
get_uint16 _ = none

-- The next `n` bytes.
unfoldable pub get_bytes : ℕ → Bytes → Option (Bytes × Bytes)
get_bytes n b = if leb n (length b) then some (take n b, drop n b) else none

-- A block is its type, its total length, a body padded to 32 bits and the total length again.
unfoldable pub read_block : Bytes → Option (ℕ × Bytes × Bytes)
read_block b = do
  (block_type, b1) ← get_uint32 b
  (total, b2) ← get_uint32 b1
  (body, b3) ← get_bytes (total - 12) b2
  (total', rest) ← get_uint32 b3
  if leb 12 total && (total % 4 == 0 && total == total')
      then some (block_type, body, rest)
      else none

unfoldable pub read_blocks : ℕ → Bytes → Option (List (ℕ × Bytes))
read_blocks fuel [] = some []
read_blocks zero (x ∷ b) = none
read_blocks (suc fuel) (x ∷ b) = do
  (block_type, body, rest) ← read_block (x ∷ b)
  blocks ← read_blocks fuel rest
  some ((block_type, body) ∷ blocks)

-- Nothing but the end-of-options option: the code 0 with the length 0.
unfoldable pub ends_options : Bytes → Option Bool
ends_options b = do
  (code, b1) ← get_uint16 b
  (size, b2) ← get_uint16 b1
  some (code == 0 && (size == 0 && length b2 == 0))

-- The body of a section header block in little-endian byte order: the byte-order magic, version 1.0,
-- a section length of -1 for an unspecified one, and no options.
unfoldable pub is_section_header : Bytes → Option Bool
is_section_header b = do
  (magic, b1) ← get_uint32 b
  (major, b2) ← get_uint16 b1
  (minor, b3) ← get_uint16 b2
  (low, b4) ← get_uint32 b3
  (high, b5) ← get_uint32 b4
  ended ← ends_options b5
  some (
      magic == 0x1a2b3c4d
      && (major == 1 && (minor == 0 && (low == 0xffffffff && (high == 0xffffffff && ended)))))

-- The body of an interface description block: the link type of Ethernet, a reserved 0, a snap length
-- of 65535 and no options.
unfoldable pub is_ethernet_interface : Bytes → Option Bool
is_ethernet_interface b = do
  (link_type, b1) ← get_uint16 b
  (reserved, b2) ← get_uint16 b1
  (snap, b3) ← get_uint32 b2
  ended ← ends_options b3
  some (link_type == 1 && (reserved == 0 && (snap == 65535 && ended)))

-- The bytes that fill `n` bytes up to 32 bits.
abbrev pub fill : ℕ → ℕ
fill n = (n + 3) / 4 * 4 - n

-- The time and the bytes of an enhanced packet block of the first interface, which holds the whole
-- packet, padded to 32 bits, and no options.
unfoldable pub read_packet : Bytes → Option (ℕ × Bytes)
read_packet b = do
  (interface, b1) ← get_uint32 b
  (high, b2) ← get_uint32 b1
  (low, b3) ← get_uint32 b2
  (captured, b4) ← get_uint32 b3
  (original, b5) ← get_uint32 b4
  (packet, b6) ← get_bytes captured b5
  (_, b7) ← get_bytes (fill captured) b6
  ended ← ends_options b7
  if interface == 0 && (original == captured && ended)
      then some (high * u32_mod + low, packet)
      else none

unfoldable pub read_packets : List (ℕ × Bytes) → Option (List (ℕ × Bytes))
read_packets [] = some []
read_packets ((block_type, body) ∷ blocks) =
    if block_type == 6
    then (do p ← read_packet body; ps ← read_packets blocks; some (p ∷ ps))
    else none

-- A section header and one Ethernet interface, then packets.
unfoldable pub read_sections : List (ℕ × Bytes) → Option (List (ℕ × Bytes))
read_sections ((shb, header) ∷ (idb, interface) ∷ blocks) = do
  is_header ← is_section_header header
  is_interface ← is_ethernet_interface interface
  if shb == 0x0a0d0d0a && (is_header && (idb == 1 && is_interface))
      then read_packets blocks
      else none
read_sections _ = none

-- A file of one section with one Ethernet interface: its packets in order, or `none` if a block, a
-- header or a packet is not as the format has it.
unfoldable pub read_file : ℕ → Bytes → Option (List (ℕ × Bytes))
read_file fuel b = do blocks ← read_blocks fuel b; read_sections blocks
