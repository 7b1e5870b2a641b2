-- ===== src/Pcap/Bytes.antt =====
-- encoding/binary, as internal/pcap/frameparse.go, icmp.go and pcapng.go use it. A byte is a
-- number; where its range matters it is a hypothesis.
use netobserv_spcg.Common.{
  refl, ◌≡◌, ℕ, ◌+◌, ◌*◌, ◌/◌, ◌%◌, ◌^◌, ◌≤◌, List, [], ◌∷◌, Option, some, at, ◌>>=◌, slice,
  length-slice, Returns, bind-Returns, slice-Returns, Bool, ◌==◌, length, arith,
}

abbrev pub Bytes : Type 0
Bytes = List ℕ

abbrev pub u16_mod : ℕ
u16_mod = 2 ^ 16

abbrev pub u32_mod : ℕ
u32_mod = 2 ^ 32

-- `binary.BigEndian.Uint16(b)`, which panics on fewer than two bytes.
unfoldable pub be_uint16 : Bytes → Option ℕ
be_uint16 b = do b0 ← at b 0; b1 ← at b 1; some (b0 * 256 + b1)

-- `binary.LittleEndian.Uint32(b)`.
unfoldable pub le_uint32 : Bytes → Option ℕ
le_uint32 b = do
  b0 ← at b 0
  b1 ← at b 1
  b2 ← at b 2
  b3 ← at b 3
  some (b0 + b1 * 2 ^ 8 + b2 * 2 ^ 16 + b3 * 2 ^ 24)

-- `x & (1 << k) != 0`.
abbrev pub bit_set : ℕ → ℕ → Bool
bit_set x k = x / 2 ^ k % 2 == 1

pub be_uint16-Returns : (b : Bytes) → 2 ≤ length b → Returns (be_uint16 b)
unfolding be_uint16
be_uint16-Returns [] h = elim h [ ]
be_uint16-Returns (b0 ∷ []) h = absurd (omega arith)
be_uint16-Returns (b0 ∷ b1 ∷ b) h = (b0 * 256 + b1, refl)

pub le_uint32-Returns : (b : Bytes) → 4 ≤ length b → Returns (le_uint32 b)
unfolding le_uint32
le_uint32-Returns (b0 ∷ b1 ∷ b2 ∷ b3 ∷ b) h = (b0 + b1 * 2 ^ 8 + b2 * 2 ^ 16 + b3 * 2 ^ 24, refl)
le_uint32-Returns [] h = absurd (omega arith)
le_uint32-Returns (b0 ∷ []) h = absurd (omega arith)
le_uint32-Returns (b0 ∷ b1 ∷ []) h = absurd (omega arith)
le_uint32-Returns (b0 ∷ b1 ∷ b2 ∷ []) h = absurd (omega arith)

-- A two-byte field that lies within the bytes is read.
pub field-Returns :
    (b : Bytes) (lo : ℕ) → lo + 2 ≤ length b → Returns (slice b lo (lo + 2) >>= be_uint16)
field-Returns b lo h =
    bind-Returns (slice b lo (lo + 2)) be_uint16 (slice-Returns b lo (lo + 2) (omega arith) h)
      λ c e. be_uint16-Returns c (omega (arith, length-slice b lo (lo + 2) e))

pub field_at-Returns :
    (b : Bytes) (lo hi : ℕ) → hi ≡ lo + 2 → hi ≤ length b → Returns (slice b lo hi >>= be_uint16)
field_at-Returns b lo hi e h = rw e (field-Returns b lo (omega arith))
