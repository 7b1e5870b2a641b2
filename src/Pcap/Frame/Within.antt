-- ===== src/Pcap/Frame/Within.antt =====
-- `ethernetPayload` of internal/pcap/frameparse.go only ever takes a part of the frame.
use netobserv_spcg.Common.{
  ℕ, ◌+◌, ◌%◌, ◌≤◌, ◌<◌, ◌≡◌, refl, Bool, true, false, ◌&&◌, Option, some, ltb, leb, ◌==◌,
  if◌then◌else◌, length, Returns, slice-Returns, slice_from-Returns, at-Returns, slice, slice_from,
  at, ◌>>=◌, length-slice, length-slice_from, leb-false, leb→le, and_right, arith,
}
use netobserv_spcg.Pcap.Bytes.{Bytes, u32_mod, le_uint32, le_uint32-Returns}
use netobserv_spcg.Pcap.Frame.{ethernet_payload}

module _ (n : ℕ) where
  -- The result is there, and no longer than `n`.
  abbrev ReturnsIn : Option Bytes → Type 0
  ReturnsIn o = (a : Bytes) × (o ≡ some a) × (length a ≤ n)

  if-ReturnsIn :
      (b : Bool) (x y : Option Bytes)
      → (b ≡ true → ReturnsIn x)
      → (b ≡ false → ReturnsIn y)
      → ReturnsIn (if b then x else y)
  if-ReturnsIn true x y f g = f refl
  if-ReturnsIn false x y f g = g refl

  bind-ReturnsIn :
      {B : Type 0} (m : Option B) (f : B → Option Bytes)
      → Returns m
      → ((b : B) → m ≡ some b → ReturnsIn (f b))
      → ReturnsIn (m >>= f)
  bind-ReturnsIn m f (b, e) k = rw e (k b e)

-- On a frame shorter than 4 GiB, `ethernetPayload` returns bytes that are not longer.
pub ethernet_payload-Within :
    (frame : Bytes)
    → length frame < u32_mod
    → (raw : Bytes) × (ethernet_payload frame ≡ some raw) × (length raw ≤ length frame)
unfolding ethernet_payload
ethernet_payload-Within frame small =
    let n = length frame in
    if-ReturnsIn n (leb (length frame) 16) _ _ (λ _. (frame, refl, omega arith))
      λ h.
        let long : 16 < length frame = leb-false (length frame) 16 h in
        bind-ReturnsIn n (slice frame 8 12) _ (slice-Returns frame 8 12 (omega arith) (omega arith))
          λ header e.
            bind-ReturnsIn n (le_uint32 header) _
              (le_uint32-Returns header (omega (arith, length-slice frame 8 12 e)))
              λ cap_len _.
                bind-ReturnsIn n (at frame 12) _ (at-Returns frame 12 (omega arith)) λ b12 _.
                  bind-ReturnsIn n (at frame 13) _ (at-Returns frame 13 (omega arith)) λ b13 _.
                    if-ReturnsIn n (ltb 0 cap_len && leb (cap_len + 16) (length frame)) _ _
                      (λ fits.
                        part cap_len
                          (leb→le (cap_len + 16) (length frame) (and_right (ltb 0 cap_len) _ fits)))
                      λ _.
                        if-ReturnsIn n (ltb 16 (length frame) && (b12 == 0 && b13 == 0)) _ _
                          (λ _. rest long) (λ _. (frame, refl, omega arith))
  where
    part :
        (c : ℕ)
        → c + 16 ≤ length frame
        → ReturnsIn (length frame) (slice frame 16 ((16 + c) % u32_mod))
    part c fits =
        let (a, e) = slice-Returns frame 16 ((16 + c) % u32_mod) (omega arith) (omega arith) in
        (a, e, omega (arith, length-slice frame 16 ((16 + c) % u32_mod) e))

    rest : 16 < length frame → ReturnsIn (length frame) (slice_from frame 16)
    rest long =
        let (a, e) = slice_from-Returns frame 16 (omega arith) in
        (a, e, omega (arith, length-slice_from frame 16 e))
