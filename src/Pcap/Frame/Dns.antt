-- ===== src/Pcap/Frame/Dns.antt =====
-- `parseDNSQuery` of internal/pcap/frameparse.go against the wire format of a QNAME.
use mathlib.Core.List.{append_assoc, append-nil}
use netobserv_spcg.Common.{
  ℕ, zero, suc, ◌+◌, ◌≤◌, ◌<◌, ◌≡◌, refl, ap, true, false, List, [], ◌∷◌, ◌++◌, some, ltb, ◌==◌,
  length, length-append, slice, at-append_length, slice-append, arith, sym, ◌∙◌, lt→ltb,
  le→ltb-false,
}
use netobserv_spcg.Pcap.Bytes.{Bytes}
use netobserv_spcg.Pcap.Frame.{dns_labels, join_labels, parse_dns_query}

-- RFC 1035: each label behind its length, and an empty label at the end.
pub encode_labels : List Bytes → Bytes
encode_labels [] = 0 ∷ []
encode_labels (l ∷ ls) = length l ∷ (l ++ encode_labels ls)

abbrev pub after_dots : List Bytes → Bytes
after_dots [] = []
after_dots (l ∷ ls) = 46 ∷ (l ++ after_dots ls)

-- The text of a name: the first label, and a dot, which is the byte 46, before each further one.
abbrev pub dotted : List Bytes → Bytes
dotted [] = []
dotted (l ∷ ls) = l ++ after_dots ls

join_labels-dotted : (ls : List Bytes) → join_labels ls ≡ dotted ls
unfolding join_labels
join_labels-dotted [] = refl
join_labels-dotted (l ∷ []) = sym (append-nil l)
join_labels-dotted (l ∷ l' ∷ ls) = ap (λ tail. l ++ (46 ∷ tail)) (join_labels-dotted (l' ∷ ls))

abbrev pub AreLabels : List Bytes → Type 0
AreLabels [] = Unit
AreLabels (l ∷ ls) = (1 ≤ length l) × (length l ≤ 63) × AreLabels ls

length-encode_labels : (ls : List Bytes) → length ls < length (encode_labels ls)
unfolding encode_labels
length-encode_labels [] = omega arith
length-encode_labels (l ∷ ls) =
    omega (arith, length-encode_labels ls, length-append l (encode_labels ls))

slice_label :
    (pre : Bytes) (x : ℕ) (l rest : Bytes)
    → slice (pre ++ (x ∷ (l ++ rest))) (length pre + 1) (length pre + 1 + length l) ≡ some l
slice_label pre x l rest =
    let n : length (pre ++ (x ∷ [])) ≡ length pre + 1 = length-append pre (x ∷ []) in
    let cut = slice-append (pre ++ (x ∷ [])) l rest in rw (n, append_assoc) at cut

-- One round of the loop over a well-formed label.
dns_labels_step :
    (fuel : ℕ) (pre l rest : Bytes) (labels : List Bytes)
    → 1 ≤ length l
    → length l ≤ 63
    → dns_labels (suc fuel) (pre ++ (length l ∷ (l ++ rest))) (length pre) labels
      ≡ dns_labels fuel
          (pre ++ (length l ∷ (l ++ rest)))
          (length pre + 1 + length l)
          (labels ++ (l ∷ []))
unfolding dns_labels
dns_labels_step fuel pre l rest labels pos short =
    let size = length-append pre (length l ∷ (l ++ rest)) in
    let tail = length-append l rest in
    let t1 : ltb (length pre) (length (pre ++ (length l ∷ (l ++ rest)))) ≡ true =
      lt→ltb _ _ (omega arith) in
    let t2 : (length l == 0) ≡ false = ground arith in
    let t3 : ltb 63 (length l) ≡ false = ground arith in
    let t4 : ltb (length (pre ++ (length l ∷ (l ++ rest)))) (length pre + 1 + length l) ≡ false =
      le→ltb-false _ _ (omega arith) in
    rw (
      t1,
      at-append_length pre (length l) (l ++ rest),
      t2,
      t3,
      t4,
      slice_label pre (length l) l rest,
    )

-- The loop at the closing empty label.
dns_labels_end :
    (fuel : ℕ) (pre rest : Bytes) (labels : List Bytes)
    → dns_labels (suc fuel) (pre ++ (0 ∷ rest)) (length pre) labels ≡ some (some labels)
unfolding dns_labels
dns_labels_end fuel pre rest labels =
    let size = length-append pre (0 ∷ rest) in
    let t1 : ltb (length pre) (length (pre ++ (0 ∷ rest))) ≡ true = lt→ltb _ _ (omega arith) in
    rw (t1, at-append_length pre 0 rest)

dns_labels-encode :
    (fuel : ℕ) (pre : Bytes) (ls : List Bytes) (rest : Bytes) (labels : List Bytes)
    → AreLabels ls
    → length ls < fuel
    → dns_labels fuel (pre ++ (encode_labels ls ++ rest)) (length pre) labels
      ≡ some (some (labels ++ ls))
unfolding encode_labels
dns_labels-encode zero pre ls rest labels v h = absurd (omega arith)
dns_labels-encode (suc fuel) pre [] rest labels v h =
    dns_labels_end fuel pre rest labels ∙ ap (λ xs. some (some xs)) (sym (append-nil labels))
dns_labels-encode (suc fuel) pre (l ∷ ls) rest labels (pos, short, v) h =
    let tail = encode_labels ls ++ rest in
    let done = pre ++ (length l ∷ l) in
    let same : pre ++ (length l ∷ (l ++ tail)) ≡ done ++ tail = rw append_assoc in
    let size : length pre + 1 + length l ≡ length done =
      omega (arith, length-append pre (length l ∷ l)) in
    let step = dns_labels_step fuel pre l tail labels pos short in
    let ih = dns_labels-encode fuel done ls rest (labels ++ (l ∷ [])) v (omega arith) in
    rw (
      append_assoc l (encode_labels ls) rest,
      step,
      same,
      size,
      ih,
      append_assoc labels (l ∷ []) ls,
    )

-- A DNS message with a 12-byte header and a QNAME of labels of 1 to 63 bytes is read back as its
-- labels with a dot, the byte 46, between any two, whatever follows the name.
pub parse_dns_query-encode_labels :
    (header : Bytes) (ls : List Bytes) (rest : Bytes)
    → length header ≡ 12
    → AreLabels ls
    → parse_dns_query (header ++ (encode_labels ls ++ rest)) ≡ some (dotted ls)
unfolding parse_dns_query
parse_dns_query-encode_labels header ls rest twelve v =
    let whole = header ++ (encode_labels ls ++ rest) in
    let size = length-append header (encode_labels ls ++ rest) in
    let part = length-append (encode_labels ls) rest in
    let more = length-encode_labels ls in
    let t : ltb (length whole) 13 ≡ false = le→ltb-false _ _ (omega arith) in
    let read = dns_labels-encode (length whole) header ls rest [] v (omega arith) in
    rw (t, (rw twelve at read), join_labels-dotted)
