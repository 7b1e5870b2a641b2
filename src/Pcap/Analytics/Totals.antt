-- ===== src/Pcap/Analytics/Totals.antt =====
-- The totals of `AnalyzeEvents` in internal/pcap/analytics.go.
use mathlib.Core.Option.{some-injective}
use netobserv_spcg.Common.{
  ℕ, ◌+◌, ◌*◌, ◌%◌, ◌≤◌, ◌≡◌, refl, ◌∙◌, List, [], ◌∷◌, Option, some, none, length, map, ltb,
  if◌then◌else◌, All, sum_by, bind-eq-some, arith,
}
use netobserv_spcg.Common.Int64.{ℤ, ℤ-discrete}
use netobserv_spcg.Common.Maps.{Map, lookup}
use netobserv_spcg.Common.Maps.Entries.{value_or, sum_of, sum_of-insert}
use netobserv_spcg.Common.Sort.{sort_slice-sum_by}
use netobserv_spcg.Pcap.Meta.{FlowMeta, Formats}
use netobserv_spcg.Pcap.Session.{FlowEvent, u64_mod}
use netobserv_spcg.Pcap.Analytics.{
  TimeBucket, Analysis, bucket_index, bucket_or_new, add_to_bucket, add_sample, read_sample,
  sorted_buckets, peak_of, finish_analysis, empty_analysis, add_all_samples,
}
use netobserv_spcg.Pcap.Analytics.Peers.{IpOps}

abbrev packets_of : TimeBucket → ℕ
packets_of b = b.packets

abbrev packets_in : Map ℤ TimeBucket → ℕ
packets_in m = sum_of ℤ-discrete packets_of m

value_or-bucket_or_new :
    (index : ℤ) (o : Option TimeBucket)
    → value_or ℤ-discrete packets_of 0 o ≡ (bucket_or_new index o).packets
value_or-bucket_or_new index none = refl
value_or-bucket_or_new index (some b) = refl

packets_in-add_to_bucket :
    (index : ℤ) (size : ℕ) (m : Map ℤ TimeBucket)
    → packets_in (add_to_bucket index size m) ≡ packets_in m + 1
unfolding add_to_bucket
packets_in-add_to_bucket index size m = omega (
  arith,
  sum_of-insert ℤ-discrete packets_of index _ m,
  value_or-bucket_or_new index (lookup ℤ-discrete index m),
)

sum_by-values :
    (m : Map ℤ TimeBucket)
    → sum_by packets_of (map (λ entry. entry.1) m)
      ≡ sum_by (λ (e : ℤ × TimeBucket). packets_of e.1) m
sum_by-values [] = refl
sum_by-values (e ∷ m) = omega (arith, sum_by-values m)

sum_by-entries :
    (m : Map ℤ TimeBucket) → sum_by (λ (e : ℤ × TimeBucket). packets_of e.1) m ≡ packets_in m
sum_by-entries [] = refl
sum_by-entries ((k, b) ∷ m) = omega (arith, sum_by-entries m)

sum_by-sorted_buckets : (m : Map ℤ TimeBucket) → sum_by packets_of (sorted_buckets m) ≡ packets_in m
unfolding sorted_buckets
sum_by-sorted_buckets m = sum_by-values _ ∙ (sort_slice-sum_by _ _ _ ∙ sum_by-entries m)

raised :
    (x y : ℕ × ℕ)
    → (x.0 ≤ (if ltb x.0 y.0 then y else x).0) × (y.0 ≤ (if ltb x.0 y.0 then y else x).0)
raised x y = (ground arith, ground arith)

-- The peak is reached by no bucket more.
peak_of-Peak :
    (buckets : List TimeBucket) (peak : ℕ × ℕ)
    → (peak.0 ≤ (peak_of buckets peak).0) × All (λ b. b.packets ≤ (peak_of buckets peak).0) buckets
unfolding peak_of
peak_of-Peak [] peak = (omega arith, tt)
peak_of-Peak (b ∷ buckets) peak =
    let (least, most) = raised peak (b.packets, b.bytes * 8 * 10 % u64_mod) in
    let (over, all) =
      peak_of-Peak buckets
        (if ltb peak.0 b.packets then (b.packets, b.bytes * 8 * 10 % u64_mod) else peak) in
    (omega (arith, over, least), (omega (arith, over, most), all))

module _ (fmt : Formats) (ops : IpOps) where
  add_all_samples_counts :
      (first : ℕ) (events : List (FlowEvent FlowMeta)) (a b : Analysis)
      → add_all_samples fmt ops first events a ≡ some b
      → packets_in b.buckets ≡ packets_in a.buckets + length events
  unfolding add_all_samples add_sample
  add_all_samples_counts first [] a b e = rw (← some-injective a b e) (omega arith)
  add_all_samples_counts first (ev ∷ events) a b e =
      let (s, _, e1) = bind-eq-some (read_sample fmt ev) _ e in
      let rest = add_all_samples_counts first events _ b e1 in
      omega (arith, rest, packets_in-add_to_bucket (bucket_index first ev.time) s.size a.buckets)

-- The analysis after a loop from the empty one.
pub finish_analysis_totals :
    (fmt : Formats) (ops : IpOps) (first : ℕ) (events : List (FlowEvent FlowMeta)) (a : Analysis)
    → add_all_samples fmt ops first events empty_analysis ≡ some a
    → (sum_by packets_of (finish_analysis a).time_buckets ≡ length events)
      × All
          (λ b. b.packets ≤ (finish_analysis a).peak_bucket_packets)
          (finish_analysis a).time_buckets
unfolding finish_analysis
finish_analysis_totals fmt ops first events a e = (
  omega (
    arith,
    sum_by-sorted_buckets a.buckets,
    add_all_samples_counts fmt ops first events empty_analysis a e,
  ),
  (peak_of-Peak (sorted_buckets a.buckets) (0, 0)).1,
)
