-- ===== src/Probe/Correlator/Progress.antt =====
-- The correlator of internal/trace/probe/correlator.go paints the primary edges one by one.
use mathlib.Core.Option.{some-injective}
use native.Mathlib.Numerals.{add-one}
use netobserv_spcg.Common.{
  AreApart, none≢some, get_elem?_of_lt, leb-false, ℕ, zero, suc, ◌+◌, ◌≤◌, ◌≡◌, ◌≢◌, refl, sym,
  subst, ap, inl, inr, String, String-discrete, true, false, List, [], ◌∷◌, some, none, Elem, here,
  there, leb, length, get_elem?, Bool-cases, arith,
}
use netobserv_spcg.Common.Maps.{Map, lookup, insert, lookup-insert_self, lookup-insert_ne}
use netobserv_spcg.Trace.Types.{TraceEdge}
use netobserv_spcg.Probe.Correlator.{
  EdgePaintState, active_green, GraphCorrelator, advance, remaining, is_painted, count_painted,
  verified_count, primary_count,
}

-- The first `seq` edges are painted and the others are not.
abbrev pub PaintedTo : Map String EdgePaintState → ℕ → List TraceEdge → Type 0
PaintedTo states n [] = n ≡ 0
PaintedTo states zero (e ∷ edges) =
    (is_painted (lookup String-discrete e.id states) ≡ false) × PaintedTo states zero edges
PaintedTo states (suc n) (e ∷ edges) =
    (is_painted (lookup String-discrete e.id states) ≡ true) × PaintedTo states n edges

-- No two edges share an id.
abbrev pub HasDistinctIds : List TraceEdge → Type 0
HasDistinctIds edges = AreApart (λ (e : TraceEdge) (f : TraceEdge). e.id ≢ f.id) edges

pub record IsSound (c : GraphCorrelator) : Type 0 where
  pub distinct : HasDistinctIds c.edges
  pub painted : PaintedTo c.edge_states c.seq c.edges

PaintedTo-le :
    (states : Map String EdgePaintState) (n : ℕ) (edges : List TraceEdge)
    → PaintedTo states n edges
    → n ≤ length edges
PaintedTo-le states zero [] h = omega arith
PaintedTo-le states (suc n) [] h = omega arith
PaintedTo-le states zero (e ∷ edges) h = omega arith
PaintedTo-le states (suc n) (e ∷ edges) h = omega (arith, PaintedTo-le states n edges h.1)

count_painted-PaintedTo :
    (states : Map String EdgePaintState) (n : ℕ) (edges : List TraceEdge)
    → PaintedTo states n edges
    → count_painted states edges ≡ n
unfolding count_painted
count_painted-PaintedTo states zero [] h = refl
count_painted-PaintedTo states (suc n) [] h = sym h
count_painted-PaintedTo states zero (e ∷ edges) h =
    rw h.0 (count_painted-PaintedTo states zero edges h.1)
count_painted-PaintedTo states (suc n) (e ∷ edges) h =
    rw h.0 (ap suc (count_painted-PaintedTo states n edges h.1))

-- Painting an id that no edge has leaves the prefix as it is.
PaintedTo-other :
    (states : Map String EdgePaintState) (id : String) (s : EdgePaintState) (n : ℕ)
    (edges : List TraceEdge)
    → ((f : TraceEdge) → Elem f edges → id ≢ f.id)
    → PaintedTo states n edges
    → PaintedTo (insert String-discrete id s states) n edges
PaintedTo-other states id s zero [] ne h = h
PaintedTo-other states id s (suc n) [] ne h = h
PaintedTo-other states id s zero (e ∷ edges) ne h = (
  rw (lookup-insert_ne String-discrete id e.id s states (ne e (here refl))) h.0,
  PaintedTo-other states id s zero edges (λ f j. ne f (there j)) h.1,
)
PaintedTo-other states id s (suc n) (e ∷ edges) ne h = (
  rw (lookup-insert_ne String-discrete id e.id s states (ne e (here refl))) h.0,
  PaintedTo-other states id s n edges (λ f j. ne f (there j)) h.1,
)

get_elem?-Elem :
    (edges : List TraceEdge) (n : ℕ) {e : TraceEdge} → get_elem? edges n ≡ some e → Elem e edges
get_elem?-Elem [] n g = absurd (none≢some g)
get_elem?-Elem (f ∷ edges) zero g = here (some-injective _ _ g)
get_elem?-Elem (f ∷ edges) (suc n) g = there (get_elem?-Elem edges n g)

-- Painting the edge at index `n` moves the border by one.
PaintedTo-next :
    (states : Map String EdgePaintState) (s : EdgePaintState) (n : ℕ) (edges : List TraceEdge)
    {e : TraceEdge}
    → is_painted (some s) ≡ true
    → HasDistinctIds edges
    → get_elem? edges n ≡ some e
    → PaintedTo states n edges
    → PaintedTo (insert String-discrete e.id s states) (suc n) edges
PaintedTo-next states s n [] p d g h = absurd (none≢some g)
PaintedTo-next states s zero (f ∷ edges) {e} p d g h =
    let same : f.id ≡ e.id = ap (λ (x : TraceEdge). x.id) (some-injective _ _ g) in
    subst (λ (id : String). PaintedTo (insert String-discrete id s states) 1 (f ∷ edges)) same
      (
        rw (lookup-insert_self String-discrete f.id s states) p,
        PaintedTo-other states f.id s zero edges d.0 h.1,
      )
PaintedTo-next states s (suc n) (f ∷ edges) {e} p d g h =
    let ne = d.0 e (get_elem?-Elem edges n g) in
    (
      rw (lookup-insert_ne String-discrete e.id f.id s states (λ q. ne (sym q))) h.0,
      PaintedTo-next states s n edges p d.1 g h.1,
    )

-- `Advance` keeps a correlator sound: its edges have distinct ids, and the first `seq` of them and
-- no other are painted.
pub advance-IsSound : (c : GraphCorrelator) → IsSound c → IsSound (advance c).0
unfolding advance
advance-IsSound c h = elim (Bool-cases (leb (length c.edges) c.seq)) [
  | inl done ↦ rw done h
  | inr more ↦
      let (e, g) = get_elem?_of_lt c.edges c.seq (leb-false (length c.edges) c.seq more) in
      rw (more, g)
        (record {
          distinct = h.distinct;
          painted =
              rw add-one (
                PaintedTo-next c.edge_states active_green c.seq c.edges refl h.distinct g
                  h.painted);
        })
]

-- The numbers that a sound correlator reports agree: as many edges are verified as `seq` says, and
-- the verified and the remaining ones are all primary edges.
pub counts_agree :
    (c : GraphCorrelator)
    → IsSound c
    → (verified_count c ≡ c.seq) × (verified_count c + remaining c ≡ primary_count c)
unfolding verified_count remaining primary_count
counts_agree c h =
    let count = count_painted-PaintedTo c.edge_states c.seq c.edges h.painted in
    let bound = PaintedTo-le c.edge_states c.seq c.edges h.painted in (count, ground arith)

-- With edges left, `Advance` takes one of them.
pub advance-step :
    (c : GraphCorrelator) (k : ℕ)
    → IsSound c
    → remaining c ≡ suc k
    → (c' : GraphCorrelator) × (id : String) × (advance c ≡ (c', some id))
      × (remaining c' ≡ k)
      × (c'.edges ≡ c.edges)
unfolding advance remaining
advance-step c k h r = elim (Bool-cases (leb (length c.edges) c.seq)) [
  | inl done ↦ absurd (ground arith)
  | inr more ↦
      let (e, g) = get_elem?_of_lt c.edges c.seq (leb-false (length c.edges) c.seq more) in
      (
        record c {
          edge_states = insert String-discrete e.id active_green c.edge_states;
          seq = c.seq + 1;
        },
        e.id,
        rw (more, g),
        ground arith,
        refl,
      )
]

-- With no edge left, `Advance` reports so and changes nothing.
pub advance-done : (c : GraphCorrelator) → IsSound c → remaining c ≡ 0 → advance c ≡ (c, none)
unfolding advance remaining
advance-done c h r = elim (Bool-cases (leb (length c.edges) c.seq)) [
  | inl done ↦ rw done
  | inr more ↦ absurd (ground arith)
]
