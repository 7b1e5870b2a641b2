-- ===== src/Probe/Session/Paint.antt =====
-- The painting of internal/trace/probe/session.go ends with every primary edge verified.
use netobserv_spcg.Common.{
  ℕ, zero, suc, ◌%◌, ◌≡◌, refl, ap, subst, ◌∙◌, String, true, false, some, none, ◌==◌, arith,
  length, if_true, if_false,
}
use netobserv_spcg.Probe.Correlator.{
  GraphCorrelator, advance, remaining, verified_count, primary_count,
}
use netobserv_spcg.Probe.Correlator.Progress.{
  IsSound, advance-IsSound, advance-step, advance-done, counts_agree,
}
use netobserv_spcg.Probe.Session.{
  Session, Source, simulation, finish_probe, broadcast, paint_edge, paint_hop, run_simulated_paint,
  hook_at,
}

-- A running session without the demonstration drop, whose correlator is `c`.
pub record IsRunning (s : Session) (c : GraphCorrelator) : Type 0 where
  pub correlated : s.corr ≡ some c
  pub live : s.finished ≡ false
  pub no_drop : s.demo_drop ≡ false

-- A finished session whose correlator is `c`.
pub record IsFinished (s : Session) (c : GraphCorrelator) : Type 0 where
  pub correlated : s.corr ≡ some c
  pub over : s.finished ≡ true

module _ (s : Session) (c c' : GraphCorrelator) (hook : String) (source : Source)
    (run : IsRunning s c) where
  paint_hop-more :
      {id : String} {k : ℕ}
      → advance c ≡ (c', some id)
      → remaining c' ≡ suc k
      → IsRunning (paint_hop s hook source) c'
  unfolding paint_hop paint_edge broadcast
  paint_hop-more e r =
      let t : (remaining c' == 0) ≡ false = ground arith in
      rw (run.correlated, run.live, run.no_drop, e, t)
        (record { correlated = refl; live = refl; no_drop = refl })

  paint_hop-last :
      {id : String}
      → advance c ≡ (c', some id)
      → remaining c' ≡ 0
      → IsFinished (paint_hop s hook source) c'
  unfolding paint_hop paint_edge broadcast finish_probe
  paint_hop-last e r =
      let t : (remaining c' == 0) ≡ true = ground arith in
      rw (run.correlated, run.live, run.no_drop, e, t) (record { correlated = refl; over = refl })

  paint_hop-end : advance c ≡ (c, none) → IsFinished (paint_hop s hook source) c
  unfolding paint_hop broadcast finish_probe
  paint_hop-end e =
      rw (run.correlated, run.live, run.no_drop, e) (record { correlated = refl; over = refl })

-- A painted trace: finished, with all primary edges verified.
pub record IsVerified (s : Session) (n : ℕ) : Type 0 where
  pub corr : GraphCorrelator
  pub correlated : s.corr ≡ some corr
  pub over : s.finished ≡ true
  pub total : primary_count corr ≡ n
  pub verified : verified_count corr ≡ n

IsVerified-of_finished :
    (s : Session) (c : GraphCorrelator)
    → IsSound c
    → remaining c ≡ 0
    → IsFinished s c
    → IsVerified s (primary_count c)
IsVerified-of_finished s c h r f = record {
  corr = c;
  correlated = f.correlated;
  over = f.over;
  total = refl;
  verified = omega (arith, counts_agree c h);
}

finished_stops : (fuel : ℕ) (s : Session) → s.finished ≡ true → run_simulated_paint fuel s ≡ some s
unfolding run_simulated_paint
finished_stops zero s h = if_true s.finished _ _ h
finished_stops (suc fuel) s h = if_true s.finished _ _ h

tick :
    (fuel : ℕ) (s : Session)
    → s.finished ≡ false
    → run_simulated_paint (suc fuel) s
      ≡ run_simulated_paint fuel (paint_hop s (hook_at (s.paint_seq % 4)) simulation)
unfolding run_simulated_paint
tick fuel s h = if_false s.finished _ _ h

-- The simulation, tick by tick.
paint_all :
    (k : ℕ) (s : Session) (c : GraphCorrelator)
    → IsSound c
    → IsRunning s c
    → remaining c ≡ k
    → (s' : Session) × (run_simulated_paint (suc k) s ≡ some s') × IsVerified s' (primary_count c)
unfolding primary_count
paint_all zero s c h run r =
    let hook = hook_at (s.paint_seq % 4) in
    let f = paint_hop-end s c c hook simulation run (advance-done c h r) in
    (
      paint_hop s hook simulation,
      tick 0 s run.live ∙ finished_stops 0 _ f.over,
      IsVerified-of_finished _ c h r f,
    )
paint_all (suc zero) s c h run r =
    let hook = hook_at (s.paint_seq % 4) in
    let (c', id, e, left, same) = advance-step c 0 h r in
    let h' : IsSound c' = subst (λ p. IsSound p.0) e (advance-IsSound c h) in
    let f = paint_hop-last s c c' hook simulation run e left in
    let s' = paint_hop s hook simulation in
    (
      s',
      tick 1 s run.live ∙ finished_stops 1 s' f.over,
      subst (IsVerified s') (ap length same) (IsVerified-of_finished s' c' h' left f),
    )
paint_all (suc (suc k)) s c h run r =
    let hook = hook_at (s.paint_seq % 4) in
    let (c', id, e, left, same) = advance-step c (suc k) h r in
    let h' : IsSound c' = subst (λ p. IsSound p.0) e (advance-IsSound c h) in
    let run' = paint_hop-more s c c' hook simulation run e left in
    let (s', ends, v) = paint_all (suc k) (paint_hop s hook simulation) c' h' run' left in
    (s', tick (suc (suc k)) s run.live ∙ ends, subst (IsVerified s') (ap length same) v)

-- The simulated probe of a running session without the demonstration drop ends, if its correlator
-- is sound: within one tick for each edge that is left, and one more, the session is finished and
-- every primary edge is verified.
pub run_simulated_paint-IsVerified :
    (s : Session) (c : GraphCorrelator)
    → IsSound c
    → IsRunning s c
    → (s' : Session) × (run_simulated_paint (suc (remaining c)) s ≡ some s')
      × IsVerified s' (primary_count c)
run_simulated_paint-IsVerified s c h run = paint_all (remaining c) s c h run refl
