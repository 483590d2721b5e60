-- ===== src/Pool/Stuck.antt =====
-- A running collector against the calls of SetDBMetricsEnable.
use xlorm.Common.{◌≡◌, ◌≢◌, refl, sym, ◌∙◌, Bool, true, false, arith}
use xlorm.Pool.{
  Pool, new_pool, set_db_metrics_enable, tick, Step, Steps, here, next, setter_runs,
  collector_starts, collector_ticks, collector_stops, collector_ends, context_ends,
}

false-ne-true : false ≢ true
false-ne-true e = cc

module _ {ℓ} {S : Type ℓ} where
  -- The channel that stops a collector is open whenever the mutex is free.
  Step-open : {s t : Pool S} → Step s t → s.stop_closed ≡ false → t.stop_closed ≡ false
  unfolding set_db_metrics_enable tick
  Step-open (setter_runs s true off) h = ground (arith, h)
  Step-open (setter_runs s false off) h = ground (arith, h)
  Step-open (collector_starts s n off e) h = h
  Step-open (collector_ticks s stats on) h = ground (arith, h)
  Step-open (collector_stops s on e) h = h
  Step-open (collector_ends s on e) h = h
  Step-open (context_ends s) h = h

  pub Steps-open : {s t : Pool S} → Steps s t → s.stop_closed ≡ false → t.stop_closed ≡ false
  Steps-open here h = h
  Steps-open (next steps step) h = Step-open step (Steps-open steps h)

  -- A context that has ended does not come back.
  Step-cancelled : {s t : Pool S} → Step s t → t.cancelled ≡ false → s.cancelled ≡ false
  unfolding set_db_metrics_enable tick
  Step-cancelled (setter_runs s true off) h = ground (arith, h)
  Step-cancelled (setter_runs s false off) h = ground (arith, h)
  Step-cancelled (collector_starts s n off e) h = h
  Step-cancelled (collector_ticks s stats on) h = ground (arith, h)
  Step-cancelled (collector_stops s on e) h = h
  Step-cancelled (collector_ends s on e) h = h
  Step-cancelled (context_ends s) h = absurd cc

  -- The collector holds the mutex, and statistics are on.
  abbrev IsHeld : Pool S → Type 0
  IsHeld s = (s.running ≡ true) × (s.enabled ≡ true) × (s.stop_closed ≡ false)

  Step-IsHeld :
      {s t : Pool S}
      → Step s t
      → t.cancelled ≡ false
      → IsHeld s
      → IsHeld t × (t.returned ≡ s.returned)
  unfolding tick
  Step-IsHeld (setter_runs s enable off) c h = absurd (false-ne-true (sym off ∙ h.0))
  Step-IsHeld (collector_starts s n off e) c h = absurd (false-ne-true (sym off ∙ h.0))
  Step-IsHeld (collector_ticks s stats on) c (r, e, o) = rw e ((r, refl, o), refl)
  Step-IsHeld (collector_stops s on e) c h = absurd (false-ne-true (sym h.2 ∙ e))
  Step-IsHeld (collector_ends s on e) c h = absurd (false-ne-true (sym c ∙ e))
  Step-IsHeld (context_ends s) c h = absurd cc

  Steps-IsHeld :
      {s t : Pool S}
      → Steps s t
      → t.cancelled ≡ false
      → IsHeld s
      → IsHeld t × (t.returned ≡ s.returned)
  Steps-IsHeld here c h = (h, refl)
  Steps-IsHeld (next steps step) c h =
      let (held, same) = Steps-IsHeld steps (Step-cancelled step c) h in
      let (held', same') = Step-IsHeld step c held in (held', same' ∙ same)

  -- A collector that has started stays in its way: from a state that was reached, in which it runs with the
  -- statistics on, every state that is reached before the context ends has it still running, with the
  -- statistics still on, and no call of SetDBMetricsEnable has returned meanwhile.
  pub collector-stuck :
      {s t : Pool S} (enable : Bool)
      → Steps (new_pool enable) s
      → s.running ≡ true
      → s.enabled ≡ true
      → Steps s t
      → t.cancelled ≡ false
      → (t.running ≡ true) × (t.enabled ≡ true) × (t.returned ≡ s.returned)
  unfolding new_pool
  collector-stuck enable reached on e steps c =
      let ((on', e', o'), same) = Steps-IsHeld steps c (on, e, Steps-open reached refl) in
      (on', e', same)
