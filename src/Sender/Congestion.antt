-- ===== src/Sender/Congestion.antt =====
-- The congestion control over a run of acknowledgements.
use p2p_cc.Base.{ℕ, zero, suc, ◌+◌, ◌<◌, ◌≡◌, ◌∙◌, ◌⊎◌, inl, inr, [], ◌∷◌, arith}
use p2p_cc.Sender.{Data, FloatOps, slowstart, con_avoid, congestion_control}

module _ {F : Type 0} ⦃fl : FloatOps F⦄ where
  -- k acknowledgements that are no repetitions, with respect to the congestion control.
  abbrev pub after_acks : ℕ → Data F → Data F
  after_acks zero d = d
  after_acks (suc k) d = after_acks k (congestion_control d).0

  slow_step :
      (d : Data F)
      → d.congestion_control_state ≡ slowstart
      → ((d.ssthresh < d.send_window) ⊎ (d.send_window < d.ssthresh))
      → (congestion_control d).0 ≡ record d { send_window = d.send_window + 1 }
  unfolding congestion_control
  slow_step d s h = ground arith

  threshold_step :
      (d : Data F)
      → d.congestion_control_state ≡ slowstart
      → d.send_window ≡ d.ssthresh
      → (congestion_control d).0 ≡ record d {
        send_window = d.ssthresh;
        congestion_control_state = con_avoid;
        increase_rate = fl.zero;
      }
  unfolding congestion_control
  threshold_step d s h = ground arith

  -- Whatever the state, an acknowledgement leaves the window as it is and logs nothing, or makes it
  -- one larger and logs the new size under the chunk's id. The window's start, its end and the
  -- threshold do not change.
  pub congestion_control-log :
      (d : Data F)
      → let (d', lines) = congestion_control d in
        (((d'.send_window ≡ d.send_window) × (lines ≡ []))
          ⊎ ((d'.send_window ≡ d.send_window + 1) × (lines ≡ (d.offset, d'.send_window) ∷ [])))
        × (d'.start ≡ d.start)
        × (d'.end ≡ d.end)
        × (d'.ssthresh ≡ d.ssthresh)
  unfolding congestion_control
  congestion_control-log d = ground arith

  -- In slow start each of the next k acknowledgements makes the window one larger, if the window is
  -- k below the threshold; one more at the threshold starts congestion avoidance at that window.
  pub after_acks-slow_start :
      (k : ℕ) (d : Data F)
      → d.congestion_control_state ≡ slowstart
      → d.send_window + k ≡ d.ssthresh
      → (after_acks k d ≡ record d { send_window = d.ssthresh })
        × (after_acks (suc k) d ≡ record d {
          send_window = d.ssthresh;
          congestion_control_state = con_avoid;
          increase_rate = fl.zero;
        })
  after_acks-slow_start zero d s h =
      let e : d.send_window ≡ d.ssthresh = omega arith in
      (λ i. record d { send_window = e i }, threshold_step d s e)
  after_acks-slow_start (suc k) d s h =
      rw (slow_step d s (inr (omega arith)))
        (after_acks-slow_start k (record d { send_window = d.send_window + 1 }) s (omega arith))

  -- A window that is above the threshold in slow start never leaves it: the code compares for
  -- equality only, so each acknowledgement makes the window one larger for ever.
  pub after_acks-endless :
      (k : ℕ) (d : Data F)
      → d.congestion_control_state ≡ slowstart
      → d.ssthresh < d.send_window
      → after_acks k d ≡ record d { send_window = d.send_window + k }
  after_acks-endless zero d s h = λ i. record d { send_window = e i }
    where
      e : d.send_window ≡ d.send_window + 0
      e = omega arith
  after_acks-endless (suc k) d s h = rw (slow_step d s (inl h)) (
      after_acks-endless k (record d { send_window = d.send_window + 1 }) s (omega arith)
      ∙ (λ i. record d { send_window = e i }))
    where
      e : d.send_window + 1 + k ≡ d.send_window + suc k
      e = omega arith
