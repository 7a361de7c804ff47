-- ===== src/App/Supervisor/Retries.antt =====
-- How long src/app/supervisor.cpp goes on trying to reconnect.
use spout_relay.Base.{
  ℕ, ◌+◌, Bool, true, false, List, [], ◌∷◌, Option, none, some, length, ◌≡◌, refl, sym, ap, ◌∙◌,
  subst, arith, pos, ltb_ℤ, leb_ℤ, ◌⊎◌, inl, inr, Returns, returns, bind, branch, weaken, both,
}
use spout_relay.Common.Types.{PublisherState, reconnecting_output}
use spout_relay.Spout.Monitor.{Reception}
use spout_relay.Capture.FramePump.{FramePump}
use spout_relay.App.StateMachine.{StateMachine, same}
use spout_relay.App.Supervisor.State.{Platform, Sinks, Supervisor, EncodeThread, poll_stop}
use spout_relay.App.Supervisor.EncodeThread.{Round, encode_round}
use spout_relay.App.Supervisor.Run.{
  Background, encodes, captures, Inputs, capture_round, background_round, run_background, dispatch,
  run_loop,
}
use spout_relay.App.Supervisor.Ownership.Defs.{Inv, IsReconnecting}
use spout_relay.App.Supervisor.Ownership.Helpers.{own}
use spout_relay.App.Supervisor.Ownership.Run.{capture_round-Same, dispatch-Inv, polled}
use spout_relay.App.Supervisor.Visits.{IsOut, Counted, handle_reconnecting_output-Counted}

-- What the count depends on stays as it is.
record Still (s t : Supervisor) : Type 0 where
  inv : Inv t
  place : t.state_machine.current ≡ s.state_machine.current
  config : t.config ≡ s.config
  attempts : t.reconnect_attempts ≡ s.reconnect_attempts

is_reconnecting : (p : PublisherState) → same p reconnecting_output ≡ true → p ≡ reconnecting_output
unfolding same
is_reconnecting reconnecting_output e = refl
is_reconnecting _ e = cc

module _ (pf : Platform) where
  capture_round-Kept :
      (a : Reception) (alive now : ℕ) (o : Option FramePump) (s : Supervisor)
      → let t = capture_round a alive now o s in
        (t.state_machine ≡ s.state_machine)
        × (t.config ≡ s.config)
        × (t.reconnect_attempts ≡ s.reconnect_attempts)
  unfolding capture_round
  capture_round-Kept a alive now none s = (refl, refl, refl)
  capture_round-Kept a alive now (some p) s = (refl, refl, refl)

  encode_round-none :
      (a : Round) (o : Option EncodeThread) (s : Supervisor)
      → o ≡ none
      → Inv s
      → Returns (Still s) (encode_round pf a o s)
  unfolding encode_round
  encode_round-none a none s e inv =
      returns (record { inv = inv; place = refl; config = refl; attempts = refl })
  encode_round-none a (some t) s e inv = cc

  -- Without a thread only the capture thread takes rounds.
  background_round-Still :
      (b : Background) (s : Supervisor)
      → s.state_machine.current ≡ reconnecting_output
      → Inv s
      → Returns (Still s) (background_round pf b s)
  unfolding background_round
  background_round-Still (encodes a) s place inv =
      let o : IsReconnecting s = own reconnecting_output place inv in
      encode_round-none a s.encode_thread s o.no_thread inv
  background_round-Still (captures a alive now) s place inv =
      let k = capture_round-Kept a alive now s.frame_pump s in
      returns (record {
        inv = (capture_round-Same a alive now s.frame_pump s refl inv).inv;
        place = ap (λ (m : StateMachine Sinks). m.current) k.0;
        config = k.1;
        attempts = k.2;
      })

  run_background-Still :
      (bs : List Background) (s : Supervisor)
      → s.state_machine.current ≡ reconnecting_output
      → Inv s
      → Returns (Still s) (run_background pf bs s)
  unfolding run_background
  run_background-Still [] s place inv =
      returns (record { inv = inv; place = refl; config = refl; attempts = refl })
  run_background-Still (b ∷ bs) s place inv = bind (background_round-Still b s place inv) λ t k.
      weaken (run_background-Still bs t (k.place ∙ place) k.inv) λ u l. record {
        inv = l.inv;
        place = l.place ∙ k.place;
        config = l.config ∙ k.config;
        attempts = l.attempts ∙ k.attempts;
      }

  dispatch-Counted :
      (a : Inputs) (s : Supervisor)
      → s.state_machine.current ≡ reconnecting_output
      → s.shutdown_requested ≡ false
      → Inv s
      → Returns (λ t. Inv t × (IsOut t ⊎ Counted s t)) (dispatch pf s.state_machine.current a s)
  unfolding dispatch
  dispatch-Counted a s place go inv =
      both (dispatch-Inv pf s.state_machine.current a s refl go inv) (
        subst (λ p. Returns (λ t. IsOut t ⊎ Counted s t) (dispatch pf p a s)) (sym place)
          (handle_reconnecting_output-Counted pf a.reconnecting s place
            (own reconnecting_output place inv)))

  -- One round of the loop in RECONNECTING_OUTPUT.
  run_one-Counted :
      (a : Inputs) (s : Supervisor)
      → s.state_machine.current ≡ reconnecting_output
      → Inv s
      → Returns (λ t. Inv t × (IsOut t ⊎ Counted s t)) (run_loop pf (a ∷ []) s)
  unfolding run_loop poll_stop
  run_one-Counted a s place inv = bind (run_background-Still a.background s place inv) λ t k.
      let u = poll_stop a.stop t in
      let inv' = polled t a.stop k.inv in
      branch _ (λ h. returns (inv', inl (inr h)))
        λ go.
          bind (dispatch-Counted a u (k.place ∙ place) go inv') λ v (i, h).
            returns (i, elim h [ inl out ↦ inl out | inr c ↦ inr (ground (arith, c, k)) ])

  -- The rounds lead out of RECONNECTING_OUTPUT, and none of them meets a fault before that.
  unfoldable pub LeadsOut : List Inputs → Supervisor → Type 0
  LeadsOut [] s = IsOut s
  LeadsOut (a ∷ rest) s = IsOut s ⊎ Returns (LeadsOut rest) (run_loop pf (a ∷ []) s)

  out : (rounds : List Inputs) (s : Supervisor) → IsOut s → LeadsOut rounds s
  unfolding LeadsOut
  out [] s h = h
  out (a ∷ rest) s h = inl h

  leads_out :
      (rounds : List Inputs) (s : Supervisor) (b : Bool)
      → same s.state_machine.current reconnecting_output ≡ b
      → Inv s
      → leb_ℤ (pos s.reconnect_attempts) s.config.rtsp.max_reconnect_attempts ≡ true
      → ltb_ℤ s.config.rtsp.max_reconnect_attempts (pos (length rounds + s.reconnect_attempts))
        ≡ true
      → LeadsOut rounds s
  unfolding LeadsOut
  leads_out rounds s false e inv under enough = out rounds s (inl e)
  leads_out [] s true e inv under enough = ground arith
  leads_out (a ∷ rest) s true e inv under enough = inr (
      weaken (run_one-Counted a s (is_reconnecting _ e) inv) λ t (i, h). elim h [
        | inl o ↦ out rest t o
        | inr c ↦
            leads_out rest t _ refl i (rw (c.config, c.attempts) (ground (arith, c.allowed)))
              (rw (c.config, c.attempts) (ground (arith, enough)))
      ])

  -- From a state that holds the objects which belong to it and is named in the metrics, with the
  -- callback of `init` installed, a positive `encoder.fps` and `spout.poll_interval_ms`, and no more
  -- attempts to reconnect counted than `max_reconnect_attempts`: whatever the threads, the network
  -- and the senders do, as many rounds as bring that count above the maximum lead out of
  -- RECONNECTING_OUTPUT, or to a request to stop, and none up to there meets a fault.
  pub run_loop-LeadsOut :
      (rounds : List Inputs) (s : Supervisor)
      → Inv s
      → leb_ℤ (pos s.reconnect_attempts) s.config.rtsp.max_reconnect_attempts ≡ true
      → ltb_ℤ s.config.rtsp.max_reconnect_attempts (pos (length rounds + s.reconnect_attempts))
        ≡ true
      → LeadsOut rounds s
  run_loop-LeadsOut rounds s = leads_out rounds s _ refl
