-- ===== src/App/Supervisor/Ownership/FirstFrame.antt =====
-- The wait for the first frame in `handle_connecting_output` of src/app/supervisor.cpp ends.
use spout_relay.Base.{
  ℕ, zero, suc, ◌+◌, ◌-◌, ◌*◌, ◌/◌, ◌≤◌, ◌<◌, Bool, true, false, ◌≡◌, ◌≢◌, arith, ℤ, pos, negsuc,
  pos_part, ◌*ℤ◌, leb_ℤ, ltb_ℤ, choose, if◌then◌else◌,
}
use spout_relay.Spout.Monitor.{receive_latest_frame}
use spout_relay.App.Supervisor.State.{Supervisor}
use spout_relay.App.Logic.{should_reset_connect_timer_once}
use spout_relay.App.Supervisor.Handlers.Connecting.{
  Poll, ConnectingInputs, given_up, Waiting, reset_once, wait_for_frame, first_frame,
}

in_time : (t : ℤ) (k : ℕ) → leb_ℤ (t *ℤ pos 5) (pos k) ≡ false → k < pos_part t * 5
unfolding ◌*ℤ◌
in_time (pos n) k h = ground arith
in_time (negsuc n) k h = ground arith

-- Rounds that the wait may still last.
abbrev budget : ℤ → Waiting → ℕ
budget t w =
    pos_part t * 5
    - w.waited_us / 1000
    + (elim w.source_responded [ true ↦ 0 | false ↦ pos_part t * 5 + 1 ])

-- A round that does not time out brings the end nearer.
budget-falls :
    (t : ℤ) (ok : Bool) (p : Poll) (w : Waiting) (slept : ℕ)
    → leb_ℤ (t *ℤ pos 5) (pos ((reset_once ok p w).waited_us / 1000)) ≡ false
    → 1000 ≤ slept
    → let w₁ = reset_once ok p w in
      budget t (record w₁ { waited_us = w₁.waited_us + slept + p.late_us }) < budget t w
unfolding reset_once should_reset_connect_timer_once if◌then◌else◌
budget-falls t true p w slept h s =
    ground (arith, in_time t ((reset_once true p w).waited_us / 1000))
budget-falls t false p w slept h s =
    ground (arith, in_time t ((reset_once false p w).waited_us / 1000))

slept-ge : (interval : ℤ) → ltb_ℤ (pos 0) interval ≡ true → 1000 ≤ pos_part interval * 1000
slept-ge (pos n) h = ground arith
slept-ge (negsuc n) h = ground arith

-- With more rounds than the budget the wait ends by a frame, a request to stop or the timeout.
wait_for_frame-ends :
    (polls : ℕ → Poll) (t interval : ℤ) (i fuel : ℕ) (w : Waiting)
    → ltb_ℤ (pos 0) interval ≡ true
    → budget t w < fuel
    → wait_for_frame polls t interval i fuel w ≢ given_up
unfolding wait_for_frame
wait_for_frame-ends polls t interval i zero w h b = absurd (omega arith)
wait_for_frame-ends polls t interval i (suc fuel) w h b =
    let p = polls i in
    let r = receive_latest_frame p.reception w.buf w.info false w.monitor in
    let w₀ : Waiting = record w { buf = r.buf; info = r.info; monitor = r.monitor } in
    let w₁ = reset_once r.ok p w₀ in
    let goes_on = λ (late : leb_ℤ (t *ℤ pos 5) (pos (w₁.waited_us / 1000)) ≡ false).
      wait_for_frame-ends polls t interval (suc i) fuel
        (record w₁ { waited_us = w₁.waited_us + pos_part interval * 1000 + p.late_us }) h
        (omega (arith, budget-falls t r.ok p w₀ _ late (slept-ge interval h))) in
    choose (λ x. x ≢ given_up) _ (λ _ e. cc)
      λ _.
        choose (λ x. x ≢ given_up) _
          (λ _.
            choose (λ x. x ≢ given_up) _ (λ _ e. cc)
              (λ _. choose (λ x. x ≢ given_up) _ (λ _ e. cc) goes_on))
          (λ _. choose (λ x. x ≢ given_up) _ (λ _ e. cc) goes_on)

-- With a positive `spout.poll_interval_ms`, the wait for the first frame ends within the rounds that
-- are provided for it, by a frame, a request to stop or the timeout, whatever the source answers.
pub first_frame-ends :
    (a : ConnectingInputs) (s : Supervisor)
    → ltb_ℤ (pos 0) s.config.spout.poll_interval_ms ≡ true
    → first_frame a s ≢ given_up
unfolding first_frame
first_frame-ends a s h = wait_for_frame-ends a.polls _ _ 0 _ _ h (omega arith)
