-- ===== src/App/Supervisor/Ownership/Stop.antt =====
-- When the loop of `Supervisor::run` in src/app/supervisor.cpp ends.
use spout_relay.Base.{
  Bool, true, sym, ap, ◌∙◌, Outcome, done, fault, ◌>>=◌, choose, if◌then◌else◌, List, [], ◌∷◌, ◌++◌,
  ◌≡◌, refl, arith, Returns, returns, bind, branch,
}
use spout_relay.App.Supervisor.State.{Platform, Supervisor, poll_stop}
use spout_relay.App.Supervisor.Run.{Inputs, run_background, run_loop}
use spout_relay.App.Supervisor.Ownership.Defs.{Inv}
use spout_relay.App.Supervisor.Ownership.Run.{run_background-Same, polled, dispatch-Inv}

-- Left by its test, and with the invariant of the loop.
pub record IsLeft (s : Supervisor) : Type 0 where
  pub requested : s.shutdown_requested ≡ true
  pub inv : Inv s

seen : (s : Supervisor) (b : Bool) → b ≡ true → (poll_stop b s).shutdown_requested ≡ true
unfolding poll_stop
seen s b e = ground arith

again :
    (m : Outcome Supervisor) {f g : Supervisor → Outcome Supervisor}
    → ((t : Supervisor) → f t ≡ g t)
    → m >>= f ≡ m >>= g
unfolding ◌>>=◌
again (done t) h = h t
again (fault e) h = refl

left :
    (t : Supervisor) (b : Bool) (next : Outcome Supervisor)
    → b ≡ true
    → (if (poll_stop b t).shutdown_requested then done (poll_stop b t) else next)
      ≡ done (poll_stop true t)
left t b next e =
    choose (λ r. r ≡ done (poll_stop true t)) (poll_stop b t).shutdown_requested
      (λ _. ap (λ c. done (poll_stop c t)) e) (λ go. let h = seen t b e in cc)

cut_off :
    (pf : Platform) (before : List Inputs) (a b : Inputs) (behind other : List Inputs)
    (s : Supervisor)
    → a.stop ≡ true
    → b.stop ≡ true
    → a.background ≡ b.background
    → run_loop pf (before ++ a ∷ behind) s ≡ run_loop pf (before ++ b ∷ other) s
unfolding run_loop
cut_off pf [] a b behind other s p q e =
    again (run_background pf a.background s) (λ t. left t a.stop _ p)
    ∙ ap (λ bs. run_background pf bs s >>= (λ t. done (poll_stop true t))) e
    ∙ sym (again (run_background pf b.background s) (λ t. left t b.stop _ q))
cut_off pf (x ∷ before) a b behind other s p q e = again (run_background pf x.background s) λ t.
    ap
      (λ (r : Outcome Supervisor).
        if (poll_stop x.stop t).shutdown_requested then done (poll_stop x.stop t) else r)
      (again _ (λ v. cut_off pf before a b behind other v p q e))

ends :
    (pf : Platform) (before : List Inputs) (a : Inputs) (behind : List Inputs) (s : Supervisor)
    → a.stop ≡ true
    → Inv s
    → Returns IsLeft (run_loop pf (before ++ a ∷ behind) s)
unfolding run_loop
ends pf [] a behind s stop inv = bind (run_background-Same pf a.background s inv) λ t k.
    let h = seen t a.stop stop in
    branch _ (λ _. returns (record { requested = h; inv = polled t a.stop k.inv })) (λ go. cc)
ends pf (x ∷ before) a behind s stop inv = bind (run_background-Same pf x.background s inv) λ t k.
    let u = poll_stop x.stop t in
    let inv' = polled t x.stop k.inv in
    branch _ (λ h. returns (record { requested = h; inv = inv' }))
      λ go.
        bind (dispatch-Inv pf u.state_machine.current x u refl go inv')
          λ v i. ends pf before a behind v stop i

-- A request to stop always ends the loop: from a state that holds the objects which belong to it and is
-- named in the metrics, with the callback of `init` installed and a positive `encoder.fps` and
-- `spout.poll_interval_ms`, whatever rounds stand before the one in which the request comes and
-- whatever happens in them, the loop is left by its own test, without a fault and with the objects of
-- its state, at that round at the latest: the run is the same with any other rounds behind it and with
-- any other answers to a handler in it, so that no handler runs once the request has come.
pub run_loop-IsLeft :
    (pf : Platform) (before : List Inputs) (a b : Inputs) (behind other : List Inputs)
    (s : Supervisor)
    → a.stop ≡ true
    → b.stop ≡ true
    → a.background ≡ b.background
    → Inv s
    → Returns IsLeft (run_loop pf (before ++ a ∷ behind) s)
      × (run_loop pf (before ++ a ∷ behind) s ≡ run_loop pf (before ++ b ∷ other) s)
run_loop-IsLeft pf before a b behind other s p q e inv =
    (ends pf before a behind s p inv, cut_off pf before a b behind other s p q e)
