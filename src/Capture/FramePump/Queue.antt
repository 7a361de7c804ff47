-- ===== src/Capture/FramePump/Queue.antt =====
-- The queue of src/capture/frame_pump.cpp: its bound, its order, and what a stopped pump holds.
use spout_relay.Base.{
  ℕ, suc, ◌-◌, ◌≤◌, false, leb, List, [], ◌∷◌, ◌++◌, ◌≡◌, refl, sym, ap, ◌∙◌, ℤ, arith, length,
  length-append, drop, length-drop, drop-append, tail-drop, tail, if◌then◌else◌, choose,
}
use mathlib.Core.List.{append-nil, append_assoc}
use spout_relay.Spout.Monitor.{SpoutMonitor, Reception}
use spout_relay.Capture.FramePump.{
  Frame, FramePump, new_pump, max_queue_size, start, stop, enqueue, capture, pop_front, try_pop,
  wait_pop,
}

-- What the threads and the owner of a pump do to it.
pub data Action : Type 0 where
  starts : ℕ → ℤ → Action
  stops : Action
  captures : Reception → ℕ → ℕ → SpoutMonitor → Action
  pops : Action
  waits : Action

unfoldable pub after : Action → FramePump → FramePump
after (starts now poll_interval_ms) p = start now poll_interval_ms p
after stops p = stop p
after (captures a now_alive now_frame m) p = (capture a now_alive now_frame p m).0
after pops p = (try_pop p).1
after waits p = (wait_pop p).1

-- The pumps that any sequence of these leads to.
pub data Reachable : FramePump → Type 0 where
  fresh : Reachable new_pump
  step : {p : FramePump} → Reachable p → (x : Action) → Reachable (after x p)

pub record IsBounded (p : FramePump) : Type 0 where
  pub bounded : length p.queue ≤ max_queue_size
  pub empty_if_stopped : p.running ≡ false → p.queue ≡ []

length-tail : (q : List Frame) → length (tail q) ≡ length q - 1
length-tail [] = refl
length-tail (f ∷ q) = ground arith

length-enqueue :
    (f : Frame) (q : List Frame) → length q ≤ max_queue_size → length (enqueue f q) ≤ max_queue_size
unfolding enqueue
length-enqueue f q h =
    choose (λ r. length (r ++ f ∷ []) ≤ max_queue_size) (leb max_queue_size (length q))
      (λ e. ground (arith, length-append (tail q) (f ∷ []), length-tail q))
      (λ e. ground (arith, length-append q (f ∷ [])))

capture-IsBounded :
    (a : Reception) (alive now : ℕ) (p : FramePump) (m : SpoutMonitor)
    → IsBounded p
    → IsBounded (capture a alive now p m).0
unfolding capture
capture-IsBounded a alive now p m h =
    choose held _ (λ _. h)
      λ running.
        choose held _ (λ _. (ground arith))
          λ _.
            choose held _ (λ _. (ground arith))
              λ _. record {
                bounded = length-enqueue _ p.queue h.bounded;
                empty_if_stopped = λ stopped. ground arith;
              }
  where
    held : FramePump × SpoutMonitor → Type 0
    held r = IsBounded r.0

pop_front-IsBounded :
    (q : List Frame) (p : FramePump) → p.queue ≡ q → IsBounded p → IsBounded (pop_front q p).1
unfolding pop_front
pop_front-IsBounded [] p e h = h
pop_front-IsBounded (f ∷ rest) p e h = record {
  bounded = ground (arith, h.bounded, ap length e);
  empty_if_stopped = λ stopped. ground (arith, h.empty_if_stopped stopped, e);
}

after-IsBounded : (x : Action) (p : FramePump) → IsBounded p → IsBounded (after x p)
unfolding after start stop try_pop wait_pop if◌then◌else◌
after-IsBounded (starts now interval) p h = ground arith
after-IsBounded stops p h = ground arith
after-IsBounded (captures a alive now m) p h = capture-IsBounded a alive now p m h
after-IsBounded pops p h = pop_front-IsBounded p.queue p refl h
after-IsBounded waits p h = pop_front-IsBounded p.queue p refl h

-- However a pump came about, it holds at most four frames, and none while it is stopped.
pub Reachable-IsBounded : {p : FramePump} → Reachable p → IsBounded p
Reachable-IsBounded fresh = record { bounded = ground arith; empty_if_stopped = λ _. refl }
Reachable-IsBounded (step r x) = after-IsBounded x _ (Reachable-IsBounded r)

-- The last `n` of a list.
unfoldable pub newest : ℕ → List Frame → List Frame
newest n xs = drop (length xs - n) xs

-- The queue after the frames of a list came in, the last of the list last, with none taken.
unfoldable pub enqueue_all : List Frame → List Frame → List Frame
enqueue_all queue [] = queue
enqueue_all queue (f ∷ fs) = enqueue_all (enqueue f queue) fs

dropped :
    (n : ℕ) (f : Frame) (xs : List Frame)
    → n ≤ length xs
    → n ≡ length (xs ++ f ∷ []) - max_queue_size
    → drop n xs ++ f ∷ [] ≡ newest max_queue_size (xs ++ f ∷ [])
unfolding newest
dropped n f xs h e = sym (drop-append n xs (f ∷ []) h) ∙ ap (λ k. drop k (xs ++ f ∷ [])) e

enqueue-newest :
    (f : Frame) (xs : List Frame)
    → enqueue f (newest max_queue_size xs) ≡ newest max_queue_size (xs ++ f ∷ [])
unfolding enqueue newest
enqueue-newest f xs =
    let len = length-drop (length xs - max_queue_size) xs in
    let one_more = length-append xs (f ∷ []) in
    choose (λ q. q ++ f ∷ [] ≡ newest max_queue_size (xs ++ f ∷ [])) _
      (λ full.
        ap (λ q. q ++ f ∷ []) (tail-drop (length xs - max_queue_size) xs)
        ∙ dropped (suc (length xs - max_queue_size)) f xs (ground arith) (ground arith))
      (λ room. dropped (length xs - max_queue_size) f xs (ground arith) (ground arith))

enqueue_all-newest :
    (fs xs : List Frame)
    → enqueue_all (newest max_queue_size xs) fs ≡ newest max_queue_size (xs ++ fs)
unfolding enqueue_all
enqueue_all-newest [] xs = ap (newest max_queue_size) (sym (append-nil xs))
enqueue_all-newest (f ∷ fs) xs =
    ap (λ q. enqueue_all q fs) (enqueue-newest f xs)
    ∙ enqueue_all-newest fs (xs ++ f ∷ [])
    ∙ ap (newest max_queue_size) (append_assoc xs (f ∷ []) fs)

-- Of any frames that come in while none is taken, the queue holds the last four, oldest first.
pub enqueue_all_lem : (fs : List Frame) → enqueue_all [] fs ≡ newest max_queue_size fs
unfolding newest drop
enqueue_all_lem fs = enqueue_all-newest fs []
