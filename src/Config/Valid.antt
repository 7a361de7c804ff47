-- ===== src/Config/Valid.antt =====
-- What the validation of src/config/config_loader.cpp lets through.
use spout_relay.Base.{
  Bool, true, false, not, ◌||◌, Option, none, some, String, ℤ, pos, ◌≤ℤ◌, ◌≡◌, refl, ◌↔◌, arith,
  if◌then◌else◌, leb_ℤ, ltb_ℤ,
}
use text.Mathlib.Text.{◌==◌ as str_eq, starts_with}
use spout_relay.Common.Backoff.{FloatOps}
use spout_relay.Config.Types.{AppConfig}
use spout_relay.Base.{subst, done}
use spout_relay.Config.Loader.{Loaded}
use spout_relay.Config.Json.{
  Contents, malformed, threw_other, well_formed, Json, Reading, threw, reads,
}
use spout_relay.Config.Loader.{
  is_valid_hex_color, one_float, validate, judged, finish, read_sections, load,
}

-- The settings that are allowed.
pub record IsValid (fl : FloatOps) (c : AppConfig) : Type 0 where
  pub sender : str_eq c.spout.sender_name "" ≡ false
  pub url : (str_eq c.rtsp.url "" ≡ false) × (starts_with c.rtsp.url "rtsp://" ≡ true)
  pub fps : (pos 1 ≤ℤ c.encoder.fps) × (c.encoder.fps ≤ℤ pos 240)
  pub bitrate : pos 1 ≤ℤ c.encoder.bitrate_kbps
  pub poll : pos 1 ≤ℤ c.spout.poll_interval_ms
  pub timeout : pos 1 ≤ℤ c.spout.frame_timeout_ms
  pub connect : pos 1 ≤ℤ c.rtsp.connect_timeout_ms
  pub send : pos 1 ≤ℤ c.rtsp.send_timeout_ms
  pub attempts : pos 0 ≤ℤ c.rtsp.max_reconnect_attempts
  pub delay : pos 1 ≤ℤ c.rtsp.reconnect_delay_ms
  pub delays : c.rtsp.reconnect_delay_ms ≤ℤ c.rtsp.reconnect_max_delay_ms
  pub multiplier : fl.lt c.rtsp.reconnect_backoff_multiplier one_float ≡ false
  pub size : (pos 1 ≤ℤ c.placeholder.width) × (pos 1 ≤ℤ c.placeholder.height)
  pub background : is_valid_hex_color c.placeholder.background_hex ≡ true
  pub text : is_valid_hex_color c.placeholder.text_hex ≡ true

-- A test of the validation that is passed.
guard :
    (b : Bool) (what : String) (rest : Option String)
    → (if b then some what else rest) ≡ none
    → (b ≡ false) × (rest ≡ none)
unfolding if◌then◌else◌
guard true what rest h = cc
guard false what rest h = (refl, h)

positive : (n : ℤ) → leb_ℤ n (pos 0) ≡ false → pos 1 ≤ℤ n
positive n h = ground arith

not_below : (m n : ℤ) → ltb_ℤ n m ≡ false → m ≤ℤ n
not_below m n h = ground arith

either : {a b : Bool} → (a || b) ≡ false → (a ≡ false) × (b ≡ false)
either h = ground arith

passed : {b : Bool} → not b ≡ false → b ≡ true
passed h = ground arith

sound : (fl : FloatOps) (c : AppConfig) → validate fl c ≡ none → IsValid fl c
unfolding validate
sound fl c h =
    let a1 = guard _ _ _ h in
    let a2 = guard _ _ _ a1.1 in
    let a3 = guard _ _ _ a2.1 in
    let a4 = guard _ _ _ a3.1 in
    let a5 = guard _ _ _ a4.1 in
    let a6 = guard _ _ _ a5.1 in
    let a7 = guard _ _ _ a6.1 in
    let a8 = guard _ _ _ a7.1 in
    let a9 = guard _ _ _ a8.1 in
    let b1 = guard _ _ _ a9.1 in
    let b2 = guard _ _ _ b1.1 in
    let b3 = guard _ _ _ b2.1 in
    let b4 = guard _ _ _ b3.1 in
    let b5 = guard _ _ _ b4.1 in
    let b6 = guard _ _ _ b5.1 in
    let b7 = guard _ _ _ b6.1 in
    record {
      sender = a1.0;
      url = ((either a2.0).0, passed (either a2.0).1);
      fps =
          let e =
            either {a = leb_ℤ c.encoder.fps (pos 0)} {b = ltb_ℤ (pos 240) c.encoder.fps} a3.0 in
          (positive c.encoder.fps e.0, not_below c.encoder.fps (pos 240) e.1);
      bitrate = positive c.encoder.bitrate_kbps a4.0;
      poll = positive c.spout.poll_interval_ms a5.0;
      timeout = positive c.spout.frame_timeout_ms a6.0;
      connect = positive c.rtsp.connect_timeout_ms a7.0;
      send = positive c.rtsp.send_timeout_ms a8.0;
      attempts = not_below (pos 0) c.rtsp.max_reconnect_attempts a9.0;
      delay = positive c.rtsp.reconnect_delay_ms b1.0;
      delays = not_below c.rtsp.reconnect_delay_ms c.rtsp.reconnect_max_delay_ms b3.0;
      multiplier = b4.0;
      size =
          let e =
            either {a = leb_ℤ c.placeholder.width (pos 0)} {b = leb_ℤ c.placeholder.height (pos 0)}
              b5.0 in
          (positive c.placeholder.width e.0, positive c.placeholder.height e.1);
      background = passed b6.0;
      text = passed b7.0;
    }

-- The converse.
pass :
    (b : Bool) (what : String) {rest : Option String}
    → b ≡ false
    → rest ≡ none
    → (if b then some what else rest) ≡ none
unfolding if◌then◌else◌
pass true what h r = cc
pass false what h r = r

above : (n : ℤ) → pos 1 ≤ℤ n → leb_ℤ n (pos 0) ≡ false
above n h = ground arith

at_least : (m n : ℤ) → m ≤ℤ n → ltb_ℤ n m ≡ false
at_least m n h = ground arith

neither : {a b : Bool} → a ≡ false → b ≡ false → (a || b) ≡ false
neither p q = ground arith

holds : {b : Bool} → b ≡ true → not b ≡ false
holds h = ground arith

complete : (fl : FloatOps) (c : AppConfig) → IsValid fl c → validate fl c ≡ none
unfolding validate
complete fl c h = pass _ _ h.sender (
    pass _ _ (neither h.url.0 (holds h.url.1)) (
      pass _ _ (neither (above c.encoder.fps h.fps.0) (at_least c.encoder.fps (pos 240) h.fps.1)) (
        pass _ _ (above c.encoder.bitrate_kbps h.bitrate) (
          pass _ _ (above c.spout.poll_interval_ms h.poll) (
            pass _ _ (above c.spout.frame_timeout_ms h.timeout) (
              pass _ _ (above c.rtsp.connect_timeout_ms h.connect) (
                pass _ _ (above c.rtsp.send_timeout_ms h.send) (
                  pass _ _ (at_least (pos 0) c.rtsp.max_reconnect_attempts h.attempts) (
                    pass _ _ (above c.rtsp.reconnect_delay_ms h.delay) (
                      pass _ _ (max_positive c h.delay h.delays) (
                        pass _ _
                          (at_least c.rtsp.reconnect_delay_ms c.rtsp.reconnect_max_delay_ms
                            h.delays)
                          (pass _ _ h.multiplier (
                            pass _ _
                              (neither (above c.placeholder.width h.size.0)
                                (above c.placeholder.height h.size.1))
                              (pass _ _ (holds h.background)
                                (pass _ _ (holds h.text) refl)))))))))))))))
  where
    max_positive :
        (c : AppConfig)
        → pos 1 ≤ℤ c.rtsp.reconnect_delay_ms
        → c.rtsp.reconnect_delay_ms ≤ℤ c.rtsp.reconnect_max_delay_ms
        → leb_ℤ c.rtsp.reconnect_max_delay_ms (pos 0) ≡ false
    max_positive c p q = above c.rtsp.reconnect_max_delay_ms (omega (arith, p, q))

-- The validation passes exactly the settings that are allowed: a sender's name, an `rtsp://` URL, a
-- frame rate from 1 to 240, positive bit rate, intervals, timeouts and sizes, a number of attempts
-- that is not negative, a maximal delay no less than the first, a multiplier no less than 1.0, and
-- two `#RRGGBB` colours.
pub validate-IsValid : (fl : FloatOps) (c : AppConfig) → (validate fl c ≡ none) ↔ IsValid fl c
validate-IsValid fl c = (sound fl c, complete fl c)

judged-IsValid :
    (fl : FloatOps) (o : Option String) (c : AppConfig)
    → validate fl c ≡ o
    → (judged o c).0 ≡ true
    → IsValid fl (judged o c).2
unfolding judged
judged-IsValid fl none c e h = sound fl c e
judged-IsValid fl (some what) c e h = cc

finish-IsValid : (fl : FloatOps) (r : Reading) → (finish fl r).0 ≡ true → IsValid fl (finish fl r).2
unfolding finish
finish-IsValid fl (threw what c) h = cc
finish-IsValid fl (reads c) h = judged-IsValid fl (validate fl c) c refl h

same_result : {a r : Loaded} → done a ≡ done r → a ≡ r
same_result e = cc

settled :
    {fl : FloatOps} {a r : Loaded}
    → (a.0 ≡ true → IsValid fl a.2)
    → a ≡ r
    → r.0 ≡ true
    → IsValid fl r.2
settled {fl} h e = subst (λ (r : Loaded). r.0 ≡ true → IsValid fl r.2) e h

-- `load` reports success only with settings that are allowed, whatever the file holds.
pub load-IsValid :
    (fl : FloatOps) (J : Json) (path : String) (file : Option (Contents J.Value)) (c : AppConfig)
    (r : Loaded)
    → load fl J path file c ≡ done r
    → r.0 ≡ true
    → IsValid fl r.2
unfolding load
load-IsValid fl J path none c r e = settled (λ h. cc) (same_result e)
load-IsValid fl J path (some (malformed what)) c r e = settled (λ h. cc) (same_result e)
load-IsValid fl J path (some threw_other) c r e = cc
load-IsValid fl J path (some (well_formed j)) c r e =
    settled (finish-IsValid fl (read_sections J j c)) (same_result e)
