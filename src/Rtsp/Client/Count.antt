-- ===== src/Rtsp/Client/Count.antt =====
-- The sessions of one client of src/rtsp/rtsp_publisher_client.cpp, counted over any calls.
use spout_relay.Base.{
  ℕ, ◌+◌, suc, Bool, true, false, not, ◌&&◌, Option, none, some, is_some, sym, ◌≡◌, refl, arith, ap,
  ◌∙◌,
}
use spout_relay.Common.Types.{RtspConfig}
use spout_relay.Encoder.Types.{EncodedPacket, CodecInfo}
use spout_relay.Rtsp.Client.{
  RtspClient, new_client, ConnectAnswers, SendAnswers, connect, disconnect, send_packet,
}
use spout_relay.Rtsp.Client.Session.{
  IsConsistent, connect-Connected, disconnect-Closed, send_through-Sent,
}

-- One for a test that holds.
abbrev pub count : Bool → ℕ
count true = 1
count false = 0

-- A client after any calls: how many calls of `connect` succeeded, and how many calls of `send_packet`
-- found the session up and lost it.
pub data Used : ℕ → ℕ → RtspClient → Type 0 where
  fresh : Used 0 0 new_client
  connects :
      {opened lost : ℕ} {c : RtspClient}
      → Used opened lost c
      → (a : ConnectAnswers) (config : RtspConfig) (info : CodecInfo)
      → Used (opened + count (connect a config info c).0) lost (connect a config info c).2
  sends :
      {opened lost : ℕ} {c : RtspClient}
      → Used opened lost c
      → (a : SendAnswers) (pkt : EncodedPacket)
      → Used opened
          (lost + count (c.connected && not (send_packet a pkt c).1.connected))
          (send_packet a pkt c).1
  disconnects :
      {opened lost : ℕ} {c : RtspClient} → Used opened lost c → Used opened lost (disconnect c)

record Counted (opened lost : ℕ) (c : RtspClient) : Type 0 where
  consistent : IsConsistent c
  balance : opened ≡ c.trailers + lost + count c.connected

absent : {A P : Type 0} {o : Option A} → o ≡ none → is_some o ≡ true → P
absent {o = none} e h = cc
absent {o = some a} e h = cc

-- The session that is up is ended in order, or there is none.
ended :
    (up : Bool) (trailers trailers' lost : ℕ)
    → (up ≡ true → trailers' ≡ suc trailers)
    → (up ≡ false → trailers' ≡ trailers)
    → trailers + lost + count up ≡ trailers' + lost
ended true trailers trailers' lost e n = rw (e refl) (omega arith)
ended false trailers trailers' lost e n = rw (n refl) (omega arith)

dropped :
    (up up' : Bool) (trailers lost : ℕ)
    → (up' ≡ true → up ≡ true)
    → trailers + lost + count up ≡ trailers + (lost + count (up && not up')) + count up'
dropped true true trailers lost h = omega arith
dropped true false trailers lost h = omega arith
dropped false true trailers lost h = let e = h refl in cc
dropped false false trailers lost h = omega arith

Used-Counted : {opened lost : ℕ} {c : RtspClient} → Used opened lost c → Counted opened lost c
unfolding send_packet
Used-Counted fresh = record {
  consistent = record { context = λ h. h; packet = λ h. h };
  balance = refl;
}
Used-Counted (connects {opened} {lost} {c} u a config info) =
    let h = Used-Counted u in
    let k = connect-Connected a config info c h.consistent in
    record {
      consistent = k.consistent;
      balance = rw k.flag (
          ap (λ n. n + count (connect a config info c).0)
            (h.balance ∙ ended c.connected c.trailers _ lost k.ended k.not_ended));
    }
Used-Counted (sends {opened} {lost} {c} u a pkt) =
    let h = Used-Counted u in
    let k = send_through-Sent a pkt c.fmt_ctx c refl h.consistent in
    record {
      consistent = k.consistent;
      balance =
          h.balance
          ∙ dropped c.connected _ c.trailers lost k.still_up
          ∙ ap
              (λ n.
                n
                + (lost + count (c.connected && not (send_packet a pkt c).1.connected))
                + count (send_packet a pkt c).1.connected)
              (sym k.trailers);
    }
Used-Counted (disconnects {opened} {lost} {c} u) =
    let h = Used-Counted u in
    let k = disconnect-Closed c h.consistent in
    record {
      consistent = record {
        context = λ up. let down = k.down in cc;
        packet = λ held. let none_held = k.no_context in absent none_held held;
      };
      balance =
          h.balance
          ∙ ended c.connected c.trailers _ lost k.ended k.not_ended
          ∙ rw k.down (omega arith);
    }

-- Over any calls of `connect`, `send_packet` and `disconnect` on one client, each session that was
-- opened with success has ended with exactly one trailer, or was lost at a packet that could not be
-- written, or is the one session that is up: no session is left without its end, and none gets two.
pub Used-IsCounted :
    {opened lost : ℕ} {c : RtspClient}
    → Used opened lost c
    → opened ≡ c.trailers + lost + count c.connected
Used-IsCounted u = (Used-Counted u).balance
