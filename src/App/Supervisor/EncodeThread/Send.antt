-- ===== src/App/Supervisor/EncodeThread/Send.antt =====
-- The sending loop of the encode thread in src/app/supervisor.cpp over the session.
use spout_relay.Base.{
  ℕ, suc, Bool, true, false, List, [], ◌∷◌, ◌++◌, ◌≡◌, refl, ap, ◌∙◌, arith, if◌then◌else◌, choose,
}
use spout_relay.Encoder.Types.{EncodedPacket}
use spout_relay.Rtsp.Client.{RtspClient, SendAnswers, send_packet}
use spout_relay.Rtsp.Client.Session.{IsConsistent, Sent, send_through-Sent, written_of}
use spout_relay.App.Supervisor.EncodeThread.{send_all}

-- The packets of a list put on top of what was written before, the last of the list on top.
unfoldable pub on_top : List EncodedPacket → List EncodedPacket → List EncodedPacket
on_top [] written = written
on_top (p ∷ packets) written = on_top packets (p ∷ written)

-- The first packets of a list went out, the rest did not.
pub record SentOf (packets : List EncodedPacket) (c : RtspClient) (ok : Bool) (c' : RtspClient)
    : Type 0 where
  pub out : List EncodedPacket
  pub left : List EncodedPacket
  pub split : packets ≡ out ++ left
  pub written : written_of c'.fmt_ctx ≡ on_top out (written_of c.fmt_ctx)
  pub complete : ok ≡ true → left ≡ []
  pub consistent : IsConsistent c'

send_packet-Sent :
    (a : SendAnswers) (p : EncodedPacket) (c : RtspClient)
    → IsConsistent c
    → Sent p c (send_packet a p c).0 (send_packet a p c).1
unfolding send_packet
send_packet-Sent a p c h = send_through-Sent a p c.fmt_ctx c refl h

is_written :
    {p : EncodedPacket} {c c' : RtspClient} {ok : Bool}
    → Sent p c ok c'
    → ok ≡ true
    → written_of c'.fmt_ctx ≡ p ∷ written_of c.fmt_ctx
unfolding if◌then◌else◌
is_written {p} {c} {c'} s h =
    s.written ∙ ap (λ b. if b then p ∷ written_of c.fmt_ctx else written_of c.fmt_ctx) h

not_written :
    {p : EncodedPacket} {c c' : RtspClient} {ok : Bool}
    → Sent p c ok c'
    → ok ≡ false
    → written_of c'.fmt_ctx ≡ written_of c.fmt_ctx
unfolding if◌then◌else◌
not_written {p} {c} {c'} s h =
    s.written ∙ ap (λ b. if b then p ∷ written_of c.fmt_ctx else written_of c.fmt_ctx) h

-- The packets of a list are sent in their order, each at most once and none behind one that fails:
-- what the session has written afterwards is what it had before and a first part of the list, and
-- that is the whole list if the loop reports success.
pub send_all-SentOf :
    (answers : ℕ → SendAnswers) (i : ℕ) (packets : List EncodedPacket) (c : RtspClient)
    → IsConsistent c
    → SentOf packets c (send_all answers i packets c).0 (send_all answers i packets c).1
unfolding send_all on_top
send_all-SentOf answers i [] c h = record {
  out = [];
  left = [];
  split = refl;
  written = refl;
  complete = λ _. refl;
  consistent = h;
}
send_all-SentOf answers i (p ∷ packets) c h =
    let s = send_packet-Sent (answers i) p c h in
    let c' = (send_packet (answers i) p c).1 in
    let rest = send_all-SentOf answers (suc i) packets c' s.consistent in
    choose (λ (r : Bool × RtspClient). SentOf (p ∷ packets) c r.0 r.1) _
      (λ failed. record {
        out = [];
        left = p ∷ packets;
        split = refl;
        written = not_written s (ground arith);
        complete = λ h. cc;
        consistent = s.consistent;
      })
      (λ sent. record {
        out = p ∷ rest.out;
        left = rest.left;
        split = ap (λ q. p ∷ q) rest.split;
        written = rest.written ∙ ap (on_top rest.out) (is_written s (ground arith));
        complete = rest.complete;
        consistent = rest.consistent;
      })
