-- ===== src/Gdb/Serve/Laws.antt =====
-- The server on a stream of packets does what the commands do one after another.
use mathlib.Core.Path.{subst}
use megumi.Base.{
  ℕ, suc, ◌≡◌, refl, ap, ◌∙◌, arith, true, false, List, [], ◌∷◌, ◌++◌, All, Option, some, length,
  Fault, ◌↔◌, sym,
}
use megumi.Gdb.Exec.{Links}
use megumi.Gdb.Packet.Laws.{recv_packet-send_packet, Without, last_digit}
use megumi.Gdb.Packet.Later.{recv_packet-append}
use megumi.Gdb.Packet.{recv_packet, dollar, Received}
use megumi.Gdb.Process.{process_packet}
use megumi.Gdb.Serve.{serve, Session, Ending, closes, breaks, runs_on, acks, reply_sent, sends}
use megumi.Gdb.{Text, Server, done, refuses, fails, goes_on}
use megumi.Gdb.Serve.Dialogue.{
  Delivery, IsDelivery, stream, Dialogue, over, turn, refused, failed, unfinished, dialogue,
}

received :
    (rbuf : Text) (p : Delivery) (later : List Text)
    → Without dollar rbuf
    → IsDelivery p
    → recv_packet false rbuf ((p.first ∷ p.rest) ++ later) ≡ (
      true ∷ [],
      some (record { packet = p.packet; rbuf = last_digit p.packet ∷ []; left = later }),
    )
received rbuf p later quiet (clean, pieces, whole) =
    let arrives =
      recv_packet-send_packet p.packet rbuf rbuf p.first p.rest clean quiet pieces
        (ap (λ t. rbuf ++ t) whole) in
    recv_packet-append false rbuf (p.first ∷ p.rest) later _ (ap (λ r. r.1) arrives)
    ∙ ap
        (λ acks. (
          acks,
          some (record { packet = p.packet; rbuf = last_digit p.packet ∷ []; left = later }),
        ))
        (ap (λ r. r.0) arrives)

last_digit-quiet : (packet : Text) → Without dollar (last_digit packet ∷ [])
last_digit-quiet packet = ((λ e. ground (arith, e)), _)

module _ (links : ℕ → Links) (fuel rounds : ℕ) (s : Server) (rbuf : Text) (pieces : List Text)
    (p : Received) (got : recv_packet false rbuf pieces ≡ (true ∷ [], some p)) where
  serve-turn :
      (t : Server) (reply : Option Text)
      → process_packet (links rounds) fuel s p.packet ≡ done (t, reply)
      → serve links fuel (suc rounds) s rbuf pieces
        ≡ sends (acks (true ∷ []) ++ reply_sent reply) (serve links fuel rounds t p.rbuf p.left)
  unfolding serve
  serve-turn t reply answered =
      rw (got, answered, serve)
        (ap
          (λ given.
            sends (acks given ++ reply_sent reply) (serve links fuel rounds t p.rbuf p.left))
          (ap (λ r. r.0) got))

  serve-refused :
      (t : Server)
      → process_packet (links rounds) fuel s p.packet ≡ refuses t
      → serve links fuel (suc rounds) s rbuf pieces ≡ (acks (true ∷ []), closes t)
  unfolding serve
  serve-refused t at = rw (got, at, serve) (ap (λ r. (acks r.0, closes t)) got)

  serve-failed :
      (e : Fault)
      → process_packet (links rounds) fuel s p.packet ≡ fails e
      → serve links fuel (suc rounds) s rbuf pieces ≡ (acks (true ∷ []), breaks e)
  unfolding serve
  serve-failed e at = rw (got, at, serve) (ap (λ r. (acks r.0, breaks e)) got)

  serve-unfinished :
      process_packet (links rounds) fuel s p.packet ≡ goes_on
      → serve links fuel (suc rounds) s rbuf pieces ≡ (acks (true ∷ []), runs_on)
  unfolding serve
  serve-unfinished at = rw (got, at, serve) (ap (λ r. (acks r.0, runs_on)) got)

Dialogue-serve :
    (links : ℕ → Links) (fuel : ℕ) (s : Server) (packets : List Delivery) (sent : List Text)
    (ending : Ending) (rbuf : Text)
    → Dialogue links fuel s packets sent ending
    → All IsDelivery packets
    → Without dollar rbuf
    → serve links fuel (suc (length packets)) s rbuf (stream packets) ≡ (sent, ending)
unfolding serve recv_packet
Dialogue-serve links fuel s _ _ _ rbuf over _ quiet = refl
Dialogue-serve links fuel s _ _ ending rbuf
      (turn {t = t} {p = p} {more} {reply} {sent} answered later) (good, rest) quiet =
    serve-turn links fuel (suc (length more)) s rbuf ((p.first ∷ p.rest) ++ stream more) _
      (received rbuf p (stream more) quiet good) t reply answered
    ∙ ap (sends (acks (true ∷ []) ++ reply_sent reply)) (
        Dialogue-serve links fuel t more sent ending (last_digit p.packet ∷ []) later rest
          (last_digit-quiet p.packet))
Dialogue-serve links fuel s _ _ _ rbuf (refused {t = t} {p = p} {more} at) (good, rest) quiet =
    serve-refused links fuel (suc (length more)) s rbuf ((p.first ∷ p.rest) ++ stream more) _
      (received rbuf p (stream more) quiet good) t at
Dialogue-serve links fuel s _ _ _ rbuf (failed {p = p} {more} {e} at) (good, rest) quiet =
    serve-failed links fuel (suc (length more)) s rbuf ((p.first ∷ p.rest) ++ stream more) _
      (received rbuf p (stream more) quiet good) e at
Dialogue-serve links fuel s _ _ _ rbuf (unfinished {p = p} {more} at) (good, rest) quiet =
    serve-unfinished links fuel (suc (length more)) s rbuf ((p.first ∷ p.rest) ++ stream more) _
      (received rbuf p (stream more) quiet good) at

-- The server on a stream of packets without `#`, each sent as sendPacket does it and in pieces of its own,
-- however it is cut, and with nothing buffered that has a `$`: the texts sent and the end of the loop, with
-- a round for each packet and one for the end of the stream, are exactly those of the dialogue of the
-- packets. In it every packet that is read is acknowledged, its command is carried out in the state that the
-- packets before it left, and its reply is sent before the next packet is read; a command that throws or
-- does not end within the steps given ends it so, with the acknowledgement as the last text, and otherwise
-- the server closes at the end of the stream, in the state that the last command left.
pub serve_answers :
    (links : ℕ → Links) (fuel : ℕ) (s : Server) (packets : List Delivery) (rbuf : Text)
    (sent : List Text) (ending : Ending)
    → All IsDelivery packets
    → Without dollar rbuf
    → (serve links fuel (suc (length packets)) s rbuf (stream packets) ≡ (sent, ending))
      ↔ Dialogue links fuel s packets sent ending
serve_answers links fuel s packets rbuf sent ending good quiet = (
  (λ ran.
      let (sent', ending', talk) = dialogue links fuel s packets in
      let same =
        sym (Dialogue-serve links fuel s packets sent' ending' rbuf talk good quiet) ∙ ran in
      subst (λ (r : Session). Dialogue links fuel s packets (r.0) (r.1)) same talk),
  (λ talk. Dialogue-serve links fuel s packets sent ending rbuf talk good quiet),
)
