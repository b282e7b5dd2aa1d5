-- ===== src/Gdb/Serve.antt =====
-- The loop of run() in gdbserver.cpp, once a client is connected: packets are received and processed
-- until the connection is closed.
pub mod Dialogue
pub mod Laws
use megumi.Base.{ℕ, zero, suc, Fault, Bool, true, false, List, [], ◌∷◌, ◌++◌, Option, none, some}
use megumi.Gdb.Exec.{Links}
use megumi.Gdb.Packet.{recv_packet, send_packet, send_ack}
use megumi.Gdb.Process.{process_packet}
use megumi.Gdb.{Text, Server, Outcome, done, refuses, fails, goes_on}

-- How run() ends: with a GdbServerError, as that of a closed connection; with another exception or
-- undefined behaviour; or not within the rounds or the steps given.
pub data Ending : Type 0 where
  closes : Server → Ending
  breaks : Fault → Ending
  runs_on : Ending

-- What is sent, each text by one call, and the end.
abbrev pub Session : Type 0
Session = List Text × Ending

abbrev pub acks : List Bool → List Text
acks [] = []
acks (a ∷ more) = (send_ack a ∷ []) ∷ acks more

abbrev pub reply_sent : Option Text → List Text
reply_sent none = []
reply_sent (some reply) = send_packet reply ∷ []

abbrev pub sends : List Text → Session → Session
sends texts r = (texts ++ r.0, r.1)

-- `rounds` packets at most, from rbuf_ and what recv() brings; the links' answers are those of each round.
unfoldable pub serve : (ℕ → Links) → ℕ → ℕ → Server → Text → List Text → Session
unfolding recv_packet process_packet send_packet
serve links fuel zero s rbuf pieces = ([], runs_on)
serve links fuel (suc rounds) s rbuf pieces =
    let r = recv_packet false rbuf pieces in
    elim (r.1) [
      | none ↦ (acks r.0, closes s)
      | some p ↦ elim (process_packet (links rounds) fuel s p.packet) [
        | done t ↦ sends (acks r.0 ++ reply_sent t.1) (serve links fuel rounds t.0 p.rbuf p.left)
        | refuses t ↦ (acks r.0, closes t)
        | fails e ↦ (acks r.0, breaks e)
        | goes_on ↦ (acks r.0, runs_on)
      ]
    ]
