-- ===== src/Gdb/Serve/Dialogue.antt =====
-- The packets of a session, and what the commands do one after another.
use megumi.Base.{
  ℕ, suc, ◌≡◌, refl, true, List, [], ◌∷◌, ◌++◌, All, Option, length, Fault, ◌⊎◌, inl, inr,
}
use megumi.Gdb.Exec.{Links}
use megumi.Gdb.Packet.Laws.{Without, joined, IsPiece}
use megumi.Gdb.Packet.{send_packet, hash}
use megumi.Gdb.Process.{process_packet}
use megumi.Gdb.Serve.{Ending, closes, breaks, runs_on, acks, reply_sent}
use megumi.Gdb.{Text, Server, Outcome, done, refuses, fails, goes_on}

-- A packet that is sent, and the pieces that it comes in.
pub record Delivery : Type 0 where
  pub packet : Text
  pub first : Text
  pub rest : List Text

abbrev pub IsDelivery : Delivery → Type 0
IsDelivery p =
    Without hash p.packet
    × All IsPiece (p.first ∷ p.rest)
    × (joined (p.first ∷ p.rest) ≡ send_packet p.packet)

abbrev pub stream : List Delivery → List Text
stream [] = []
stream (p ∷ more) = (p.first ∷ p.rest) ++ stream more

-- The commands one after another: each packet is acknowledged, and its command is carried out in the state
-- that those before it left. The reply, if there is one, is sent before the next packet is read; a command
-- that throws, or does not end within the steps given, ends the dialogue.
pub data Dialogue (links : ℕ → Links) (fuel : ℕ)
    : Server → List Delivery → List Text → Ending → Type 0 where
  over : {s : Server} → Dialogue links fuel s [] [] (closes s)
  turn :
      {s t : Server} {p : Delivery} {more : List Delivery} {reply : Option Text} {sent : List Text}
      {ending : Ending}
      → process_packet (links (suc (length more))) fuel s p.packet ≡ done (t, reply)
      → Dialogue links fuel t more sent ending
      → Dialogue links fuel s (p ∷ more) (acks (true ∷ []) ++ (reply_sent reply ++ sent)) ending
  refused :
      {s t : Server} {p : Delivery} {more : List Delivery}
      → process_packet (links (suc (length more))) fuel s p.packet ≡ refuses t
      → Dialogue links fuel s (p ∷ more) (acks (true ∷ [])) (closes t)
  failed :
      {s : Server} {p : Delivery} {more : List Delivery} {e : Fault}
      → process_packet (links (suc (length more))) fuel s p.packet ≡ fails e
      → Dialogue links fuel s (p ∷ more) (acks (true ∷ [])) (breaks e)
  unfinished :
      {s : Server} {p : Delivery} {more : List Delivery}
      → process_packet (links (suc (length more))) fuel s p.packet ≡ goes_on
      → Dialogue links fuel s (p ∷ more) (acks (true ∷ [])) runs_on

-- How a command can end.
Outcome-cases :
    {A : Type 0} (o : Outcome A)
    → ((a : A) × (o ≡ done a))
      ⊎ (((t : Server) × (o ≡ refuses t)) ⊎ (((e : Fault) × (o ≡ fails e)) ⊎ (o ≡ goes_on)))
Outcome-cases (done a) = inl (a, refl)
Outcome-cases (refuses t) = inr (inl (t, refl))
Outcome-cases (fails e) = inr (inr (inl (e, refl)))
Outcome-cases goes_on = inr (inr (inr refl))

-- Every list of packets has a dialogue.
pub dialogue :
    (links : ℕ → Links) (fuel : ℕ) (s : Server) (packets : List Delivery)
    → (sent : List Text) × (ending : Ending) × Dialogue links fuel s packets sent ending
dialogue links fuel s [] = ([], closes s, over)
dialogue links fuel s (p ∷ more) =
    elim (Outcome-cases (process_packet (links (suc (length more))) fuel s p.packet)) [
      | inl ((t, reply), answered) ↦
          let (sent, ending, later) = dialogue links fuel t more in
          (acks (true ∷ []) ++ (reply_sent reply ++ sent), ending, turn answered later)
      | inr (inl (t, at)) ↦ (acks (true ∷ []), closes t, refused at)
      | inr (inr (inl (e, at))) ↦ (acks (true ∷ []), breaks e, failed at)
      | inr (inr (inr at)) ↦ (acks (true ∷ []), runs_on, unfinished at)
    ]
