-- ===== src/Gdb/Packet/Later.antt =====
-- recvPacket with more pieces to come: it takes the same packet, and leaves them.
use megumi.Base.{
  inl, inr, ◌≡◌, sym, ap, ◌∙◌, arith, Bool, true, false, List, [], ◌∷◌, ◌++◌, Option, none, some,
  Bool-cases, Option-cases,
}
use megumi.Gdb.Packet.Laws.{recv_idle, recv_waits, recv_takes, recv_refuses}
use megumi.Gdb.Packet.{
  body_of, frame_of, matches, leftover, answered, recv_packet, Received, Reception,
}
use megumi.Gdb.{Text}

-- What comes later is left for later.
abbrev pub and_later : List Text → Received → Received
and_later later p = record p { left = p.left ++ later }

-- A reception that goes on as another, and the same with more pieces.
onward :
    (later : List Text) (p : Received) (a a' b b' : Reception)
    → a ≡ b
    → a' ≡ b'
    → (b.1 ≡ some p → b' ≡ (b.0, some (and_later later p)))
    → a.1 ≡ some p
    → a' ≡ (a.0, some (and_later later p))
onward later p a a' b b' same same' rest h =
    same'
    ∙ rest (sym (ap (λ r. r.1) same) ∙ h)
    ∙ ap (λ r. (r.0, some (and_later later p))) (sym same)

onward_answered :
    (later : List Text) (p : Received) (a a' b b' : Reception)
    → a ≡ answered false b
    → a' ≡ answered false b'
    → (b.1 ≡ some p → b' ≡ (b.0, some (and_later later p)))
    → a.1 ≡ some p
    → a' ≡ (a.0, some (and_later later p))
onward_answered later p a a' b b' same same' rest h =
    same'
    ∙ ap (answered false) (rest (sym (ap (λ r. r.1) same) ∙ h))
    ∙ ap (λ r. (r.0, some (and_later later p))) (sym same)

abbrev all_later : List Text → Option Received → Option Received
all_later later none = none
all_later later (some p) = some (and_later later p)

pub recv_packet-append :
    (seen : Bool) (rbuf : Text) (pieces later : List Text) (p : Received)
    → (recv_packet seen rbuf pieces).1 ≡ some p
    → recv_packet seen rbuf (pieces ++ later)
      ≡ ((recv_packet seen rbuf pieces).0, some (and_later later p))
unfolding recv_packet
recv_packet-append seen rbuf [] later p h = absurd (ground (arith, h))
recv_packet-append seen rbuf (piece ∷ pieces) later p h =
    elim (Option-cases (body_of seen (rbuf ++ piece))) [
      | inl none_yet ↦
          onward later p _ _ _ _ (recv_idle seen rbuf piece pieces none_yet)
            (recv_idle seen rbuf piece (pieces ++ later) none_yet)
            (recv_packet-append false (rbuf ++ piece) pieces later p) h
      | inr (body, at) ↦ elim (Option-cases (frame_of body)) [
        | inl not_all ↦
            onward later p _ _ _ _ (recv_waits seen rbuf piece pieces body at not_all)
              (recv_waits seen rbuf piece (pieces ++ later) body at not_all)
              (recv_packet-append true body pieces later p) h
        | inr (f, whole) ↦ elim (Bool-cases (matches f)) [
          | inl fits ↦
              let same = recv_takes seen rbuf piece pieces body f at whole fits in
              recv_takes seen rbuf piece (pieces ++ later) body f at whole fits
              ∙ ap (λ r. (r.0, all_later later r.1)) (sym same)
              ∙ ap (λ o. ((recv_packet seen rbuf (piece ∷ pieces)).0, all_later later o)) h
          | inr differs ↦
              onward_answered later p _ _ _ _
                (recv_refuses seen rbuf piece pieces body f at whole differs)
                (recv_refuses seen rbuf piece (pieces ++ later) body f at whole differs)
                (recv_packet-append true (leftover f) pieces later p) h
        ]
      ]
    ]
