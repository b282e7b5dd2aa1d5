-- ===== src/Gdb/Packet/Laws.antt =====
-- A packet arrives whatever the pieces it comes in, and none arrives after a refused one.
use megumi.Base.{
  ℕ, ◌+◌, ◌<◌, ◌≡◌, ◌≢◌, ◌⊎◌, inl, inr, refl, sym, ap, ◌∙◌, arith, Bool, true, false, ◌>>>◌, ◌&&&◌,
  List, [], ◌∷◌, ◌++◌, All, none, some, bit_and, cons_injective, append_assoc, append_nil,
}
use megumi.Common.Laws.{bit_and_byte, bit_and_nibble}
use megumi.Gdb.Codec.{hex_digit}
use megumi.Gdb.Codec.Laws.{parse_hex_digit-hex_digit}
use megumi.Gdb.Packet.{
  after_start, frame_of, matches, Frame, Reception, recv_packet, body_of, send_packet, dollar, hash,
  leftover, answered,
}
use megumi.Gdb.{Text}
use megumi.Hex.Laws.{checksum-total}
use megumi.Hex.{checksum}

abbrev pub Without : ℕ → Text → Type 0
Without c = All (λ x. x ≢ c)

-- The pieces of a stream, in their order.
abbrev pub joined : List Text → Text
joined [] = []
joined (piece ∷ left) = piece ++ joined left

abbrev pub IsPiece : Text → Type 0
IsPiece piece = piece ≢ []

-- What follows the `$` of a packet.
abbrev tail_of : Text → Text
tail_of packet =
    packet
    ++ (hash ∷ hex_digit (checksum 0 packet >>> 4) ∷ hex_digit (checksum 0 packet &&& 0xf) ∷ [])

abbrev pub last_digit : Text → ℕ
last_digit packet = hex_digit (checksum 0 packet &&& 0xf)

abbrev frame : Text → Frame
frame packet = record {
  data_part = packet;
  chk0 = hex_digit (checksum 0 packet >>> 4);
  chk1 = last_digit packet;
  more = [];
}

frame_of-tail_of :
    (packet : Text) (a b : ℕ)
    → Without hash packet
    → frame_of (packet ++ (hash ∷ a ∷ b ∷ []))
      ≡ some (record { data_part = packet; chk0 = a; chk1 = b; more = [] })
unfolding frame_of
frame_of-tail_of [] a b h = refl
frame_of-tail_of (c ∷ packet) a b (ne, h) = ground (arith, ne, frame_of-tail_of packet a b h)

frame_of-part :
    (packet : Text) (a b : ℕ) (buf : Text) (y : ℕ) (ys : Text)
    → Without hash packet
    → buf ++ (y ∷ ys) ≡ packet ++ (hash ∷ a ∷ b ∷ [])
    → frame_of buf ≡ none
unfolding frame_of
frame_of-part packet a b [] y ys h e = refl
frame_of-part [] a b (c ∷ []) y ys h e = ground (arith, e)
frame_of-part [] a b (c ∷ c' ∷ []) y ys h e = ground (arith, e)
frame_of-part [] a b (c ∷ c' ∷ c'' ∷ buf) y ys h e = ground (arith, e)
frame_of-part (d ∷ packet) a b (c ∷ buf) y ys (ne, h) e =
    let rest =
      frame_of-part packet a b buf y ys h
        (cons_injective c d (buf ++ (y ∷ ys)) (packet ++ (hash ∷ a ∷ b ∷ [])) e).1 in
    ground (arith, e, rest, ne)

-- The checksum that is sent is the one that is computed.
checksum-lt : (sum : ℕ) (packet : Text) → sum < 256 → checksum sum packet < 256
unfolding checksum
checksum-lt sum [] h = h
checksum-lt sum (c ∷ packet) h =
    checksum-lt (bit_and (sum + c) 0xff) packet (omega (arith, bit_and_byte (sum + c)))

matches-frame :
    (packet : Text) (more : Text) → matches (record (frame packet) { more = more }) ≡ true
unfolding matches
matches-frame packet more =
    let sum = checksum 0 packet in
    let small = checksum-lt 0 packet (omega arith) in
    let low = bit_and_nibble sum in
    rw
      (
        parse_hex_digit-hex_digit (sum >>> 4) (omega (arith, small)),
        parse_hex_digit-hex_digit (sum &&& 0xf) (omega (arith, low)),
        matches,
      )
      (ground (arith, low))

-- The start of a stream: nothing of the noise before the first `$` is one.
after_start-noise :
    (noise body : Text) → Without dollar noise → after_start (noise ++ (dollar ∷ body)) ≡ some body
unfolding after_start
after_start-noise [] body h = refl
after_start-noise (c ∷ noise) body (ne, h) = ground (arith, ne, after_start-noise noise body h)

-- A part of a stream that does not reach its end: it has not started, or its start is there.
after_start-part :
    (noise body buf rest : Text)
    → Without dollar noise
    → buf ++ rest ≡ noise ++ (dollar ∷ body)
    → (after_start buf ≡ none)
      ⊎ ((part : Text) × (after_start buf ≡ some part) × (part ++ rest ≡ body))
unfolding after_start
after_start-part noise body [] rest h e = inl refl
after_start-part [] body (c ∷ buf) rest h e =
    let (first, more) = cons_injective c dollar (buf ++ rest) body e in
    inr (buf, ground (arith, first), more)
after_start-part (n ∷ noise) body (c ∷ buf) rest (ne, h) e =
    let (first, more) = cons_injective c n (buf ++ rest) (noise ++ (dollar ∷ body)) e in
    elim (after_start-part noise body buf rest h more) [
      | inl not_yet ↦ inl (ground (arith, first, not_yet, ne))
      | inr found ↦
          let (part, at, splits) = found in inr (part, ground (arith, first, at, ne), splits)
    ]

-- The turns of the loop of recvPacket.
module _ (seen : Bool) (rbuf piece : Text) (left : List Text) where
  pub recv_idle :
      body_of seen (rbuf ++ piece) ≡ none
      → recv_packet seen rbuf (piece ∷ left) ≡ recv_packet false (rbuf ++ piece) left
  unfolding recv_packet
  recv_idle h = rw (h, recv_packet) refl

  pub recv_waits :
      (body : Text)
      → body_of seen (rbuf ++ piece) ≡ some body
      → frame_of body ≡ none
      → recv_packet seen rbuf (piece ∷ left) ≡ recv_packet true body left
  unfolding recv_packet
  recv_waits body h g = rw (h, g, recv_packet) refl

  pub recv_takes :
      (body : Text) (f : Frame)
      → body_of seen (rbuf ++ piece) ≡ some body
      → frame_of body ≡ some f
      → matches f ≡ true
      → recv_packet seen rbuf (piece ∷ left)
        ≡ (true ∷ [], some (record { packet = f.data_part; rbuf = leftover f; left = left }))
  unfolding recv_packet
  recv_takes body f h g m = rw (h, g, m, recv_packet) refl

  pub recv_refuses :
      (body : Text) (f : Frame)
      → body_of seen (rbuf ++ piece) ≡ some body
      → frame_of body ≡ some f
      → matches f ≡ false
      → recv_packet seen rbuf (piece ∷ left) ≡ answered false (recv_packet true (leftover f) left)
  unfolding recv_packet
  recv_refuses body f h g m = rw (h, g, m, recv_packet) refl

-- The packet is accepted with the last piece, and the last digit stays in the buffer.
abbrev pub Arrives : Text → Reception → Type 0
Arrives packet r =
    r ≡ (true ∷ [], some (record { packet = packet; rbuf = last_digit packet ∷ []; left = [] }))

-- A body that is there, but for its last pieces.
started :
    (seen : Bool) (rbuf : Text) (packet body piece : Text) (left : List Text)
    → Without hash packet
    → All IsPiece left
    → body_of seen (rbuf ++ piece) ≡ some body
    → body ++ joined left ≡ tail_of packet
    → Arrives packet (recv_packet seen rbuf (piece ∷ left))
started seen rbuf packet body piece [] h pieces at e =
    recv_takes seen rbuf piece [] body (frame packet) at
      (ap frame_of (sym (append_nil body) ∙ e)
        ∙ frame_of-tail_of packet (hex_digit (checksum 0 packet >>> 4)) (last_digit packet) h)
      (matches-frame packet [])
started seen rbuf packet body piece ([] ∷ left) h (some_of, pieces) at e = absurd (some_of refl)
started seen rbuf packet body piece ((y ∷ ys) ∷ left) h (some_of, pieces) at e =
    recv_waits seen rbuf piece ((y ∷ ys) ∷ left) body at (
      frame_of-part packet (hex_digit (checksum 0 packet >>> 4)) (last_digit packet) body y
        (ys ++ joined left) h e)
    ∙ started true body packet (body ++ (y ∷ ys)) (y ∷ ys) left h pieces refl
        (append_assoc body (y ∷ ys) (joined left) ∙ e)

-- A stream of which the buffer has only noise.
not_started :
    (packet noise rbuf piece : Text) (left : List Text)
    → Without hash packet
    → Without dollar noise
    → All IsPiece left
    → after_start (rbuf ++ piece) ≡ none
    → (rbuf ++ piece) ++ joined left ≡ noise ++ (dollar ∷ tail_of packet)
    → Arrives packet (recv_packet false rbuf (piece ∷ left))
not_started packet noise rbuf piece [] h quiet pieces not_yet e = absurd (
    ground (
      arith,
      sym not_yet
          ∙ ap after_start (sym (append_nil (rbuf ++ piece)) ∙ e)
          ∙ after_start-noise noise (tail_of packet) quiet,
    ))
not_started packet noise rbuf piece (next ∷ left) h quiet (some_of, pieces) not_yet e =
    let whole = append_assoc (rbuf ++ piece) next (joined left) ∙ e in
    recv_idle false rbuf piece (next ∷ left) not_yet
    ∙ elim (after_start-part noise (tail_of packet) ((rbuf ++ piece) ++ next) (joined left) quiet
        whole) [
          | inr found ↦
              let (body, at, splits) = found in
              started false (rbuf ++ piece) packet body next left h pieces at splits
          | inl still_not ↦
              not_started packet noise (rbuf ++ piece) next left h quiet pieces still_not whole
        ]

-- sendPacket's bytes, after some noise without `$` and in any pieces, are received as the packet that
-- was sent: the last piece is acknowledged, and only the last digit of the checksum is left over. The
-- packet has no `#`, and part of the stream may be in the buffer already.
pub recv_packet-send_packet :
    (packet noise rbuf piece : Text) (left : List Text)
    → Without hash packet
    → Without dollar noise
    → All IsPiece (piece ∷ left)
    → rbuf ++ joined (piece ∷ left) ≡ noise ++ send_packet packet
    → Arrives packet (recv_packet false rbuf (piece ∷ left))
unfolding send_packet
recv_packet-send_packet packet noise rbuf piece left h quiet (some_of, pieces) e =
    elim (after_start-part noise (tail_of packet) (rbuf ++ piece) (joined left) quiet
      (append_assoc rbuf piece (joined left) ∙ e)) [
        | inr found ↦
            let (body, at, splits) = found in
            started false rbuf packet body piece left h pieces at splits
        | inl not_yet ↦
            not_started packet noise rbuf piece left h quiet pieces not_yet
              (append_assoc rbuf piece (joined left) ∙ e)
      ]

-- Packets that are sent again after a refusal, one in each piece.
abbrev pub resent : List Text → List Text
resent [] = []
resent (packet ∷ packets) = send_packet packet ∷ resent packets

abbrev pub refusals : List Text → List Bool
refusals [] = []
refusals (packet ∷ packets) = false ∷ refusals packets

abbrev pub IsDigit : ℕ → Type 0
IsDigit c = (47 < c) × (c < 103)

hex_digit-IsDigit : (d : ℕ) → d < 16 → IsDigit (hex_digit d)
hex_digit-IsDigit d h = ground arith

-- The packet behind a digit and its own `$`, as one frame.
abbrev stuck : ℕ → Text → Frame
stuck digit packet = record (frame packet) { data_part = digit ∷ dollar ∷ packet }

matches-stuck : (digit : ℕ) (packet : Text) → IsDigit digit → matches (stuck digit packet) ≡ false
unfolding matches
matches-stuck digit packet d =
    let sum = checksum 0 packet in
    let low = bit_and_nibble sum in
    let sent = checksum-total 0 packet (omega arith) in
    let seen = checksum-total 0 (digit ∷ dollar ∷ packet) (omega arith) in
    rw
      (
        parse_hex_digit-hex_digit (sum >>> 4) (omega (arith, sent)),
        parse_hex_digit-hex_digit (sum &&& 0xf) (omega (arith, low)),
        matches,
      )
      (ground (arith, low, sent, seen, d))

-- After a refused packet the digit that is left over, and the `$` of the next packet, count as data:
-- every packet that is sent again is refused too, until the connection is closed.
pub recv_packet_never_recovers :
    (digit : ℕ) (packets : List Text)
    → IsDigit digit
    → All (Without hash) packets
    → recv_packet true (digit ∷ []) (resent packets) ≡ (refusals packets, none)
unfolding recv_packet send_packet
recv_packet_never_recovers digit [] d h = refl
recv_packet_never_recovers digit (packet ∷ packets) d (h, hs) =
    let sum = checksum 0 packet in
    recv_refuses true (digit ∷ []) (send_packet packet) (resent packets)
      (digit ∷ send_packet packet) (stuck digit packet) refl
      (frame_of-tail_of (digit ∷ dollar ∷ packet) (hex_digit (sum >>> 4)) (last_digit packet)
        (ground (arith, d), ((λ e. absurd (omega (arith, e))), h)))
      (matches-stuck digit packet d)
    ∙ ap (answered false) (
        recv_packet_never_recovers (last_digit packet) packets
          (hex_digit-IsDigit (sum &&& 0xf) (omega (arith, bit_and_nibble sum))) hs)
