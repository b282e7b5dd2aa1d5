-- ===== src/Gdb/Packet.antt =====
-- recvPacket, sendPacket and sendAck of gdbserver.cpp. A call of recv() that is interrupted is made
-- again, one that brings nothing says that the connection is closed, and send() sends all.
pub mod Laws
pub mod Later
use megumi.Base.{
  ℕ, ◌+◌, ◌*◌, ◌/◌, ◌%◌, ◌^◌, Bool, true, false, not, if◌then◌else◌, ◌==◌, ◌<<<◌, ◌>>>◌, ◌&&&◌,
  List, [], ◌∷◌, ◌++◌, Option, none, some,
}
use megumi.Gdb.Codec.{hex_digit}
use megumi.Gdb.{Text}
use megumi.Hex.{parse_hex_digit, checksum}

abbrev pub dollar : ℕ
dollar = 36

abbrev pub hash : ℕ
hash = 35

-- What follows the first `$`.
unfoldable pub after_start : Text → Option Text
after_start [] = none
after_start (c ∷ buf) = let rest = after_start buf in if c == dollar then some buf else rest

-- The data before the first `#`, and the two characters and the rest that follow it.
pub record Frame : Type 0 where
  pub data_part : Text
  pub chk0 : ℕ
  pub chk1 : ℕ
  pub more : Text

abbrev grow : ℕ → Option Frame → Option Frame
grow c none = none
grow c (some f) = some (record f { data_part = c ∷ f.data_part })

abbrev frame_end : Text → Option Frame
frame_end [] = none
frame_end (a ∷ []) = none
frame_end (a ∷ b ∷ more) = some (record { data_part = []; chk0 = a; chk1 = b; more = more })

unfoldable pub frame_of : Text → Option Frame
frame_of [] = none
frame_of (c ∷ buf) = let rest = frame_of buf in if c == hash then frame_end buf else grow c rest

abbrev both : Option ℕ → Option ℕ → Option ℕ
both none low = none
both (some high) none = none
both (some high) (some low) = some (high <<< 4 + low)

-- Whether the checksum is that of the data; no digits are no checksum.
unfoldable pub matches : Frame → Bool
unfolding parse_hex_digit checksum
matches f = elim (both (parse_hex_digit f.chk0) (parse_hex_digit f.chk1)) [
  | none ↦ false
  | some field ↦ checksum 0 f.data_part == field
]

-- A packet's data, rbuf_ afterwards, and the pieces that are not read yet.
pub record Received : Type 0 where
  pub packet : Text
  pub rbuf : Text
  pub left : List Text

-- The acknowledgements sent, and the packet, or none when the connection is closed.
abbrev pub Reception : Type 0
Reception = List Bool × Option Received

-- Both erasures leave the second character of the checksum in rbuf_.
abbrev pub leftover : Frame → Text
leftover f = f.chk1 ∷ f.more

abbrev pub answered : Bool → Reception → Reception
answered ack r = (ack ∷ r.0, r.1)

abbrev pub body_of : Bool → Text → Option Text
body_of true buf = some buf
body_of false buf = after_start buf

-- The loop of recvPacket: start_seen, rbuf_, and what recv() brings.
unfoldable pub recv_packet : Bool → Text → List Text → Reception
unfolding after_start frame_of matches
recv_packet seen rbuf [] = ([], none)
recv_packet seen rbuf (piece ∷ left) = elim (body_of seen (rbuf ++ piece)) [
  | none ↦ recv_packet false (rbuf ++ piece) left
  | some body ↦ elim (frame_of body) [
    | none ↦ recv_packet true body left
    | some f ↦ elim (matches f) [
      | true ↦ (true ∷ [], some (record { packet = f.data_part; rbuf = leftover f; left = left }))
      | false ↦ answered false (recv_packet true (leftover f) left)
    ]
  ]
]

-- The bytes of sendPacket.
unfoldable pub send_packet : Text → Text
unfolding checksum
send_packet packet =
    dollar
    ∷ (packet
        ++ (hash
            ∷ hex_digit (checksum 0 packet >>> 4)
            ∷ hex_digit (checksum 0 packet &&& 0xf)
            ∷ []))

-- The byte of sendAck.
abbrev pub send_ack : Bool → ℕ
send_ack ack = if ack then 43 else 45
