-- ===== src/Block/Usart/Serial.antt =====
-- USARTLinkFile and USARTLinkSerial of block/usart.cpp: a link to a file or to a serial port. What the
-- calls of the system answer is given.
pub mod Laws
mod Tests
use megumi.Base.{
  ℕ, zero, suc, ◌+◌, ◌-◌, ◌*◌, ◌/◌, ◌%◌, ◌^◌, Bool, true, false, ◌&&◌, ◌||◌, not, if◌then◌else◌,
  ◌==◌, ltb, u8, List, [], ◌∷◌, length, get_or, Option, none, some, Result, ok, err, throws, ◌>>=◌,
}
use megumi.Block.Usart.{Usart, Parity, no, odd, even, parity, databits, stopbits}

-- The answers of read() and write() of one byte: the byte went through, it did not yet, or an error.
pub data Read : Type 0 where
  byte : ℕ → Read
  nothing_yet : Read
  unreadable : Read

pub data Write : Type 0 where
  written : Write
  not_yet : Write
  unwritable : Write

-- USARTLinkFile::recv: a link without an input file receives nothing.
unfoldable pub recv : Bool → Read → Result (Option ℕ)
recv false answer = ok none
recv true (byte c) = ok (some c)
recv true nothing_yet = ok none
recv true unreadable = err throws

-- USARTLinkFile::send, with write() as a function of the byte: a link without an output file drops it.
unfoldable pub send : Bool → (ℕ → Write) → ℕ → Result Bool
send false write v = ok true
send true write v = elim (write (u8 v)) [
  | written ↦ ok true
  | not_yet ↦ ok false
  | unwritable ↦ err throws
]

-- The table of USARTLinkSerial::configure, with the values beyond those of POSIX.
abbrev pub baudrates : List ℕ
baudrates =
    0 ∷ 50 ∷ 75 ∷ 110 ∷ 134 ∷ 150 ∷ 200 ∷ 300 ∷ 600 ∷ 1200 ∷ 1800 ∷ 2400 ∷ 4800 ∷ 9600 ∷ 19200
    ∷ 38400 ∷ 57600 ∷ 115200 ∷ 230400 ∷ 460800 ∷ []

-- The loop, to the first that is not below the rate.
abbrev pub first_not_below : List ℕ → ℕ → ℕ
first_not_below [] rate = 0
first_not_below (b ∷ bs) rate =
    let rest = first_not_below bs rate in if ltb b rate then suc rest else 0

unfoldable pub closest : List ℕ → ℕ → ℕ
closest table rate =
    let i = first_not_below table rate in
    if (i == length table)
      || (ltb 0 i && ltb (rate - get_or table (i - 1) 0) (get_or table i 0 - rate))
    then i - 1
    else i

-- The frame of the port: CSIZE, if it is set, PARENB, PARODD and CSTOPB, and the speed.
pub record Frame : Type 0 where
  pub size : Option ℕ
  pub parenb : Bool
  pub parodd : Bool
  pub cstopb : Bool
  pub speed : ℕ

unfoldable pub char_size : ℕ → Result (Option ℕ)
char_size n =
    if n == 5
    then ok (some 5)
    else if n == 6
    then ok (some 6)
    else if n == 7
    then ok (some 7)
    else if n == 8
    then ok (some 8)
    else if n == 9
    then err throws
    else ok none

abbrev is_even : Parity → Bool
is_even no = false
is_even odd = false
is_even even = true

abbrev is_odd : Parity → Bool
is_odd no = false
is_odd odd = true
is_odd even = false

abbrev pub frame_with : Usart → ℕ → Option ℕ → Frame
frame_with u rate size = record {
  size = size;
  parenb = is_even (parity u) || is_odd (parity u);
  parodd = is_odd (parity u);
  cstopb = not (stopbits u == 1);
  speed = get_or baudrates (closest baudrates rate) 0;
}

-- Whether tcgetattr(), cfsetspeed() and tcsetattr() succeed.
pub record Calls : Type 0 where
  pub gets : Bool
  pub sets_speed : Bool
  pub sets : Bool

-- USARTLinkSerial::configure, for the rate that baudrate() gives.
unfoldable pub configure : Calls → Usart → ℕ → Result Frame
unfolding closest char_size
configure calls u rate =
    if not calls.gets then err throws else if not calls.sets_speed then err throws else (do
      size ← char_size (databits u)
      if not calls.sets then err throws else ok (frame_with u rate size))
