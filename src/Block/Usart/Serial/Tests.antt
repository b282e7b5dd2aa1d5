-- ===== src/Block/Usart/Serial/Tests.antt =====
-- Runs of the links.
use megumi.Base.{
  ℕ, ◌%◌, ◌≤◌, ◌<◌, ◌≡◌, ◌≢◌, refl, true, false, if◌then◌else◌, ◌==◌, length, get_or, none, some,
  ok, err, throws,
}
use megumi.Block.Usart.Serial.Laws.{succeeding, distance, configure_nearest}
use megumi.Block.Usart.Serial.{
  Frame, Write, written, not_yet, unreadable, byte, baudrates, closest, recv, send, configure,
  char_size,
}
use megumi.Block.Usart.{databits, parity, parity_bits}
use megumi.Device.Sample.{serial}

-- A write() that takes only even bytes.
abbrev even_only : ℕ → Write
even_only v = if v % 2 == 0 then written else not_yet

runs :
    (recv true (byte 0x41) ≡ ok (some 0x41))
    × (recv false unreadable ≡ ok none)
    × (recv true unreadable ≡ err throws)
    × (send true even_only 0x101 ≡ ok false)
    × (send true even_only 0x142 ≡ ok true)
    × (closest baudrates 9615 ≡ 13)
    × (closest baudrates 20 ≡ 0)
    × (closest baudrates 25 ≡ 1)
    × (closest baudrates 1000000 ≡ 19)
    × (char_size 11 ≡ ok none)
unfolding recv send closest char_size
runs = (refl, refl, refl, refl, refl, refl, refl, refl, refl, refl)

configure_fails : configure (record succeeding { sets = false }) serial 9615 ≡ err throws
unfolding configure char_size
configure_fails = refl

configure_nearest_example :
    (databits serial ≡ 9 → configure succeeding serial 9615 ≡ err throws)
    × (databits serial ≢ 9
        → (f : Frame) × (configure succeeding serial 9615 ≡ ok f)
          × ((k : ℕ)
              → k < length baudrates
              → distance f.speed 9615 ≤ distance (get_or baudrates k 0) 9615)
          × ((if f.parenb then 1 else 0) ≡ parity_bits (parity serial)))
configure_nearest_example = configure_nearest serial 9615
