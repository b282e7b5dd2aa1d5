-- ===== src/Block/Port/Tests.antt =====
-- Runs of a port.
use megumi.Base.{ℕ, ◌≡◌, ◌<◌, ◌≤◌, ◌+◌, refl, arith}
use megumi.Block.Port.Laws.{Acts, set_io-Acts}
use megumi.Block.Port.{Port, get_io, set_io, reset}

abbrev half : Port
half = record { dir = 0xf0; out = 0x3c }

set_io-Acts_example :
    Acts 5 0xf0 0x21 (λ a. (set_io half a 0x21).dir)
    × Acts 5 0x3c 0x21 (λ a. (set_io half (4 + a) 0x21).out)
    × ((a : ℕ) → a < 4 → (set_io half a 0x21).out ≡ 0x3c)
    × ((a : ℕ) → 4 ≤ a → (set_io half a 0x21).dir ≡ 0xf0)
set_io-Acts_example = set_io-Acts half 0x21 5 (omega arith) (omega arith)

runs : (get_io half 0x08 ≡ 0x30) × ((reset half).out ≡ 0)
unfolding get_io reset
runs = (refl, refl)
