-- ===== src/Block/Gpior.antt =====
-- block/gpior.h and block/gpior.cpp: sixteen bytes of storage.
mod Tests
use megumi.Base.{ℕ, List, get_or, set, replicate}

pub record Gpior : Type 0 where
  pub bytes : List ℕ

-- IO_SIZE
abbrev io_size : ℕ
io_size = 16

pub get_io : Gpior → ℕ → ℕ
get_io g addr = get_or g.bytes addr 0

unfoldable pub set_io : Gpior → ℕ → ℕ → Gpior
set_io g addr v = record { bytes = set g.bytes addr v }

pub reset : Gpior → Gpior
reset g = record { bytes = replicate io_size 0 }
