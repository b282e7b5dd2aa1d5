-- ===== src/Block/Gpior/Tests.antt =====
-- Runs of the general purpose registers.
use megumi.Base.{◌≡◌, refl, []}
use megumi.Block.Gpior.{Gpior, get_io, set_io, reset}

abbrev cleared : Gpior
unfolding reset
cleared = reset (record { bytes = [] })

runs : (get_io (set_io cleared 15 7) 15 ≡ 7) × (get_io cleared 16 ≡ 0)
unfolding get_io set_io reset
runs = (refl, refl)
