-- ===== src/Block/Pmic/Tests.antt =====
-- Runs of the interrupt controller.
use megumi.Base.{◌≡◌, refl, true, false}
use megumi.Block.Pmic.{Pmic, get_io, set_io, reset, status_data}

abbrev fresh : Pmic
fresh = record {
  status = record { lolvlex = true; medlvlex = false; hilvlex = true; nmiex = false };
  ctrl = 0;
}

-- IVSEL is kept out without CCP.
runs :
    (get_io (set_io fresh 0 0x02 0x47) 0x02 ≡ 0x07)
    × (get_io (set_io fresh 1 0x02 0x47) 0x02 ≡ 0x47)
    × (get_io fresh 0x00 ≡ 5)
    × (get_io (reset fresh) 0x00 ≡ 0)
unfolding get_io set_io reset status_data
runs = (refl, refl, refl, refl)
