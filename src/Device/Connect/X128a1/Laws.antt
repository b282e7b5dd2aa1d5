-- ===== src/Device/Connect/X128a1/Laws.antt =====
-- The constructor of the ATxmega128A1 succeeds, and connects its blocks.
use megumi.Device.{Device}
