-- ===== src/Gdb/Sample.antt =====
-- A server on the sample device, with a breakpoint.
use megumi.Base.{[], ◌∷◌}
use megumi.Device.Sample.{bench, quiet}
use megumi.Gdb.Exec.{Links}
use megumi.Gdb.{Server}

abbrev pub server : Server
server = record { device = bench; breakpoints = 3 ∷ [] }

abbrev pub links : Links
links i = quiet
