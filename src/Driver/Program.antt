-- ===== src/Driver/Program.antt =====
-- The emulator from its start on.
use nes_emulator.Prelude.{◌≡◌, true, IsBytes, List}
use nes_emulator.State.{Emulator, Rom}
use nes_emulator.State.Valid.{IsValid}
use nes_emulator.Outcome.{◌>>◌}
use nes_emulator.Outcome.Ensures.{Holds}
use nes_emulator.Outcome.Leads.{Leads-bind, Ensures-Leads}
use nes_emulator.Driver.{HostFrame, emulator_init, emulator_run}
use nes_emulator.Driver.FrameLoop.{emulator_run-Ensures}
use nes_emulator.Driver.Start.{FitsTypes, emulator_init-Leads}

-- For a rom of bytes, any contents of the memory of the emulator that fit its types, and any
-- frames of the host: if the initialisation and the run return, each frame came to its end in
-- the steps that the model gives it, and the invariant holds at the end.
pub run-init-IsValid :
    (rom : Rom) (hosts : List HostFrame) (e : Emulator)
    → IsBytes rom.bytes
    → FitsTypes e
    → Holds IsValid (λ finished. finished ≡ true) ((emulator_init rom >> emulator_run hosts) e)
run-init-IsValid rom hosts e h f =
    (Leads-bind _ _ (emulator_init-Leads rom h)
        λ _ _. Ensures-Leads _ (emulator_run-Ensures hosts) (λ _ v. v)).at
      e f
