-- ===== src/Board/Deleting.antt =====
-- Which files have been deleted, by the record of the calls.
use alonzo_bootloader_zephyr.Base.{true, List, ℕ, Result, ok, err, no_return, All}
use alonzo_bootloader_zephyr.Board.{Event, Trace, unlinked}
use alonzo_bootloader_zephyr.Board.Drivers.{read_event}

-- Not the successful deletion of a file.
abbrev pub Spares : Event → Type 0
Spares (unlinked path true) = ⊥
Spares _ = Unit

-- No file has been deleted.
abbrev pub AllThere : Trace → Type 0
AllThere t = All Spares t

pub read_event-Spares : (r : Result (List ℕ)) → Spares (read_event r)
unfolding read_event
read_event-Spares (ok bytes) = tt
read_event-Spares (err e) = tt
read_event-Spares no_return = tt
