-- ===== src/Lib.antt =====
-- The Alonzo bootloader: an STM32F411 program that, at power-up, looks on a TF card for a new
-- firmware image and for an update of the BLE co-processor, applies them, and jumps to the
-- application. Printing is left out everywhere.
--
-- The parts, from the wire up, and the files that model them:
--   Swd          src/fr8016/swd.c: the bit-banged SWD master. Swd.Wire holds the GPIO driver that it
--                calls, as a parameter, and the module's static variables (`Link`); Swd.Dp and
--                Swd.Ack the constants of swd.h. Swd.Waveform reads a record of calls as what a
--                target sees, Swd.Sampling is about reading bits, Swd.Request about the words that
--                are computed, Swd.Transaction about whole transactions, Swd.Retry about the loop
--                over WAIT answers, Swd.Returning about the end of every call. Swd.Port is the
--                interface to the layer above.
--   Dap          src/fr8016/dap.c: the debug port and the MEM-AP, over any SwdPort; the constants of
--                dap.h in Dap.Register; the interface to the layers above in Dap.Port; what is
--                assumed of a MEM-AP in Dap.Memory; its bounded waits in Dap.Returning.
--   CortexM      src/fr8016/cortexm.c: halting debug of a core, over any DebugPort; the constants of
--                cortexm.h in CortexM.Register; its bounded waits in CortexM.Returning; register
--                transfers, and what is assumed of a halted core, in CortexM.Core; a wait that
--                succeeds in CortexM.Waiting; what is assumed of a halt and of a reset in
--                CortexM.Resetting, the reset in CortexM.Restart.
--   Flm          src/fr8016/flm.c: loading a flash algorithm into the target's memory and calling its
--                routines, over any DebugPort; the constants and structs of flm.h and the static
--                variables in Flm.Format; copying against a memory in Flm.Memory; what a load leaves in
--                the static variables in Flm.Loading, what in the memory in Flm.Placing; the
--                registers of a routine's call in Flm.Calling; its bounded waits in Flm.Returning.
--   FlmElf       src/fr8016/flm_elf.c: the parser of .FLM files, over a list of bytes; FlmElf.Named
--                says what a file describes by the names of its sections and symbols, FlmElf.Sound is
--                about the images the parser gives, FlmElf.Located and FlmElf.InBounds about the reads.
--   CoProcessor  src/fr8016/fr8016.c: the update of the co-processor, over any SwdPort and DebugPort.
--                CoProcessor.Area has its work area and buffers, CoProcessor.Layout is about the work
--                area, CoProcessor.Loaded about a load into it; CoProcessor.ReadBack, Verified and
--                Reread about what a verification compares, word by word, byte by byte and as a
--                whole, CoProcessor.Opening and Burned about what a burn leaves in the flash;
--                CoProcessor.Ending, Finishing, Fetching, Completion and Stuck about whether its
--                loops end;
--                CoProcessor.Recorded and CoProcessor.Phases about the calls that each phase makes,
--                CoProcessor.Deletion, Safety and Restoring about those of the whole update.
--   MemoryLayout include/memory_layout.h, for every configured size of the bootloader.
--   Board        the Zephyr and CMSIS calls of the modules on the STM32 side: the drivers are the
--                parameter `Platform`, and the calls made are recorded in `Board`. Board.Drivers has the
--                calls of the file system, the flash and the pin control, Board.Calls the rules for
--                calls, Board.Reading what is assumed of the files that are served, and
--                Board.Deleting the calls that delete none.
--   Led, Tf      src/led.c and src/tf.c.
--   FirmwareUpdate  src/firmware_update.c: erasing the application region and copying firmware.bin.
--                FirmwareUpdate.Cell reads a record of calls as the contents of the flash;
--                FirmwareUpdate.Image and Burning are about what a self-update leaves
--                there, Recorded, Region and Deletion about the calls it makes.
--   AppJump      src/app_jump.c: the check of the vector table and the handoff.
--   Update       src/update.c and src/ble_update.c: the order of the updates.
--   Boot         src/main.c: the boot sequence. Boot.Starting is about what it does outside of
--                the updates; Boot.Burnt and Boot.System put CoProcessor in its place there, the
--                latter over the SWD master and the debug port.
--   Base, Bits   helpers: the result type, Hoare triples, success (Base.Works), bytes, words, laws of
--                the bit operations.
--   Tests        runs of the code, and instances of the theorems.
-- A function keeps its name without the prefix of its file (`swd_read_dp` is Swd.read_dp); static
-- helpers keep their names.
--
-- A function that returns a negative errno is an `Exec`: it takes a state to a result and a state.
-- The state is the record of the calls made, the latest first, with the static variables. What a
-- driver answers is any function of the calls before it, so a theorem holds for every behaviour of
-- the hardware. Words are natural numbers; wrap-around is written out where a shift or a sum can
-- leave the 32 bits.
--
-- Pointer arguments are values, so tests of them for NULL are left out, but that of `flm_img` in
-- flm.c. The configured RAM window of the co-processor is the parameters `ram_base` and `ram_size`.
-- The result `no_return` stands for a call that does not come back: a driver that hangs, fuel that is
-- used up, and undefined behaviour (a division by zero, an access over the end of a buffer). A read
-- behind the end of the .FLM file counts as such, although the buffer of the source is longer.
--
-- Loops whose number of rounds the source bounds (bits, retries, polls, interrupt lines, sections,
-- symbols, words, sectors) are recursion on that bound. The two loops of firmware_update.c have no
-- such bound and take fuel: one round per sector and one round per chunk read. More fuel than the
-- application region has bytes is enough for both loops, since each round erases or reads at least one
-- byte (FirmwareUpdate.Burning). The loops of fr8016.c that read a file take fuel too, one round per
-- read. More fuel than the co-processor's flash has bytes is enough for those over the image, since
-- each round reads at least one byte of it (CoProcessor.Finishing); for that over the .FLM file, more
-- fuel than the file has bytes is enough, since a read that gives no byte ends it.
--
-- Not modelled: Zephyr, its FAT file system and drivers, and CMSIS, which are parameters; the flash
-- algorithm in the .FLM file, which the co-processor runs; printing; build files, Kconfig and
-- devicetree.
pub mod Base
pub mod Bits
pub mod Swd
pub mod Dap
pub mod CortexM
pub mod Flm
pub mod FlmElf
pub mod CoProcessor
pub mod MemoryLayout
pub mod Board
pub mod Led
pub mod Tf
pub mod FirmwareUpdate
pub mod AppJump
pub mod Update
pub mod Boot
pub mod Tests
