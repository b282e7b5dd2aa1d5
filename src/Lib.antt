-- ===== src/Lib.antt =====
-- megumi: an emulator of XMEGA microcontrollers.
--
-- A device (device.h, device.cpp) owns the flash, the SRAM, the register file and the pending
-- interrupts, runs the instructions, and steps a clock whose events call back into the CPU and the
-- blocks. A block (block.h, block/*.cpp) is a peripheral behind a range of I/O addresses; it asks
-- the device to schedule events and to set the level of interrupt vectors.
--
-- Parts and files:
--   Base        lists, results and bits on native numbers; `Fault` tells an undefined access or a
--               failed assertion from an exception.
--   Common      common.h: interrupt levels, BitField, register_get and register_set.
--   Block/Cpu, Port, Gpior, Pmic, Osc, Clk, Tc, Usart
--               block/<name>.h and block/<name>.cpp: one record for the class, and `get_io`,
--               `set_io`, `reset` and the callbacks for getIo, setIo, reset and onEvent. Tc/Count is
--               TC::onEvent. What the other end of a USART answers or throws in an event is a
--               parameter (`Link`), and whether its configure() returns is a field of the USART.
--   Block/Request
--               what a handler asks of its device, as values in the order of the calls; such a call
--               returns nothing, so the block's own state does not depend on it.
--   Core        the register file with the CPU registers.
--   Opcode      the functions op_* of OpcodeDetail in device.cpp that work on the register file and
--               the flags: Arith, Logic, Pairs, with the flag formulas in Flags. Each returns the
--               core and the number of cycles.
--   IvSet, Interrupt
--               the std::set of vectors, setIvLvl, currentIntLvl, the choice that
--               processPendingInterrupts makes, and the level that RETI leaves.
--   Stack       the stack accessors of common.h and device.h, the calls and returns, PUSH and POP, and
--               the entry into an interrupt apart from the call of executeIv. `small` is the template
--               parameter small_flash.
--   Clock       clock.h, and schedule, unschedule, onClockConfigChange, getClockScale and the test
--               of step in device.cpp.
--   Device      class Device: the machine, the members CLK, OSC and GPIOR, the blocks with their
--               addresses and vectors, the pending interrupts and the clock; the calls of a block on
--               its device are carried out in order.
--   Device/Memory, Pointers, Loads, Stores, Flash, Flow, Io
--               the I/O space and the data memory (getIoMem, getDataMem and their setters), loadFlash,
--               and the op_* of OpcodeDetail that reach beyond the registers.
--   Device/Decode, Execute
--               getFunc as a table of masks, and the function that each entry of opcode_map_ calls.
--   Device/Step processPendingInterrupts, executeNextInstruction, stepCPU, step and reset.
--   Device/Connect
--               Block::Block, connectBlock and the constructor of Device; Connect/X128a1 is
--               model/x128a1.cpp with its blocks.
--   Hex         input_hex.cpp: the lines of a file, their records, and the merged chunks.
--   Block/Usart/Serial
--               USARTLinkFile::recv and send, and USARTLinkSerial::configure, of block/usart.cpp. What
--               the calls of the system answer is a parameter; the table of rates is that of a system
--               with the four rates beyond POSIX.
--   Gdb         gdbserver.h, gdbserver.cpp: the device and the breakpoints, and how a command ends.
--   Gdb/Codec   parse_hex_le, parse_hex_be_until, build_hex_le and build_hex_be.
--   Gdb/Packet  recvPacket, sendPacket and sendAck: what recv() brings is a list of pieces, and the
--               connection is closed when there are no more.
--   Gdb/Exec    execStep and execContinue.
--   Gdb/Memory  getGdbMem and setGdbMem.
--   Gdb/Command, Process
--               the commands of processPacket, each on the text after its letter, and their choice.
--   Gdb/Serve   the loop of run() with a client.
--   Main        main.cpp after the options are parsed: the exits, the loading of the program, the
--               reset, and the three loops.
--
-- Bytes and words are natural numbers with the wrap-around written out; an assignment to a one-bit
-- BitField goes through a byte, as in the source (`Common.flag`). Loops are structural recursion, but
-- for the loop of stepCPU: an instruction may take no cycle, so it runs on fuel, two tests more than
-- the flash has words, which is enough because such an instruction goes on to the next word.
--
-- The array of events is not changed while step() goes through it: a callback that does so
-- invalidates the loop's iterators, and is undefined behaviour in the model. An event is known by its
-- owner, 0 for stepCPU and the place of the block and one for the others. The values of what the
-- constructors leave uninitialised are parameters. flashptr_t and memptr_t are 64 bits wide.
--
-- execStep, execContinue and the loops of main may run on for ever: they take the number of steps
-- that they may make, and the loop of run() the number of packets. The loop of --sys-ticks needs one
-- test more than there are ticks. A result that comes with some number of them is shown
-- to come with every greater one.
--
-- Not modelled: the opening of sockets and files and their errors, the links of the USART on Windows,
-- logging and the parsing of the command line, which are I/O; and the configuration tree of a third-party library.
pub mod Base
pub mod Common
pub mod Block
pub mod Core
pub mod IvSet
pub mod Interrupt
pub mod Clock
pub mod Opcode
pub mod Stack
pub mod Device
pub mod Hex
pub mod Gdb
pub mod Main
