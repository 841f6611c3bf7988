-- ===== src/Lib.antt =====
-- A model of cameleon, a library for GenICam cameras: the USB3 Vision protocol between a host and a
-- device, and the memory behind the device's registers.
--
-- The parts. The host (device/src/u3v/protocol) makes command packets, splits reads and writes that
-- are too large for a packet, and parses the acknowledges, events and stream leaders and trailers
-- that come back. The device (device/src/emulator) parses the commands and makes the acknowledges.
-- The two sides have separate parsers and serializers, and share only the types of the commands. A
-- device answers from a memory
-- (impl/src/memory.rs and the code that impl/macros/src/memory.rs generates), which has an access
-- right for each address and observers of its registers. A camera (cameleon/src/u3v) sends commands
-- over a USB channel and waits for the answers, and its features (genapi) are integers in
-- registers and formulas over them.
--
-- The files.
--   Prelude, Prelude/*: the library names in use, tests into Bool, lists over the native numbers.
--   Result: the outcomes of fallible code. Stateful: methods that change an object and may fail.
--   Bytes, Bytes/Laws: device/src/u3v/protocol/util.rs. A cursor is the rest of its slice.
--   Protocol: device/src/u3v/mod.rs, `Error`; `read` and `read_slice` are `cursor.read_bytes()?` and
--     `read_bytes(cursor, len)?` with the error converted.
--   Protocol/Cmd, Protocol/Cmd/Scd: device/src/u3v/protocol/cmd.rs. The trait `CommandScd` is a
--     record, and its implementations are instances. `new_write_mem` is `WriteMem::new`,
--     `new_read_mem_stacked` and `new_write_mem_stacked` are the `new` of the stacked commands.
--   Protocol/Cmd/Chunks: `ReadMem::chunks`, `WriteMem::chunks` and the iterators that they return;
--     `collect` is a loop over an iterator.
--   Protocol/Ack, Protocol/Ack/Scd: device/src/u3v/protocol/ack.rs, `parse_x` for `x::parse`.
--   Protocol/Event: device/src/u3v/protocol/event.rs.
--   Protocol/Stream: device/src/u3v/protocol/stream.rs.
--   PixelFormat, PixelFormat/*: device/src/pixel_format.rs. `arms` are the arms of the `match` of
--     `try_from`, in order, and `code_of` is `u32::from`.
--   Emulator, Emulator/Cmd, Emulator/Cmd/Scd, Emulator/Ack: the modules `cmd` and `ack` of
--     device/src/emulator/emulator_impl/control_protocol.rs.
--   Emulator/Queue: device/src/emulator/emulator_impl/shared_queue.rs.
--   Emulator/Worker: control_module.rs of the same directory, `Worker`, one at a time. `run_packet`
--     and `run_command` are parts of its `run`, `read_reply` and `write_reply` the `match`es of
--     `process_read_mem` and `process_write_mem`, and `parsed_or` and `extract` are
--     `try_parse_command` and `try_extract_scd` with what follows.
--   Emulator/Interface: interface.rs of the same directory, only where it waits for the workers.
--   Emulator/Events: memory_event_handler.rs of the same directory, which fills the interface
--     `EventHandler`; Memory/RegisterMap: the registers of its memory.rs that the handler uses.
--   Memory: impl/src/memory.rs. Memory/Raw: the methods that impl/macros/src/memory.rs generates;
--     a write returns the new memory and the observers whose `update` it calls, in order.
--   Control: cameleon/src/u3v/control_handle.rs, `send_cmd`. `receive` is its loop and `verify` is
--     `verify_ack` with the parsing around it; the result stands beside the handle that is left.
--   Control/Access: `DeviceControl::read` of the same file. `read_pieces` is its loop over the pieces
--     of the buffer; what an error leaves in the buffer is left out. The tests run it against the
--     emulated device.
--   GenApi, GenApi/Ints: genapi/src/utils.rs, `int_from_slice` and `bytes_from_int`. An `i64` is the
--     number of its bits.
--   GenApi/Masks: genapi/src/masked_int_reg.rs, `BitMask`; `fits` is the check at the head of
--     `masked_value`.
--   GenApi/Store: genapi/src/store.rs, `DefaultCacheStore`, `CacheSink` and `DefaultValueStore`.
--   GenApi/Context: genapi/src/lib.rs, `Device` and `ValueCtxt`. A method returns its result beside
--     the device and the context that it leaves.
--   GenApi/Registers: genapi/src/register_base.rs and port.rs, with the address kinds of
--     elem_type.rs. `with_cache_or_read` takes its closure as a function.
--   GenApi/IntRegs: genapi/src/int_reg.rs, masked_int_reg.rs and register.rs. `value` and
--     `set_value` are those of `IntRegNode`, `masked_reg_value` and `set_masked_reg_value` those of
--     `MaskedIntRegNode`, and `read` and `write` those of `IRegister`, which are the same for all.
--   GenApi/I64: the integer operations of genapi/src/formula.rs on those bits.
--   GenApi/Formula: the expressions of genapi/src/formula.rs, and the values that they have.
--   GenApi/Formula/Eval: `Expr::eval`, `eval_binop` and `eval_unop`, which is `apply_unop` after the
--     evaluation of the operand; the map of the variables is a function.
--   GenApi/Formula/Lexer: `Lexer`. Its state is what is left of the source; `next_token` is `next`,
--     and what `peek` and `peek_char` keep is read again. `token_at` is the `match` of `peek`.
--   GenApi/Formula/Parser: `Parser` and `parse`. `parse_binop` is the macro of that name, `level n`
--     is the n-th of the functions `factor`, `term`, ..., `logical_or`, and `atom` is what
--     `next_integer`, `next_float` and `next_ident` return. `parse_goal` ties `expr` and `unop`
--     together, which call each other.
--   Tests, Tests/*: runs at concrete inputs.
-- The other modules hold the proofs, each named for what it proves.
--
-- Conventions. Integers are natural numbers; a theorem that needs a width says so. An operation that
-- overflows, a failed assertion and an index out of bounds are the outcome `panic`, which is what a
-- build with debug assertions does. The text of an error message is left out. A buffer that is
-- written to takes every byte, as a `Vec<u8>` does. Durations are numbers of nanoseconds.
--
-- The crate `byteorder` is the parameter `ByteOrder` of `Bytes`: its reader and writer for each
-- width, with its documented behaviour, that a writer appends the little-endian bytes and a reader
-- takes them or fails at the end of the input. `Tests` gives a concrete one.
--
-- The USB control channel, which is calls of the crate rusb, is the parameter `Channel` of `Control`:
-- what it does with a packet, and what it delivers, is a hypothesis of each theorem that needs it.
--
-- The device that GenApi reads and writes, which the user of the crate supplies, is the parameter
-- `Device` of `GenApi/Context`; `IsMemory` says that it keeps what is written to a register. The node
-- store is the interface `NodeStore`: which node is a port, and the method `value` of the nodes that
-- are integers or booleans, of whatever kind. A register that `IsAt` a place is one whose address and
-- length take no state to compute.
--
-- The handler of memory events is the interface `EventHandler` of `Emulator/Worker`: `IsQuiet` says
-- that it ends and leaves the queue of packets alone, from one worker with any bytes and events, and
-- `IsIdle` that it does nothing without events. `memory_event_handler` of `Emulator/Events` fills it.
-- `disable_sirm` waits for the stream module; it never ends where `is_blocked` of
-- `Emulator/Interface` says that the interface waits for the worker in turn. The interface takes the
-- signals of a worker only while the worker waits, and no request of the host to halt an endpoint
-- arrives meanwhile.
--
-- The type `f64`, its operations and casts, and `f64::from_str` are the parameter `Floats` of
-- `GenApi/Formula`, of which only the range of a cast to `i64` is used. `str::from_utf8` is the
-- parameter `Utf8` of `GenApi/Formula/Lexer`: it accepts ASCII.
--
-- Fuel. The outcome `stuck` says that the code never returns: it waits for ever, in `disable_sirm`;
-- or a loop, which runs on fuel, has not enough of it. The loops of the stacked commands, the stacked
-- acknowledges and the events take as fuel the length that the header states, and each round uses at
-- least one byte of it. The loops over the chunk iterators take one round for each byte and one more,
-- and so does the loop of a read in pieces. The loop of `send_cmd` counts its own retries. The loop
-- of the memory events takes a round for each event that waits, one for each event that the channel
-- holds, and one more. The lexer's loops take a round for each byte that is left, and so do the loops
-- of the parser; the recursion of the parser takes twice the length of the source and two more. The
-- evaluation of a formula takes its fuel as an argument, since its variables may refer to each other.
--
-- Not modelled: USB transfers and the runtime (rusb, async tasks, channels), the interface of the
-- emulated device but for its waits, its event and stream modules, the attribute input of the macros,
-- the XML parser and the GenApi nodes but the integer registers, the register map and stream of a
-- camera, and the GenTL interface. A worker runs alone: what two workers do to one memory at once is
-- left out.
pub mod Prelude
pub mod Result
pub mod Bytes
pub mod PixelFormat
pub mod Protocol
pub mod Emulator
pub mod Memory
pub mod Control
pub mod GenApi
pub mod Stateful
mod Tests
