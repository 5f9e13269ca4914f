-- ===== src/Lib.antt =====
-- ALOE++: the part of the OESR framework and of its run-time library that carries commands, objects
-- and data between a manager, the nodes and the modules of a waveform, and a first of the modules.
--
-- The program. A manager (oesr/src/manager) describes a waveform as a set of modules with variables
-- and interfaces (oesr/src/common/waveform.c), serializes it (oesr/src/common/serializable.c) into
-- a packet (oesr/src/common/packet.c) and sends the packet with a command to every node that runs
-- some of the modules. The node (oesr/src/node) dispatches the command (nod_dispatcher.c), reads
-- the objects back and loads, initialises, starts and stops the modules (nod_waveform.c,
-- nod_module.c). While they run, a pipeline calls its modules one after the other in every time
-- slot (rtdal_lnx/src/pipeline.c), and modules exchange messages through queues
-- (rtdal_lnx/src/rtdal_itfspscq.c). The modules are a library for LTE (modrep_osld): the CRC of a
-- packet (gen_crc), the convolutional coder (gen_convcoder), the scrambling with a Gold sequence
-- (lte_scrambling), the rate matching of coded bits (lte_ratematching), and modules that move
-- samples (gen_mux, gen_demux, gen_padding, over modrep_default/gen_libs/utils/mux.c).
--
-- The files, and what they model:
--   Base, Base/*            shared: C's comparisons, arrays as lists, int words, outcomes of calls
--   Packet                  oesr/src/common/packet.c and include/packet.h: one function each
--   Packet/Send             packet_sendto of the same file
--   Waveform                oesr/src/common/waveform.c, mempool.c and include/waveform.h
--   Serializable            the variable, interface, execinfo and mode functions of
--                           oesr/src/common/serializable.c
--   Serializable/Modules    module_serialize and module_unserializeTo of the same file
--   Serializable/Wave       waveform_serialize and waveform_unserializeTo, and the report of a node,
--                           nod_waveform_serialize
--   Spscq                   rtdal_lnx/src/rtdal_itfspscq.c: one function each
--   Spscq/Fifo              the abstract queue of messages that the ring of slots implements
--   Pipeline                rtdal_lnx/src/pipeline.c, and rtdal_process.c's functions on one process
--   Variables               oesr/src/oesr_api/oesr_var.c: the parameters of a module, by mode, and the
--                           search of one in oesr/src/node/nod_module.c
--   Manager                 oesr/src/manager/man_waveform.c
--   Node                    oesr/src/node/nod_waveform.c and nod_module.c: objects, search, removal
--   Node/Init               nod_waveform_status_init_thread
--   Node/Modes              nod_waveform_unserializeTo and the loops in it
--   Dispatcher              oesr/src/node/nod_dispatcher.c
--   Ratematching            modrep_osld/lte_ratematching/src/ratematching.c: the interleaver of the
--                           sub-blocks of a coded block
--   Ratematching/Select     the selection of the bits that are sent, of the same file
--   Crc                     modrep_osld/gen_crc/src/crc.c, and the work of gen_crc.c on a packet
--   Crc/Register            the shift register of 16 bits that crc.c is compared with
--   Scrambling              modrep_osld/lte_scrambling/src/scrambling.c: the scrambling of bits, by words
--                           or one by one, and of soft bits
--   Scrambling/Sequence     the generation of the scrambling sequences, of the same file
--   Scrambling/Work         verify_params of lte_scrambling.c, and the placeholder bits of the uplink
--   Convcoder               modrep_osld/gen_convcoder/src/conv_encode.c, and initialize and work of
--                           gen_convcoder.c
--   Mux                     modrep_default/gen_libs/utils/mux.c, and the work of gen_mux.c and gen_demux.c
--   Padding                 the work of modrep_osld/gen_padding/src/gen_padding.c
-- The other files below these hold invariants, lemmas, theorems and tests of the module above them.
--
-- How state and calls correspond. A struct is a record with the source's field names; a pointer to
-- an array is `none` while it is NULL; a struct that is only copied is its bytes. A function that
-- changes an object takes it and returns it (`Call S A`), beside an `Outcome`: `ok` for a return of
-- 0 or of a value, `err` for -1, and `fault` where the source would touch memory out of range or
-- through NULL. What was changed before an `err` stays changed. `int` is a 32-bit pattern below
-- 2^32, with the wrap-around written out (`add32`), and `lt_int` is the signed comparison. Names
-- that begin nod_waveform_ keep that prefix; unserializeTo is spelled unserialize_to; in Manager
-- the names status_is_valid, status_is_loaded and status_is_running stand for those that begin
-- waveform_, and waveform_load_on for waveform_load; in Spscq the prefixes rtdal_itfspscq_ and
-- spscq_ are dropped.
--
-- Bounds and fuel. The invariant of a packet bounds its size by 2^29 bytes, so that no sum of two
-- positions leaves the int range; what happens beyond it is a result of its own. All loops are
-- recursion on the number of rounds or on the array, but for five. The initialisation thread has
-- fuel for three passes over the modules and one more test, which is enough for every behaviour of
-- the modules. The loops of subtractions in the rate matching have fuel for one round per unit of
-- the number. The selection of bits has fuel for a turn of the circular buffer per bit and one turn
-- more, which is enough if the buffer holds any bit but dummies; in the source it does not end
-- otherwise. The loop of icrc has fuel for a round per character, and takes one character at least
-- in each. The loop of a time slot, which follows the list as it changes, has fuel for a round per
-- process and for the test that ends the program where the list is longer than it should be.
--
-- What the model takes as given. The floats of soft bits are a type with a negation and two tests.
-- The parameters of a module that runs are arguments of its work. `calloc` is a function that says
-- whether memory is found; the sizes of the structures that hold pointers are a parameter
-- (`Layout`); the time is an argument; what a node does with a packet is a parameter of the
-- manager's functions, and `mapping_map` is too. The calls of the run-time (rtdal) that the node
-- makes, a module's `init`, and the change of status on a node, which waits for tasks, are
-- parameters of the node's functions. A module's `run_point` and the node's `finish_callback`,
-- which a pipeline calls, are parameters that may change the pipeline and its processes; what
-- rtdal.h says of them is a hypothesis of the theorems. A queue's semaphores appear as the outcome
-- `waits`; each call on a queue is one step, so interleavings within a call are not modelled.
--
-- Not modelled: the mapping of modules to processors (oesr/src/manager/man_mapping.c and
-- oesr/src/crm), which computes with floats; the parsers of configuration files; logs; the API that
-- modules call (oesr/src/oesr_api), but for the parameters, and the skeleton of a module; the rest
-- of rtdal_lnx, which is threads, signals and devices; the other modules (modrep_osld,
-- modrep_default), and of those above what reads their parameters, but for gen_convcoder's; volk,
-- which is another project's library; waveform_delete, rtdal_itfspscq_remove and other functions
-- that only free memory.
pub mod Base
pub mod Convcoder
pub mod Crc
pub mod Dispatcher
pub mod Manager
pub mod Mux
pub mod Node
pub mod Packet
pub mod Padding
pub mod Pipeline
pub mod Ratematching
pub mod Scrambling
pub mod Serializable
pub mod Spscq
pub mod Variables
pub mod Waveform
