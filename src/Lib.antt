-- ===== src/Lib.antt =====
-- Verification of the Adnacom PCIe hotplug tool (src/adna.c and the files it is built with).
--
-- The program. `main` (src/main.c) scans the PCI buses once, notes each Adnacom downstream port in
-- a list, prints the ports, and then lives on an interval timer. At each tick the callback scans
-- the buses again and compares, for every listed port, whether its link is up with whether a device
-- is known behind it: a device that was plugged in is looked for by a rescan, one that was pulled
-- out is removed, and a port that stays down is switched off and on through a register of the
-- switch.
--
-- The files.
--   Common      lists, bits, numbers and texts that the parts share, and `Outcome`: how a call of C
--               code ends (it returns, the process exits, undefined behaviour, an endless loop).
--   Pci, Platform   the records and constants of libpci (lib/), and what the program calls and does
--               not implement: libpci, files under /sys, memory mapping, the timer. Its state is a
--               parameter, read by queries and changed by effects. `Sys.trace` records the effects.
--   Config      the cache of a device's configuration space (config_fetch, check_conf_range,
--               get_conf_byte, get_conf_word, get_conf_long, get_subid of src/adna.c).
--   Link        link state, data link layer and port type (src/adna.c).
--   Topology    buses and bridges (src/ls-tree.c: grow_tree and what it calls).
--   Machine     the global variables, the heap, and the monad of calls. The library's cache of a
--               device is the device's own buffer (pci_setup_cache); `store_cached` is what the
--               library stores there. Machine/Rules has triples: what holds of the record of
--               effects before and after a call.
--   Caps        the capability lists (src/ls-caps.c, src/ls-ecaps.c, as compiled with ADNA).
--   Show        the output for a device (src/adna.c: show_terse, show_verbose, and for CardBus
--               bridges show_bases and show_htype2).
--   Ports       the register of a port, removing a device, rescanning, the timer (src/adna.c).
--   Scan        scanning, sorting, the list of ports, adna_pci_process (src/adna.c).
--   Monitor     adna_timer_callback and main (src/adna.c, src/main.c).
--   SetPci      setpci (src/setpci.c, with parse_generic_option of src/common.c): numbers, register
--               names, the parser of an operation, the execution, the command line. It shares with
--               the rest the system and the monad of calls; Machine/Finishes has the rules for its
--               runs.
--   Vpd         the decoder of vital product data (src/ls-vpd.c), which has a state of its own: what
--               it printed, what it read, and the checksum.
--   Tree        the line that the tree of devices is printed through (src/ls-tree.c: tree_printf,
--               print_it).
--   Tests       a small machine, runs of the program on it, and an instance of each property.
--
-- Correspondence. A function of the model has the name of the C function; a loop or a long branch
-- has a name of its own. Pointers to devices and bridges are places in the lists of the heap; NULL
-- is `none`; a pointer used without a test is `deref`, which faults on `none`. `when b then m else n`
-- is a C `if` on statements, `null_or x m f` a test for NULL. Sums and products of unsigned words
-- wrap where the source's can.
--
-- Fuel. `double_until` doubles a size that stays below 2 ^ 32, so 32 rounds are enough, which
-- `config_fetch` relies on. `walk_caps` and `walk_ext_caps` mark a place of an array of 256 or 4096
-- bytes in each round and stop at a marked place, so they have one round more than places.
-- `insert_dev` goes down the tree of bridges, and `show_slot_path` up, with one round more than
-- there are bridges. The loops over vital product data go on by at least one byte in each round, and
-- have one round more than bytes. When fuel runs out the outcome is `diverged`.
--
-- Not modelled: libpci (lib/), which is a parameter; the use of the library's pointer to the buffer
-- of a device (pci_setup_cache) after `config_fetch` has moved that buffer; a failing calloc; the code under `#ifndef ADNA`, but for
-- src/ls-vpd.c; the dump and machine-readable output of show_device, which nothing calls; the tree
-- output of src/ls-tree.c but for its line; the version option; the messages that the option -v
-- adds; src/ls-kernel.c, src/ls-map.c and src/ls-caps-vendor.c, which have no part in the monitor.
pub mod Common
pub mod Pci
pub mod Platform
pub mod Config
pub mod Link
pub mod Topology
pub mod Machine
pub mod Ports
pub mod Caps
pub mod Show
pub mod Scan
pub mod SetPci
pub mod Vpd
pub mod Tree
pub mod Monitor
mod Tests
