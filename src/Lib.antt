-- ===== src/Lib.antt =====
-- The USB UEFI firmware: a UEFI application that starts three subsystems, detects USB devices, waits
-- for keys and carries out commands, together with a flash manager that the application does not
-- start itself.
--
-- The parts and the files that model them:
--   src/firmware/flash_manager.c     Flash: the static variables are the record `Flash`; start, status
--                                    and cleanup in Flash/Manager, the region table and its checks in
--                                    Flash/Regions, read, write and erase in Flash/Access.
--   src/firmware/firmware_loader.c   Loader: the record `Loader`; reading a file in Loader/Files, the
--                                    information in Loader/Info, the checksum in Loader/Validate.
--   src/usb/usb_driver.c             Usb: the record `Usb`; one device in Usb/Device, the rest in
--                                    Usb/Driver.
--   src/uefi/uefi_interface.c        Uefi: the record `Uefi`; the memory map in Uefi/Memory, the
--                                    processor in Uefi/Cpu, Secure Boot and TPM in Uefi/Security, the
--                                    rest in Uefi/Interface.
--   src/uefi/boot_services.c         Uefi/Wrappers, with ALIGN_UP of include/common.h.
--   src/main.c                       Main: the commands in Main/Commands, the start, the event loop and
--                                    the cleanup in Main/Application.
--   include/config.h                 Config.
--   tools/flash_tools/flash_utility.c  Tool, a program for the host: the chunk loops in Tool/Transfer,
--                                    the other operations in Tool/Operations, the arguments and main
--                                    in Tool/Arguments. Its calls of the C library are the log of
--                                    Tool/State.
--   src/debug_utils.c                Debug, as a build with ENABLE_USB_DEBUG has it: filter, timer and
--                                    the names of statuses in Debug/Print, the hex dump in Debug/Dump.
--   include/debug_utils.h            The constants in Debug/State, the tracing macros and DBG_ASSERT of
--                                    both builds in Debug/Macros.
-- A function of the source is the definition of its name in snake case. The other files of a part
-- prove what its functions do, and Tests applies the theorems on a concrete machine.
--
-- A C function is a procedure (Platform/Proc) on the static variables of its file. It also appends its
-- calls of the firmware, the libraries and the console to a history (Platform/Event), and ends with
-- a status or, where it divides by zero, with a fault. What lies outside the repository is a
-- parameter: the record `Platform` of Platform/Services has one field for each service, and a reply
-- may depend on the history. No law is assumed of it; a theorem that needs one has it as a
-- hypothesis. getopt_long and strtoul are a parameter too, the record `CommandLine` of
-- Tool/Arguments, the C library's files and memory the record `Host`, and the `float` of the
-- progress bar the record `Floats` of Tool/Display. The subsystems share no static variable, only the
-- firmware and so the history.
--
-- Numbers are natural numbers, and a UINT32, UINT64 or UINTN wraps where the source's type does
-- (Common/Words). A pointer is a number, and NULL is 0. The store past the end of the device table of
-- the USB driver is undefined behaviour in C; here its index is kept in `overruns`, so what is shown of a
-- state with `overruns` that are not empty says nothing of the program.
--
-- Loops are recursive on the number of rounds that the source gives them. The event loop of the
-- application has no such bound: it runs on fuel, one unit for each event that it waits for, and
-- `none` is the result of fuel that ran out. For n timer events and the key `q`, n + 1 is enough. The
-- chunk loops of the flash utility run on fuel too, one unit for each chunk; one for each byte is
-- enough if the buffer is not empty. Its loop over the options has one unit for each option, and the
-- rows of the hex dump one unit for each row.
--
-- Any client of the flash manager, of the USB driver, of the UEFI interface or of the loader is a
-- sequence of calls: the relations `Reaches` of Flash/Session, `UsbReaches` of Usb/Session,
-- `UefiReaches` of Uefi/Session and `LoaderReaches` of Loader/Session, whose client also frees the
-- buffers that it got. The rules of Platform/Ensures put together conditions on the states in which
-- a procedure ends. Events name addresses and not bytes: Flash/Contents replays them on a store of
-- bytes, for the device and for the memory, and gives the image of both that a sequence of accesses
-- should leave if no access fails, and Loader/Delivery does so for a file that is read, with what UEFI
-- documents of files and of the pool as the record `ReadsFiles`. Main/Script turns a script of
-- ticks, keys and failures into conditions on the replies of the event services, with a recursion
-- over the script for what the main loop should do; its fuel is one unit for each event of the
-- script. The memory map without the order of its descriptors is the quotient `MemoryBag` of
-- Uefi/MemoryBag.
--
-- System puts the components together: a `Machine` is the state of all subsystems, and `Interleaves`
-- of System/Steps any sequence of calls of theirs and of those that main.c makes of the console and
-- of the events itself. Platform/Within has the rules by which a relation between the states and
-- histories before and after a procedure follows from those of its parts, and Main/Within takes
-- UefiMain apart by them; Main/Buffers (pool buffers), Main/Inside (the device table) and Main/Closing
-- (the USB protocols) are its uses. What the platform has to promise for the invariants of all
-- components is the record `KeepsPromises` of System/Invariant, and for the USB protocols `AllWork` of
-- Usb/Opened. Other clients take their turns between calls and not inside one, as no function of the
-- source is registered as a notification.
--
-- What the program prints is data: the hex dump in Debug/Dump, the banner, the help and the answers to
-- the commands in Main/Screen, the usage of the flash utility in Tool/Usage, its progress bar, sizes
-- and version in Tool/Display, and the figures of the status functions as the reports that they
-- return.
--
-- Not modelled: the texts of log messages and the formatting of numbers, which are the libraries';
-- the branch of the flash utility for Windows; the test command of a build with ENABLE_UNIT_TESTS; in
-- the headers the prototypes, and the packed structures, constants and macros that no function reads;
-- the tests, the build files and the documents.
pub mod Common
pub mod Platform
pub mod Config
pub mod Flash
pub mod Loader
pub mod Usb
pub mod Uefi
pub mod Main
pub mod System
pub mod Debug
pub mod Tool
pub mod Tests
