-- ===== src/Lib.antt =====
-- The p-net IO device manager (repository pnet-driver-test): a C program that loads a configuration,
-- applies network, security and real-time settings to the host, and keeps a Profinet device running on
-- the p-net stack. It is modelled as it is built for Linux with the mock of the p-net API.
--
-- The parts, and the files that model them:
--
-- Prelude, Text     what the others share: numbers, lists, byte strings, and the conversions of the C
--                   library that the program uses (strtoul, atoi, %u, %d, snprintf, strncpy), with
--                   strip of src/config/app_config.c in Text/Strip.
-- Address           parse_ip and format_ip of src/config/app_config.c.
-- Security          src/security/security_policy.c: the rule table (Security, Security/Table), the
--                   script (Security/Script and below), running it (Security/Apply), the audit
--                   (Security/Audit and below), and the IPSec tunnels (Security/Ipsec and below).
-- Pnet              the p-net API that the device calls, as a record Stack, and the mock of it in
--                   tests/mock/pnet_api_mock.c (Pnet/Mock and below); the API of the real stack as a record
--                   RealStack (Pnet/Real); the uptime of include/pnal_config.h (Pnet/Uptime).
-- Device            src/app/io_device.c: the handle and its callbacks (Device), init and start
--                   (Device/Start), the other calls (Device/Calls), sequences of calls
--                   (Device/Run), and what holds of them; the build with the real stack, and that
--                   it does the same (Device/Real and below); the status dump (Device/Show).
-- Net               src/net/network_config.c: the calls on an interface (Net/Interface and below), TCP tuning
--                   (Net/Tuning), the address utilities (Net/Validity), and the queries on macOS
--                   (Net/Mac).
-- Realtime          src/realtime/rt_setup.c: setup and restoration (Realtime/Setup), the check with
--                   its report (Realtime/Check), and the measurement of latency (Realtime/Latency).
-- Config            src/config/app_config.c: defaults and keys (Config), the load (Config/Load), the save
--                   (Config/Save), and the validation (Config/Validate).
-- Main              src/main.c: the production loop (Main), the start and the end of the program
--                   around it (Main/Startup), main as a whole with its options (Main/Program), and the
--                   banner and the usage text (Main/Terminal).
-- Tests             concrete runs.
--
-- State is passed explicitly. A C struct is a record with the struct's fields, and a C function is a
-- function of the same name from the values behind its pointers to its result and the values that it
-- leaves there; a pointer that may be NULL is an Option, none for NULL. A negative result is negsuc, so
-- that negsuc 0 is -1. The loop of main is a function of the list of clock values that its iterations
-- read: a list of any length stands for a signal that comes after so many iterations.
--
-- What is not in the repository is a parameter: the p-net stack (Stack), socket, ioctl and close
-- (Kernel), the scheduler, memory and file calls of the real-time setup (Os), the clock (Clock) and the
-- arithmetic of double (Doubles), system, fopen's view of the disk, the calls on the files of a tunnel
-- (Files), getopt's and getifaddrs' results, inet_pton and inet_ntop (Inet). What a theorem asks of them
-- is a record of laws: CountsSockets and HasSettings for Kernel, HasScheduling for Os, HasOrder for
-- Doubles, HasFiles for Files, the laws in Inet, and RespectsBuffer for the stack. Tests has an instance
-- of each. Files may cut a write short and refuse a chmod, a kernel may choose a netmask when it is given
-- an address, and it may refuse what is written to /proc/sys.
--
-- Bounds. Machine words wrap where the code lets them: uint16_t and uint32_t keys of the configuration,
-- the 64-bit cycle and error counters, size_t offsets (a write outside a buffer is recorded as an
-- overrun), useconds_t. The two int counters of the loop are natural numbers: 2 ^ 31 failures in a row
-- would be needed to run over one. Loops are recursion on the number of rounds left or on the list that
-- they read; print_base, which writes the digits of n, has n + 1 rounds, more than n has digits. fgets
-- reads at most 511 bytes at a time, for the buffer of 512. The loop over /proc/self/status has as many
-- rounds as the file has bytes and one more, which is enough.
--
-- Not modelled: what is only printed, but for the banner, the usage text, io_device_show, pnet_show and the
-- lines of the real stack's callbacks; the branches that only report that a platform has no support; and
-- writes that come up short when the configuration is saved.
pub mod Prelude
pub mod Text
pub mod Address
pub mod Security
pub mod Pnet
pub mod Device
pub mod Net
pub mod Realtime
pub mod Config
pub mod Main
pub mod Tests
