-- ===== src/Lib.antt =====
-- R2000: the driver library for Pepperl+Fuchs R2000 laser scanners, in C++.
--
-- The program's parts and the modules that model them (paths are those of the repository):
--   Wire     the little-endian readers and Header::fromByteRange (include/DataLink/Data.hpp)
--   Packet   the search for a packet and the payload readers (include/DataLink/DataLink.hpp)
--   Scan     Scan, ScanFactory and its two implementations (include/DataLink/Data.hpp, DataLink.hpp,
--            TCPLink.hpp and UDPLink.hpp)
--   Extract  extractScanPacketFromByteRange, and the loop around it that both links write
--   Link     DataLink: publication of scans, waiting for one, watchdog and stall monitoring
--            (include/DataLink/DataLink.hpp, src/DataLink/DataLink.cpp); Link.Threads lets its threads
--            and its destructor take steps in any order
--   Tcp, Udp TCPLink and UDPLink: buffers and the handlers of received bytes. Tcp.Connection is the
--            resolution, the connection and the reads of a TCPLink as operations that complete, beside
--            the threads of its DataLink. Tcp.Parts, Tcp.WholeScan, Udp.Parts, Udp.Datagrams and
--            Udp.WholeScan follow the packets of a scan from the bytes to its publication
--   Device   R2000: results, request lines, HttpGet, asynchronous requests, and the Worker
--            (include/R2000.hpp, src/R2000.cpp, include/Worker.hpp). Device.Async knows of asynchronous
--            requests only that they complete; Device.Service has below it the deadlines, the shared
--            socket, cancellation, the thread of the io service and the destructor, and Device.Pipeline
--            puts the worker in front of the service
--   Status   DeviceStatus and StatusWatcher (include/StatusWatcher.hpp, src/StatusWatcher.cpp);
--            Status.Watcher.Clients lets its task, its clients and its destructor take turns, and
--            Status.Obtained follows a round from its request to the getters of the new status
--   Commands the command executors (include/Control/Commands.hpp) and DeviceHandle
--   Parameters the builders of parameter lists, parameter maps and handles
--            (include/Control/Parameters.hpp): the calls of a section are a data type
--   Builder  DataLinkBuilder (include/DataLink/DataLinkBuilder.hpp, src/DataLink/DataLinkBuilder.cpp)
--   Base     what they share; Tests holds the witnesses, at concrete inputs.
-- A link receives bytes, appends them to its extraction buffer, and extracts packets from it into its
-- factory; a complete factory is published as a scan to the waiting callers and to the callbacks. The
-- device is asked over HTTP: commands go through the worker to the asynchronous requests, the builder
-- asks for a handle and makes a link of it, and the watcher asks for the status round by round.
--
-- Bytes, characters and unsigned integers are native numbers, with the wrap-around of each operation
-- written out where it can occur. An iterator is a position in a buffer. A call returns, reads out of
-- range (fault) or throws (Outcome). Callbacks are numbers, and logs record their invocations. The
-- loop of a link has no bound in the source: it runs on fuel here, and a theorem shows that one more
-- round than there are bytes is enough where headers announce a size, another that no fuel is enough
-- for a certain packet. The lines of a reply are read on the reply's own length as fuel, since a line
-- takes one byte at least, and a number is printed on its successor as fuel.
--
-- What boost does is a parameter: what the socket transfers (Device.Http.Exchange), the order and
-- the errors in which the resolver and the socket complete (Device.Async.Event), property trees
-- (PropertyTrees, TreeReads, ThrowingReads) and addresses. The clock is a function. Not modelled:
-- locks and memory orders (each operation is one step, but for the registration that
-- Status.Watcher.Clients splits at its lock), printing, the waits between retries, the timestamp of a
-- status, the examples, and the variants of commands that no program can instantiate.
pub mod Base
pub mod Wire
pub mod Packet
pub mod Scan
pub mod Extract
pub mod Link
pub mod Tcp
pub mod Udp
pub mod Device
pub mod Status
pub mod Commands
pub mod Parameters
pub mod Builder
pub mod Tests
