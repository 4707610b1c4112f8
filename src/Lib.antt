-- ===== src/Lib.antt =====
-- The CUPS connector makes the printers of a CUPS server known to Google Cloud Print (GCP) and to the
-- local network (Privet), and prints the jobs that arrive. This library models the parts that decide:
-- how two lists of printers are brought into line, how a print job passes through the manager, how
-- SNMP variables are looked up and read, how the attributes of CUPS become a description for the cloud
-- and a ticket of the cloud the options of a CUPS job, and how local jobs and their tokens are kept.
--
-- Prelude: Boolean tests, lists and integers over the native numbers, Go's strings as lists of bytes
--   (Prelude/Text), Go's maps as association lists (Prelude/GoMap), the package strconv
--   (Prelude/Strconv), a result that may be a panic (Prelude/Answer), the bits of a word
--   (Prelude/Bits), and what a change of order keeps (Prelude/Reordered).
-- Cdd: the types of cdd/cdd.go, cds.go, cjs.go and cjt.go, in one child for each part. A pointer is an
--   Option, a type of named strings the enumeration of its constants with `unlisted` for any other
--   string. Cdd/Absorb is `PrinterDescriptionSection.Absorb`.
-- Printer: lib/printer.go. `diff_printer` is `diffPrinter`, `diff_printers` (Printer/Sync) is
--   `DiffPrinters` with its two loops, `filter_raw_printers` (Printer/Raw) is `FilterRawPrinters`. The
--   nil slice is `some none`, and the panic on a downgrade of the GCP version is `none`. Applying a
--   diff (`outcome` of Printer/Kept) deletes, keeps or registers its printer; what a registration does
--   is an argument.
-- PrinterMap: lib/concprintermap.go. Its mutex makes each operation one step.
-- Semaphore: lib/semaphore.go. A buffered channel is its length and capacity, a blocked sender gets
--   `none`. Semaphore/Fleet runs goroutines on it in any interleaving.
-- Manager: manager/printermanager.go, its counters and the set of jobs in flight. Manager/Poll is the
--   polling loop of `printJob` with `convertJobState` of cups/cups.go; what CUPS answers at each tick
--   is a list, and a run whose list ends is waiting. Manager/Print is `printJob` whole; CUPS is an
--   argument, and the semaphores stand in a heap, by address. Manager/Print follows one call; other
--   goroutines do not move meanwhile. Manager/Apply is `applyDiff` and `syncPrinters`: what the
--   services answer is an argument, and the printers arrive in any order.
-- Oid: snmp/oid/oid.go. `sort.Search` is its bisection on fuel; the number of variables is enough,
--   since every round makes the interval smaller.
-- PrinterMib: snmp/oid/printmib.go, the covers, input trays, output bins and marker supplies that it
--   reads from a variable set. A state record of one slice is that list. The identifiers are slices
--   of arrays that `append` may share (Identifiers): what they hold is an argument of the methods, and
--   the growth of an array, the choice of the Go runtime, an argument of `init_oids`.
-- Markers: the color read from the name of a marker, code that snmp/oid/printmib.go and
--   cups/translate-attrs.go share word for word. A `range` over a map is a list in any order.
-- Attributes: cups/translate-attrs.go, with its attribute names of cups/cups.go. `translate_attrs`
--   (Attributes/Translate) is `translateAttrs`; its parts are `getUUID`, `getState` and
--   `getVendorState` (State), `getAdobeVersionRange` and `convertSupportedContentType` (Content),
--   `convertMarkers` and `fixMarkers` (Markers), and the other conversions (Options). Required is what
--   `checkPrinterAttributes` of cups/cups.go asks for, and the end of its `attributesToTags`.
-- Ticket: cups/translate-ticket.go. `translate_ticket` is `translateTicket`; its regular expressions
--   are functions by clauses, and Ticket/Points rounds as `float32` does, doubling on fuel: 64 is
--   enough for an int32, and `round_small_enough` and `round_large_enough` say when more fuel changes
--   nothing.
-- Ppd: cups/translate-ppd.go, from the statements of a file on: `groupStatements` (Ppd),
--   `filterConstraints` (Constraints), `openUIStatementsToEntries` (Entries), and what becomes of an
--   entry: `convertColorPPD` (Colors), `convertDuplex` and `convertKMDuplex` (Duplexing), `convertDPI`
--   (Resolution), `convertVendorCapability` and `convertRicohLockedPrintPassword` (Vendor). Ppd/Default
--   is how a default is found. The CDD options that Ppd writes are the ones that Ticket reads.
-- Log: log/log.go, the reading of a level and what is written for a message, its time an argument.
-- LogRoller: log/logroller.go. A directory is a map from paths to contents, and `roll` is the loop over
--   the numbers from the last index down. The system may refuse to change a path.
-- Privet/Xsrf: privet/xsrf.go. A moment is in nanoseconds; SHA-1 and base64 are arguments.
-- JobCache: privet/jobcache.go. Times are nanoseconds, and the JSON encoder is an argument.
-- Tests: runs at concrete inputs.
--
-- Not modelled: the clients of GCP and XMPP, the Privet server and its discovery, the bindings of CUPS
-- and net-snmp, and configuration, which are input and output or calls of other libraries;
-- the notification loop; the difference of a nil slice and an empty one where `reflect.DeepEqual` sees
-- it, and that of two floats with equal values and different bits; of PPD files, the parser of a line, model names, media sizes, margins and
-- speed, and the cache of files.
pub mod Prelude
pub mod Oid
pub mod Cdd
pub mod Semaphore
pub mod PrinterMap
pub mod PrinterMib
pub mod JobCache
pub mod Manager
pub mod Printer
pub mod Markers
pub mod Attributes
pub mod Privet
pub mod Ticket
pub mod Ppd
pub mod Log
pub mod LogRoller
pub mod Tests
