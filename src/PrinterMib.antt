-- ===== src/PrinterMib.antt =====
-- What the printer MIB says of a printer: `GetSerialNumber`, `GetCovers`, `GetInputTrays`,
-- `GetOutputBins` and `GetMarkers` of `snmp/oid/printmib.go`. A method answers with a value, with
-- `false` or an error of a parse (`unavailable`), or panics. Children: the identifiers (`Identifiers`,
-- `Shared`), the tables (`Tables`), the parts that trays and bins share (`SubUnit`), the four methods,
-- and what pairs their results (`Paired`).
pub mod Identifiers
pub mod Shared
pub mod Tables
pub mod SubUnit
pub mod Covers
pub mod Trays
pub mod Bins
pub mod Paired
pub mod Markers
