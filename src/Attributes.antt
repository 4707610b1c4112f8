-- ===== src/Attributes.antt =====
-- What CUPS says of a printer, as a map from attribute names to values, translated to a description
-- and a state: `cups/translate-attrs.go`. A missing key of the map reads as the empty list. An index
-- out of range panics. Text is ASCII where letters are compared without their case, and where a
-- version is scanned up to a space.
pub mod Names
pub mod Tables
pub mod State
pub mod Content
pub mod Markers
pub mod Options
pub mod Required
pub mod Translate
