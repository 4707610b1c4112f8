-- ===== src/Cdd.antt =====
-- The Cloud Device Description: the types of `cdd/`, field by field. A pointer is an `Option`, an
-- `int32` or `int64` is an integer, and so is the `float32` of `SpeedPPM`, which the code sets from
-- an integer. A `MediaSizeName` is its string.
pub mod Localized
pub mod Job
pub mod Ticket
pub mod State
pub mod Units
pub mod Capabilities
pub mod Description
pub mod Equality
pub mod Absorb
