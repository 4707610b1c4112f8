-- ===== src/Printer/Raw.antt =====
-- `GetHostname`, `PrinterIsRaw` and `FilterRawPrinters` of `lib/printer.go`. The pattern
-- `rDeviceURIHostname` ignores case; it is matched over ASCII.
use cc_deb_pkg.Prelude.{
  ℕ, ◌≡◌, refl, ap, ◌∙◌, Bool, true, false, not, ◌||◌, ◌&&◌, Option, none, some, List, [], ◌∷◌,
  ◌++◌, keep_if, drop, length, map, GoString, bytes, str_eq, starts_with, lower, leb, ◌==◌,
  if◌then◌else◌, Bool-cases, inl, inr,
}
use mathlib.Core.List.{append-nil, append_assoc}
use cc_deb_pkg.Prelude.GoMap.{lookup}
use cc_deb_pkg.Printer.{Printer}

is_letter : ℕ → Bool
is_letter c = leb b'a' c && leb c b'z'

-- `[a-z0-9.-]`
is_host_byte : ℕ → Bool
unfolding is_letter
is_host_byte c = is_letter c || (leb b'0' c && leb c b'9') || c == b'.' || c == b'-'

-- The longest front part whose bytes pass, ignoring case.
host_bytes : GoString → GoString
host_bytes [] = []
host_bytes (c ∷ s) = let rest = host_bytes s in if is_host_byte (lower c) then c ∷ rest else []

-- `([a-z][a-z0-9.-]*)`
host_part : GoString → Option GoString
unfolding host_bytes lower is_host_byte
host_part [] = none
host_part (c ∷ s) = if is_letter (lower c) then some (c ∷ host_bytes s) else none

schemes : List GoString
schemes =
    bytes "socket://"
    ∷ bytes "http://"
    ∷ bytes "https://"
    ∷ bytes "ipp://"
    ∷ bytes "ipps://"
    ∷ bytes "lpd://"
    ∷ []

-- The part behind the first scheme that the text begins with.
behind_scheme : List GoString → GoString → Option GoString
unfolding host_part
behind_scheme [] uri = none
behind_scheme (s ∷ ss) uri =
    let rest = behind_scheme ss uri in
    if starts_with (map lower uri) s then host_part (drop (length s) uri) else rest

unfoldable pub device_uri_hostname : GoString → Option GoString
unfolding behind_scheme schemes
device_uri_hostname uri = behind_scheme schemes uri

unfoldable pub get_hostname : Printer → Option GoString
unfolding device_uri_hostname
get_hostname p = elim (lookup (bytes "device-uri") p.tags) [
  | some uri ↦ device_uri_hostname uri
  | none ↦ none
]

-- A missing tag reads as the empty string.
unfoldable pub printer_is_raw : Printer → Bool
printer_is_raw p = elim (lookup (bytes "printer-make-and-model") p.tags) [
  | some model ↦ str_eq model (bytes "Local Raw Printer")
  | none ↦ false
]

-- The loop of `FilterRawPrinters`: those that are not raw, and those that are.
raw_loop : List Printer → List Printer → List Printer → List Printer × List Printer
raw_loop not_raw raw [] = (not_raw, raw)
raw_loop not_raw raw (p ∷ ps) = elim (printer_is_raw p) [
  | true ↦ raw_loop not_raw (raw ++ p ∷ []) ps
  | false ↦ raw_loop (not_raw ++ p ∷ []) raw ps
]

unfoldable pub filter_raw_printers : List Printer → List Printer × List Printer
unfolding raw_loop
filter_raw_printers printers = raw_loop [] [] printers

raw_loop-keep_if :
    (not_raw raw ps : List Printer)
    → raw_loop not_raw raw ps
      ≡ (not_raw ++ keep_if (λ p. not (printer_is_raw p)) ps, raw ++ keep_if printer_is_raw ps)
unfolding raw_loop keep_if
raw_loop-keep_if not_raw raw [] = rw (append-nil, append-nil) refl
raw_loop-keep_if not_raw raw (p ∷ ps) = elim (Bool-cases (printer_is_raw p)) [
  | inl is_raw ↦
      rw (is_raw, raw_loop)
        (raw_loop-keep_if not_raw (raw ++ p ∷ []) ps
          ∙ ap (λ r. (not_raw ++ keep_if (λ p. not (printer_is_raw p)) ps, r))
              (append_assoc raw (p ∷ []) (keep_if printer_is_raw ps)))
  | inr other ↦
      rw (other, raw_loop)
        (raw_loop-keep_if (not_raw ++ p ∷ []) raw ps
          ∙ ap (λ l. (l, raw ++ keep_if printer_is_raw ps))
              (append_assoc not_raw (p ∷ []) (keep_if (λ p. not (printer_is_raw p)) ps)))
]

-- `FilterRawPrinters` returns the printers that are not raw and those that are, each in order.
pub filter_raw_printers-keep_if :
    (ps : List Printer)
    → filter_raw_printers ps ≡ (keep_if (λ p. not (printer_is_raw p)) ps, keep_if printer_is_raw ps)
unfolding filter_raw_printers
filter_raw_printers-keep_if ps = raw_loop-keep_if [] [] ps
