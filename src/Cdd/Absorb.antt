-- ===== src/Cdd/Absorb.antt =====
-- `PrinterDescriptionSection.Absorb` of `cdd/cdd.go`.
use cc_deb_pkg.Prelude.{
  ℕ, suc, ◌+◌, ltb, if◌then◌else◌, ◌≡◌, refl, ap, ◌∙◌, Bool, true, false, not, ◌||◌, Option, none,
  some, List, [], ◌∷◌, ◌++◌, keep_if, GoString, str_eq, str_eq_refl, str_eq_iff, arith,
}
use mathlib.Core.List.{append-nil}
use cc_deb_pkg.Cdd.Capabilities.{VendorCapability}
use cc_deb_pkg.Cdd.Description.{PrinterDescriptionSection}

-- `if b.F != nil { a.F = b.F }`
unfoldable pub or_else {ℓ} : {A : Type ℓ} → Option A → Option A → Option A
or_else a none = a
or_else a (some b) = some b

-- Whether the key set `aKeys` of the capabilities holds an ID.
unfoldable pub has_id : List VendorCapability → GoString → Bool
has_id [] id = false
has_id (v ∷ vs) id = str_eq v.id id || has_id vs id

-- The capabilities of `b` that `a` does not have go behind those of `a`.
unfoldable pub absorb_capabilities :
    Option (List VendorCapability) → Option (List VendorCapability) → Option (List VendorCapability)
unfolding has_id
absorb_capabilities a none = a
absorb_capabilities none (some bs) = some bs
absorb_capabilities (some []) (some bs) = some bs
absorb_capabilities (some (v ∷ vs)) (some bs) =
    some ((v ∷ vs) ++ keep_if (λ w. not (has_id (v ∷ vs) w.id)) bs)

unfoldable pub absorb :
    PrinterDescriptionSection → PrinterDescriptionSection → PrinterDescriptionSection
unfolding or_else absorb_capabilities
absorb a b = record {
  supported_content_type = or_else a.supported_content_type b.supported_content_type;
  printing_speed = or_else a.printing_speed b.printing_speed;
  pwg_raster_config = or_else a.pwg_raster_config b.pwg_raster_config;
  input_tray_unit = or_else a.input_tray_unit b.input_tray_unit;
  output_bin_unit = or_else a.output_bin_unit b.output_bin_unit;
  marker = or_else a.marker b.marker;
  cover = or_else a.cover b.cover;
  media_path = or_else a.media_path b.media_path;
  vendor_capability = absorb_capabilities a.vendor_capability b.vendor_capability;
  color = or_else a.color b.color;
  duplex = or_else a.duplex b.duplex;
  page_orientation = or_else a.page_orientation b.page_orientation;
  copies = or_else a.copies b.copies;
  margins = or_else a.margins b.margins;
  dpi = or_else a.dpi b.dpi;
  fit_to_page = or_else a.fit_to_page b.fit_to_page;
  page_range = or_else a.page_range b.page_range;
  media_size = or_else a.media_size b.media_size;
  collate = or_else a.collate b.collate;
  reverse_order = or_else a.reverse_order b.reverse_order;
}

or_else_idem {ℓ} : {A : Type ℓ} (a b : Option A) → or_else (or_else a b) b ≡ or_else a b
unfolding or_else
or_else_idem a none = refl
or_else_idem a (some b) = refl

has_id-append :
    (olds bs : List VendorCapability) (id : GoString)
    → has_id (olds ++ bs) id ≡ (has_id olds id || has_id bs id)
unfolding has_id
has_id-append [] bs id = refl
has_id-append (v ∷ olds) bs id = ground (arith, has_id-append olds bs id)

-- Every ID of `bs` is among `cs`.
abbrev Covers : List VendorCapability → List VendorCapability → Type 0
Covers cs [] = Unit
Covers cs (v ∷ bs) = (has_id cs v.id ≡ true) × Covers cs bs

keep_if-covered :
    (cs bs : List VendorCapability) → Covers cs bs → keep_if (λ w. not (has_id cs w.id)) bs ≡ []
unfolding keep_if
keep_if-covered cs [] h = refl
keep_if-covered cs (v ∷ bs) h = ground (arith, keep_if-covered cs bs)

Covers-intro :
    (cs bs : List VendorCapability)
    → ((id : GoString) → has_id bs id ≡ true → has_id cs id ≡ true)
    → Covers cs bs
unfolding has_id
Covers-intro cs [] h = tt
Covers-intro cs (v ∷ bs) h =
    (h v.id (ground (arith, str_eq_refl v.id)), Covers-intro cs bs (λ id e. h id (ground arith)))

-- An ID of `bs` is among `olds`, or among what is added.
has_id-added :
    (olds bs : List VendorCapability) (id : GoString)
    → has_id bs id ≡ true
    → (has_id olds id || has_id (keep_if (λ w. not (has_id olds w.id)) bs) id) ≡ true
unfolding has_id keep_if
has_id-added olds [] id h = cc
has_id-added olds (v ∷ bs) id h = ground (arith, str_eq_iff v.id id, has_id-added olds bs id)

absorb_capabilities_twice :
    (olds bs : List VendorCapability)
    → (let all = olds ++ keep_if (λ w. not (has_id olds w.id)) bs in
        keep_if (λ w. not (has_id all w.id)) bs ≡ [])
absorb_capabilities_twice olds bs = keep_if-covered (olds ++ added) bs (
    Covers-intro (olds ++ added) bs
      (λ id e. has_id-append olds added id ∙ has_id-added olds bs id e))
  where
    added : List VendorCapability
    added = keep_if (λ w. not (has_id olds w.id)) bs

append-added_self : (bs : List VendorCapability) → bs ++ keep_if (λ w. not (has_id bs w.id)) bs ≡ bs
append-added_self bs = rw (keep_if-covered bs bs (Covers-intro bs bs (λ id e. e))) (append-nil bs)

absorb_capabilities_idem :
    (a b : Option (List VendorCapability))
    → absorb_capabilities (absorb_capabilities a b) b ≡ absorb_capabilities a b
unfolding absorb_capabilities
absorb_capabilities_idem a none = refl
absorb_capabilities_idem none (some []) = refl
absorb_capabilities_idem none (some (w ∷ bs)) = ap some (append-added_self (w ∷ bs))
absorb_capabilities_idem (some []) (some []) = refl
absorb_capabilities_idem (some []) (some (w ∷ bs)) = ap some (append-added_self (w ∷ bs))
absorb_capabilities_idem (some (v ∷ vs)) (some bs) =
    rw (absorb_capabilities_twice (v ∷ vs) bs) (ap some (append-nil _))

-- Absorbing the same description a second time changes nothing.
pub absorb_idem : (a b : PrinterDescriptionSection) → absorb (absorb a b) b ≡ absorb a b
unfolding absorb
absorb_idem a b = λ i. record {
  supported_content_type = or_else_idem a.supported_content_type b.supported_content_type i;
  printing_speed = or_else_idem a.printing_speed b.printing_speed i;
  pwg_raster_config = or_else_idem a.pwg_raster_config b.pwg_raster_config i;
  input_tray_unit = or_else_idem a.input_tray_unit b.input_tray_unit i;
  output_bin_unit = or_else_idem a.output_bin_unit b.output_bin_unit i;
  marker = or_else_idem a.marker b.marker i;
  cover = or_else_idem a.cover b.cover i;
  media_path = or_else_idem a.media_path b.media_path i;
  vendor_capability = absorb_capabilities_idem a.vendor_capability b.vendor_capability i;
  color = or_else_idem a.color b.color i;
  duplex = or_else_idem a.duplex b.duplex i;
  page_orientation = or_else_idem a.page_orientation b.page_orientation i;
  copies = or_else_idem a.copies b.copies i;
  margins = or_else_idem a.margins b.margins i;
  dpi = or_else_idem a.dpi b.dpi i;
  fit_to_page = or_else_idem a.fit_to_page b.fit_to_page i;
  page_range = or_else_idem a.page_range b.page_range i;
  media_size = or_else_idem a.media_size b.media_size i;
  collate = or_else_idem a.collate b.collate i;
  reverse_order = or_else_idem a.reverse_order b.reverse_order i;
}

-- How many capabilities have an ID.
abbrev pub count_id : GoString → List VendorCapability → ℕ
count_id id [] = 0
count_id id (v ∷ vs) = let rest = count_id id vs in if str_eq v.id id then suc rest else rest

count_id-append :
    (id : GoString) (olds bs : List VendorCapability)
    → count_id id (olds ++ bs) ≡ count_id id olds + count_id id bs
count_id-append id [] bs = omega arith
count_id-append id (v ∷ olds) bs = ground (arith, count_id-append id olds bs)

has_id-count :
    (olds : List VendorCapability) (id : GoString) → has_id olds id ≡ ltb 0 (count_id id olds)
unfolding has_id
has_id-count [] id = refl
has_id-count (v ∷ olds) id = ground (arith, has_id-count olds id)

count_id-added :
    (olds bs : List VendorCapability) (id : GoString)
    → count_id id (keep_if (λ w. not (has_id olds w.id)) bs)
      ≡ (if has_id olds id then 0 else count_id id bs)
unfolding keep_if
count_id-added olds [] id = ground arith
count_id-added olds (v ∷ bs) id = ground (arith, str_eq_iff v.id id, count_id-added olds bs id)

count_id-all :
    (olds bs : List VendorCapability) (id : GoString)
    → count_id id (olds ++ keep_if (λ w. not (has_id olds w.id)) bs)
      ≡ (if ltb 0 (count_id id olds) then count_id id olds else count_id id bs)
count_id-all olds bs id =
    count_id-append id olds _ ∙ ground (arith, count_id-added olds bs id, has_id-count olds id)

-- Two descriptions with vendor capabilities: the result begins with those of the first, unchanged,
-- and has each ID as often as the first has it or, where the first has it not, as often as the second.
pub absorb-vendor_capability :
    (a b : PrinterDescriptionSection) (olds bs : List VendorCapability)
    → a.vendor_capability ≡ some olds
    → b.vendor_capability ≡ some bs
    → (added : List VendorCapability) × ((absorb a b).vendor_capability ≡ some (olds ++ added))
      × ((id : GoString)
          → count_id id (olds ++ added)
            ≡ (if ltb 0 (count_id id olds) then count_id id olds else count_id id bs))
unfolding absorb
absorb-vendor_capability a b [] bs ea eb = (bs, rw (ea, eb), λ id. refl)
absorb-vendor_capability a b (v ∷ vs) bs ea eb =
    (keep_if (λ w. not (has_id (v ∷ vs) w.id)) bs, rw (ea, eb), λ id. count_id-all (v ∷ vs) bs id)
