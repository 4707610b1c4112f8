-- ===== src/Tests/Privet.antt =====
-- Runs of the tokens against cross-site request forgery. The sum and the coding are stand-ins: a
-- repeated checksum, and the bytes themselves.
use cc_deb_pkg.Prelude.{
  ℕ, ◌+◌, ◌%◌, ◌≡◌, ◌↔◌, refl, true, Option, some, [], ◌∷◌, length, replicate, GoString, bytes,
  arith, pos, negsuc,
}
use cc_deb_pkg.Privet.Xsrf.{
  Moment, byte_loop, bytes_to_int64, int64_to_bytes, is_token_valid, new_token, sum_size, unix,
}
use cc_deb_pkg.Privet.Xsrf.Validity.{
  IsFresh, IsSigned, is_token_valid-IsSigned, is_token_valid-new_token,
}
use cc_deb_pkg.Privet.Xsrf.Words.{IsInt64, bytes_to_int64-int64_to_bytes}

abbrev total : GoString → ℕ
total [] = 0
total (c ∷ s) = c + total s

checksum : GoString → GoString
checksum s = replicate sum_size (total s % 256)

length-checksum : (s : GoString) → length (checksum s) ≡ sum_size
unfolding checksum
length-checksum s = refl

abbrev same : GoString → GoString
same s = s

abbrev read : GoString → Option GoString
read s = some s

before_1970 : IsInt64 (negsuc 299)
before_1970 = record { above = omega arith; below = omega arith }

bytes_to_int64-int64_to_bytes_example : bytes_to_int64 (int64_to_bytes (negsuc 299)) ≡ negsuc 299
bytes_to_int64-int64_to_bytes_example = bytes_to_int64-int64_to_bytes (negsuc 299) before_1970

negative_bytes : int64_to_bytes (negsuc 299) ≡ 212 ∷ 254 ∷ replicate 6 255
unfolding int64_to_bytes byte_loop
negative_bytes = refl

abbrev secret : GoString
secret = bytes "a device's secret"

abbrev issued : Moment
issued = pos 1_445_000_000_500_000_000

abbrev used : Moment
used = pos 1_445_050_000_000_000_000

issued-IsInt64 : IsInt64 (unix issued)
issued-IsInt64 = record { above = omega arith; below = omega arith }

is_token_valid-new_token_example :
    (is_token_valid checksum same read secret (new_token checksum same read secret issued) used
      ≡ true)
    ↔ IsFresh issued used
is_token_valid-new_token_example =
    is_token_valid-new_token checksum same read (λ s. refl) length-checksum secret issued used
      issued-IsInt64

accepted :
    is_token_valid checksum same read secret (new_token checksum same read secret issued) used
    ≡ true
accepted =
    is_token_valid-new_token_example.1 (record { begun = omega arith; unexpired = omega arith })

is_token_valid-IsSigned_example :
    IsSigned checksum same read secret (new_token checksum same read secret issued) used
is_token_valid-IsSigned_example =
    is_token_valid-IsSigned checksum same read secret (new_token checksum same read secret issued)
      used accepted
