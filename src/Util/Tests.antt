-- ===== src/Util/Tests.antt =====
-- A node id that is printed and read again, also as a part of a host name.
use dvpn.Base.{[], ◌∷◌, ◌++◌, some, true, ◌≡◌, refl}
use dvpn.Bytes.{Bytes}
use dvpn.Util.Fingerprint.{
  prefix, parse_base32_fingerprint, parse_hostname_fingerprint, print_fingerprint,
}

abbrev sample : Bytes
sample =
    255 ∷ 1 ∷ 130 ∷ 77 ∷ 200 ∷ 0 ∷ 9 ∷ 64 ∷ 31 ∷ 180 ∷ 2 ∷ 3 ∷ 5 ∷ 7 ∷ 11 ∷ 13 ∷ 17 ∷ 19 ∷ 23 ∷ 29
    ∷ 37 ∷ 41 ∷ 43 ∷ 47 ∷ 53 ∷ 59 ∷ 61 ∷ 67 ∷ 71 ∷ 73 ∷ 79 ∷ 255 ∷ []

sample_again : parse_base32_fingerprint (print_fingerprint sample) ≡ (sample, true)
unfolding parse_base32_fingerprint print_fingerprint
sample_again = refl

hostname_again :
    parse_hostname_fingerprint (119 ∷ 46 ∷ prefix ++ print_fingerprint sample ++ 46 ∷ 120 ∷ [])
    ≡ some sample
unfolding parse_hostname_fingerprint print_fingerprint
hostname_again = refl
