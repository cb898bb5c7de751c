-- ===== src/NmeaDnsSd/Records.antt =====
-- TXT records as RFC 6763 has them: strings of at most 255 bytes, each behind a byte with its length.
use esp_nmea_bridge_zephyr.Base.{
  ℕ, zero, suc, ◌≤◌, ◌≡◌, refl, ap, sym, ◌∙◌, Option, none, some, List, [], ◌∷◌, ◌++◌, append_assoc,
  append-nil, arith, length, All,
}
use esp_nmea_bridge_zephyr.Config.{Config}
use esp_nmea_bridge_zephyr.Text.{Bytes, bytes}
use esp_nmea_bridge_zephyr.NmeaDnsSd.{Advertising, Service, nmea0183, http, services}

abbrev pub encode : List Bytes → Bytes
encode [] = []
encode (s ∷ ss) = length s ∷ s ++ encode ss

abbrev pub and_before : Bytes → Option (List Bytes) → Option (List Bytes)
and_before s none = none
and_before s (some ss) = some (s ∷ ss)

-- A reader that has so many bytes of the string `s` still to read.
unfoldable pub read_on : ℕ → Bytes → Bytes → Option (List Bytes)
read_on zero s [] = some (s ∷ [])
read_on zero s (n ∷ bs) = and_before s (read_on n [] bs)
read_on (suc k) s [] = none
read_on (suc k) s (b ∷ bs) = read_on k (s ++ b ∷ []) bs

-- A record has one string at least.
unfoldable pub read_txt : Bytes → Option (List Bytes)
unfolding read_on
read_txt [] = none
read_txt (n ∷ bs) = read_on n [] bs

read_on-append : (t s rest : Bytes) → read_on (length t) s (t ++ rest) ≡ read_on 0 (s ++ t) rest
unfolding read_on
read_on-append [] s rest = ap (λ x. read_on 0 x rest) (sym (append-nil s))
read_on-append (b ∷ t) s rest =
    read_on-append t (s ++ b ∷ []) rest ∙ ap (λ x. read_on 0 x rest) (append_assoc s (b ∷ []) t)

read_on-encode : (ss : List Bytes) (s : Bytes) → read_on 0 s (encode ss) ≡ some (s ∷ ss)
unfolding read_on
read_on-encode [] s = refl
read_on-encode (t ∷ ss) s =
    ap (and_before s) (read_on-append t [] (encode ss) ∙ read_on-encode ss t)

-- The strings of a record are read back from it.
pub read_txt-encode : (s : Bytes) (ss : List Bytes) → read_txt (encode (s ∷ ss)) ≡ some (s ∷ ss)
unfolding read_txt
read_txt-encode s ss = read_on-append s [] (encode ss) ∙ read_on-encode ss s

-- The record of a service is one of strings of at most 255 bytes, the first of which is the version.
pub record Described (s : Service) : Type 0 where
  pub rest : List Bytes
  pub reads : read_txt s.txt ≡ some (bytes "txtvers=1" ∷ rest)
  pub short : All (λ t. length t ≤ 255) rest

nmea0183-Described : (a : Advertising) → Described (nmea0183 a)
nmea0183-Described a = record {
  rest =
      bytes "talkers=GP,AI"
      ∷ bytes "content=gps,ais-rx"
      ∷ bytes "source=maiana"
      ∷ bytes "ro=1"
      ∷ [];
  reads = read_txt-encode (bytes "txtvers=1") _;
  short = omega arith;
}

http-Described : (a : Advertising) → Described (http a)
http-Described a = record {
  rest = bytes "path=/" ∷ [];
  reads = read_txt-encode (bytes "txtvers=1") _;
  short = omega arith;
}

-- Every service that is advertised has such a record.
pub services-Described : (cfg : Config) (a : Advertising) → All Described (services cfg a)
services-Described cfg a = ground (arith, nmea0183-Described a, http-Described a)
