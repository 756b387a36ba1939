-- ===== src/Policy/Samples.antt =====
-- Tests of the codec of policies.
use workingman.Prelude.{◌≡◌, refl, codes, str_eq}
use workingman.Policy.{Rule, validate, encode, decode, ok}
use workingman.Policy.Codec.{decode-encode, decode-eq-ok}

abbrev open_port : Rule
open_port = record {
  action = codes "allow";
  kind = codes "network";
  resource = codes "github.com:443";
}

open_port-valid : validate open_port ≡ ok tt
unfolding validate str_eq
open_port-valid = refl

decode-encode_example : decode (encode open_port) ≡ ok open_port
decode-encode_example = decode-encode open_port open_port-valid

decoded : decode (codes "allow:network:github.com:443") ≡ ok open_port
unfolding decode str_eq
decoded = refl

decode-eq-ok_example :
    (validate open_port ≡ ok tt) × (encode open_port ≡ codes "allow:network:github.com:443")
decode-eq-ok_example = decode-eq-ok (codes "allow:network:github.com:443") open_port decoded
