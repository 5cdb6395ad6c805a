-- ===== src/Tests/Ids.antt =====
-- Ids of internal/audit/ulid.go.
use keleustes.Base.{◌<◌, ◌^◌, ◌≡◌, refl, true, none, str, ◌<?◌, arith}
use keleustes.Audit.Ulid.{IsBytes, zero_entropy, encode_ulid, new_event_id, valid_ulid}
use keleustes.Audit.Ulid.Order.{encode_ulid-lt}
use keleustes.Audit.Ulid.Decode.{decode_ulid, entropy_number, decode_ulid-encode_ulid}
use keleustes.Audit.Ulid.Shape.{valid_ulid-new_event_id}

zero_IsBytes : IsBytes zero_entropy
zero_IsBytes = record {
  l0 = omega arith;
  l1 = omega arith;
  l2 = omega arith;
  l3 = omega arith;
  l4 = omega arith;
  l5 = omega arith;
  l6 = omega arith;
  l7 = omega arith;
  l8 = omega arith;
  l9 = omega arith;
}

before_later : 1700000000000 < 1700000000001
before_later = omega arith

in_range : 1700000000000 < 2 ^ 48
in_range = omega arith

later_in_range : 1700000000001 < 2 ^ 48
later_in_range = omega arith

-- The text of one id.
encoded : encode_ulid 1700000000000 zero_entropy ≡ str "01HF7YAT000000000000000000"
unfolding encode_ulid
encoded = refl

encode_ulid-lt_example :
    (encode_ulid 1700000000000 zero_entropy <? encode_ulid 1700000000001 zero_entropy) ≡ true
encode_ulid-lt_example =
    encode_ulid-lt 1700000000000 1700000000001 zero_entropy zero_entropy before_later later_in_range

decode_ulid-encode_ulid_example :
    decode_ulid (encode_ulid 1700000000000 zero_entropy)
    ≡ (1700000000000, entropy_number zero_entropy)
decode_ulid-encode_ulid_example =
    decode_ulid-encode_ulid 1700000000000 zero_entropy in_range zero_IsBytes

valid_ulid-new_event_id_example : valid_ulid (new_event_id 1700000000000 none) ≡ none
valid_ulid-new_event_id_example = valid_ulid-new_event_id 1700000000000 none
