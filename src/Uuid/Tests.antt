-- ===== src/Uuid/Tests.antt =====
-- uuid.go: a UUID and its text, and the theorems applied there.
use gosnowflake.Base.{◌≡◌, ◌<◌, ◌/◌, refl, some, All, arith, ◌%◌}
use gosnowflake.Base.Text.{codes}
use gosnowflake.Uuid.{Uuid, uuid_bytes, parse_uuid, uuid_string, new_uuid}
use gosnowflake.Uuid.RoundTrip.{parse_uuid-uuid_string}
use gosnowflake.Uuid.Bits.{new_uuid-bits}

abbrev sample : Uuid
sample = record {
  b0 = 0;
  b1 = 17;
  b2 = 34;
  b3 = 51;
  b4 = 68;
  b5 = 85;
  b6 = 102;
  b7 = 119;
  b8 = 136;
  b9 = 153;
  b10 = 170;
  b11 = 187;
  b12 = 204;
  b13 = 221;
  b14 = 238;
  b15 = 255;
}

text : uuid_string sample ≡ codes "00112233-4455-6677-8899-aabbccddeeff"
unfolding uuid_string
text = refl

All-sample : All (λ b. b < 256) (uuid_bytes sample)
All-sample = (
  omega arith,
  (
    omega arith,
    (
      omega arith,
      (
        omega arith,
        (
          omega arith,
          (
            omega arith,
            (
              omega arith,
              (
                omega arith,
                (
                  omega arith,
                  (
                    omega arith,
                    (
                      omega arith,
                      (omega arith, (omega arith, (omega arith, (omega arith, (omega arith, tt))))),
                    ),
                  ),
                ),
              ),
            ),
          ),
        ),
      ),
    ),
  ),
)

parse_uuid-uuid_string_example : parse_uuid (uuid_string sample) ≡ some sample
parse_uuid-uuid_string_example = parse_uuid-uuid_string sample All-sample

new_uuid-bits_example :
    ((new_uuid sample).b6 / 16 ≡ 4)
    × ((new_uuid sample).b6 % 16 ≡ 102 % 16)
    × ((new_uuid sample).b8 / 64 ≡ 1)
    × ((new_uuid sample).b8 % 64 ≡ 136 % 64)
new_uuid-bits_example = new_uuid-bits sample All-sample
