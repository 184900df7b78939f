-- ===== src/Tests/Fields.antt =====
-- Fields at concrete inputs.
use embedded_project_pc.Common.{◌+◌, ◌≡◌, ◌≢◌, refl, List, [], ◌∷◌, ◌++◌, All, length, arith}
use embedded_project_pc.Protocol.{ok, err, fault, hangs, not_found, malformed, Span}
use embedded_project_pc.Protocol.Bytes.{put_u16, join_u16}
use embedded_project_pc.Protocol.Tlv.{encode_tlv, decode_tlv, find_field, find_field_loop}
use embedded_project_pc.Protocol.Tlv.Single.{
  tlv_bytes, encode_tlv-tlv_bytes, encode_tlv_overrun, decode_tlv-encode_tlv,
}
use embedded_project_pc.Protocol.Tlv.Fields.{
  Field, IsShort, fields_bytes, first_value, contents, find_field-fields_bytes, find_field_cut,
}
use embedded_project_pc.Protocol.Tlv.Stall.{find_field_loop_stalls, NoStall, find_field_ends}
use embedded_project_pc.Tests.Zeros.{zeros, length-zeros}

decode_tlv-encode_tlv_example :
    decode_tlv (record { bytes = tlv_bytes 0x26 (3 ∷ []) ++ 9 ∷ []; len = 5 })
    ≡ ok (record {
      tag = 0x26;
      value = record { bytes = 3 ∷ 9 ∷ []; len = 1 };
      consumed = length (tlv_bytes 0x26 (3 ∷ []));
    })
unfolding tlv_bytes put_u16
decode_tlv-encode_tlv_example =
    decode_tlv-encode_tlv 0x26 (3 ∷ []) (tlv_bytes 0x26 (3 ∷ [])) (9 ∷ []) 4 5 (omega arith)
      (encode_tlv-tlv_bytes 0x26 (3 ∷ []) 4 (omega arith)) (omega arith)

encode_tlv_overrun_example : encode_tlv 0x26 (zeros 65533) 2 ≡ fault
encode_tlv_overrun_example =
    encode_tlv_overrun 0x26 (zeros 65533) 2 (omega (arith, length-zeros 65533))
      (omega (arith, length-zeros 65533)) (omega arith) (omega arith)

-- A status, and two records.
abbrev fields : List Field
fields = (0x26, 0 ∷ []) ∷ (0x29, 1 ∷ 2 ∷ []) ∷ (0x29, 3 ∷ []) ∷ []

fields-IsShort : All IsShort fields
fields-IsShort = (omega arith, (omega arith, (omega arith, tt)))

find_field-fields_bytes_example :
    contents (
      find_field
        (record { bytes = fields_bytes fields ++ 7 ∷ []; len = length (fields_bytes fields) })
        0x29)
    ≡ first_value 0x29 fields (err not_found)
unfolding fields_bytes tlv_bytes put_u16
find_field-fields_bytes_example =
    find_field-fields_bytes fields (7 ∷ []) 0x29 fields-IsShort (omega arith)

find_field_cut_example :
    contents (
      find_field
        (record {
          bytes = fields_bytes fields ++ (0x20 ∷ 0 ∷ 4 ∷ 9 ∷ [] ++ []);
          len = length (fields_bytes fields) + 4;
        })
        0x20)
    ≡ first_value 0x20 fields (err malformed)
unfolding fields_bytes tlv_bytes put_u16
find_field_cut_example =
    find_field_cut fields 0x20 (9 ∷ 8 ∷ 7 ∷ 6 ∷ []) (0x20 ∷ 0 ∷ 4 ∷ 9 ∷ []) (7 ∷ 6 ∷ []) [] 8 0x20
      fields-IsShort (omega arith) refl (omega arith) (omega arith)

-- A field that declares 65533 bytes, and a search for another tag.
abbrev stalling : Span
stalling = record { bytes = 0x20 ∷ 0xff ∷ 0xfd ∷ []; len = 3 }

find_field_loop_stalls_example : find_field_loop 1000 stalling 0x29 0 ≡ hangs
unfolding join_u16
find_field_loop_stalls_example =
    find_field_loop_stalls 1000 stalling [] 0x20 0xff 0xfd [] 0x29 refl refl (λ e. omega arith)
      (omega arith) (omega arith)

-- A field that declares more than is there.
abbrev short : Span
short = record { bytes = 0x20 ∷ 0 ∷ 9 ∷ 1 ∷ []; len = 4 }

short-NoStall : NoStall short.bytes
unfolding join_u16
short-NoStall = ((λ e. omega arith), ((λ e. omega arith), ((λ e. omega arith), tt)))

find_field_ends_example : find_field short 0x29 ≢ hangs
find_field_ends_example = find_field_ends short 0x29 short-NoStall (omega arith)
