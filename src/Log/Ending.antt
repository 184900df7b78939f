-- ===== src/Log/Ending.antt =====
-- log.cpp: when CcCore_PrintKeepAlive and CcCore_PrintEventReport end.
use embedded_project_pc.Common.{ℕ, ◌≢◌, List, [], ◌∷◌}
use embedded_project_pc.Protocol.{Outcome, ok, err, fault, hangs, ◌>>=◌, Span}
use embedded_project_pc.Protocol.Bytes.{get_u16, get_u32}
use embedded_project_pc.Protocol.Tlv.{find_field}
use embedded_project_pc.Protocol.Tlv.Ending.{IsQuiet, Finds, find_field-Finds, bind_ends}
use embedded_project_pc.Ground.Records.{
  read_field, get_u8, field_timestamp, field_temperature, field_humidity, field_light,
  field_battery, field_mode, field_measurement, field_event_type, field_event_source,
}
use embedded_project_pc.Ground.Records.Printed.{read_nested, read_sample}
use embedded_project_pc.Log.{
  store_keep_alive, print_keep_alive, print_event_report, field_wd_reset_flag,
}

-- A reader of a field's bytes that does not loop.
abbrev Reads : (List ℕ → Outcome ℕ) → Type 0
Reads get = (bytes : List ℕ) → get bytes ≢ hangs

get_u8-Reads : Reads get_u8
unfolding get_u8
get_u8-Reads [] = λ p. cc
get_u8-Reads (a ∷ bytes) = λ p. cc

get_u16-Reads : Reads get_u16
unfolding get_u16
get_u16-Reads [] = λ p. cc
get_u16-Reads (a ∷ []) = λ p. cc
get_u16-Reads (a ∷ b ∷ bytes) = λ p. cc

get_u32-Reads : Reads get_u32
unfolding get_u32
get_u32-Reads [] = λ p. cc
get_u32-Reads (a ∷ []) = λ p. cc
get_u32-Reads (a ∷ b ∷ []) = λ p. cc
get_u32-Reads (a ∷ b ∷ c ∷ []) = λ p. cc
get_u32-Reads (a ∷ b ∷ c ∷ d ∷ bytes) = λ p. cc

read_found_ends :
    (get : List ℕ → Outcome ℕ) (found : Outcome Span)
    → Reads get
    → Finds found
    → (elim found [ ok field ↦ get field.bytes | err e ↦ ok 0 | fault ↦ fault | hangs ↦ hangs ])
      ≢ hangs
read_found_ends get (ok field) reads f = reads field.bytes
read_found_ends get (err e) reads f = λ p. cc
read_found_ends get fault reads f = λ p. cc
read_found_ends get hangs reads f = absurd f

read_field_ends :
    (get : List ℕ → Outcome ℕ) (buf : Span) (tag : ℕ)
    → Reads get
    → IsQuiet buf
    → read_field get buf tag ≢ hangs
unfolding read_field
read_field_ends get buf tag reads quiet =
    read_found_ends get (find_field buf tag) reads (find_field-Finds buf tag quiet)

-- What follows a field that is read for sure.
then_ends :
    {B : Type 0} (get : List ℕ → Outcome ℕ) (buf : Span) (tag : ℕ) (f : ℕ → Outcome B)
    → Reads get
    → IsQuiet buf
    → ((a : ℕ) → f a ≢ hangs)
    → (read_field get buf tag >>= f) ≢ hangs
then_ends get buf tag f reads quiet go =
    bind_ends (read_field get buf tag) f (read_field_ends get buf tag reads quiet) go

store_keep_alive_ends :
    (timestamp mode : ℕ) (found : Outcome Span)
    → Finds found
    → store_keep_alive timestamp mode found ≢ hangs
unfolding store_keep_alive
store_keep_alive_ends timestamp mode (ok m) q =
    then_ends get_u16 m field_temperature _ get_u16-Reads q (λ temperature.
      then_ends get_u8 m field_humidity _ get_u8-Reads q (λ humidity.
        then_ends get_u16 m field_light _ get_u16-Reads q
          (λ light. then_ends get_u16 m field_battery _ get_u16-Reads q (λ battery p. cc))))
store_keep_alive_ends timestamp mode (err e) q = λ p. cc
store_keep_alive_ends timestamp mode fault q = λ p. cc
store_keep_alive_ends timestamp mode hangs q = absurd q

pub print_keep_alive_ends : (value : Span) → IsQuiet value → print_keep_alive value ≢ hangs
unfolding print_keep_alive
print_keep_alive_ends value q =
    then_ends get_u32 value field_timestamp _ get_u32-Reads q (λ timestamp.
      then_ends get_u8 value field_mode _ get_u8-Reads q (λ mode.
        store_keep_alive_ends timestamp mode (find_field value field_measurement)
          (find_field-Finds value field_measurement q)))

read_nested_ends : (found : Outcome Span) → Finds found → read_nested found ≢ hangs
unfolding read_nested read_sample
read_nested_ends (ok m) q =
    bind_ends (read_sample m) _
      (then_ends get_u16 m field_temperature _ get_u16-Reads q (λ temperature.
        then_ends get_u8 m field_humidity _ get_u8-Reads q (λ humidity.
          then_ends get_u16 m field_light _ get_u16-Reads q (λ light.
            then_ends get_u16 m field_battery _ get_u16-Reads q
              (λ battery. then_ends get_u8 m field_mode _ get_u8-Reads q (λ mode p. cc))))))
      (λ s p. cc)
read_nested_ends (err e) q = λ p. cc
read_nested_ends fault q = λ p. cc
read_nested_ends hangs q = absurd q

pub print_event_report_ends : (value : Span) → IsQuiet value → print_event_report value ≢ hangs
unfolding print_event_report
print_event_report_ends value q =
    then_ends get_u32 value field_timestamp _ get_u32-Reads q (λ timestamp.
      then_ends get_u8 value field_event_type _ get_u8-Reads q (λ event_type.
        then_ends get_u8 value field_event_source _ get_u8-Reads q (λ event_source.
          then_ends get_u8 value field_wd_reset_flag _ get_u8-Reads q (λ wd_reset.
            bind_ends (read_nested (find_field value field_measurement)) _
              (read_nested_ends (find_field value field_measurement)
                (find_field-Finds value field_measurement q))
              (λ sample p. cc)))))
