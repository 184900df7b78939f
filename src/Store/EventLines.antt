-- ===== src/Store/EventLines.antt =====
-- data_collection.cpp: a line of the events is read back as the event it was written for.
use embedded_project_pc.Common.{
  ℕ, ◌%◌, ◌^◌, ◌<◌, ◌≡◌, refl, ap, List, [], ◌∷◌, ◌++◌, append-nil, Option, none, some, arith,
}
use embedded_project_pc.Protocol.{IsU16, IsU32, ok}
use embedded_project_pc.Ground.Records.{Measurement, Event}
use embedded_project_pc.Ground.Records.Printed.{Sample, PrintedEvent}
use embedded_project_pc.Store.{
  print_unsigned, then_comma, sample_part, sample_line, event_line, Conversion, unsigned, signed,
  event_of, read_event_line,
}
use embedded_project_pc.Store.Lines.{
  unsigned-comma, unsigned-end, sample_line-scanned, IsStorable, in_range, measurement_back,
}

-- An event whose members are in the range of their types.
pub record IsStorableSample (s : Sample) : Type 0 where
  pub temperature_u16 : IsU16 s.temperature
  pub humidity_u8 : s.humidity < 2 ^ 8
  pub light_u16 : IsU16 s.light
  pub battery_u16 : IsU16 s.battery_voltage
  pub mode_u8 : s.mode < 2 ^ 8

abbrev pub StorableSample : Option Sample → Type 0
StorableSample none = Unit
StorableSample (some s) = IsStorableSample s

pub record IsStorableEvent (e : PrintedEvent) : Type 0 where
  pub timestamp_u32 : IsU32 e.timestamp
  pub event_type_u8 : e.event_type < 2 ^ 8
  pub event_source_u8 : e.event_source < 2 ^ 8
  pub sample_storable : StorableSample e.sample

-- The event as it comes back: its measurement has the event's time.
abbrev pub timed : ℕ → Option Sample → Option Measurement
timed timestamp none = none
timed timestamp (some s) = some (record {
  timestamp = timestamp;
  temperature = s.temperature;
  humidity = s.humidity;
  light = s.light;
  battery_voltage = s.battery_voltage;
  mode = s.mode;
})

abbrev pub event_back : ℕ → ℕ → ℕ → Option Sample → Event
event_back timestamp event_type event_source sample = record {
  timestamp = timestamp;
  event_type = event_type;
  event_source = event_source;
  measurement = timed timestamp sample;
}

read_event_line-parts :
    (start end timestamp event_type event_source : ℕ) (sample : Option Sample)
    → IsU32 timestamp
    → event_type < 2 ^ 8
    → event_source < 2 ^ 8
    → StorableSample sample
    → read_event_line start end (
        event_line (record {
          timestamp = timestamp;
          event_type = event_type;
          event_source = event_source;
          sample = sample;
        }))
      ≡ ok (in_range start end timestamp (event_back timestamp event_type event_source sample))
unfolding read_event_line event_line sample_part event_of
read_event_line-parts start end timestamp event_type event_source none ht hy hs h =
    let type_back : event_type % 2 ^ 8 ≡ event_type = omega arith in
    let source_back : event_source % 2 ^ 8 ≡ event_source = omega arith in
    let six : List Conversion =
      unsigned ∷ signed ∷ unsigned ∷ unsigned ∷ unsigned ∷ unsigned ∷ [] in
    let source_text = print_unsigned event_source ++ [] in
    rw
      (
        unsigned-comma (unsigned ∷ six) timestamp
            (then_comma (print_unsigned event_type) source_text) ht,
        unsigned-comma six event_type source_text (omega arith),
        append-nil (print_unsigned event_source),
        unsigned-end (signed ∷ unsigned ∷ unsigned ∷ unsigned ∷ unsigned ∷ []) event_source
            (omega arith),
      )
      (rw (type_back, source_back) refl)
read_event_line-parts start end timestamp event_type event_source (some s) ht hy hs h =
    let type_back : event_type % 2 ^ 8 ≡ event_type = omega arith in
    let source_back : event_source % 2 ^ 8 ≡ event_source = omega arith in
    let five : List Conversion = signed ∷ unsigned ∷ unsigned ∷ unsigned ∷ unsigned ∷ [] in
    let last = sample_line s.temperature s.humidity s.light s.battery_voltage s.mode in
    let m : Measurement = record {
      timestamp = timestamp;
      temperature = s.temperature;
      humidity = s.humidity;
      light = s.light;
      battery_voltage = s.battery_voltage;
      mode = s.mode;
    } in
    let storable : IsStorable m = record {
      timestamp_u32 = ht;
      temperature_u16 = h.temperature_u16;
      humidity_u8 = h.humidity_u8;
      light_u16 = h.light_u16;
      battery_u16 = h.battery_u16;
      mode_u8 = h.mode_u8;
    } in
    rw
      (
        unsigned-comma (unsigned ∷ unsigned ∷ five) timestamp
            (then_comma (print_unsigned event_type) (then_comma (print_unsigned event_source) last))
            ht,
        unsigned-comma (unsigned ∷ five) event_type (then_comma (print_unsigned event_source) last)
            (omega arith),
        unsigned-comma five event_source last (omega arith),
        sample_line-scanned s.temperature s.humidity s.light s.battery_voltage s.mode
            h.temperature_u16 (omega (arith, h.humidity_u8)) (omega (arith, h.light_u16))
            (omega (arith, h.battery_u16)) (omega (arith, h.mode_u8)),
      )
      (rw (type_back, source_back)
        (ap
          (λ (r : Measurement). ok (
            in_range start end timestamp (record {
              timestamp = timestamp;
              event_type = event_type;
              event_source = event_source;
              measurement = some r;
            })))
          (measurement_back m storable)))

-- The line of an event is read back as this event, with its measurement if it has one, if its time is
-- in the range that is asked for, and is passed over otherwise. The measurement comes back with the
-- event's time.
pub read_event_line-event_line :
    (start end : ℕ) (e : PrintedEvent)
    → IsStorableEvent e
    → read_event_line start end (event_line e)
      ≡ ok (
          in_range start end e.timestamp
            (event_back e.timestamp e.event_type e.event_source e.sample))
read_event_line-event_line start end e s =
    read_event_line-parts start end e.timestamp e.event_type e.event_source e.sample s.timestamp_u32
      s.event_type_u8 s.event_source_u8 s.sample_storable
