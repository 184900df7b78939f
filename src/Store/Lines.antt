-- ===== src/Store/Lines.antt =====
-- data_collection.cpp: a line of the store is read back as the record it was written for.
use embedded_project_pc.Common.{
  ℕ, ◌%◌, ◌^◌, ◌||◌, ◌<◌, ◌≡◌, refl, sym, ap, ◌∙◌, List, [], ◌∷◌, ◌++◌, append-nil, some, ltb,
  if◌then◌else◌, arith,
}
use embedded_project_pc.Common.Text.{Text}
use embedded_project_pc.Protocol.{IsU16, IsU32, ok, ◌>>=◌}
use embedded_project_pc.Ground.Records.{Measurement}
use embedded_project_pc.Store.{
  print_unsigned, print_int16, comma, then_comma, sample_line, measurement_line, Conversion,
  unsigned, signed, converted, scan_sign, skip_space, scan_line, measurement_of,
  read_measurement_line,
}
use embedded_project_pc.Store.Decimals.{
  scan_sign-print_unsigned, scan_sign-print_int16, int_of_int16,
}

-- One value and its comma, and the last value.
scan_line-comma :
    (f : Conversion) (fs : List Conversion) (text rest : Text) (v : ℕ)
    → scan_sign f (skip_space text) ≡ ok (some (v, comma ∷ rest))
    → scan_line (f ∷ fs) text ≡ (scan_line fs rest >>= λ vs. ok (v ∷ vs))
unfolding scan_line
scan_line-comma f fs text rest v e = rw e refl

scan_line-end :
    (f : Conversion) (fs : List Conversion) (text : Text) (v : ℕ)
    → scan_sign f (skip_space text) ≡ ok (some (v, []))
    → scan_line (f ∷ fs) text ≡ ok (v ∷ [])
unfolding scan_line
scan_line-end f fs text v e = rw e refl

pub unsigned-comma :
    (fs : List Conversion) (n : ℕ) (rest : Text)
    → IsU32 n
    → scan_line (unsigned ∷ fs) (print_unsigned n ++ (comma ∷ rest))
      ≡ (scan_line fs rest >>= λ vs. ok (n ∷ vs))
unfolding converted
unsigned-comma fs n rest h =
    scan_line-comma unsigned fs (print_unsigned n ++ (comma ∷ rest)) rest n
      (scan_sign-print_unsigned unsigned n n (comma ∷ rest) h (ground arith) refl)

pub unsigned-end :
    (fs : List Conversion) (n : ℕ)
    → IsU32 n
    → scan_line (unsigned ∷ fs) (print_unsigned n) ≡ ok (n ∷ [])
unfolding converted
unsigned-end fs n h = scan_line-end unsigned fs (print_unsigned n) n (
    ap (λ t. scan_sign unsigned (skip_space t)) (sym (append-nil (print_unsigned n)))
    ∙ scan_sign-print_unsigned unsigned n n [] h (ground arith) _)

-- The five values of a measurement.
pub sample_line-scanned :
    (temperature humidity light battery mode : ℕ)
    → IsU16 temperature
    → IsU32 humidity
    → IsU32 light
    → IsU32 battery
    → IsU32 mode
    → scan_line
        (signed ∷ unsigned ∷ unsigned ∷ unsigned ∷ unsigned ∷ [])
        (sample_line temperature humidity light battery mode)
      ≡ ok (int_of_int16 temperature ∷ humidity ∷ light ∷ battery ∷ mode ∷ [])
unfolding sample_line
sample_line-scanned temperature humidity light battery mode ht hh hl hb hm =
    let four : List Conversion = unsigned ∷ unsigned ∷ unsigned ∷ unsigned ∷ [] in
    let text2 = then_comma (print_unsigned battery) (print_unsigned mode) in
    let text1 = then_comma (print_unsigned light) text2 in
    let text = then_comma (print_unsigned humidity) text1 in
    rw
      (
        scan_line-comma signed four (then_comma (print_int16 temperature) text) text
            (int_of_int16 temperature) (scan_sign-print_int16 temperature (comma ∷ text) ht refl),
        unsigned-comma (unsigned ∷ unsigned ∷ unsigned ∷ []) humidity text1 hh,
        unsigned-comma (unsigned ∷ unsigned ∷ []) light text2 hl,
        unsigned-comma (unsigned ∷ []) battery (print_unsigned mode) hb,
        unsigned-end [] mode hm,
      )
      refl

-- A measurement whose members are in the range of their types, the bytes included.
pub record IsStorable (m : Measurement) : Type 0 where
  pub timestamp_u32 : IsU32 m.timestamp
  pub temperature_u16 : IsU16 m.temperature
  pub humidity_u8 : m.humidity < 2 ^ 8
  pub light_u16 : IsU16 m.light
  pub battery_u16 : IsU16 m.battery_voltage
  pub mode_u8 : m.mode < 2 ^ 8

-- The record, if its time is in the range.
abbrev pub in_range : {A : Type 0} → ℕ → ℕ → ℕ → A → List A
in_range start end ts a = if ltb ts start || ltb end ts then [] else a ∷ []

int16_back : (n : ℕ) → IsU16 n → int_of_int16 n % 2 ^ 16 ≡ n
int16_back n h = ground arith

pub measurement_back :
    (m : Measurement)
    → IsStorable m
    → record {
      timestamp = m.timestamp;
      temperature = int_of_int16 m.temperature % 2 ^ 16;
      humidity = m.humidity % 2 ^ 8;
      light = m.light % 2 ^ 16;
      battery_voltage = m.battery_voltage % 2 ^ 16;
      mode = m.mode % 2 ^ 8;
    }
      ≡ m
measurement_back m s =
    let humidity : m.humidity % 2 ^ 8 ≡ m.humidity = omega (arith, s.humidity_u8) in
    let light : m.light % 2 ^ 16 ≡ m.light = omega (arith, s.light_u16) in
    let battery : m.battery_voltage % 2 ^ 16 ≡ m.battery_voltage = omega (arith, s.battery_u16) in
    let mode : m.mode % 2 ^ 8 ≡ m.mode = omega (arith, s.mode_u8) in
    rw (int16_back m.temperature s.temperature_u16, humidity, light, battery, mode) refl

-- The line of a measurement is read back as this measurement, its time and its signed temperature
-- included, if its time is in the range that is asked for, and is passed over otherwise.
pub read_measurement_line-measurement_line :
    (start end : ℕ) (m : Measurement)
    → IsStorable m
    → read_measurement_line start end (measurement_line m) ≡ ok (in_range start end m.timestamp m)
unfolding read_measurement_line measurement_line measurement_of
read_measurement_line-measurement_line start end m s =
    rw
      (
        unsigned-comma (signed ∷ unsigned ∷ unsigned ∷ unsigned ∷ unsigned ∷ []) m.timestamp
            (sample_line m.temperature m.humidity m.light m.battery_voltage m.mode) s.timestamp_u32,
        sample_line-scanned m.temperature m.humidity m.light m.battery_voltage m.mode
            s.temperature_u16 (omega (arith, s.humidity_u8)) (omega (arith, s.light_u16))
            (omega (arith, s.battery_u16)) (omega (arith, s.mode_u8)),
      )
      (ap (λ (r : Measurement). ok (in_range start end m.timestamp r)) (measurement_back m s))
