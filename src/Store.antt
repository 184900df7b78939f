-- ===== src/Store.antt =====
-- central_computer/data_collection.cpp: the lines of the store. Numbers are printed as `<<` prints
-- them and read as sscanf reads them.
pub mod Decimals
pub mod Lines
pub mod EventLines
pub mod Files
use embedded_project_pc.Common.{
  ℕ, zero, suc, ◌+◌, ◌-◌, ◌*◌, ◌/◌, ◌%◌, ◌^◌, ◌==◌, ◌||◌, ◌&&◌, List, [], ◌∷◌, ◌++◌, Option, none,
  some, Bool, true, false, ltb, leb, if◌then◌else◌,
}
use embedded_project_pc.Common.Text.{Text}
use embedded_project_pc.Protocol.{Outcome, ok, err, fault, hangs, ◌>>=◌}
use embedded_project_pc.Ground.Records.{Measurement, Event}
use embedded_project_pc.Ground.Records.Printed.{Sample, PrintedEvent}

abbrev pub comma : ℕ
comma = 44

abbrev pub minus : ℕ
minus = 45

abbrev pub newline : ℕ
newline = 10

-- The digits of a number in front of `out`. Ten of them are enough for 32 bits.
unfoldable pub put_digits : ℕ → ℕ → Text → Text
put_digits zero n out = out
put_digits (suc k) n out =
    let more = put_digits k (n / 10) ((48 + n % 10) ∷ out) in
    if ltb n 10 then (48 + n) ∷ out else more

unfoldable pub print_unsigned : ℕ → Text
unfolding put_digits
print_unsigned n = put_digits 10 n []

-- `<<` on an int16_t, which is given by its 16 bits.
unfoldable pub print_int16 : ℕ → Text
unfolding print_unsigned
print_int16 n = if ltb n (2 ^ 15) then print_unsigned n else minus ∷ print_unsigned (2 ^ 16 - n)

-- `<< first << "," << ...`
abbrev pub then_comma : Text → Text → Text
then_comma first rest = first ++ (comma ∷ rest)

-- The five values that both lines have in common.
unfoldable pub sample_line : ℕ → ℕ → ℕ → ℕ → ℕ → Text
sample_line temperature humidity light battery mode = then_comma (print_int16 temperature) (
    then_comma (print_unsigned humidity) (
      then_comma (print_unsigned light)
        (then_comma (print_unsigned battery) (print_unsigned mode))))

unfoldable pub measurement_line : Measurement → Text
unfolding sample_line
measurement_line m =
    then_comma (print_unsigned m.timestamp)
      (sample_line m.temperature m.humidity m.light m.battery_voltage m.mode)

-- The values behind the third one, if there is a measurement.
unfoldable pub sample_part : Option Sample → Text
unfolding sample_line
sample_part none = []
sample_part (some s) = comma ∷ sample_line s.temperature s.humidity s.light s.battery_voltage s.mode

unfoldable pub event_line : PrintedEvent → Text
unfolding sample_part
event_line e = then_comma (print_unsigned e.timestamp) (
    then_comma (print_unsigned e.event_type)
      (print_unsigned e.event_source ++ sample_part e.sample))

-- isspace and isdigit.
abbrev pub is_space : ℕ → Bool
is_space c = c == 32 || (leb 9 c && leb c 13)

abbrev pub is_digit : ℕ → Bool
is_digit c = leb 48 c && leb c 57

-- The digits at the front, onto the value `n` of those before them.
unfoldable pub scan_digits : Text → ℕ → ℕ × Text
scan_digits [] n = (n, [])
scan_digits (c ∷ text) n =
    let more = scan_digits text (n * 10 + (c - 48)) in if is_digit c then more else (n, c ∷ text)

-- A conversion of sscanf.
pub data Conversion : Type 0 where
  unsigned : Conversion
  signed : Conversion

-- The value of a conversion: the 32 bits of an unsigned int or an int. One that does not fit is
-- undefined behaviour.
unfoldable pub converted : Conversion → Bool → ℕ → Outcome ℕ
converted unsigned false n = if ltb n (2 ^ 32) then ok n else fault
converted unsigned true n = if ltb n (2 ^ 32) then ok ((2 ^ 32 - n) % 2 ^ 32) else fault
converted signed false n = if ltb n (2 ^ 31) then ok n else fault
converted signed true n = if leb n (2 ^ 31) then ok ((2 ^ 32 - n) % 2 ^ 32) else fault

-- One conversion behind white space and a sign; `none` where no digit follows.
unfoldable pub scan_number : Conversion → Bool → Text → Outcome (Option (ℕ × Text))
scan_number conversion negative [] = ok none
scan_number conversion negative (c ∷ text) =
    if is_digit c
    then (converted conversion negative (scan_digits (c ∷ text) 0).0 >>= λ v.
        ok (some (v, (scan_digits (c ∷ text) 0).1)))
    else ok none

unfoldable pub scan_sign : Conversion → Text → Outcome (Option (ℕ × Text))
unfolding scan_number
scan_sign conversion [] = ok none
scan_sign conversion (c ∷ text) =
    if c == minus
    then scan_number conversion true text
    else (if c == 43
        then scan_number conversion false text
        else scan_number conversion false (c ∷ text))

unfoldable pub skip_space : Text → Text
skip_space [] = []
skip_space (c ∷ text) = let more = skip_space text in if is_space c then more else c ∷ text

-- sscanf with conversions between which a comma stands: the values converted.
unfoldable pub scan_line : List Conversion → Text → Outcome (List ℕ)
unfolding skip_space scan_sign
scan_line [] text = ok []
scan_line (f ∷ fs) text = scan_sign f (skip_space text) >>= λ scanned. elim scanned [
  | none ↦ ok []
  | some (v, rest) ↦ elim rest [
    | [] ↦ ok (v ∷ [])
    | c ∷ rest' ↦
        let more = scan_line fs rest' in
        if c == comma then (more >>= λ vs. ok (v ∷ vs)) else ok (v ∷ [])
  ]
]

abbrev pub measurement_format : List Conversion
measurement_format = unsigned ∷ signed ∷ unsigned ∷ unsigned ∷ unsigned ∷ unsigned ∷ []

abbrev pub event_format : List Conversion
event_format =
    unsigned ∷ unsigned ∷ unsigned ∷ signed ∷ unsigned ∷ unsigned ∷ unsigned ∷ unsigned ∷ []

-- The loop's body in DCA_QueryMeasurements behind sscanf: a line with other than six values is
-- skipped, and so is one out of the range.
unfoldable pub measurement_of : ℕ → ℕ → List ℕ → List Measurement
measurement_of start end (ts ∷ temperature ∷ humidity ∷ light ∷ battery ∷ mode ∷ []) =
    if ltb ts start || ltb end ts
    then []
    else record {
      timestamp = ts;
      temperature = temperature % 2 ^ 16;
      humidity = humidity % 2 ^ 8;
      light = light % 2 ^ 16;
      battery_voltage = battery % 2 ^ 16;
      mode = mode % 2 ^ 8;
    }
      ∷ []
measurement_of start end _ = []

-- The same in DCA_QueryEvents, for lines of three or of eight values.
unfoldable pub event_of : ℕ → ℕ → List ℕ → List Event
event_of start end (ts ∷ event_type ∷ event_source ∷ []) =
    if ltb ts start || ltb end ts
    then []
    else record {
      timestamp = ts;
      event_type = event_type % 2 ^ 8;
      event_source = event_source % 2 ^ 8;
      measurement = none;
    }
      ∷ []
event_of start end
      (ts ∷ event_type ∷ event_source ∷ temperature ∷ humidity ∷ light ∷ battery ∷ mode ∷ []) =
    if ltb ts start || ltb end ts
    then []
    else record {
      timestamp = ts;
      event_type = event_type % 2 ^ 8;
      event_source = event_source % 2 ^ 8;
      measurement = some (record {
        timestamp = ts;
        temperature = temperature % 2 ^ 16;
        humidity = humidity % 2 ^ 8;
        light = light % 2 ^ 16;
        battery_voltage = battery % 2 ^ 16;
        mode = mode % 2 ^ 8;
      });
    }
      ∷ []
event_of start end _ = []

unfoldable pub read_measurement_line : ℕ → ℕ → Text → Outcome (List Measurement)
unfolding scan_line measurement_of
read_measurement_line start end line =
    scan_line measurement_format line >>= λ values. ok (measurement_of start end values)

unfoldable pub read_event_line : ℕ → ℕ → Text → Outcome (List Event)
unfolding scan_line event_of
read_event_line start end line =
    scan_line event_format line >>= λ values. ok (event_of start end values)
