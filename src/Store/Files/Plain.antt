-- ===== src/Store/Files/Plain.antt =====
-- data_collection.cpp: the lines of the store are lines: not empty, and without a newline.
use embedded_project_pc.Common.{
  ℕ, zero, suc, ◌+◌, ◌-◌, ◌/◌, ◌%◌, ◌^◌, ◌==◌, ◌<◌, ◌≡◌, refl, [], ◌∷◌, ◌++◌, Option, none, some,
  true, false, length, length-append, ltb, if◌then◌else◌, All, All-append, arith,
}
use embedded_project_pc.Common.Text.{Text}
use embedded_project_pc.Ground.Records.{Measurement}
use embedded_project_pc.Ground.Records.Printed.{PrintedEvent, Sample}
use embedded_project_pc.Store.{
  newline, comma, then_comma, put_digits, print_unsigned, print_int16, sample_line, sample_part,
  measurement_line, event_line,
}
use embedded_project_pc.Store.Files.Stored.{IsLine}

abbrev IsPlain : Text → Type 0
IsPlain text = All (λ c. (c == newline) ≡ false) text

put_digits-IsPlain : (k n : ℕ) (out : Text) → IsPlain out → IsPlain (put_digits k n out)
unfolding put_digits
put_digits-IsPlain zero n out h = h
put_digits-IsPlain (suc k) n out h =
    elim (ltb n 10)
      as (λ b.
        IsPlain (if b then (48 + n) ∷ out else put_digits k (n / 10) ((48 + n % 10) ∷ out))) [
          | true ↦ (ground arith, h)
          | false ↦ put_digits-IsPlain k (n / 10) ((48 + n % 10) ∷ out) (ground arith, h)
        ]

print_unsigned-IsPlain : (n : ℕ) → IsPlain (print_unsigned n)
unfolding print_unsigned
print_unsigned-IsPlain n = put_digits-IsPlain 10 n [] _

print_int16-IsPlain : (n : ℕ) → IsPlain (print_int16 n)
unfolding print_int16
print_int16-IsPlain n =
    elim (ltb n (2 ^ 15))
      as (λ b. IsPlain (if b then print_unsigned n else 45 ∷ print_unsigned (2 ^ 16 - n))) [
        | true ↦ print_unsigned-IsPlain n
        | false ↦ (refl, print_unsigned-IsPlain (2 ^ 16 - n))
      ]

then_comma-IsPlain :
    (first rest : Text) → IsPlain first → IsPlain rest → IsPlain (then_comma first rest)
then_comma-IsPlain first rest h k =
    All-append (λ c. (c == newline) ≡ false) first (comma ∷ rest) h (refl, k)

sample_line-IsPlain :
    (temperature humidity light battery mode : ℕ)
    → IsPlain (sample_line temperature humidity light battery mode)
unfolding sample_line
sample_line-IsPlain temperature humidity light battery mode =
    then_comma-IsPlain (print_int16 temperature)
      (then_comma (print_unsigned humidity) (
        then_comma (print_unsigned light)
          (then_comma (print_unsigned battery) (print_unsigned mode))))
      (print_int16-IsPlain temperature)
      (then_comma-IsPlain (print_unsigned humidity)
        (then_comma (print_unsigned light)
          (then_comma (print_unsigned battery) (print_unsigned mode)))
        (print_unsigned-IsPlain humidity)
        (then_comma-IsPlain (print_unsigned light)
          (then_comma (print_unsigned battery) (print_unsigned mode)) (print_unsigned-IsPlain light)
          (then_comma-IsPlain (print_unsigned battery) (print_unsigned mode)
            (print_unsigned-IsPlain battery) (print_unsigned-IsPlain mode))))

length-then_comma : (first rest : Text) → 0 < length (then_comma first rest)
length-then_comma first rest = omega (arith, length-append first (comma ∷ rest))

pub measurement_line-IsLine : (m : Measurement) → IsLine (measurement_line m)
unfolding measurement_line
measurement_line-IsLine m =
    let rest = sample_line m.temperature m.humidity m.light m.battery_voltage m.mode in
    (
      length-then_comma (print_unsigned m.timestamp) rest,
      then_comma-IsPlain (print_unsigned m.timestamp) rest (print_unsigned-IsPlain m.timestamp)
          (sample_line-IsPlain m.temperature m.humidity m.light m.battery_voltage m.mode),
    )

sample_part-IsPlain : (s : Option Sample) → IsPlain (sample_part s)
unfolding sample_part
sample_part-IsPlain none = _
sample_part-IsPlain (some s) =
    (refl, sample_line-IsPlain s.temperature s.humidity s.light s.battery_voltage s.mode)

pub event_line-IsLine : (e : PrintedEvent) → IsLine (event_line e)
unfolding event_line
event_line-IsLine e =
    let source = print_unsigned e.event_source ++ sample_part e.sample in
    let rest = then_comma (print_unsigned e.event_type) source in
    (
      length-then_comma (print_unsigned e.timestamp) rest,
      then_comma-IsPlain (print_unsigned e.timestamp) rest (print_unsigned-IsPlain e.timestamp) (
          then_comma-IsPlain (print_unsigned e.event_type) source
            (print_unsigned-IsPlain e.event_type)
            (All-append (λ c. (c == newline) ≡ false) (print_unsigned e.event_source)
              (sample_part e.sample) (print_unsigned-IsPlain e.event_source)
              (sample_part-IsPlain e.sample))),
    )
