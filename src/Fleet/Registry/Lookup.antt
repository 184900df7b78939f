-- ===== src/Fleet/Registry/Lookup.antt =====
-- FindBySerial after a write through a pointer and after an insertion at the end.
use embedded_project_pc.Common.{[], ◌∷◌, ◌++◌, none, some, if◌then◌else◌, ◌≡◌, refl, arith}
use mathlib.Core.Option
use embedded_project_pc.Common.Text.{Text, same, same→eq, same_iff}
use embedded_project_pc.Fleet.Submarine.{Submarine, serial_of}
use embedded_project_pc.Fleet.Registry.{Fleet, find_by_serial, modify}

-- A submarine is found under its own serial number.
pub find-serial :
    (serial : Text) (fleet : Fleet) (s : Submarine)
    → find_by_serial serial fleet ≡ some s
    → serial_of s ≡ serial
unfolding find_by_serial
find-serial serial [] s e = cc
find-serial serial (t ∷ fleet) s e =
    ground (arith, same→eq (serial_of t) serial, find-serial serial fleet s)

-- A write that leaves serial numbers alone changes what is found under that number, and nothing else.
pub find-modify :
    (serial : Text) (f : Submarine → Submarine) (fleet : Fleet) (x : Text)
    → ((s : Submarine) → serial_of s ≡ serial → serial_of (f s) ≡ serial)
    → find_by_serial x (modify serial f fleet)
      ≡ (if same serial x then Option.map f (find_by_serial x fleet) else find_by_serial x fleet)
unfolding find_by_serial modify
find-modify serial f [] x h = ground arith
find-modify serial f (s ∷ fleet) x h = ground (
  arith,
  h s,
  same_iff (serial_of s) serial,
  same_iff (serial_of s) x,
  same_iff serial x,
  find-modify serial f fleet x h,
)

-- A submarine added at the end is found only where no other was.
pub find-append :
    (fleet : Fleet) (s : Submarine) (x : Text)
    → find_by_serial x (fleet ++ s ∷ []) ≡ (elim (find_by_serial x fleet) [
      | some t ↦ some t
      | none ↦ if same (serial_of s) x then some s else none
    ])
unfolding find_by_serial
find-append [] s x = ground arith
find-append (t ∷ fleet) s x = ground (arith, find-append fleet s x)

-- No two submarines have the same serial number.
abbrev pub Distinct : Fleet → Type 0
Distinct [] = Unit {0}
Distinct (s ∷ fleet) = (find_by_serial (serial_of s) fleet ≡ none) × Distinct fleet

pub modify-Distinct :
    (serial : Text) (f : Submarine → Submarine) (fleet : Fleet)
    → ((s : Submarine) → serial_of s ≡ serial → serial_of (f s) ≡ serial)
    → Distinct fleet
    → Distinct (modify serial f fleet)
unfolding modify
modify-Distinct serial f [] h d = tt
modify-Distinct serial f (s ∷ fleet) h d = ground (
  arith,
  h s,
  same_iff (serial_of s) serial,
  find-modify serial f fleet (serial_of s) h,
  modify-Distinct serial f fleet h,
)

pub append-Distinct :
    (fleet : Fleet) (s : Submarine)
    → Distinct fleet
    → find_by_serial (serial_of s) fleet ≡ none
    → Distinct (fleet ++ s ∷ [])
unfolding find_by_serial
append-Distinct [] s d e = (refl, tt)
append-Distinct (t ∷ fleet) s d e = ground (
  arith,
  find-append fleet s (serial_of t),
  same_iff (serial_of t) (serial_of s),
  same_iff (serial_of s) (serial_of t),
  append-Distinct fleet s,
)
