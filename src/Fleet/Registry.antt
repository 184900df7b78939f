-- ===== src/Fleet/Registry.antt =====
-- oop_fleet/fleet.cpp: the container of submarines, FindBySerial, and writes through the pointer that
-- it returns. A pointer to a submarine is the serial number under which it was found.
pub mod Lookup
use embedded_project_pc.Common.{List, [], ◌∷◌, Option, none, some, Bool, if◌then◌else◌}
use embedded_project_pc.Common.Text.{Text, same}
use embedded_project_pc.Fleet.Submarine.{Submarine, research, combat, Combat, serial_of}

abbrev pub Fleet : Type 0
Fleet = List Submarine

unfoldable pub find_by_serial : Text → Fleet → Option Submarine
find_by_serial serial [] = none
find_by_serial serial (s ∷ fleet) =
    if same (serial_of s) serial then some s else find_by_serial serial fleet

-- dynamic_cast<CombatSubmarine *>
unfoldable pub as_combat : Option Submarine → Option Combat
as_combat none = none
as_combat (some (research r)) = none
as_combat (some (combat c)) = some c

unfoldable pub find_combat : Text → Fleet → Option Combat
unfolding as_combat
find_combat serial fleet = as_combat (find_by_serial serial fleet)

-- A write through the pointer.
unfoldable pub modify : Text → (Submarine → Submarine) → Fleet → Fleet
modify serial f [] = []
modify serial f (s ∷ fleet) =
    if same (serial_of s) serial then f s ∷ fleet else s ∷ modify serial f fleet

-- A call of a CombatSubmarine's method.
unfoldable pub on_combat : (Combat → Combat) → Submarine → Submarine
on_combat f (research r) = research r
on_combat f (combat c) = combat (f c)
