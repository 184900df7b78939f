-- ===== src/Fleet/Operations/Links.antt =====
-- Who has whom in the list of participating submarines, and how each operation changes that.
use embedded_project_pc.Common.{
  List, [], ◌∷◌, ◌++◌, Option, none, some, Bool, false, not, ◌&&◌, ◌||◌, if◌then◌else◌, ◌≡◌, ◌∙◌,
  refl, arith,
}
use mathlib.Core.Option
use embedded_project_pc.Common.Text.{Text, same, same→eq, same_iff}
use embedded_project_pc.Fleet.Submarine.{
  Submarine, research, combat, Combat, serial_of, contains, without, has_participant,
  add_participant, remove_participant, combat_end, research_end,
}
use embedded_project_pc.Fleet.Registry.{Fleet, find_by_serial, modify, on_combat}
use embedded_project_pc.Fleet.Registry.Lookup.{find-serial, find-modify}
use embedded_project_pc.Fleet.Operations.{leave_all, end_one}

unfoldable pub has : Option Submarine → Text → Bool
has none y = false
has (some (research r)) y = false
has (some (combat c)) y = has_participant c y

-- The submarine `x` is a combat submarine of the fleet with `y` in its list.
unfoldable pub linked : Fleet → Text → Text → Bool
unfolding has
linked fleet x y = has (find_by_serial x fleet) y

contains-without :
    (xs : List Text) (a y : Text) → contains (without xs a) y ≡ (contains xs y && not (same a y))
unfolding contains without
contains-without [] a y = refl
contains-without (x ∷ xs) a y =
    ground (arith, same_iff x a, same_iff a y, same_iff x y, contains-without xs a y)

contains-append :
    (xs : List Text) (a y : Text) → contains (xs ++ a ∷ []) y ≡ (contains xs y || same a y)
unfolding contains
contains-append [] a y = ground arith
contains-append (x ∷ xs) a y = ground (arith, contains-append xs a y)

pub linked-has : (fleet : Fleet) (x y : Text) → linked fleet x y ≡ has (find_by_serial x fleet) y
unfolding linked
linked-has fleet x y = refl

-- A write to one submarine.
pub linked-modify :
    (serial : Text) (f : Submarine → Submarine) (fleet : Fleet) (x y : Text)
    → ((s : Submarine) → serial_of s ≡ serial → serial_of (f s) ≡ serial)
    → linked (modify serial f fleet) x y
      ≡ (if same serial x then has (Option.map f (find_by_serial x fleet)) y else linked fleet x y)
unfolding linked
linked-modify serial f fleet x y h = ground (arith, find-modify serial f fleet x h)

pub keeps_remove :
    (s : Text) (t : Submarine) → serial_of (on_combat (remove_participant s) t) ≡ serial_of t
unfolding serial_of on_combat remove_participant
keeps_remove s (research r) = refl
keeps_remove s (combat c) = refl

pub keeps_add :
    (s : Text) (t : Submarine) → serial_of (on_combat (add_participant s) t) ≡ serial_of t
unfolding serial_of on_combat add_participant
keeps_add s (research r) = refl
keeps_add s (combat c) = ground arith

pub keeps_end : (t : Submarine) → serial_of (end_one t) ≡ serial_of t
unfolding serial_of end_one combat_end research_end
keeps_end (research r) = refl
keeps_end (combat c) = refl

has-remove :
    (serial : Text) (o : Option Submarine) (y : Text)
    → has (Option.map (on_combat (remove_participant serial)) o) y
      ≡ (has o y && not (same serial y))
unfolding has on_combat remove_participant has_participant
has-remove serial none y = refl
has-remove serial (some (research r)) y = refl
has-remove serial (some (combat c)) y = contains-without c.participating serial y

pub linked-remove :
    (other serial : Text) (fleet : Fleet) (x y : Text)
    → linked (modify other (on_combat (remove_participant serial)) fleet) x y
      ≡ (linked fleet x y && not (same other x && same serial y))
linked-remove other serial fleet x y = ground (
  arith,
  linked-modify other (on_combat (remove_participant serial)) fleet x y
      (λ t e. keeps_remove serial t ∙ e),
  has-remove serial (find_by_serial x fleet) y,
  linked-has fleet x y,
)

-- The loop of Fleet::EndMission takes `serial` off the lists of those in `others`, and changes
-- nothing else.
pub linked-leave_all :
    (others : List Text) (serial : Text) (fleet : Fleet) (x y : Text)
    → linked (leave_all others serial fleet) x y
      ≡ (linked fleet x y && not (contains others x && same serial y))
unfolding leave_all contains
linked-leave_all [] serial fleet x y = ground arith
linked-leave_all (other ∷ others) serial fleet x y = ground (
  arith,
  linked-leave_all others serial (modify other (on_combat (remove_participant serial)) fleet) x y,
  linked-remove other serial fleet x y,
)

has-end : (o : Option Submarine) (y : Text) → has (Option.map end_one o) y ≡ false
unfolding has end_one combat_end has_participant contains
has-end none y = refl
has-end (some (research r)) y = refl
has-end (some (combat c)) y = refl

pub linked-end :
    (serial : Text) (fleet : Fleet) (x y : Text)
    → linked (modify serial end_one fleet) x y ≡ (linked fleet x y && not (same serial x))
linked-end serial fleet x y = ground (
  arith,
  linked-modify serial end_one fleet x y (λ t e. keeps_end t ∙ e),
  has-end (find_by_serial x fleet) y,
)

has-add :
    (other : Text) (c : Combat) (y : Text)
    → has (some (combat (add_participant other c))) y
      ≡ (has_participant c y || (same other y && not (same other c.base.serial_number)))
unfolding has add_participant has_participant
has-add other c y = ground (arith, contains-append c.participating other y, same_iff other y)

pub linked-add :
    (serial other : Text) (fleet : Fleet) (c : Combat) (x y : Text)
    → find_by_serial serial fleet ≡ some (combat c)
    → linked (modify serial (on_combat (add_participant other)) fleet) x y
      ≡ (linked fleet x y || (same serial x && same other y && not (same other serial)))
unfolding on_combat has serial_of
linked-add serial other fleet c x y e = ground (
  arith,
  linked-modify serial (on_combat (add_participant other)) fleet x y (λ t h. keeps_add other t ∙ h),
  linked-has fleet x y,
  same→eq serial x,
  has-add other c y,
  find-serial serial fleet (combat c) e,
  e,
)
