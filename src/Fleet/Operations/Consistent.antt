-- ===== src/Fleet/Operations/Consistent.antt =====
-- The invariant of the fleet: whose lists agree with whose, and that every operation keeps it.
use embedded_project_pc.Common.{
  Option, none, some, Bool, true, false, if◌then◌else◌, ◌≡◌, ◌∙◌, sym, refl, arith,
}
use mathlib.Core.Option
use embedded_project_pc.Common.Text.{Text, same, same→eq}
use embedded_project_pc.Fleet.Submarine.{Submarine, serial_of, is_assigned}
use embedded_project_pc.Fleet.Registry.{Fleet, find_by_serial, modify}
use embedded_project_pc.Fleet.Registry.Lookup.{find-modify, Distinct, modify-Distinct}
use embedded_project_pc.Fleet.Operations.Links.{has, linked, linked-has, linked-modify}

unfoldable pub marked : Option Submarine → Bool
marked none = false
marked (some s) = is_assigned s

-- The submarine `x` is of the fleet and assigned to a mission.
unfoldable pub assigned : Fleet → Text → Bool
unfolding marked
assigned fleet x = marked (find_by_serial x fleet)

-- Lists agree in both directions, nobody is in its own list, only an assigned submarine has a list,
-- and no serial number occurs twice.
pub record IsConsistent (fleet : Fleet) : Type 0 where
  pub symmetric : (x y : Text) → linked fleet x y ≡ linked fleet y x
  pub irreflexive : (x : Text) → linked fleet x x ≡ false
  pub active : (x y : Text) → linked fleet x y ≡ true → assigned fleet x ≡ true
  pub distinct : Distinct fleet

pub assigned_lem : (fleet : Fleet) (x : Text) → assigned fleet x ≡ marked (find_by_serial x fleet)
unfolding assigned
assigned_lem fleet x = refl

pub assigned-modify :
    (serial : Text) (f : Submarine → Submarine) (fleet : Fleet) (x : Text)
    → ((s : Submarine) → serial_of s ≡ serial → serial_of (f s) ≡ serial)
    → assigned (modify serial f fleet) x
      ≡ (if same serial x then marked (Option.map f (find_by_serial x fleet)) else assigned fleet x)
unfolding assigned
assigned-modify serial f fleet x h = ground (arith, find-modify serial f fleet x h)

-- A write that changes neither a list nor a serial number, and takes no submarine off its mission.
pub write-linked :
    (serial : Text) (f : Submarine → Submarine) (fleet : Fleet) (s : Submarine) (x y : Text)
    → find_by_serial serial fleet ≡ some s
    → ((t : Submarine) → serial_of t ≡ serial → serial_of (f t) ≡ serial)
    → has (some (f s)) y ≡ has (some s) y
    → linked (modify serial f fleet) x y ≡ linked fleet x y
write-linked serial f fleet s x y e h same_list = ground (
  arith,
  linked-modify serial f fleet x y h,
  linked-has fleet x y,
  same→eq serial x,
  same_list,
  e,
)

write-assigned :
    (serial : Text) (f : Submarine → Submarine) (fleet : Fleet) (s : Submarine) (x : Text)
    → find_by_serial serial fleet ≡ some s
    → ((t : Submarine) → serial_of t ≡ serial → serial_of (f t) ≡ serial)
    → (is_assigned s ≡ true → is_assigned (f s) ≡ true)
    → assigned fleet x ≡ true
    → assigned (modify serial f fleet) x ≡ true
unfolding marked assigned
write-assigned serial f fleet s x e h kept is =
    ground (arith, assigned-modify serial f fleet x h, same→eq serial x, kept, e, is)

pub write-IsConsistent :
    (serial : Text) (f : Submarine → Submarine) (fleet : Fleet) (s : Submarine)
    → find_by_serial serial fleet ≡ some s
    → ((t : Submarine) → serial_of t ≡ serial → serial_of (f t) ≡ serial)
    → ((y : Text) → has (some (f s)) y ≡ has (some s) y)
    → (is_assigned s ≡ true → is_assigned (f s) ≡ true)
    → IsConsistent fleet
    → IsConsistent (modify serial f fleet)
write-IsConsistent serial f fleet s e h same_list kept c = record {
  symmetric = λ x y.
      write-linked serial f fleet s x y e h (same_list y)
      ∙ c.symmetric x y
      ∙ sym (write-linked serial f fleet s y x e h (same_list x));
  irreflexive = λ x. write-linked serial f fleet s x x e h (same_list x) ∙ c.irreflexive x;
  active = λ x y l.
      write-assigned serial f fleet s x e h kept
        (c.active x y (sym (write-linked serial f fleet s x y e h (same_list y)) ∙ l));
  distinct = modify-Distinct serial f fleet h c.distinct;
}
