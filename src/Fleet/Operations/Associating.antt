-- ===== src/Fleet/Operations/Associating.antt =====
-- What associating two combat submarines does to the lists, and that the invariant is kept.
use embedded_project_pc.Common.{
  Option, none, some, true, not, ◌&&◌, ◌||◌, ◌≡◌, ◌∙◌, refl, arith, Bool-cases, inl, inr,
}
use mathlib.Core.Option
use embedded_project_pc.Common.Text.{Text, same, same_iff, same_comm}
use embedded_project_pc.Fleet.Submarine.{
  Submarine, research, combat, Combat, serial_of, is_assigned, base_of, add_participant,
}
use embedded_project_pc.Fleet.Registry.{
  Fleet, find_by_serial, as_combat, find_combat, modify, on_combat,
}
use embedded_project_pc.Fleet.Registry.Lookup.{find-serial, find-modify, Distinct, modify-Distinct}
use embedded_project_pc.Fleet.Operations.Links.{linked, linked-add, keeps_add}
use embedded_project_pc.Fleet.Operations.{associate_pair}
use embedded_project_pc.Fleet.Operations.Consistent.{
  marked, assigned, assigned_lem, IsConsistent, assigned-modify,
}

as_combat-some :
    (found : Option Submarine) (c : Combat) → as_combat found ≡ some c → found ≡ some (combat c)
unfolding as_combat
as_combat-some none c e = ground arith
as_combat-some (some (research r)) c e = ground arith
as_combat-some (some (combat d)) c e = ground arith

pub find_combat-find :
    (serial : Text) (fleet : Fleet) (c : Combat)
    → find_combat serial fleet ≡ some c
    → find_by_serial serial fleet ≡ some (combat c)
unfolding find_combat
find_combat-find serial fleet c e = as_combat-some (find_by_serial serial fleet) c e

serial_found :
    (serial : Text) (fleet : Fleet) (c : Combat)
    → find_combat serial fleet ≡ some c
    → c.base.serial_number ≡ serial
unfolding serial_of base_of
serial_found serial fleet c e =
    find-serial serial fleet (combat c) (find_combat-find serial fleet c e)

found_after_add :
    (serial other : Text) (fleet : Fleet) (c d : Combat)
    → find_combat serial fleet ≡ some c
    → find_combat other fleet ≡ some d
    → (d' : Combat) × (find_by_serial other
          (modify serial (on_combat (add_participant other)) fleet)
        ≡ some (combat d'))
unfolding on_combat
found_after_add serial other fleet c d e f = elim (Bool-cases (same serial other)) [
  | inl is_same ↦ (
    add_participant other d,
    ground (
      arith,
      find-modify serial (on_combat (add_participant other)) fleet other
          (λ t h. keeps_add other t ∙ h),
      find_combat-find other fleet d f,
    ),
  )
  | inr differs ↦ (
    d,
    ground (
      arith,
      find-modify serial (on_combat (add_participant other)) fleet other
          (λ t h. keeps_add other t ∙ h),
      find_combat-find other fleet d f,
    ),
  )
]

-- Associating two combat submarines of the fleet puts each in the other's list, unless they are the
-- same, and changes no other entry.
pub linked-associate_pair :
    (fleet : Fleet) (a b : Text) (c d : Combat) (x y : Text)
    → find_combat a fleet ≡ some c
    → find_combat b fleet ≡ some d
    → linked (associate_pair c d fleet) x y
      ≡ (linked fleet x y || (not (same a b) && (same a x && same b y || same b x && same a y)))
unfolding associate_pair
linked-associate_pair fleet a b c d x y e f =
    let (d', after) = found_after_add a b fleet c d e f in
    ground (
      arith,
      serial_found a fleet c e,
      serial_found b fleet d f,
      linked-add a b fleet c x y (find_combat-find a fleet c e),
      linked-add b a (modify a (on_combat (add_participant b)) fleet) d' x y after,
      same_comm a b,
    )

marked-add :
    (other : Text) (found : Option Submarine)
    → marked (Option.map (on_combat (add_participant other)) found) ≡ marked found
unfolding marked on_combat add_participant is_assigned base_of
marked-add other none = refl
marked-add other (some (research r)) = refl
marked-add other (some (combat c)) = ground arith

assigned-add :
    (serial other : Text) (fleet : Fleet) (x : Text)
    → assigned (modify serial (on_combat (add_participant other)) fleet) x ≡ assigned fleet x
assigned-add serial other fleet x = ground (
  arith,
  assigned-modify serial (on_combat (add_participant other)) fleet x (λ t h. keeps_add other t ∙ h),
  marked-add other (find_by_serial x fleet),
  assigned_lem fleet x,
)

assigned-associate_pair :
    (fleet : Fleet) (c d : Combat) (x : Text)
    → assigned (associate_pair c d fleet) x ≡ assigned fleet x
unfolding associate_pair
assigned-associate_pair fleet c d x =
    assigned-add d.base.serial_number c.base.serial_number
      (modify c.base.serial_number (on_combat (add_participant d.base.serial_number)) fleet) x
    ∙ assigned-add c.base.serial_number d.base.serial_number fleet x

add-Distinct :
    (serial other : Text) (fleet : Fleet)
    → Distinct fleet
    → Distinct (modify serial (on_combat (add_participant other)) fleet)
add-Distinct serial other fleet =
    modify-Distinct serial (on_combat (add_participant other)) fleet (λ t h. keeps_add other t ∙ h)

associate_pair-Distinct :
    (fleet : Fleet) (c d : Combat) → Distinct fleet → Distinct (associate_pair c d fleet)
unfolding associate_pair
associate_pair-Distinct fleet c d distinct =
    add-Distinct d.base.serial_number c.base.serial_number
      (modify c.base.serial_number (on_combat (add_participant d.base.serial_number)) fleet)
      (add-Distinct c.base.serial_number d.base.serial_number fleet distinct)

is_on_mission :
    (fleet : Fleet) (serial : Text) (c : Combat)
    → find_combat serial fleet ≡ some c
    → assigned fleet serial ≡ c.base.assigned_to_mission
unfolding assigned marked is_assigned base_of
is_on_mission fleet serial c e = ground (arith, find_combat-find serial fleet c e)

pub associate_pair-IsConsistent :
    (fleet : Fleet) (a b : Text) (c d : Combat)
    → find_combat a fleet ≡ some c
    → find_combat b fleet ≡ some d
    → c.base.assigned_to_mission ≡ true
    → d.base.assigned_to_mission ≡ true
    → IsConsistent fleet
    → IsConsistent (associate_pair c d fleet)
associate_pair-IsConsistent fleet a b c d e f on on' ok = record {
  symmetric = λ x y. ground (
    arith,
    linked-associate_pair fleet a b c d x y e f,
    linked-associate_pair fleet a b c d y x e f,
    ok.symmetric x y,
  );
  irreflexive = λ x. ground (
    arith,
    linked-associate_pair fleet a b c d x x e f,
    ok.irreflexive x,
    same_iff a x,
    same_iff b x,
    same_iff a b,
  );
  active = λ x y l. ground (
    arith,
    linked-associate_pair fleet a b c d x y e f,
    assigned-associate_pair fleet c d x,
    ok.active x y,
    is_on_mission fleet a c e,
    is_on_mission fleet b d f,
    same_iff a x,
    same_iff b x,
    l,
  );
  distinct = associate_pair-Distinct fleet c d ok.distinct;
}
