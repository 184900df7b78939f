-- ===== src/Fleet/Operations/Ending.antt =====
-- What ending a mission does to the lists, and that the invariant is kept.
use embedded_project_pc.Common.{
  List, [], ◌∷◌, Option, none, some, true, false, not, ◌&&◌, if◌then◌else◌, ◌≡◌, ◌∙◌, refl, arith,
}
use mathlib.Core.Option
use embedded_project_pc.Common.Text.{Text, same, same→eq}
use embedded_project_pc.Fleet.Submarine.{
  Submarine, research, combat, serial_of, is_assigned, base_of, has_participant, remove_participant,
}
use embedded_project_pc.Fleet.Registry.{Fleet, find_by_serial, modify, on_combat}
use embedded_project_pc.Fleet.Registry.Lookup.{find-serial, Distinct, modify-Distinct}
use embedded_project_pc.Fleet.Operations.Links.{
  has, linked, linked-has, linked-leave_all, linked-end, keeps_end, keeps_remove,
}
use embedded_project_pc.Fleet.Operations.{
  leave_all, end_one, end_links, end_found, Done, mission_ended, not_assigned,
}
use embedded_project_pc.Fleet.Operations.Consistent.{
  marked, assigned, assigned_lem, IsConsistent, assigned-modify,
}

marked-remove :
    (serial : Text) (o : Option Submarine)
    → marked (Option.map (on_combat (remove_participant serial)) o) ≡ marked o
unfolding marked on_combat remove_participant is_assigned base_of
marked-remove serial none = refl
marked-remove serial (some (research r)) = refl
marked-remove serial (some (combat c)) = refl

assigned-leave_all :
    (others : List Text) (serial : Text) (fleet : Fleet) (x : Text)
    → assigned (leave_all others serial fleet) x ≡ assigned fleet x
unfolding leave_all
assigned-leave_all [] serial fleet x = refl
assigned-leave_all (other ∷ others) serial fleet x = ground (
  arith,
  assigned-leave_all others serial (modify other (on_combat (remove_participant serial)) fleet) x,
  assigned-modify other (on_combat (remove_participant serial)) fleet x
      (λ t e. keeps_remove serial t ∙ e),
  marked-remove serial (find_by_serial x fleet),
  assigned_lem fleet x,
)

leave_all-Distinct :
    (others : List Text) (serial : Text) (fleet : Fleet)
    → Distinct fleet
    → Distinct (leave_all others serial fleet)
unfolding leave_all
leave_all-Distinct [] serial fleet d = d
leave_all-Distinct (other ∷ others) serial fleet d =
    leave_all-Distinct others serial (modify other (on_combat (remove_participant serial)) fleet) (
      modify-Distinct other (on_combat (remove_participant serial)) fleet
        (λ t e. keeps_remove serial t ∙ e) d)

linked-end_links :
    (fleet : Fleet) (serial : Text) (s : Submarine) (x y : Text)
    → find_by_serial serial fleet ≡ some s
    → linked (end_links s fleet) x y
      ≡ (linked fleet x y && not (linked fleet serial x && same serial y))
unfolding end_links has has_participant serial_of base_of
linked-end_links fleet serial (research r) x y e = ground (arith, linked-has fleet serial x, e)
linked-end_links fleet serial (combat c) x y e = ground (
  arith,
  linked-has fleet serial x,
  e,
  find-serial serial fleet (combat c) e,
  linked-leave_all c.participating c.base.serial_number fleet x y,
)

linked-end_found :
    (fleet : Fleet) (serial : Text) (s : Submarine) (x y : Text)
    → find_by_serial serial fleet ≡ some s
    → linked (modify serial end_one (end_links s fleet)) x y
      ≡ (linked fleet x y && not (linked fleet serial x && same serial y) && not (same serial x))
linked-end_found fleet serial s x y e =
    ground (arith, linked-end serial (end_links s fleet) x y, linked-end_links fleet serial s x y e)

-- Once the mission of an assigned submarine of a consistent fleet has ended, the submarine is in no
-- list and has no list, and between all others nothing has changed.
pub end_found-linked :
    (fleet : Fleet) (serial : Text) (s : Submarine) (x y : Text)
    → IsConsistent fleet
    → find_by_serial serial fleet ≡ some s
    → is_assigned s ≡ true
    → linked (end_found fleet serial (find_by_serial serial fleet)).0 x y
      ≡ (linked fleet x y && not (same serial x) && not (same serial y))
unfolding end_found
end_found-linked fleet serial s x y c e is =
    ground
      (arith, e, is, linked-end_found fleet serial s x y e, c.symmetric serial x, same→eq serial y)

assigned-end_links :
    (fleet : Fleet) (s : Submarine) (x : Text) → assigned (end_links s fleet) x ≡ assigned fleet x
unfolding end_links
assigned-end_links fleet (research r) x = refl
assigned-end_links fleet (combat c) x =
    assigned-leave_all c.participating c.base.serial_number fleet x

end_links-Distinct : (fleet : Fleet) (s : Submarine) → Distinct fleet → Distinct (end_links s fleet)
unfolding end_links
end_links-Distinct fleet (research r) d = d
end_links-Distinct fleet (combat c) d =
    leave_all-Distinct c.participating c.base.serial_number fleet d

assigned-ended :
    (fleet : Fleet) (serial : Text) (s : Submarine) (x : Text)
    → same serial x ≡ false
    → assigned (modify serial end_one (end_links s fleet)) x ≡ assigned fleet x
assigned-ended fleet serial s x e = ground (
  arith,
  assigned-modify serial end_one (end_links s fleet) x (λ t h. keeps_end t ∙ h),
  assigned-end_links fleet s x,
)

ended-IsConsistent :
    (fleet : Fleet) (serial : Text) (s : Submarine)
    → IsConsistent fleet
    → find_by_serial serial fleet ≡ some s
    → IsConsistent (modify serial end_one (end_links s fleet))
ended-IsConsistent fleet serial s c e = record {
  symmetric = λ x y. ground (
    arith,
    linked-end_found fleet serial s x y e,
    linked-end_found fleet serial s y x e,
    c.symmetric x y,
    c.symmetric serial x,
    c.symmetric serial y,
    same→eq serial x,
    same→eq serial y,
  );
  irreflexive = λ x. ground (arith, linked-end_found fleet serial s x x e, c.irreflexive x);
  active = λ x y l. ground (
    arith,
    linked-end_found fleet serial s x y e,
    c.active x y,
    assigned-ended fleet serial s x,
    l,
  );
  distinct =
      modify-Distinct serial end_one (end_links s fleet) (λ t h. keeps_end t ∙ h)
        (end_links-Distinct fleet s c.distinct);
}

end_case-IsConsistent :
    (fleet : Fleet) (serial : Text) (found : Option Submarine)
    → IsConsistent fleet
    → find_by_serial serial fleet ≡ found
    → IsConsistent (end_found fleet serial found).0
unfolding end_found
end_case-IsConsistent fleet serial none c e = c
end_case-IsConsistent fleet serial (some s) c e =
    elim (is_assigned s)
      as (λ is.
        IsConsistent
          (if◌then◌else◌ {A = Done} is (modify serial end_one (end_links s fleet), mission_ended)
            (fleet, not_assigned)).0) [ true ↦ ended-IsConsistent fleet serial s c e | false ↦ c ]

-- Fleet::EndMission keeps the invariant, whichever serial number is typed in.
pub end_found-IsConsistent :
    (fleet : Fleet) (serial : Text)
    → IsConsistent fleet
    → IsConsistent (end_found fleet serial (find_by_serial serial fleet)).0
end_found-IsConsistent fleet serial c =
    end_case-IsConsistent fleet serial (find_by_serial serial fleet) c refl
