-- ===== src/Store/Files/Today.antt =====
-- data_collection.cpp: a line that is written to the day's file is the last of all lines.
use embedded_project_pc.Common.{
  ◌≡◌, refl, ◌⊎◌, inl, inr, List, [], ◌∷◌, ◌++◌, true, false, All, arith,
}
use embedded_project_pc.Common.Text.{Text, same, same_refl, same→eq}
use embedded_project_pc.Store.Files.{File, write_file}
use embedded_project_pc.Store.Files.Order.{Earlier, less_irrefl}

-- No file is of a later day, and one at most is of this day.
abbrev pub Dated : Text → List File → Type 0
Dated today [] = Unit
Dated today (f ∷ files) =
    (Earlier today f × Dated today files) ⊎ ((f.name ≡ today) × All (Earlier today) files)

-- Where the line goes: the day's file with its content so far, which is empty if it is new.
pub record Written (today line : Text) (files : List File) : Type 0 where
  pub before : List File
  pub after : List File
  pub content : Text
  pub before_earlier : All (Earlier today) before
  pub after_earlier : All (Earlier today) after
  pub written :
      write_file today line files
      ≡ before ++ record { name = today; content = content ++ line } ∷ after
  pub was :
      (files ≡ before ++ record { name = today; content = content } ∷ after)
      ⊎ ((files ≡ before ++ after) × (content ≡ []))

pub Earlier-same : (today : Text) (f : File) → Earlier today f → same f.name today ≡ false
Earlier-same today f e =
    elim (same f.name today) as (λ b. same f.name today ≡ b → b ≡ false) [
      | true ↦ (λ h. ground (arith, less_irrefl today, same→eq f.name today h, e))
      | false ↦ (λ h. refl)
    ]
      refl

pub write_file-Written :
    (today line : Text) (files : List File) → Dated today files → Written today line files
unfolding write_file
write_file-Written today line [] h = record {
  before = [];
  after = [];
  content = [];
  before_earlier = _;
  after_earlier = _;
  written = refl;
  was = inr (refl, refl);
}
write_file-Written today line (f ∷ files) (inl (e, h)) =
    let w = write_file-Written today line files h in
    record {
      before = f ∷ w.before;
      after = w.after;
      content = w.content;
      before_earlier = (e, w.before_earlier);
      after_earlier = w.after_earlier;
      written = ground (arith, Earlier-same today f e, w.written);
      was = ground (arith, w.was);
    }
write_file-Written today line (f ∷ files) (inr (e, h)) = record {
  before = [];
  after = files;
  content = f.content;
  before_earlier = _;
  after_earlier = h;
  written = ground (arith, e, same_refl today);
  was = inl (ground (arith, e));
}
