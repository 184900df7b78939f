-- ===== src/Store/Files/Rotation.antt =====
-- data_collection.cpp: RotateIfNeeded, and what is stored and read back.
use embedded_project_pc.Common.{
  ◌+◌, ◌≤◌, ◌<◌, ◌≡◌, refl, ap, ◌∙◌, ◌⊎◌, inl, inr, List, [], ◌∷◌, ◌++◌, true, false, length, leb,
  if◌then◌else◌, All, All-weaker, le_or_lt, subst, arith,
}
use embedded_project_pc.Common.Text.{Text, same, same_refl}
use embedded_project_pc.Store.{newline}
use embedded_project_pc.Store.Files.{
  File, less, max_files, insert, sort, erase, remove_front, rotate, write_file, append_line,
}
use embedded_project_pc.Store.Files.Order.{Earlier, less_irrefl, less_asym, sort-All}
use embedded_project_pc.Store.Files.Today.{Dated}

erase-All :
    (P : File → Type 0) (name : Text) (files : List File) → All P files → All P (erase name files)
unfolding erase
erase-All P name [] hs = hs
erase-All P name (f ∷ files) (h, hs) =
    elim (same f.name name) as (λ b. All P (if b then files else f ∷ erase name files)) [
      | true ↦ hs
      | false ↦ (h, erase-All P name files hs)
    ]

Earlier-Dated : (today : Text) (files : List File) → All (Earlier today) files → Dated today files
Earlier-Dated today [] h = h
Earlier-Dated today (f ∷ files) (e, h) = inl (e, Earlier-Dated today files h)

erase-Dated :
    (today name : Text) (files : List File) → Dated today files → Dated today (erase name files)
unfolding erase
erase-Dated today name [] h = h
erase-Dated today name (f ∷ files) (inl (e, h)) =
    elim (same f.name name) as (λ b. Dated today (if b then files else f ∷ erase name files)) [
      | true ↦ h
      | false ↦ inl (e, erase-Dated today name files h)
    ]
erase-Dated today name (f ∷ files) (inr (e, h)) =
    elim (same f.name name) as (λ b. Dated today (if b then files else f ∷ erase name files)) [
      | true ↦ Earlier-Dated today files h
      | false ↦ inr (e, erase-All (Earlier today) name files h)
    ]

-- What holds of a directory and of it without any one file, holds after RotateIfNeeded.
rotate-keeps :
    (Q : List File → Type 0) (files : List File)
    → Q files
    → ((name : Text) → Q (erase name files))
    → Q (rotate files)
unfolding rotate remove_front
rotate-keeps Q files h hs =
    elim (leb (length files) max_files)
      as (λ b. Q (if b then files else remove_front (sort files) files)) [
        | true ↦ h
        | false ↦ front (sort files)
      ]
  where
    front : (sorted : List File) → Q (remove_front sorted files)
    front [] = h
    front (f ∷ sorted) = hs f.name

pub rotate-Dated :
    (today : Text) (files : List File) → Dated today files → Dated today (rotate files)
rotate-Dated today files h =
    rotate-keeps (Dated today) files h (λ name. erase-Dated today name files h)

pub rotate-All : (P : File → Type 0) (files : List File) → All P files → All P (rotate files)
rotate-All P files h = rotate-keeps (All P) files h (λ name. erase-All P name files h)

-- A file of the directory has the name.
abbrev pub Occurs : Text → List File → Type 0
Occurs name [] = ⊥
Occurs name (f ∷ files) = (same f.name name ≡ true) ⊎ Occurs name files

length-erase :
    (name : Text) (files : List File)
    → Occurs name files
    → length (erase name files) + 1 ≡ length files
unfolding erase
length-erase name [] h = elim h [ ]
length-erase name (f ∷ files) (inl e) = ground (arith, e)
length-erase name (f ∷ files) (inr h) =
    elim (same f.name name)
      as (λ b. length (if b then files else f ∷ erase name files) + 1 ≡ length (f ∷ files)) [
        | true ↦ omega arith
        | false ↦ omega (arith, length-erase name files h)
      ]

Occurs-more :
    (f : File) (files : List File)
    → All (λ (g : File). Occurs g.name files) files
    → All (λ (g : File). Occurs g.name (f ∷ files)) files
Occurs-more f files hs =
    All-weaker (λ (g : File). Occurs g.name files) (λ (g : File). Occurs g.name (f ∷ files)) files
      (λ g h. inr h) hs

All-Occurs : (files : List File) → All (λ (f : File). Occurs f.name files) files
All-Occurs [] = _
All-Occurs (f ∷ files) = (inl (same_refl f.name), Occurs-more f files (All-Occurs files))

-- No file of the directory is older.
abbrev pub Least : File → List File → Type 0
Least f files = All (λ (g : File). less g.name f.name ≡ false) files

not_less_trans : (r s t : Text) → less r s ≡ false → less s t ≡ false → less r t ≡ false
unfolding less
not_less_trans r s [] h k = ground arith
not_less_trans r [] (c ∷ t) h k = ground (arith, h, k)
not_less_trans [] (b ∷ s) (c ∷ t) h k = ground (arith, h, k)
not_less_trans (a ∷ r) (b ∷ s) (c ∷ t) h k = ground (arith, h, k, not_less_trans r s t)

-- The first of the sorted files is the oldest one.
front-Least :
    (files : List File)
    → 0 < length files
    → (f : File) × ((sorted : List File) × ((sort files ≡ f ∷ sorted) × Least f files))
unfolding sort insert
front-Least [] h = absurd (omega arith)
front-Least (f ∷ []) h = (f, ([], (refl, (less_irrefl f.name, _))))
front-Least (f ∷ (x ∷ files)) h =
    let (g, (sorted, (e, least))) = front-Least (x ∷ files) (omega arith) in
    elim (less g.name f.name)
        as (λ b.
          less g.name f.name ≡ b
          → (f' : File) × ((sorted' : List File) × ((insert f (sort (x ∷ files)) ≡ f' ∷ sorted')
                × Least f' (f ∷ (x ∷ files))))) [
                  | true ↦ (λ lt. (
                    g,
                    (
                      insert f sorted,
                      (
                        ap (insert f) e
                            ∙ ap (λ b. if b then g ∷ insert f sorted else f ∷ (g ∷ sorted)) lt,
                        (less_asym g.name f.name lt, least),
                      ),
                    ),
                  ))
                  | false ↦ (λ ge. (
                    f,
                    (
                      g ∷ sorted,
                      (
                        ap (insert f) e
                            ∙ ap (λ b. if b then g ∷ insert f sorted else f ∷ (g ∷ sorted)) ge,
                        (
                          less_irrefl f.name,
                          All-weaker (λ (k : File). less k.name g.name ≡ false)
                              (λ (k : File). less k.name f.name ≡ false) (x ∷ files)
                              (λ k l. not_less_trans k.name g.name f.name l ge) least,
                        ),
                      ),
                    ),
                  ))
                ]
      refl

-- RotateIfNeeded leaves a directory of at most seven files alone, and takes one file out of every
-- other, of which no file of the directory is older.
pub rotate-oldest :
    (files : List File)
    → ((length files ≤ max_files) × (rotate files ≡ files))
      ⊎ ((max_files < length files)
          × ((f : File) × (Least f files
                × ((rotate files ≡ erase f.name files)
                    × (length (rotate files) + 1 ≡ length files)))))
unfolding rotate remove_front
rotate-oldest files = elim (le_or_lt (length files) max_files) [
  | inl few ↦ inl (few, ground arith)
  | inr many ↦
      let (f, (sorted, (e, least))) = front-Least files (omega (arith, many)) in
      let present : Occurs f.name files =
        (subst (All (λ (g : File). Occurs g.name files)) e
          (sort-All (λ (g : File). Occurs g.name files) files (All-Occurs files))).0 in
      let erased : rotate files ≡ erase f.name files = ground (arith, many, e) in
      inr (
        many,
        (f, (least, (erased, ap (λ l. length l + 1) erased ∙ length-erase f.name files present))),
      )
]

length-write_file :
    (today line : Text) (files : List File)
    → length (write_file today line files) ≤ length files + 1
unfolding write_file
length-write_file today line [] = omega arith
length-write_file today line (f ∷ files) =
    elim (same f.name today)
      as (λ b.
        length (
          if b
          then record f { content = f.content ++ line } ∷ files
          else f ∷ write_file today line files)
        ≤ length (f ∷ files) + 1) [
          | true ↦ omega arith
          | false ↦ omega (arith, length-write_file today line files)
        ]

-- A directory never comes to have more than eight files.
pub length-append_line :
    (today line : Text) (files : List File)
    → length files ≤ max_files + 1
    → length (append_line today line files) ≤ max_files + 1
unfolding append_line
length-append_line today line files h =
    let written = length-write_file today (line ++ newline ∷ []) (rotate files) in
    elim (rotate-oldest files) [
      | inl (few, e) ↦ omega (arith, written, few, ap (λ l. length l) e)
      | inr (many, (f, (least, (e, shorter)))) ↦ omega (arith, written, h, shorter)
    ]
