-- ===== src/Store/Files/Stored.antt =====
-- data_collection.cpp: the lines of a directory after a line was written.
use embedded_project_pc.Common.{
  ◌==◌, ◌<◌, ◌≡◌, refl, sym, ap, subst, ◌∙◌, ◌⊎◌, inl, inr, List, [], ◌∷◌, ◌++◌, append_assoc,
  append-nil, false, length, All, arith,
}
use embedded_project_pc.Common.Text.{Text}
use embedded_project_pc.Store.{newline}
use embedded_project_pc.Store.Files.{
  File, sort, write_file, end_line, split_lines, files_lines, read_all_lines,
}
use embedded_project_pc.Store.Files.Order.{sort_last}
use embedded_project_pc.Store.Files.Today.{Dated, write_file-Written}

-- A content of whole lines, which is empty or ends in a newline.
abbrev pub Whole : Text → Type 0
Whole content = (content ≡ []) ⊎ ((c : Text) × (content ≡ c ++ newline ∷ []))

-- A line that is not empty and has no newline.
abbrev pub IsLine : Text → Type 0
IsLine line = (0 < length line) × All (λ c. (c == newline) ≡ false) line

end_line-append :
    (line : Text) (lines more : List Text)
    → end_line line (lines ++ more) ≡ end_line line lines ++ more
unfolding end_line
end_line-append [] lines more = refl
end_line-append (c ∷ line) lines more = refl

split_lines-append :
    (line content rest : Text)
    → split_lines line ((content ++ newline ∷ []) ++ rest)
      ≡ split_lines line (content ++ newline ∷ []) ++ split_lines [] rest
unfolding split_lines end_line
split_lines-append line [] rest = end_line-append line [] (split_lines [] rest)
split_lines-append line (c ∷ content) rest = ground (
  arith,
  split_lines-append [] content rest,
  split_lines-append (line ++ c ∷ []) content rest,
  end_line-append line (split_lines [] (content ++ newline ∷ [])) (split_lines [] rest),
)

split_lines-Whole :
    (content rest : Text)
    → Whole content
    → split_lines [] (content ++ rest) ≡ split_lines [] content ++ split_lines [] rest
unfolding split_lines end_line
split_lines-Whole content rest (inl e) = ground (arith, e)
split_lines-Whole content rest (inr (c, e)) = ground (arith, e, split_lines-append [] c rest)

end_line-line : (line : Text) → 0 < length line → end_line line [] ≡ line ∷ []
unfolding end_line
end_line-line [] h = ground arith
end_line-line (c ∷ line) h = refl

split_lines-line :
    (begun line : Text)
    → 0 < length (begun ++ line)
    → All (λ c. (c == newline) ≡ false) line
    → split_lines begun (line ++ newline ∷ []) ≡ (begun ++ line) ∷ []
unfolding split_lines
split_lines-line begun [] h hs = ground (arith, append-nil begun, end_line-line begun)
split_lines-line begun (c ∷ line) h (hc, hs) =
    ground (arith, hc, append_assoc begun (c ∷ []) line, split_lines-line (begun ++ c ∷ []) line)

files_lines-append :
    (before after : List File)
    → files_lines (before ++ after) ≡ files_lines before ++ files_lines after
unfolding files_lines
files_lines-append [] after = refl
files_lines-append (f ∷ before) after = ground (
  arith,
  files_lines-append before after,
  append_assoc (split_lines [] f.content) (files_lines before) (files_lines after),
)

-- The lines of the file that comes last.
last_file :
    (before : List File) (name content : Text)
    → files_lines (before ++ record { name = name; content = content } ∷ [])
      ≡ files_lines before ++ split_lines [] content
unfolding files_lines
last_file before name content =
    files_lines-append before (record { name = name; content = content } ∷ [])
    ∙ ap (λ l. files_lines before ++ l) (append-nil (split_lines [] content))

-- A line that is written to the day's file comes behind all lines of the directory.
pub read_all_lines-write_file :
    (today line : Text) (files : List File)
    → Dated today files
    → All (λ (f : File). Whole f.content) files
    → IsLine line
    → read_all_lines (write_file today (line ++ newline ∷ []) files)
      ≡ read_all_lines files ++ line ∷ []
unfolding read_all_lines
read_all_lines-write_file today line files dated whole (long, plain) =
    let text = line ++ newline ∷ [] in
    let w = write_file-Written today text files dated in
    let earlier = files_lines (sort (w.before ++ w.after)) in
    let whole_content : Whole w.content = elim w.was [
      | inl e ↦
          (All-middle w.before (record { name = today; content = w.content }) w.after
            (subst (All (λ (f : File). Whole f.content)) e whole))
      | inr (e, none_yet) ↦ inl none_yet
    ] in
    let before_it : files_lines (sort files) ≡ earlier ++ split_lines [] w.content = elim w.was [
      | inl e ↦
          ap (λ l. files_lines (sort l)) e
          ∙ ap files_lines (
              sort_last (record { name = today; content = w.content }) w.before w.after
                w.before_earlier w.after_earlier)
          ∙ last_file (sort (w.before ++ w.after)) today w.content
      | inr (e, none_yet) ↦
          ap (λ l. files_lines (sort l)) e
          ∙ sym (append-nil earlier)
          ∙ ap (λ c. earlier ++ split_lines [] c) (sym none_yet)
    ] in
    ap (λ l. files_lines (sort l)) w.written
    ∙ ap files_lines (
        sort_last (record { name = today; content = w.content ++ text }) w.before w.after
          w.before_earlier w.after_earlier)
    ∙ last_file (sort (w.before ++ w.after)) today (w.content ++ text)
    ∙ ap (λ l. earlier ++ l) (split_lines-Whole w.content text whole_content)
    ∙ ap (λ l. earlier ++ (split_lines [] w.content ++ l)) (split_lines-line [] line long plain)
    ∙ sym (append_assoc earlier (split_lines [] w.content) (line ∷ []))
    ∙ ap (λ l. l ++ line ∷ []) (sym before_it)
  where
    All-middle :
        (before : List File) (f : File) (after : List File)
        → All (λ (f : File). Whole f.content) (before ++ f ∷ after)
        → Whole f.content
    All-middle [] f after (h, hs) = h
    All-middle (g ∷ before) f after (h, hs) = All-middle before f after hs
