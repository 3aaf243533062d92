-- ===== src/Builtin/FileEdit/Laws.antt =====
-- What file_edit of tools/fileedit.go promises.
use mathlib.Core.Path.{subst}
use emberbox.Prelude.{
  is_empty, length, text_eq, Bool-cases, inr, inl, has_prefix, drop, ◌∙◌, ◌||◌, sym,
  has_prefix_splits, ◌≢◌, ◌⊎◌, Text, ℕ, zero, suc, ◌-◌, ◌++◌, ◌∷◌, [], true, false, Option, none,
  some, ◌≡◌, refl, ap, arith,
}
use emberbox.Errors.{Result-cases, Result, ok, Error}
use emberbox.Tool.{ToolResult}
use emberbox.Builtin.{Files}
use emberbox.Builtin.FileEdit.{
  edited, after_read, after_count, FileEditInput, count, count_from, replace_first, edit,
}

count_from-drop : (k : ℕ) (s sub : Text) → count_from k s sub ≡ count (drop k s) sub
unfolding count_from
count_from-drop zero s sub = refl
count_from-drop (suc k) [] sub = refl
count_from-drop (suc k) (a ∷ s) sub = count_from-drop k s sub

-- A string that is counted once stands at one place: the replacement changes that place alone, and
-- the string does not occur after it.
count_once :
    (s old new : Text)
    → old ≢ []
    → count s old ≡ 1
    → (before after : Text) × (s ≡ before ++ (old ++ after))
      × (replace_first s old new ≡ before ++ (new ++ after))
      × (count after old ≡ 0)
unfolding count_from replace_first
count_once s [] new named once = absurd (named refl)
count_once [] (b ∷ old) new named once = cc
count_once (a ∷ s) (b ∷ old) new named once = elim (Bool-cases (has_prefix (a ∷ s) (b ∷ old))) [
  | inl e ↦
      let counted = rw (count_from, e) at once in
      let shorter : suc (length old) - 1 ≡ length old = omega arith in
      let tail : suc (count_from (length old) s (b ∷ old)) ≡ 1 = rw (← shorter) counted in
      (
        [],
        drop (length old) s,
        has_prefix_splits (a ∷ s) (b ∷ old) e,
        rw e refl,
        rw (← count_from-drop (length old) s (b ∷ old)) (omega (arith, tail)),
      )
  | inr e ↦
      let (before, after, split, replaced, gone) =
        count_once s (b ∷ old) new named (rw (count_from, e) at once) in
      (a ∷ before, after, ap (λ r. a ∷ r) split, rw (replace_first, e, replaced) refl, gone)
]

module _ {W : Type 0} (files : Files W) where
  -- One place of the file is edited, and the tool says so.
  abbrev pub IsEdited : FileEditInput → W → ToolResult × W → Type 0
  IsEdited inp w (r, w') =
      (before after : Text) × (files.read_file inp.path w
        ≡ ok (before ++ (inp.old_string ++ after)))
      × (count after inp.old_string ≡ 0)
      × (files.write_file inp.path (before ++ (inp.new_string ++ after)) w ≡ (none, w'))
      × (r.is_error ≡ false)

  -- Nothing is written, and the tool reports an error.
  abbrev pub IsRefused : W → ToolResult × W → Type 0
  IsRefused w (r, w') = (w' ≡ w) × (r.is_error ≡ true)

  -- The write itself fails, and the tool reports that.
  abbrev pub IsUnwritten : FileEditInput → W → ToolResult × W → Type 0
  IsUnwritten inp w (r, w') =
      (content : Text) × (e : Error) × (files.write_file inp.path content w ≡ (some e, w'))
      × (r.is_error ≡ true)

  abbrev pub EditOutcome : FileEditInput → W → ToolResult × W → Type 0
  EditOutcome inp w out = IsEdited inp w out ⊎ (IsRefused w out ⊎ IsUnwritten inp w out)

  module _ (unmarshal : Text → Result FileEditInput) where
    edited-EditOutcome :
        (inp : FileEditInput) (w : W) (before after : Text) (out : Option Error × W)
        → files.read_file inp.path w ≡ ok (before ++ (inp.old_string ++ after))
        → count after inp.old_string ≡ 0
        → files.write_file inp.path (before ++ (inp.new_string ++ after)) w ≡ out
        → EditOutcome inp w (edited files unmarshal inp out)
    edited-EditOutcome inp w before after (some e, w') read gone wrote =
        inr (inr (_, e, wrote, refl))
    edited-EditOutcome inp w before after (none, w') read gone wrote =
        inl (before, after, read, gone, wrote, refl)

    after_count-EditOutcome :
        (inp : FileEditInput) (content : Text) (n : ℕ) (w : W)
        → inp.old_string ≢ []
        → files.read_file inp.path w ≡ ok content
        → count content inp.old_string ≡ n
        → EditOutcome inp w (after_count files unmarshal inp content n w)
    after_count-EditOutcome inp content zero w named read counted = inr (inl (refl, refl))
    after_count-EditOutcome inp content (suc (suc n)) w named read counted = inr (inl (refl, refl))
    after_count-EditOutcome inp content (suc zero) w named read counted =
        let (before, after, split, replaced, gone) =
          count_once content inp.old_string inp.new_string named counted in
        edited-EditOutcome inp w before after _ (read ∙ ap ok split) gone (rw replaced refl)

    after_read-EditOutcome :
        (inp : FileEditInput) (w : W)
        → inp.old_string ≢ []
        → EditOutcome inp w (after_read files unmarshal inp (files.read_file inp.path w) w)
    after_read-EditOutcome inp w named = elim (Result-cases (files.read_file inp.path w)) [
      | inl (content, e) ↦
          subst (λ r. EditOutcome inp w (after_read files unmarshal inp r w)) (sym e)
            (after_count-EditOutcome inp content _ w named e refl)
      | inr (x, e) ↦
          subst (λ r. EditOutcome inp w (after_read files unmarshal inp r w)) (sym e)
            (inr (inl (refl, refl)))
    ]

    -- For every input: either the file held the old string, with no later occurrence, and now
    -- holds the new one in its place and is otherwise the same; or nothing was written and the
    -- tool reports an error; or the write failed and the tool reports that.
    pub edit-EditOutcome :
        (inp : FileEditInput) (w : W) → EditOutcome inp w (edit files unmarshal inp w)
    unfolding edit
    edit-EditOutcome inp w = elim (Bool-cases (is_empty inp.path || is_empty inp.old_string)) [
      | inl e ↦ inr (inl (rw e (refl, refl)))
      | inr e ↦ elim (Bool-cases (text_eq inp.old_string inp.new_string)) [
        | inl g ↦ inr (inl (rw (e, g) (refl, refl)))
        | inr g ↦
            rw (e, g)
              (after_read-EditOutcome inp w (λ empty. let no = rw empty at e in ground arith))
      ]
    ]
