-- ===== src/Receiver/Start/Names.antt =====
-- The file names that a receiver takes.
use mathlib.Core.List.{append_assoc, append-nil}
use mathlib.Core.Path.{subst}
use site_repair_cast.Common.{
  ap, ok_injective, Result, ◌||◌, ◌==◌, if-cases, refl, ◌∙◌, arith, sym, ◌∷◌, ◌↔◌, [], ◌++◌, ◌≡◌,
  ◌≢◌, All, ℕ, List, true, false, ok,
}
use site_repair_cast.Receiver.Machine.{same_name}
use site_repair_cast.Receiver.Machine.Paths.{
  same_name_refl, same_name_differs, same_name_apart, same_name_sound,
}
use site_repair_cast.Receiver.Start.{safe_received_file_name, filename_from}

abbrev pub NoSeparator : List ℕ → Type 0
NoSeparator name = All (λ c. c ≢ 47) name

NoSeparator-snoc :
    (before : List ℕ) (c : ℕ) → NoSeparator before → c ≢ 47 → NoSeparator (before ++ (c ∷ []))
NoSeparator-snoc [] c h other = (other, tt)
NoSeparator-snoc (b ∷ before) c h other = (h.0, NoSeparator-snoc before c h.1 other)

-- `last` is what stands behind the last separator so far, and `before` its part that was read.
filename_from-NoSeparator :
    (before name last : List ℕ)
    → last ≡ before ++ name
    → NoSeparator before
    → NoSeparator (filename_from last name)
unfolding filename_from
filename_from-NoSeparator before [] last e h =
    subst (λ (l : List ℕ). NoSeparator l) (sym (e ∙ append-nil before)) h
filename_from-NoSeparator before (c ∷ name) last e h =
    if-cases (λ (l : List ℕ). NoSeparator l) (c == 47)
      (λ _. filename_from-NoSeparator [] name name refl tt)
      (λ other.
        filename_from-NoSeparator (before ++ (c ∷ [])) name last
          (e ∙ sym (append_assoc before (c ∷ []) name))
          (NoSeparator-snoc before c h (ground arith)))

abbrev pub PlainName : List ℕ → List ℕ → Type 0
PlainName file_name safe_name =
    (safe_name ≡ file_name)
    × NoSeparator file_name
    × (file_name ≢ [])
    × (file_name ≢ 46 ∷ [])
    × (file_name ≢ 46 ∷ 46 ∷ [])

filename_from-plain : (last name : List ℕ) → NoSeparator name → filename_from last name ≡ last
unfolding filename_from
filename_from-plain last [] h = refl
filename_from-plain last (c ∷ name) h =
    if-cases (λ (l : List ℕ). l ≡ last) (c == 47) (λ bar. absurd (h.0 (ground arith)))
      (λ _. filename_from-plain last name h.1)

-- A file name of FILE_META is taken exactly when it is not empty, not `.` or `..` and has no `/`,
-- and it is taken as it is; any other name is an error.
pub safe_received_file_name_iff :
    (file_name safe_name : List ℕ)
    → (safe_received_file_name file_name ≡ ok safe_name) ↔ PlainName file_name safe_name
unfolding safe_received_file_name
safe_received_file_name_iff file_name safe_name = (taken, kept)
  where
    last : List ℕ
    last = filename_from file_name file_name

    taken : safe_received_file_name file_name ≡ ok safe_name → PlainName file_name safe_name
    taken h =
        let whole : same_name last file_name ≡ true = ground arith in
        let named : (same_name last [] || same_name last (46 ∷ []) || same_name last (46 ∷ 46 ∷ []))
            ≡ false =
          ground arith in
        let same : last ≡ file_name = same_name_sound last file_name whole in
        let result : ◌≡◌ {A = Result (List ℕ)} (ok last) (ok safe_name) =
          (rw (named, whole) at h) in
        (
          sym (ok_injective result) ∙ same,
          subst (λ (l : List ℕ). NoSeparator l) same
              (filename_from-NoSeparator [] file_name file_name refl tt),
          (λ e. same_name_apart last [] (ground arith) (same ∙ e)),
          (λ e. same_name_apart last (46 ∷ []) (ground arith) (same ∙ e)),
          (λ e. same_name_apart last (46 ∷ 46 ∷ []) (ground arith) (same ∙ e)),
        )

    kept : PlainName file_name safe_name → safe_received_file_name file_name ≡ ok safe_name
    kept (same, plain, not_empty, not_dot, not_dots) =
        let last_same : last ≡ file_name = filename_from-plain file_name file_name plain in
        rw
          (
            last_same,
            same_name_differs file_name [] not_empty,
            same_name_differs file_name (46 ∷ []) not_dot,
            same_name_differs file_name (46 ∷ 46 ∷ []) not_dots,
            same_name_refl file_name,
          )
          (ap ok (sym same))
