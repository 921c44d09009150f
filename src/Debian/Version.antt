-- ===== src/Debian/Version.antt =====
-- What getFirmwareVersion of DebianPackageInstaller.cpp makes of the output of its command.
use wolk_connect_task.Prelude.{
  Text, ℕ, zero, suc, ◌≤◌, ◌≡◌, inl, inr, refl, ap, ◌∙◌, none, some, List, [], ◌∷◌, ◌++◌, length,
  take, drop, nat_eq, ◌==◌, arith, if◌then◌else◌, Option-cases,
}
use wolk_connect_task.Downloader.Url.{find_char}
use wolk_connect_task.Debian.Installer.{
  Surroundings, DebianPackageInstaller, newline, remove_newlines, version_command,
  get_firmware_version,
}

-- The text without its newlines.
unfoldable pub without_newlines : Text → Text
without_newlines [] = []
without_newlines (c ∷ t) = let rest = without_newlines t in if c == newline then rest else c ∷ rest

without_newlines-absent : (t : Text) → find_char newline t ≡ none → without_newlines t ≡ t
unfolding without_newlines find_char
without_newlines-absent [] absent = refl
without_newlines-absent (c ∷ t) absent = ground (arith, without_newlines-absent t)

-- One round of the loop: a newline less, and the same text without newlines.
without_newlines-round :
    (t : Text) (i : ℕ)
    → find_char newline t ≡ some i
    → (without_newlines (take i t ++ drop (suc i) t) ≡ without_newlines t)
      × (suc (length (take i t ++ drop (suc i) t)) ≡ length t)
unfolding without_newlines find_char
without_newlines-round [] i found = cc
without_newlines-round (c ∷ t) zero found = ground arith
without_newlines-round (c ∷ t) (suc i) found = ground (arith, without_newlines-round t i)

-- As many rounds as there are characters are enough.
pub remove_newlines-eq :
    (fuel : ℕ) (t : Text) → length t ≤ fuel → remove_newlines fuel t ≡ without_newlines t
unfolding remove_newlines without_newlines
remove_newlines-eq zero [] enough = ground arith
remove_newlines-eq zero (c ∷ t) enough = absurd (omega arith)
remove_newlines-eq (suc fuel) t enough = elim (Option-cases (find_char newline t)) [
  | inl absent ↦ ground (arith, without_newlines-absent t absent)
  | inr (i, found) ↦
      let (same, less) = without_newlines-round t i found in
      ground (arith, remove_newlines-eq fuel (take i t ++ drop (suc i) t) (omega arith))
]

without_newlines-append :
    (t u : Text) → without_newlines (t ++ u) ≡ without_newlines t ++ without_newlines u
unfolding without_newlines
without_newlines-append [] u = refl
without_newlines-append (c ∷ t) u = ground (arith, without_newlines-append t u)

-- The lines that a command writes.
abbrev pub lines : List Text → Text
lines [] = []
lines (t ∷ ts) = t ++ newline ∷ lines ts

abbrev pub joined : List Text → Text
joined [] = []
joined (t ∷ ts) = without_newlines t ++ joined ts

without_newlines-lines : (ts : List Text) → without_newlines (lines ts) ≡ joined ts
unfolding without_newlines native.Mathlib.Decide.ℕ_discrete
without_newlines-lines [] = refl
without_newlines-lines (t ∷ ts) =
    without_newlines-append t (newline ∷ lines ts)
    ∙ ap (λ u. without_newlines t ++ u) (without_newlines-lines ts)

-- The version is all that the command writes, the lines run together: when the name of the service
-- stands in the lines of several packages, it is their versions one behind the other.
get_firmware_version-lines :
    {V : Type 0} (e : Surroundings V) (s : DebianPackageInstaller V) (ts : List Text)
    → e.command_output (version_command s) ≡ some (lines ts)
    → get_firmware_version e s ≡ joined ts
unfolding get_firmware_version
get_firmware_version-lines e s ts written =
    ground (arith, remove_newlines-eq (length (lines ts)) (lines ts), without_newlines-lines ts)
