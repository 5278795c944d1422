-- ===== src/Redaction.antt =====
-- apps/api/app/event_redaction.py, and the runner's `redact` (apps/runner/kelpie_runner/main.py): the
-- telemetry of a worker without its credential fields and without its lease.
pub mod Telemetry
pub mod Replace
pub mod Agreement
use Prim.Native.String.{String, [], ◌∷◌}
use Prim.Native.Nat.{zero, ◌-◌}
use Prim.Native.Char.{code}
use dev_agent.Base.{
  ℕ, suc, Bool, true, false, List, [], ◌∷◌, ◌&&◌, ◌||◌, nat_beq, if◌then◌else◌, length, ◌≡◌, refl,
}

-- A text by its code points.
abbrev pub Text : Type 0
Text = List ℕ

unfoldable pub codes : String → Text
codes [] = []
codes (c ∷ s) = code c ∷ codes s

abbrev pub text_beq : Text → Text → Bool
text_beq [] [] = true
text_beq [] (d ∷ t) = false
text_beq (c ∷ s) [] = false
text_beq (c ∷ s) (d ∷ t) = nat_beq c d && text_beq s t

-- `s.startswith(p)`
unfoldable pub starts : (p s : Text) → Bool
starts [] s = true
starts (c ∷ p) [] = false
starts (c ∷ p) (d ∷ s) = nat_beq c d && starts p s

-- `p in s`
unfoldable pub occurs : (p s : Text) → Bool
unfolding starts
occurs p [] = starts p []
occurs p (c ∷ s) = starts p (c ∷ s) || occurs p s

unfoldable pub append : Text → Text → Text
append [] t = t
append (c ∷ s) t = c ∷ append s t

-- `s.replace(old, new)` for a non-empty `old`: from left to right, the first `skip` characters
-- belonging to an occurrence that has been replaced.
unfoldable pub replace_from : (old new : Text) → (skip : ℕ) → Text → Text
unfolding starts append
replace_from old new skip [] = []
replace_from old new zero (c ∷ s) =
    let past = replace_from old new (length old - 1) s in
    let next = replace_from old new 0 s in if starts old (c ∷ s) then append new past else c ∷ next
replace_from old new (suc k) (c ∷ s) = replace_from old new k s

-- "[REDACTED]"
abbrev pub marker : Text
marker = 91 ∷ 82 ∷ 69 ∷ 68 ∷ 65 ∷ 67 ∷ 84 ∷ 69 ∷ 68 ∷ 93 ∷ []

marker_reads : marker ≡ codes "[REDACTED]"
unfolding codes
marker_reads = refl

unfoldable pub replace_all : (old : Text) → Text → Text
unfolding replace_from
replace_all old s = replace_from old marker 0 s

-- `.replace("_", "").replace("-", "")`
unfoldable pub drop_marks : Text → Text
drop_marks [] = []
drop_marks (c ∷ s) =
    let rest = drop_marks s in if nat_beq c 95 || nat_beq c 45 then rest else c ∷ rest
