-- ===== src/Prelude/Texts.antt =====
-- Texts as lists of code points, where the source looks inside them.
use Prim.Native.Nat.{ℕ}
use Prim.Native.Char.{code}
use Prim.Native.String.{String}
use mathlib.Core.Bool.{Bool, true, false, ◌&&◌, ◌||◌}
use Prim.Native.Nat.{◌+◌}
use mathlib.Core.List.{List, [], ◌∷◌, reverse}
use pi_multi_orchestrator.Prelude.Tests.{if◌then◌else◌, ◌==◌, leb}

abbrev pub codes : String → List ℕ
codes String.[] = []
codes (String.◌∷◌ c s) = code c ∷ codes s

-- `text.startsWith(prefix)` and `text.includes(part)`.
abbrev pub starts_with : List ℕ → List ℕ → Bool
starts_with xs [] = true
starts_with [] (p ∷ ps) = false
starts_with (x ∷ xs) (p ∷ ps) = (x == p) && starts_with xs ps

abbrev pub contains : List ℕ → List ℕ → Bool
contains [] part = starts_with [] part
contains (x ∷ xs) part = starts_with (x ∷ xs) part || contains xs part

-- `left === right`.
abbrev pub same : List ℕ → List ℕ → Bool
same [] [] = true
same (x ∷ xs) (y ∷ ys) = (x == y) && same xs ys
same _ _ = false

-- White space, as `\s` and `trim` take it.
abbrev pub is_space : ℕ → Bool
is_space c =
    (leb 9 c && leb c 13)
    || c == 32
    || c == 160
    || c == 5760
    || (leb 8192 c && leb c 8202)
    || c == 8232
    || c == 8233
    || c == 8239
    || c == 8287
    || c == 12288
    || c == 65279

abbrev pub trim_start : List ℕ → List ℕ
trim_start [] = []
trim_start (c ∷ cs) = if is_space c then trim_start cs else c ∷ cs

-- `text.trim()`.
abbrev pub trim : List ℕ → List ℕ
trim cs = reverse (trim_start (reverse (trim_start cs)))

-- The same on texts: `text.replace(/[...]/gu, "")` without the code points that pass the test.
abbrev pub without_codes : (ℕ → Bool) → String → String
without_codes drops String.[] = String.[]
without_codes drops (String.◌∷◌ c s) =
    let rest = without_codes drops s in if drops (code c) then rest else String.◌∷◌ c rest

abbrev pub trim_left : String → String
trim_left String.[] = String.[]
trim_left (String.◌∷◌ c s) = if is_space (code c) then trim_left s else String.◌∷◌ c s

abbrev pub is_empty_text : String → Bool
is_empty_text String.[] = true
is_empty_text (String.◌∷◌ c s) = false

abbrev pub trim_right : String → String
trim_right String.[] = String.[]
trim_right (String.◌∷◌ c s) =
    let rest = trim_right s in
    if is_space (code c) && is_empty_text rest then String.[] else String.◌∷◌ c rest

abbrev pub trim_text : String → String
trim_text s = trim_right (trim_left s)

-- `text.length`, in UTF-16 units.
abbrev pub units : String → ℕ
units String.[] = 0
units (String.◌∷◌ c s) = (if leb 65536 (code c) then 2 else 1) + units s
