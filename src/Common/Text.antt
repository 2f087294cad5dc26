-- ===== src/Common/Text.antt =====
-- JavaScript texts: `String.prototype.trim` and the source's `normalizeRequiredString` and
-- `normalizeOptionalString`, which several services declare with the same body.
use Prim.Native.Char.{Char, code}
use Prim.Native.String.{String, [], ◌∷◌}
use Prim.Native.Nat.{ℕ, ◌+◌, ◌-◌}
use Prim.Native.String
use mathlib.Core.List.{List, [], ◌∷◌}
use mathlib.Core.Path.{◌≡◌, refl}
use mathlib.Core.Logic.{◌≢◌}
use mathlib.Core.Bool.{Bool, true, false, ◌&&◌, ◌||◌}
use mathlib.Core.Option.{Option, none, some}
use native.Mathlib.Omega.{arith}
use autobyteus_server_ts.Common.Tests.{leb, ◌==◌, if◌then◌else◌}

-- ECMAScript's white space and line terminators.
pub is_space : ℕ → Bool
is_space c =
    (leb 9 c && leb c 13)
    || c == 32
    || c == 160
    || c == 5760
    || (leb 8192 c && leb c 8202)
    || c == 8232
    || c == 8233
    || c == 8239
    || c == 8287
    || c == 12288
    || c == 65279

abbrev is_empty : String → Bool
is_empty [] = true
is_empty (c ∷ s) = false

unfoldable pub trim_start : String → String
unfolding is_space
trim_start [] = []
trim_start (c ∷ s) = if is_space (code c) then trim_start s else c ∷ s

-- A character goes only if it is white space and all behind it has gone.
abbrev keep : Char → String → String
unfolding is_space
keep c rest = if is_space (code c) && is_empty rest then [] else c ∷ rest

unfoldable pub trim_end : String → String
unfolding is_space
trim_end [] = []
trim_end (c ∷ s) = keep c (trim_end s)

unfoldable pub trim : String → String
unfolding trim_start trim_end
trim s = trim_end (trim_start s)

-- `value.trim()`, with the empty text told apart: where the source throws or answers `null`.
unfoldable pub normalize : String → Option String
normalize s = let t = trim s in if is_empty t then none else some t

-- `normalizeOptionalString`: `null` and blank texts are `null`.
unfoldable pub normalize_optional : Option String → Option String
normalize_optional none = none
normalize_optional (some s) = normalize s

abbrev keep_slash : Char → String → String
keep_slash c rest = if (code c == 47) && is_empty rest then [] else c ∷ rest

-- `replace(/\/+$/, "")`.
unfoldable pub strip_slashes : String → String
strip_slashes [] = []
strip_slashes (c ∷ s) = keep_slash c (strip_slashes s)

trim_end_idem : (s : String) → trim_end (trim_end s) ≡ trim_end s
unfolding trim_end
trim_end_idem [] = refl
trim_end_idem (c ∷ s) = ground (arith, trim_end_idem s)

trim_start-trim_end : (s : String) → trim_start (trim_end (trim_start s)) ≡ trim_end (trim_start s)
unfolding trim_start trim_end
trim_start-trim_end [] = refl
trim_start-trim_end (c ∷ s) = ground (arith, trim_start-trim_end s)

-- Trimming twice is trimming once.
pub trim_idem : (s : String) → trim (trim s) ≡ trim s
unfolding trim
trim_idem s = rw (trim_start-trim_end s) (trim_end_idem (trim_start s))

-- A text that a service keys its state by: trimmed, and not empty.
abbrev pub IsNormal : String → Type 0
IsNormal s = normalize s ≡ some s

pub normalize-IsNormal : (s t : String) → normalize s ≡ some t → IsNormal t
unfolding normalize
normalize-IsNormal s t h = ground (arith, trim_idem s)

pub IsNormal-ne-nil : (s : String) → IsNormal s → s ≢ ""
unfolding normalize trim
IsNormal-ne-nil s h e = cc (rw e at h)

-- The parts of a template literal, with a separator between them.
unfoldable pub join : String → List String → String
join sep [] = ""
join sep (s ∷ []) = s
join sep (s ∷ t ∷ ts) = String.◌++◌ s (String.◌++◌ sep (join sep (t ∷ ts)))

normalize_tests : (normalize "  a b " ≡ some "a b") × (normalize " \t" ≡ none)
unfolding normalize trim
normalize_tests = (refl, refl)

-- How many UTF-16 units a text has: its `length`.
abbrev units : Char → ℕ
units c = if leb 65536 (code c) then 2 else 1

unfoldable pub text_length : String → ℕ
text_length [] = 0
text_length (c ∷ s) = units c + text_length s

-- `slice(0, n)`; a character of two units that the end would split is left out.
unfoldable pub slice_start : ℕ → String → String
slice_start n [] = []
slice_start n (c ∷ s) =
    let rest = slice_start (n - units c) s in if leb (units c) n then c ∷ rest else []
