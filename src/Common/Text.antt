-- ===== src/Common/Text.antt =====
-- Texts as lists of character codes: `trim`, `toUpperCase` and `===` on codes of plain ASCII.
use Prim.Native.Nat.{ℕ, ◌+◌, ◌-◌}
use Prim.Native.Char.{code}
use Prim.Native.String.{String}
use mathlib.Core.Path.{◌≡◌, refl}
use mathlib.Core.Bool.{Bool, true, false, ◌&&◌, ◌||◌}
use mathlib.Core.List.{List, [], ◌∷◌, map, reverse}
use native.Mathlib.Omega.{arith}
use sports_venue_management.Common.Tests.{◌==◌, leb, ==_refl, if◌then◌else◌}

is_space : ℕ → Bool
is_space c = c == 32 || (leb 9 c && leb c 13)

trim_start : List ℕ → List ℕ
trim_start [] = []
trim_start (c ∷ s) = if is_space c then trim_start s else c ∷ s

to_upper : ℕ → ℕ
to_upper c = if leb 97 c && leb c 122 then c - 32 else c

unfoldable pub trim : List ℕ → List ℕ
unfolding is_space trim_start
trim s = reverse (trim_start (reverse (trim_start s)))

-- `code.trim().toUpperCase()`
unfoldable pub normalize : List ℕ → List ℕ
unfolding trim to_upper
normalize s = map to_upper (trim s)

abbrev pub text_eq : List ℕ → List ℕ → Bool
text_eq [] [] = true
text_eq [] (d ∷ t) = false
text_eq (c ∷ s) [] = false
text_eq (c ∷ s) (d ∷ t) = (c == d) && text_eq s t

-- `toLowerCase`
unfoldable pub lower : List ℕ → List ℕ
lower s = map (λ c. if leb 65 c && leb c 90 then c + 32 else c) s

-- `s.split(mark)[0]`, for a mark of one character
unfoldable pub before : ℕ → List ℕ → List ℕ
before mark [] = []
before mark (c ∷ s) = let rest = before mark s in if c == mark then [] else c ∷ rest

unfoldable pub starts_with : List ℕ → List ℕ → Bool
starts_with s [] = true
starts_with [] (d ∷ t) = false
starts_with (c ∷ s) (d ∷ t) = (c == d) && starts_with s t

unfoldable pub ends_with : List ℕ → List ℕ → Bool
unfolding starts_with
ends_with s t = starts_with (reverse s) (reverse t)

-- `s.includes(t)` on texts
unfoldable pub has_part : List ℕ → List ℕ → Bool
unfolding starts_with
has_part [] t = starts_with [] t
has_part (c ∷ s) t = starts_with (c ∷ s) t || has_part s t

-- `keys.includes(key)` on lists of texts
unfoldable pub includes : List (List ℕ) → List ℕ → Bool
includes [] key = false
includes (k ∷ ks) key = text_eq k key || includes ks key

-- the codes of a text
abbrev pub codes : String → List ℕ
codes String.[] = []
codes (String.◌∷◌ c s) = code c ∷ codes s

pub text_eq_sound : (s t : List ℕ) → text_eq s t ≡ true → s ≡ t
text_eq_sound [] [] h = refl
text_eq_sound [] (d ∷ t) h = cc
text_eq_sound (c ∷ s) [] h = cc
text_eq_sound (c ∷ s) (d ∷ t) h = ground (arith, text_eq_sound s t)

pub text_eq_refl : (s : List ℕ) → text_eq s s ≡ true
text_eq_refl [] = refl
text_eq_refl (c ∷ s) = rw (==_refl c, text_eq_refl s)
