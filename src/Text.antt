-- ===== src/Text.antt =====
-- JavaScript strings as the list of their code units, with the operations of the standard library
-- that src/database/tokenOperation.ts and src/database/service.ts use: ===, toLowerCase, trim,
-- startsWith, slice. Identifiers, hashes and addresses are ASCII, so lower case is that of A to Z.
pub mod Laws
use Prim.Native.Char.{code}
use Prim.Native.String.{String}
use ev_web3_award_system.Prelude.{
  ℕ, ◌+◌, ◌*◌, ◌-◌, Bool, true, false, ◌&&◌, ◌||◌, List, [], ◌∷◌, ◌++◌, map, Option, none, some,
  leb, ◌==◌, if◌then◌else◌, length, take,
}

abbrev pub Text : Type 0
Text = List ℕ

-- The code units of a literal.
abbrev pub codes : String → Text
codes String.[] = []
codes (String.◌∷◌ c s) = code c ∷ codes s

unfoldable pub text_eq : Text → Text → Bool
text_eq [] [] = true
text_eq [] (_ ∷ _) = false
text_eq (_ ∷ _) [] = false
text_eq (c ∷ s) (d ∷ t) = c == d && text_eq s t

-- `a === b` on nullable texts.
unfoldable pub nullable_eq : Option Text → Option Text → Bool
unfolding text_eq
nullable_eq none none = true
nullable_eq none (some _) = false
nullable_eq (some _) none = false
nullable_eq (some s) (some t) = text_eq s t

unfoldable pub lower_unit : ℕ → ℕ
lower_unit c = if leb b'A' c && leb c b'Z' then c + 32 else c

unfoldable pub to_lower : Text → Text
unfolding lower_unit
to_lower [] = []
to_lower (c ∷ s) = lower_unit c ∷ to_lower s

-- `a.toLowerCase() === b.toLowerCase()`, and SQL's `lower(a) = lower(b)`.
unfoldable pub same_lower : Text → Text → Bool
unfolding to_lower text_eq
same_lower s t = text_eq (to_lower s) (to_lower t)

-- The white space and line terminators that `trim` removes.
unfoldable pub is_space : ℕ → Bool
is_space c =
    leb 9 c && leb c 13
    || c == 32
    || c == 160
    || c == 5760
    || leb 8192 c && leb c 8202
    || c == 8232
    || c == 8233
    || c == 8239
    || c == 8287
    || c == 12288
    || c == 65279

unfoldable pub trim_start : Text → Text
unfolding is_space
trim_start [] = []
trim_start (c ∷ s) = if is_space c then trim_start s else c ∷ s

-- A trailing unit is white space if it is so itself and nothing but white space follows.
unfoldable pub keep_unit : ℕ → Text → Text
unfolding is_space
keep_unit c [] = if is_space c then [] else c ∷ []
keep_unit c (d ∷ t) = c ∷ d ∷ t

unfoldable pub trim_end : Text → Text
unfolding keep_unit
trim_end [] = []
trim_end (c ∷ s) = keep_unit c (trim_end s)

unfoldable pub trim : Text → Text
unfolding trim_start trim_end
trim s = trim_end (trim_start s)

unfoldable pub starts_with : Text → Text → Bool
starts_with [] s = true
starts_with (_ ∷ _) [] = false
starts_with (c ∷ p) (d ∷ s) = c == d && starts_with p s

abbrev pub is_empty : Text → Bool
is_empty [] = true
is_empty (_ ∷ _) = false

abbrev pub is_digit : ℕ → Bool
is_digit c = leb b'0' c && leb c b'9'

unfoldable pub all_units : (ℕ → Bool) → Text → Bool
all_units p [] = true
all_units p (c ∷ s) = p c && all_units p s
