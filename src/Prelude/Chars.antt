-- ===== src/Prelude/Chars.antt =====
-- Rust's `String` by its characters: trimming, replacement, splitting, and decimal numbers.
use Prim.Native.Nat.{ℕ, zero, suc, ◌/◌, ◌%◌}
use Prim.Native.Char.{code}
use Prim.Native.String.{String, len, count, slice, ◌++◌ as append}
use mathlib.Core.Bool.{Bool, true, false, ◌&&◌, ◌||◌}
use mathlib.Core.List.{List, [], ◌∷◌}
use mathlib.Core.Path.{◌≡◌, refl}
use latent_db.Prelude.Tests.{ltb, eqb, if◌then◌else◌}
use latent_db.Prelude.Texts.{is_space, is_blank}

-- `str::len`: bytes
abbrev pub byte_len : String → ℕ
byte_len s = len s

-- `chars().count()`
abbrev pub char_count : String → ℕ
char_count s = count s

abbrev is_char : ℕ → String → Bool
is_char c String.[] = false
is_char c (String.◌∷◌ d s) = eqb c (code d)

-- `chars().take`
unfoldable pub char_take : ℕ → String → String
char_take zero s = ""
char_take (suc n) String.[] = ""
char_take (suc n) (String.◌∷◌ c s) = String.◌∷◌ c (char_take n s)

-- `str::replace`, of the one character that `from` consists of
unfoldable pub replace_char : String → String → String → String
replace_char from to String.[] = ""
replace_char from to (String.◌∷◌ c s) =
    let rest = replace_char from to s in
    if is_char (code c) from then append to rest else String.◌∷◌ c rest

-- `chars().all`, by code points
unfoldable pub all_chars : (ℕ → Bool) → String → Bool
all_chars p String.[] = true
all_chars p (String.◌∷◌ c s) = p (code c) && all_chars p s

-- `chars().any(char::is_whitespace)`
unfoldable pub has_space : String → Bool
has_space String.[] = false
has_space (String.◌∷◌ c s) = is_space (code c) || has_space s

-- `chars().next()` has the property
unfoldable pub first_char : (ℕ → Bool) → String → Bool
first_char p String.[] = false
first_char p (String.◌∷◌ c s) = p (code c)

-- the last character has the property
unfoldable pub last_char : (ℕ → Bool) → String → Bool
last_char p String.[] = false
last_char p (String.◌∷◌ c String.[]) = p (code c)
last_char p (String.◌∷◌ c (String.◌∷◌ d s)) = last_char p (String.◌∷◌ d s)

unfoldable pub trim_start : String → String
trim_start String.[] = ""
trim_start (String.◌∷◌ c s) = if is_space (code c) then trim_start s else String.◌∷◌ c s

unfoldable pub trim_end : String → String
unfolding is_blank
trim_end String.[] = ""
trim_end (String.◌∷◌ c s) =
    let rest = trim_end s in if is_blank (String.◌∷◌ c s) then "" else String.◌∷◌ c rest

-- `str::trim`
unfoldable pub trim : String → String
unfolding trim_start trim_end
trim s = trim_end (trim_start s)

abbrev onto_first : String → List String → List String
onto_first p [] = p ∷ []
onto_first p (x ∷ xs) = append p x ∷ xs

-- `str::split`, at one character
unfoldable pub split_on : ℕ → String → List String
split_on sep String.[] = "" ∷ []
split_on sep (String.◌∷◌ c s) =
    let rest = split_on sep s in
    if eqb (code c) sep then "" ∷ rest else onto_first (String.◌∷◌ c "") rest

abbrev digit : ℕ → String
digit d = slice "0123456789" d (suc d)

-- The digits of a number that `fuel` bounds.
digits : ℕ → ℕ → String
digits zero n = ""
digits (suc fuel) n = elim (ltb n 10) [
  | true ↦ digit n
  | false ↦ append (digits fuel (n / 10)) (digit (n % 10))
]

-- `Display` of an integer: a number has no more digits than its successor counts.
unfoldable pub decimal : ℕ → String
unfolding digits
decimal n = digits (suc n) n

trimmed : trim "  a b " ≡ "a b"
unfolding trim trim_start trim_end is_blank
trimmed = refl

printed : decimal 1205 ≡ "1205"
unfolding decimal digits
printed = refl
