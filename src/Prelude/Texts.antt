-- ===== src/Prelude/Texts.antt =====
-- Rust's `String`: comparison, prefixes, suffixes and `format!`, over the native texts.
use Prim.Native.Nat.{ℕ, ◌-◌}
use Prim.Native.Char.{code}
use Prim.Native.String.{String, len, slice, find, compare, ◌++◌ as append}
use mathlib.Core.Bool.{Bool, true, false, ◌&&◌, ◌||◌}
use mathlib.Core.List.{List, [], ◌∷◌}
use mathlib.Core.Option.{Option, none, some}
use text.Mathlib.Text.{◌==◌, starts_with, is_lt, is_le}
use latent_db.Prelude.Tests.{leb, eqb, if◌then◌else◌}
use latent_db.Prelude.Lists.{any}

-- `format!` with its pieces in order
unfoldable pub format : List String → String
format [] = ""
format (s ∷ rest) = append s (format rest)

-- `str::strip_prefix`
unfoldable pub strip_prefix : String → String → Option String
strip_prefix s p = if starts_with s p then some (slice s (len p) (len s)) else none

-- `str::strip_suffix`
unfoldable pub strip_suffix : String → String → Option String
strip_suffix s p =
    if leb (len p) (len s) && slice s (len s - len p) (len s) == p
    then some (slice s 0 (len s - len p))
    else none

-- `str::contains`: the search ends inside the text
unfoldable pub str_contains : String → String → Bool
str_contains s t = leb (find s t) (len s)

-- `Ord` of `str`
abbrev pub str_ltb : String → String → Bool
str_ltb s t = is_lt (compare s t)

abbrev pub str_leb : String → String → Bool
str_leb s t = is_le (compare s t)

-- `PartialEq` of `Option<String>`
abbrev pub option_str_eq : Option String → Option String → Bool
option_str_eq none none = true
option_str_eq none (some t) = false
option_str_eq (some s) none = false
option_str_eq (some s) (some t) = s == t

-- `iter().any(|f| f == field)`
abbrev pub has_str : List String → String → Bool
has_str xs s = any (λ x. x == s) xs

-- Unicode's `White_Space`
abbrev pub is_space : ℕ → Bool
is_space c =
    (leb 9 c && leb c 13)
    || (eqb c 32
        || (eqb c 0x85
            || (eqb c 0xa0
                || (eqb c 0x1680
                    || ((leb 0x2000 c && leb c 0x200a)
                        || (eqb c 0x2028
                            || (eqb c 0x2029
                                || (eqb c 0x202f || (eqb c 0x205f || eqb c 0x3000)))))))))

-- `trim().is_empty()`
unfoldable pub is_blank : String → Bool
is_blank String.[] = true
is_blank (String.◌∷◌ c s) = is_space (code c) && is_blank s
