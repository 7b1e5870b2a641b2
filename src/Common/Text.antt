-- ===== src/Common/Text.antt =====
-- The functions of Go's `strings` and `strconv` that the code calls, on native texts. Letters are
-- mapped between cases in ASCII only, which covers the names that the code compares.
pub mod Decimal
use Prim.Native.Char.{Char, code}
use Prim.Native.String.{String, ◌++◌ as str_append, char_at}
use Prim.Native.Nat.{ℕ, zero, suc, ◌-◌, ◌/◌, ◌%◌}
use mathlib.Core.Bool.{Bool, false, ◌&&◌, ◌||◌}
use mathlib.Core.List.{List, [], ◌∷◌}
use mathlib.Core.Option.{Option, none, some}
use text.Mathlib.Text.{starts_with}
use netobserv_spcg.Common.Tests.{ltb, leb, ◌==◌, if◌then◌else◌, str_eq}

infixr 60 ◌+++◌
abbrev pub ◌+++◌ : String → String → String
s +++ t = str_append s t

abbrev char_upper : Char → Char
char_upper c =
    if leb b'a' (code c) && leb (code c) b'z'
    then char_at "ABCDEFGHIJKLMNOPQRSTUVWXYZ" (code c - b'a')
    else c

abbrev char_lower : Char → Char
char_lower c =
    if leb b'A' (code c) && leb (code c) b'Z'
    then char_at "abcdefghijklmnopqrstuvwxyz" (code c - b'A')
    else c

-- Whether a list has the text.
abbrev pub is_one_of : String → List String → Bool
is_one_of s [] = false
is_one_of s (t ∷ ts) = str_eq s t || is_one_of s ts

-- `strings.ToUpper`.
unfoldable pub to_upper : String → String
to_upper String.[] = String.[]
to_upper (String.◌∷◌ c s) = String.◌∷◌ (char_upper c) (to_upper s)

-- `strings.ToLower`.
unfoldable pub to_lower : String → String
to_lower String.[] = String.[]
to_lower (String.◌∷◌ c s) = String.◌∷◌ (char_lower c) (to_lower s)

-- `strings.EqualFold`.
unfoldable pub equal_fold : String → String → Bool
equal_fold s t = str_eq (to_lower s) (to_lower t)

-- `unicode.IsSpace`.
abbrev is_space : Char → Bool
is_space c =
    leb 9 (code c) && leb (code c) 13
    || (code c == 32
        || (code c == 133
            || (code c == 160
                || (code c == 5760
                    || (leb 8192 (code c) && leb (code c) 8202
                        || (code c == 8232
                            || (code c == 8233
                                || (code c == 8239 || (code c == 8287 || code c == 12288)))))))))

unfoldable pub trim_left : String → String
trim_left String.[] = String.[]
trim_left (String.◌∷◌ c s) = if is_space c then trim_left s else String.◌∷◌ c s

unfoldable pub trim_right : String → String
trim_right String.[] = String.[]
trim_right (String.◌∷◌ c s) =
    let rest = trim_right s in if is_space c && str_eq rest "" then "" else String.◌∷◌ c rest

-- `strings.TrimSpace`.
unfoldable pub trim_space : String → String
trim_space s = trim_right (trim_left s)

-- `strings.HasPrefix`.
abbrev pub has_prefix : String → String → Bool
has_prefix s prefix = starts_with s prefix

-- `strings.Contains`.
unfoldable pub contains_text : String → String → Bool
contains_text String.[] t = str_eq t ""
contains_text (String.◌∷◌ c s) t = starts_with (String.◌∷◌ c s) t || contains_text s t

-- The text up to the first character with the code, and the rest behind it, if it is there.
unfoldable pub cut_at : ℕ → String → Option (String × String)
cut_at k String.[] = none
cut_at k (String.◌∷◌ c s) =
    let rest = cut_at k s in
    if code c == k
    then some ("", s)
    else elim rest [ none ↦ none | some (l, r) ↦ some (String.◌∷◌ c l, r) ]

abbrev push_char : Char → List String → List String
push_char c [] = String.◌∷◌ c "" ∷ []
push_char c (w ∷ ws) = String.◌∷◌ c w ∷ ws

-- `strings.Split` at a separator of one character.
unfoldable pub split_on : ℕ → String → List String
split_on k String.[] = "" ∷ []
split_on k (String.◌∷◌ c s) =
    let rest = split_on k s in if code c == k then "" ∷ rest else push_char c rest

-- `strings.Join`.
unfoldable pub join : String → List String → String
join sep [] = ""
join sep (s ∷ []) = s
join sep (s ∷ t ∷ ss) = s +++ (sep +++ join sep (t ∷ ss))

abbrev pub digit : ℕ → String
digit n = String.◌∷◌ (char_at "0123456789" n) ""

unfoldable pub decimal_digits : ℕ → ℕ → String
decimal_digits zero n = ""
decimal_digits (suc fuel) n =
    let rest = decimal_digits fuel (n / 10) in if ltb n 10 then digit n else rest +++ digit (n % 10)

-- A number below 2 ^ 64 in decimal, as `%d` prints it: it has at most 20 digits.
unfoldable pub decimal : ℕ → String
decimal n = decimal_digits 20 n
