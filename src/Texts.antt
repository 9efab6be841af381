-- ===== src/Texts.antt =====
-- What the crate uses of the strings of the standard library.
use Prim.Native.Char.{Char, code}
use Prim.Native.String.{String, ◌++◌ as ◌⊕◌}
use svm_wasi_core.Base.{ℕ, Bool, ◌&&◌, ◌||◌, [], ◌∷◌, leb, ◌==◌, if◌then◌else◌}
use svm_wasi_core.Base.Search.{bytes_eq}
use svm_wasi_core.Shaping.Strings.{Text, codes, decimal}

-- `a == b`
abbrev pub string_eq : String → String → Bool
string_eq a b = bytes_eq (codes a) (codes b)

-- `char::is_whitespace`: the scalar values with the property White_Space.
abbrev pub is_whitespace : ℕ → Bool
is_whitespace c =
    (leb 9 c && leb c 13)
    || (c == 0x20
        || (c == 0x85
            || (c == 0xA0
                || (c == 0x1680
                    || ((leb 0x2000 c && leb c 0x200A)
                        || (c == 0x2028
                            || (c == 0x2029 || (c == 0x202F || (c == 0x205F || c == 0x3000)))))))))

abbrev pub trim_start : String → String
trim_start String.[] = String.[]
trim_start (String.◌∷◌ c s) =
    let rest = trim_start s in if is_whitespace (code c) then rest else String.◌∷◌ c s

-- A character goes when it is whitespace and nothing is left behind it.
abbrev pub put_before : Char → String → String
put_before c String.[] = if is_whitespace (code c) then String.[] else String.◌∷◌ c String.[]
put_before c (String.◌∷◌ d s) = String.◌∷◌ c (String.◌∷◌ d s)

abbrev pub trim_end : String → String
trim_end String.[] = String.[]
trim_end (String.◌∷◌ c s) = put_before c (trim_end s)

-- `s.trim()`
abbrev pub trim : String → String
trim s = trim_start (trim_end s)

-- The digit of a code between 48 and 57.
abbrev digit : ℕ → String
digit c =
    if c == 48
    then "0"
    else if c == 49
    then "1"
    else if c == 50
    then "2"
    else if c == 51
    then "3"
    else if c == 52
    then "4"
    else if c == 53
    then "5"
    else if c == 54
    then "6"
    else if c == 55
    then "7"
    else if c == 56
    then "8"
    else "9"

abbrev digits : Text → String
digits [] = ""
digits (c ∷ s) = digit c ⊕ digits s

-- `{n}` for a number
abbrev pub show_number : ℕ → String
show_number n = digits (decimal n)
