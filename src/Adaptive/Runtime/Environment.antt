-- ===== src/Adaptive/Runtime/Environment.antt =====
-- The standard library's part of src/adaptive_runtime.cpp: strcmp on a pointer that may be null, and
-- strtoull in base 10. A variable's text is read as its code points.
use Prim.Native.String.{String}
use Prim.Native.Char.{code}
use text.Mathlib.Text.{◌==◌ as str_eq}
use my_malloc.Prelude.{
  ℕ, ◌+◌, ◌-◌, ◌*◌, ◌%◌, Bool, true, false, not, ◌&&◌, ◌||◌, Option, none, some, List, [], ◌∷◌, leb,
  ◌==◌, if◌then◌else◌, word,
}

abbrev pub codes : String → List ℕ
codes String.[] = []
codes (String.◌∷◌ c s) = code c ∷ codes s

abbrev pub streq : Option String → String → Bool
streq none b = false
streq (some a) b = str_eq a b

abbrev pub alias : Option String → String → String → Bool
alias env a b = streq env a || streq env b

abbrev pub env_present : Option String → Bool
env_present none = false
env_present (some s) = not (str_eq s "")

abbrev is_space : ℕ → Bool
is_space c = c == b' ' || (leb 9 c && leb c 13)

abbrev is_digit : ℕ → Bool
is_digit c = leb b'0' c && leb c b'9'

skip_space : List ℕ → List ℕ
skip_space [] = []
skip_space (c ∷ cs) = if is_space c then skip_space cs else c ∷ cs

-- The digits from here on, as a number of any size.
digits_value : ℕ → List ℕ → ℕ
digits_value acc [] = acc
digits_value acc (c ∷ cs) =
    let rest = digits_value (acc * 10 + (c - b'0')) cs in if is_digit c then rest else acc

abbrev starts_with_digit : List ℕ → Bool
starts_with_digit [] = false
starts_with_digit (c ∷ cs) = is_digit c

-- `none` is end == env: no digits. A value out of range is ULLONG_MAX; a minus sign negates.
convert : Bool → List ℕ → Option ℕ
unfolding digits_value
convert negative cs =
    if not (starts_with_digit cs)
    then none
    else if leb word (digits_value 0 cs)
    then some (word - 1)
    else if negative
    then some ((word - digits_value 0 cs) % word)
    else some (digits_value 0 cs)

after_sign : List ℕ → Option ℕ
unfolding convert
after_sign [] = none
after_sign (c ∷ cs) =
    if c == b'-'
    then convert true cs
    else if c == b'+'
    then convert false cs
    else convert false (c ∷ cs)

unfoldable pub strtoull : List ℕ → Option ℕ
unfolding skip_space after_sign
strtoull cs = after_sign (skip_space cs)
