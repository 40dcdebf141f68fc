-- ===== src/Common/Text.antt =====
-- Python's operations on texts that the program calls, a character at a time.
use Prim.Native.Nat.{ℕ, zero, suc, ◌/◌, ◌%◌}
use Prim.Native.Char.{Char, code}
use Prim.Native.String
use Prim.Native.String.{String}
use mathlib.Core.Path.{◌≡◌, refl}
use mathlib.Core.Bool.{Bool, true, false, ◌||◌, ◌&&◌}
use mathlib.Core.List.{List, [], ◌∷◌}
use autoweave_library.Common.Tests.{ltb, leb, if◌then◌else◌, ◌==◌, nat_eq, string_eq}

-- `a + b`
abbrev pub concat_text : String → String → String
concat_text a b = String.◌++◌ a b

-- `sep.join(texts)`
unfoldable pub join : String → List String → String
join sep [] = ""
join sep (t ∷ []) = t
join sep (t ∷ u ∷ ts) = concat_text t (concat_text sep (join sep (u ∷ ts)))

-- `bool(text)`
unfoldable pub is_some_text : String → Bool
is_some_text String.[] = false
is_some_text (String.◌∷◌ c s) = true

-- `str.isspace` on the code of a character.
unfoldable pub is_space_code : ℕ → Bool
is_space_code n =
    (leb 9 n && leb n 13)
    || (leb 28 n && leb n 32)
    || (n == 133)
    || (n == 160)
    || (n == 5760)
    || (leb 8192 n && leb n 8202)
    || (n == 8232)
    || (n == 8233)
    || (n == 8239)
    || (n == 8287)
    || (n == 12288)

unfoldable pub is_space : Char → Bool
unfolding is_space_code
is_space c = is_space_code (code c)

-- The texts before and after the first colon, as of `text.partition(":")`.
unfoldable pub split_at_colon : String → String × String
split_at_colon String.[] = ("", "")
split_at_colon (String.◌∷◌ c s) =
    let (before, after) = split_at_colon s in
    if code c == 58 then ("", s) else (String.◌∷◌ c before, after)

unfoldable pub lstrip : String → String
unfolding is_space
lstrip String.[] = ""
lstrip (String.◌∷◌ c s) = if is_space c then lstrip s else String.◌∷◌ c s

-- A space in front of nothing goes too.
unfoldable pub strip_end : Char → String → String
unfolding is_space
strip_end c String.[] = if is_space c then "" else String.◌∷◌ c ""
strip_end c (String.◌∷◌ d s) = String.◌∷◌ c (String.◌∷◌ d s)

unfoldable pub rstrip : String → String
unfolding strip_end
rstrip String.[] = ""
rstrip (String.◌∷◌ c s) = strip_end c (rstrip s)

-- `text.strip()`
unfoldable pub strip : String → String
unfolding lstrip rstrip
strip s = rstrip (lstrip s)

-- `text.startswith(prefix)`
unfoldable pub starts_with : (prefix text : String) → Bool
starts_with String.[] t = true
starts_with (String.◌∷◌ c s) String.[] = false
starts_with (String.◌∷◌ c s) (String.◌∷◌ d t) = code c == code d && starts_with s t

-- `part in text`
unfoldable pub contains : (part text : String) → Bool
unfolding starts_with
contains part String.[] = starts_with part ""
contains part (String.◌∷◌ c s) = starts_with part (String.◌∷◌ c s) || contains part s

unfoldable pub digit : ℕ → String
digit n =
    if n == 0
    then "0"
    else if n == 1
    then "1"
    else if n == 2
    then "2"
    else if n == 3
    then "3"
    else if n == 4
    then "4"
    else if n == 5
    then "5"
    else if n == 6
    then "6"
    else if n == 7
    then "7"
    else if n == 8
    then "8"
    else "9"

unfoldable pub decimal_on : ℕ → ℕ → String
unfolding digit
decimal_on zero n = ""
decimal_on (suc fuel) n =
    let rest = decimal_on fuel (n / 10) in
    if ltb n 10 then digit n else concat_text rest (digit (n % 10))

-- `str(n)`: a number has fewer digits than its value and one.
unfoldable pub decimal : ℕ → String
unfolding decimal_on
decimal n = decimal_on (suc n) n

strip_test : strip "  a b \n" ≡ "a b"
unfolding strip
strip_test = refl

contains_test : contains "key" "api_key" ≡ true
unfolding contains
contains_test = refl

decimal_test : decimal 205 ≡ "205"
unfolding decimal
decimal_test = refl
