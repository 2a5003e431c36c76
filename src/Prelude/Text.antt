-- ===== src/Prelude/Text.antt =====
-- Texts as Go's `fmt` and `strings` make them, where an error message or a key needs them.
use Prim.Native.Nat.{ℕ, zero, suc, ◌+◌, ◌/◌, ◌%◌}
use Prim.Native.String.{String, ◌++◌}
use Prim.Native.String
use Prim.Native.Char.{code}
use mathlib.Core.Option.{Option, none, some}
use mathlib.Core.Bool.{Bool, true, false, ◌&&◌, ◌||◌}
use mathlib.Core.Path.{◌≡◌, refl}
use text.Mathlib.Text.{is_le, is_eq}
use nearby_backend.Prelude.Tests.{ltb, leb, ◌==◌, if◌then◌else◌}
use nearby_backend.Prelude.Int.{ℤ, pos, negsuc}

-- `s <= t`, byte by byte.
abbrev pub text_le : String → String → Bool
text_le s t = is_le (String.compare s t)

-- `s == t` on texts.
abbrev pub text_eq : String → String → Bool
text_eq s t = is_eq (String.compare s t)

abbrev pub digit : ℕ → String
digit zero = "0"
digit (suc zero) = "1"
digit (suc (suc zero)) = "2"
digit (suc (suc (suc zero))) = "3"
digit (suc (suc (suc (suc zero)))) = "4"
digit (suc (suc (suc (suc (suc zero))))) = "5"
digit (suc (suc (suc (suc (suc (suc zero)))))) = "6"
digit (suc (suc (suc (suc (suc (suc (suc zero))))))) = "7"
digit (suc (suc (suc (suc (suc (suc (suc (suc zero)))))))) = "8"
digit _ = "9"

digits_of : ℕ → ℕ → String
digits_of zero n = digit (n % 10)
digits_of (suc fuel) n =
    let front = digits_of fuel (n / 10) in if ltb n 10 then digit n else front ++ digit (n % 10)

-- `%d`. Twenty digits are more than a 64-bit number has.
unfoldable pub decimal : ℤ → String
unfolding digits_of
decimal (pos n) = digits_of 20 n
decimal (negsuc n) = "-" ++ digits_of 20 (n + 1)

-- `%0*d`: the last digits of a number, with zeros in front. A number that has no more digits than
-- that is given in full.
unfoldable pub padded : ℕ → ℕ → String
padded zero n = ""
padded (suc digits) n = padded digits (n / 10) ++ digit (n % 10)

-- `%q`, for a text with nothing in it to escape.
unfoldable pub quoted : String → String
quoted s = "\"" ++ (s ++ "\"")

-- `unicode.IsSpace`.
is_space : ℕ → Bool
is_space c =
    (leb 9 c && leb c 13)
    || c == 32
    || c == 0x85
    || c == 0xa0
    || c == 0x1680
    || (leb 0x2000 c && leb c 0x200a)
    || c == 0x2028
    || c == 0x2029
    || c == 0x202f
    || c == 0x205f
    || c == 0x3000

trim_left : String → String
unfolding is_space
trim_left String.[] = String.[]
trim_left (String.◌∷◌ c s) =
    let rest = trim_left s in if is_space (code c) then rest else String.◌∷◌ c s

abbrev is_blank : String → Bool
is_blank String.[] = true
is_blank (String.◌∷◌ c s) = false

trim_right : String → String
unfolding is_space
trim_right String.[] = String.[]
trim_right (String.◌∷◌ c s) =
    let rest = trim_right s in
    if is_blank rest && is_space (code c) then String.[] else String.◌∷◌ c rest

-- `strings.TrimSpace`.
unfoldable pub trim_space : String → String
unfolding trim_left trim_right
trim_space s = trim_right (trim_left s)

abbrev pub none_if_blank : String → Option String
none_if_blank String.[] = none
none_if_blank (String.◌∷◌ c s) = some (String.◌∷◌ c s)

-- `trimPtr`: trimmed, and nil when nothing is left.
unfoldable pub trim_ptr : Option String → Option String
unfolding trim_space
trim_ptr none = none
trim_ptr (some s) = none_if_blank (trim_space s)

trimmed : trim_ptr (some "  a bay at the back \n") ≡ some "a bay at the back"
unfolding trim_ptr
trimmed = refl
