-- ===== src/Prelude/Text.antt =====
-- Python's text values as native strings: `str(int)`, f-strings, slices, truthiness, UTF-8.
pub mod Decimal
use Prim.Native.Nat.{ℕ, zero, suc, ◌+◌, ◌/◌, ◌%◌}
use text.Mathlib.Text.{starts_with}
use Prim.Native.Char.{code}
use Prim.Native.String.{String, ◌++◌ as concat, count}
use mathlib.Core.Bool.{Bool, true, false}
use mathlib.Core.List.{List, [], ◌∷◌, ◌++◌}
use mathlib.Core.Option.{Option, none, some}
use unith_task.Prelude.Tests.{ltb, if◌then◌else◌}

-- Python's `bytes`.
abbrev pub Bytes : Type 0
Bytes = List ℕ

-- len(text): the number of characters.
unfoldable pub text_length : String → ℕ
text_length s = count s

-- An empty text is false in a test.
abbrev pub is_empty : String → Bool
is_empty String.[] = true
is_empty (String.◌∷◌ c s) = false

-- text[:n]
unfoldable pub prefix : ℕ → String → String
prefix zero s = String.[]
prefix (suc n) String.[] = String.[]
prefix (suc n) (String.◌∷◌ c s) = String.◌∷◌ c (prefix n s)

-- f"{a}{b}…" over parts that are texts already.
unfoldable pub f_string : List String → String
f_string [] = String.[]
f_string (s ∷ rest) = concat s (f_string rest)

digit : ℕ → String
digit zero = "0"
digit (suc zero) = "1"
digit (suc (suc zero)) = "2"
digit (suc (suc (suc zero))) = "3"
digit (suc (suc (suc (suc zero)))) = "4"
digit (suc (suc (suc (suc (suc zero))))) = "5"
digit (suc (suc (suc (suc (suc (suc zero)))))) = "6"
digit (suc (suc (suc (suc (suc (suc (suc zero))))))) = "7"
digit (suc (suc (suc (suc (suc (suc (suc (suc zero)))))))) = "8"
digit _ = "9"

str_from : ℕ → ℕ → String → String
str_from zero n acc = acc
str_from (suc fuel) n acc =
    let rest = str_from fuel (n / 10) (concat (digit (n % 10)) acc) in
    if ltb n 10 then concat (digit n) acc else rest

-- str(n) of a natural number. A number has fewer digits than its value plus one.
unfoldable pub str : ℕ → String
unfolding digit str_from
str n = str_from (suc n) n String.[]

char_utf8 : ℕ → Bytes
char_utf8 c =
    if ltb c 128
    then c ∷ []
    else if ltb c 2048
    then (192 + c / 64) ∷ (128 + c % 64) ∷ []
    else if ltb c 65536
    then (224 + c / 4096) ∷ (128 + c / 64 % 64) ∷ (128 + c % 64) ∷ []
    else (240 + c / 262144) ∷ (128 + c / 4096 % 64) ∷ (128 + c / 64 % 64) ∷ (128 + c % 64) ∷ []

-- text.encode()
unfoldable pub encode : String → Bytes
unfolding char_utf8
encode String.[] = []
encode (String.◌∷◌ c s) = char_utf8 (code c) ++ encode s

-- `a or b` on an optional text.
abbrev pub text_or : Option String → String → String
text_or none d = d
text_or (some String.[]) d = d
text_or (some (String.◌∷◌ c s)) d = String.◌∷◌ c s

-- text.startswith(prefix)
unfoldable pub begins_with : String → String → Bool
begins_with s t = starts_with s t
