-- ===== src/Prelude/Text/Decimal.antt =====
-- The text of a number, read back.
use Prim.Native.String.{String, ◌++◌ as concat}
use Prim.Native.Char.{code}
use mathlib.Core.List.{append_assoc}
use text.Mathlib.TextLemmas.{nil-append, cons-append, append-nil}
use unith_task.Prelude.{
  ℕ, zero, suc, ◌+◌, ◌-◌, ◌*◌, ◌/◌, ◌%◌, ◌<◌, ◌≡◌, ◌∙◌, refl, sym, ap, inl, inr, Bool-cases,
  f_string, Bytes, [], ◌∷◌, ◌++◌, arith, ltb, if◌then◌else◌, encode, str,
}
use unith_task.Prelude.Text.{digit, str_from, char_utf8}

-- Reads the digits in front, and gives what stands behind the first other byte.
read_number : ℕ → Bytes → ℕ × Bytes
read_number acc [] = (acc, [])
read_number acc (c ∷ cs) =
    let rest = read_number (acc * 10 + (c - 48)) cs in if ltb c 48 then (acc, cs) else rest

encode-concat : (s t : String) → encode (concat s t) ≡ encode s ++ encode t
unfolding encode
encode-concat String.[] t = ap encode (nil-append t)
encode-concat (String.◌∷◌ c s) t =
    rw (cons-append c s t)
      (rw (encode-concat s t) (sym (append_assoc (char_utf8 (code c)) (encode s) (encode t))))

pub encode-f_string : (s t : String) → encode (f_string (s ∷ t ∷ [])) ≡ encode s ++ encode t
unfolding f_string
encode-f_string s t = ap (λ u. encode (concat s u)) (append-nil t) ∙ encode-concat s t

read_digit :
    (d : ℕ) (acc : ℕ) (rest : Bytes)
    → d < 10
    → read_number acc (encode (digit d) ++ rest) ≡ read_number (acc * 10 + d) rest
unfolding read_number digit encode char_utf8
read_digit zero acc rest h = refl
read_digit (suc zero) acc rest h = refl
read_digit (suc (suc zero)) acc rest h = refl
read_digit (suc (suc (suc zero))) acc rest h = refl
read_digit (suc (suc (suc (suc zero)))) acc rest h = refl
read_digit (suc (suc (suc (suc (suc zero))))) acc rest h = refl
read_digit (suc (suc (suc (suc (suc (suc zero)))))) acc rest h = refl
read_digit (suc (suc (suc (suc (suc (suc (suc zero))))))) acc rest h = refl
read_digit (suc (suc (suc (suc (suc (suc (suc (suc zero)))))))) acc rest h = refl
read_digit (suc (suc (suc (suc (suc (suc (suc (suc (suc n))))))))) acc rest h =
    ap (λ k. read_number (acc * 10 + k) rest) (omega arith)

-- Reading through one more text that begins with a digit.
read_cons :
    (d number value : ℕ) (acc : String) (rest : Bytes)
    → d < 10
    → number * 10 + d ≡ value
    → read_number number (encode (concat (digit d) acc) ++ rest)
      ≡ read_number value (encode acc ++ rest)
read_cons d number value acc rest h e =
    rw (encode-concat (digit d) acc, append_assoc (encode (digit d)) (encode acc) rest)
      (read_digit d number (encode acc ++ rest) h ∙ ap (λ k. read_number k (encode acc ++ rest)) e)

read_from :
    (fuel n : ℕ) (acc : String) (rest : Bytes)
    → n < fuel
    → read_number 0 (encode (str_from fuel n acc) ++ rest) ≡ read_number n (encode acc ++ rest)
unfolding str_from
read_from zero n acc rest h = ground arith
read_from (suc fuel) n acc rest h = elim (Bool-cases (ltb n 10)) [
  | inl small ↦ rw small (read_cons n 0 n acc rest (ground arith) (omega arith))
  | inr large ↦ rw large (
      read_from fuel (n / 10) (concat (digit (n % 10)) acc) rest (ground arith)
      ∙ read_cons (n % 10) (n / 10) n acc rest (omega arith) (omega arith))
]

-- Behind the digits of a number stands a point: reading gives back the number and what follows.
read_number-str :
    (n : ℕ) (body : Bytes)
    → read_number 0 (encode (f_string (str n ∷ "." ∷ [])) ++ body) ≡ (n, body)
unfolding str f_string read_number encode char_utf8
read_number-str n body =
    rw (encode-concat (str n) ".", append_assoc (encode (str n)) (encode ".") body)
      (read_from (suc n) n String.[] (encode "." ++ body) (omega arith))

-- Two such texts in front of bytes differ, unless number and bytes agree.
pub str-point_inj :
    (m n : ℕ) (a b : Bytes)
    → encode (f_string (str m ∷ "." ∷ [])) ++ a ≡ encode (f_string (str n ∷ "." ∷ [])) ++ b
    → (m ≡ n) × (a ≡ b)
str-point_inj m n a b e =
    let same = sym (read_number-str m a) ∙ ap (read_number 0) e ∙ read_number-str n b in
    (ap (λ p. p.0) same, ap (λ p. p.1) same)
