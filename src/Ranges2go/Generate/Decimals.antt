-- ===== src/Ranges2go/Generate/Decimals.antt =====
-- pkg/net/cloudcidrs/internal/ranges2go/gen.go: reading back the numbers of a text.
use registry_k8s_io.GoText.Fields.{
  IsWord, fields_from, fields_func, fields_func-word, fields_func-append,
}
use registry_k8s_io.Prelude.{
  map-append, ℕ, zero, suc, ◌+◌, ◌-◌, ◌*◌, ◌/◌, ◌%◌, ◌≤◌, ◌≡◌, ◌≢◌, ◌∙◌, refl, ap, ap₂, arith, Bool,
  true, false, ◌||◌, Bool-cases, inl, inr, ltb, List, [], ◌∷◌, ◌++◌, map, Text, codes, All-append,
}
use registry_k8s_io.Ranges2go.Generate.{decimal_digits, decimal, with_commas}

abbrev pub not_digit : ℕ → Bool
not_digit c = ltb c b'0' || ltb b'9' c

-- The value of decimal digits that follow others.
unfoldable read_from : ℕ → Text → ℕ
read_from n [] = n
read_from n (c ∷ s) = read_from (n * 10 + (c - b'0')) s

unfoldable pub read_decimal : Text → ℕ
unfolding read_from
read_decimal s = read_from 0 s

-- The numbers in a text.
unfoldable pub numbers : Text → List ℕ
numbers s = map read_decimal (fields_func not_digit s)

read_from-append : (n : ℕ) (s t : Text) → read_from n (s ++ t) ≡ read_from (read_from n s) t
unfolding read_from
read_from-append n [] t = refl
read_from-append n (c ∷ s) t = read_from-append (n * 10 + (c - b'0')) s t

read_decimal-decimal_digits : (fuel n : ℕ) → n ≤ fuel → read_decimal (decimal_digits fuel n) ≡ n
unfolding read_decimal read_from decimal_digits
read_decimal-decimal_digits zero n h = omega arith
read_decimal-decimal_digits (suc fuel) n h = elim (Bool-cases (ltb n 10)) [
  | inl one ↦ rw (decimal_digits, one) (omega arith)
  | inr more ↦
      rw (decimal_digits, more)
        (read_from-append 0 (decimal_digits fuel (n / 10)) ((b'0' + n % 10) ∷ [])
          ∙ ground (arith, read_decimal-decimal_digits fuel (n / 10) (ground arith)))
]

decimal_digits-IsWord : (fuel n : ℕ) → n ≤ fuel → IsWord not_digit (decimal_digits fuel n)
unfolding decimal_digits
decimal_digits-IsWord zero n h = (ground arith, tt)
decimal_digits-IsWord (suc fuel) n h = elim (Bool-cases (ltb n 10)) [
  | inl one ↦ rw (decimal_digits, one) (ground arith, tt)
  | inr more ↦
      rw (decimal_digits, more)
        (All-append (λ c. not_digit c ≡ false) (decimal_digits fuel (n / 10)) ((b'0' + n % 10) ∷ [])
          (decimal_digits-IsWord fuel (n / 10) (ground arith)) (ground arith, tt))
]

append-not_empty : (s : Text) (c : ℕ) → s ++ c ∷ [] ≢ []
append-not_empty [] c e = cc
append-not_empty (x ∷ s) c e = cc

decimal_digits-not_empty : (fuel n : ℕ) → decimal_digits fuel n ≢ []
unfolding decimal_digits
decimal_digits-not_empty zero n = λ e. cc
decimal_digits-not_empty (suc fuel) n = elim (Bool-cases (ltb n 10)) [
  | inl one ↦ rw (decimal_digits, one) (λ e. cc)
  | inr more ↦
      rw (decimal_digits, more) (append-not_empty (decimal_digits fuel (n / 10)) (b'0' + n % 10))
]

-- A number is read back.
pub numbers-decimal : (n : ℕ) → numbers (decimal n) ≡ n ∷ []
unfolding numbers decimal
numbers-decimal n =
    ap (map read_decimal) (
      fields_func-word not_digit (decimal_digits n n) (decimal_digits-IsWord n n (omega arith))
        (decimal_digits-not_empty n n))
    ∙ ap (λ x. x ∷ []) (read_decimal-decimal_digits n n (omega arith))

-- A byte that is no digit separates numbers.
pub numbers-append :
    (s t : Text) (c : ℕ) → not_digit c ≡ true → numbers (s ++ c ∷ t) ≡ numbers s ++ numbers t
unfolding numbers
numbers-append s t c h =
    ap (map read_decimal) (fields_func-append not_digit s t c h)
    ∙ map-append read_decimal (fields_func not_digit s) (fields_func not_digit t)

pub numbers-with_commas : (l : List ℕ) → numbers (with_commas l) ≡ l
unfolding with_commas codes numbers fields_func fields_from
numbers-with_commas [] = refl
numbers-with_commas (n ∷ []) = numbers-decimal n
numbers-with_commas (n ∷ m ∷ l) =
    numbers-append (decimal n) (b' ' ∷ with_commas (m ∷ l)) b',' refl
    ∙ ap₂ (λ x y. x ++ y) (numbers-decimal n)
        (numbers-append [] (with_commas (m ∷ l)) b' ' refl ∙ numbers-with_commas (m ∷ l))
