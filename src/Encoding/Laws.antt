-- ===== src/Encoding/Laws.antt =====
-- Decoding base64 undoes encoding it.
use faro.Prelude.{
  nat_eq, ℕ, ◌+◌, ◌*◌, ◌/◌, ◌%◌, ◌<◌, ◌≡◌, refl, ap, ◌∙◌, false, ◌||◌, List, [], ◌∷◌, some, ◌==◌,
  arith, All,
}
use faro.Strings.{Bytes}
use faro.Encoding.{
  base64_char, base64_value, base64_encode, base64_digits, base64_bytes, base64_decode,
}

abbrev pub IsByte : ℕ → Type 0
IsByte b = b < 256

base64_value-char : (n : ℕ) → n < 64 → base64_value (base64_char n) ≡ some n
unfolding base64_value base64_char
base64_value-char n h = ground arith

base64_char-visible : (n : ℕ) → (base64_char n == 10 || base64_char n == 13) ≡ false
unfolding base64_char
base64_char-visible n = ground arith

base64_digits-cons :
    (n : ℕ) (s : Bytes) (l : List ℕ)
    → n < 64
    → base64_digits s ≡ some l
    → base64_digits (base64_char n ∷ s) ≡ some (n ∷ l)
unfolding base64_digits
base64_digits-cons n s l h e = ground (arith, base64_value-char n h, base64_char-visible n)

abbrev digits : Bytes → List ℕ
digits [] = []
digits (a ∷ []) = a / 4 ∷ (a % 4) * 16 ∷ []
digits (a ∷ b ∷ []) = a / 4 ∷ ((a % 4) * 16 + b / 16) ∷ (b % 16) * 4 ∷ []
digits (a ∷ b ∷ c ∷ s) =
    a / 4 ∷ ((a % 4) * 16 + b / 16) ∷ ((b % 16) * 4 + c / 64) ∷ c % 64 ∷ digits s

base64_digits-encode :
    (s : Bytes) → All IsByte s → base64_digits (base64_encode s) ≡ some (digits s)
unfolding base64_encode base64_digits
base64_digits-encode [] h = refl
base64_digits-encode (a ∷ []) h =
    base64_digits-cons (a / 4) (base64_char (a % 4 * 16) ∷ []) ((a % 4) * 16 ∷ [])
      (omega (arith, h.0)) (base64_digits-cons ((a % 4) * 16) [] [] (omega arith) refl)
base64_digits-encode (a ∷ b ∷ []) h =
    base64_digits-cons (a / 4) (base64_char (a % 4 * 16 + b / 16) ∷ base64_char (b % 16 * 4) ∷ [])
      (((a % 4) * 16 + b / 16) ∷ (b % 16) * 4 ∷ []) (omega (arith, h.0))
      (base64_digits-cons ((a % 4) * 16 + b / 16) (base64_char (b % 16 * 4) ∷ [])
        ((b % 16) * 4 ∷ []) (omega (arith, h.1.0))
        (base64_digits-cons ((b % 16) * 4) [] [] (omega arith) refl))
base64_digits-encode (a ∷ b ∷ c ∷ s) h =
    base64_digits-cons (a / 4)
      (base64_char (a % 4 * 16 + b / 16)
        ∷ base64_char (b % 16 * 4 + c / 64)
        ∷ base64_char (c % 64)
        ∷ base64_encode s)
      (((a % 4) * 16 + b / 16) ∷ ((b % 16) * 4 + c / 64) ∷ c % 64 ∷ digits s) (omega (arith, h.0))
      (base64_digits-cons ((a % 4) * 16 + b / 16)
        (base64_char (b % 16 * 4 + c / 64) ∷ base64_char (c % 64) ∷ base64_encode s)
        (((b % 16) * 4 + c / 64) ∷ c % 64 ∷ digits s) (omega (arith, h.1.0))
        (base64_digits-cons ((b % 16) * 4 + c / 64) (base64_char (c % 64) ∷ base64_encode s)
          (c % 64 ∷ digits s) (omega (arith, h.1.1.0))
          (base64_digits-cons (c % 64) (base64_encode s) (digits s) (omega arith)
            (base64_digits-encode s h.1.1.1))))

base64_bytes-digits : (s : Bytes) → All IsByte s → base64_bytes (digits s) ≡ some s
unfolding base64_bytes
base64_bytes-digits [] h = refl
base64_bytes-digits (a ∷ []) h = ap (λ t. some (t ∷ [])) (omega arith)
base64_bytes-digits (a ∷ b ∷ []) h =
    ap (λ t. some (t ∷ ((((a % 4) * 16 + b / 16) % 16) * 16 + ((b % 16) * 4) / 4) ∷ []))
      (omega (arith, h.1.0))
    ∙ ap (λ t. some (a ∷ t ∷ [])) (omega (arith, h.1.0))
base64_bytes-digits (a ∷ b ∷ c ∷ s) h =
    let first : (a / 4) * 4 + ((a % 4) * 16 + b / 16) / 16 ≡ a = omega (arith, h.1.0) in
    let second : (((a % 4) * 16 + b / 16) % 16) * 16 + ((b % 16) * 4 + c / 64) / 4 ≡ b =
      omega (arith, h.1.0, h.1.1.0) in
    let third : (((b % 16) * 4 + c / 64) % 4) * 64 + c % 64 ≡ c = omega (arith, h.1.1.0) in
    rw (base64_bytes-digits s h.1.1.1, first, second, third) refl

pub base64_decode-encode : (s : Bytes) → All IsByte s → base64_decode (base64_encode s) ≡ some s
unfolding base64_decode
base64_decode-encode s h = ground (arith, base64_digits-encode s h, base64_bytes-digits s h)
