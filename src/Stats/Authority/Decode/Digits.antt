-- ===== src/Stats/Authority/Decode/Digits.antt =====
-- Hexadecimal digits, and reading them back.
use thorflux.Base.{
  ℕ, zero, suc, ◌+◌, ◌-◌, ◌*◌, ◌/◌, ◌%◌, ◌^◌, ◌<◌, ◌≡◌, refl, sym, ap, ◌∙◌, inl, inr, false, none,
  some, List, [], ◌∷◌, ◌++◌, arith, ltb, ◌==◌, if◌then◌else◌, Bool-cases, Option-cases, length,
  length-append,
}
use thorflux.Stats.Authority.Decode.{digit, digits_from, signed, set_string, decode_string}

abbrev pub hex_digit : ℕ → ℕ
hex_digit d = if ltb d 10 then b'0' + d else b'a' + (d - 10)

-- The low `k` hexadecimal digits of a number.
abbrev pub hex : (k n : ℕ) → List ℕ
hex zero n = []
hex (suc k) n = hex k (n / 16) ++ hex_digit (n % 16) ∷ []

pub length-hex : (k n : ℕ) → length (hex k n) ≡ k
length-hex zero n = refl
length-hex (suc k) n =
    omega (arith, length-append (hex k (n / 16)) (hex_digit (n % 16) ∷ []), length-hex k (n / 16))

digit-hex_digit : (d : ℕ) → d < 16 → digit (hex_digit d) ≡ some d
unfolding digit
digit-hex_digit d h = ground arith

digits_from_step :
    (n c d : ℕ) (cs : List ℕ)
    → digit c ≡ some d
    → digits_from n (c ∷ cs) ≡ digits_from (n * 16 + d) cs
unfolding digits_from
digits_from_step n c d cs e = rw (e, digits_from) refl

digits_from_bad : (n c : ℕ) (cs : List ℕ) → digit c ≡ none → digits_from n (c ∷ cs) ≡ none
unfolding digits_from
digits_from_bad n c cs e = rw (e, digits_from) refl

decode_string_step :
    (n a b h l : ℕ) (cs : List ℕ)
    → digit a ≡ some h
    → digit b ≡ some l
    → decode_string n (a ∷ b ∷ cs) ≡ decode_string (n * 256 + (h * 16 + l)) cs
unfolding decode_string
decode_string_step n a b h l cs e k = rw (e, k, decode_string) refl

digits_from-snoc :
    (n : ℕ) (cs : List ℕ) (c v d : ℕ)
    → digits_from n cs ≡ some v
    → digit c ≡ some d
    → digits_from n (cs ++ c ∷ []) ≡ some (v * 16 + d)
digits_from-snoc n [] c v d h k =
    let same : n ≡ v = unfold digits_from in cc in
    digits_from_step n c d [] k ∙ unfold digits_from in ap (λ m. some (m * 16 + d)) same
digits_from-snoc n (b ∷ cs) c v d h k = elim (Option-cases (digit b)) [
  | inl e ↦ cc (h, digits_from_bad n b cs e)
  | inr (m, e) ↦
      digits_from_step n b m (cs ++ c ∷ []) e
      ∙ digits_from-snoc (n * 16 + m) cs c v d (sym (digits_from_step n b m cs e) ∙ h) k
]

power : (k : ℕ) → 16 ^ suc k ≡ 16 * 16 ^ k
power k = omega arith

pub digits_from-hex : (k n : ℕ) → n < 16 ^ k → digits_from 0 (hex k n) ≡ some n
unfolding digits_from
digits_from-hex zero n h = ap some (omega arith)
digits_from-hex (suc k) n h =
    let high = digits_from-hex k (n / 16) (omega (arith, power k)) in
    digits_from-snoc 0 (hex k (n / 16)) (hex_digit (n % 16)) (n / 16) (n % 16) high
      (digit-hex_digit (n % 16) (omega arith))
    ∙ ap some (omega arith)

-- A text of digits has no sign.
set_string-digits :
    (cs : List ℕ) (v : ℕ)
    → 0 < length cs
    → digits_from 0 cs ≡ some v
    → set_string cs ≡ some (false, v)
unfolding set_string digits_from digit
set_string-digits [] v h e = absurd (omega arith)
set_string-digits (c ∷ cs) v h e = elim (Bool-cases (c == b'-')) [
  | inl m ↦ let minus : c ≡ b'-' = ground arith in cc (rw minus at e)
  | inr m ↦ elim (Bool-cases (c == b'+')) [
    | inl p ↦ let plus : c ≡ b'+' = ground arith in cc (rw plus at e)
    | inr p ↦ rw (m, p) (ap (signed false) e)
  ]
]

pub set_string-hex : (n : ℕ) → n < 16 ^ 64 → set_string (hex 64 n) ≡ some (false, n)
set_string-hex n h =
    set_string-digits (hex 64 n) n (omega (arith, length-hex 64 n)) (digits_from-hex 64 n h)

decode_string-digits :
    (k n v : ℕ) (cs : List ℕ)
    → length cs ≡ k + k
    → digits_from n cs ≡ some v
    → decode_string n cs ≡ v
decode_string-digits k n v [] l e = unfold decode_string digits_from in cc
decode_string-digits zero n v (a ∷ cs) l e = absurd (omega arith)
decode_string-digits (suc k) n v (a ∷ []) l e = absurd (omega arith)
decode_string-digits (suc k) n v (a ∷ b ∷ cs) l e = elim (Option-cases (digit a)) [
  | inl x ↦ cc (e, digits_from_bad n a (b ∷ cs) x)
  | inr (h, x) ↦
      let first = digits_from_step n a h (b ∷ cs) x in
      elim (Option-cases (digit b)) [
        | inl y ↦ cc (e, first, digits_from_bad (n * 16 + h) b cs y)
        | inr (m, y) ↦
            let second = digits_from_step (n * 16 + h) b m cs y in
            let same : (n * 16 + h) * 16 + m ≡ n * 256 + (h * 16 + m) = omega arith in
            let later = rw same at (sym second ∙ sym first ∙ e) in
            decode_string_step n a b h m cs x y
            ∙ decode_string-digits k (n * 256 + (h * 16 + m)) v cs (omega arith) later
      ]
]

pub decode_string-hex : (n : ℕ) → n < 16 ^ 64 → decode_string 0 (hex 64 n) ≡ n
decode_string-hex n h =
    decode_string-digits 32 0 n (hex 64 n) (length-hex 64 n) (digits_from-hex 64 n h)
