-- ===== src/Merge/Commit/Codes.antt =====
-- Texts as lists of codes: a part that ends at a separator is determined by the whole, and so is a
-- text by its UTF-8 bytes.
use Prim.Native.Char.{code}
use Prim.Native.String.{String, ◌++◌}
use Prim.Native.String.append
use text.Mathlib.TextEquality.{Char-path}
use dohwa_hermes_stack.Base.{
  ℕ, ◌+◌, ◌-◌, ◌*◌, ◌/◌, ◌%◌, ◌<◌, ◌≤◌, ◌≡◌, ◌≢◌, refl, sym, ap, ◌∙◌, Bool, true, false, not, List,
  [], ◌∷◌, arith, ltb, ◌==◌, all, codes, if◌then◌else◌, Bool-cases, inl, inr, ◌⊎◌,
}
use dohwa_hermes_stack.Merge.Commit.{append_codes, utf8_of, utf8}

pub codes-append : (s t : String) → codes (s ++ t) ≡ append_codes (codes s) (codes t)
codes-append String.[] t = ap codes (append.nil t)
codes-append (String.◌∷◌ c s) t =
    ap codes (append.cons c s t) ∙ ap (λ x. code c ∷ x) (codes-append s t)

pub codes_injective : (s t : String) → codes s ≡ codes t → s ≡ t
codes_injective String.[] String.[] h = refl
codes_injective String.[] (String.◌∷◌ d t) h = absurd (cc)
codes_injective (String.◌∷◌ c s) String.[] h = absurd (cc)
codes_injective (String.◌∷◌ c s) (String.◌∷◌ d t) h =
    let here = Char-path c d (cc) in let rest = codes_injective s t (cc) in rw (here, rest) refl

pub append_codes_cancel : (p x y : List ℕ) → append_codes p x ≡ append_codes p y → x ≡ y
append_codes_cancel [] x y h = h
append_codes_cancel (c ∷ p) x y h = append_codes_cancel p x y (cc)

-- No code of the list is `separator`.
abbrev pub is_free : ℕ → List ℕ → Bool
is_free separator cs = all (λ c. not (c == separator)) cs

pub append_codes_peel :
    (separator : ℕ) (a b x y : List ℕ)
    → is_free separator a ≡ true
    → is_free separator b ≡ true
    → append_codes a (separator ∷ x) ≡ append_codes b (separator ∷ y)
    → (a ≡ b) × (x ≡ y)
append_codes_peel separator [] [] x y p q h = (refl, cc)
append_codes_peel separator [] (d ∷ b) x y p q h =
    let same : separator ≡ d = cc in absurd (ground arith)
append_codes_peel separator (c ∷ a) [] x y p q h =
    let same : c ≡ separator = cc in absurd (ground arith)
append_codes_peel separator (c ∷ a) (d ∷ b) x y p q h =
    let here : c ≡ d = cc in
    let (rest, later) = append_codes_peel separator a b x y (ground arith) (ground arith) (cc) in
    (rw (here, rest) refl, later)

append_codes_last :
    (c : ℕ) (a b : List ℕ) → append_codes a (c ∷ []) ≡ append_codes b (c ∷ []) → a ≡ b
append_codes_last c [] [] h = refl
append_codes_last c [] (d ∷ []) h = absurd (cc)
append_codes_last c [] (d ∷ e ∷ b) h = absurd (cc)
append_codes_last c (d ∷ []) [] h = absurd (cc)
append_codes_last c (d ∷ e ∷ a) [] h = absurd (cc)
append_codes_last c (d ∷ a) (e ∷ b) h =
    let here : d ≡ e = cc in let rest = append_codes_last c a b (cc) in rw (here, rest) refl

append_codes_assoc :
    (a b x : List ℕ) → append_codes (append_codes a b) x ≡ append_codes a (append_codes b x)
append_codes_assoc [] b x = refl
append_codes_assoc (c ∷ a) b x = ap (λ y. c ∷ y) (append_codes_assoc a b x)

is_free_last :
    (separator c : ℕ) (a : List ℕ)
    → is_free separator a ≡ true
    → (c == separator) ≡ false
    → is_free separator (append_codes a (c ∷ [])) ≡ true
is_free_last separator c [] p q = ground arith
is_free_last separator c (d ∷ a) p q =
    let rest = is_free_last separator c a (ground arith) q in ground (arith, rest)

-- A part that ends at two codes, of which it does not have the second.
pub append_codes_peel_two :
    (separator c : ℕ) (a b x y : List ℕ)
    → (c == separator) ≡ false
    → is_free separator a ≡ true
    → is_free separator b ≡ true
    → append_codes a (c ∷ separator ∷ x) ≡ append_codes b (c ∷ separator ∷ y)
    → (a ≡ b) × (x ≡ y)
append_codes_peel_two separator c a b x y n p q h =
    let e = append_codes_assoc a (c ∷ []) (separator ∷ x) in
    let f = append_codes_assoc b (c ∷ []) (separator ∷ y) in
    let (same, later) =
      append_codes_peel separator (append_codes a (c ∷ [])) (append_codes b (c ∷ [])) x y
        (is_free_last separator c a p n) (is_free_last separator c b q n) (e ∙ h ∙ sym f) in
    (append_codes_last c a b same, later)

-- The four layouts of the bytes of a code.
abbrev Layout : ℕ → Type 0
Layout c =
    (utf8_of c ≡ c ∷ []) × (c < 0x80)
    ⊎ (utf8_of c ≡ (0xC0 + c / 64) ∷ (0x80 + c % 64) ∷ []) × (0x80 ≤ c) × (c < 0x800)
    ⊎ (utf8_of c ≡ (0xE0 + c / 4096) ∷ (0x80 + c / 64 % 64) ∷ (0x80 + c % 64) ∷ []) × (c < 0x10000)
    ⊎ (utf8_of c
        ≡ (0xF0 + c / 262144)
          ∷ (0x80 + c / 4096 % 64)
          ∷ (0x80 + c / 64 % 64)
          ∷ (0x80 + c % 64)
          ∷ [])

utf8_of-Layout : (c : ℕ) → Layout c
unfolding utf8_of
utf8_of-Layout c = elim (Bool-cases (ltb c 0x80)) [
  | inl one ↦ inl (ground arith, ground arith)
  | inr more ↦ elim (Bool-cases (ltb c 0x800)) [
    | inl two ↦ inr (inl (ground arith, ground arith, ground arith))
    | inr more ↦ elim (Bool-cases (ltb c 0x10000)) [
      | inl three ↦ inr (inr (inl (ground arith, ground arith)))
      | inr four ↦ inr (inr (inr (ground arith)))
    ]
  ]
]

-- Reading one code back from its bytes.
abbrev read_two : ℕ → List ℕ → ℕ × List ℕ
read_two b (b1 ∷ r) = ((b - 0xC0) * 64 + (b1 - 0x80), r)
read_two b [] = (b, [])

abbrev read_three : ℕ → List ℕ → ℕ × List ℕ
read_three b (b1 ∷ b2 ∷ r) = ((b - 0xE0) * 4096 + (b1 - 0x80) * 64 + (b2 - 0x80), r)
read_three b r = (b, r)

abbrev read_four : ℕ → List ℕ → ℕ × List ℕ
read_four b (b1 ∷ b2 ∷ b3 ∷ r) =
    ((b - 0xF0) * 262144 + (b1 - 0x80) * 4096 + (b2 - 0x80) * 64 + (b3 - 0x80), r)
read_four b r = (b, r)

abbrev read_code : List ℕ → ℕ × List ℕ
read_code [] = (0, [])
read_code (b ∷ r) =
    if ltb b 0x80
    then (b, r)
    else if ltb b 0xE0
    then read_two b r
    else if ltb b 0xF0
    then read_three b r
    else read_four b r

read_code-utf8_of : (c : ℕ) (x : List ℕ) → read_code (append_codes (utf8_of c) x) ≡ (c, x)
read_code-utf8_of c x = elim (utf8_of-Layout c) [
  | inl (e, p) ↦ let small : ltb c 0x80 ≡ true = ground arith in rw (e, small) refl
  | inr (inl (e, p, q)) ↦
      let b1 : ltb (0xC0 + c / 64) 0x80 ≡ false = ground arith in
      let b2 : ltb (0xC0 + c / 64) 0xE0 ≡ true = ground arith in
      let value : (0xC0 + c / 64 - 0xC0) * 64 + (0x80 + c % 64 - 0x80) ≡ c = omega arith in
      rw (e, b1, b2, value) refl
  | inr (inr (inl (e, p))) ↦
      let b1 : ltb (0xE0 + c / 4096) 0x80 ≡ false = ground arith in
      let b2 : ltb (0xE0 + c / 4096) 0xE0 ≡ false = ground arith in
      let b3 : ltb (0xE0 + c / 4096) 0xF0 ≡ true = ground arith in
      let value : (0xE0 + c / 4096 - 0xE0) * 4096
            + (0x80 + c / 64 % 64 - 0x80) * 64
            + (0x80 + c % 64 - 0x80)
          ≡ c =
        omega arith in
      rw (e, b1, b2, b3, value) refl
  | inr (inr (inr e)) ↦
      let b1 : ltb (0xF0 + c / 262144) 0x80 ≡ false = ground arith in
      let b2 : ltb (0xF0 + c / 262144) 0xE0 ≡ false = ground arith in
      let b3 : ltb (0xF0 + c / 262144) 0xF0 ≡ false = ground arith in
      let value : (0xF0 + c / 262144 - 0xF0) * 262144
            + (0x80 + c / 4096 % 64 - 0x80) * 4096
            + (0x80 + c / 64 % 64 - 0x80) * 64
            + (0x80 + c % 64 - 0x80)
          ≡ c =
        omega arith in
      rw (e, b1, b2, b3, value) refl
]

-- The bytes of a code tell where they end and which code they are of.
utf8_of_peel :
    (c d : ℕ) (x y : List ℕ)
    → append_codes (utf8_of c) x ≡ append_codes (utf8_of d) y
    → (c ≡ d) × (x ≡ y)
utf8_of_peel c d x y h =
    let same : (c, x) ≡ (d, y) =
      sym (read_code-utf8_of c x) ∙ ap read_code h ∙ read_code-utf8_of d y in
    (ap (λ p. p.0) same, ap (λ p. p.1) same)

utf8_of_some : (c : ℕ) (x : List ℕ) → append_codes (utf8_of c) x ≢ []
utf8_of_some c x h = elim (utf8_of-Layout c) [
  | inl (e, p) ↦ absurd (cc)
  | inr (inl (e, p, q)) ↦ absurd (cc)
  | inr (inr (inl (e, p))) ↦ absurd (cc)
  | inr (inr (inr e)) ↦ absurd (cc)
]

pub utf8_injective : (cs ds : List ℕ) → utf8 cs ≡ utf8 ds → cs ≡ ds
unfolding utf8
utf8_injective [] [] h = refl
utf8_injective [] (d ∷ ds) h = absurd (utf8_of_some d (utf8 ds) (sym h))
utf8_injective (c ∷ cs) [] h = absurd (utf8_of_some c (utf8 cs) h)
utf8_injective (c ∷ cs) (d ∷ ds) h =
    let (here, rest) = utf8_of_peel c d (utf8 cs) (utf8 ds) h in
    let later = utf8_injective cs ds rest in rw (here, later) refl
