-- ===== src/Merge/Commit/Decimals.antt =====
-- A number is determined by its decimal digits, none of which is a space.
use Prim.Native.String.{◌++◌}
use dohwa_hermes_stack.Base.{
  ℕ, zero, suc, ◌+◌, ◌-◌, ◌*◌, ◌/◌, ◌%◌, ◌<◌, ◌≡◌, refl, sym, ap, ◌∙◌, subst, true, List, [], ◌∷◌,
  String, arith, ltb, codes, digit_text, decimal_digits, decimal_text, Bool-cases, inl, inr,
}
use dohwa_hermes_stack.Approval.Checks.{digits_value}
use dohwa_hermes_stack.Merge.Commit.{append_codes}
use dohwa_hermes_stack.Merge.Commit.Codes.{codes-append, is_free}

digits_value-append_codes :
    (acc : ℕ) (cs : List ℕ) (d : ℕ)
    → digits_value acc (append_codes cs (d ∷ [])) ≡ digits_value acc cs * 10 + (d - b'0')
digits_value-append_codes acc [] d = refl
digits_value-append_codes acc (c ∷ cs) d = digits_value-append_codes (acc * 10 + (c - b'0')) cs d

is_free-append_codes :
    (separator : ℕ) (cs ds : List ℕ)
    → is_free separator cs ≡ true
    → is_free separator ds ≡ true
    → is_free separator (append_codes cs ds) ≡ true
is_free-append_codes separator [] ds p q = q
is_free-append_codes separator (c ∷ cs) ds p q =
    let rest = is_free-append_codes separator cs ds (ground arith) q in ground (arith, rest)

codes-digit_text : (d : ℕ) → d < 10 → codes (digit_text d) ≡ (b'0' + d) ∷ []
codes-digit_text zero h = refl
codes-digit_text (suc zero) h = refl
codes-digit_text (suc (suc zero)) h = refl
codes-digit_text (suc (suc (suc zero))) h = refl
codes-digit_text (suc (suc (suc (suc zero)))) h = refl
codes-digit_text (suc (suc (suc (suc (suc zero))))) h = refl
codes-digit_text (suc (suc (suc (suc (suc (suc zero)))))) h = refl
codes-digit_text (suc (suc (suc (suc (suc (suc (suc zero))))))) h = refl
codes-digit_text (suc (suc (suc (suc (suc (suc (suc (suc zero)))))))) h = refl
codes-digit_text (suc (suc (suc (suc (suc (suc (suc (suc (suc zero))))))))) h = refl
codes-digit_text (suc (suc (suc (suc (suc (suc (suc (suc (suc (suc d)))))))))) h =
    absurd (omega (arith, h))

-- What the digits of a number satisfy.
abbrev AreDigits : String → ℕ → Type 0
AreDigits s n = (digits_value 0 (codes s) ≡ n) × (is_free b' ' (codes s) ≡ true)

AreDigits-append :
    (s : String) (n d : ℕ) → d < 10 → AreDigits s n → AreDigits (s ++ digit_text d) (n * 10 + d)
AreDigits-append s n d small (value, free) =
    let e =
      codes-append s (digit_text d) ∙ ap (append_codes (codes s)) (codes-digit_text d small) in
    let v = digits_value-append_codes 0 (codes s) (b'0' + d) in
    let f = is_free-append_codes b' ' (codes s) ((b'0' + d) ∷ []) free (ground arith) in
    (ap (digits_value 0) e ∙ (v ∙ omega (arith, value)), ap (is_free b' ') e ∙ f)

AreDigits-digit : (d : ℕ) → d < 10 → AreDigits (digit_text d) d
AreDigits-digit d small =
    let e = codes-digit_text d small in
    (ap (digits_value 0) e ∙ omega arith, ap (is_free b' ') e ∙ ground arith)

decimal_digits-AreDigits : (fuel n : ℕ) → n < fuel → AreDigits (decimal_digits fuel n) n
unfolding decimal_digits
decimal_digits-AreDigits zero n h = absurd (omega (arith, h))
decimal_digits-AreDigits (suc fuel) n h = elim (Bool-cases (ltb n 10)) [
  | inl small ↦ rw small (AreDigits-digit n (ground arith))
  | inr large ↦
      let higher = decimal_digits-AreDigits fuel (n / 10) (ground arith) in
      let e : n / 10 * 10 + n % 10 ≡ n = omega arith in
      rw large (
        subst (λ x. AreDigits (decimal_digits fuel (n / 10) ++ digit_text (n % 10)) x) e
          (AreDigits-append (decimal_digits fuel (n / 10)) (n / 10) (n % 10) (omega arith) higher))
]

pub decimal_text-AreDigits : (n : ℕ) → AreDigits (decimal_text n) n
unfolding decimal_text
decimal_text-AreDigits n = decimal_digits-AreDigits (suc n) n (omega arith)

pub decimal_text_injective : (m n : ℕ) → codes (decimal_text m) ≡ codes (decimal_text n) → m ≡ n
decimal_text_injective m n h =
    sym (decimal_text-AreDigits m).0 ∙ (ap (digits_value 0) h ∙ (decimal_text-AreDigits n).0)
