-- ===== src/Approval/Checks.antt =====
-- The value checks at the end of reviewer/approval.py. A check returns the checked value or raises.
use dohwa_hermes_stack.Base.{
  ℕ, ◌+◌, ◌-◌, ◌*◌, ◌/◌, ◌^◌, ◌≤◌, ◌<◌, ◌≡◌, Bool, true, false, not, ◌&&◌, ◌||◌, List, [], ◌∷◌,
  String, arith, ltb, leb, ◌==◌, ◌=t◌, all, length, Result, ok, err, value_error, if◌then◌else◌,
  Value, int, str, datetime, pos, codes,
}

-- `2**63 - 1`.
abbrev pub max_int64 : ℕ
max_int64 = 2 ^ 63 - 1

unfoldable pub positive_int : Value → Result ℕ
positive_int (int (pos n)) =
    if n == 0 || ltb max_int64 n
    then err (value_error "must be a positive signed 64-bit integer")
    else ok n
positive_int _ = err (value_error "must be a positive signed 64-bit integer")

unfoldable pub nonnegative_int : Value → Result ℕ
nonnegative_int (int (pos n)) =
    if ltb max_int64 n
    then err (value_error "must be a non-negative signed 64-bit integer")
    else ok n
nonnegative_int _ = err (value_error "must be a non-negative signed 64-bit integer")

-- Rounds up. Times are microseconds, monotonic clocks are nanoseconds.
unfoldable pub ceil_ns_to_microseconds : ℕ → ℕ
ceil_ns_to_microseconds value = (value + 999) / 1_000

-- Every ASCII character for which `str.isspace` holds has a code below 0x21.
abbrev is_token_code : ℕ → Bool
is_token_code c = ltb c 128 && not (ltb c 0x21)

unfoldable pub ascii_token : ℕ → Value → Result String
ascii_token maximum (str s) =
    if s =t "" || (ltb maximum (length (codes s)) || not (all is_token_code (codes s)))
    then err (value_error "must be a non-empty canonical ASCII token")
    else ok s
ascii_token maximum _ = err (value_error "must be a non-empty canonical ASCII token")

unfoldable pub utc_datetime : Value → Result ℕ
utc_datetime (datetime true t) = ok t
utc_datetime _ = err (value_error "must be a timezone-aware UTC datetime")

-- A lowercase hexadecimal digit, `[0-9a-f]`.
abbrev pub is_hex_code : ℕ → Bool
is_hex_code c = (leb b'0' c && leb c b'9') || (leb b'a' c && leb c b'f')

unfoldable pub is_hex : ℕ → String → Bool
is_hex n s = length (codes s) == n && all is_hex_code (codes s)

unfoldable pub sha1 : Value → Result String
unfolding is_hex
sha1 (str s) = if is_hex 40 s then ok s else err (value_error "must be a lowercase SHA-1")
sha1 _ = err (value_error "must be a lowercase SHA-1")

unfoldable pub sha256 : Value → Result String
unfolding is_hex
sha256 (str s) = if is_hex 64 s then ok s else err (value_error "must be a lowercase SHA-256")
sha256 _ = err (value_error "must be a lowercase SHA-256")

-- The value of a text of decimal digits, most significant first.
abbrev pub is_digit_code : ℕ → Bool
is_digit_code c = leb b'0' c && leb c b'9'

abbrev pub digits_value : ℕ → List ℕ → ℕ
digits_value acc [] = acc
digits_value acc (c ∷ cs) = digits_value (acc * 10 + (c - b'0')) cs

abbrev starts_with_zero : List ℕ → Bool
starts_with_zero [] = false
starts_with_zero (c ∷ cs) = c == b'0'

-- `isdigit` is read on ASCII texts only, since `isascii` is tested before it.
decimal_codes : List ℕ → Result ℕ
unfolding positive_int
decimal_codes cs =
    if length cs == 0 || not (all (λ c. ltb c 128) cs)
    then err (value_error "must be canonical decimal")
    else if not (all is_digit_code cs) || starts_with_zero cs
    then err (value_error "must be positive decimal without leading zero")
    else positive_int (int (pos (digits_value 0 cs)))

unfoldable pub decimal : Value → Result ℕ
unfolding decimal_codes
decimal (str s) = decimal_codes (codes s)
decimal _ = err (value_error "must be canonical decimal")

-- What passes a check of an integer lies in the signed 64-bit range.
pub positive_int_bounds : (v : Value) {n : ℕ} → positive_int v ≡ ok n → (0 < n) × (n ≤ max_int64)
unfolding positive_int
positive_int_bounds v h = ground arith
