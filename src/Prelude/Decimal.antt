-- ===== src/Prelude/Decimal.antt =====
-- Python's integers as `str` prints them: the printed texts of two integers differ as they do.
use Prim.Native.Nat.{ℕ, zero, suc, ◌+◌, ◌-◌, ◌*◌, ◌/◌, ◌%◌, ◌<◌}
use Prim.Native.Char.{Char, code}
use Prim.Native.String.{String, ◌++◌ as ◌<>◌}
use Prim.Native.String.append
use mathlib.Core.Path.{◌≡◌, refl, ap, sym, ◌∙◌}
use mathlib.Core.Bool.{Bool, true, false, ◌||◌}
use native.Mathlib.Omega.{arith}
use frontier_refactor_factor.Prelude.Tests.{◌==◌, ltb, ltb→lt, if◌then◌else◌}

pub append_cancel : (p s t : String) → p <> s ≡ p <> t → s ≡ t
append_cancel String.[] s t e = sym (append.nil s) ∙ e ∙ append.nil t
append_cancel (String.◌∷◌ c p) s t e =
    append_cancel p s t (cc (append.cons c p s, append.cons c p t, e))

pub data ℤ : Type 0 where
  pos : ℕ → ℤ
  -- `negsuc n` is `-(n + 1)`
  negsuc : ℕ → ℤ

abbrev pub int_eq : ℤ → ℤ → Bool
int_eq (pos m) (pos n) = m == n
int_eq (negsuc m) (negsuc n) = m == n
int_eq _ _ = false

abbrev digit : ℕ → Char
digit zero = "0"
digit (suc zero) = "1"
digit (suc (suc zero)) = "2"
digit (suc (suc (suc zero))) = "3"
digit (suc (suc (suc (suc zero)))) = "4"
digit (suc (suc (suc (suc (suc zero))))) = "5"
digit (suc (suc (suc (suc (suc (suc zero)))))) = "6"
digit (suc (suc (suc (suc (suc (suc (suc zero))))))) = "7"
digit (suc (suc (suc (suc (suc (suc (suc (suc zero)))))))) = "8"
digit _ = "9"

digits : ℕ → ℕ → String
digits zero n = String.[]
digits (suc fuel) n =
    let rest = digits fuel (n / 10) in
    (if ltb n 10 then String.[] else rest) <> String.◌∷◌ (digit (n % 10)) String.[]

-- `str(n)`: as many digits as the number has, which are fewer than the fuel.
unfoldable pub str_nat : ℕ → String
unfolding digits
str_nat n = digits (suc n) n

abbrev minus : Char
minus = "-"

unfoldable pub str_int : ℤ → String
unfolding str_nat
str_int (pos n) = str_nat n
str_int (negsuc n) = String.◌∷◌ minus (str_nat (suc n))

read : ℕ → String → ℕ
read acc String.[] = acc
read acc (String.◌∷◌ c s) = read (acc * 10 + (code c - 48)) s

read-append :
    (acc : ℕ) (s : String) (c : Char)
    → read acc (s <> String.◌∷◌ c String.[]) ≡ read acc s * 10 + (code c - 48)
unfolding read
read-append acc String.[] c = rw append.nil refl
read-append acc (String.◌∷◌ d s) c = rw append.cons (read-append (acc * 10 + (code d - 48)) s c)

code-digit : (d : ℕ) → d < 10 → code (digit d) ≡ 48 + d
code-digit zero h = refl
code-digit (suc zero) h = refl
code-digit (suc (suc zero)) h = refl
code-digit (suc (suc (suc zero))) h = refl
code-digit (suc (suc (suc (suc zero)))) h = refl
code-digit (suc (suc (suc (suc (suc zero))))) h = refl
code-digit (suc (suc (suc (suc (suc (suc zero)))))) h = refl
code-digit (suc (suc (suc (suc (suc (suc (suc zero))))))) h = refl
code-digit (suc (suc (suc (suc (suc (suc (suc (suc zero)))))))) h = refl
code-digit (suc (suc (suc (suc (suc (suc (suc (suc (suc zero))))))))) h = refl
code-digit (suc (suc (suc (suc (suc (suc (suc (suc (suc (suc d)))))))))) h = omega arith

read-first :
    (b : Bool) (s : String) (n : ℕ)
    → (b ≡ true → n ≡ 0)
    → (b ≡ false → read 0 s ≡ n)
    → read 0 (if b then String.[] else s) ≡ n
unfolding read
read-first true s n h k = sym (h refl)
read-first false s n h k = k refl

read-digits : (fuel n : ℕ) → n < fuel → read 0 (digits fuel n) ≡ n
unfolding digits
read-digits zero n h = elim h [ ]
read-digits (suc fuel) n h =
    let d = code-digit (n % 10) (omega arith) in
    let s = if ltb n 10 then String.[] else digits fuel (n / 10) in
    let first =
      read-first (ltb n 10) (digits fuel (n / 10)) (n / 10) (λ e. omega (arith, ltb→lt n 10 e))
        (λ e. read-digits fuel (n / 10) (ground arith)) in
    read-append 0 s (digit (n % 10)) ∙ ground (arith, d, first)

read-str_nat : (n : ℕ) → read 0 (str_nat n) ≡ n
unfolding str_nat
read-str_nat n = read-digits (suc n) n (omega arith)

-- `"-" in s`
has_minus : String → Bool
has_minus String.[] = false
has_minus (String.◌∷◌ c s) = code c == 45 || has_minus s

has_minus-append :
    (b : Bool) (s : String) (c : Char)
    → has_minus s ≡ false
    → 45 < code c
    → has_minus ((if b then String.[] else s) <> String.◌∷◌ c String.[]) ≡ false
unfolding has_minus
has_minus-append true s c h k = rw append.nil (ground arith)
has_minus-append false String.[] c h k = rw append.nil (ground arith)
has_minus-append false (String.◌∷◌ d s) c h k =
    rw append.cons (ground (arith, has_minus-append false s c))

has_minus-digits : (fuel n : ℕ) → has_minus (digits fuel n) ≡ false
unfolding has_minus digits
has_minus-digits zero n = refl
has_minus-digits (suc fuel) n =
    has_minus-append (ltb n 10) (digits fuel (n / 10)) (digit (n % 10))
      (has_minus-digits fuel (n / 10)) (omega (arith, code-digit (n % 10) (omega arith)))

str_nat-minus : (m : ℕ) (s : String) → str_nat m ≡ String.◌∷◌ minus s → ⊥
unfolding str_nat has_minus
str_nat-minus m s e = let h = sym (ap has_minus e) ∙ has_minus-digits (suc m) m in ground (arith, h)

pub str_nat-injective : (m n : ℕ) → str_nat m ≡ str_nat n → m ≡ n
str_nat-injective m n e = sym (read-str_nat m) ∙ ap (read 0) e ∙ read-str_nat n

pub str_int-injective : (i j : ℤ) → str_int i ≡ str_int j → i ≡ j
unfolding str_int
str_int-injective (pos m) (pos n) e = ap pos (str_nat-injective m n e)
str_int-injective (pos m) (negsuc n) e = absurd (str_nat-minus m (str_nat (suc n)) e)
str_int-injective (negsuc m) (pos n) e = absurd (str_nat-minus n (str_nat (suc m)) (sym e))
str_int-injective (negsuc m) (negsuc n) e =
    let f = str_nat-injective (suc m) (suc n) (cc e) in ap negsuc (omega (arith, f))

abbrev pub char_count : String → ℕ
char_count String.[] = 0
char_count (String.◌∷◌ c s) = suc (char_count s)

abbrev pub pad : ℕ → String → String
pad zero s = s
pad (suc n) s = String.◌∷◌ (digit 0) (pad n s)

-- `"%04d" % n`
unfoldable pub padded : ℕ → String
unfolding str_nat
padded n = pad (4 - char_count (str_nat n)) (str_nat n)

read-pad : (k : ℕ) (s : String) → read 0 (pad k s) ≡ read 0 s
unfolding read
read-pad zero s = refl
read-pad (suc k) s = read-pad k s

pub padded-injective : (m n : ℕ) → padded m ≡ padded n → m ≡ n
unfolding padded
padded-injective m n e =
    let r = λ (k : ℕ). read-pad (4 - char_count (str_nat k)) (str_nat k) ∙ read-str_nat k in
    sym (r m) ∙ ap (read 0) e ∙ r n
