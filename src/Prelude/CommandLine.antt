-- ===== src/Prelude/CommandLine.antt =====
-- Command lines: what `getopt` hands over, and `std::stoi` and `std::stoul` on its arguments.
use Prim.Native.Char.{code}
use Prim.Native.String.{String}
use context_switching.Prelude.{
  ℕ, ◌+◌, ◌-◌, ◌*◌, ◌^◌, ◌%◌, ◌≤◌, ◌<◌, Bool, true, false, ◌&&◌, ◌||◌, List, [], ◌∷◌, ltb, leb,
  ◌==◌, ◌≡◌, refl, subst, arith, if◌then◌else◌,
}
use context_switching.Prelude.Int.{ℤ, pos, negsuc, pos_part, neg_part}
use context_switching.Prelude.Words.{u64}

-- The code points of a text: its bytes, if it is ASCII.
abbrev pub codes : String → List ℕ
codes String.[] = []
codes (String.◌∷◌ c s) = code c ∷ codes s

-- One option as `getopt` returns it, with `optarg`.
pub record Opt : Type 0 where
  pub opt : ℕ
  pub optarg : String

pub data Exception : Type 0 where
  invalid_argument out_of_range : Exception

pub data Parsed {ℓ} (A : Type ℓ) : Type ℓ where
  value : A → Parsed A
  throws : Exception → Parsed A

-- How the reading of a command line ends: with a configuration to run, with the exit status that
-- `main` returns, or with an exception that nothing catches.
pub data Outcome {ℓ} (A : Type ℓ) : Type ℓ where
  run : A → Outcome A
  exit : ℕ → Outcome A
  uncaught : Exception → Outcome A

is_digit : ℕ → Bool
is_digit c = leb b'0' c && leb c b'9'

is_space : ℕ → Bool
is_space c = c == b' ' || (leb 9 c && leb c 13)

skip_space : List ℕ → List ℕ
unfolding is_space
skip_space [] = []
skip_space (c ∷ cs) = if is_space c then skip_space cs else c ∷ cs

digits_value : ℕ → List ℕ → ℕ
digits_value acc [] = acc
digits_value acc (c ∷ cs) = if is_digit c then digits_value (acc * 10 + (c - b'0')) cs else acc

-- The magnitude of the digits in front, at least one of which must stand there.
magnitude : List ℕ → Parsed ℕ
unfolding digits_value is_digit
magnitude [] = throws invalid_argument
magnitude (c ∷ cs) = if is_digit c then value (digits_value 0 (c ∷ cs)) else throws invalid_argument

-- A minus sign, or an optional plus sign, and the rest.
sign : List ℕ → Bool × List ℕ
sign [] = (false, [])
sign (c ∷ cs) = if c == b'-' then (true, cs) else if c == b'+' then (false, cs) else (false, c ∷ cs)

-- The value with its sign, if `int` holds it.
to_int : Bool → ℕ → Parsed ℤ
to_int false n = if ltb n (2 ^ 31) then value (pos n) else throws out_of_range
to_int true n =
    if n == 0
    then value (pos 0)
    else if leb n (2 ^ 31)
    then value (negsuc (n - 1))
    else throws out_of_range

-- `strtoul` negates a value with a minus sign in the unsigned type.
to_unsigned : Bool → ℕ → Parsed ℕ
to_unsigned false n = if ltb n (2 ^ 64) then value n else throws out_of_range
to_unsigned true n = if ltb n (2 ^ 64) then value ((2 ^ 64 - n) % 2 ^ 64) else throws out_of_range

infixl 5 ◌>>=◌
abbrev pub ◌>>=◌ {ℓ κ} : {A : Type ℓ} {B : Type κ} → Parsed A → (A → Parsed B) → Parsed B
value a >>= f = f a
throws e >>= f = throws e

unfoldable pub stoi : String → Parsed ℤ
unfolding skip_space sign magnitude to_int
stoi s = let (minus, t) = sign (skip_space (codes s)) in magnitude t >>= to_int minus

-- What `stoi` returns is an `int`.
abbrev pub IsInt : ℤ → Type 0
IsInt n = (pos_part n < 2 ^ 31) × (neg_part n ≤ 2 ^ 31)

to_int-IsInt : (minus : Bool) (m : ℕ) (n : ℤ) → to_int minus m ≡ value n → IsInt n
unfolding to_int
to_int-IsInt false m n e = ground arith
to_int-IsInt true m n e = ground arith

magnitude_then-IsInt :
    (r : Parsed ℕ) (minus : Bool) (n : ℤ) → (r >>= to_int minus) ≡ value n → IsInt n
magnitude_then-IsInt (value m) minus n e = to_int-IsInt minus m n e
magnitude_then-IsInt (throws x) minus n e = cc

pub stoi-IsInt : (s : String) (n : ℤ) → stoi s ≡ value n → IsInt n
unfolding stoi
stoi-IsInt s n e =
    let (minus, t) = sign (skip_space (codes s)) in magnitude_then-IsInt (magnitude t) minus n e

unfoldable pub stoul : String → Parsed ℕ
unfolding skip_space sign magnitude to_unsigned
stoul s = let (minus, t) = sign (skip_space (codes s)) in magnitude t >>= to_unsigned minus

-- The rest of a `case` that reads a number: an exception ends the program.
abbrev pub reading {ℓ κ} : {A : Type ℓ} {B : Type κ} → Parsed A → (A → Outcome B) → Outcome B
reading (value a) f = f a
reading (throws e) f = uncaught e

-- The conversion of an `int` to `size_t`.
abbrev pub to_size : ℤ → ℕ
to_size (pos n) = u64 n
to_size (negsuc n) = 2 ^ 64 - 1 - n

-- `std::string_view(s) == t`.
equal_codes : List ℕ → List ℕ → Bool
equal_codes [] [] = true
equal_codes [] (d ∷ ds) = false
equal_codes (c ∷ cs) [] = false
equal_codes (c ∷ cs) (d ∷ ds) = (c == d) && equal_codes cs ds

unfoldable pub same_text : String → String → Bool
unfolding equal_codes
same_text s t = equal_codes (codes s) (codes t)

-- The rest of the options, once one has been read.
abbrev and_then {ℓ} : {C : Type ℓ} → Outcome C → (C → Outcome C) → Outcome C
and_then (run c) f = f c
and_then (exit n) f = exit n
and_then (uncaught e) f = uncaught e

-- A loop over the options that `getopt` returns, given what one option does.
unfoldable pub getopt_loop {ℓ} : {C : Type ℓ} → (C → Opt → Outcome C) → C → List Opt → Outcome C
getopt_loop read c [] = run c
getopt_loop read c (o ∷ os) = and_then (read c o) (λ d. getopt_loop read d os)

run_inj {ℓ} : {C : Type ℓ} {c d : C} → run c ≡ run d → c ≡ d
run_inj e = cc

and_then-run {ℓ} :
    {C : Type ℓ} (r : Outcome C) (f : C → Outcome C) {d : C}
    → and_then r f ≡ run d
    → (c : C) × (r ≡ run c) × (f c ≡ run d)
and_then-run (run c) f e = (c, refl, e)
and_then-run (exit n) f e = cc
and_then-run (uncaught x) f e = cc

-- What each option keeps, the loop keeps.
pub getopt_loop-keeps {ℓ ℓ'} :
    {C : Type ℓ} (P : C → Type ℓ') (read : C → Opt → Outcome C)
    → ((c d : C) (o : Opt) → P c → read c o ≡ run d → P d)
    → (os : List Opt) (c d : C) → P c
    → getopt_loop read c os ≡ run d
    → P d
unfolding getopt_loop
getopt_loop-keeps P read keeps [] c d p e = subst P (run_inj e) p
getopt_loop-keeps P read keeps (o ∷ os) c d p e =
    let (c', first, rest) = and_then-run (read c o) (λ d. getopt_loop read d os) e in
    getopt_loop-keeps P read keeps os c' d (keeps c c' o p first) rest
