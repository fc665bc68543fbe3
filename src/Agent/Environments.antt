-- ===== src/Agent/Environments.antt =====
-- agent/environments.py: the probe of a Python executable, for what `subprocess.run` makes of it.
-- Digits are those of ASCII, and `int` takes no underscores.
use Prim.Native.Char.{Char, code}
use Prim.Native.String.{◌++◌ as join}
use model_courier.Prelude.{
  ℕ, zero, suc, ◌+◌, ◌-◌, ◌*◌, String, Bool, true, false, Option, none, some, List, [], ◌∷◌, leb,
  eqb, ◌==◌, ◌&&◌, ◌||◌, if◌then◌else◌,
}
use model_courier.Prelude.Int.{ℤ, pos, negsuc}
use model_courier.Prelude.Texts.{is_blank, strip}
use model_courier.Server.Storage.{of_char}

pub record EnvironmentCheck : Type 0 where
  pub available : Bool
  pub python_version : Option (ℤ × ℤ × ℤ)
  pub error_code : Option String
  pub message : Option String

-- `subprocess.run`: an OSError or a timeout, or the exit code and the output.
pub data Probe : Type 0 where
  not_run : Probe
  completed : (returncode : ℤ) → (stdout : String) → Probe

-- `strip("()")`
abbrev pub is_parenthesis : Char → Bool
is_parenthesis c = eqb (code c) 40 || eqb (code c) 41

-- `text.split(",")`, with the piece so far.
unfoldable pub split_commas : String → String → List String
split_commas piece String.[] = piece ∷ []
split_commas piece (String.◌∷◌ c rest) =
    let ended = split_commas "" rest in
    let longer = split_commas (join piece (of_char c)) rest in
    if eqb (code c) 44 then piece ∷ ended else longer

-- The decimal digits after a sign, with the value so far.
unfoldable pub digits : ℕ → String → Option ℕ
digits value String.[] = some value
digits value (String.◌∷◌ c rest) =
    let longer = digits (10 * value + (code c - 48)) rest in
    if leb 48 (code c) && leb (code c) 57 then longer else none

abbrev pub number : String → Option ℕ
number text = if text == "" then none else digits 0 text

abbrev pub negated : ℕ → ℤ
negated zero = pos zero
negated (suc n) = negsuc n

abbrev pub positive : Option ℕ → Option ℤ
positive none = none
positive (some n) = some (pos n)

abbrev pub negative : Option ℕ → Option ℤ
negative none = none
negative (some n) = some (negated n)

-- `int(piece)`; `none` is the ValueError.
unfoldable pub int_of : String → Option ℤ
int_of String.[] = none
int_of (String.◌∷◌ c rest) =
    if eqb (code c) 45
    then negative (number rest)
    else if eqb (code c) 43
    then positive (number rest)
    else positive (number (String.◌∷◌ c rest))

abbrev pub version_of : Option ℤ → Option ℤ → Option ℤ → Option (ℤ × ℤ × ℤ)
version_of (some a) (some b) (some c) = some (a, b, c)
version_of _ _ _ = none

abbrev pub version_pieces : List String → Option (ℤ × ℤ × ℤ)
version_pieces (a ∷ b ∷ c ∷ []) =
    version_of (int_of (strip is_blank a)) (int_of (strip is_blank b)) (int_of (strip is_blank c))
version_pieces _ = none

unfoldable pub parse_version : String → Option (ℤ × ℤ × ℤ)
parse_version output =
    version_pieces (split_commas "" (strip is_parenthesis (strip is_blank output)))

abbrev pub unavailable : String → String → EnvironmentCheck
unavailable error_code message = record {
  available = false;
  python_version = none;
  error_code = some error_code;
  message = some message;
}

abbrev pub version_check : Option (ℤ × ℤ × ℤ) → EnvironmentCheck
version_check none = unavailable "invalid_probe" "Python returned an invalid version"
version_check (some version) = record {
  available = true;
  python_version = some version;
  error_code = none;
  message = none;
}

abbrev pub probe_check : Probe → EnvironmentCheck
probe_check not_run = unavailable "probe_failed" "Python version probe failed"
probe_check (completed (pos zero) stdout) = version_check (parse_version stdout)
probe_check (completed returncode stdout) = unavailable "probe_failed" "Python version probe failed"

-- `inspect`, for what the file system says of the executable.
abbrev pub inspect : (String → Bool) → String → (String → Probe) → EnvironmentCheck
inspect is_file executable run =
    if is_file executable
    then probe_check (run executable)
    else unavailable "executable_missing" "Python executable was not found"
