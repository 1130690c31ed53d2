-- ===== src/Installer/Arguments/Written.antt =====
-- Command lines of the installer, and the options that they write out.
use native.Mathlib.Nat.{pow-succ'}
use free_nt.Base.{
  ℕ, ◌+◌, ◌-◌, ◌*◌, ◌^◌, ◌<◌, ◌≤◌, ◌≡◌, refl, ◌∙◌, ap, Bool, true, false, List, [], ◌∷◌, ◌++◌, ◌==◌,
  leb, ◌&&◌, if◌then◌else◌, codes, same_text, ℤ, pos, sub_ℕ, inl, inr, take_all, length, map, arith,
  Bool-cases,
}
use free_nt.Installer.{Text, Config, is_space, skip_spaces, read_digits, read_int}
use free_nt.Installer.Arguments.{takes_value, set_option, set_flag_option, parse_arguments}

-- A number as its sign and its decimal digits, the number that they stand for by their places, and its text.
pub record Decimal : Type 0 where
  pub negative : Bool
  pub digits : List ℕ

abbrev pub by_places : List ℕ → ℕ
by_places [] = 0
by_places (d ∷ ds) = d * 10 ^ length ds + by_places ds

abbrev pub value : Decimal → ℤ
value n = if n.negative then sub_ℕ 0 (by_places n.digits) else pos (by_places n.digits)

abbrev pub digit_text : List ℕ → Text
digit_text ds = map (λ d. b'0' + d) ds

abbrev pub text_of : Decimal → Text
text_of n = if n.negative then b'-' ∷ digit_text n.digits else digit_text n.digits

abbrev pub AreDigits : List ℕ → Type 0
AreDigits [] = Unit {0}
AreDigits (d ∷ ds) = (d < 10) × AreDigits ds

-- The digits are decimal digits, and the number is one of an `int`.
abbrev pub IsInt : Decimal → Type 0
IsInt n = AreDigits n.digits × (by_places n.digits < 2 ^ 31)

-- What an option says.
pub data Opt : Type 0 where
  disk : Decimal → Opt
  index : Decimal → Opt
  wim : Text → Opt
  bios : Opt
  uefi : Opt
  kernel : Opt
  word : Text → Opt

abbrev pub written : Opt → List Text
written (disk n) = codes "--disk" ∷ text_of n ∷ []
written (index n) = codes "--index" ∷ text_of n ∷ []
written (wim path) = codes "--wim" ∷ path ∷ []
written bios = codes "--bios" ∷ []
written uefi = codes "--uefi" ∷ []
written kernel = codes "--freent-kernel" ∷ []
written (word arg) = arg ∷ []

abbrev pub said : Opt → Config → Config
said (disk n) c = record c { disk_number = value n }
said (index n) c = record c { wim_index = value n }
said (wim path) c = record c { wim_path = path }
said bios c = record c { partition_style = b'B' }
said uefi c = record c { partition_style = b'U' }
said kernel c = record c { freent_kernel = true }
said (word arg) c = c

-- Numbers are those of an `int`, a path fits its array, and a further word is none of the options.
abbrev pub IsWritable : Opt → Type 0
IsWritable (disk n) = IsInt n
IsWritable (index n) = IsInt n
IsWritable (wim path) = length path ≤ 259
IsWritable bios = Unit {0}
IsWritable uefi = Unit {0}
IsWritable kernel = Unit {0}
IsWritable (word arg) =
    (takes_value arg ≡ false)
    × (same_text arg (codes "--bios") ≡ false)
    × (same_text arg (codes "--uefi") ≡ false)
    × (same_text arg (codes "--freent-kernel") ≡ false)

abbrev pub AreWritable : List Opt → Type 0
AreWritable [] = Unit {0}
AreWritable (o ∷ os) = IsWritable o × AreWritable os

abbrev pub command_line : List Opt → List Text
command_line [] = []
command_line (o ∷ os) = written o ++ command_line os

-- The options one after the other, so that the last word on a field stands.
abbrev pub all_said : List Opt → Config → Config
all_said [] c = c
all_said (o ∷ os) c = all_said os (said o c)

digit-is_digit : (d : ℕ) → d < 10 → leb b'0' (b'0' + d) && leb (b'0' + d) b'9' ≡ true
digit-is_digit d h = ground arith

place_step : (n d p r : ℕ) → (n * 10 + (b'0' + d - b'0')) * p + r ≡ n * (10 * p) + (d * p + r)
place_step n d p r = grind arith

read_digits-digit_text :
    (ds : List ℕ) (n : ℕ)
    → AreDigits ds
    → read_digits (digit_text ds) n ≡ n * 10 ^ length ds + by_places ds
unfolding read_digits
read_digits-digit_text [] n h = omega arith
read_digits-digit_text (d ∷ ds) n h =
    rw (read_digits, digit-is_digit d h.0, pow-succ' 10 (length ds))
      (read_digits-digit_text ds (n * 10 + (b'0' + d - b'0')) h.1
        ∙ place_step n d (10 ^ length ds) (by_places ds))

read_digits-by_places : (ds : List ℕ) → AreDigits ds → read_digits (digit_text ds) 0 ≡ by_places ds
read_digits-by_places ds h = read_digits-digit_text ds 0 h ∙ omega arith

read_int-digit_text : (ds : List ℕ) → AreDigits ds → read_int (digit_text ds) ≡ pos (by_places ds)
unfolding read_int skip_spaces
read_int-digit_text [] h = refl
read_int-digit_text (d ∷ ds) h =
    let shown : is_space (b'0' + d) ≡ false = ground (arith, h.0) in
    let no_minus : (b'0' + d == b'-') ≡ false = ground arith in
    let no_plus : (b'0' + d == b'+') ≡ false = ground arith in
    rw (shown, no_minus, no_plus) (ap (λ n. pos n) (read_digits-by_places (d ∷ ds) h))

read_int-text_of : (n : Decimal) → IsInt n → read_int (text_of n) ≡ value n
unfolding read_int skip_spaces
read_int-text_of n h = elim (Bool-cases n.negative) [
  | inl minus ↦ rw minus (ap (λ v. sub_ℕ 0 v) (read_digits-by_places n.digits h.0))
  | inr plus ↦ rw plus (read_int-digit_text n.digits h.0)
]

parse_arguments-flag :
    (arg : Text) (args : List Text) (c : Config)
    → takes_value arg ≡ false
    → parse_arguments (arg ∷ args) c ≡ parse_arguments args (set_flag_option arg c)
unfolding parse_arguments
parse_arguments-flag arg [] c flag = refl
parse_arguments-flag arg (value ∷ args) c flag = rw (parse_arguments, flag) refl

set_flag_option-word : (arg : Text) (c : Config) → IsWritable (word arg) → set_flag_option arg c ≡ c
unfolding set_flag_option
set_flag_option-word arg c h = rw (h.1, h.2, h.3) refl

parse_arguments-option :
    (o : Opt) (args : List Text) (c : Config)
    → IsWritable o
    → parse_arguments (written o ++ args) c ≡ parse_arguments args (said o c)
unfolding parse_arguments set_option set_flag_option
parse_arguments-option (disk n) args c h =
    ap (λ v. parse_arguments args (record c { disk_number = v })) (read_int-text_of n h)
parse_arguments-option (index n) args c h =
    ap (λ v. parse_arguments args (record c { wim_index = v })) (read_int-text_of n h)
parse_arguments-option (wim path) args c h =
    ap (λ p. parse_arguments args (record c { wim_path = p })) (take_all 259 path h)
parse_arguments-option bios args c h = parse_arguments-flag (codes "--bios") args c refl
parse_arguments-option uefi args c h = parse_arguments-flag (codes "--uefi") args c refl
parse_arguments-option kernel args c h = parse_arguments-flag (codes "--freent-kernel") args c refl
parse_arguments-option (word arg) args c h =
    parse_arguments-flag arg args c h.0
    ∙ ap (λ d. parse_arguments args d) (set_flag_option-word arg c h)

-- A command line that writes out any options in any order and number, with words between them that are no
-- options, gives the configuration that the options say one after the other, the last one on a
-- field deciding: numbers by their sign and decimal digits, if they are those of an `int`, and
-- paths of at most 259 characters.
pub parse_arguments-command_line :
    (os : List Opt) (c : Config)
    → AreWritable os
    → parse_arguments (command_line os) c ≡ all_said os c
unfolding parse_arguments
parse_arguments-command_line [] c h = refl
parse_arguments-command_line (o ∷ os) c h =
    parse_arguments-option o (command_line os) c h.0
    ∙ parse_arguments-command_line os (said o c) h.1
