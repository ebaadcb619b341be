-- ===== src/Console.antt =====
-- system/console_linux.cpp: whether a stream's terminal shows colours, which is asked again only now
-- and then, and the coloured output.
pub mod Sampling
mod Tests
use Prim.Native.Nat.{bit_and}
use Prim.Native.String.{String}
use text.Mathlib.Text.{◌==◌ as str_eq}
use prot.Prelude.{
  ℕ, ◌+◌, ◌-◌, ◌%◌, ◌^◌, Bool, true, false, not, ◌&&◌, ◌||◌, ◌==◌, if◌then◌else◌, Option, none,
  some, List, [], ◌∷◌, ◌++◌,
}

-- `STDFILE`
pub data StdFile : Type 0 where
  std_in std_out std_err : StdFile

-- `Console::Color`, in its order; DefaultText is DarkWhite, Gray is DarkBlack, Purple is DarkPink.
pub data Color : Type 0 where
  black white dark_white dark_black red green blue yellow : Color
  pink cyan dark_red dark_green dark_blue dark_yellow dark_pink dark_cyan : Color

-- `_PCON_COLTB`: the numbers n of the sequences `\033[nm` of a colour.
unfoldable pub color_codes : Color → List ℕ
color_codes black = 1 ∷ 30 ∷ []
color_codes white = 1 ∷ 37 ∷ []
color_codes dark_white = 37 ∷ []
color_codes dark_black = 30 ∷ []
color_codes red = 1 ∷ 31 ∷ []
color_codes green = 1 ∷ 32 ∷ []
color_codes blue = 1 ∷ 34 ∷ []
color_codes yellow = 1 ∷ 33 ∷ []
color_codes pink = 1 ∷ 35 ∷ []
color_codes cyan = 1 ∷ 36 ∷ []
color_codes dark_red = 31 ∷ []
color_codes dark_green = 32 ∷ []
color_codes dark_blue = 34 ∷ []
color_codes dark_yellow = 33 ∷ []
color_codes dark_pink = 35 ∷ []
color_codes dark_cyan = 36 ∷ []

abbrev is_dark_white : Color → Bool
is_dark_white dark_white = true
is_dark_white black = false
is_dark_white white = false
is_dark_white dark_black = false
is_dark_white red = false
is_dark_white green = false
is_dark_white blue = false
is_dark_white yellow = false
is_dark_white pink = false
is_dark_white cyan = false
is_dark_white dark_red = false
is_dark_white dark_green = false
is_dark_white dark_blue = false
is_dark_white dark_yellow = false
is_dark_white dark_pink = false
is_dark_white dark_cyan = false

-- `IsTermSupportColorOutput`, from `isatty` and the value of TERM.
unfoldable pub is_term_support_color_output : (is_a_tty : Bool) → (term : Option String) → Bool
is_term_support_color_output is_a_tty none = false
is_term_support_color_output is_a_tty (some tn) =
    is_a_tty
    && (str_eq tn "xterm"
        || str_eq tn "xterm-color"
        || str_eq tn "xterm-256color"
        || str_eq tn "screen"
        || str_eq tn "screen-256color"
        || str_eq tn "linux"
        || str_eq tn "cygwin")

-- `_PCON_STTCNT` and `_PCON_STTSCO` of a stream; the count is a word of 32 bits.
pub record Probe : Type 0 where
  pub count : ℕ
  pub supports : Bool

-- `n & (n - 1)` is 0.
unfoldable pub is_sampled : ℕ → Bool
is_sampled n = bit_and n ((n + 2 ^ 32 - 1) % 2 ^ 32) == 0

-- `IsStdTermSupportColorOutput`, for a terminal that would answer `answer`; the result is the new
-- `supports`.
unfoldable pub probe : (answer : Bool) → Probe → Probe
unfolding is_sampled
probe answer p =
    if is_sampled p.count && not (if p.supports then answer else not answer)
    then record { count = 0; supports = not p.supports }
    else record { count = (p.count + 1) % 2 ^ 32; supports = p.supports }

-- What is written to a stream: a sequence `\033[nm`, or the formatted text.
pub data Write : Type 0 where
  sequence : (n : ℕ) → Write
  printed : List ℕ → Write

abbrev sequences : List ℕ → List Write
sequences [] = []
sequences (n ∷ ns) = sequence n ∷ sequences ns

-- `Console::CFPrintF`: what it writes, and the probe of the stream behind it.
unfoldable pub cf_print_f : Color → (answer : Bool) → List ℕ → Probe → List Write × Probe
unfolding color_codes probe
cf_print_f color answer t p =
    if is_dark_white color
    then (printed t ∷ [], p)
    else if (probe answer p).supports
    then (sequences (color_codes color) ++ (printed t ∷ sequence 0 ∷ []), probe answer p)
    else (printed t ∷ [], probe answer p)

-- The members of `_PCON_CURCOL`.
pub record Colors : Type 0 where
  pub of_in : Color
  pub of_out : Color
  pub of_err : Color

abbrev pub color_of : StdFile → Colors → Color
color_of std_in c = c.of_in
color_of std_out c = c.of_out
color_of std_err c = c.of_err

abbrev pub store_color : StdFile → Color → Colors → Colors
store_color std_in x c = record c { of_in = x }
store_color std_out x c = record c { of_out = x }
store_color std_err x c = record c { of_err = x }

-- `Console::SetTextColor`; storing the colour that is there changes nothing.
unfoldable pub set_text_color : Color → StdFile → Colors → Color × Colors
set_text_color color stdev c = (color_of stdev c, store_color stdev color c)
