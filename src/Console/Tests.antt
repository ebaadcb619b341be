-- ===== src/Console/Tests.antt =====
-- Tests of the console, and its theorem at a concrete input.
use prot.Prelude.{◌≡◌, refl, true, false, some, [], ◌∷◌}
use prot.Console.{Probe, red, is_term_support_color_output, sequence, printed, cf_print_f}

xterm : is_term_support_color_output true (some "xterm") ≡ true
unfolding is_term_support_color_output
xterm = refl

no_terminal : is_term_support_color_output false (some "xterm") ≡ false
unfolding is_term_support_color_output
no_terminal = refl

abbrev plain : Probe
plain = record { count = 5; supports = false }

print_red : cf_print_f red true (104 ∷ 105 ∷ []) (record { count = 0; supports = false }) ≡ (
  sequence 1 ∷ sequence 31 ∷ printed (104 ∷ 105 ∷ []) ∷ sequence 0 ∷ [],
  record { count = 0; supports = true },
)
unfolding cf_print_f
print_red = refl
