-- ===== src/Tests/IrcRuns.antt =====
-- Runs of irc.format.c, and its theorems at codes that an IRC client sends.
use librustyaxe.Prelude.{◌+◌, ◌≡◌, refl, true, false, none, some, ◌∷◌, codes, arith, length}
use librustyaxe.Irc.Parse.{
  limit_of, component_loop, color_component, background_parse, irc_color_parse,
}
use librustyaxe.Irc.Bounds.{Bounded, irc_color_parse-Bounded}
use librustyaxe.Irc.Print.{print_colors, irc_color_parse-print_colors}
use librustyaxe.Irc.Tables.{irc_color_rgb, irc_color_ansi_extended}

-- What a test of irc.format.c computes with.
unfoldable pub irc_program : Unit {0}
unfolding component_loop color_component background_parse irc_color_parse irc_color_rgb
    irc_color_ansi_extended
irc_program = tt

red :
    irc_color_parse (some (3 ∷ codes "4,12text"))
    ≡ (5, record { hex = false; reset = false; background = true; foreground = 4; bg = 12 })
unfolding irc_program
red = refl

-- A comma with no digit behind it is text.
lone_comma :
    irc_color_parse (some (3 ∷ codes "04,text"))
    ≡ (3, record { hex = false; reset = false; background = false; foreground = 4; bg = 0 })
unfolding irc_program
lone_comma = refl

short_hex :
    irc_color_parse (some (4 ∷ codes "fffff"))
    ≡ (1, record { hex = true; reset = true; background = false; foreground = 0; bg = 0 })
unfolding irc_program
short_hex = refl

last_color : irc_color_rgb 98 ≡ some (codes "#ffffff")
unfolding irc_program
last_color = refl

no_such_color : irc_color_rgb 99 ≡ none
unfolding irc_program
no_such_color = refl

ansi_ends : (irc_color_ansi_extended 16 ≡ 52) × (irc_color_ansi_extended 98 ≡ 231)
unfolding irc_program
ansi_ends = (refl, refl)

irc_color_parse-print_colors_example :
    irc_color_parse (some (print_colors true 0xfc7f00 0x2e0047 (codes "text"))) ≡ (
      2 + limit_of true + limit_of true,
      record { hex = true; reset = false; background = true; foreground = 0xfc7f00; bg = 0x2e0047 },
    )
irc_color_parse-print_colors_example =
    irc_color_parse-print_colors true 0xfc7f00 0x2e0047 (codes "text") (omega arith) (omega arith)

irc_color_parse-Bounded_example :
    let (used, color) = irc_color_parse (some (3 ∷ codes "4,12text")) in
    Bounded (length (3 ∷ codes "4,12text")) used color
irc_color_parse-Bounded_example = irc_color_parse-Bounded (3 ∷ codes "4,12text")
