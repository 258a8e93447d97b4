-- ===== src/Console/Tests.antt =====
-- The screen at small states.
use zbiggie.Prelude.{◌≡◌, refl, arith, some, ◌==◌, if◌then◌else◌, Bytes}
use zbiggie.Samples.{shown_console}
use zbiggie.Console.{Console, video_mem, scroll}
use zbiggie.Console.Format.{printf}
use zbiggie.Console.Format.Whole.{IsFormat, printf_lem}
use zbiggie.Console.Print.{putc, mt_putc}
use zbiggie.Console.Bounds.{OnScreen, putc-OnScreen}
use zbiggie.Console.Scroll.{scroll_lem}
use zbiggie.Console.Background.{Writes, mt_putc-outside}

putc-OnScreen_example : OnScreen 0 (putc b'x' shown_console)
putc-OnScreen_example =
    putc-OnScreen b'x' shown_console (record { column = omega arith; row = omega arith })

-- The byte of the second row's first cell comes to the first.
scroll_lem_example :
    ((scroll shown_console).video video_mem ≡ 160)
    × ((scroll shown_console).screen_x 0 ≡ 0)
    × ((scroll shown_console).screen_y 0 ≡ 24)
scroll_lem_example = scroll_lem shown_console video_mem

in_background : Writes shown_console
in_background = record { background = refl; column = omega arith; row = omega arith }

mt_putc-outside_example : (mt_putc b'x' shown_console).video video_mem ≡ 0
mt_putc-outside_example = mt_putc-outside b'x' shown_console video_mem in_background refl

-- "%#x!"
abbrev hex_format : Bytes
hex_format a =
    if a == 0
    then b'%'
    else if a == 1
    then b'#'
    else if a == 2
    then b'x'
    else if a == 3
    then b'!'
    else 0

hex_format-IsFormat : IsFormat hex_format 0 4
hex_format-IsFormat = record {
  string = record { nul = refl; text = λ i lt. ground arith };
  conversions = λ i. ground arith;
}

printf_lem_example : (d : Console) × (printf hex_format 0 (λ i. 48879) shown_console ≡ some (4, d))
printf_lem_example =
    printf_lem hex_format 0 4 (λ i. 48879) shown_console hex_format-IsFormat (omega arith)
      (λ i. omega arith)
