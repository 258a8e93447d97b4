-- ===== src/Console/Format.antt =====
-- puts and printf of student-distrib/lib.c. A string is read from memory; the arguments behind the
-- format are a sequence of words, which `esp` counts off. Loops that only a NUL byte ends run on fuel.
pub mod Places
pub mod Ends
pub mod Whole
use zbiggie.Prelude.{
  ℕ, zero, suc, ◌+◌, ◌-◌, ◌%◌, Bool, true, false, Option, none, some, ◌==◌, if◌then◌else◌, modulus,
  sub32, slt, Bytes, update, for_range, ◌>>=◌,
}
use zbiggie.Text.{strlen, itoa}
use zbiggie.Console.{Console}
use zbiggie.Console.Print.{putc}

unfoldable pub puts_loop : ℕ → Bytes → ℕ → ℕ → Console → Option (ℕ × Console)
puts_loop zero m s index c = none
puts_loop (suc fuel) m s index c =
    let rest = puts_loop fuel m s (index + 1) (putc (m (s + index)) c) in
    if m (s + index) == 0 then some (index, c) else rest

unfoldable pub puts : Bytes → ℕ → Console → Option (ℕ × Console)
unfolding puts_loop
puts m s c = puts_loop modulus m s 0 c

-- puts of a local buffer, whose count printf drops.
unfoldable pub put_local : Bytes → ℕ → Console → Option Console
put_local buf p c = do (index, c') ← puts buf p c; some c'

-- A local buffer before anything is written to it; its content is never read.
abbrev pub conv_buf : Bytes
conv_buf = λ i. 0

-- %x
unfoldable pub print_hex : ℕ → Console → Option Console
unfolding put_local
print_hex value c = do buf ← itoa value conv_buf 0 16; put_local buf 0 c

-- %#x: the digits stand from index 8 on, and zeros go in front of them from their number up to 8.
pub print_hex_aligned : ℕ → Console → Option Console
unfolding put_local
print_hex_aligned value c = do
  buf ← itoa value conv_buf 8 16
  start ← strlen buf 8
  put_local (for_range (8 - start) start (λ i b. update b i b'0') buf) start c

-- %u
pub print_unsigned : ℕ → Console → Option Console
unfolding put_local
print_unsigned value c = do buf ← itoa value conv_buf 0 10; put_local buf 0 c

-- %d
pub print_signed : ℕ → Console → Option Console
unfolding put_local print_unsigned
print_signed value c =
    if slt value 0
    then (do buf ← itoa (sub32 0 value) (update conv_buf 0 b'-') 1 10; put_local buf 0 c)
    else print_unsigned value c

-- The conversion at `buf`: its position when it is done, the argument that is next, the console.
-- `alternate` is set by each '#', which the switch starts over behind.
conversion : ℕ → Bytes → (ℕ → ℕ) → ℕ → ℕ → Bool → Console → Option (ℕ × ℕ × Console)
unfolding print_hex print_hex_aligned print_unsigned print_signed
conversion zero m args buf esp alternate c = none
conversion (suc fuel) m args buf esp alternate c =
    let again = conversion fuel m args (buf + 1) esp true c in
    let hex = (do
      c' ← if alternate then print_hex_aligned (args esp) c else print_hex (args esp) c
      some (buf, esp + 1, c')) in
    let unsigned = (do c' ← print_unsigned (args esp) c; some (buf, esp + 1, c')) in
    let signed = (do c' ← print_signed (args esp) c; some (buf, esp + 1, c')) in
    let string = (do (index, c') ← puts m (args esp) c; some (buf, esp + 1, c')) in
    if m buf == b'%'
    then some (buf, esp, putc b'%' c)
    else if m buf == b'#'
    then again
    else if m buf == b'x'
    then hex
    else if m buf == b'u'
    then unsigned
    else if m buf == b'd'
    then signed
    else if m buf == b'c'
    then some (buf, esp + 1, putc (args esp % 256) c)
    else if m buf == b's'
    then string
    else some (buf, esp, c)

printf_loop : ℕ → Bytes → (ℕ → ℕ) → ℕ → ℕ → Console → Option (ℕ × Console)
unfolding conversion
printf_loop zero m args buf esp c = none
printf_loop (suc fuel) m args buf esp c =
    let plain = printf_loop fuel m args (buf + 1) esp (putc (m buf) c) in
    let converted = (do
      (buf', esp', c') ← conversion modulus m args (buf + 1) esp false c
      printf_loop fuel m args (buf' + 1) esp' c') in
    if m buf == 0 then some (buf, c) else if m buf == b'%' then converted else plain

-- The number of format characters that were read.
unfoldable pub printf : Bytes → ℕ → (ℕ → ℕ) → Console → Option (ℕ × Console)
unfolding printf_loop
printf m format args c = do
  (buf, c') ← printf_loop modulus m args format 0 c
  some (buf - format, c')
