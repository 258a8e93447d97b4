-- ===== src/Console/Format/Places.antt =====
-- printf does not change which terminal is shown, whose turn it is, or where the page at VIDEO lies.
use Prim.{tt}
use zbiggie.Prelude.{
  ℕ, zero, suc, ◌+◌, ◌-◌, ◌%◌, Bool, true, false, Option, none, some, ◌==◌, if◌then◌else◌, modulus,
  sub32, slt, Bytes, update, for_range, ◌>>=◌,
}
use zbiggie.Text.{strlen, itoa}
use zbiggie.Console.{Console}
use zbiggie.Console.Print.{putc}
use zbiggie.Console.Places.{Placed, Placed-refl, Placed-Placed, putc-Placed}
use zbiggie.Console.Format.{
  puts, puts_loop, put_local, conv_buf, print_hex, print_hex_aligned, print_unsigned, print_signed,
  conversion, printf_loop, printf,
}

-- The screen of a result.
abbrev pub PlacedIf : Console → Option Console → Type 0
PlacedIf c none = Unit
PlacedIf c (some d) = Placed c d

abbrev pub PlacedAfter {ℓ} : {A : Type ℓ} → Console → Option (A × Console) → Type 0
PlacedAfter c none = Unit
PlacedAfter c (some (a, d)) = Placed c d

abbrev Converted : Console → Option (ℕ × ℕ × Console) → Type 0
Converted c none = Unit
Converted c (some (a, b, d)) = Placed c d

PlacedAfter-Placed {ℓ} :
    {A : Type ℓ} (c d : Console) (r : Option (A × Console))
    → Placed c d
    → PlacedAfter d r
    → PlacedAfter c r
PlacedAfter-Placed c d none p h = h
PlacedAfter-Placed c d (some (a, e)) p h = Placed-Placed c d e p h

PlacedAfter-either {ℓ} :
    {A : Type ℓ} (c : Console) (b : Bool) (r r' : Option (A × Console))
    → PlacedAfter c r
    → PlacedAfter c r'
    → PlacedAfter c (if b then r else r')
PlacedAfter-either c true r r' h h' = h
PlacedAfter-either c false r r' h h' = h'

PlacedIf-either :
    (c : Console) (b : Bool) (r r' : Option Console)
    → PlacedIf c r
    → PlacedIf c r'
    → PlacedIf c (if b then r else r')
PlacedIf-either c true r r' h h' = h
PlacedIf-either c false r r' h h' = h'

Converted-either :
    (c : Console) (b : Bool) (r r' : Option (ℕ × ℕ × Console))
    → Converted c r
    → Converted c r'
    → Converted c (if b then r else r')
Converted-either c true r r' h h' = h
Converted-either c false r r' h h' = h'

puts_loop-Placed :
    (fuel : ℕ) (m : Bytes) (s index : ℕ) (c : Console) → PlacedAfter c (puts_loop fuel m s index c)
unfolding puts_loop
puts_loop-Placed zero m s index c = tt
puts_loop-Placed (suc fuel) m s index c =
    let c1 = putc (m (s + index)) c in
    PlacedAfter-either c (m (s + index) == 0) (some (index, c)) (puts_loop fuel m s (index + 1) c1)
      (Placed-refl c)
      (PlacedAfter-Placed c c1 (puts_loop fuel m s (index + 1) c1) (putc-Placed (m (s + index)) c)
        (puts_loop-Placed fuel m s (index + 1) c1))

puts-Placed : (m : Bytes) (s : ℕ) (c : Console) → PlacedAfter c (puts m s c)
unfolding puts
puts-Placed m s c = puts_loop-Placed modulus m s 0 c

dropped :
    (c : Console) (r : Option (ℕ × Console))
    → PlacedAfter c r
    → PlacedIf c (do (index, c') ← r; some c')
dropped c none h = tt
dropped c (some (index, d)) h = h

put_local-Placed : (buf : Bytes) (p : ℕ) (c : Console) → PlacedIf c (put_local buf p c)
unfolding put_local
put_local-Placed buf p c = dropped c (puts buf p c) (puts-Placed buf p c)

-- A print of what a conversion gives, if it does.
behind {ℓ} :
    {A : Type ℓ} (c : Console) (r : Option A) (f : A → Option Console)
    → ((a : A) → PlacedIf c (f a))
    → PlacedIf c (r >>= f)
behind c none f h = tt
behind c (some a) f h = h a

print_hex-Placed : (n : ℕ) (c : Console) → PlacedIf c (print_hex n c)
unfolding print_hex
print_hex-Placed n c =
    behind c (itoa n conv_buf 0 16) (λ buf. put_local buf 0 c) (λ buf. put_local-Placed buf 0 c)

print_hex_aligned-Placed : (n : ℕ) (c : Console) → PlacedIf c (print_hex_aligned n c)
unfolding print_hex_aligned
print_hex_aligned-Placed n c =
    behind c (itoa n conv_buf 8 16)
      (λ buf. do
        start ← strlen buf 8
        put_local (for_range (8 - start) start (λ i b. update b i b'0') buf) start c)
      (λ buf.
        behind c (strlen buf 8)
          (λ start. put_local (for_range (8 - start) start (λ i b. update b i b'0') buf) start c)
          (λ start. put_local-Placed _ start c))

print_unsigned-Placed : (n : ℕ) (c : Console) → PlacedIf c (print_unsigned n c)
unfolding print_unsigned
print_unsigned-Placed n c =
    behind c (itoa n conv_buf 0 10) (λ buf. put_local buf 0 c) (λ buf. put_local-Placed buf 0 c)

print_signed-Placed : (n : ℕ) (c : Console) → PlacedIf c (print_signed n c)
unfolding print_signed
print_signed-Placed n c =
    PlacedIf-either c (slt n 0) _ (print_unsigned n c)
      (behind c (itoa (sub32 0 n) (update conv_buf 0 b'-') 1 10) (λ buf. put_local buf 0 c)
        (λ buf. put_local-Placed buf 0 c))
      (print_unsigned-Placed n c)

converted :
    (c : Console) (buf esp : ℕ) (r : Option Console)
    → PlacedIf c r
    → Converted c (do c' ← r; some (buf, esp, c'))
converted c buf esp none h = tt
converted c buf esp (some d) h = h

conversion-Converted :
    (fuel : ℕ) (m : Bytes) (args : ℕ → ℕ) (buf esp : ℕ) (alternate : Bool) (c : Console)
    → Converted c (conversion fuel m args buf esp alternate c)
unfolding conversion
conversion-Converted zero m args buf esp alternate c = tt
conversion-Converted (suc fuel) m args buf esp alternate c =
    Converted-either c (m buf == b'%') (some (buf, esp, putc b'%' c)) _ (putc-Placed b'%' c) (
      Converted-either c (m buf == b'#') (conversion fuel m args (buf + 1) esp true c) _
        (conversion-Converted fuel m args (buf + 1) esp true c)
        (Converted-either c (m buf == b'x') _ _
          (converted c buf (esp + 1)
            (if alternate then print_hex_aligned (args esp) c else print_hex (args esp) c)
            (PlacedIf-either c alternate (print_hex_aligned (args esp) c) (print_hex (args esp) c)
              (print_hex_aligned-Placed (args esp) c) (print_hex-Placed (args esp) c)))
          (Converted-either c (m buf == b'u') _ _
            (converted c buf (esp + 1) (print_unsigned (args esp) c)
              (print_unsigned-Placed (args esp) c))
            (Converted-either c (m buf == b'd') _ _
              (converted c buf (esp + 1) (print_signed (args esp) c)
                (print_signed-Placed (args esp) c))
              (Converted-either c (m buf == b'c') (some (buf, esp + 1, putc (args esp % 256) c)) _
                (putc-Placed (args esp % 256) c)
                (Converted-either c (m buf == b's') _ (some (buf, esp, c))
                  (string (puts m (args esp) c) (puts-Placed m (args esp) c)) (Placed-refl c)))))))
  where
    string :
        (r : Option (ℕ × Console))
        → PlacedAfter c r
        → Converted c (do (index, c') ← r; some (buf, esp + 1, c'))
    string none h = tt
    string (some (index, d)) h = h

behind_conversion :
    (fuel : ℕ) (m : Bytes) (args : ℕ → ℕ) (c : Console) (r : Option (ℕ × ℕ × Console))
    → Converted c r
    → ((buf esp : ℕ) (d : Console) → PlacedAfter d (printf_loop fuel m args buf esp d))
    → PlacedAfter c (do (buf', esp', c') ← r; printf_loop fuel m args (buf' + 1) esp' c')
behind_conversion fuel m args c none h rest = tt
behind_conversion fuel m args c (some (buf, esp, d)) h rest =
    PlacedAfter-Placed c d (printf_loop fuel m args (buf + 1) esp d) h (rest (buf + 1) esp d)

printf_loop-Placed :
    (fuel : ℕ) (m : Bytes) (args : ℕ → ℕ) (buf esp : ℕ) (c : Console)
    → PlacedAfter c (printf_loop fuel m args buf esp c)
unfolding printf_loop
printf_loop-Placed zero m args buf esp c = tt
printf_loop-Placed (suc fuel) m args buf esp c =
    let c1 = putc (m buf) c in
    PlacedAfter-either c (m buf == 0) (some (buf, c)) _ (Placed-refl c) (
      PlacedAfter-either c (m buf == b'%') _ (printf_loop fuel m args (buf + 1) esp c1)
        (behind_conversion fuel m args c (conversion modulus m args (buf + 1) esp false c)
          (conversion-Converted modulus m args (buf + 1) esp false c)
          (printf_loop-Placed fuel m args))
        (PlacedAfter-Placed c c1 (printf_loop fuel m args (buf + 1) esp c1) (putc-Placed (m buf) c)
          (printf_loop-Placed fuel m args (buf + 1) esp c1)))

pub printf-Placed :
    (m : Bytes) (format : ℕ) (args : ℕ → ℕ) (c : Console) → PlacedAfter c (printf m format args c)
unfolding printf
printf-Placed m format args c =
    counted (printf_loop modulus m args format 0 c) (printf_loop-Placed modulus m args format 0 c)
  where
    counted :
        (r : Option (ℕ × Console))
        → PlacedAfter c r
        → PlacedAfter c (do (buf, c') ← r; some (buf - format, c'))
    counted none h = tt
    counted (some (buf, d)) h = h
