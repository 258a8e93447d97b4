-- ===== src/Console/Format/Whole.antt =====
-- printf comes to its end, behind the whole format.
use zbiggie.Prelude.{
  ℕ, zero, suc, ◌+◌, ◌-◌, ◌%◌, ◌^◌, ◌≤◌, ◌<◌, ◌≡◌, refl, arith, Bool, true, false, Bool-cases, inl,
  inr, ◌&&◌, ◌||◌, Option, some, ◌==◌, ltb, if◌then◌else◌, modulus, Bytes, ◌>>=◌,
}
use zbiggie.Text.Length.{IsString}
use zbiggie.Console.{Console}
use zbiggie.Console.Print.{putc}
use zbiggie.Console.Format.{
  print_hex, print_hex_aligned, print_unsigned, print_signed, conversion, printf_loop, printf,
}
use zbiggie.Console.Format.Ends.{
  Ends, print_hex-Ends, print_unsigned-Ends, print_signed-Ends, print_hex_aligned-Ends,
}

-- A format of `n` characters in which neither '%' nor '#' stands in front of an 's' or at the end.
pub record IsFormat (m : Bytes) (format n : ℕ) : Type 0 where
  pub string : IsString m format n
  pub conversions :
      (i : ℕ)
      → (ltb i n
          && (m (format + i) == b'%' || m (format + i) == b'#')
          && (m (format + i + 1) == b's' || m (format + i + 1) == 0))
        ≡ false

-- A conversion ends at a character of the format.
Within : ℕ → ℕ → Option (ℕ × ℕ × Console) → Type 0
Within buf stop r =
    (buf' : ℕ) × (esp' : ℕ) × (d : Console) × (r ≡ some (buf', esp', d))
    × (buf ≤ buf')
    × (buf' < stop)

converted :
    (buf esp stop : ℕ) (r : Option Console)
    → buf < stop
    → Ends r
    → Within buf stop (do c' ← r; some (buf, esp, c'))
unfolding Within
converted buf esp stop r lt (d, e) = (buf, esp, d, rw e refl, omega arith, lt)

Within-either :
    (buf stop : ℕ) (b : Bool) (r r' : Option (ℕ × ℕ × Console))
    → (b ≡ true → Within buf stop r)
    → (b ≡ false → Within buf stop r')
    → Within buf stop (if b then r else r')
Within-either buf stop true r r' h h' = h refl
Within-either buf stop false r r' h h' = h' refl

further :
    (buf stop : ℕ) (r : Option (ℕ × ℕ × Console)) → Within (buf + 1) stop r → Within buf stop r
unfolding Within
further buf stop r (buf', esp', d, e, le, lt) = (buf', esp', d, e, omega arith, lt)

at_once : (buf esp stop : ℕ) (d : Console) → buf < stop → Within buf stop (some (buf, esp, d))
unfolding Within
at_once buf esp stop d lt = (buf, esp, d, refl, omega arith, lt)

-- The loop ends at the position `stop`.
Stops : ℕ → Option (ℕ × Console) → Type 0
Stops stop r = (d : Console) × (r ≡ some (stop, d))

Stops-either :
    (stop : ℕ) (b : Bool) (r r' : Option (ℕ × Console))
    → (b ≡ true → Stops stop r)
    → (b ≡ false → Stops stop r')
    → Stops stop (if b then r else r')
Stops-either stop true r r' h h' = h refl
Stops-either stop false r r' h h' = h' refl

stopped : (buf stop : ℕ) (c : Console) → buf ≡ stop → Stops stop (some (buf, c))
unfolding Stops
stopped buf stop c e = (c, rw e refl)

-- The same position, written in another way.
moved :
    (stop a b : ℕ) (go : ℕ → Option (ℕ × Console)) → a ≡ b → Stops stop (go a) → Stops stop (go b)
moved stop a b go e h = rw (← e) h

-- Behind a conversion the loop goes on.
Within-Stops :
    (buf stop : ℕ) (r : Option (ℕ × ℕ × Console)) (rest : ℕ → ℕ → Console → Option (ℕ × Console))
    → Within buf stop r
    → ((buf' esp : ℕ) (c : Console) → buf ≤ buf' → buf' < stop → Stops stop (rest buf' esp c))
    → Stops stop (do (buf', esp, c') ← r; rest buf' esp c')
unfolding Within
Within-Stops buf stop r rest (buf', esp, c, e, lo, hi) goes = rw e (goes buf' esp c lo hi)

module _ (m : Bytes) (format n : ℕ) (h : IsFormat m format n) (args : ℕ → ℕ)
    (words : (i : ℕ) → args i < 2 ^ 32) where
  -- Behind a '%' or a '#' the format goes on, with no 's'.
  goes_on :
      (i : ℕ)
      → i < n
      → (m (format + i) == b'%' || m (format + i) == b'#') ≡ true
      → (i + 1 < n) × ((m (format + (i + 1)) == b's') ≡ false)
  goes_on i lt mark =
      let there : format + i + 1 ≡ format + (i + 1) = omega arith in
      let clean = h.conversions i in
      let nul = h.string.nul in
      elim (Bool-cases (i + 1 == n)) [
        | inl e ↦
            let last : i + 1 ≡ n = ground arith in
            let end : m (format + i + 1) ≡ 0 = rw (there, last) nul in
            absurd (ground (arith, mark, clean, end))
        | inr e ↦ (ground arith, rw (← there) (ground (arith, mark, clean)))
      ]

  conversion-Within :
      (fuel i esp : ℕ) (alternate : Bool) (c : Console)
      → i < n
      → n < fuel + i
      → (m (format + i) == b's') ≡ false
      → Within (format + i) (format + n) (conversion fuel m args (format + i) esp alternate c)
  unfolding conversion
  conversion-Within zero i esp alternate c lt short no_string = absurd (omega arith)
  conversion-Within (suc fuel) i esp alternate c lt short no_string =
      let buf = format + i in
      let stop = format + n in
      let below : buf < stop = omega arith in
      Within-either buf stop (m buf == b'%') (some (buf, esp, putc b'%' c)) _
        (λ e. at_once buf esp stop (putc b'%' c) below)
        (λ e.
          Within-either buf stop (m buf == b'#') (conversion fuel m args (buf + 1) esp true c) _
            (λ e1.
              let (lt', no_string') = goes_on i lt (ground arith) in
              let there : format + (i + 1) ≡ buf + 1 = omega arith in
              further buf stop (conversion fuel m args (buf + 1) esp true c) (
                rw there at
                  (conversion-Within fuel (i + 1) esp true c lt' (omega arith) no_string')))
            (λ e1.
              Within-either buf stop (m buf == b'x') _ _
                (λ e2.
                  converted buf (esp + 1) stop
                    (if alternate then print_hex_aligned (args esp) c else print_hex (args esp) c)
                    below (hex alternate (args esp) c (words esp)))
                (λ e2.
                  Within-either buf stop (m buf == b'u') _ _
                    (λ e3.
                      converted buf (esp + 1) stop (print_unsigned (args esp) c) below
                        (print_unsigned-Ends (args esp) c (words esp)))
                    (λ e3.
                      Within-either buf stop (m buf == b'd') _ _
                        (λ e4.
                          converted buf (esp + 1) stop (print_signed (args esp) c) below
                            (print_signed-Ends (args esp) c (words esp)))
                        (λ e4.
                          Within-either buf stop (m buf == b'c')
                            (some (buf, esp + 1, putc (args esp % 256) c)) _
                            (λ e5. at_once buf (esp + 1) stop (putc (args esp % 256) c) below)
                            (λ e5.
                              Within-either buf stop (m buf == b's') _ (some (buf, esp, c))
                                (λ e6. absurd (ground arith))
                                (λ e6. at_once buf esp stop c below)))))))
    where
      hex :
          (b : Bool) (value : ℕ) (c : Console)
          → value < 2 ^ 32
          → Ends (if b then print_hex_aligned value c else print_hex value c)
      hex true value c small = print_hex_aligned-Ends value c small
      hex false value c small = print_hex-Ends value c small

  conversion-Within_at :
      (fuel i buf esp : ℕ) (c : Console)
      → format + i ≡ buf
      → i < n
      → n < fuel + i
      → (m (format + i) == b's') ≡ false
      → Within buf (format + n) (conversion fuel m args buf esp false c)
  conversion-Within_at fuel i buf esp c e lt short no_string =
      rw (← e) (conversion-Within fuel i esp false c lt short no_string)

  printf_loop-Stops :
      (fuel i esp : ℕ) (c : Console)
      → i ≤ n
      → n < fuel + i
      → n < modulus
      → Stops (format + n) (printf_loop fuel m args (format + i) esp c)
  unfolding printf_loop
  printf_loop-Stops zero i esp c le short fits = absurd (omega arith)
  printf_loop-Stops (suc fuel) i esp c le short fits =
      let buf = format + i in
      let stop = format + n in
      let there : format + (i + 1) ≡ buf + 1 = omega arith in
      Stops-either stop (m buf == 0) (some (buf, c)) _
        (λ e. stopped buf stop c (elim (Bool-cases (i == n)) [
          | inl done ↦ ground arith
          | inr more ↦ absurd (h.string.text i (ground arith) (ground arith))
        ]))
        (λ e.
          let more : i < n = elim (Bool-cases (i == n)) [
            | inl done ↦
                let last : i ≡ n = ground arith in
                let nul : m (format + i) ≡ 0 = rw last h.string.nul in
                absurd (ground (arith, nul, e))
            | inr more ↦ ground arith
          ] in
          Stops-either stop (m buf == b'%') _
            (printf_loop fuel m args (buf + 1) esp (putc (m buf) c))
            (λ e1.
              let (lt', no_string) = goes_on i more (ground arith) in
              Within-Stops (buf + 1) stop (conversion modulus m args (buf + 1) esp false c)
                (λ buf' esp' c'. printf_loop fuel m args (buf' + 1) esp' c')
                (conversion-Within_at modulus (i + 1) (buf + 1) esp c there lt' (omega arith)
                  no_string)
                (λ buf' esp' c' lo hi.
                  let behind : format + (buf' + 1 - format) ≡ buf' + 1 = omega arith in
                  moved stop (format + (buf' + 1 - format)) (buf' + 1)
                    (λ b. printf_loop fuel m args b esp' c') behind
                    (printf_loop-Stops fuel (buf' + 1 - format) esp' c' (omega arith) (omega arith)
                      fits)))
            (λ e1.
              moved stop (format + (i + 1)) (buf + 1)
                (λ b. printf_loop fuel m args b esp (putc (m buf) c)) there
                (printf_loop-Stops fuel (i + 1) esp (putc (m buf) c) (omega arith) (omega arith)
                  fits)))

counted :
    (format n : ℕ) (r : Option (ℕ × Console))
    → Stops (format + n) r
    → let result : Option (ℕ × Console) = (do (buf, c') ← r; some (buf - format, c')) in
      (d : Console) × (result ≡ some (n, d))
unfolding Stops
counted format n r (d, e) =
    let length : format + n - format ≡ n = omega arith in (d, rw (e, length) refl)

-- printf comes to its end and returns the length of its format, if neither a '%' nor a '#' of the
-- format stands in front of an 's' or at the end, and the arguments are 32-bit words.
pub printf_lem :
    (m : Bytes) (format n : ℕ) (args : ℕ → ℕ) (c : Console)
    → IsFormat m format n
    → n < modulus
    → ((i : ℕ) → args i < 2 ^ 32)
    → (d : Console) × (printf m format args c ≡ some (n, d))
unfolding printf
printf_lem m format n args c h fits words =
    let start : format + 0 ≡ format = omega arith in
    counted format n (printf_loop modulus m args format 0 c) (
      moved (format + n) (format + 0) format (λ b. printf_loop modulus m args b 0 c) start
        (printf_loop-Stops m format n h args words modulus 0 0 c (omega arith) (omega arith) fits))
