-- ===== src/Kernel/Entry/Prints.antt =====
-- What entry prints changes neither the terminal that is shown, nor the turn, nor the page at VIDEO.
use Prim.{tt}
use Prim.Native.String.{String}
use zbiggie.Prelude.{
  ℕ, zero, suc, ◌+◌, Bool, true, false, Option, none, some, List, [], ◌∷◌, ◌==◌, ltb, if◌then◌else◌,
  modulus, add32, widen, Bytes, load32, ◌>>=◌,
}
use zbiggie.Text.{literal}
use zbiggie.Console.{Console}
use zbiggie.Console.Format.{printf}
use zbiggie.Console.Places.{Placed-refl, Placed-Placed}
use zbiggie.Console.Format.Places.{PlacedIf, PlacedAfter, printf-Placed}
use zbiggie.Kernel.Entry.{
  print, check_flag, mbi, print_bytes, print_modules, print_map, print_info, print_tables, when,
  args,
}

counted :
    (c : Console) (r : Option (ℕ × Console))
    → PlacedAfter c r
    → PlacedIf c (do (n, c') ← r; some c')
counted c none h = tt
counted c (some (n, d)) h = h

pub print-Placed :
    (format : String) (values : List ℕ) (m : Bytes) (c : Console)
    → PlacedIf c (print format values m c)
print-Placed format values m c =
    counted c (printf (literal format modulus m) modulus (args values) c)
      (printf-Placed (literal format modulus m) modulus (args values) c)

-- One print behind another.
behind :
    (c : Console) (r : Option Console) (f : Console → Option Console)
    → PlacedIf c r
    → ((d : Console) → PlacedIf d (f d))
    → PlacedIf c (r >>= f)
behind c none f h k = tt
behind c (some d) f h k = further (f d) (k d)
  where
    further : (r : Option Console) → PlacedIf d r → PlacedIf c r
    further none p = tt
    further (some e) p = Placed-Placed c d e h p

PlacedIf-either :
    (c : Console) (b : Bool) (r r' : Option Console)
    → PlacedIf c r
    → PlacedIf c r'
    → PlacedIf c (if b then r else r')
PlacedIf-either c true r r' h h' = h
PlacedIf-either c false r r' h h' = h'

print_then :
    (format : String) (values : List ℕ) (m : Bytes) (c : Console) (f : Console → Option Console)
    → ((d : Console) → PlacedIf d (f d))
    → PlacedIf c (print format values m c >>= f)
print_then format values m c f =
    behind c (print format values m c) f (print-Placed format values m c)

when-Placed :
    (flags bit : ℕ) (f : Console → Option Console) (c : Console)
    → PlacedIf c (f c)
    → PlacedIf c (when flags bit f c)
when-Placed flags bit f c h =
    PlacedIf-either c (check_flag flags bit) (f c) (some c) h (Placed-refl c)

print_bytes-Placed :
    (left : ℕ) (m : Bytes) (p : ℕ) (c : Console) → PlacedIf c (print_bytes left m p c)
unfolding print_bytes
print_bytes-Placed zero m p c = Placed-refl c
print_bytes-Placed (suc left) m p c =
    behind c (print "0x%x " (widen (m p) ∷ []) m c) (λ d. print_bytes left m (p + 1) d)
      (print-Placed "0x%x " (widen (m p) ∷ []) m c) (λ d. print_bytes-Placed left m (p + 1) d)

print_modules-Placed :
    (left mod_count : ℕ) (m : Bytes) (p : ℕ) (c : Console)
    → PlacedIf c (print_modules left mod_count m p c)
unfolding print_modules
print_modules-Placed zero mod_count m p c = Placed-refl c
print_modules-Placed (suc left) mod_count m p c =
    print_then "Module %d loaded at address: 0x%#x\n" (mod_count ∷ load32 m p ∷ []) m c _ (λ c1.
      print_then "Module %d ends at address: 0x%#x\n" (mod_count ∷ load32 m (p + 4) ∷ []) m c1 _
        (λ c2. print_then "First few bytes of module:\n" [] m c2 _ (λ c3.
          behind c3 (print_bytes 16 m (load32 m p) c3) _ (print_bytes-Placed 16 m (load32 m p) c3)
            (λ c4.
              print_then "\n" [] m c4 _
                (λ c5. print_modules-Placed left (mod_count + 1) m (p + 16) c5)))))

print_map-Placed :
    (fuel : ℕ) (m : Bytes) (p end : ℕ) (c : Console) → PlacedIf c (print_map fuel m p end c)
unfolding print_map
print_map-Placed zero m p end c = tt
print_map-Placed (suc fuel) m p end c =
    PlacedIf-either c (ltb p end) _ (some c)
      (print_then
        " size = 0x%x,     base_addr = 0x%#x%#x\n     type = 0x%x,  length    = 0x%#x%#x\n"
        (load32 m p
          ∷ load32 m (p + 8)
          ∷ load32 m (p + 4)
          ∷ load32 m (p + 20)
          ∷ load32 m (p + 16)
          ∷ load32 m (p + 12)
          ∷ [])
        m c _ (λ d. print_map-Placed fuel m (add32 p (load32 m p + 4)) end d))
      (Placed-refl c)

pub print_info-Placed : (m : Bytes) (addr : ℕ) (c : Console) → PlacedIf c (print_info m addr c)
unfolding print_info
print_info-Placed m addr c =
    let flags = mbi m addr 0 in
    print_then "flags = 0x%#x\n" (flags ∷ []) m c _ (λ c1.
      behind c1 _ _
        (when-Placed flags 0
          (print "mem_lower = %uKB, mem_upper = %uKB\n" (mbi m addr 1 ∷ mbi m addr 2 ∷ []) m) c1
          (print-Placed "mem_lower = %uKB, mem_upper = %uKB\n" (mbi m addr 1 ∷ mbi m addr 2 ∷ []) m
            c1))
        (λ c2.
          behind c2 _ _
            (when-Placed flags 1 (print "boot_device = 0x%#x\n" (mbi m addr 3 ∷ []) m) c2
              (print-Placed "boot_device = 0x%#x\n" (mbi m addr 3 ∷ []) m c2))
            (λ c3.
              behind c3 _ _
                (when-Placed flags 2 (print "cmdline = %s\n" (mbi m addr 4 ∷ []) m) c3
                  (print-Placed "cmdline = %s\n" (mbi m addr 4 ∷ []) m c3))
                (λ c4.
                  behind c4 _ _
                    (when-Placed flags 3 (print_modules (mbi m addr 5) 0 m (mbi m addr 6)) c4
                      (print_modules-Placed (mbi m addr 5) 0 m (mbi m addr 6) c4))
                    (λ c5.
                      when-Placed flags 3
                        (λ d.
                          if mbi m addr 5 == 0
                          then print "No module 0, zbigfs will FAIL!" [] m d
                          else some d)
                        c5
                        (PlacedIf-either c5 (mbi m addr 5 == 0)
                          (print "No module 0, zbigfs will FAIL!" [] m c5) (some c5)
                          (print-Placed "No module 0, zbigfs will FAIL!" [] m c5)
                          (Placed-refl c5)))))))

pub print_tables-Placed : (m : Bytes) (addr : ℕ) (c : Console) → PlacedIf c (print_tables m addr c)
unfolding print_tables
print_tables-Placed m addr c =
    let flags = mbi m addr 0 in
    let sections =
      print "elf_sec: num = %u, size = 0x%#x, addr = 0x%#x, shndx = 0x%#x\n"
        (mbi m addr 7 ∷ mbi m addr 8 ∷ mbi m addr 9 ∷ mbi m addr 10 ∷ []) m in
    behind c (when flags 5 sections c) _
      (when-Placed flags 5 sections c (
        print-Placed "elf_sec: num = %u, size = 0x%#x, addr = 0x%#x, shndx = 0x%#x\n"
          (mbi m addr 7 ∷ mbi m addr 8 ∷ mbi m addr 9 ∷ mbi m addr 10 ∷ []) m c))
      (λ c1.
        when-Placed flags 6
          (λ d. (do
            d1 ←
                print "mmap_addr = 0x%#x, mmap_length = 0x%x\n" (mbi m addr 12 ∷ mbi m addr 11 ∷ [])
                  m d
            print_map modulus m (mbi m addr 12) (add32 (mbi m addr 12) (mbi m addr 11)) d1))
          c1
          (print_then "mmap_addr = 0x%#x, mmap_length = 0x%x\n" (mbi m addr 12 ∷ mbi m addr 11 ∷ [])
            m c1 _
            (λ d1.
              print_map-Placed modulus m (mbi m addr 12) (add32 (mbi m addr 12) (mbi m addr 11))
                d1)))
