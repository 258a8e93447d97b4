-- ===== src/User/Tests.antt =====
-- The support library of the programs on a small number, and the emulation on a small directory.
use Prim.Native.Nat.{min}
use zbiggie.Prelude.{
  ℕ, ◌+◌, ◌-◌, ◌≡◌, refl, arith, inl, some, ◌&&◌, leb, ltb, if◌then◌else◌, minus_one, Bytes,
}
use zbiggie.Samples.{zeros, greeting}
use zbiggie.Text.{itoa}
use zbiggie.User.{ece391_itoa}
use zbiggie.User.Same.{ece391_itoa-itoa}
use zbiggie.User.Emulate.{Linux, Emulator, exited, ece391_read}
use zbiggie.User.Entries.{Name, ece391_read_lem}

ece391_itoa-itoa_example :
    (out : Bytes) × (ece391_itoa 391 zeros 100 36 ≡ some out) × (itoa 391 zeros 100 36 ≡ some out)
ece391_itoa-itoa_example =
    ece391_itoa-itoa 391 zeros 100 36 (omega arith) (omega arith) (omega arith)

-- A directory whose next entry is always "hi", at address 1000.
abbrev one_entry : Linux
one_entry = record {
  State = ℕ;
  int_80 = λ eax ebx ecx edx m st. (0, m, st);
  open_path = λ path st. (3, st);
  close_path = λ fd st. st;
  opendir = λ path st. (500, st);
  readdir = λ dir m st. (1000, λ a. greeting (a - 1000), st + 1);
  closedir = λ dir st. st;
  mmap = λ fd st. (minus_one, st);
  run_child = λ path args m st. (exited 0, st);
}

abbrev listing : Emulator one_entry
listing = record { dir_fd = 3; dir = 500; mem_fd = minus_one; linux = 0 }

hi-Name : Name (λ a. greeting (a - 1000)) 2000 1000 2
hi-Name = record { text = λ i lt. λ e. ground arith; nul = refl; apart = inl (omega arith) }

ece391_read_lem_example :
    (m' : Bytes) × (ece391_read one_entry 0 3 2000 33 zeros listing
      ≡ (min 33 32, m', record listing { linux = 1 }))
    × ((a : ℕ)
        → m' a ≡ (
            if leb 2000 a && ltb a (2000 + min 33 32)
            then if ltb (a - 2000) 2 then greeting (1000 + (a - 2000) - 1000) else 0
            else greeting (a - 1000)))
ece391_read_lem_example =
    ece391_read_lem 2000 1000 33 2 (omega arith) one_entry 0 3 zeros (λ a. greeting (a - 1000))
      listing 1 (λ (e : 500 ≡ 0). omega arith) refl refl (λ (e : 1000 ≡ 0). omega arith) hi-Name
      (omega arith)
