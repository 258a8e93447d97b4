-- ===== src/Block.antt =====
-- The block functions of student-distrib/lib.c, inline assembly included: memset, memset_word,
-- memset_dword, memcpy and memmove. Register contents are arguments; the string instructions move one
-- unit each round. The source and the destination of memcpy are different arrays; memmove works in one.
pub mod Fill
pub mod Move
mod Tests
use zbiggie.Prelude.{ℕ, zero, suc, ◌+◌, ◌-◌, ◌*◌, ◌/◌, ◌%◌, ◌==◌, leb, if◌then◌else◌, Bytes, update}

-- One `stosl`: the four bytes of `eax` at `edi`.
abbrev store32 : Bytes → ℕ → ℕ → Bytes
store32 m edi eax =
    update
      (update (update (update m edi (eax % 256)) (edi + 1) (eax / 256 % 256)) (edi + 2)
        (eax / 65536 % 256))
      (edi + 3) (eax / 16777216 % 256)

-- rep stosl, `ecx` rounds.
stosl : ℕ → Bytes → ℕ → ℕ → Bytes
stosl zero m edi eax = m
stosl (suc ecx) m edi eax = stosl ecx (store32 m edi eax) (edi + 4) eax

-- The byte loop at memset_bottom.
memset_bottom : ℕ → Bytes → ℕ → ℕ → Bytes
memset_bottom zero m edi eax = m
memset_bottom (suc edx) m edi eax = memset_bottom edx (update m edi (eax % 256)) (edi + 1) eax

-- From memset_aligned on: whole words, then the bytes that are left.
memset_aligned : ℕ → Bytes → ℕ → ℕ → Bytes
memset_aligned ecx m edi eax =
    memset_bottom (ecx % 4) (stosl (ecx / 4) m edi eax) (edi + 4 * (ecx / 4)) eax

-- The loop at memset_top: bytes up to an address that 4 divides.
memset_top : ℕ → Bytes → ℕ → ℕ → Bytes
memset_top zero m edi eax = m
memset_top (suc ecx) m edi eax =
    let rest = memset_top ecx (update m edi (eax % 256)) (edi + 1) eax in
    let aligned = memset_aligned (suc ecx) m edi eax in if edi % 4 == 0 then aligned else rest

-- `c` is cut to a byte, which fills the four bytes of eax.
pub memset : Bytes → ℕ → ℕ → ℕ → Bytes
unfolding memset_top memset_aligned memset_bottom stosl
memset m s c n = let b = c % 256 in memset_top n m s (b * 16777216 + b * 65536 + b * 256 + b)

-- rep stosw
stosw : ℕ → Bytes → ℕ → ℕ → Bytes
stosw zero m edi eax = m
stosw (suc ecx) m edi eax =
    stosw ecx (update (update m edi (eax % 256)) (edi + 1) (eax / 256 % 256)) (edi + 2) eax

pub memset_word : Bytes → ℕ → ℕ → ℕ → Bytes
unfolding stosw
memset_word m s c n = stosw n m s c

pub memset_dword : Bytes → ℕ → ℕ → ℕ → Bytes
unfolding stosl
memset_dword m s c n = stosl n m s c

-- movb (%esi), %al; movb %al, (%edi), `edx` rounds: the loop at memcpy_bottom.
memcpy_bottom : ℕ → Bytes → ℕ → Bytes → ℕ → Bytes
memcpy_bottom zero m edi src esi = m
memcpy_bottom (suc edx) m edi src esi =
    memcpy_bottom edx (update m edi (src esi)) (edi + 1) src (esi + 1)

-- rep movsl, `ecx` rounds.
movsl : ℕ → Bytes → ℕ → Bytes → ℕ → Bytes
movsl zero m edi src esi = m
movsl (suc ecx) m edi src esi =
    movsl ecx
      (update
        (update (update (update m edi (src esi)) (edi + 1) (src (esi + 1))) (edi + 2)
          (src (esi + 2)))
        (edi + 3) (src (esi + 3)))
      (edi + 4) src (esi + 4)

memcpy_aligned : ℕ → Bytes → ℕ → Bytes → ℕ → Bytes
memcpy_aligned ecx m edi src esi =
    memcpy_bottom (ecx % 4) (movsl (ecx / 4) m edi src esi) (edi + 4 * (ecx / 4)) src
      (esi + 4 * (ecx / 4))

memcpy_top : ℕ → Bytes → ℕ → Bytes → ℕ → Bytes
memcpy_top zero m edi src esi = m
memcpy_top (suc ecx) m edi src esi =
    let rest = memcpy_top ecx (update m edi (src esi)) (edi + 1) src (esi + 1) in
    let aligned = memcpy_aligned (suc ecx) m edi src esi in if edi % 4 == 0 then aligned else rest

unfoldable pub memcpy : Bytes → ℕ → Bytes → ℕ → ℕ → Bytes
unfolding memcpy_top memcpy_aligned memcpy_bottom movsl
memcpy dest d src s n = memcpy_top n dest d src s

-- rep movsb with the direction flag clear, and set.
movsb_up : ℕ → Bytes → ℕ → ℕ → Bytes
movsb_up zero m edi esi = m
movsb_up (suc ecx) m edi esi = movsb_up ecx (update m edi (m esi)) (edi + 1) (esi + 1)

movsb_down : ℕ → Bytes → ℕ → ℕ → Bytes
movsb_down zero m edi esi = m
movsb_down (suc ecx) m edi esi = movsb_down ecx (update m edi (m esi)) (edi - 1) (esi - 1)

-- `jae` takes the ascending copy if the source stands at or above the destination.
pub memmove : Bytes → ℕ → ℕ → ℕ → Bytes
unfolding movsb_up movsb_down
memmove m dest src n =
    if leb dest src then movsb_up n m dest src else movsb_down n m (dest + n - 1) (src + n - 1)
