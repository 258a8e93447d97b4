-- ===== src/Kernel/Segments.antt =====
-- The segment descriptors of student-distrib/x86_desc.h: the fields, the macros that set the base and
-- the limit, the two descriptors that kernel.c makes, and the eight bytes that the processor reads.
use zbiggie.Prelude.{ℕ, ◌+◌, ◌*◌, ◌/◌, ◌%◌, ◌<◌, ◌≡◌, ◌==◌, if◌then◌else◌, arith}

-- seg_desc_t
pub record SegDesc : Type 0 where
  pub seg_lim_15_00 : ℕ
  pub base_15_00 : ℕ
  pub base_23_16 : ℕ
  pub kind : ℕ
  pub sys : ℕ
  pub dpl : ℕ
  pub present : ℕ
  pub seg_lim_19_16 : ℕ
  pub avail : ℕ
  pub reserved : ℕ
  pub opsize : ℕ
  pub granularity : ℕ
  pub base_31_24 : ℕ

-- SET_LDT_PARAMS and SET_TSS_PARAMS, which are alike. A mask and a shift is a quotient of a remainder.
unfoldable pub set_params : SegDesc → ℕ → ℕ → SegDesc
set_params str addr lim = record str {
  base_31_24 = addr / 16777216 % 256;
  base_23_16 = addr / 65536 % 256;
  base_15_00 = addr % 65536;
  seg_lim_19_16 = lim / 65536 % 16;
  seg_lim_15_00 = lim % 65536;
}

-- The LDT's entry; `old` is what the local variable held.
unfoldable pub the_ldt_desc : SegDesc → ℕ → ℕ → SegDesc
unfolding set_params
the_ldt_desc old ldt ldt_size =
    set_params
      (record old {
        granularity = 0;
        opsize = 1;
        reserved = 0;
        avail = 0;
        present = 1;
        dpl = 0;
        sys = 0;
        kind = 2;
      })
      ldt ldt_size

-- The TSS's entry; the limit that is set first goes with the macro.
unfoldable pub the_tss_desc : SegDesc → ℕ → ℕ → SegDesc
unfolding set_params
the_tss_desc old tss tss_size =
    set_params
      (record old {
        granularity = 0;
        opsize = 0;
        reserved = 0;
        avail = 0;
        seg_lim_19_16 = 0;
        present = 1;
        dpl = 0;
        sys = 0;
        kind = 9;
        seg_lim_15_00 = 104;
      })
      tss tss_size

-- The two words of the packed struct, the lower first.
unfoldable pub low_word : SegDesc → ℕ
low_word d = d.seg_lim_15_00 + 65536 * d.base_15_00

unfoldable pub high_word : SegDesc → ℕ
high_word d =
    d.base_23_16
    + 256 * d.kind
    + 4096 * d.sys
    + 8192 * d.dpl
    + 32768 * d.present
    + 65536 * d.seg_lim_19_16
    + 1048576 * d.avail
    + 2097152 * d.reserved
    + 4194304 * d.opsize
    + 8388608 * d.granularity
    + 16777216 * d.base_31_24

-- What the processor takes from the two words: the address that the segment begins at, its last offset,
-- for which the granularity bit scales the limit field to pages, the byte with the type, the privilege
-- and the present bit, and the four bits between the limit and the base.
abbrev pub segment_base : ℕ → ℕ → ℕ
segment_base low high = low / 65536 + high % 256 * 65536 + high / 16777216 * 16777216

abbrev pub segment_limit : ℕ → ℕ → ℕ
segment_limit low high =
    let field = low % 65536 + high / 65536 % 16 * 65536 in
    if high / 8388608 % 2 == 1 then field * 4096 + 4095 else field

abbrev pub access_byte : ℕ → ℕ
access_byte high = high / 256 % 256

abbrev pub segment_flags : ℕ → ℕ
segment_flags high = high / 1048576 % 16

-- From the words of the task state segment's descriptor the processor reads back the address, below
-- 2 ^ 32, and the limit, below 2 ^ 20 and in bytes, that it was made for, an available, present, 32-bit
-- task state segment of the kernel, and the four flag bits clear.
pub the_tss_desc-words :
    (old : SegDesc) (tss tss_size : ℕ)
    → tss < 4294967296
    → tss_size < 1048576
    → let d = the_tss_desc old tss tss_size in
      (segment_base (low_word d) (high_word d) ≡ tss)
      × (segment_limit (low_word d) (high_word d) ≡ tss_size)
      × (access_byte (high_word d) ≡ 0x89)
      × (segment_flags (high_word d) ≡ 0)
unfolding the_tss_desc low_word high_word
the_tss_desc-words old tss tss_size a b = (omega arith, ground arith, omega arith, omega arith)
