-- ===== src/Fish.antt =====
-- fish/fish.c: two text files that blink in turn on the screen. The functions of fish/blink.S are a
-- parameter, and so is where the locals of add_frames, the array blink_array and vmem_base_addr stand.
pub mod Slots
mod Tests
use Prim.Native.String.{String}
use zbiggie.Prelude.{
  ℕ, zero, suc, ◌+◌, ◌*◌, ◌%◌, Bool, true, false, ◌&&◌, ◌||◌, not, Option, none, some, ◌==◌,
  if◌then◌else◌, minus_one, slt, Bytes, update, for_range, load32, ◌>>=◌,
}
use zbiggie.User.System.{System, open_literal}

-- mp1_blink_struct of blink.h: the fields that fish.c sets.
pub record BlinkStruct : Type 0 where
  pub location : ℕ
  pub on_char : ℕ
  pub off_char : ℕ
  pub on_length : ℕ
  pub off_length : ℕ

-- mp1_ioctl with RTC_ADD, which takes a struct, and with the other commands, and mp1_rtc_tasklet.
pub record Blink : Type 1 where
  pub Blinks : Type 0
  pub rtc_add : BlinkStruct → Blinks → Blinks
  pub rtc_remove : ℕ → Blinks → Blinks
  pub rtc_sync : ℕ → Blinks → Blinks
  pub tasklet : ℕ → Blinks → Blinks

unfoldable pub ece391_memset : Bytes → ℕ → ℕ → ℕ → Bytes
ece391_memset m memory c n =
    for_range (if slt n 0 then 0 else n) 0 (λ i (t : Bytes). update t (memory + i) c) m

unfoldable pub ece391_memcpy : Bytes → ℕ → ℕ → ℕ → Bytes
ece391_memcpy m dest src n =
    for_range (if slt n 0 then 0 else n) 0 (λ i (t : Bytes). update t (dest + i) (t (src + i))) m

-- sizeof(struct mp1_blink_struct)
abbrev pub struct_size : ℕ
struct_size = 16

-- blink_array[i].location
abbrev pub location_at : Bytes → ℕ → ℕ → ℕ
location_at m blink_array i = m (blink_array + 16 * i) + 256 * m (blink_array + 16 * i + 1)

-- The search from entry `i` on, with the entries that are left; 0 is NULL.
unfoldable pub find_slot : ℕ → Bytes → ℕ → ℕ → ℕ
find_slot zero m blink_array i = 0
find_slot (suc left) m blink_array i =
    let rest = find_slot left m blink_array (i + 1) in
    if location_at m blink_array i == 0 then blink_array + 16 * i else rest

-- The size that is asked for is not read.
unfoldable pub mp1_malloc : Bytes → ℕ → ℕ
mp1_malloc m blink_array = find_slot 2000 m blink_array 0

unfoldable pub mp1_free : ℕ → Bytes → Bytes
unfolding ece391_memset
mp1_free memory m = ece391_memset m memory 0 struct_size

module _ (sys : System) (b : Blink) (rodata : ℕ) (at_c0 at_c1 garbage : ℕ) where
  -- One of the two reads of the inner loop: a character, or the end of the file as a newline.
  unfoldable pub next_byte : ℕ → ℕ → Bool → Bytes → sys.State → Option (Bool × Bytes × sys.State)
  next_byte fd at eof m st =
      let read = (do
        (num_bytes, m1, st1) ← sys.read fd at 1 m st
        some (if num_bytes == 0 then (true, update m1 at 10, st1) else (eof, m1, st1))) in
      if m at == 10 then some (eof, m, st) else read

  -- A space in place of the newline of the file that has ended its line.
  abbrev pub shown : ℕ → ℕ
  shown c = if c == 10 then b' ' else c

  -- The struct of a place, if one of the two characters is not blank.
  unfoldable pub add_place : ℕ → ℕ → ℕ → ℕ → b.Blinks → b.Blinks
  add_place row col c0 c1 w =
      if (not (c0 == b' ') && not (c0 == 10)) || (not (c1 == b' ') && not (c1 == 10))
      then b.rtc_add
          (record {
            location = (row * 80 + col + 40) % 65536;
            on_char = shown c0;
            off_char = shown c1;
            on_length = 15;
            off_length = 15;
          })
          w
      else w

  -- The inner loop, over the columns of a row: the two ends of file, memory, the system and the blinks.
  unfoldable pub add_row :
      ℕ
      → ℕ
      → ℕ
      → ℕ
      → ℕ
      → Bool
      → Bool
      → Bytes
      → sys.State
      → b.Blinks
      → Option (Bool × Bool × Bytes × sys.State × b.Blinks)
  add_row zero fd0 fd1 row col eof0 eof1 m st w = none
  add_row (suc fuel) fd0 fd1 row col eof0 eof1 m st w = do
    (end0, m1, st1) ← next_byte fd0 at_c0 eof0 m st
    (end1, m2, st2) ← next_byte fd1 at_c1 eof1 m1 st1
    let rest =
        add_row fuel fd0 fd1 row (col + 1) end0 end1 m2 st2
          (add_place row col (m2 at_c0) (m2 at_c1) w)
    if m2 at_c0 == 10 && m2 at_c1 == 10 then some (end0, end1, m2, st2, w) else rest

  -- The character that the next row begins with, and the close behind the end of a file.
  unfoldable pub end_row : ℕ → ℕ → Bool → Bytes → sys.State → Option (Bytes × sys.State)
  end_row fd at eof m st =
      let closed = (do (r, st1) ← sys.close fd st; some (update m at 10, st1)) in
      if eof then closed else some (update m at b'0', st)

  -- while(eof0 == 0 || eof1 == 0); `width` is the fuel of a row.
  unfoldable pub add_rows :
      ℕ
      → ℕ
      → ℕ
      → ℕ
      → ℕ
      → Bool
      → Bool
      → Bytes
      → sys.State
      → b.Blinks
      → Option (Bytes × sys.State × b.Blinks)
  add_rows zero width fd0 fd1 row eof0 eof1 m st w = none
  add_rows (suc fuel) width fd0 fd1 row eof0 eof1 m st w =
      let more = (do
        (end0, end1, m1, st1, w1) ← add_row width fd0 fd1 row 0 eof0 eof1 m st w
        (m2, st2) ← end_row fd0 at_c0 end0 m1 st1
        (m3, st3) ← end_row fd1 at_c1 end1 m2 st2
        add_rows fuel width fd0 fd1 (row + 1) end0 end1 m3 st3 w1) in
      if eof0 && eof1 then some (m, st, w) else more

  -- A file that does not open ends the program: `none`, as of a call that does not come back.
  unfoldable pub add_frames :
      ℕ → ℕ → Bytes → sys.State → b.Blinks → Option (Bytes × sys.State × b.Blinks)
  add_frames fuel width m st w = do
    (fd0, st1) ← open_literal sys rodata "frame0.txt" m st
    (fd1, st2) ← if slt fd0 0 then none else open_literal sys rodata "frame1.txt" m st1
    let rows =
        add_rows fuel width fd0 fd1 0 false false (update (update m at_c0 b'0') at_c1 b'0') st2 w
    if slt fd1 0 then none else rows

  -- for(i=0; i<n; i++): a tick of the clock and the tasklet.
  unfoldable pub ticks :
      ℕ → ℕ → Bytes → sys.State → b.Blinks → Option (Bytes × sys.State × b.Blinks)
  ticks zero rtc_fd m st w = some (m, st, w)
  ticks (suc n) rtc_fd m st w = do
    (r, m1, st1) ← sys.read rtc_fd garbage 4 m st
    ticks n rtc_fd m1 st1 (b.tasklet (load32 m1 garbage) w)

  -- main; `rate` is where the 32 that sets the clock stands. As the source has it, the last command gets
  -- the loop counter and not the struct.
  unfoldable pub fish :
      (fuel width blink_array vmem_base_addr rate : ℕ)
      → Bytes
      → sys.State
      → b.Blinks
      → Option (ℕ × sys.State × b.Blinks)
  fish fuel width blink_array vmem_base_addr rate m st w = do
    (mapped, m1, st1) ← sys.vidmap vmem_base_addr (ece391_memset m blink_array 0 32000) st
    let run = (do
      (rtc_fd, st2) ← open_literal sys rodata "rtc" m1 st1
      (m2, st3, w1) ← add_frames fuel width m1 st2 w
      let set = update (update (update (update m2 rate 32) (rate + 1) 0) (rate + 2) 0) (rate + 3) 0
      (r, st4) ← sys.write rtc_fd rate 4 set st3
      (m3, st5, w2) ← ticks 200 rtc_fd set st4 w1
      let letters : BlinkStruct = record {
        location = 540;
        on_char = b'I';
        off_char = b'M';
        on_length = 7;
        off_length = 6;
      }
      (m4, st6, w3) ← ticks 200 rtc_fd m3 st5 (b.rtc_add letters w2)
      (m5, st7, w4) ← ticks 200 rtc_fd m4 st6 (b.rtc_sync 2621980 w3)
      (m6, st8, w5) ← ticks 2000 rtc_fd m5 st7 (b.rtc_remove 200 w4)
      (r', st9) ← sys.close rtc_fd st8
      some (0, st9, w5))
    if mapped == minus_one || load32 m1 vmem_base_addr == 0 then some (minus_one, st1, w) else run
