-- ===== src/Kernel/Video.antt =====
-- A switch of terminals keeps the screens.
use zbiggie.Prelude.{
  ℕ, ◌+◌, ◌-◌, ◌≡◌, ◌∙◌, refl, arith, Bool, false, ◌==◌, ◌&&◌, ltb, leb, if◌then◌else◌,
}
use zbiggie.Block.{memcpy}
use zbiggie.Block.Move.{memcpy_lem}
use zbiggie.Console.{video_mem}
use zbiggie.Paging.{buffer_page}
use zbiggie.Kernel.{Kernel, switch_context}
use zbiggie.Kernel.Keyboard.{switch_video}

-- The 4096 bytes of memory that begin at `base`.
abbrev pub in_page : ℕ → ℕ → Bool
in_page base a = leb base a && ltb a (base + 4096)

-- A switch to another terminal puts the screen into the page of the terminal that was shown, the page of
-- the other terminal on the screen, and changes no other byte of video memory.
pub switch_video_lem :
    (term_num : ℕ) (k : Kernel) (a : ℕ)
    → k.current_terminal == term_num ≡ false
    → let k' = switch_video term_num k in
      let old = buffer_page k.current_terminal in
      (k'.current_terminal ≡ term_num)
      × (k'.video a ≡ (
          if in_page video_mem a
          then k.video (buffer_page term_num + (a - video_mem))
          else if in_page old a
          then k.video (video_mem + (a - old))
          else k.video a))
unfolding switch_video switch_context
switch_video_lem term_num k a h =
    let old = buffer_page k.current_terminal in
    let saved = λ (b : ℕ). memcpy_lem k.video old k.video video_mem 4096 b in
    let all = memcpy k.video old k.video video_mem 4096 in
    let shown = memcpy_lem all video_mem all (buffer_page term_num) 4096 a in
    rw (h, shown) (refl, ground (arith, saved a, saved (buffer_page term_num + (a - video_mem))))

-- A switch to another terminal and back leaves each byte of video memory as it was, where the page
-- of the terminal that is shown is left out.
pub switch_video-switch_video :
    (term_num : ℕ) (k : Kernel) (a : ℕ)
    → k.current_terminal == term_num ≡ false
    → in_page (buffer_page k.current_terminal) a ≡ false
    → (switch_video k.current_terminal (switch_video term_num k)).video a ≡ k.video a
switch_video-switch_video term_num k a h p =
    let old = k.current_terminal in
    let away = switch_video term_num k in
    let shows : away.current_terminal ≡ term_num = (switch_video_lem term_num k a h).0 in
    let h' : away.current_terminal == old ≡ false = rw shows (ground (arith, h)) in
    let then_back = (switch_video_lem old away a h').1 in
    let at = λ (b : ℕ). (switch_video_lem term_num k b h).1 in
    then_back
    ∙ rw shows (
        ground (
          arith,
          at a,
          at (buffer_page old + (a - video_mem)),
          at (video_mem + (a - buffer_page term_num)),
        ))
