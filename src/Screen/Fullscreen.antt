-- ===== src/Screen/Fullscreen.antt =====
-- userspace/srv_fullscreen.c: a driver that shows a whole screen of characters at once.
use vsop.Base.{
  ℕ, ◌+◌, ◌*◌, ◌≤◌, ◌<◌, ◌≡◌, inr, List, arith, length, get_or, ltb, if◌then◌else◌, bit_or,
}
use vsop.Base.Loops.{iterate, fill, fill-inside, fill-outside}
use vsop.Screen.{Screen, screen_height, screen_width}

-- A signed `char` as a word of 16 bits.
abbrev pub char_word : ℕ → ℕ
char_word c = if ltb c 128 then c else 65280 + c

-- `value` in the loop of `screen_display`.
abbrev pub display_cell : ℕ → ℕ → ℕ
display_cell style c = bit_or (style * 256) (char_word c)

unfoldable pub screen_display : List ℕ → Screen → Screen
unfolding iterate
screen_display buf s = record s {
  videomem =
      fill (λ i. display_cell s.cur_style (get_or buf i 0)) 0 (screen_width * screen_height)
        s.videomem;
}

-- With a screen's memory, each cell of the screen shows its character of the buffer in the current
-- style, and no other cell changes.
pub screen_display_lem :
    (buf : List ℕ) (s : Screen) (j : ℕ)
    → 2000 ≤ length s.videomem
    → (j < 2000
        → get_or (screen_display buf s).videomem j 0 ≡ display_cell s.cur_style (get_or buf j 0))
      × (2000 ≤ j → get_or (screen_display buf s).videomem j 0 ≡ get_or s.videomem j 0)
unfolding screen_display
screen_display_lem buf s j h = (
  λ p.
      fill-inside (λ i. display_cell s.cur_style (get_or buf i 0)) 0 2000 s.videomem j 0 h
        (omega arith) (omega arith),
  λ p.
      fill-outside (λ i. display_cell s.cur_style (get_or buf i 0)) 0 2000 s.videomem j 0
        (inr (omega arith)),
)
