-- ===== src/Screen/Tests.antt =====
-- A screen with some text, and the theorems at it.
use vsop.Base.{[], ◌∷◌, arith, replicate}
use vsop.Screen.{Screen}
use vsop.Screen.Server

-- The cursor is behind the last column of the last row.
abbrev full : Screen
full = record { videomem = replicate 2100 1824; cur_style = 7; cur_x = 80; cur_y = 24 }

abbrev cursor_inside : Screen
cursor_inside = record { videomem = replicate 2100 1824; cur_style = 7; cur_x = 79; cur_y = 24 }

screen_putstr-Keeps_example :
    Server.Keeps cursor_inside (Server.screen_putstr (65 ∷ 66 ∷ []) cursor_inside)
screen_putstr-Keeps_example =
    Server.screen_putstr-Keeps (65 ∷ 66 ∷ []) cursor_inside
      (record { x = omega arith; y = omega arith })
