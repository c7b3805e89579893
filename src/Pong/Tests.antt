-- ===== src/Pong/Tests.antt =====
-- Runs of the game.
use project_k.Base.{◌-◌, ◌≡◌, ◌^◌, refl, Bool, true, none, some}
use project_k.Graphic.{Pixels, Image}
use project_k.Pong.{Pong, press, limit, edges, advance, game_start, game_loop}
use project_k.Pong.Play.{Playing, game_loop-Playing}

abbrev dark : Pixels
dark k = 0

abbrev dot : Image
dot = record { width = 1; height = 1; pixels = λ i j. 7 }

game_loop-Playing_example :
    (on : Bool) × (g : Pong) × (game_loop dot (λ n. 80) 200 dark ≡ some (on, g)) × Playing g
game_loop-Playing_example = game_loop-Playing dot (λ n. 80) 200 dark

down_test : press 80 100 ≡ some 105
unfolding press
down_test = refl

no_key_test : press (2 ^ 32 - 1) 100 ≡ some 100
unfolding press
no_key_test = refl

leave_test : press 1 100 ≡ none
unfolding press
leave_test = refl

top_test : limit 15 ≡ 20
unfolding limit
top_test = refl

-- The ball at the lower edge is turned.
edge_test : edges 192 2 ≡ (191, 2 ^ 32 - 2, true)
unfolding edges
edge_test = refl

abbrev moving : Pong
moving = record (game_start dark) { standby = 0; y = 190 }

advance_test : (advance moving).x ≡ 162
unfolding advance
advance_test = refl
