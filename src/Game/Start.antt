-- ===== src/Game/Start.antt =====
-- The position that a game starts from, jni-bridge/src/android-app.c `InitBoard`: five position IDs.
use gnubg_android.Base.{ℕ, List, [], ◌∷◌}
use gnubg_android.Board.{TanBoard}
use gnubg_android.Position.Id.{position_from_id}
use gnubg_android.Outcome.{
  Variation, standard, nackgammon, hypergammon_1, hypergammon_2, hypergammon_3,
}

-- The codes of "4HPwATDgc/ABMA", "4Dl4ADbgOXgANg", "AACAAAAAAgAAAA", "AABAAQAACgAAAA" and
-- "AACgAgAAKgAAAA".
unfoldable pub start_id : Variation → List ℕ
start_id standard = 52 ∷ 72 ∷ 80 ∷ 119 ∷ 65 ∷ 84 ∷ 68 ∷ 103 ∷ 99 ∷ 47 ∷ 65 ∷ 66 ∷ 77 ∷ 65 ∷ []
start_id nackgammon = 52 ∷ 68 ∷ 108 ∷ 52 ∷ 65 ∷ 68 ∷ 98 ∷ 103 ∷ 79 ∷ 88 ∷ 103 ∷ 65 ∷ 78 ∷ 103 ∷ []
start_id hypergammon_1 = 65 ∷ 65 ∷ 67 ∷ 65 ∷ 65 ∷ 65 ∷ 65 ∷ 65 ∷ 65 ∷ 103 ∷ 65 ∷ 65 ∷ 65 ∷ 65 ∷ []
start_id hypergammon_2 = 65 ∷ 65 ∷ 66 ∷ 65 ∷ 65 ∷ 81 ∷ 65 ∷ 65 ∷ 67 ∷ 103 ∷ 65 ∷ 65 ∷ 65 ∷ 65 ∷ []
start_id hypergammon_3 = 65 ∷ 65 ∷ 67 ∷ 103 ∷ 65 ∷ 103 ∷ 65 ∷ 65 ∷ 75 ∷ 103 ∷ 65 ∷ 65 ∷ 65 ∷ 65 ∷ []

unfoldable pub init_board : Variation → TanBoard
init_board bgv = (position_from_id (start_id bgv)).0
