-- ===== src/GameService/Manager.antt =====
-- The games that an instance manages: the map of gameservice/service/manager.go. Writing to a game
-- through its pointer is `store`.
use shahboard.Base.{
  Bool, true, false, ◌||◌, List, [], ◌∷◌, map, Option, lookup, insert, delete_all, if◌then◌else◌,
  is_some,
}
use shahboard.Types.{ObjectId, dec_id, same_id}
use shahboard.Game.{Game}

abbrev pub Managed : Type 0 → Type 0
Managed B = List (ObjectId × Game B)

module _ {B : Type 0} where
  unfoldable pub add_game : Managed B → Game B → Managed B × Bool
  add_game m g =
      if is_some (lookup dec_id g.id m) then (m, false) else (insert dec_id g.id g m, true)

  unfoldable get_list : Managed B → List (Game B)
  get_list m = map (λ e. e.1) m

  unfoldable pub get_game : Managed B → ObjectId → Option (Game B)
  get_game m id = lookup dec_id id m

  unfoldable pub remove_game : Managed B → List ObjectId → Managed B
  remove_game m ids = delete_all dec_id ids m

  unfoldable pub check_by_player : Managed B → ObjectId → Bool
  check_by_player [] p = false
  check_by_player ((k, g) ∷ m) p =
      if same_id g.player1.id p || same_id g.player2.id p then true else check_by_player m p

  unfoldable pub store : Managed B → ObjectId → Game B → Managed B
  store m id g = insert dec_id id g m
