-- ===== src/Tracker/Laws.antt =====
-- What `add`, `remove` and `removeGame` do to the players of a game.
use shahboard.Base.{
  ℕ, ◌≡◌, [], Option, none, some, lookup, insert, delete, lookup-nil, lookup_of_length,
  lookup-insert, lookup-delete, if◌then◌else◌, arith, ◌&&◌, Option-cases, inl, inr,
}
use shahboard.Types.{ObjectId, dec_id, same_id}
use shahboard.Tracker.{Tracker, add, remove, remove_game, get}

-- Since when the player is disconnected from the game.
abbrev pub since : Tracker → ObjectId → ObjectId → Option ℕ
since t g p = lookup dec_id p (get t g)

module _ (t : Tracker) (g h : ObjectId) (p q : ObjectId) (now : ℕ) where
  -- A player who leaves a game is disconnected from it since then; every other entry stays.
  since-add :
      since (add t g p now) h q ≡ (if same_id g h && same_id p q then some now else since t h q)
  unfolding add get
  since-add = elim (Option-cases (lookup dec_id g t.list)) [
    | inl e ↦ ground (
      arith,
      lookup-insert dec_id g h (insert dec_id p now []) t.list,
      lookup-insert dec_id p q now [],
      lookup-nil {V = ℕ} dec_id q,
    )
    | inr (ps, e) ↦ ground (
      arith,
      lookup-insert dec_id g h (insert dec_id p now ps) t.list,
      lookup-insert dec_id p q now ps,
    )
  ]

  -- A player who joins again is not disconnected from the game any more; every other entry stays.
  since-remove :
      since (remove t g p) h q ≡ (if same_id g h && same_id p q then none else since t h q)
  unfolding remove get
  since-remove = elim (Option-cases (lookup dec_id g t.list)) [
    | inl e ↦ ground (arith, lookup-nil {V = ℕ} dec_id q)
    | inr (ps, e) ↦
        let left = delete dec_id p ps in
        ground (
          arith,
          lookup-delete dec_id p q ps,
          lookup-delete dec_id g h (insert dec_id g left t.list),
          lookup-insert dec_id g h left t.list,
          lookup_of_length dec_id q left,
          lookup-nil {V = ℕ} dec_id q,
        )
  ]

  -- A game that has ended has no entry left, and no other game loses one.
  since-remove_game : since (remove_game t g) h q ≡ (if same_id g h then none else since t h q)
  unfolding remove_game get
  since-remove_game = ground (arith, lookup-delete dec_id g h t.list, lookup-nil {V = ℕ} dec_id q)
