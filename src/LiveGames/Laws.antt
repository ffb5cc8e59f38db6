-- ===== src/LiveGames/Laws.antt =====
-- The shown list stays within its cap, and shows only games that are live.
use shahboard.Base.{
  ℕ, zero, suc, ℤ, ◌≡◌, ◌≤◌, Bool, true, not, List, [], ◌∷◌, map, Option, none, some, lookup,
  insert, delete, lookup-insert, lookup-delete, length, length-append, take, keep_if, ltb, arith,
  Bool-cases, inl, inr, All, All-append, is_some,
}
use shahboard.Types.{ObjectId, dec_id, same_id}
use shahboard.LiveGames.{
  LiveGame, LiveGames, add, remove, with_viewers, update_live_games, get_all, scored,
}

length-keep_if-le : (p : LiveGame → Bool) (gs : List LiveGame) → length (keep_if p gs) ≤ length gs
length-keep_if-le p [] = omega arith
length-keep_if-le p (g ∷ gs) = ground (arith, length-keep_if-le p gs)

length-take-le : (n : ℕ) (gs : List LiveGame) → length (take n gs) ≤ n
length-take-le zero gs = omega arith
length-take-le (suc n) [] = omega arith
length-take-le (suc n) (g ∷ gs) = omega (arith, length-take-le n gs)

abbrev IsCapped : LiveGames → Type 0
IsCapped s = length s.sorted_list ≤ s.list_cap

-- A shown list that is no longer than its cap stays so, whatever is added or removed and however
-- the games are sorted.
live-IsCapped :
    (sort : List LiveGame → List LiveGame) (s : LiveGames) (g : LiveGame) (id : ObjectId)
    (viewers : Option (List (ObjectId × ℤ)))
    → IsCapped s
    → IsCapped (add s g) × IsCapped (remove s id) × IsCapped (update_live_games sort s viewers)
unfolding add remove
live-IsCapped sort s g id viewers h = (
  ground (arith, length-append s.sorted_list (g ∷ [])),
  omega (arith, length-keep_if-le (λ x. not (same_id x.game_id id)) s.sorted_list),
  update-IsCapped viewers,
)
  where
    update-IsCapped : (v : Option (List (ObjectId × ℤ))) → IsCapped (update_live_games sort s v)
    update-IsCapped none = unfold update_live_games in h
    update-IsCapped (some m) =
        unfold update_live_games in
        ground (arith, length-take-le s.list_cap (sort (scored (map (with_viewers m) (get_all s)))))

-- Every shown game is in the map.
abbrev ShowsLive : (gs : List LiveGame) → List (ObjectId × LiveGame) → Type 0
ShowsLive gs m = All (λ g. is_some (lookup dec_id g.game_id m) ≡ true) gs

ShowsLive-insert :
    (gs : List LiveGame) (m : List (ObjectId × LiveGame)) (g : LiveGame)
    → ShowsLive gs m
    → ShowsLive gs (insert dec_id g.game_id g m)
ShowsLive-insert [] m g h = tt
ShowsLive-insert (x ∷ gs) m g h =
    (ground (arith, lookup-insert dec_id g.game_id x.game_id g m, h.0), ShowsLive-insert gs m g h.1)

ShowsLive-delete :
    (gs : List LiveGame) (m : List (ObjectId × LiveGame)) (id : ObjectId)
    → ShowsLive gs m
    → ShowsLive (keep_if (λ g. not (same_id g.game_id id)) gs) (delete dec_id id m)
ShowsLive-delete [] m id h = tt
ShowsLive-delete (x ∷ gs) m id h =
    ground (arith, lookup-delete dec_id id x.game_id m, ShowsLive-delete gs m id h.1)

-- If the list that clients are shown names live games only, adding a game and removing one keep
-- it so, and the removed game is not live any more.
live-ShowsLive :
    (s : LiveGames) (g : LiveGame) (id : ObjectId)
    → ShowsLive s.sorted_list s.list
    → ShowsLive (add s g).sorted_list (add s g).list
      × ShowsLive (remove s id).sorted_list (remove s id).list
      × (lookup dec_id id (remove s id).list ≡ none)
unfolding add remove
live-ShowsLive s g id h = (
  elim (Bool-cases (ltb (length s.sorted_list) s.list_cap)) [
    | inl room ↦ rw room (
        All-append
          (λ x. is_some (lookup dec_id x.game_id (insert dec_id g.game_id g s.list)) ≡ true)
          s.sorted_list (g ∷ []) (ShowsLive-insert s.sorted_list s.list g h)
          (ground (arith, lookup-insert dec_id g.game_id g.game_id g s.list)))
    | inr full ↦ rw full (ShowsLive-insert s.sorted_list s.list g h)
  ],
  ShowsLive-delete s.sorted_list s.list id h,
  ground (arith, lookup-delete dec_id id id s.list),
)
