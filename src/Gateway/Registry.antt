-- ===== src/Gateway/Registry.antt =====
-- wsgateway/ws/manager.go: the sessions by user and session, and the list of ended games. A session
-- is of any type here: the map holds pointers.
use shahboard.Base.{
  ◌&&◌, List, [], ◌∷◌, ◌++◌, map, Option, none, some, lookup, insert, delete, lookup-insert,
  lookup-delete, length, ◌==◌, has, keep_if, not, if◌then◌else◌, ◌≡◌, arith, Option-cases, inl, inr,
  lookup_of_length, lookup-nil, refl, ap, ◌∙◌,
}
use mathlib.Core.Path.{fun_ext}
use shahboard.Types.{ObjectId, dec_id, same_id}

-- userId -> sessionId -> session
abbrev pub Registry : Type 0 → Type 0
Registry S = List (ObjectId × List (ObjectId × S))

module _ {S : Type 0} where
  unfoldable pub add : Registry S → ObjectId → ObjectId → S → Registry S
  add m user id s = elim (lookup dec_id user m) [
    | none ↦ insert dec_id user (insert dec_id id s []) m
    | some l ↦ insert dec_id user (insert dec_id id s l) m
  ]

  unfoldable pub get : Registry S → ObjectId → ObjectId → Option S
  get m user id = elim (lookup dec_id user m) [ none ↦ none | some l ↦ lookup dec_id id l ]

  unfoldable pub remove : Registry S → ObjectId → ObjectId → Registry S
  remove m user id = elim (lookup dec_id user m) [
    | none ↦ m
    | some l ↦
        let left = delete dec_id id l in
        if length left == 0
        then delete dec_id user (insert dec_id user left m)
        else insert dec_id user left m
  ]

  -- `getAll`, the values of one user after those of another.
  unfoldable pub get_all : Registry S → List S
  get_all [] = []
  get_all ((u, l) ∷ m) = map (λ e. e.1) l ++ get_all m

  get-add :
      (m : Registry S) (u v i j : ObjectId) (s : S)
      → get (add m u i s) v j ≡ (if same_id u v && same_id i j then some s else get m v j)
  unfolding get add
  get-add m u v i j s = elim (Option-cases (lookup dec_id u m)) [
    | inl e ↦ ground (
      arith,
      lookup-insert dec_id u v (insert dec_id i s []) m,
      lookup-insert dec_id i j s [],
      lookup-nil {V = S} dec_id j,
    )
    | inr (l, e) ↦
        ground
          (arith, lookup-insert dec_id u v (insert dec_id i s l) m, lookup-insert dec_id i j s l)
  ]

  get-remove :
      (m : Registry S) (u v i j : ObjectId)
      → get (remove m u i) v j ≡ (if same_id u v && same_id i j then none else get m v j)
  unfolding get remove
  get-remove m u v i j = elim (Option-cases (lookup dec_id u m)) [
    | inl e ↦ ground (arith, lookup-nil {V = S} dec_id j)
    | inr (l, e) ↦
        let left = delete dec_id i l in
        ground (
          arith,
          lookup-delete dec_id i j l,
          lookup-delete dec_id u v (insert dec_id u left m),
          lookup-insert dec_id u v left m,
          lookup_of_length dec_id j left,
        )
  ]

-- `endedGamesList`
unfoldable pub add_ended : List ObjectId → ObjectId → List ObjectId
add_ended l id = if has dec_id id l then l else l ++ (id ∷ [])

unfoldable pub remove_ended : List ObjectId → List ObjectId → List ObjectId
remove_ended l ids = keep_if (λ id. not (has dec_id id ids)) l

-- What changes a registry.
pub data Change (S : Type 0) : Type 0 where
  adds : ObjectId → ObjectId → S → Change S
  removes : ObjectId → ObjectId → Change S

module _ {S : Type 0} where
  unfoldable pub change : Registry S → Change S → Registry S
  unfolding add remove
  change m (adds u i s) = add m u i s
  change m (removes u i) = remove m u i

  unfoldable pub changes : Registry S → List (Change S) → Registry S
  changes m [] = m
  changes m (c ∷ cs) = changes (change m c) cs

  -- The specification: a finite map on pairs of a user and a session.
  abbrev change_flat : (ObjectId → ObjectId → Option S) → Change S → ObjectId → ObjectId → Option S
  change_flat f (adds u i s) v j = if same_id u v && same_id i j then some s else f v j
  change_flat f (removes u i) v j = if same_id u v && same_id i j then none else f v j

  unfoldable pub changes_flat :
      (ObjectId → ObjectId → Option S) → List (Change S) → ObjectId → ObjectId → Option S
  changes_flat f [] = f
  changes_flat f (c ∷ cs) = changes_flat (change_flat f c) cs

  get-change :
      (m : Registry S) (c : Change S) (v j : ObjectId)
      → get (change m c) v j ≡ change_flat (get m) c v j
  unfolding change
  get-change m (adds u i s) v j = get-add m u v i j s
  get-change m (removes u i) v j = get-remove m u v i j

  -- Whatever is added and removed, in whatever order, the map of maps, which drops the users
  -- without a session, answers as one finite map on pairs of a user and a session.
  pub get-changes :
      (m : Registry S) (cs : List (Change S)) (v j : ObjectId)
      → get (changes m cs) v j ≡ changes_flat (get m) cs v j
  unfolding changes changes_flat
  get-changes m [] v j = refl
  get-changes m (c ∷ cs) v j =
      get-changes (change m c) cs v j
      ∙ ap (λ f. changes_flat f cs v j) (fun_ext (λ u. fun_ext (λ i. get-change m c u i)))
