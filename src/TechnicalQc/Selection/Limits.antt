-- ===== src/TechnicalQc/Selection/Limits.antt =====
-- The limits that the selection of tasks keeps.
use video_review.Base.{
  ℕ, zero, suc, ◌+◌, ◌≤◌, ◌<◌, ◌≡◌, refl, Bool, false, List, [], ◌∷◌, ◌++◌, leb, ◌==◌,
  if◌then◌else◌, max, arith, Bool-cases, inl, inr, All, All-append, All-sort_by, length,
  length-append, count_where, count_where-append, eq_of_test, ◌||◌,
}
use mathlib.Core.Path.{sym}
use video_review.TechnicalQc.Tasks.{QcTask, QcTables}
use video_review.TechnicalQc.Selection.{
  mem, Group, grouped, add_to_groups, sorted_rows, ordered_groups, group_before, episode_before,
  Selection, drop_active, select_task, take_turn, turn_of, select_pass, select_rounds, select_tasks,
}

-- Rows of a project that have a property.
abbrev RowsOf : (QcTask → Type 0) → ℕ → List QcTask → Type 0
RowsOf P p = All (λ t. (t.project_ref_id ≡ p) × P t)

module _ (P : QcTask → Type 0) where
  -- Every row of a group is a task of the group's project, with the property.
  abbrev IsOfProject : Group → Type 0
  IsOfProject g = RowsOf P g.project g.rows

  All-add_to_groups :
      (t : QcTask) (gs : List Group)
      → P t
      → All IsOfProject gs
      → All IsOfProject (add_to_groups t gs)
  All-add_to_groups t [] k h = (((refl, k), tt), tt)
  All-add_to_groups t (g ∷ gs) k h = elim (Bool-cases (g.project == t.project_ref_id)) [
    | inl e ↦ rw e (
      All-append (λ u. (u.project_ref_id ≡ g.project) × P u) g.rows (t ∷ []) h.0
          ((sym (eq_of_test g.project t.project_ref_id e), k), tt),
      h.1,
    )
    | inr e ↦ rw e (h.0, All-add_to_groups t gs k h.1)
  ]

  All-grouped :
      (items : List ℕ) (ts : List QcTask) (gs : List Group)
      → All P ts
      → All IsOfProject gs
      → All IsOfProject (grouped items ts gs)
  All-grouped items [] gs k h = h
  All-grouped items (t ∷ ts) gs k h = elim (Bool-cases (mem t.review_item_id items)) [
    | inl e ↦ rw e (All-grouped items ts gs k.1 h)
    | inr e ↦ rw e (All-grouped items ts (add_to_groups t gs) k.1 (All-add_to_groups t gs k.0 h))
  ]

  All-sorted_rows :
      (s : QcTables) (gs : List Group) → All IsOfProject gs → All IsOfProject (sorted_rows s gs)
  All-sorted_rows s [] h = tt
  All-sorted_rows s (g ∷ gs) h = (
    All-sort_by (λ t. (t.project_ref_id ≡ g.project) × P t) (episode_before s) g.rows h.0,
    All-sorted_rows s gs h.1,
  )

  All-drop_active :
      (p : ℕ) (items : List ℕ) (ts : List QcTask)
      → RowsOf P p ts
      → RowsOf P p (drop_active items ts)
  All-drop_active p items [] h = tt
  All-drop_active p items (t ∷ ts) h = elim (Bool-cases (mem t.review_item_id items)) [
    | inl e ↦ rw e (All-drop_active p items ts h.1)
    | inr e ↦ rw e h
  ]

-- The first row that is left is not of an active item.
abbrev HeadIsFree : List ℕ → List QcTask → Type 0
HeadIsFree items [] = Unit
HeadIsFree items (t ∷ ts) = mem t.review_item_id items ≡ false

drop_active-HeadIsFree :
    (items : List ℕ) (ts : List QcTask) → HeadIsFree items (drop_active items ts)
drop_active-HeadIsFree items [] = tt
drop_active-HeadIsFree items (t ∷ ts) = elim (Bool-cases (mem t.review_item_id items)) [
  | inl e ↦ rw e (drop_active-HeadIsFree items ts)
  | inr e ↦ rw e e
]

-- The tasks of a project, and those of an item.
abbrev pub of_project : ℕ → List QcTask → ℕ
of_project p = count_where (λ t. t.project_ref_id == p)

abbrev pub of_item : ℕ → List QcTask → ℕ
of_item k = count_where (λ t. t.review_item_id == k)

abbrev pub one_if : Bool → ℕ
one_if b = if b then 1 else 0

module _ (P : QcTask → Type 0) (room per_project : ℕ) (counts : ℕ → ℕ) (items : List ℕ) where
  -- What the selection keeps, against the running tasks that it started from.
  pub record IsFair (s : Selection) : Type 0 where
    pub all : All P s.selected
    pub within_room : length s.selected ≤ room
    pub counted : (p : ℕ) → s.active_counts p ≡ counts p + of_project p s.selected
    pub within_project : (p : ℕ) → counts p + of_project p s.selected ≤ max (counts p) per_project
    pub one_of_item :
        (k : ℕ) → of_item k s.selected + one_if (mem k items) ≤ one_if (mem k s.active_items)

  select_task-IsFair :
      (p : ℕ) (t : QcTask) (s : Selection)
      → IsFair s
      → length s.selected < room
      → s.active_counts p < per_project
      → (t.project_ref_id ≡ p) × P t
      → mem t.review_item_id s.active_items ≡ false
      → IsFair (select_task p t s)
  select_task-IsFair p t s h free below (same, has) apart = record {
    all = All-append P s.selected (t ∷ []) h.all (has, tt);
    within_room = omega (arith, length-append s.selected (t ∷ []));
    counted = λ q. count_one q;
    within_project = λ q. within_one q;
    one_of_item = λ k. item_one k;
  }
    where
      of_project-more :
          (q : ℕ) → of_project q (s.selected ++ t ∷ []) ≡ of_project q s.selected + one_if (q == p)
      of_project-more q =
          ground (arith, count_where-append (λ u. u.project_ref_id == q) s.selected (t ∷ []), same)

      count_one :
          (q : ℕ)
          → (if q == p then s.active_counts q + 1 else s.active_counts q)
            ≡ counts q + of_project q (s.selected ++ t ∷ [])
      count_one q = ground (arith, of_project-more q, h.counted q)

      within_one :
          (q : ℕ) → counts q + of_project q (s.selected ++ t ∷ []) ≤ max (counts q) per_project
      within_one q = elim (Bool-cases (q == p)) [
        | inl e ↦
            let here : s.active_counts q < per_project = rw (eq_of_test q p e) below in
            ground (arith, of_project-more q, h.counted q, here)
        | inr e ↦ ground (arith, of_project-more q, h.within_project q)
      ]

      of_item-more :
          (k : ℕ)
          → of_item k (s.selected ++ t ∷ []) ≡ of_item k s.selected + one_if (t.review_item_id == k)
      of_item-more k =
          omega (arith, count_where-append (λ u. u.review_item_id == k) s.selected (t ∷ []))

      item_one :
          (k : ℕ)
          → of_item k (s.selected ++ t ∷ []) + one_if (mem k items)
            ≤ one_if (t.review_item_id == k || mem k s.active_items)
      item_one k = elim (Bool-cases (t.review_item_id == k)) [
        | inl e ↦
            let free_item : mem k s.active_items ≡ false =
              rw (← eq_of_test t.review_item_id k e) apart in
            ground (arith, of_item-more k, h.one_of_item k, free_item)
        | inr e ↦ ground (arith, of_item-more k, h.one_of_item k)
      ]

  take_turn-IsFair :
      (p : ℕ) (ts : List QcTask) (s : Selection) (advanced : Bool)
      → IsFair s
      → length s.selected < room
      → s.active_counts p < per_project
      → RowsOf P p ts
      → HeadIsFree s.active_items ts
      → IsFair (take_turn p ts s advanced).selection
        × IsOfProject P (take_turn p ts s advanced).group
  take_turn-IsFair p [] s advanced h free below same apart = (h, tt)
  take_turn-IsFair p (t ∷ ts) s advanced h free below same apart =
      (select_task-IsFair p t s h free below same.0 apart, same.1)

  turn_of-IsFair :
      (g : Group) (s : Selection) (advanced : Bool)
      → IsFair s
      → length s.selected < room
      → IsOfProject P g
      → IsFair (turn_of per_project g s advanced).selection
        × IsOfProject P (turn_of per_project g s advanced).group
  turn_of-IsFair g s advanced h free same =
      elim (Bool-cases (leb per_project (s.active_counts g.project))) [
        | inl full ↦ rw full (h, same)
        | inr below ↦ rw below (
            take_turn-IsFair g.project (drop_active s.active_items g.rows) s advanced h free
              (ground arith) (All-drop_active P g.project s.active_items g.rows same)
              (drop_active-HeadIsFree s.active_items g.rows))
      ]

  select_pass-IsFair :
      (gs : List Group) (s : Selection) (advanced : Bool)
      → IsFair s
      → All (IsOfProject P) gs
      → IsFair (select_pass room per_project gs s advanced).selection
        × All (IsOfProject P) (select_pass room per_project gs s advanced).groups
  unfolding select_pass
  select_pass-IsFair [] s advanced h same = (h, tt)
  select_pass-IsFair (g ∷ gs) s advanced h same = elim (Bool-cases (leb room (length s.selected))) [
    | inl full ↦ rw (full, select_pass) (h, same)
    | inr free ↦
        let turn = turn_of per_project g s advanced in
        let (fair, own) = turn_of-IsFair g s advanced h (ground arith) same.0 in
        let (k, rest) = select_pass-IsFair gs turn.selection turn.advanced fair same.1 in
        rw (free, select_pass) (k, (own, rest))
  ]

  select_rounds-IsFair :
      (fuel : ℕ) (gs : List Group) (s : Selection)
      → IsFair s
      → All (IsOfProject P) gs
      → IsFair (select_rounds fuel room per_project gs s)
  unfolding select_rounds
  select_rounds-IsFair zero gs s h same = h
  select_rounds-IsFair (suc fuel) gs s h same = elim (Bool-cases (leb room (length s.selected))) [
    | inl full ↦ rw (full, select_rounds) h
    | inr free ↦
        let pass = select_pass room per_project gs s false in
        let (k, rest) = select_pass-IsFair gs s false h same in
        elim (Bool-cases pass.advanced) [
          | inl more ↦
              rw (free, more, select_rounds)
                (select_rounds-IsFair fuel pass.groups pass.selection k rest)
          | inr done ↦ rw (free, done, select_rounds) k
        ]
  ]

  pub select_tasks-IsFair :
      (s : QcTables) (candidates : List QcTask)
      → All P candidates
      → IsFair (select_tasks s room per_project counts items candidates)
  unfolding select_tasks
  select_tasks-IsFair s candidates each =
      select_rounds-IsFair (room + 1) (ordered_groups s counts items candidates) _
        (record {
          all = tt;
          within_room = omega arith;
          counted = λ p. omega arith;
          within_project = λ p. omega arith;
          one_of_item = λ k. omega arith;
        })
        (All-sort_by (IsOfProject P) (group_before counts)
          (sorted_rows s (grouped items candidates []))
          (All-sorted_rows P s (grouped items candidates [])
            (All-grouped P items candidates [] each tt)))

All-trivial : (ts : List QcTask) → All (λ t. Unit {0}) ts
All-trivial [] = tt
All-trivial (t ∷ ts) = (tt, All-trivial ts)

pub one_if-bounded : (b : Bool) → one_if b ≤ 1
one_if-bounded b = ground arith

-- The selection has at most `room` tasks, takes no project with its running tasks above the larger
-- of their number and `per_project_limit`, and takes at most one task of an item, and none of an
-- active item.
pub select_tasks-limited :
    (s : QcTables) (room per_project : ℕ) (counts : ℕ → ℕ) (items : List ℕ)
    (candidates : List QcTask)
    → (length (select_tasks s room per_project counts items candidates).selected ≤ room)
      × ((p : ℕ)
          → counts p
              + of_project p (select_tasks s room per_project counts items candidates).selected
            ≤ max (counts p) per_project)
      × ((k : ℕ)
          → of_item k (select_tasks s room per_project counts items candidates).selected
              + one_if (mem k items)
            ≤ 1)
select_tasks-limited s room per_project counts items candidates =
    let h =
      select_tasks-IsFair (λ t. Unit {0}) room per_project counts items s candidates
        (All-trivial candidates) in
    (
      h.within_room,
      h.within_project,
      λ k. omega (
        arith,
        h.one_of_item k,
        one_if-bounded
            (mem k (select_tasks s room per_project counts items candidates).active_items),
      ),
    )
