-- ===== src/TechnicalQc/Selection.antt =====
-- Which tasks `claim_technical_qc_tasks` of technical_qc.py selects: the candidates of
-- `_claim_candidates`, grouped by project, and the rounds that take one task of each project.
pub mod Limits
use video_review.Base.{
  ℕ, zero, suc, ◌+◌, ◌-◌, ◌*◌, Bool, true, false, not, ◌&&◌, ◌||◌, Option, none, some, List, [],
  ◌∷◌, ◌++◌, ltb, leb, ◌==◌, opt_eq, is_none, is_some, if◌then◌else◌, min, max, filter, take,
  sort_by, length, count_where,
}
use video_review.Review.Store.{Item}
use video_review.TechnicalQc.Tasks.{
  QcStatus, queued, failed, running, complete, QcTask, QcTables, is_running, project_is_active,
  playback_is_ready,
}

-- A comparison of keys from left to right.
abbrev pub then_by : ℕ → ℕ → Bool → Bool
then_by a b rest = if ltb a b then true else if ltb b a then false else rest

-- By `created_at` and `id`.
abbrev created_before : QcTask → QcTask → Bool
created_before t u = then_by t.created_at u.created_at (ltb t.id u.id)

abbrev pub is_due : ℕ → QcStatus → Option ℕ → Bool
is_due now queued next = true
is_due now failed none = false
is_due now failed (some at_time) = leb at_time now
is_due now running next = false
is_due now complete next = false

-- The conditions of the candidates on the task, its project and its playback file.
abbrev pub is_claimable : QcTables → ℕ → ℕ → QcTask → Bool
is_claimable s now max_attempts t =
    project_is_active (s.projects t.project_ref_id)
    && playback_is_ready t (s.playback_tasks t.version_id)
    && ltb t.attempts max_attempts
    && is_due now t.status t.next_attempt_at

abbrev pub mem : ℕ → List ℕ → Bool
mem n [] = false
mem n (k ∷ ks) = k == n || mem n ks

-- The first of every project.
abbrev distinct_projects : List ℕ → List QcTask → List ℕ
distinct_projects seen [] = []
distinct_projects seen (t ∷ ts) =
    let old = distinct_projects seen ts in
    let new = distinct_projects (t.project_ref_id ∷ seen) ts in
    if mem t.project_ref_id seen then old else t.project_ref_id ∷ new

-- The projects by the oldest of their claimable tasks.
abbrev project_ids : ℕ → List QcTask → List ℕ
project_ids candidate_limit claimable = take candidate_limit (
    distinct_projects [] (
      sort_by (λ t u. then_by t.created_at u.created_at (ltb t.project_ref_id u.project_ref_id))
        claimable))

-- `item_rank == 1`: no claimable task of the same item is older.
abbrev is_first_of_item : List QcTask → QcTask → Bool
is_first_of_item claimable t =
    count_where (λ u. u.review_item_id == t.review_item_id && created_before u t) claimable == 0

abbrev item_is_joined : QcTask → Option Item → Bool
item_is_joined t none = false
item_is_joined t (some i) = i.project_ref_id == t.project_ref_id

abbrev episode_of : Option Item → Option ℕ
episode_of none = none
episode_of (some i) = i.episode_no

-- A missing episode comes last, and counts as 0 among its like.
abbrev episode_rank : Option ℕ → ℕ
episode_rank none = 1
episode_rank (some n) = 0

abbrev episode_value : Option ℕ → ℕ
episode_value none = 0
episode_value (some n) = n

-- By the item's episode, `created_at` and `id`.
abbrev pub episode_before : QcTables → QcTask → QcTask → Bool
episode_before s t u =
    let e = episode_of (s.items t.review_item_id) in
    let f = episode_of (s.items u.review_item_id) in
    then_by (episode_rank e) (episode_rank f)
      (then_by (episode_value e) (episode_value f) (created_before t u))

-- The candidates of one project.
abbrev project_candidates : QcTables → List QcTask → ℕ → List QcTask
project_candidates s claimable project = sort_by (episode_before s) (
    filter
      (λ t.
        t.project_ref_id == project
        && is_first_of_item claimable t
        && item_is_joined t (s.items t.review_item_id)
        && s.has_file t.input_file_id)
      claimable)

abbrev pub candidates_of : QcTables → List QcTask → ℕ → ℕ → List ℕ → List QcTask → List QcTask
candidates_of s claimable candidate_limit per_project [] rows = rows
candidates_of s claimable candidate_limit per_project (p ∷ ps) rows =
    let more =
      rows
      ++ take (min (candidate_limit - length rows) per_project)
          (project_candidates s claimable p) in
    let rest = candidates_of s claimable candidate_limit per_project ps more in
    if leb candidate_limit (length rows) then rows else rest

unfoldable pub claim_candidates : QcTables → ℕ → ℕ → ℕ → ℕ → List QcTask → List QcTask
claim_candidates s now max_attempts candidate_limit per_project tasks =
    let claimable = filter (is_claimable s now max_attempts) tasks in
    candidates_of s claimable candidate_limit per_project (project_ids candidate_limit claimable) []

-- The rows of one project that may still be selected.
pub record Group : Type 0 where
  pub project : ℕ
  pub rows : List QcTask

-- `setdefault(project, []).append(task)`
abbrev pub add_to_groups : QcTask → List Group → List Group
add_to_groups t [] = record { project = t.project_ref_id; rows = t ∷ [] } ∷ []
add_to_groups t (g ∷ gs) =
    let rest = add_to_groups t gs in
    if g.project == t.project_ref_id then record g { rows = g.rows ++ t ∷ [] } ∷ gs else g ∷ rest

abbrev pub grouped : List ℕ → List QcTask → List Group → List Group
grouped active_items [] groups = groups
grouped active_items (t ∷ ts) groups =
    if mem t.review_item_id active_items
    then grouped active_items ts groups
    else grouped active_items ts (add_to_groups t groups)

abbrev first_created : List QcTask → ℕ
first_created [] = 0
first_created (t ∷ ts) = t.created_at

abbrev pub sorted_rows : QcTables → List Group → List Group
sorted_rows s [] = []
sorted_rows s (g ∷ gs) = record g { rows = sort_by (episode_before s) g.rows } ∷ sorted_rows s gs

-- By the running tasks of the project, its first row, and the project.
abbrev pub group_before : (ℕ → ℕ) → Group → Group → Bool
group_before active_counts g h =
    then_by (active_counts g.project) (active_counts h.project)
      (then_by (first_created g.rows) (first_created h.rows) (ltb g.project h.project))

abbrev pub ordered_groups : QcTables → (ℕ → ℕ) → List ℕ → List QcTask → List Group
ordered_groups s active_counts active_items candidates =
    sort_by (group_before active_counts) (sorted_rows s (grouped active_items candidates []))

-- The state of the selection.
pub record Selection : Type 0 where
  pub selected : List QcTask
  pub active_items : List ℕ
  pub active_counts : ℕ → ℕ

-- `while rows and rows[0] is active: rows.pop(0)`
abbrev pub drop_active : List ℕ → List QcTask → List QcTask
drop_active active_items [] = []
drop_active active_items (t ∷ ts) =
    let rest = drop_active active_items ts in
    if mem t.review_item_id active_items then rest else t ∷ ts

abbrev pub select_task : ℕ → QcTask → Selection → Selection
select_task project t s = record {
  selected = s.selected ++ t ∷ [];
  active_items = t.review_item_id ∷ s.active_items;
  active_counts = λ p. if p == project then s.active_counts p + 1 else s.active_counts p;
}

-- What the pass over the projects leaves: their groups, the selection, and whether it advanced.
pub record Pass : Type 0 where
  pub groups : List Group
  pub selection : Selection
  pub advanced : Bool

abbrev keep_group : Group → Pass → Pass
keep_group g r = record r { groups = g ∷ r.groups }

-- The turn of one project: its group and the selection after it.
pub record Turn : Type 0 where
  pub group : Group
  pub selection : Selection
  pub advanced : Bool

-- The rows of the project without the active ones at their head.
abbrev pub take_turn : ℕ → List QcTask → Selection → Bool → Turn
take_turn project [] s advanced = record {
  group = record { project = project; rows = [] };
  selection = s;
  advanced = advanced;
}
take_turn project (t ∷ ts) s advanced = record {
  group = record { project = project; rows = ts };
  selection = select_task project t s;
  advanced = true;
}

abbrev pub turn_of : ℕ → Group → Selection → Bool → Turn
turn_of per_project g s advanced =
    if leb per_project (s.active_counts g.project)
    then record { group = g; selection = s; advanced = advanced }
    else take_turn g.project (drop_active s.active_items g.rows) s advanced

-- One `for project_ref_id in project_order`.
unfoldable pub select_pass : ℕ → ℕ → List Group → Selection → Bool → Pass
select_pass room per_project [] s advanced = record {
  groups = [];
  selection = s;
  advanced = advanced;
}
select_pass room per_project (g ∷ gs) s advanced =
    let turn = turn_of per_project g s advanced in
    let rest = select_pass room per_project gs turn.selection turn.advanced in
    if leb room (length s.selected)
    then record { groups = g ∷ gs; selection = s; advanced = advanced }
    else keep_group turn.group rest

-- The `while` over the rounds, each of which selects a task or is the last.
unfoldable pub select_rounds : ℕ → ℕ → ℕ → List Group → Selection → Selection
select_rounds zero room per_project groups s = s
select_rounds (suc fuel) room per_project groups s =
    let pass = select_pass room per_project groups s false in
    let rest = select_rounds fuel room per_project pass.groups pass.selection in
    if leb room (length s.selected) then s else if pass.advanced then rest else pass.selection

-- The selection of at most `room` tasks; each round but the last selects one at least.
unfoldable pub select_tasks : QcTables → ℕ → ℕ → (ℕ → ℕ) → List ℕ → List QcTask → Selection
select_tasks s room per_project active_counts active_items candidates =
    select_rounds (room + 1) room per_project
      (ordered_groups s active_counts active_items candidates)
      (record { selected = []; active_items = active_items; active_counts = active_counts })
