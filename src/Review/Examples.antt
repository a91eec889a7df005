-- ===== src/Review/Examples.antt =====
-- Commands on a small store.
mod Stage
use video_review.Base.{
  ℕ, ◌+◌, ◌*◌, ◌≡◌, refl, true, Option, none, some, [], ◌∷◌, ◌==◌, if◌then◌else◌, Result, ok, err,
  Ensures, Returns, arith,
}
use video_review.Review.Store.{
  active, Workflow, pending_review, in_review, changes_requested, finalized, File, Item, Project,
  Store, Env, Probe,
}
use video_review.Review.Guards.{
  get_project, assert_project_active, get_item, expect_lock, get_version, ensure_current_version,
  assert_playback_ready, ensure_not_finalized, sync_item_workflow_for_current_issues, add_event,
  ensure_issue_writable, get_issue, ensure_finalizable,
}
use video_review.Review.Execute.{
  Command, execute, create_review_issue_command, resolve_issue_command, finalize_version_command,
  create_review_item_command,
}
use video_review.Review.Sync.{IsSynced}
use video_review.Review.History.{IsFresh, History, start, next}
use video_review.Review.Finalize.{locked_project_finalization_authority}
use video_review.Review.Workflow.{Moves}
use video_review.Review.Workflow.Commands.{act_of, execute-Moves}
use video_review.Review.Workflow.Frozen.{execute_frozen}
use video_review.Review.Workflow.Locks.{Continues, execute-Continues}
use video_review.Review.Workflow.Agreement.{IsAgreed}
use video_review.Review.Workflow.Agreement.Histories.{History-IsAgreed}
use video_review.Review.Revoke.{revoke_finalization}
use video_review.Review.Workflow.Agreement.Revocable.{IsReopened, revoke_finalization-Returns}
use video_review.Review.Finalize.{finalize_project}
use video_review.Review.Workflow.Complete.{AllDone, finalize_project-AllDone}
use video_review.Review.Workflow.Agreement.Authority.{locked_project_finalization_authority-ok}
use video_review.Review.Sync.Commands.{execute-IsSynced, History-IsSynced}
use video_review.Review.Examples.Stage.{
  row, media, probe_of, request, first_project, first_item, stage,
}

stage-IsSynced : IsSynced stage
stage-IsSynced = record { fits = λ k item h. ground arith }

abbrev stored : Result Store → Store
stored (ok s) = s
stored (err code) = stage

abbrev remark : Command
remark = create_review_issue_command (record {
  project_ref_id = 1;
  review_item_id = 2;
  version_id = 3;
  timestamp_ms = 40;
  frame_number = 1;
  content = 16;
  annotation = some 17;
})

abbrev settled : Command
settled =
    resolve_issue_command
      (record { project_ref_id = 1; review_item_id = 2; version_id = 3; issue_id = 105 })

abbrev approved : Command
approved = finalize_version_command true 1 2 3

abbrev remarked_store : Store
remarked_store = stored (execute (request 1) stage remark (some 1))

abbrev settled_store : Store
settled_store = stored (execute (request 2) remarked_store settled none)

abbrev approved_store : Store
approved_store = stored (execute (request 3) settled_store approved none)

remark_runs : execute (request 1) stage remark (some 1) ≡ ok remarked_store
unfolding execute get_project assert_project_active get_item expect_lock get_version
    ensure_current_version assert_playback_ready ensure_not_finalized
    sync_item_workflow_for_current_issues add_event ensure_issue_writable get_issue
    ensure_finalizable
remark_runs = refl

settled_runs : execute (request 2) remarked_store settled none ≡ ok settled_store
unfolding execute get_project assert_project_active get_item expect_lock get_version
    ensure_current_version assert_playback_ready ensure_not_finalized
    sync_item_workflow_for_current_issues add_event ensure_issue_writable get_issue
    ensure_finalizable
settled_runs = refl

approved_runs : execute (request 3) settled_store approved none ≡ ok approved_store
unfolding execute get_project assert_project_active get_item expect_lock get_version
    ensure_current_version assert_playback_ready ensure_not_finalized
    sync_item_workflow_for_current_issues add_event ensure_issue_writable get_issue
    ensure_finalizable
approved_runs = refl

abbrev status_in : Store → Option Workflow
status_in s = elim (s.items 2) [ none ↦ none | some i ↦ some i.workflow_status ]

-- One remark requests changes, its resolution ends that, and the approval follows.
statuses :
    (status_in remarked_store ≡ some changes_requested)
    × (status_in settled_store ≡ some in_review)
    × (status_in approved_store ≡ some finalized)
unfolding execute get_project assert_project_active get_item expect_lock get_version
    ensure_current_version assert_playback_ready ensure_not_finalized
    sync_item_workflow_for_current_issues add_event ensure_issue_writable get_issue
    ensure_finalizable
statuses = (refl, refl, refl)

stage-IsAgreed : IsAgreed stage
stage-IsAgreed = record {
  versioned = λ k item h. ground arith;
  open_item = λ k item h still. ground arith;
  of_item = λ k item h done. ground arith;
  of_finalization = λ id f h stands. ground arith;
}

first-IsFresh : IsFresh (request 1) stage
first-IsFresh = record {
  version = tt;
  item = refl;
  finalizations = λ k item h open_item. refl;
  distinct = λ j k e. omega (arith, e);
}

second-IsFresh : IsFresh (request 2) remarked_store
unfolding execute get_project assert_project_active get_item expect_lock get_version
    ensure_current_version assert_playback_ready ensure_not_finalized
    sync_item_workflow_for_current_issues add_event ensure_issue_writable get_issue
    ensure_finalizable
second-IsFresh = record {
  version = (omega arith, tt);
  item = refl;
  finalizations = λ k item h open_item. refl;
  distinct = λ j k e. omega (arith, e);
}

third-IsFresh : IsFresh (request 3) settled_store
unfolding execute get_project assert_project_active get_item expect_lock get_version
    ensure_current_version assert_playback_ready ensure_not_finalized
    sync_item_workflow_for_current_issues add_event ensure_issue_writable get_issue
    ensure_finalizable
third-IsFresh = record {
  version = (omega arith, tt);
  item = refl;
  finalizations = λ k item h open_item. refl;
  distinct = λ j k e. omega (arith, e);
}

session : History stage approved_store
session =
    next (request 3) approved none
      (next (request 2) settled none
        (next (request 1) remark (some 1) start first-IsFresh remark_runs) second-IsFresh
        settled_runs)
      third-IsFresh approved_runs

History-IsSynced_example : IsSynced approved_store
History-IsSynced_example = History-IsSynced stage approved_store session stage-IsSynced

History-IsAgreed_example : IsAgreed approved_store
History-IsAgreed_example = History-IsAgreed stage approved_store session stage-IsAgreed

locked_project_finalization_authority-ok_example :
    locked_project_finalization_authority approved_store 1 ≡ ok tt
locked_project_finalization_authority-ok_example =
    locked_project_finalization_authority-ok stage approved_store 1 stage-IsAgreed session

abbrev another : Command
another = create_review_item_command 1 21 none 22 (record {
  original_file_id = 5;
  responsible_editor_id = 6;
  version_note = none;
  change_summary = none;
})

abbrev approved_item : Item
approved_item = elim (approved_store.items 2) [ none ↦ first_item | some i ↦ i ]

-- The approved item stays as it is while another is created.
execute_frozen_example :
    Ensures (λ t. t.items 2 ≡ some approved_item) (execute (request 4) approved_store another none)
unfolding execute get_project assert_project_active get_item expect_lock get_version
    ensure_current_version assert_playback_ready ensure_not_finalized
    sync_item_workflow_for_current_issues add_event ensure_issue_writable get_issue
    ensure_finalizable
execute_frozen_example =
    execute_frozen (request 4) approved_store another none 2 approved_item refl refl refl refl

execute-Continues_example :
    Ensures (Continues 2 first_item) (execute (request 1) stage remark (some 1))
execute-Continues_example =
    execute-Continues (request 1) stage remark (some 1) 2 first_item refl refl

execute-Moves_example :
    Ensures (Moves (request 1) stage (act_of remark)) (execute (request 1) stage remark (some 1))
execute-Moves_example = execute-Moves (request 1) stage remark (some 1)

revoke_finalization-Returns_example :
    Returns
      (IsReopened 2 311)
      (revoke_finalization (request 4) approved_store true 1 2 (some approved_item.lock_version))
unfolding execute get_project assert_project_active get_item expect_lock get_version
    ensure_current_version assert_playback_ready ensure_not_finalized
    sync_item_workflow_for_current_issues add_event ensure_issue_writable get_issue
    ensure_finalizable
revoke_finalization-Returns_example =
    revoke_finalization-Returns (request 4) approved_store 1 2 first_project approved_item
      History-IsAgreed_example refl refl refl refl refl refl refl

finalize_project-AllDone_example :
    Ensures
      (AllDone 1 (2 ∷ []) settled_store)
      (finalize_project (request 3) settled_store true 1 none)
unfolding execute get_project assert_project_active get_item expect_lock get_version
    ensure_current_version assert_playback_ready ensure_not_finalized
    sync_item_workflow_for_current_issues add_event ensure_issue_writable get_issue
    ensure_finalizable
finalize_project-AllDone_example = finalize_project-AllDone (request 3) settled_store true 1 none

-- The item is finalized with its project.
project_finalized :
    status_in (stored (finalize_project (request 3) settled_store true 1 none)) ≡ some finalized
unfolding execute finalize_project locked_project_finalization_authority get_project
    assert_project_active get_item expect_lock get_version ensure_current_version
    assert_playback_ready ensure_not_finalized sync_item_workflow_for_current_issues add_event
    ensure_issue_writable get_issue ensure_finalizable
project_finalized = refl
