-- ===== src/TechnicalQc/Workers/Rights.antt =====
-- What `_lock_active_technical_qc_claim` of technical_qc.py asks of the rows, told without its tests.
use video_review.Base.{
  ℕ, ◌<◌, ◌≡◌, refl, Bool, true, ◌&&◌, Option, none, some, opt_eq, is_none, arith, eq_of_test,
}
use video_review.Review.Store.{Project, Item, Version, Lifecycle, active, archived}
use video_review.TechnicalQc.Tasks.{
  QcStatus, queued, running, complete, failed, QcTask, QcTables, PlaybackTask, is_running,
  is_active, project_is_active, item_is_current, version_is_current, playback_is_ready, ends_after,
  holds_claim,
}

-- The project is there and open.
pub record IsOpenProject (p : Project) : Type 0 where
  pub there : p.deleted_at ≡ none
  pub open_now : p.lifecycle_status ≡ active

pub record IsCurrentItem (s : QcTables) (t : QcTask) (i : Item) : Type 0 where
  pub of_project : i.project_ref_id ≡ t.project_ref_id
  pub of_version : i.current_version_id ≡ some t.version_id
  pub current : s.current_version_is_current t.review_item_id ≡ true

pub record IsCurrentVersion (t : QcTask) (v : Version) : Type 0 where
  pub of_project : v.project_ref_id ≡ t.project_ref_id
  pub of_item : v.review_item_id ≡ t.review_item_id
  pub current : v.is_current ≡ true
  pub of_file : v.playback_asset_id ≡ some t.input_file_id

pub record IsReadyPlayback (t : QcTask) (d : PlaybackTask) : Type 0 where
  pub of_project : d.project_ref_id ≡ t.project_ref_id
  pub of_item : d.review_item_id ≡ t.review_item_id
  pub ready : d.is_ready ≡ true
  pub of_file : d.output_file_id ≡ some t.input_file_id

-- What a worker must still hold.
pub record Authorized (s : QcTables) (claim now : ℕ) (t : QcTask) : Type 0 where
  pub runs : t.status ≡ running
  pub claimed : t.claim_id ≡ some claim
  pub leased : (expires : ℕ) × (t.lease_expires_at ≡ some expires) × (now < expires)
  pub project : (p : Project) × (s.projects t.project_ref_id ≡ some p) × IsOpenProject p
  pub item : (i : Item) × (s.items t.review_item_id ≡ some i) × IsCurrentItem s t i
  pub version : (v : Version) × (s.versions t.version_id ≡ some v) × IsCurrentVersion t v
  pub playback : (d : PlaybackTask) × (s.playback_tasks t.version_id ≡ some d) × IsReadyPlayback t d

running_of_test : (q : QcStatus) → is_running q ≡ true → q ≡ running
running_of_test running h = refl
running_of_test queued h = cc
running_of_test complete h = cc
running_of_test failed h = cc

active_of_test : (l : Lifecycle) → is_active l ≡ true → l ≡ active
active_of_test active h = refl
active_of_test archived h = cc

none_of_test : (o : Option ℕ) → is_none o ≡ true → o ≡ none
none_of_test none h = refl
none_of_test (some a) h = cc

some_of_test : (o : Option ℕ) (n : ℕ) → opt_eq o (some n) ≡ true → o ≡ some n
some_of_test none n h = cc
some_of_test (some a) n h = rw (eq_of_test a n h) refl

and_left : (a b : Bool) → (a && b) ≡ true → a ≡ true
and_left a b h = ground arith

and_right : (a b : Bool) → (a && b) ≡ true → b ≡ true
and_right a b h = ground arith

leased_of_test :
    (o : Option ℕ) (now : ℕ)
    → ends_after o now ≡ true
    → (expires : ℕ) × (o ≡ some expires) × (now < expires)
leased_of_test none now h = cc
leased_of_test (some expires) now h = (expires, refl, ground arith)

project_of_test :
    (o : Option Project)
    → project_is_active o ≡ true
    → (p : Project) × (o ≡ some p) × IsOpenProject p
project_of_test none h = cc
project_of_test (some p) h = (
  p,
  refl,
  record {
    there = none_of_test p.deleted_at (ground arith);
    open_now = active_of_test p.lifecycle_status (ground arith);
  },
)

item_of_test :
    (s : QcTables) (t : QcTask) (o : Option Item)
    → item_is_current s t o ≡ true
    → (i : Item) × (o ≡ some i) × IsCurrentItem s t i
item_of_test s t none h = cc
item_of_test s t (some i) h = (
  i,
  refl,
  record {
    of_project = eq_of_test i.project_ref_id t.project_ref_id (ground arith);
    of_version = some_of_test i.current_version_id t.version_id (ground arith);
    current = ground arith;
  },
)

version_of_test :
    (t : QcTask) (o : Option Version)
    → version_is_current t o ≡ true
    → (v : Version) × (o ≡ some v) × IsCurrentVersion t v
version_of_test t none h = cc
version_of_test t (some v) h = (
  v,
  refl,
  record {
    of_project = eq_of_test v.project_ref_id t.project_ref_id (ground arith);
    of_item = eq_of_test v.review_item_id t.review_item_id (ground arith);
    current = ground arith;
    of_file = some_of_test v.playback_asset_id t.input_file_id (ground arith);
  },
)

playback_of_test :
    (t : QcTask) (o : Option PlaybackTask)
    → playback_is_ready t o ≡ true
    → (d : PlaybackTask) × (o ≡ some d) × IsReadyPlayback t d
playback_of_test t none h = cc
playback_of_test t (some d) h = (
  d,
  refl,
  record {
    of_project = eq_of_test d.project_ref_id t.project_ref_id (ground arith);
    of_item = eq_of_test d.review_item_id t.review_item_id (ground arith);
    ready = ground arith;
    of_file = some_of_test d.output_file_id t.input_file_id (ground arith);
  },
)

pub holds_claim-Authorized :
    (s : QcTables) (claim now : ℕ) (t : QcTask)
    → holds_claim s claim now t ≡ true
    → Authorized s claim now t
holds_claim-Authorized s claim now t h = record {
  runs = running_of_test t.status (ground arith);
  claimed = some_of_test t.claim_id claim (ground arith);
  leased = leased_of_test t.lease_expires_at now (ground arith);
  project = project_of_test (s.projects t.project_ref_id) (ground arith);
  item = item_of_test s t (s.items t.review_item_id) (ground arith);
  version = version_of_test t (s.versions t.version_id) (ground arith);
  playback = playback_of_test t (s.playback_tasks t.version_id) (ground arith);
}
