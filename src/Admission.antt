-- ===== src/Admission.antt =====
-- The in-process admission of upload parts: `UploadPartAdmissionLimiter` and its two lease classes
-- in upload_parts.py. Texts are numbers, 0 being the empty one. The limiter's lock makes each
-- method atomic, so every interleaving of threads is a list of operations.
pub mod Counts
pub mod Releases
pub mod Bounds
mod Examples
use video_review.Base.{
  ℕ, zero, suc, ◌+◌, ◌-◌, Bool, true, false, not, ◌&&◌, ◌||◌, Option, none, some, List, [], ◌∷◌,
  ◌++◌, ltb, leb, ◌==◌, if◌then◌else◌, get_elem?, set, min, Result, ok, err, value_error, key_error,
  ◌>>=◌,
}

-- A `dict` from texts to numbers.
abbrev pub Counter : Type 0
Counter = ℕ → Option ℕ

-- `d.get(key, 0)`
abbrev pub get_zero : Option ℕ → ℕ
get_zero none = 0
get_zero (some n) = n

-- `d[key] = n`
abbrev pub put : ℕ → ℕ → Counter → Counter
put key n d = λ k. if key == k then some n else d k

-- `del d[key]`
abbrev remove : ℕ → Counter → Counter
remove key d = λ k. if key == k then none else d k

pub record Limiter : Type 0 where
  pub active_total : ℕ
  pub active_by_principal : Counter
  pub active_by_upload : Counter
  pub exclusive_uploads : ℕ → Bool

pub record PartLease : Type 0 where
  pub principal_key : ℕ
  pub upload_id : ℕ
  pub released : Bool

pub record ExclusiveLease : Type 0 where
  pub upload_id : ℕ
  pub released : Bool

pub record Limits : Type 0 where
  pub max_per_principal : ℕ
  pub max_per_upload : ℕ
  pub max_total : ℕ

abbrev new_limiter : Limiter
new_limiter = record {
  active_total = 0;
  active_by_principal = λ k. none;
  active_by_upload = λ k. none;
  exclusive_uploads = λ k. false;
}

-- The test under the lock of `try_acquire`.
pub refuses : Limiter → ℕ → ℕ → Limits → Bool
refuses s principal_key upload_id m =
    s.exclusive_uploads upload_id
    || leb m.max_total s.active_total
    || leb m.max_per_principal (get_zero (s.active_by_principal principal_key))
    || leb m.max_per_upload (get_zero (s.active_by_upload upload_id))

-- The three writes of `try_acquire`.
abbrev pub grant : Limiter → ℕ → ℕ → Limiter
grant s principal_key upload_id = record s {
  active_total = s.active_total + 1;
  active_by_principal =
      put principal_key (get_zero (s.active_by_principal principal_key) + 1) s.active_by_principal;
  active_by_upload = put upload_id (get_zero (s.active_by_upload upload_id) + 1) s.active_by_upload;
}

pub try_acquire : Limiter → ℕ → ℕ → Limits → Result (Limiter × Option PartLease)
unfolding refuses
try_acquire s principal_key upload_id m =
    if principal_key == 0 || ltb (min m.max_per_principal (min m.max_per_upload m.max_total)) 1
    then err value_error
    else if refuses s principal_key upload_id m
    then ok (s, none)
    else ok (
      grant s principal_key upload_id,
      some (record { principal_key = principal_key; upload_id = upload_id; released = false }),
    )

pub try_acquire_exclusive : Limiter → ℕ → Result (Limiter × Option ExclusiveLease)
try_acquire_exclusive s upload_id =
    if upload_id == 0
    then err value_error
    else if s.exclusive_uploads upload_id || ltb 0 (get_zero (s.active_by_upload upload_id))
    then ok (s, none)
    else ok (
      record s { exclusive_uploads = λ u. if upload_id == u then true else s.exclusive_uploads u },
      some (record { upload_id = upload_id; released = false }),
    )

-- One count of `_release`: the entry goes when it was 1.
abbrev pub decrement : ℕ → ℕ → Counter → Counter
decrement key n d = if n == 1 then remove key d else put key (n - 1) d

-- A missing key is Python's `KeyError`, raised before anything is written.
pub release_part : Limiter → ℕ → ℕ → Result Limiter
release_part s principal_key upload_id = elim (s.active_by_principal principal_key) [
  | none ↦ err key_error
  | some principal_count ↦ elim (s.active_by_upload upload_id) [
    | none ↦ err key_error
    | some upload_count ↦ ok (record s {
      active_total = s.active_total - 1;
      active_by_principal = decrement principal_key principal_count s.active_by_principal;
      active_by_upload = decrement upload_id upload_count s.active_by_upload;
    })
  ]
]

pub release_exclusive : Limiter → ℕ → Result Limiter
release_exclusive s upload_id =
    if s.exclusive_uploads upload_id
    then ok (record s {
      exclusive_uploads = λ u. if upload_id == u then false else s.exclusive_uploads u;
    })
    else err key_error

-- The limiter with every lease object that it has handed out.
pub record World : Type 0 where
  pub limiter : Limiter
  pub parts : List PartLease
  pub exclusives : List ExclusiveLease

abbrev pub new_world : World
new_world = record { limiter = new_limiter; parts = []; exclusives = [] }

pub data Operation : Type 0 where
  acquire : ℕ → ℕ → Limits → Operation
  acquire_exclusive : ℕ → Operation
  -- `release()` on the lease object with this number
  release : ℕ → Operation
  release_exclusively : ℕ → Operation

pub add_part : World → Limiter × Option PartLease → World
add_part w (s, none) = record w { limiter = s }
add_part w (s, some lease) = record w { limiter = s; parts = w.parts ++ lease ∷ [] }

pub add_exclusive : World → Limiter × Option ExclusiveLease → World
add_exclusive w (s, none) = record w { limiter = s }
add_exclusive w (s, some lease) = record w { limiter = s; exclusives = w.exclusives ++ lease ∷ [] }

-- `UploadPartAdmissionLease.release`: a second call does nothing. The lease is marked before the
-- limiter is called; where that raises `KeyError`, the model has the error alone.
pub release_part_lease : World → ℕ → Option PartLease → Result World
unfolding release_part
release_part_lease w i none = ok w
release_part_lease w i (some lease) = if lease.released then ok w else do
  s ← release_part w.limiter lease.principal_key lease.upload_id
  ok (record w { limiter = s; parts = set w.parts i (record lease { released = true }) })

pub release_exclusive_lease : World → ℕ → Option ExclusiveLease → Result World
unfolding release_exclusive
release_exclusive_lease w i none = ok w
release_exclusive_lease w i (some lease) = if lease.released then ok w else do
  s ← release_exclusive w.limiter lease.upload_id
  ok (record w { limiter = s; exclusives = set w.exclusives i (record lease { released = true }) })

pub step : World → Operation → Result World
unfolding try_acquire try_acquire_exclusive release_part_lease release_exclusive_lease add_part
    add_exclusive
step w (acquire p u m) = do r ← try_acquire w.limiter p u m; ok (add_part w r)
step w (acquire_exclusive u) = do r ← try_acquire_exclusive w.limiter u; ok (add_exclusive w r)
step w (release i) = release_part_lease w i (get_elem? w.parts i)
step w (release_exclusively i) = release_exclusive_lease w i (get_elem? w.exclusives i)

-- An operation that raises leaves the limiter as it was.
abbrev pub settle : World → Result World → World
settle w (ok w') = w'
settle w (err c) = w

pub run : World → List Operation → World
run w [] = w
run w (op ∷ ops) = run (settle w (step w op)) ops
