-- ===== src/Base/Errors.antt =====
-- The `ReviewError` codes of domain/errors.py and the Python exceptions that the modelled code
-- raises, and the results of code that may raise one.
use mathlib.Core.Path.{◌≡◌, refl, subst}
use mathlib.Core.Bool.{Bool, true, false}
use video_review.Base.Tests.{if◌then◌else◌}

pub data Code : Type 0 where
  resource_not_found resource_state_conflict review_item_finalized version_not_current : Code
  optimistic_lock_conflict validation_error playback_not_ready version_file_not_ready : Code
  principal_permission_denied principal_authentication_required entry_capability_denied : Code
  write_guard_required write_guard_invalid port_operation_not_supported : Code
  idempotency_conflict responsible_editor_required responsible_editor_not_found : Code
  package_expired package_not_ready package_source_missing file_hash_mismatch : Code
  storage_unavailable project_frame_rate_required project_frame_rate_locked : Code
  media_frame_rate_not_allowed media_frame_rate_mismatch file_too_large : Code
  value_error key_error : Code

pub data Result {ℓ} (A : Type ℓ) : Type ℓ where
  err : Code → Result A
  ok : A → Result A

-- `if test: raise code`
abbrev pub raise_if : Bool → Code → Result (Unit {0})
raise_if false code = ok tt
raise_if true code = err code

-- The code that follows, unless an exception has been raised.
module _ {ℓ κ} {A : Type ℓ} {B : Type κ} where
  infixl 5 ◌>>=◌
  abbrev pub ◌>>=◌ : Result A → (A → Result B) → Result B
  err code >>= rest = err code
  ok value >>= rest = rest value

infixl 5 ◌>>◌
abbrev pub ◌>>◌ {κ} : {B : Type κ} → Result (Unit {0}) → Result B → Result B
first >> rest = first >>= λ done. rest

-- What holds of the value, if there is one.
abbrev pub Ensures {ℓ κ} : {A : Type ℓ} → (A → Type κ) → Result A → Type κ
Ensures P (ok a) = P a
Ensures P (err c) = Unit

module _ {ℓ κ} {A : Type ℓ} (P : A → Type κ) where
  pub Ensures-ok : (r : Result A) {a : A} → Ensures P r → r ≡ ok a → P a
  Ensures-ok (ok b) {a} h e = subst P (cc) h
  Ensures-ok (err c) h e = cc

  pub Ensures-if :
      (b : Bool) (x y : Result A)
      → (b ≡ true → Ensures P x)
      → (b ≡ false → Ensures P y)
      → Ensures P (if b then x else y)
  Ensures-if true x y hx hy = hx refl
  Ensures-if false x y hx hy = hy refl

module _ {ℓ κ ν} {A : Type ℓ} {B : Type κ} (P : B → Type ν) where
  pub Ensures-bind :
      (m : Result A) (f : A → Result B)
      → ((a : A) → m ≡ ok a → Ensures P (f a))
      → Ensures P (m >>= f)
  Ensures-bind (ok a) f h = h a refl
  Ensures-bind (err c) f h = tt

module _ {ℓ κ} {A : Type ℓ} {B : Type κ} (P : A → Type 0) (Q : B → Type 0) where
  pub Ensures-then :
      (m : Result A) (f : A → Result B)
      → Ensures P m
      → ((a : A) → P a → Ensures Q (f a))
      → Ensures Q (m >>= f)
  Ensures-then (ok a) f h k = k a h
  Ensures-then (err c) f h k = tt

-- The code returns a value, and that has the property.
abbrev pub Returns {ℓ} : {A : Type ℓ} → (A → Type 0) → Result A → Type 0
Returns P (ok a) = P a
Returns P (err c) = ⊥

module _ {ℓ κ} {A : Type ℓ} {B : Type κ} (P : A → Type 0) (Q : B → Type 0) where
  pub Returns-bind :
      (m : Result A) (f : A → Result B)
      → Returns P m
      → ((a : A) → P a → Returns Q (f a))
      → Returns Q (m >>= f)
  Returns-bind (ok a) f h k = k a h
  Returns-bind (err c) f h k = absurd h

pub Returns-mono {ℓ} :
    {A : Type ℓ} (P Q : A → Type 0) (m : Result A)
    → ((a : A) → P a → Q a)
    → Returns P m
    → Returns Q m
Returns-mono P Q (ok a) f h = f a h
Returns-mono P Q (err c) f h = absurd h
