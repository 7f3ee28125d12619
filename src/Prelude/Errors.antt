-- ===== src/Prelude/Errors.antt =====
-- Go errors as values. An error is a sentinel, a text, or wraps errors (`%w`, `errors.Join`); the
-- values that a format prints are left out. A function that returns `(T, error)` with no value
-- beside an error is a `Result T`.
use Prim.Native.Nat.{ℕ, zero, suc}
use Prim.Native.String.{String}
use mathlib.Core.Path.{◌≡◌, refl}
use mathlib.Core.Option.{some}
use mathlib.Core.List.{List, [], ◌∷◌}
use mathlib.Core.Bool.{Bool, true, false, not, ◌||◌}
use native.Mathlib.Omega.{arith}
use fabricrunner.Prelude.Equality.{holds}
use fabricrunner.Prelude.Lists.{get_elem?, All}

pub data Sentinel : Type 0 where
  invalid_id invalid_transition version_conflict aggregate_not_found : Sentinel
  invalid_projection_event policy_evaluation no_eligible_candidates routing_evaluation : Sentinel
  model_stream_protocol provider_catalog loop_budget_exceeded uncertain_outcome : Sentinel
  execution_denied approval_denied context_canceled deadline_exceeded : Sentinel
  loop_stream loop_tool_input loop_tool_output loop_panic loop_cleanup : Sentinel

unfoldable pub Sentinel-discrete : Discrete Sentinel
Sentinel-discrete = hlevel

pub data Error : Type 0 where
  sentinel : Sentinel → Error
  message : String → Error
  prefixed : String → Error → Error
  wrap : Error → Error → Error

-- `errors.Is` at a sentinel.
unfoldable pub errors_is : Error → Sentinel → Bool
errors_is (sentinel s) t = holds (Sentinel-discrete s t)
errors_is (message m) t = false
errors_is (prefixed p e) t = errors_is e t
errors_is (wrap e f) t = errors_is e t || errors_is f t

pub data Result {ℓ} (A : Type ℓ) : Type ℓ where
  ok : A → Result A
  err : Error → Result A

-- A function that returns an `error` alone; `ok tt` is nil.
abbrev pub Check : Type 0
Check = Result (Unit {0})

infixl 5 ◌>>=◌ ◌>>◌
abbrev pub ◌>>=◌ {ℓ κ} : {A : Type ℓ} {B : Type κ} → Result A → (A → Result B) → Result B
ok value >>= next = next value
err failure >>= next = err failure

abbrev pub ◌>>◌ {ℓ} : {B : Type ℓ} → Check → Result B → Result B
first >> second = first >>= λ done. second

-- `if b { return err }`
abbrev pub fail_if : Bool → Error → Check
fail_if true e = err e
fail_if false e = ok tt

-- `if err != nil { return fmt.Errorf("p: %w", err) }`
abbrev pub prefix_error {ℓ} : {A : Type ℓ} → String → Result A → Result A
prefix_error p (ok a) = ok a
prefix_error p (err e) = err (prefixed p e)

-- `fmt.Errorf("%w: %w", s, err)`
abbrev pub wrap_error {ℓ} : {A : Type ℓ} → Error → Result A → Result A
wrap_error s (ok a) = ok a
wrap_error s (err e) = err (wrap s e)

-- What a check that passed says of its parts.
pub fail_if-ok : (b : Bool) (e : Error) → fail_if b e ≡ ok tt → b ≡ false
fail_if-ok b e h = ground arith

pub unless-ok : (b : Bool) (e : Error) → fail_if (not b) e ≡ ok tt → b ≡ true
unless-ok true e h = refl
unless-ok false e h = cc

pub prefix_error-ok {ℓ} :
    {A : Type ℓ} (p : String) (r : Result A) {a : A} → prefix_error p r ≡ ok a → r ≡ ok a
prefix_error-ok p r h = ground arith

pub wrap_error-ok {ℓ} :
    {A : Type ℓ} (s : Error) (r : Result A) {a : A} → wrap_error s r ≡ ok a → r ≡ ok a
wrap_error-ok s r h = ground arith

pub ok_injective {ℓ} : {A : Type ℓ} {a b : A} → ok a ≡ ok b → a ≡ b
ok_injective h = cc

pub >>=-eq-ok {ℓ κ} :
    {A : Type ℓ} {B : Type κ} (first : Result A) (next : A → Result B) {result : B}
    → (first >>= next) ≡ ok result
    → (value : A) × (first ≡ ok value) × (next value ≡ ok result)
>>=-eq-ok (ok value) next passes = (value, refl, passes)
>>=-eq-ok (err failure) next passes = cc

pub >>-eq-ok {ℓ} :
    {B : Type ℓ} (m : Check) (k : Result B) {b : B} → (m >> k) ≡ ok b → (m ≡ ok tt) × (k ≡ ok b)
>>-eq-ok (ok tt) k h = (refl, h)
>>-eq-ok (err e) k h = cc

-- A row of checks: `if err := check; err != nil { return err }`, one after another.
unfoldable pub all_checks : List Check → Check
all_checks [] = ok tt
all_checks (c ∷ cs) = c >> all_checks cs

-- A row passes exactly where each check of it passes.
pub passed :
    (cs : List Check) (i : ℕ) {c : Check}
    → all_checks cs ≡ ok tt
    → get_elem? cs i ≡ some c
    → c ≡ ok tt
unfolding all_checks
passed [] i h e = cc
passed (c ∷ cs) zero h e = cc (e, (>>-eq-ok c (all_checks cs) h).0)
passed (c ∷ cs) (suc i) h e = passed cs i (>>-eq-ok c (all_checks cs) h).1 e

pub all_checks-pass : (cs : List Check) → All (λ c. c ≡ ok tt) cs → all_checks cs ≡ ok tt
unfolding all_checks
all_checks-pass [] h = refl
all_checks-pass (c ∷ cs) h = rw h.0 (all_checks-pass cs h.1)

pub prefix_error-pass {ℓ} :
    {A : Type ℓ} (p : String) (r : Result A) {a : A} → r ≡ ok a → prefix_error p r ≡ ok a
prefix_error-pass p r h = ground arith

pub fail_if-pass : (b : Bool) (e : Error) → b ≡ false → fail_if b e ≡ ok tt
fail_if-pass b e h = ground arith
