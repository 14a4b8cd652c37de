-- ===== src/Prelude/Results.antt =====
-- What a call of the C code can come to.
use mathlib.Core.Path.{◌≡◌, refl}

-- The values of `errno` that the library sets; `unset` where it returns -1 without setting it.
pub data Errno : Type 0 where
  einval eperm enomem enospc eexist erange eio e2big unset : Errno

-- Undefined behaviour, such as an access out of bounds; -1 or NULL, with `errno`; a normal return.
pub data Result {ℓ} (Value : Type ℓ) : Type ℓ where
  fault : Result Value
  err : Errno → Result Value
  ok : Value → Result Value

abbrev pub map_ok {ℓ κ} :
    {Value : Type ℓ} {Out : Type κ} → (Value → Out) → Result Value → Result Out
map_ok f fault = fault
map_ok f (err why) = err why
map_ok f (ok v) = ok (f v)

-- The next call, made if the one before it returned.
infixl 5 ◌>>=◌
abbrev pub ◌>>=◌ {ℓ κ} :
    {Value : Type ℓ} {Out : Type κ} → Result Value → (Value → Result Out) → Result Out
fault >>= next = fault
err why >>= next = err why
ok v >>= next = next v

-- The value returned by a call that succeeded.
pub bind-eq-ok {ℓ κ} :
    {Value : Type ℓ} {Out : Type κ} (call : Result Value) (next : Value → Result Out) {out : Out}
    → (call >>= next) ≡ ok out
    → (v : Value) × (call ≡ ok v) × (next v ≡ ok out)
bind-eq-ok fault next h = cc
bind-eq-ok (err why) next h = cc
bind-eq-ok (ok v) next h = (v, refl, h)
