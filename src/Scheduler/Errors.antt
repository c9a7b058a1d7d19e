-- ===== src/Scheduler/Errors.antt =====
-- auto_ingest/scheduler.py: what the cron code raises.
use nesy_reasoning_mcp.Prelude.{◌≡◌, refl}

pub data CronError : Type 0 where
  empty_entry : CronError
  step_not_positive : CronError
  out_of_range : CronError
  empty_field : CronError
  not_five_fields : CronError
  -- a text that `int` refuses
  not_a_number : CronError
  unknown_timezone : CronError
  no_run_time : CronError
  -- an IndexError of `values[0]`, and a loop that does not end: no call raises them
  no_first_value : CronError
  unending : CronError

pub data Result {ℓ} (A : Type ℓ) : Type ℓ where
  err : CronError → Result A
  ok : A → Result A

module _ {ℓ κ} {A : Type ℓ} {B : Type κ} where
  infixl 5 ◌>>=◌
  abbrev pub ◌>>=◌ : Result A → (A → Result B) → Result B
  err raised >>= next = err raised
  ok value >>= next = next value

  pub bind_ok :
      (call : Result A) (next : A → Result B) (out : B)
      → (call >>= next) ≡ ok out
      → (value : A) × (call ≡ ok value) × (next value ≡ ok out)
  bind_ok (err raised) next out h = cc
  bind_ok (ok value) next out h = (value, refl, h)

pub ok_inj {ℓ} : {A : Type ℓ} (a b : A) → ok a ≡ ok b → a ≡ b
ok_inj a b h = cc
