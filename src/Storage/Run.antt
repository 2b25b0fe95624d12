-- ===== src/Storage/Run.antt =====
-- How the functions of src/fs/storage/storage.c run: each takes the statics and either returns or
-- fails with an error code, and leaves the statics changed in both cases.
use project_orange_tea.Base.{Bool, true, false, ◌≡◌, ap, arith, if◌then◌else◌}
use project_orange_tea.Storage.State.{Status, Storage}

pub data Run (Disk A : Type 0) : Type 0 where
  done : A → Storage Disk → Run Disk A
  fail : Status → Storage Disk → Run Disk A

abbrev pub Cmd : Type 0 → Type 0 → Type 0
Cmd Disk A = Storage Disk → Run Disk A

abbrev pub Void : Type 0
Void = Unit {0}

module _ {Disk A : Type 0} where
  abbrev pub state_of : Run Disk A → Storage Disk
  state_of (done a s) = s
  state_of (fail e s) = s

  -- the result is STORAGE_OK, or a count
  abbrev pub succeeds : Run Disk A → Bool
  succeeds (done a s) = true
  succeeds (fail e s) = false

  abbrev pub pure : A → Cmd Disk A
  pure = done

  abbrev pub raise : Status → Cmd Disk A
  raise = fail

  -- `if (r != STORAGE_OK) return e;`
  abbrev pub recast : Status → Run Disk A → Run Disk A
  recast e (done a s) = done a s
  recast e (fail _ s) = fail e s

  abbrev pub failing_as : Status → Cmd Disk A → Cmd Disk A
  failing_as e m = λ s. recast e (m s)

abbrev pub current : {Disk : Type 0} → Cmd Disk (Storage Disk)
current s = done s s

abbrev pub modify : {Disk : Type 0} → (Storage Disk → Storage Disk) → Cmd Disk Void
modify f s = done tt (f s)

-- `if (bad) return e;`
abbrev pub reject_if : {Disk : Type 0} → Bool → Status → Cmd Disk Void
reject_if bad e s = if bad then fail e s else done tt s

module _ {Disk A B : Type 0} where
  abbrev pub and_then : Run Disk A → (A → Cmd Disk B) → Run Disk B
  and_then (done a s) k = k a s
  and_then (fail e s) k = fail e s

  infixl 5 ◌>>=◌ ◌>>◌
  abbrev pub ◌>>=◌ : Cmd Disk A → (A → Cmd Disk B) → Cmd Disk B
  m >>= k = λ s. and_then (m s) k

  abbrev pub ◌>>◌ : Cmd Disk A → Cmd Disk B → Cmd Disk B
  m >> k = m >>= λ _. k

-- Stepping through a call: its first part returned, or failed.
module _ {Disk A B : Type 0} (k : A → Cmd Disk B) where
  pub and_then-done :
      {r : Run Disk A} {a : A} {s : Storage Disk} → r ≡ done a s → and_then r k ≡ k a s
  and_then-done e = ap (λ r. and_then r k) e

  pub and_then-fail :
      {r : Run Disk A} {e : Status} {s : Storage Disk} → r ≡ fail e s → and_then r k ≡ fail e s
  and_then-fail e = ap (λ r. and_then r k) e

module _ {Disk : Type 0} (s : Storage Disk) (e : Status) (b : Bool) where
  pub passes : b ≡ false → reject_if b e s ≡ done tt s
  passes h = ground arith

  pub rejects : b ≡ true → reject_if b e s ≡ fail e s
  rejects h = ground arith
