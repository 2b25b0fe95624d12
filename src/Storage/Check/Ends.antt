-- ===== src/Storage/Check/Ends.antt =====
-- What holds at the end of a call of src/fs/storage/storage.c that does not fail, step by step.
use project_orange_tea.Base.{◌≡◌}
use project_orange_tea.Storage.State.{Status, Storage}
use project_orange_tea.Storage.Run.{Run, done, fail, Cmd, state_of, recast, and_then}
use project_orange_tea.Storage.Check.Fixed.{whole}

-- what holds at the end of a call that does not fail
abbrev pub Ends : {Disk A : Type 0} → Run Disk A → (A → Storage Disk → Type 0) → Type 0
Ends (done a s) P = P a s
Ends (fail _ s) P = Unit {0}

module _ {Disk A : Type 0} where
  pub Ends-bind :
      {B : Type 0} (r : Run Disk A) (k : A → Cmd Disk B) (P : A → Storage Disk → Type 0)
      (Q : B → Storage Disk → Type 0)
      → Ends r P
      → ((a : A) (s : Storage Disk) → P a s → Ends (k a s) Q)
      → Ends (and_then r k) Q
  Ends-bind (done a s) k P Q h g = g a s h
  Ends-bind (fail _ s) k P Q h g = tt

  pub Ends-recast :
      (e : Status) (r : Run Disk A) (P : A → Storage Disk → Type 0) → Ends r P → Ends (recast e r) P
  Ends-recast e (done a s) P h = h
  Ends-recast e (fail _ s) P h = tt

  pub Ends-mono :
      (r : Run Disk A) (P Q : A → Storage Disk → Type 0)
      → ((a : A) (s : Storage Disk) → P a s → Q a s)
      → Ends r P
      → Ends r Q
  Ends-mono (done a s) P Q g h = g a s h
  Ends-mono (fail _ s) P Q g h = tt

  pub Ends-both :
      (r : Run Disk A) (P Q : A → Storage Disk → Type 0)
      → Ends r P
      → Ends r Q
      → Ends r (λ a s. P a s × Q a s)
  Ends-both (done a s) P Q h g = (h, g)
  Ends-both (fail _ s) P Q h g = tt

  pub Ends-always :
      (r : Run Disk A) (P : A → Storage Disk → Type 0)
      → ((a : A) (s : Storage Disk) → P a s)
      → Ends r P
  Ends-always (done a s) P h = h a s
  Ends-always (fail _ s) P h = tt

  pub Ends-whole :
      (r : Run Disk A) (s : Storage Disk)
      → whole (state_of r) ≡ whole s
      → Ends r (λ _ s'. whole s' ≡ whole s)
  Ends-whole (done a s') s h = h
  Ends-whole (fail _ s') s h = tt
