-- ===== src/Kernel/Ora/Loads.antt =====
-- src/kernel/exec/ora.c: with a loader whose functions succeed, the loop over the payload ends and
-- succeeds.
use project_orange_tea.Base.{
  ℕ, zero, suc, ◌+◌, ◌-◌, ◌<◌, ◌≡◌, ap, ◌∙◌, Bool, true, false, Option, none, some, List, leb,
  if◌then◌else◌, if-true, if-false, arith, Bool-cases, inl, inr,
}
use project_orange_tea.Kernel.Ora.{Loader, chunk_size, address_of, load_chunk, load_payload}

-- Every read gives the bytes that were asked for, and every load succeeds.
pub record Works {Context : Type 0} (loader : Loader Context) : Type 0 where
  pub reads :
      (c : Context) (offset n : ℕ)
      → (bytes : List ℕ) × (left : Context) × (loader.read c offset n ≡ (some bytes, left))
  pub loads :
      (c : Context) (address : ℕ) (bytes : List ℕ) (n : ℕ)
      → (left : Context) × (loader.load c address bytes n ≡ (true, left))

module _ {Context : Type 0} (loader : Loader Context) (works : Works loader) where
  abbrev with_bytes : ℕ → ℕ → Option (List ℕ) × Context → Bool × Context
  with_bytes offset chunk (result, c) = elim result [
    | none ↦ (false, c)
    | some bytes ↦ loader.load c (address_of loader offset) bytes chunk
  ]

  -- the loop's step, once the chunk was loaded or not
  abbrev with_chunk : ℕ → ℕ → ℕ → Bool × Context → Bool × Context
  with_chunk rounds end offset (loaded, c) =
      if loaded
      then load_payload loader rounds end (offset + chunk_size end offset) c
      else (false, c)

  chunk-Works :
      (offset chunk : ℕ) (c : Context)
      → (left : Context) × (load_chunk loader offset chunk c ≡ (true, left))
  unfolding load_chunk
  chunk-Works offset chunk c =
      let (bytes, middle, read) = works.reads c offset chunk in
      let (left, loaded) = works.loads middle (address_of loader offset) bytes chunk in
      (left, ap (with_bytes offset chunk) read ∙ loaded)

  -- With a loader whose reads and loads succeed, the loop over the payload, given more rounds than
  -- bytes are left, ends and succeeds.
  pub load_payload-Works :
      (rounds end offset : ℕ) (c : Context)
      → end - offset < rounds
      → (left : Context) × (load_payload loader rounds end offset c ≡ (true, left))
  unfolding load_payload
  load_payload-Works zero end offset c h = absurd (omega arith)
  load_payload-Works (suc rounds) end offset c h = elim (Bool-cases (leb end offset)) [
    | inl past ↦ (c, if-true _ _ past)
    | inr before ↦
        let chunk = chunk_size end offset in
        let (middle, loaded) = chunk-Works offset chunk c in
        let more : offset < end = ground arith in
        let (left, rest) = load_payload-Works rounds end (offset + chunk) middle (omega arith) in
        (left, if-false _ _ before ∙ ap (with_chunk rounds end offset) loaded ∙ rest)
  ]
