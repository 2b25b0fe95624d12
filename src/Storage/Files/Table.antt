-- ===== src/Storage/Files/Table.antt =====
-- src/fs/storage/storage.c: the calls that only move sectors leave every entry and every lookup as
-- they were.
use project_orange_tea.Base.{
  ℕ, zero, suc, ◌≡◌, refl, sym, ap, ◌∙◌, Bool, List, [], ◌∷◌, map, get_or, first_where,
  Option-cases, inl, inr,
}
use project_orange_tea.Storage.State.{Entry, blank_entry, Storage, entry_at}
use project_orange_tea.Storage.Path.{normalize}
use project_orange_tea.Storage.Bytes.{equal}
use project_orange_tea.Storage.Files.{has_path, find}
use project_orange_tea.Storage.Files.View.{forget, view}

get_or-map-forget :
    (xs : List Entry) (i : ℕ)
    → get_or (map forget xs) i (forget blank_entry) ≡ forget (get_or xs i blank_entry)
get_or-map-forget [] i = refl
get_or-map-forget (x ∷ xs) zero = refl
get_or-map-forget (x ∷ xs) (suc i) = get_or-map-forget xs i

-- Two searches whose tests agree give the same.
pub first_where-cong :
    (p q : ℕ → Bool) (rounds i : ℕ)
    → ((k : ℕ) → p k ≡ q k)
    → first_where p rounds i ≡ first_where q rounds i
unfolding first_where
first_where-cong p q zero i h = refl
first_where-cong p q (suc k) i h = rw (h i, first_where-cong p q k (suc i) h)

-- A lookup depends on nothing but the paths and their number.
pub find_cong :
    {Disk : Type 0} (s t : Storage Disk)
    → ((i : ℕ) → (entry_at s i).path ≡ (entry_at t i).path)
    → s.entry_count ≡ t.entry_count
    → (path : List ℕ) → find s path ≡ find t path
unfolding find
find_cong s t paths count path = elim (Option-cases (normalize path)) [
  | inl e ↦ rw (e, find)
  | inr (normalized, e) ↦
      rw (e, count, find)
        (first_where-cong (has_path s normalized) (has_path t normalized) t.entry_count 0
          (λ k. ap (λ p. equal p normalized) (paths k)))
]

module _ {Disk : Type 0} (s t : Storage Disk) (same : view s ≡ view t) where
  pub forget-entry_at : (i : ℕ) → forget (entry_at s i) ≡ forget (entry_at t i)
  forget-entry_at i =
      sym (get_or-map-forget s.entries i)
      ∙ ap (λ v. get_or v.entries i (forget blank_entry)) same
      ∙ get_or-map-forget t.entries i

  pub path-entry_at : (i : ℕ) → (entry_at s i).path ≡ (entry_at t i).path
  path-entry_at i = ap (λ e. e.path) (forget-entry_at i)

  pub type-entry_at : (i : ℕ) → (entry_at s i).type ≡ (entry_at t i).type
  type-entry_at i = ap (λ e. e.type) (forget-entry_at i)

  pub size-entry_at : (i : ℕ) → (entry_at s i).size ≡ (entry_at t i).size
  size-entry_at i = ap (λ e. e.size) (forget-entry_at i)

  pub content-entry_at : (i : ℕ) → (entry_at s i).content ≡ (entry_at t i).content
  content-entry_at i = ap (λ e. e.content) (forget-entry_at i)

  pub entry_count-view : s.entry_count ≡ t.entry_count
  entry_count-view = ap (λ v. v.entry_count) same

  pub mounted-view : s.mounted ≡ t.mounted
  mounted-view = ap (λ v. v.mounted) same

  pub find-view : (path : List ℕ) → find s path ≡ find t path
  find-view path = find_cong s t path-entry_at entry_count-view path
