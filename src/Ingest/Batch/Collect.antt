-- ===== src/Ingest/Batch/Collect.antt =====
-- What the loop of `_commit_locked` collects from the buffer.
use ai_home_assistant.Prelude.{
  ℕ, ◌+◌, ◌≤◌, String, Option, none, some, Bool, ◌&&◌, List, [], ◌∷◌, ◌++◌, map, ◌≡◌, refl, arith,
  ◌∙◌, sym, if◌then◌else◌, truthy, ◌==◌, Eq, string_eq, nat_eq, pair_eq, count_if, any, leb,
  append_assoc, append-nil, option_eq,
}
use ai_home_assistant.Prelude.Dict.{Dict, alter, put}
use ai_home_assistant.Store.Dao.{added}
use ai_home_assistant.Topology.EntityIndex.{EntityIndex, lookup}
use ai_home_assistant.Ingest.Batch.{
  Buffered, Batch, bucket_for, event_row, ref_area, count_area, add_event, collect,
}

-- The sum of the numbers under a key.
abbrev pub tally {ℓ} : {K : Type ℓ} ⦃e : Eq K⦄ → K → Dict K ℕ → ℕ
tally k [] = 0
tally k ((j, n) ∷ d) = let rest = tally k d in if j == k then n + rest else rest

tally-alter {ℓ} :
    {K : Type ℓ} ⦃e : Eq K⦄ (k j : K) (n : ℕ) (d : Dict K ℕ)
    → tally k (alter j (added n) d) ≡ (if j == k then tally k d + n else tally k d)
unfolding alter
tally-alter k j n [] = ground arith
tally-alter ⦃e⦄ k j n ((i, m) ∷ d) =
    ground (arith, tally-alter k j n d, e.same_iff i j, e.same_iff i k, e.same_iff j k)

-- How many entries have the key.
abbrev pub entries_of {ℓ κ} : {K : Type ℓ} {V : Type κ} ⦃e : Eq K⦄ → K → Dict K V → ℕ
entries_of k = count_if (λ x. x.0 == k)

entries_of-put {ℓ κ} :
    {K : Type ℓ} {V : Type κ} ⦃e : Eq K⦄ (k j : K) (v : V) (d : Dict K V)
    → entries_of k (put j v d)
      ≡ (if j == k then (if leb 1 (entries_of k d) then entries_of k d else 1) else entries_of k d)
unfolding alter
entries_of-put k j v [] = ground arith
entries_of-put ⦃e⦄ k j v ((i, w) ∷ d) =
    ground (arith, entries_of-put k j v d, e.same_iff i j, e.same_iff i k, e.same_iff j k)

-- Does the event count for the area and hour?
abbrev pub counts_for : EntityIndex → String × ℕ → Buffered → Bool
counts_for idx k b =
    truthy (ref_area (lookup b.0.entity_id idx))
    && ref_area (lookup b.0.entity_id idx) == some k.0
    && bucket_for b.0.ts_ms == k.1

abbrev pub is_of : String → Buffered → Bool
is_of k b = b.0.entity_id == k

module _ (idx : EntityIndex) (now : ℕ) where
  pub rows-collect :
      (bs : List Buffered) (batch : Batch)
      → (collect idx now bs batch).rows ≡ batch.rows ++ map (event_row idx now) bs
  unfolding collect
  rows-collect [] batch = sym (append-nil batch.rows)
  rows-collect (b ∷ bs) batch =
      rows-collect bs (add_event idx now b batch)
      ∙ append_assoc batch.rows (event_row idx now b ∷ []) (map (event_row idx now) bs)

  tally-count_area :
      (a : Option String) (ts : ℕ) (k : String × ℕ) (d : Dict (String × ℕ) ℕ)
      → tally k (count_area a ts d)
        ≡ (if truthy a && a == some k.0 && bucket_for ts == k.1 then tally k d + 1 else tally k d)
  unfolding count_area
  tally-count_area none ts k d = ground arith
  tally-count_area (some a) ts k d = ground (arith, tally-alter k (a, bucket_for ts) 1 d)

  pub tally-collect :
      (bs : List Buffered) (batch : Batch) (k : String × ℕ)
      → tally k (collect idx now bs batch).per_area
        ≡ tally k batch.per_area + count_if (counts_for idx k) bs
  unfolding collect
  tally-collect [] batch k = omega arith
  tally-collect (b ∷ bs) batch k = ground (
    arith,
    tally-collect bs (add_event idx now b batch) k,
    tally-count_area (ref_area (lookup b.0.entity_id idx)) b.0.ts_ms k batch.per_area,
  )

  pub entries_of-collect :
      (bs : List Buffered) (batch : Batch) (k : String)
      → entries_of k batch.per_entity_last ≤ 1
      → entries_of k (collect idx now bs batch).per_entity_last
        ≡ (if any (is_of k) bs then 1 else entries_of k batch.per_entity_last)
  unfolding collect
  entries_of-collect [] batch k h = refl
  entries_of-collect (b ∷ bs) batch k h = ground (
    arith,
    entries_of-collect bs (add_event idx now b batch) k,
    entries_of-put k b.0.entity_id b.0.ts_ms batch.per_entity_last,
  )
