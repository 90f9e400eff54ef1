-- ===== src/Store/Exec.antt =====
-- The database of src/ai_ha/store/migrations/001_initial.sql, and methods that read and write it
-- and may raise. What was committed before a raise stays, so the state comes back beside the error.
use ai_home_assistant.Prelude.{
  ◌⊎◌, inl, inr, ◌≡◌, refl, ◌⊎◌, ◌≡◌, ℕ, String, Bool, true, false, List, [], ◌∷◌,
}
use ai_home_assistant.Prelude.Dict.{Dict}
use ai_home_assistant.Store.Rows.{AreaRow, DeviceRow, EntityRow, EventRow, SnapshotRow}

-- `events` and `snapshots` stand newest first, and an AUTOINCREMENT counter is the last id given.
-- A counter's key is (area_id, hour_bucket_utc); a value of `kv_meta` is (value, updated_at).
pub record Db : Type 0 where
  pub areas : Dict String AreaRow
  pub devices : Dict String DeviceRow
  pub entities : Dict String EntityRow
  pub events : List (ℕ × EventRow)
  pub event_seq : ℕ
  pub counters : Dict (String × ℕ) ℕ
  pub privacy_drops : Dict ℕ ℕ
  pub kv_meta : Dict String (String × ℕ)
  pub snapshots : List SnapshotRow
  pub snapshot_seq : ℕ

abbrev pub empty_db : Db
empty_db = record {
  areas = [];
  devices = [];
  entities = [];
  events = [];
  event_seq = 0;
  counters = [];
  privacy_drops = [];
  kv_meta = [];
  snapshots = [];
  snapshot_seq = 0;
}

pub data Error : Type 0 where
  sqlite_error integrity_error key_error : Error

pub data Result {ℓ} (A : Type ℓ) : Type ℓ where
  ok : A → Result A
  raise : Error → Result A

-- `faults` is what the environment does to the coming write transactions: `true` makes one fail
-- (a busy database, a full disk), and past the end of the list none fails.
pub record World : Type 0 where
  pub db : Db
  pub faults : List Bool

abbrev pub Exec : Type 0 → Type 0
Exec A = World → Result A × World

module _ {A : Type 0} where
  abbrev pub pure : A → Exec A
  pure a w = (ok a, w)

  abbrev pub continue : {B : Type 0} → Result A → (A → Exec B) → Exec B
  continue (ok a) f w = f a w
  continue (raise x) f w = (raise x, w)

infixl 10 ◌>>=◌ ◌>>◌
abbrev pub ◌>>=◌ : {A B : Type 0} → Exec A → (A → Exec B) → Exec B
◌>>=◌ m f w = let (r, w') = m w in continue r f w'

abbrev pub ◌>>◌ : {A B : Type 0} → Exec A → Exec B → Exec B
m >> k = m >>= λ _. k

-- What a body left of the database: its commit, or a rollback.
abbrev pub finish : {A : Type 0} → Db → List Bool → Result (A × Db) → Result A × World
finish db rest (ok (a, db')) = (ok a, record { db = db'; faults = rest })
finish db rest (raise x) = (raise x, record { db = db; faults = rest })

abbrev pub run_transaction :
    {A : Type 0} → (Db → Result (A × Db)) → Db → List Bool → Result A × World
run_transaction body db [] = finish db [] (body db)
run_transaction body db (true ∷ rest) = (raise sqlite_error, record { db = db; faults = rest })
run_transaction body db (false ∷ rest) = finish db rest (body db)

-- `async with self._db.connect() as c: ...; await c.commit()`: the body's writes are committed
-- together or not at all.
unfoldable pub transaction : {A : Type 0} → (Db → Result (A × Db)) → Exec A
transaction body w = run_transaction body w.db w.faults

-- Inversion of a sequence that returned.
pub >>=-eq-ok :
    {A B : Type 0} (m : Exec A) (f : A → Exec B) (w : World) {b : B}
    → ((m >>= f) w).0 ≡ ok b
    → (a : A) × ((m w).0 ≡ ok a) × ((m >>= f) w ≡ f a (m w).1)
>>=-eq-ok {A} {B} m f w h = continue-eq-ok (m w).0 f (m w).1 h
  where
    continue-eq-ok :
        (r : Result A) (f : A → Exec B) (w' : World) {b : B}
        → (continue r f w').0 ≡ ok b
        → (a : A) × (r ≡ ok a) × (continue r f w' ≡ f a w')
    continue-eq-ok (ok a) f w' h = (a, refl, refl)
    continue-eq-ok (raise x) f w' h = cc

pub Result-cases {ℓ} :
    {A : Type ℓ} (r : Result A) → ((a : A) × (r ≡ ok a)) ⊎ ((x : Error) × (r ≡ raise x))
Result-cases (ok a) = inl (a, refl)
Result-cases (raise x) = inr (x, refl)
