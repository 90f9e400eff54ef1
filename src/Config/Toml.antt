-- ===== src/Config/Toml.antt =====
-- What `tomllib.loads` makes of src/ai_ha's config.toml: a dict of values, some of which are dicts.
-- Numbers with a point stand as their text, and dates and times are not used by the program.
use ai_home_assistant.Prelude.{
  String, Option, none, some, Bool, List, [], ◌∷◌, ◌≡◌, refl, arith, if◌then◌else◌, ◌==◌, string_eq,
}
use ai_home_assistant.Prelude.Int.{ℤ}

mutual
  pub data Value : Type 0 where
    text decimal : String → Value
    integer : ℤ → Value
    flag : Bool → Value
    array : Values → Value
    table : Fields → Value

  pub data Values : Type 0 where
    nil : Values
    cons : Value → Values → Values

  pub data Fields : Type 0 where
    end : Fields
    entry : String → Value → Fields → Fields

-- `d.get(key)`
unfoldable pub find : String → Fields → Option Value
find key end = none
find key (entry k v fs) = if k == key then some v else find key fs

-- `d[key] = value`: a key that is there keeps its place.
unfoldable pub set : String → Value → Fields → Fields
set key value end = entry key value end
set key value (entry k v fs) = if k == key then entry k value fs else entry k v (set key value fs)

-- A list of texts.
unfoldable pub texts : List String → Values
texts [] = nil
texts (s ∷ ss) = cons (text s) (texts ss)

pub find-set :
    (key k : String) (value : Value) (fs : Fields)
    → find k (set key value fs) ≡ (if key == k then some value else find k fs)
unfolding find set
find-set key k value end = refl
find-set key k value (entry j v fs) = ground (
  arith,
  string_eq.same_iff j key,
  string_eq.same_iff j k,
  string_eq.same_iff key k,
  find-set key k value fs,
)
