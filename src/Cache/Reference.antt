-- ===== src/Cache/Reference.antt =====
-- What the cache promises: each set is the list of the tags that it holds, the most recently used
-- first. A use moves its tag to the front, and at most `ways` tags stay.
use cos375_project.Base.{
  ℕ, ◌+◌, ◌/◌, ◌%◌, ◌^◌, Bool, false, ◌||◌, List, [], ◌∷◌, take, ◌==◌, if◌then◌else◌,
}

unfoldable pub elem : ℕ → List ℕ → Bool
elem t [] = false
elem t (u ∷ r) = u == t || elem t r

unfoldable pub remove : ℕ → List ℕ → List ℕ
remove t [] = []
remove t (u ∷ r) = if u == t then r else u ∷ remove t r

unfoldable pub touch : ℕ → ℕ → List ℕ → List ℕ
touch ways t r = take ways (t ∷ remove t r)

-- A whole cache of such sets, addressed by the bits of an address: `offset` bits below the set's
-- index, `index` bits of it, and the tag above.
unfoldable pub set_index : ℕ → ℕ → ℕ → ℕ
set_index offset index address = address / 2 ^ offset % 2 ^ index

unfoldable pub block_tag : ℕ → ℕ → ℕ → ℕ
block_tag offset index address = address / 2 ^ (offset + index)

module _ (offset index ways : ℕ) where
  -- The tags of every set after an access.
  unfoldable pub use_block : (ℕ → List ℕ) → ℕ → ℕ → List ℕ
  use_block held address j =
      if j == set_index offset index address
      then touch ways (block_tag offset index address) (held j)
      else held j

  -- Which accesses of a sequence hit.
  unfoldable pub hits_of : (ℕ → List ℕ) → List ℕ → List Bool
  hits_of held [] = []
  hits_of held (address ∷ rest) =
      elem (block_tag offset index address) (held (set_index offset index address))
      ∷ hits_of (use_block held address) rest
