-- ===== src/Memory/Files/Refinement.antt =====
-- memory/store.go against memory/redis_inmemory.go: the file store behaves as the map of maps.
use deepagent.Base.{◌≡◌, ◌≢◌, Bool, true, false, not, ◌&&◌, Option, none, some, [], ◌∷◌, All}
use deepagent.Base.Path.{parts}
use deepagent.Base.Path.Laws.{IsDown}
use deepagent.Base.Text.{Str, is_empty}
use deepagent.Memory
use deepagent.Memory.Contract.{StoreOps, IsStore}
use deepagent.Memory.Redis.{Codec}
use deepagent.Memory.Redis.Refinement.{ReadsBack}
use deepagent.Memory.Files.{Os, checked, file_get, file_put}
use deepagent.Memory.Files.RoundTrip.{KeepsFiles, file_get-file_put}

abbrev pub is_none : Option Str → Bool
is_none none = true
is_none (some e) = false

module _ {W V : Type 0} (os : Os W) (codec : Codec V) (quote : Str → Str) (dir : Str) where
  abbrev pub file_store : StoreOps W V
  file_store = record { get = file_get os codec quote dir; put = file_put os codec quote dir }

  -- A namespace that has a name, and a key, that the store does not refuse.
  abbrev pub accepted_names : Str → Str → Bool
  accepted_names namespace key =
      not (is_empty namespace) && is_none (checked os codec quote dir namespace key)

  accepted-named : (namespace key : Str) → accepted_names namespace key ≡ true → namespace ≢ []
  accepted-named [] key h e = cc
  accepted-named (c ∷ namespace) key h e = cc

  -- The store keeps the promise of a store.
  pub file_store-IsStore :
      KeepsFiles os dir
      → ReadsBack codec
      → All IsDown (parts dir)
      → dir ≢ []
      → IsStore accepted_names file_store
  file_store-IsStore keeps json steps full = record {
    get_put = λ namespace key value namespace' key' w _ good done.
        file_get-file_put os codec quote dir keeps json namespace key value namespace' key' w steps
          full (accepted-named namespace' key' good) done;
  }
