-- ===== src/Memory/Files/Tests.antt =====
-- A disk that is a list of files, and the file store on it.
use deepagent.Base.{◌≡◌, refl, true, false, none, some, List, [], ◌∷◌, Bool}
use deepagent.Base.Text.{Str, lit, str_eq, split_by, contains, contains_any, has_prefix}
use deepagent.Base.Path.{named_parts, joined, parts, is_abs, render}
use deepagent.Agent.Types.{ok}
use deepagent.Memory
use deepagent.Memory.{find, insert}
use deepagent.Memory.Contract.{StoreOps, PutCall}
use deepagent.Memory.Files.Refinement.{file_store, accepted_names}
use deepagent.Memory.Redis.{Codec}
use deepagent.Memory.Files.{Os, file_get, file_put, file_list, new_memory_store, file}

abbrev Disk : Type 0
Disk = List (Str × Str)

-- A path as its components spell it.
abbrev spelled : Str → Str
spelled path = render (is_abs path) (parts path)

-- The directory `m/t` has one file, for the key `k`.
abbrev os : Os Disk
os = record {
  read_file = λ path w. ok (find w (spelled path));
  write_file = λ path text w. (none, insert w (spelled path) text);
  mkdir_all = λ path w. w;
  read_dir = λ path w. ok (some ((lit "k.json", false) ∷ (lit "sub", true) ∷ []));
}

abbrev texts : Codec Str
texts = record { marshal = λ value. ok value; unmarshal = λ text. ok text }

abbrev after : Disk
after = (file_put os texts (λ t. t) (lit "./m") (lit "t") (lit "k") (lit "v") []).1

-- What is put is read back.
read_back : file_get os texts (λ t. t) (lit "./m") (lit "t") (lit "k") after ≡ ok (some (lit "v"))
unfolding file_get file_put find insert str_eq split_by named_parts joined contains contains_any
    has_prefix
read_back = refl

-- The listed name is that of the file, and does not read back.
listed_name :
    (file_list os texts (λ t. t) (lit "./m") (lit "t") after ≡ ok (lit "k.json" ∷ []))
    × (file_get os texts (λ t. t) (lit "./m") (lit "t") (lit "k.json") after ≡ ok none)
unfolding file_get file_put file_list find insert str_eq split_by named_parts joined contains
    contains_any has_prefix
listed_name = (refl, refl)

default_store : new_memory_store [] [] ≡ ok (file (lit "./.memory"))
unfolding new_memory_store
default_store = refl

abbrev disk_store : StoreOps Disk Str
disk_store = file_store os texts (λ t. t) (lit "./m")

abbrev names : Str → Str → Bool
names = accepted_names os texts (λ t. t) (lit "./m")

abbrev two_puts : List (PutCall names disk_store)
two_puts = (lit "u", lit "k", lit "1") ∷ (lit "t", lit "k", lit "2") ∷ []
