-- ===== src/Agent/Checkpointer.antt =====
-- agent/checkpointer.go: `FileCheckpointer`. The disk is a map from paths to contents, and whether
-- a read succeeds and how a write ends are arguments.
pub mod Runs
mod Tests
use deepagent.Base.{
  ℕ, take, ◌≡◌, ◌≢◌, ◌↔◌, refl, ap, ◌∙◌, sym, subst, arith, inl, inr, Bool, true, false, not, ◌||◌,
  Option, none, some, List, [], ◌∷◌, ◌++◌, if◌then◌else◌, Bool-cases,
}
use deepagent.Base.Text.{
  Str, lit, str_eq, str_eq_refl, str_eq_iff, is_empty, contains, contains_any, has_prefix,
}
use deepagent.Base.Path.{is_abs, clean, join}
use deepagent.Base.Path.Laws.{join-json_name}
use deepagent.Agent.Types.{Result, ok, err, State}
use deepagent.Memory.{find, insert, find-insert}

-- `%q`, and the JSON of a state.
pub record Library : Type 0 where
  pub quote : Str → Str
  pub marshal : State → Result Str
  pub unmarshal : Str → Result State

abbrev pub Disk : Type 0
Disk = List (Str × Str)

-- How `os.WriteFile` ends: well, with a file that could not be opened, or after the file was emptied
-- and some of the text was written.
pub data Write : Type 0 where
  done not_opened : Write
  stopped : ℕ → Write

true≢false : true ≢ false
true≢false e = cc

str_eq-false : (s t : Str) → str_eq s t ≡ false → s ≢ t
str_eq-false s t differ e = true≢false (sym ((str_eq_iff s t).1 e) ∙ differ)

module _ (lib : Library) where
  unfoldable pub validate_path_component : Str → Str → Option Str
  validate_path_component v what =
      let unsafe : Option Str = some (lit "unsafe " ++ what ++ lit ": " ++ lib.quote v) in
      let cleaned = clean v in
      if is_empty v
      then none
      else if is_abs v
      then some (what ++ lit " must not be an absolute path")
      else if contains_any v (lit "/\\") || contains v (lit "..")
      then unsafe
      else if str_eq cleaned (lit ".") || str_eq cleaned (lit "..") || has_prefix cleaned (lit "..")
      then unsafe
      else none

  abbrev pub path_of : Str → Str → Str
  path_of dir thread = join dir (thread ++ lit ".json")

  abbrev write_file : Write → Str → Str → Disk → Option Str × Disk
  write_file done path text disk = (none, insert disk path text)
  write_file not_opened path text disk = (some (lit "open failed"), disk)
  write_file (stopped n) path text disk =
      (some (lit "write failed"), insert disk path (take n text))

  abbrev store : Write → Str → Result Str → Disk → Option Str × Disk
  store writes path (err e) disk = (some e, disk)
  store writes path (ok text) disk = write_file writes path text disk

  abbrev save_valid : Write → Str → Option Str → Result Str → Disk → Option Str × Disk
  save_valid writes path (some e) text disk = (some e, disk)
  save_valid writes path none text disk = store writes path text disk

  unfoldable pub save : Write → Str → Str → State → Disk → Option Str × Disk
  unfolding validate_path_component insert
  save writes dir thread state disk =
      save_valid writes (path_of dir thread) (validate_path_component thread (lit "thread_id"))
        (lib.marshal state) disk

  abbrev parsed : Result State → Result (Option State)
  parsed (err e) = err e
  parsed (ok state) = ok (some state)

  abbrev read : Option Str → Result (Option State)
  read none = ok none
  read (some text) = parsed (lib.unmarshal text)

  abbrev load_valid : Bool → Option Str → Option Str → Result (Option State)
  load_valid reads (some e) text = err e
  load_valid reads none text = if reads then read text else err (lit "read failed")

  -- `Load`; `none` is a state that is not there
  unfoldable pub load : Bool → Str → Str → Disk → Result (Option State)
  unfolding validate_path_component find
  load reads dir thread disk =
      load_valid reads (validate_path_component thread (lit "thread_id"))
        (find disk (path_of dir thread))

  -- What the checkpointer relies on: the state is read back from its JSON.
  pub record IsFaithful (state : State) : Type 0 where
    pub reads_back : (text : Str) → lib.marshal state ≡ ok text → lib.unmarshal text ≡ ok state

  -- A name that is accepted has no separator.
  accepted-plain :
      (t what : Str) → validate_path_component t what ≡ none → contains_any t (lit "/\\") ≡ false
  unfolding validate_path_component contains_any
  accepted-plain [] what h = refl
  accepted-plain (c ∷ t) what h = ground (arith)

  -- Threads with names that are accepted have paths of their own.
  path_of-injective :
      (dir t t' : Str)
      → dir ≢ []
      → validate_path_component t (lit "thread_id") ≡ none
      → validate_path_component t' (lit "thread_id") ≡ none
      → path_of dir t ≡ path_of dir t'
      → t ≡ t'
  path_of-injective dir t t' full h h' e =
      join-json_name dir t t' full (accepted-plain t (lit "thread_id") h)
        (accepted-plain t' (lit "thread_id") h') e

  -- What a save that returns no error has done.
  save_valid-none :
      (writes : Write) (path : Str) (v : Option Str) (r : Result Str) (disk : Disk)
      → (save_valid writes path v r disk).0 ≡ none
      → (text : Str) × (v ≡ none)
        × (r ≡ ok text)
        × ((save_valid writes path v r disk).1 ≡ insert disk path text)
  save_valid-none writes path (some e) r disk h = cc
  save_valid-none writes path none (err e) disk h = cc
  save_valid-none done path none (ok text) disk h = (text, refl, refl, refl)
  save_valid-none not_opened path none (ok text) disk h = cc
  save_valid-none (stopped n) path none (ok text) disk h = cc

  load_valid-none :
      (v : Option Str) (found : Option Str) (text : Str) (state : State)
      → v ≡ none
      → found ≡ some text
      → lib.unmarshal text ≡ ok state
      → load_valid true v found ≡ ok (some state)
  load_valid-none v found text state valid there back =
      ap (λ o. load_valid true o found) valid ∙ ap read there ∙ ap parsed back

  -- a refused name is refused before the disk is looked at
  load_valid-same :
      (v : Option Str) (found found' : Option Str)
      → (v ≡ none → found ≡ found')
      → load_valid true v found ≡ load_valid true v found'
  load_valid-same none found found' h = ap read (h refl)
  load_valid-same (some e) found found' h = refl

  load_valid-ok :
      (v : Option Str) (found : Option Str) (o : Option State)
      → load_valid true v found ≡ ok o
      → v ≡ none
  load_valid-ok none found o h = refl
  load_valid-ok (some e) found o h = cc

  -- A name for which a load returns no error is accepted.
  pub load-accepted :
      (dir thread : Str) (disk : Disk) (o : Option State)
      → load true dir thread disk ≡ ok o
      → validate_path_component thread (lit "thread_id") ≡ none
  unfolding load
  load-accepted dir thread disk o h = load_valid-ok _ _ o h

  find-other :
      (disk : Disk) (path text path' : Str)
      → path ≢ path'
      → find (insert disk path text) path' ≡ find disk path'
  find-other disk path text path' differ = elim (Bool-cases (str_eq path path')) [
    | inl same ↦ absurd (differ ((str_eq_iff path path').0 same))
    | inr other ↦
        find-insert disk path text path' ∙ ap (λ b. if b then some text else find disk path') other
  ]

  find-same : (disk : Disk) (path text : Str) → find (insert disk path text) path ≡ some text
  find-same disk path text =
      find-insert disk path text path
      ∙ ap (λ b. if b then some text else find disk path) (str_eq_refl path)

  -- With faithful JSON, a directory that has a name, and a disk that can be read, after a save that
  -- returns no error a load of the same thread returns the state that was saved, and a load of
  -- another thread returns what it returned before.
  pub load-save :
      (writes : Write) (dir thread other : Str) (state : State) (disk : Disk)
      → IsFaithful state
      → dir ≢ []
      → (save writes dir thread state disk).0 ≡ none
      → load true dir other (save writes dir thread state disk).1
        ≡ (if str_eq thread other then ok (some state) else load true dir other disk)
  unfolding load save
  load-save writes dir thread other state disk faithful full h =
      let (text, valid, json, after) = save_valid-none writes (path_of dir thread) _ _ disk h in
      let moved : load true dir other (save writes dir thread state disk).1
          ≡ load true dir other (insert disk (path_of dir thread) text) =
        ap (load true dir other) after in
      let back = faithful.reads_back text json in
      elim (Bool-cases (str_eq thread other)) [
        | inl same ↦
            let this = (str_eq_iff thread other).0 same in
            moved
            ∙ sym (ap (λ t. load true dir t (insert disk (path_of dir thread) text)) this)
            ∙ load_valid-none _ _ text state valid (find-same disk (path_of dir thread) text) back
            ∙ sym (ap (λ b. if b then ok (some state) else load true dir other disk) same)
        | inr differ ↦
            let apart : thread ≢ other = str_eq-false thread other differ in
            moved
            ∙ load_valid-same (validate_path_component other (lit "thread_id")) _ _ (λ accepted.
              find-other disk (path_of dir thread) text (path_of dir other)
                (λ e. apart (path_of-injective dir thread other full valid accepted e)))
            ∙ sym (ap (λ b. if b then ok (some state) else load true dir other disk) differ)
      ]
